-- ===== src/Scan.antt =====
-- Scans of a handler, plugin/ha_tidesdb.cc: the table scan (Scan/Table), the reads of an index
-- (Scan/Index, Scan/Lookup), the steps along it (Scan/Walk) and the search of a spatial index
-- (Scan/Boxes). `I` is an iterator of the engine at a position, `W` the world: the engine, and what the
-- handler reads of the server and of its transaction. The calls of the engine stand for those with
-- retries, whose result codes the scans ignore where they only move. What Field writes into the record
-- buffer is a function.
pub mod Table
pub mod Boxes
pub mod Index
pub mod Lookup
pub mod Walk
pub mod Contract
pub mod Complete
pub mod TableScan
pub mod Group
pub mod Order
pub mod Ensure
pub mod Exact
pub mod Memory
pub mod Examples
use tidesdb_mysql.Base.{
  ℕ, zero, suc, Bool, true, false, not, ◌&&◌, ◌||◌, Option, none, some, List, [], ◌∷◌,
  if◌then◌else◌, ◌==◌, leb, length, drop,
}
use tidesdb_mysql.Codes.{
  Rc, Ha, is_success, is_not_found, ha_ok, ha_internal_error, ha_key_not_found,
}
use tidesdb_mysql.Key.{is_data_key}
use tidesdb_mysql.Spatial.{Mbr, Mode}
use tidesdb_mysql.Rows.{Store, is_ok, ha_of}
use tidesdb_mysql.Rows.Key.{build_data_key}
use tidesdb_mysql.Rows.KeyRead.{Check, check_pos, check_neg, check_out_of_range}

-- A move gives the position behind it; `next_rc` and `seek_rc` are the result codes of a step and of a
-- seek after the retries, which the scans ignore.
pub record Iterator (I : Type 0) : Type 0 where
  pub valid : I → Bool
  pub key : I → Rc × List ℕ
  pub value : I → Rc × List ℕ
  pub key_value : I → Rc × List ℕ × List ℕ
  pub next : I → I
  pub next_rc : I → Rc
  pub prev : I → I
  pub seek : List ℕ → I → I
  pub seek_rc : List ℕ → I → Rc
  pub seek_for_prev : List ℕ → I → I
  pub seek_to_first : I → I
  pub seek_to_last : I → I

-- `iter_new` opens an iterator of a transaction on a column family, `stmt_txn` and `generation` are
-- the transaction of the statement and its number. The column family 0 holds the rows. `icp` is the test
-- of a pushed condition, and `keyread` the read of the columns from an entry; either may write into the
-- record buffer. `limit` bounds the rounds of each loop.
pub record ScanEnv (Row W I : Type 0) : Type 0 where
  pub iter_new : ℕ → ℕ → W → Rc × I
  pub stmt_txn : W → ℕ
  pub generation : W → ℕ
  pub killed : W → Bool
  pub pushed_keyno : W → Option ℕ
  pub has_pushed : W → Bool
  pub in_range_pushed : W → Bool
  pub cancel_pushed : W → W
  pub has_user_pk : Bool
  pub pk_index : ℕ
  pub idx_cf : ℕ → Option ℕ
  pub idx_comp_key_len : ℕ → ℕ
  pub pk_key_len : ℕ
  pub locks_reads : Bool
  pub decode : List ℕ → Row → Row
  pub icp : ℕ → List ℕ → Row → Check × Row
  pub keyread_only : Bool
  pub keyread : ℕ → List ℕ → Row → Bool × Row
  pub limit : ℕ

pub data Dir : Type 0 where
  dir_none dir_forward dir_backward : Dir

-- The members of the handler that scans use. `spatial_ranges` are those from the current one on.
pub record Scan (Row W I : Type 0) : Type 0 where
  pub world : W
  pub buf : Row
  pub current_pk : List ℕ
  pub iter : Option I
  pub iter_cf : ℕ
  pub iter_txn : ℕ
  pub iter_gen : ℕ
  pub scan_cf : Option ℕ
  pub scan_txn : Option ℕ
  pub dir : Dir
  pub last_err : Ha
  pub last_err_cf : Option ℕ
  pub last_err_txn : Option ℕ
  pub is_pk : Bool
  pub active_index : ℕ
  pub exact_done : Bool
  pub search_comp : List ℕ
  pub spatial_active : Bool
  pub spatial_ranges : List (ℕ × ℕ)
  pub query_mbr : Mbr
  pub spatial_mode : Mode

-- What a read answers: 0, an error of the engine, HA_ERR_END_OF_FILE, or HA_ERR_ABORTED_BY_USER. The
-- last one is no answer of the code: the bound on the rounds was too small.
pub data Answer : Type 0 where
  found end_of_file aborted out_of_rounds : Answer
  failed : Ha → Answer

abbrev pub key_not_found : Answer
key_not_found = failed ha_key_not_found

unfoldable pub same_handle : Option ℕ → Option ℕ → Bool
same_handle none none = true
same_handle none (some b) = false
same_handle (some a) none = false
same_handle (some a) (some b) = a == b

abbrev pub Read : Type 0 → Type 0
Read S = S → Answer × S

module _ {Row W I : Type 0} where
  -- `if (ret == 0) scan_dir_ = d`
  unfoldable pub turned : Dir → Answer × Scan Row W I → Answer × Scan Row W I
  turned d (found, c) = (found, record c { dir = d })
  turned d (end_of_file, c) = (end_of_file, c)
  turned d (aborted, c) = (aborted, c)
  turned d (out_of_rounds, c) = (out_of_rounds, c)
  turned d (failed code, c) = (failed code, c)

  abbrev pub turn_if_found : Dir → Read (Scan Row W I) → Read (Scan Row W I)
  turn_if_found d read c = turned d (read c)

  -- The next part of an operation, unless the one before returned an error.
  unfoldable pub and_read : Ha × Scan Row W I → Read (Scan Row W I) → Answer × Scan Row W I
  and_read x read = elim (is_ok x.0) [ true ↦ read x.1 | false ↦ (failed x.0, x.1) ]

  -- A move of the iterator, where there is one.
  unfoldable pub moved : (I → I) → Scan Row W I → Scan Row W I
  moved f c = elim c.iter [ none ↦ c | some i ↦ record c { iter = some (f i) } ]

  module _ (it : Iterator I) (s : Store W) (e : ScanEnv Row W I) where
    unfoldable pub is_iter_valid : Scan Row W I → Bool
    is_iter_valid c = elim c.iter [ none ↦ false | some i ↦ it.valid i ]

    unfoldable pub fetch_row_by_pk : List ℕ → Read (Scan Row W I)
    fetch_row_by_pk pk c =
        let (rc, value) = s.get 0 (build_data_key pk) c.world in
        let row : List ℕ = elim value [ none ↦ [] | some v ↦ v ] in
        if is_not_found rc
        then (key_not_found, c)
        else if not (is_success rc)
        then (failed (ha_of rc), c)
        else (found, record c { buf = e.decode row c.buf; current_pk = pk })

    -- `iter_read_current`, with the number of rounds that it may take.
    unfoldable pub read_current : ℕ → Read (Scan Row W I)
    read_current zero c = (out_of_rounds, c)
    read_current (suc n) c = elim c.iter [
      | none ↦ (end_of_file, c)
      | some i ↦
          let (rc, key, value) = it.key_value i in
          let skip = read_current n (record c { iter = some (it.next i) }) in
          if not (it.valid i)
          then (end_of_file, c)
          else if not (is_success rc)
          then (end_of_file, c)
          else if not (is_data_key key)
          then skip
          else (found, record c { current_pk = drop 1 key; buf = e.decode value c.buf })
    ]

    unfoldable pub iter_read_current : Read (Scan Row W I)
    iter_read_current c = read_current e.limit c

    unfoldable pub fail_scan : Ha → Scan Row W I → Ha × Scan Row W I
    fail_scan code c =
        (code, record c { last_err = code; last_err_cf = c.scan_cf; last_err_txn = c.scan_txn })

    -- A new iterator, and what is remembered of it.
    unfoldable pub open_iter : ℕ → ℕ → Scan Row W I → Rc × Scan Row W I
    open_iter txn cf c =
        let (rc, i) = e.iter_new txn cf c.world in
        (
          rc,
          if is_success rc
              then record c {
                iter = some i;
                iter_cf = cf;
                iter_txn = txn;
                iter_gen = e.generation c.world;
              }
              else c,
        )

    unfoldable pub open_scan_iter : Scan Row W I → Ha × Scan Row W I
    open_scan_iter c = elim c.scan_txn [
      | none ↦ fail_scan ha_internal_error c
      | some txn ↦ elim c.scan_cf [
        | none ↦ fail_scan ha_internal_error c
        | some cf ↦
            let (rc, c') = open_iter txn cf c in
            if is_success rc
            then (ha_ok, record c' { last_err = ha_ok })
            else fail_scan (ha_of rc) c'
      ]
    ]

    unfoldable pub ensure_scan_iter : Scan Row W I → Ha × Scan Row W I
    ensure_scan_iter c = elim c.iter [
      | some i ↦ (ha_ok, c)
      | none ↦
          if not (is_ok c.last_err)
            && (same_handle c.last_err_cf c.scan_cf && same_handle c.last_err_txn c.scan_txn)
          then (c.last_err, c)
          else open_scan_iter c
    ]

    -- The iterator is freed, unless it is of this family, this transaction and this generation.
    unfoldable pub drop_stale_iter : ℕ → ℕ → Scan Row W I → Scan Row W I
    drop_stale_iter cf txn c =
        if c.iter_cf == cf && (c.iter_txn == txn && c.iter_gen == e.generation c.world)
        then c
        else record c { iter = none }
