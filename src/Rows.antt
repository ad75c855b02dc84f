-- ===== src/Rows.antt =====
-- Rows and their index entries, plugin/ha_tidesdb.cc: write_row, update_row and delete_row of a handler.
-- A record buffer is a `Row`, of any type; what the server's Field and Charset classes read from it are
-- functions of the row. `W` is the state of the engine, seen from the transaction of the statement. The
-- column family 0 holds the rows, and the family i + 1 the entries of the key number i. The calls of
-- the engine stand for those with the retries of plugin/tidesdb_retry.h.
pub mod Key
pub mod Serialize
pub mod Deserialize
pub mod Addresses
pub mod Slots
pub mod DecodeBack
pub mod AddedColumns
pub mod DecodeRow
pub mod StoredRow
pub mod Entries
pub mod Engine
pub mod Write
pub mod Delete
pub mod Update
pub mod KeyLength
pub mod Owner
pub mod Contents
pub mod Represents
pub mod Quiet
pub mod WriteIndex
pub mod SetRow
pub mod WriteChecks
pub mod WriteKeeps
pub mod DeleteKeeps
pub mod UpdateIndex
pub mod UpdateEntries
pub mod UpdateKeeps
pub mod TermDiff
pub mod TermSwap
pub mod UpdateRow
pub mod Duplicate
pub mod KeyRead
pub mod Covering
pub mod AutoIncrement
pub mod Unique
pub mod Bulk
pub mod Memory
pub mod Examples
pub mod ReadExamples
pub mod DecodeExamples
use tidesdb_mysql.Base.{ℕ, zero, suc, Bool, true, false, Option, none, some, List, [], ◌∷◌, ℤ}
use tidesdb_mysql.Codes.{
  Rc, Ha, tdb_rc_to_ha, ha_ok, ha_lock_deadlock, ha_lock_wait_timeout, ha_record_file_full,
  ha_out_of_mem, ha_key_not_found, ha_found_dupp_key, ha_read_only_transaction, ha_crashed,
  ha_too_big_row, ha_internal_error, ha_generic, ha_no_savepoint,
}
use tidesdb_mysql.Fts.Tokens.{Charset, Settings}

-- A part of a key: `length` is kp->length, `sort_key` what make_sort_key writes, and `value` the
-- bytes of the column. `binary_varstring` is a VARCHAR of the binary charset.
pub record Part (Row : Type 0) : Type 0 where
  pub length : ℕ
  pub field_nr : ℕ
  pub nullable : Bool
  pub is_null : Row → Bool
  pub binary_varstring : Bool
  pub field_length : ℕ
  pub value : Row → List ℕ
  pub sort_key : Row → List ℕ

pub data Kind : Type 0 where
  regular fulltext rtree : Kind

-- A key of the table. `columns` are its columns as strings, none for NULL; `geometry` is the first one.
pub record Index (Row : Type 0) : Type 0 where
  pub kind : Kind
  pub has_cf : Bool
  pub nosame : Bool
  pub parts : List (Part Row)
  pub charset : Charset
  pub columns : Row → List (Option (List ℕ))
  pub geometry : Row → List ℕ

-- A column for the row format: NULL or not, whether it is copied, and what is stored either way.
pub record Column (Row : Type 0) : Type 0 where
  pub is_null : Row → Bool
  pub copied : Bool
  pub raw : Row → List ℕ
  pub packed : Row → List ℕ

-- The table, as `table` and `share` describe it. `encrypt` is none for a table that is not encrypted.
pub record TableDef (Row : Type 0) : Type 0 where
  pub has_user_pk : Bool
  pub pk_index : ℕ
  pub pk_parts : List (Part Row)
  pub keys : List (Index Row)
  pub num_secondary_indexes : ℕ
  pub null_bitmap : Row → List ℕ
  pub fields : List (Column Row)
  pub encrypt : Option (List ℕ → Option (List ℕ))
  pub ttl : Row → ℤ

-- The calls of the engine on the transaction of the statement, and the two steps of the plugin before a
-- row is written: beginning the transaction where it is not, and locking the key. `seek` is the result
-- code of opening an iterator, if it has to be opened, and the key that a seek then stands at.
pub record Store (W : Type 0) : Type 0 where
  pub get : ℕ → List ℕ → W → Rc × Option (List ℕ)
  pub put : ℕ → List ℕ → List ℕ → ℤ → W → Rc × W
  pub delete : ℕ → List ℕ → W → Rc × W
  pub single_delete : ℕ → List ℕ → W → Rc × W
  pub seek : ℕ → List ℕ → W → Rc × Option (List ℕ)
  pub commit : W → Rc × W
  pub reset : W → Rc × W
  pub free : W → W
  pub begin_again : W → Rc × W
  pub ensure_stmt_txn : W → Ha × W
  pub row_lock_acquire : List ℕ → W → Ha × W

-- What holds for the whole statement: the session's variables, the settings of the full-text parser, the
-- sum of two doubles halved, and what the length areas of a key buffer held before.
pub record Env : Type 0 where
  pub skip_unique_check : Bool
  pub single_delete_primary : Bool
  pub pessimistic_locking : Bool
  pub has_trx : Bool
  pub compact_after_range_delete_min_rows : ℕ
  pub max_key : ℕ
  pub ref_length : ℕ
  pub data_key_buf_len : ℕ
  pub settings : Settings
  pub half_sum : ℕ → ℕ → ℕ
  pub stale : ℕ → List ℕ

-- The part of the handler, of its share and of its transaction that the three operations change.
pub record Handler (W : Type 0) : Type 0 where
  pub world : W
  pub current_pk : List ℕ
  pub next_row_id : ℕ
  pub dup_key : Option ℕ
  pub dup_ref : List ℕ
  pub dirty : Bool
  pub trx_dirty : Bool
  pub txn_generation : ℕ
  pub in_bulk_insert : Bool
  pub in_bulk_update : Bool
  pub in_bulk_delete : Bool
  pub bulk_insert_ops : ℕ
  pub doc_delta : ℕ → ℤ
  pub word_delta : ℕ → ℤ
  pub bulk_delete_rows : ℕ
  pub bulk_delete_min_pk : List ℕ
  pub bulk_delete_max_pk : List ℕ

abbrev pub Step : Type 0 → Type 0
Step W = Handler W → Ha × Handler W

unfoldable pub is_ok : Ha → Bool
is_ok ha_ok = true
is_ok ha_lock_deadlock = false
is_ok ha_lock_wait_timeout = false
is_ok ha_record_file_full = false
is_ok ha_out_of_mem = false
is_ok ha_key_not_found = false
is_ok ha_found_dupp_key = false
is_ok ha_read_only_transaction = false
is_ok ha_crashed = false
is_ok ha_too_big_row = false
is_ok ha_internal_error = false
is_ok ha_generic = false
is_ok ha_no_savepoint = false

-- The code that is returned; what it logs is left out.
unfoldable pub ha_of : Rc → Ha
ha_of rc = (tdb_rc_to_ha false rc).code

-- The next part of an operation, unless the one before returned an error.
unfoldable pub and_then : {W : Type 0} → Ha × Handler W → Step W → Ha × Handler W
and_then x next = elim (is_ok x.0) [ true ↦ next x.1 | false ↦ x ]

-- A call of the engine on the world of the handler.
unfoldable pub call : {W : Type 0} → (W → Rc × W) → Step W
call f h = (ha_of (f h.world).0, record h { world = (f h.world).1 })

unfoldable pub call_ha : {W : Type 0} → (W → Ha × W) → Step W
call_ha f h = ((f h.world).0, record h { world = (f h.world).1 })
