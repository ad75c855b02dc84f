-- ===== src/Rows/Bulk.antt =====
-- The frames of bulk operations, plugin/ha_tidesdb.cc: start_bulk_insert, end_bulk_insert and the same for
-- updates and deletes. `has_txn` says whether the statement has a transaction.
use tidesdb_mysql.Base.{
  ℕ, ◌+◌, Bool, true, false, not, ◌&&◌, List, [], ◌∷◌, if◌then◌else◌, ltb, leb, ◌==◌, length, ℤ,
  pos, to_u64,
}
use tidesdb_mysql.Codes.{Ha, ha_ok}
use tidesdb_mysql.Fts.{update_meta}
use tidesdb_mysql.Rows.{
  Index, Kind, TableDef, Env, Store, Handler, Step, is_ok, ha_of, regular, fulltext, rtree,
}
use tidesdb_mysql.Rows.Engine.{ttl_none}

module _ {Row W : Type 0} (s : Store W) (e : Env) (d : TableDef Row) where
  -- The deltas of the keys that the table has.
  unfoldable pub start_bulk_insert : Handler W → Handler W
  start_bulk_insert h = record h {
    in_bulk_insert = true;
    bulk_insert_ops = 0;
    doc_delta = λ i. if ltb i (length d.keys) && ltb i e.max_key then pos 0 else h.doc_delta i;
    word_delta = λ i. if ltb i (length d.keys) && ltb i e.max_key then pos 0 else h.word_delta i;
  }

  abbrev pub is_zero : ℤ → Bool
  is_zero n = to_u64 n == 0

  abbrev pub is_fulltext : Kind → Bool
  is_fulltext regular = false
  is_fulltext fulltext = true
  is_fulltext rtree = false

  -- The totals of one key, whose deltas are then cleared.
  unfoldable pub flush_meta : ℕ → Step W
  flush_meta i h =
      let x =
        update_meta (λ key w. ((s.get 0 key w).0, (s.get 0 key w).1, w))
          (λ key value w. s.put 0 key value ttl_none w) i (h.doc_delta i) (h.word_delta i)
          h.world in
      (
        ha_of x.0,
        record h {
          world = x.1;
          doc_delta = λ j. if j == i then pos 0 else h.doc_delta j;
          word_delta = λ j. if j == i then pos 0 else h.word_delta j;
        },
      )

  -- From the key number `i` on; the first error is kept, and the other keys are written all the same.
  unfoldable pub flush_all : ℕ → List (Index Row) → Ha → Step W
  flush_all i [] sticky h = (sticky, h)
  flush_all i (ix ∷ keys) sticky h =
      let x = flush_meta i h in
      let taken =
        ltb i e.max_key
        && not (is_zero (h.doc_delta i) && is_zero (h.word_delta i))
        && is_fulltext ix.kind in
      flush_all (i + 1) keys (if taken && is_ok sticky then x.0 else sticky)
        (if taken then x.1 else h)

  unfoldable pub end_bulk_insert : Bool → Step W
  end_bulk_insert has_txn h =
      let ended : Handler W = record h { in_bulk_insert = false } in
      if has_txn then flush_all 0 d.keys ha_ok ended else (ha_ok, ended)

-- True says that the server shall update row by row.
unfoldable pub start_bulk_update : {W : Type 0} → Handler W → Bool × Handler W
start_bulk_update h = (true, record h { in_bulk_update = false; bulk_insert_ops = 0 })

unfoldable pub end_bulk_update : {W : Type 0} → Handler W → Handler W
end_bulk_update h = record h { in_bulk_update = false }

unfoldable pub start_bulk_delete : {W : Type 0} → Handler W → Handler W
start_bulk_delete h = record h {
  in_bulk_delete = true;
  bulk_insert_ops = 0;
  bulk_delete_rows = 0;
  bulk_delete_min_pk = [];
  bulk_delete_max_pk = [];
}

-- `compact_range` asks the engine to compact the range of the deleted rows.
unfoldable pub end_bulk_delete :
    {W : Type 0} → Env → (List ℕ → List ℕ → W → W) → Handler W → Handler W
end_bulk_delete {W = W} e compact_range h =
    let ended : Handler W = record h {
      in_bulk_delete = false;
      bulk_delete_rows = 0;
      bulk_delete_min_pk = [];
      bulk_delete_max_pk = [];
    } in
    if ltb 0 e.compact_after_range_delete_min_rows
      && leb e.compact_after_range_delete_min_rows h.bulk_delete_rows
      && ltb 0 (length h.bulk_delete_min_pk)
      && ltb 0 (length h.bulk_delete_max_pk)
    then record ended { world = compact_range h.bulk_delete_min_pk h.bulk_delete_max_pk h.world }
    else ended
