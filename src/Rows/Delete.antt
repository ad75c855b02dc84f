-- ===== src/Rows/Delete.antt =====
-- delete_row of plugin/ha_tidesdb.cc.
use tidesdb_mysql.Base.{
  ℕ, suc, ◌+◌, Bool, true, false, List, if◌then◌else◌, sub_ℕ, ltb, leb, ◌==◌, ◌&&◌, ◌||◌, length,
  memcmp,
}
use Prim.Native.Nat.{Ordering}
use tidesdb_mysql.Rows.{
  Index, Kind, TableDef, Env, Store, Handler, Step, and_then, call, call_ha, regular, fulltext,
  rtree,
}
use tidesdb_mysql.Rows.Key.{build_data_key}
use tidesdb_mysql.Rows.Entries.{entries, word_count}
use tidesdb_mysql.Rows.Engine.{
  tidesdb_txn_delete_cf, delete_all, delete_all_unchecked, fts_update_meta, bulk_tail, mark_dirty,
  maintain,
}

-- Whether one key is before another: by memcmp, and then by length.
unfoldable pub is_before : List ℕ → List ℕ → Bool
is_before a b = elim (memcmp a b) [
  | Ordering.lt ↦ true
  | Ordering.gt ↦ false
  | Ordering.eq ↦ ltb (length a) (length b)
]

-- The range of the rows deleted so far, for an automatic compaction.
unfoldable pub track_deleted : {W : Type 0} → Env → List ℕ → Handler W → Handler W
track_deleted e dk h =
    if h.in_bulk_delete
      && ltb 0 e.compact_after_range_delete_min_rows
      && leb (length dk) e.data_key_buf_len
    then record h {
      bulk_delete_min_pk =
          if h.bulk_delete_rows == 0 || is_before dk h.bulk_delete_min_pk
          then dk
          else h.bulk_delete_min_pk;
      bulk_delete_max_pk =
          if h.bulk_delete_rows == 0 || is_before h.bulk_delete_max_pk dk
          then dk
          else h.bulk_delete_max_pk;
      bulk_delete_rows = h.bulk_delete_rows + 1;
    }
    else h

module _ {Row W : Type 0} (s : Store W) (e : Env) (d : TableDef Row) where
  unfoldable pub delete_entries : Kind → Index Row → Row → List ℕ → ℕ → Step W
  delete_entries regular ix row pk i h = delete_all s (suc i) (entries e d ix row pk) h
  delete_entries rtree ix row pk i h = delete_all_unchecked s (suc i) (entries e d ix row pk) h
  delete_entries fulltext ix row pk i h =
      and_then (delete_all_unchecked s (suc i) (entries e d ix row pk) h)
        (fts_update_meta s i (sub_ℕ 0 1) (sub_ℕ 0 (word_count e d ix row)))

  unfoldable pub delete_index : Row → List ℕ → ℕ → Index Row → Step W
  delete_index row pk i ix h = delete_entries ix.kind ix row pk i h

  unfoldable pub delete_stored : Row → List ℕ → Step W
  delete_stored row pk h =
      and_then
        (call (tidesdb_txn_delete_cf s e.single_delete_primary 0 (build_data_key pk))
          (track_deleted e (build_data_key pk) h))
        (λ g.
          and_then (maintain d (delete_index row pk) g)
            (λ g'. bulk_tail s e g'.in_bulk_delete (1 + d.num_secondary_indexes) g'))

  -- The row is the one that the handler stands at.
  unfoldable pub delete_row : Row → Step W
  delete_row row h =
      and_then (call_ha s.ensure_stmt_txn h)
        (λ g. delete_stored row g.current_pk (mark_dirty s e g))
