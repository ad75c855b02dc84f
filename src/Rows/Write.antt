-- ===== src/Rows/Write.antt =====
-- write_row of plugin/ha_tidesdb.cc, from where the primary key is built.
use tidesdb_mysql.Base.{
  ℕ, suc, ◌+◌, ◌-◌, ◌%◌, ◌^◌, Bool, true, false, not, ◌&&◌, ◌||◌, Option, none, some, List,
  if◌then◌else◌, ltb, leb, ◌==◌, pos, ◌+ℤ◌, length, take, drop,
}
use tidesdb_mysql.Codes.{is_success, is_not_found, ha_ok, ha_found_dupp_key, ha_generic}
use tidesdb_mysql.RowLock.{bytes_eq}
use tidesdb_mysql.Key.{encode_be64}
use tidesdb_mysql.Rows.{
  Index, Kind, TableDef, Env, Store, Handler, Step, and_then, call, call_ha, ha_of, regular,
  fulltext, rtree,
}
use tidesdb_mysql.Rows.Key.{make_comparable_key, pk_from_record, build_data_key}
use tidesdb_mysql.Rows.Serialize.{serialize_row}
use tidesdb_mysql.Rows.Entries.{entries, word_count}
use tidesdb_mysql.Rows.Engine.{put_all, fts_update_meta, bulk_tail, mark_dirty, maintain}

abbrev pub is_regular : Kind → Bool
is_regular regular = true
is_regular fulltext = false
is_regular rtree = false

module _ {Row W : Type 0} (s : Store W) (e : Env) (d : TableDef Row) where
  -- The counters of a full-text index: in a bulk insert they are added up for its end.
  unfoldable pub count_document : Kind → Index Row → Row → ℕ → Step W
  count_document regular ix row i h = (ha_ok, h)
  count_document rtree ix row i h = (ha_ok, h)
  count_document fulltext ix row i h =
      if h.in_bulk_insert && ltb i e.max_key
      then (
        ha_ok,
        record h {
          doc_delta = λ j. if j == i then h.doc_delta j +ℤ pos 1 else h.doc_delta j;
          word_delta =
              λ j. if j == i then h.word_delta j +ℤ pos (word_count e d ix row) else h.word_delta j;
        },
      )
      else fts_update_meta s i (pos 1) (pos (word_count e d ix row)) h

  unfoldable pub write_index : Row → List ℕ → ℕ → Index Row → Step W
  write_index row pk i ix h =
      and_then (put_all s (suc i) (d.ttl row) (entries e d ix row pk) h)
        (count_document ix.kind ix row i)

  -- The user's primary key, or the next hidden row id.
  unfoldable pub new_pk : Row → Handler W → List ℕ
  new_pk row h =
      if d.has_user_pk then pk_from_record e.stale d h.current_pk row else encode_be64 h.next_row_id

  unfoldable pub take_row_id : Handler W → Handler W
  take_row_id h =
      if d.has_user_pk then h else record h { next_row_id = (h.next_row_id + 1) % 2 ^ 64 }

  unfoldable pub lock_row : List ℕ → Step W
  lock_row pk h =
      if e.pessimistic_locking && d.has_user_pk && e.has_trx
      then call_ha (s.row_lock_acquire pk) h
      else (ha_ok, h)

  -- Whether the primary key is looked up: `auto` is pk_auto_generated, `replace` write_can_replace_.
  unfoldable pub checks_pk : Bool → Bool → Bool
  checks_pk auto replace =
      d.has_user_pk
      && not (e.skip_unique_check || auto)
      && not (replace && d.num_secondary_indexes == 0)

  unfoldable pub pk_dup_check : Bool → Bool → List ℕ → Step W
  pk_dup_check auto replace pk h =
      let rc = (s.get 0 (build_data_key pk) h.world).0 in
      if checks_pk auto replace
      then if is_success rc
        then (ha_found_dupp_key, record h { dup_key = some d.pk_index; dup_ref = pk })
        else if is_not_found rc
        then (ha_ok, h)
        else (ha_of rc, h)
      else (ha_ok, h)

  -- The key that was found begins with the prefix: the rest of it is the primary key of the other row.
  unfoldable pub unique_hit : ℕ → List ℕ → List ℕ → Step W
  unique_hit i prefix found h =
      if leb (length prefix) (length found) && bytes_eq (take (length prefix) found) prefix
      then (
        ha_found_dupp_key,
        record h {
          dup_key = some i;
          dup_ref =
              if ltb (length prefix) (length found)
                && leb (length found - length prefix) e.ref_length
              then drop (length prefix) found
              else h.dup_ref;
        },
      )
      else (ha_ok, h)

  unfoldable pub unique_found : ℕ → List ℕ → Option (List ℕ) → Step W
  unique_found i prefix none h = (ha_ok, h)
  unique_found i prefix (some key) h = unique_hit i prefix key h

  unfoldable pub unique_check : Row → ℕ → Index Row → Step W
  unique_check row i ix h =
      let prefix = make_comparable_key e.stale ix.parts row in
      let (rc, found) = s.seek (suc i) prefix h.world in
      if is_regular ix.kind && ix.nosame
      then if is_success rc then unique_found i prefix found h else (ha_of rc, h)
      else (ha_ok, h)

  unfoldable pub unique_checks : Row → Step W
  unique_checks row h = if e.skip_unique_check then (ha_ok, h) else maintain d (unique_check row) h

  -- From the put of the row on.
  unfoldable pub store_row : Row → List ℕ → List ℕ → Step W
  store_row row pk bytes h = and_then (call (s.put 0 (build_data_key pk) bytes (d.ttl row)) h) (λ g.
      and_then (maintain d (write_index row pk) (record g { current_pk = pk }))
        (λ g'. bulk_tail s e g'.in_bulk_insert (1 + d.num_secondary_indexes) g'))

  unfoldable pub write_checked : Bool → Bool → Row → List ℕ → List ℕ → Step W
  write_checked auto replace row pk bytes h =
      and_then (and_then (lock_row pk (mark_dirty s e h)) (pk_dup_check auto replace pk))
        (λ g. and_then (unique_checks row g) (store_row row pk bytes))

  -- With what the row is encoded to, or none.
  unfoldable pub write_encoded : Bool → Bool → Row → List ℕ → Option (List ℕ) → Step W
  write_encoded auto replace row pk none h = (ha_generic, h)
  write_encoded auto replace row pk (some bytes) h =
      and_then (call_ha s.ensure_stmt_txn h) (write_checked auto replace row pk bytes)

  unfoldable pub write_row : Bool → Bool → Row → Step W
  write_row auto replace row h =
      write_encoded auto replace row (new_pk row h) (serialize_row d row) (take_row_id h)
