-- ===== src/Rows/Update.antt =====
-- update_row of plugin/ha_tidesdb.cc. `touched` says of a column whether it is in the write set.
use tidesdb_mysql.Base.{
  ℕ, suc, ◌+◌, ◌*◌, Bool, true, false, not, ◌&&◌, ◌||◌, Option, none, some, List, [], ◌∷◌,
  if◌then◌else◌, ◌==◌, ◌++◌, sub_ℕ,
}
use tidesdb_mysql.Codes.{ha_ok, ha_generic}
use tidesdb_mysql.RowLock.{bytes_eq}
use tidesdb_mysql.Rows.{
  Part, Index, Kind, TableDef, Env, Store, Handler, Step, and_then, call, call_ha, regular,
  fulltext, rtree,
}
use tidesdb_mysql.Rows.Key.{pk_from_record, build_data_key, sec_idx_key, make_comparable_key}
use tidesdb_mysql.Rows.Serialize.{serialize_row}
use tidesdb_mysql.Rows.Entries.{Entry, entries, word_count, tokens, tf_map, term_entries}
use tidesdb_mysql.Rows.Engine.{
  tidesdb_txn_delete_cf, put_all, delete_all_unchecked, fts_update_meta, bulk_tail, mark_dirty,
  maintain,
}

unfoldable pub any_touched : {Row : Type 0} → (ℕ → Bool) → List (Part Row) → Bool
any_touched touched [] = false
any_touched touched (p ∷ parts) = touched p.field_nr || any_touched touched parts

unfoldable pub first_touched : {Row : Type 0} → (ℕ → Bool) → List (Part Row) → Bool
first_touched touched [] = false
first_touched touched (p ∷ parts) = touched p.field_nr

unfoldable pub count_of : List ℕ → List (List ℕ × ℕ) → Option ℕ
count_of t [] = none
count_of t ((u, n) ∷ m) = if bytes_eq u t then some n else count_of t m

-- The terms of the second map that the first does not have.
unfoldable pub keep_gone : Option ℕ → List ℕ × ℕ → List (List ℕ × ℕ) → List (List ℕ × ℕ)
keep_gone none x rest = x ∷ rest
keep_gone (some n) x rest = rest

unfoldable pub gone : List (List ℕ × ℕ) → List (List ℕ × ℕ) → List (List ℕ × ℕ)
gone new [] = []
gone new ((t, n) ∷ old) = keep_gone (count_of t new) (t, n) (gone new old)

-- The terms that have to be put: new ones, those with another count, and all if the length differs.
unfoldable pub needs : Bool → Option ℕ → ℕ → Bool
needs doc_len_changed none n = true
needs doc_len_changed (some m) n = doc_len_changed || not (m == n)

unfoldable pub need_put : Bool → List (List ℕ × ℕ) → List ℕ × ℕ → Bool
need_put doc_len_changed old (t, n) = needs doc_len_changed (count_of t old) n

unfoldable pub changed : Bool → List (List ℕ × ℕ) → List (List ℕ × ℕ) → List (List ℕ × ℕ)
changed doc_len_changed old [] = []
changed doc_len_changed old (x ∷ new) =
    let rest = changed doc_len_changed old new in
    if need_put doc_len_changed old x then x ∷ rest else rest

-- What an update is about: the two rows and their primary keys, and the columns that are written.
pub record Change (Row : Type 0) : Type 0 where
  pub touched : ℕ → Bool
  pub old_row : Row
  pub new_row : Row
  pub old_pk : List ℕ
  pub new_pk : List ℕ

unfoldable pub pk_changed : {Row : Type 0} → Change Row → Bool
pk_changed c = not (bytes_eq c.old_pk c.new_pk)

module _ {Row W : Type 0} (s : Store W) (e : Env) (d : TableDef Row) (c : Change Row) where
  -- The deletes are not checked.
  unfoldable pub swap_entries : ℕ → List Entry → List Entry → Step W
  swap_entries cf removed added h =
      and_then (delete_all_unchecked s cf removed h) (put_all s cf (d.ttl c.new_row) added)

  unfoldable pub put_terms : ℕ → Index Row → Step W
  put_terms i ix h =
      let old_tf = tf_map (tokens e d ix c.old_row) in
      let new_tf = tf_map (tokens e d ix c.new_row) in
      let new_wc = word_count e d ix c.new_row in
      let differ = not (word_count e d ix c.old_row == new_wc) in
      if pk_changed c
      then swap_entries (suc i) (entries e d ix c.old_row c.old_pk)
          (entries e d ix c.new_row c.new_pk) h
      else swap_entries (suc i) (term_entries 0 c.old_pk (gone new_tf old_tf))
          (term_entries new_wc c.new_pk (changed differ old_tf new_tf)) h

  -- The counter of the words is written if it moves.
  unfoldable pub move_words : ℕ → Index Row → Step W
  move_words i ix h =
      let old_wc = word_count e d ix c.old_row in
      let new_wc = word_count e d ix c.new_row in
      if old_wc == new_wc
      then (ha_ok, h)
      else fts_update_meta s i (sub_ℕ 0 0) (sub_ℕ new_wc old_wc) h

  unfoldable pub old_index_key : Index Row → List ℕ
  old_index_key ix = make_comparable_key e.stale ix.parts c.old_row ++ c.old_pk

  unfoldable pub new_index_key : Index Row → List ℕ
  new_index_key ix = sec_idx_key e.stale d c.new_pk ix c.new_row

  unfoldable pub update_entries : Kind → ℕ → Index Row → Step W
  update_entries fulltext i ix h =
      if any_touched c.touched ix.parts
      then and_then (put_terms i ix h) (move_words i ix)
      else (ha_ok, h)
  update_entries rtree i ix h =
      if first_touched c.touched ix.parts
      then swap_entries (suc i) (entries e d ix c.old_row c.old_pk)
          (entries e d ix c.new_row c.new_pk) h
      else (ha_ok, h)
  update_entries regular i ix h =
      if not (pk_changed c) && not (any_touched c.touched ix.parts)
      then (ha_ok, h)
      else if bytes_eq (old_index_key ix) (new_index_key ix)
      then (ha_ok, h)
      else and_then (call (tidesdb_txn_delete_cf s true (suc i) (old_index_key ix)) h)
          (call (s.put (suc i) (new_index_key ix) (0 ∷ []) (d.ttl c.new_row)))

  unfoldable pub update_index : ℕ → Index Row → Step W
  update_index i ix h = update_entries ix.kind i ix h

  unfoldable pub drop_old_row : Step W
  drop_old_row h =
      if pk_changed c
      then call (tidesdb_txn_delete_cf s e.single_delete_primary 0 (build_data_key c.old_pk)) h
      else (ha_ok, h)

  unfoldable pub update_stored : List ℕ → Step W
  update_stored bytes h =
      and_then
        (and_then (drop_old_row h)
          (call (s.put 0 (build_data_key c.new_pk) bytes (d.ttl c.new_row))))
        (λ g. and_then (maintain d update_index g) (λ g'.
          bulk_tail s e g'.in_bulk_update (1 + 2 * d.num_secondary_indexes)
            (record g' { current_pk = c.new_pk })))

module _ {Row W : Type 0} (s : Store W) (e : Env) (d : TableDef Row) where
  -- The primary key is built only where a column of it is written.
  unfoldable pub updated_pk : (ℕ → Bool) → Row → Handler W → List ℕ
  updated_pk touched new h =
      if d.has_user_pk && any_touched touched d.pk_parts
      then pk_from_record e.stale d h.current_pk new
      else h.current_pk

  abbrev pub change_of : (ℕ → Bool) → Row → Row → Handler W → Change Row
  change_of touched old new h = record {
    touched = touched;
    old_row = old;
    new_row = new;
    old_pk = h.current_pk;
    new_pk = updated_pk touched new h;
  }

  -- With what the new row is encoded to, or none.
  unfoldable pub update_encoded : Change Row → Option (List ℕ) → Step W
  update_encoded c none h = (ha_generic, h)
  update_encoded c (some bytes) h =
      and_then (call_ha s.ensure_stmt_txn h) (λ g. update_stored s e d c bytes (mark_dirty s e g))

  unfoldable pub update_row : (ℕ → Bool) → Row → Row → Step W
  update_row touched old new h =
      update_encoded (change_of touched old new h) (serialize_row d new) h
