-- ===== src/Rows/UpdateEntries.antt =====
-- What update_row does to an index of each kind.
use tidesdb_mysql.Base.{
  ℕ, ◌≡◌, ◌∙◌, refl, sym, ap, true, false, not, ◌&&◌, none, some, List, [], ◌∷◌, if◌then◌else◌,
  ◌==◌, arith, All, if_cases,
}
use tidesdb_mysql.Codes.{Ha, is_success}
use tidesdb_mysql.RowLock.{bytes_eq}
use tidesdb_mysql.RowLock.Lookup.{bytes_eq→eq}
use tidesdb_mysql.Rows.{Kind, Index, TableDef, Env, Store, Handler, regular, fulltext, rtree}
use tidesdb_mysql.Rows.Key.{pk_from_record}
use tidesdb_mysql.Rows.Entries.{word_count, tokens, tf_map, term_entries}
use tidesdb_mysql.Rows.Update.{
  Change, any_touched, first_touched, pk_changed, gone, changed, put_terms, old_index_key,
  new_index_key, update_entries,
}
use tidesdb_mysql.Rows.KeyLength.{IsPart}
use tidesdb_mysql.Rows.Contents.{Contract, Ends, and_then-Ends, over, hit}
use tidesdb_mysql.Rows.Represents.{Table, Contents, set_row, view, Goes}
use tidesdb_mysql.Rows.UpdateIndex.{
  old_entries, new_entries, PassedOver, updated, unchanged-Updates, swap_entries-Updates,
  move_words-Updates, regular-Updates, old_entries-regular, new_entries-regular,
}

module _ {Row W : Type 0} (s : Store W) (at : W → Contents) (law : Contract s at) (e : Env)
    (d : TableDef Row)
    (sure : (cf : ℕ) (k : List ℕ) (w : W) → is_success (s.single_delete cf k w).0 ≡ true)
    (c : Change Row) where
  -- The terms that are gone, and those that are put, do what all of them would do.
  abbrev pub TermsAlike : Table Row → Index Row → Type 0
  TermsAlike t ix =
      let old_tf = tf_map (tokens e d ix c.old_row) in
      let new_tf = tf_map (tokens e d ix c.new_row) in
      let new_wc = word_count e d ix c.new_row in
      let differ = not (word_count e d ix c.old_row == new_wc) in
      (k : List ℕ)
      → over (term_entries new_wc c.new_pk (changed differ old_tf new_tf)) k
          (if hit (term_entries 0 c.old_pk (gone new_tf old_tf)) k then none else view e d ix t k)
        ≡ over (new_entries s at law e d sure c ix) k
            (if hit (old_entries s at law e d sure c ix) k then none else view e d ix t k)

  module _ (t : Table Row) (present : t c.old_pk ≡ some c.old_row)
      (old_own : pk_from_record e.stale d c.old_pk c.old_row ≡ c.old_pk)
      (new_own : pk_from_record e.stale d c.new_pk c.new_row ≡ c.new_pk)
      (free : set_row t c.old_pk none c.new_pk ≡ none) (i : ℕ) (ix : Index Row)
      (parts : All IsPart ix.parts) where
    abbrev Goal : Handler W → Ha × Handler W → Type 0
    Goal h x = Ends (Goes e d at t (updated s at law e d sure c t) i ix h) x

    put_terms-Updates :
        (h : Handler W)
        → (ix.kind ≡ fulltext → pk_changed c ≡ false → TermsAlike t ix)
        → ix.kind ≡ fulltext
        → Goal h (put_terms s e d c i ix h)
    unfolding put_terms
    put_terms-Updates h alike kind =
        if_cases (Goal h) (pk_changed c) _ _
          (λ moved.
            swap_entries-Updates s at law e d sure c t present old_own new_own free i ix parts _ _ h
              (λ k. refl))
          (λ stays.
            swap_entries-Updates s at law e d sure c t present old_own new_own free i ix parts _ _ h
              (alike kind stays))

    same_entries :
        ix.kind ≡ regular
        → old_index_key s e d c ix ≡ new_index_key s e d c ix
        → old_entries s at law e d sure c ix ≡ new_entries s at law e d sure c ix
    same_entries kind same =
        old_entries-regular s at law e d sure c t present old_own new_own free i ix parts kind
        ∙ ap (λ (k : List ℕ). (k, 0 ∷ []) ∷ []) same
        ∙ sym
            (new_entries-regular s at law e d sure c t present old_own new_own free i ix parts kind)

    pub update_entries-Updates :
        (kind : Kind) (h : Handler W)
        → ix.kind ≡ kind
        → PassedOver s at law e d sure c kind ix
        → (ix.kind ≡ fulltext → pk_changed c ≡ false → TermsAlike t ix)
        → Goal h (update_entries s e d c kind i ix h)
    unfolding update_entries
    update_entries-Updates fulltext h kind passed alike =
        if_cases (Goal h) (any_touched c.touched ix.parts) _ _
          (λ touched.
            and_then-Ends (Goes e d at t (updated s at law e d sure c t) i ix h)
              (Goes e d at t (updated s at law e d sure c t) i ix h) _ _
              (put_terms-Updates h alike kind)
              (λ g updates done.
                move_words-Updates s at law e d sure c t present old_own new_own free i ix parts h g
                  updates))
          (λ untouched done.
            unchanged-Updates s at law e d sure c t present old_own new_own free i ix parts h
              (passed untouched))
    update_entries-Updates rtree h kind passed alike =
        if_cases (Goal h) (first_touched c.touched ix.parts) _ _
          (λ touched.
            swap_entries-Updates s at law e d sure c t present old_own new_own free i ix parts _ _ h
              (λ k. refl))
          (λ untouched done.
            unchanged-Updates s at law e d sure c t present old_own new_own free i ix parts h
              (passed untouched))
    update_entries-Updates regular h kind passed alike =
        if_cases (Goal h) (not (pk_changed c) && not (any_touched c.touched ix.parts)) _ _
          (λ skips done.
            unchanged-Updates s at law e d sure c t present old_own new_own free i ix parts h
              (passed (ground arith) (ground arith)))
          (λ reads.
            if_cases (Goal h) (bytes_eq (old_index_key s e d c ix) (new_index_key s e d c ix)) _ _
              (λ same done.
                unchanged-Updates s at law e d sure c t present old_own new_own free i ix parts h
                  (same_entries kind (bytes_eq→eq _ _ same)))
              (λ other.
                regular-Updates s at law e d sure c t present old_own new_own free i ix parts h
                  kind))
