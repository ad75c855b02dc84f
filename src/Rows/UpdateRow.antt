-- ===== src/Rows/UpdateRow.antt =====
-- An update_row that succeeds replaces the row in the table that the contents represent: the statement.
use tidesdb_mysql.Base.{
  ℕ, ◌≡◌, ◌∙◌, refl, sym, ap, subst, Bool, true, false, not, Option, none, some, List, [], ◌∷◌,
  if◌then◌else◌, ◌==◌, arith, All, Bool-cases, inl, inr,
}
use tidesdb_mysql.Codes.{is_success}
use tidesdb_mysql.RowLock.{bytes_eq}
use tidesdb_mysql.RowLock.Lookup.{bytes_eq→eq}
use tidesdb_mysql.Rows.{Kind, Index, TableDef, Env, Store, Handler, is_ok, fulltext}
use tidesdb_mysql.Rows.Key.{pk_from_record}
use tidesdb_mysql.Rows.Entries.{
  Entry, entries, entries_of, word_count, tokens, tf_map, term_entries,
}
use tidesdb_mysql.Rows.Update.{
  Change, pk_changed, gone, changed, change_of, update_encoded, updated_pk, update_row,
}
use tidesdb_mysql.Rows.KeyLength.{IsPart}
use tidesdb_mysql.Rows.Owner.{entries-Owned, owner_of, hit-foreign, Owned}
use tidesdb_mysql.Rows.Contents.{Contract, Ends, and_then-Ends, over, hit}
use tidesdb_mysql.Rows.Represents.{Table, Contents, set_row, view, entry_of, Represents, IsTable}
use tidesdb_mysql.Rows.UpdateIndex.{PassedOver, updated}
use tidesdb_mysql.Rows.UpdateEntries.{TermsAlike}
use tidesdb_mysql.Rows.Serialize.{serialize_row}
use tidesdb_mysql.Rows.Engine.{mark_dirty}
use tidesdb_mysql.Rows.Quiet.{Same}
use tidesdb_mysql.Rows.{call_ha}
use tidesdb_mysql.Rows.UpdateKeeps.{IsUpdatable, update_stored-Updated}
use tidesdb_mysql.Rows.TermDiff.{Short}
use tidesdb_mysql.Rows.TermSwap.{terms_swap, tf_map-Distinct, tf_map-AllShort}

-- Where an index has an entry of a row, it shows the entries of that row.
view-hit :
    {Row : Type 0} (e : Env) (d : TableDef Row) (ix : Index Row) (t : Table Row) (pk : List ℕ)
    (row : Row) (k : List ℕ)
    → All (Owned ix pk) (entries e d ix row pk)
    → t pk ≡ some row
    → hit (entries e d ix row pk) k ≡ true
    → view e d ix t k ≡ over (entries e d ix row pk) k none
unfolding view entry_of
view-hit e d ix t pk row k own present found = elim (Bool-cases (bytes_eq (owner_of ix k) pk)) [
  | inl same ↦ rw (bytes_eq→eq _ _ same, present) refl
  | inr other ↦ absurd (let missed = hit-foreign ix pk (entries e d ix row pk) k own other in cc)
]

module _ {Row W : Type 0} (s : Store W) (at : W → Contents) (law : Contract s at) (e : Env)
    (d : TableDef Row)
    (sure : (cf : ℕ) (k : List ℕ) (w : W) → is_success (s.single_delete cf k w).0 ≡ true) where
  -- The terms of both rows are stored whole, where the terms of a full-text index are compared.
  abbrev pub ShortTerms : Change Row → Index Row → Type 0
  ShortTerms c ix =
      ix.kind ≡ fulltext
      → pk_changed c ≡ false
      → All Short (tokens e d ix c.old_row) × All Short (tokens e d ix c.new_row)

  abbrev pub IsGood : Change Row → Index Row → Type 0
  IsGood c ix = PassedOver s at law e d sure c ix.kind ix × ShortTerms c ix

  module _ (c : Change Row) (t : Table Row) (present : t c.old_pk ≡ some c.old_row)
      (old_own : pk_from_record e.stale d c.old_pk c.old_row ≡ c.old_pk) (ix : Index Row)
      (parts : All IsPart ix.parts) (kind : ix.kind ≡ fulltext) where
    term_entries-eq :
        (row : Row) (pk : List ℕ)
        → entries e d ix row pk
          ≡ term_entries (word_count e d ix row) pk (tf_map (tokens e d ix row))
    unfolding entries entries_of
    term_entries-eq row pk = ap (λ (q : Kind). entries_of e d q ix row pk) kind

    terms-TermsAlike :
        pk_changed c ≡ false
        → All Short (tokens e d ix c.old_row)
        → All Short (tokens e d ix c.new_row)
        → TermsAlike s at law e d sure c t ix
    unfolding pk_changed
    terms-TermsAlike stays short short' k =
        let old_tf = tf_map (tokens e d ix c.old_row) in
        let new_tf = tf_map (tokens e d ix c.new_row) in
        let w = word_count e d ix c.old_row in
        let w' = word_count e d ix c.new_row in
        let v = view e d ix t k in
        let same : c.old_pk ≡ c.new_pk = bytes_eq→eq _ _ (ground arith) in
        subst
          (λ (p : List ℕ).
            over (term_entries w' p (changed (not (w == w')) old_tf new_tf)) k
              (if hit (term_entries 0 c.old_pk (gone new_tf old_tf)) k then none else v)
            ≡ over (term_entries w' p new_tf) k
                (if hit (term_entries w c.old_pk old_tf) k then none else v))
          same
          (terms_swap c.old_pk w w' old_tf new_tf (tf_map-AllShort _ short)
            (tf_map-AllShort _ short') (tf_map-Distinct _) (tf_map-Distinct _) (not (w == w')) refl
            k v
            (λ found.
              view-hit e d ix t c.old_pk c.old_row k
                (entries-Owned e d ix c.old_row c.old_pk parts old_own) present
                (ap (λ (es : List Entry). hit es k) (term_entries-eq c.old_row c.old_pk) ∙ found)
              ∙ ap (λ (es : List Entry). over es k none) (term_entries-eq c.old_row c.old_pk)))
        ∙ ap
            (λ (es : List Entry).
              over es k (if hit (term_entries w c.old_pk old_tf) k then none else v))
            (sym (term_entries-eq c.new_row c.new_pk))
        ∙ ap
            (λ (es : List Entry).
              over (entries e d ix c.new_row c.new_pk) k (if hit es k then none else v))
            (sym (term_entries-eq c.old_row c.old_pk))

  IsGood-IsUpdatable :
      (c : Change Row) (t : Table Row) (keys : List (Index Row))
      → t c.old_pk ≡ some c.old_row
      → pk_from_record e.stale d c.old_pk c.old_row ≡ c.old_pk
      → All (λ ix. All IsPart ix.parts) keys
      → All (IsGood c) keys
      → All (IsUpdatable s at law e d sure c t) keys
  IsGood-IsUpdatable c t [] present own parts good = tt
  IsGood-IsUpdatable c t (ix ∷ keys) present own parts ((passed, short), rest) = (
    (
      passed,
      λ kind stays.
          terms-TermsAlike c t present own ix parts.0 kind stays (short kind stays).0
            (short kind stays).1,
    ),
    IsGood-IsUpdatable c t keys present own parts.1 rest,
  )

  update_encoded-Updated :
      (c : Change Row) (t : Table Row) (o : Option (List ℕ)) (h : Handler W)
      → serialize_row d c.new_row ≡ o
      → IsTable e d
      → Represents e d (at h.world) t
      → t c.old_pk ≡ some c.old_row
      → pk_from_record e.stale d c.new_pk c.new_row ≡ c.new_pk
      → set_row t c.old_pk none c.new_pk ≡ none
      → All (IsGood c) d.keys
      → Ends
          (λ g. Represents e d (at g.world) (updated s at law e d sure c t))
          (update_encoded s e d c o h)
  unfolding update_encoded is_ok call_ha mark_dirty
  update_encoded-Updated c t none h encoded wf rep present own free good = λ done. absurd (cc)
  update_encoded-Updated c t (some bytes) h encoded wf rep present own free good =
      and_then-Ends (λ g. Represents e d (at g.world) (updated s at law e d sure c t))
        (Same s at law h) _ _ (λ done. law.ensure_keeps h.world done)
        (λ g same.
          update_stored-Updated s at law e d sure c t wf present own free bytes encoded
            (IsGood-IsUpdatable c t d.keys present (rep.named c.old_pk c.old_row present) wf.parts
              good)
            (mark_dirty s e g) (rw same rep))

  -- Under the contract of the engine: if update_row succeeds for the row that the handler stands at, and no single delete of the engine
  -- fails, the contents represent the table in which the new row has replaced the old one, and every
  -- index that is maintained has the entries of the new row and none of the old. It is asked that no
  -- other row stands under the new key, which update_row does not look up; that the columns of the key
  -- that are not written are the same in both rows; that an index that update_row passes over has the
  -- same entries of both; and that terms which are compared fit a key whole.
  pub update_row-Represents :
      (t : Table Row) (touched : ℕ → Bool) (old new : Row) (h : Handler W)
      → IsTable e d
      → Represents e d (at h.world) t
      → t h.current_pk ≡ some old
      → pk_from_record e.stale d (updated_pk s e d touched new h) new
        ≡ updated_pk s e d touched new h
      → set_row t h.current_pk none (updated_pk s e d touched new h) ≡ none
      → All (IsGood (change_of s e d touched old new h)) d.keys
      → is_ok (update_row s e d touched old new h).0 ≡ true
      → Represents e d
          (at (update_row s e d touched old new h).1.world)
          (set_row (set_row t h.current_pk none) (updated_pk s e d touched new h) (some new))
  unfolding update_row
  update_row-Represents t touched old new h wf rep present own free good =
      update_encoded-Updated (change_of s e d touched old new h) t (serialize_row d new) h refl wf
        rep present own free good
