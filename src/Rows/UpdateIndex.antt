-- ===== src/Rows/UpdateIndex.antt =====
-- What update_row does to an index.
use tidesdb_mysql.Base.{
  ℕ, suc, ◌≡◌, ◌∙◌, refl, sym, ap, true, false, Option, none, some, List, [], ◌∷◌, ◌++◌,
  if◌then◌else◌, ◌==◌, arith, All, if_cases, Bool-cases, inl, inr,
}
use tidesdb_mysql.Codes.{Ha, is_success}
use tidesdb_mysql.RowLock.{bytes_eq}
use tidesdb_mysql.RowLock.Lookup.{bytes_eq→eq}
use tidesdb_mysql.Rows.{
  Kind, Index, TableDef, Env, Store, Handler, and_then, call, regular, fulltext, rtree,
}
use tidesdb_mysql.Rows.Key.{pk_from_record, sec_idx_key, make_comparable_key}
use tidesdb_mysql.Rows.Entries.{Entry, entries, entries_of, word_count}
use tidesdb_mysql.Rows.Engine.{tidesdb_txn_delete_cf, delete_all_unchecked}
use tidesdb_mysql.Rows.Update.{
  Change, any_touched, first_touched, pk_changed, gone, swap_entries, move_words, old_index_key,
  new_index_key,
}
use tidesdb_mysql.Rows.KeyLength.{IsPart}
use tidesdb_mysql.Rows.Owner.{entries-Owned, owner_of, hit-foreign, Owned}
use tidesdb_mysql.Rows.Contents.{
  Contract, Ends, and_then-Ends, over, hit, over-miss, call-put, call-delete, put_all-over,
  put_all_frame, unchecked-hit, unchecked_frame,
}
use tidesdb_mysql.Rows.Represents.{
  Table, Contents, set_row, view, entry_of, Goes, view-insert, view-remove,
}
use tidesdb_mysql.Rows.Quiet.{fts_update_meta-rows, fts_update_meta-indexes}
use tidesdb_mysql.Rows.WriteIndex.{suc_ne}
use tidesdb_mysql.Rows.DeleteKeeps.{sure_call}

-- The entries of a row in an index, put again over what is left without them, are the index.
pub view_self :
    {Row : Type 0} (e : Env) (d : TableDef Row) (ix : Index Row) (t : Table Row) (pk : List ℕ)
    (row : Row) (k : List ℕ)
    → All (Owned ix pk) (entries e d ix row pk)
    → t pk ≡ some row
    → over
        (entries e d ix row pk)
        k
        (if hit (entries e d ix row pk) k then none else view e d ix t k)
      ≡ view e d ix t k
unfolding view entry_of
view_self e d ix t pk row k own present = elim (Bool-cases (bytes_eq (owner_of ix k) pk)) [
  | inl same ↦
      let es = entries e d ix row pk in
      rw (bytes_eq→eq _ _ same, present)
        (if_cases (λ (o : Option (List ℕ)). over es k o ≡ over es k none) (hit es k) _ _
          (λ found. refl)
          (λ missed. rw (over-miss es k none missed, over-miss es k none missed) refl))
  | inr other ↦
      let missed = hit-foreign ix pk (entries e d ix row pk) k own other in
      rw (missed, over-miss _ k _ missed) refl
]

module _ {Row W : Type 0} (s : Store W) (at : W → Contents) (law : Contract s at) (e : Env)
    (d : TableDef Row)
    (sure : (cf : ℕ) (k : List ℕ) (w : W) → is_success (s.single_delete cf k w).0 ≡ true)
    (c : Change Row) where
  abbrev pub old_entries : Index Row → List Entry
  old_entries ix = entries e d ix c.old_row c.old_pk

  abbrev pub new_entries : Index Row → List Entry
  new_entries ix = entries e d ix c.new_row c.new_pk

  -- An index that update_row passes over has the same entries of both rows.
  abbrev pub PassedOver : Kind → Index Row → Type 0
  PassedOver regular ix =
      pk_changed c ≡ false
      → any_touched c.touched ix.parts ≡ false
      → old_entries ix ≡ new_entries ix
  PassedOver fulltext ix = any_touched c.touched ix.parts ≡ false → old_entries ix ≡ new_entries ix
  PassedOver rtree ix = first_touched c.touched ix.parts ≡ false → old_entries ix ≡ new_entries ix

  abbrev pub updated : Table Row → Table Row
  updated t = set_row (set_row t c.old_pk none) c.new_pk (some c.new_row)

  module _ (t : Table Row) (present : t c.old_pk ≡ some c.old_row)
      (old_own : pk_from_record e.stale d c.old_pk c.old_row ≡ c.old_pk)
      (new_own : pk_from_record e.stale d c.new_pk c.new_row ≡ c.new_pk)
      (free : set_row t c.old_pk none c.new_pk ≡ none) (i : ℕ) (ix : Index Row)
      (parts : All IsPart ix.parts) where
    abbrev pub Updates : Handler W → Handler W → Type 0
    Updates h g = Goes e d at t (updated t) i ix h g

    view-updated :
        (k : List ℕ)
        → view e d ix (updated t) k
          ≡ over (new_entries ix) k (if hit (old_entries ix) k then none else view e d ix t k)
    view-updated k =
        view-insert e d ix (set_row t c.old_pk none) c.new_pk c.new_row
          (entries-Owned e d ix c.new_row c.new_pk parts new_own) k free
        ∙ ap (over (new_entries ix) k) (
            view-remove e d ix t c.old_pk c.old_row
              (entries-Owned e d ix c.old_row c.old_pk parts old_own) k present)

    abbrev Frame : Handler W → Handler W → Type 0
    Frame h g =
        ((j : ℕ) (k : List ℕ) → (i == j) ≡ false → at g.world (suc j) k ≡ at h.world (suc j) k)
        × ((q : List ℕ) → at g.world 0 (1 ∷ q) ≡ at h.world 0 (1 ∷ q))

    -- Nothing is done where both rows have the same entries.
    pub unchanged-Updates : (h : Handler W) → old_entries ix ≡ new_entries ix → Updates h h
    unchanged-Updates h same = (
      λ j k other. refl,
      λ q. refl,
      λ shows k.
          shows k
          ∙ sym (
              view_self e d ix t c.old_pk c.old_row k
                (entries-Owned e d ix c.old_row c.old_pk parts old_own) present)
          ∙ ap
              (λ (es : List Entry).
                over es k (if hit (old_entries ix) k then none else view e d ix t k))
              same
          ∙ sym (view-updated k),
    )

    replaced-Updates :
        (h g : Handler W)
        → Frame h g
        → ((k : List ℕ)
            → at g.world (suc i) k
              ≡ over
                  (new_entries ix)
                  k
                  (if hit (old_entries ix) k then none else at h.world (suc i) k))
        → Updates h g
    replaced-Updates h g (frame, rows) replaced = (
      frame,
      rows,
      λ shows k.
          replaced k
          ∙ ap
              (λ (o : Option (List ℕ)).
                over (new_entries ix) k (if hit (old_entries ix) k then none else o))
              (shows k)
          ∙ sym (view-updated k),
    )

    -- The deletes, and then the puts.
    swap_entries-over :
        (removed added : List Entry) (h : Handler W)
        → Ends
            (λ g.
              Frame h g
              × ((k : List ℕ)
                  → at g.world (suc i) k
                    ≡ over added k (if hit removed k then none else at h.world (suc i) k)))
            (swap_entries s e d c (suc i) removed added h)
    unfolding swap_entries
    swap_entries-over removed added h =
        let ttl = d.ttl c.new_row in
        and_then-Ends
          (λ g.
            Frame h g
            × ((k : List ℕ)
                → at g.world (suc i) k
                  ≡ over added k (if hit removed k then none else at h.world (suc i) k)))
          (λ g. g ≡ (delete_all_unchecked s (suc i) removed h).1) _ _ (λ done. refl)
          (λ g eq done. (
            (
              λ j k other.
                  put_all_frame s at law (suc i) ttl added g (suc j) k (suc_ne i j other) done
                  ∙ ap (λ (x : Handler W). at x.world (suc j) k) eq
                  ∙ unchecked_frame s at law (suc i) removed h (suc j) k (suc_ne i j other),
              λ q.
                  put_all_frame s at law (suc i) ttl added g 0 (1 ∷ q) (ground arith) done
                  ∙ ap (λ (x : Handler W). at x.world 0 (1 ∷ q)) eq
                  ∙ unchecked_frame s at law (suc i) removed h 0 (1 ∷ q) (ground arith),
            ),
            λ k.
                put_all-over s at law (suc i) ttl added g k done
                ∙ ap (over added k) (
                    ap (λ (x : Handler W). at x.world (suc i) k) eq
                    ∙ unchecked-hit s at law (sure_call s at law e d sure) (suc i) removed h k),
          ))

    -- Where the two lists do to the index what removing the old and storing the new entries does.
    pub swap_entries-Updates :
        (removed added : List Entry) (h : Handler W)
        → ((k : List ℕ)
            → over added k (if hit removed k then none else view e d ix t k)
              ≡ over (new_entries ix) k (if hit (old_entries ix) k then none else view e d ix t k))
        → Ends (Updates h) (swap_entries s e d c (suc i) removed added h)
    swap_entries-Updates removed added h alike done =
        let ((frame, rows), swapped) = swap_entries-over removed added h done in
        (
          frame,
          rows,
          λ shows k.
              swapped k
              ∙ ap (λ (o : Option (List ℕ)). over added k (if hit removed k then none else o))
                  (shows k)
              ∙ alike k
              ∙ sym (view-updated k),
        )

    pub move_words-Updates :
        (h g : Handler W) → Updates h g → Updates h (move_words s e d c i ix g).1
    unfolding move_words
    move_words-Updates h g (frame, rows, goes) =
        if_cases (λ (x : Ha × Handler W). Updates h x.1)
          (word_count e d ix c.old_row == word_count e d ix c.new_row) _ _
          (λ same. (frame, rows, goes))
          (λ moved. (
            λ j k other. fts_update_meta-indexes s at law i _ _ g j k ∙ frame j k other,
            λ q. fts_update_meta-rows s at law i _ _ g q ∙ rows q,
            λ shows k. fts_update_meta-indexes s at law i _ _ g i k ∙ goes shows k,
          ))

    -- The entries of an index that is neither full-text nor spatial.
    pub old_entries-regular :
        ix.kind ≡ regular → old_entries ix ≡ (old_index_key s e d c ix, 0 ∷ []) ∷ []
    unfolding entries entries_of old_index_key sec_idx_key
    old_entries-regular kind =
        ap (λ (q : Kind). entries_of e d q ix c.old_row c.old_pk) kind
        ∙ ap (λ (pk : List ℕ). (make_comparable_key e.stale ix.parts c.old_row ++ pk, 0 ∷ []) ∷ [])
            old_own

    pub new_entries-regular :
        ix.kind ≡ regular → new_entries ix ≡ (new_index_key s e d c ix, 0 ∷ []) ∷ []
    unfolding entries entries_of new_index_key
    new_entries-regular kind = ap (λ (q : Kind). entries_of e d q ix c.new_row c.new_pk) kind

    single_entry :
        (k : List ℕ) (a : Option (List ℕ))
        → ix.kind ≡ regular
        → (if bytes_eq (new_index_key s e d c ix) k
            then some (0 ∷ [])
            else if bytes_eq (old_index_key s e d c ix) k
            then none
            else a)
          ≡ over (new_entries ix) k (if hit (old_entries ix) k then none else a)
    unfolding over hit
    single_entry k a kind = rw (new_entries-regular kind, old_entries-regular kind) (ground arith)

    pub regular-Updates :
        (h : Handler W)
        → ix.kind ≡ regular
        → Ends (Updates h) (
            and_then
              (call (tidesdb_txn_delete_cf s true (suc i) (old_index_key s e d c ix)) h)
              (call (s.put (suc i) (new_index_key s e d c ix) (0 ∷ []) (d.ttl c.new_row))))
    unfolding call
    regular-Updates h kind =
        let old = old_index_key s e d c ix in
        let new = new_index_key s e d c ix in
        and_then-Ends (Updates h)
          (λ g.
            Frame h g
            × ((k : List ℕ)
                → at g.world (suc i) k ≡ (if bytes_eq old k then none else at h.world (suc i) k)))
          _ _
          (λ done. (
            (
              λ j k other.
                  law.delete_frame true (suc i) old h.world (suc j) k (rw (suc_ne i j other) refl),
              λ q. law.delete_frame true (suc i) old h.world 0 (1 ∷ q) (ground arith),
            ),
            λ k. call-delete s at law true (suc i) old h k done,
          ))
          (λ g ((frame, rows), gone) done.
            replaced-Updates h (call (s.put (suc i) new (0 ∷ []) (d.ttl c.new_row)) g).1
              (
                λ j k other.
                    law.put_frame (suc i) new (0 ∷ []) (d.ttl c.new_row) g.world (suc j) k
                      (rw (suc_ne i j other) refl)
                    ∙ frame j k other,
                λ q.
                    law.put_frame (suc i) new (0 ∷ []) (d.ttl c.new_row) g.world 0 (1 ∷ q)
                      (ground arith)
                    ∙ rows q,
              )
              (λ k.
                call-put s at law (suc i) new (0 ∷ []) (d.ttl c.new_row) g k done
                ∙ ap (λ (o : Option (List ℕ)). if bytes_eq new k then some (0 ∷ []) else o) (gone k)
                ∙ single_entry k (at h.world (suc i) k) kind))
