-- ===== src/Rows/UpdateKeeps.antt =====
-- An update_row that succeeds replaces the row in the table that the contents represent.
use tidesdb_mysql.Base.{
  ℕ, suc, ◌+◌, ◌*◌, ◌≡◌, ◌≢◌, ◌∙◌, refl, sym, ap, true, false, ◌&&◌, Option, none, some, List, [],
  ◌∷◌, if◌then◌else◌, arith, All, if_cases, Bool-cases, inl, inr,
}
use tidesdb_mysql.Codes.{is_success}
use tidesdb_mysql.RowLock.{bytes_eq}
use tidesdb_mysql.RowLock.Lookup.{bytes_eq→eq}
use tidesdb_mysql.Rows.{Index, TableDef, Env, Store, Handler, call, fulltext}
use tidesdb_mysql.Rows.Key.{pk_from_record}
use tidesdb_mysql.Rows.Update.{Change, pk_changed, update_index, drop_old_row, update_stored}
use tidesdb_mysql.Rows.KeyLength.{IsPart}
use tidesdb_mysql.Rows.Contents.{Contract, Ends, and_then-Ends, call-put, call-delete}
use tidesdb_mysql.Rows.Represents.{
  Table, Contents, set_row, GoesAll, stored, Represents, IsTable, maintain-GoesAll,
}
use tidesdb_mysql.Rows.UpdateIndex.{PassedOver, updated}
use tidesdb_mysql.Rows.UpdateEntries.{TermsAlike, update_entries-Updates}
use tidesdb_mysql.Rows.SetRow.{data_key_eq, set_row-All}
use tidesdb_mysql.Rows.Serialize.{serialize_row}
use tidesdb_mysql.Rows.Engine.{maintain, bulk_tail}
use tidesdb_mysql.Rows.Key.{build_data_key}
use tidesdb_mysql.Rows.Quiet.{Same, bulk_tail-Same}
use tidesdb_mysql.Rows.Represents.{Indexed-frame}

All-both :
    {A : Type 0} (P Q : A → Type 0) (xs : List A) → All P xs → All Q xs → All (λ x. P x × Q x) xs
All-both P Q [] p q = tt
All-both P Q (x ∷ xs) p q = ((p.0, q.0), All-both P Q xs p.1 q.1)

module _ {Row W : Type 0} (s : Store W) (at : W → Contents) (law : Contract s at) (e : Env)
    (d : TableDef Row)
    (sure : (cf : ℕ) (k : List ℕ) (w : W) → is_success (s.single_delete cf k w).0 ≡ true)
    (c : Change Row) where
  -- What is asked of an index: see PassedOver and TermsAlike.
  abbrev pub IsUpdatable : Table Row → Index Row → Type 0
  IsUpdatable t ix =
      PassedOver s at law e d sure c ix.kind ix
      × (ix.kind ≡ fulltext → pk_changed c ≡ false → TermsAlike s at law e d sure c t ix)

  module _ (t : Table Row) (wf : IsTable e d) (present : t c.old_pk ≡ some c.old_row)
      (new_own : pk_from_record e.stale d c.new_pk c.new_row ≡ c.new_pk)
      (free : set_row t c.old_pk none c.new_pk ≡ none) (bytes : List ℕ)
      (encoded : serialize_row d c.new_row ≡ some bytes) (keys : All (IsUpdatable t) d.keys) where
    abbrev Updated : Handler W → Type 0
    Updated g = Represents e d (at g.world) (updated s at law e d sure c t)

    abbrev SameIndexes : Handler W → Handler W → Type 0
    SameIndexes h g = (j : ℕ) (k : List ℕ) → at g.world (suc j) k ≡ at h.world (suc j) k

    abbrev Dropped : Handler W → Handler W → Type 0
    Dropped h g =
        ((q : List ℕ)
          → at g.world 0 (1 ∷ q) ≡ (
              if pk_changed c && bytes_eq (1 ∷ c.old_pk) (1 ∷ q)
              then none
              else at h.world 0 (1 ∷ q)))
        × SameIndexes h g

    drop_old_row-Dropped : (h : Handler W) → Ends (Dropped h) (drop_old_row s e d c h)
    unfolding drop_old_row call build_data_key
    drop_old_row-Dropped h =
        if_cases (Ends (Dropped h)) (pk_changed c) _ _
          (λ moved done. (
            λ q.
                rw moved
                  (call-delete s at law e.single_delete_primary 0 (1 ∷ c.old_pk) h (1 ∷ q) done),
            λ j k.
                law.delete_frame e.single_delete_primary 0 (1 ∷ c.old_pk) h.world (suc j) k
                  (ground arith),
          ))
          (λ stays done. (λ q. rw stays refl, λ j k. refl))

    -- What is stored under a data key in the end.
    row_at :
        (h : Handler W) (q : List ℕ)
        → Represents e d (at h.world) t
        → (if bytes_eq (1 ∷ c.new_pk) (1 ∷ q)
            then some bytes
            else if pk_changed c && bytes_eq (1 ∷ c.old_pk) (1 ∷ q)
            then none
            else at h.world 0 (1 ∷ q))
          ≡ stored d (updated s at law e d sure c t q)
    unfolding stored set_row pk_changed
    row_at h q rep =
        rw (data_key_eq c.new_pk q, data_key_eq c.old_pk q, rep.rows q)
          (elim (Bool-cases (bytes_eq q c.new_pk)) [
            | inl new ↦ rw new (sym encoded)
            | inr other ↦ elim (Bool-cases (bytes_eq q c.old_pk)) [
              | inl old ↦ rw (other, old, rw (bytes_eq→eq q c.old_pk old) at other) refl
              | inr third ↦ rw (other, third) (ground arith)
            ]
          ])

    Written : Handler W → Handler W → Type 0
    Written h g =
        ((q : List ℕ) → at g.world 0 (1 ∷ q) ≡ stored d (updated s at law e d sure c t q))
        × SameIndexes h g

    written :
        (h g : Handler W)
        → Represents e d (at h.world) t
        → Dropped h g
        → Ends (Written h) (call (s.put 0 (build_data_key c.new_pk) bytes (d.ttl c.new_row)) g)
    unfolding Written call build_data_key
    written h g rep (dropped, same) done = (
      λ q.
          call-put s at law 0 (1 ∷ c.new_pk) bytes (d.ttl c.new_row) g (1 ∷ q) done
          ∙ ap (λ (o : Option (List ℕ)). if bytes_eq (1 ∷ c.new_pk) (1 ∷ q) then some bytes else o)
              (dropped q)
          ∙ row_at h q rep,
      λ j k.
          law.put_frame 0 (1 ∷ c.new_pk) bytes (d.ttl c.new_row) g.world (suc j) k (ground arith)
          ∙ same j k,
    )

    -- Each row of the new table stands under its own key, and can be encoded.
    P : List ℕ → Row → Type 0
    P q r = (serialize_row d r ≢ none) × (pk_from_record e.stale d q r ≡ q)

    each_row :
        (h : Handler W)
        → Represents e d (at h.world) t
        → (q : List ℕ) (r : Row) → updated s at law e d sure c t q ≡ some r
        → P q r
    unfolding P
    each_row h rep =
        set_row-All e d (set_row t c.old_pk none) c.new_pk P (some c.new_row)
          (set_row-All e d t c.old_pk P none
            (λ q r found. (rep.whole q r found, rep.named q r found)) (λ r found. absurd (cc)))
          (λ r found.
            let same : c.new_row ≡ r = cc in
            rw (← same) (λ bad. let clash = sym encoded ∙ bad in cc, new_own))

    finished :
        (h g f : Handler W)
        → Represents e d (at h.world) t
        → Written h g
        → GoesAll e d at t (updated s at law e d sure c t) 0 d.keys g f
        → Updated f
    unfolding Written P
    finished h g f rep (rows, indexes) (_, same_rows, goes) = record {
      rows = λ q. same_rows q ∙ rows q;
      indexed = goes (
          Indexed-frame e d t (at h.world) (at g.world) 0 d.keys (λ j k l. indexes j k)
            rep.indexed);
      whole = λ q r found. (each_row h rep q r found).0;
      named = λ q r found. (each_row h rep q r found).1;
    }

    still-Updated : (f g : Handler W) → Same s at law f g → Updated f → Updated g
    still-Updated f g same done = rw same done

    pub update_stored-Updated :
        (h : Handler W)
        → Represents e d (at h.world) t
        → Ends Updated (update_stored s e d c bytes h)
    unfolding update_stored update_index
    update_stored-Updated h rep =
        and_then-Ends Updated (Written h) _ _
          (and_then-Ends (Written h) (Dropped h) _ _ (drop_old_row-Dropped h)
            (λ g dropped. written h g rep dropped))
          (λ g stands.
            and_then-Ends Updated Updated _ _
              (λ done. finished h g (maintain d (update_index s e d c) g).1 rep stands (
                maintain-GoesAll e d at t (updated s at law e d sure c t)
                  (λ ix. All IsPart ix.parts × IsUpdatable t ix) (update_index s e d c)
                  (λ i ix f (parts, (passed, alike)).
                    update_entries-Updates s at law e d sure c t present
                      (rep.named c.old_pk c.old_row present) new_own free i ix parts ix.kind f refl
                      passed alike)
                  g wf (All-both (λ ix. All IsPart ix.parts) (IsUpdatable t) d.keys wf.parts keys)
                  done))
              (λ f good done.
                still-Updated f
                  (bulk_tail s e f.in_bulk_update (1 + 2 * d.num_secondary_indexes)
                    (record f { current_pk = c.new_pk })).1
                  (bulk_tail-Same s at law e f.in_bulk_update (1 + 2 * d.num_secondary_indexes)
                    (record f { current_pk = c.new_pk }) done)
                  good))
