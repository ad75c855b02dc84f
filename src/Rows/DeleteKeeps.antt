-- ===== src/Rows/DeleteKeeps.antt =====
-- A delete_row that succeeds removes the row from the table that the contents represent.
use tidesdb_mysql.Base.{
  ℕ, suc, ◌+◌, ◌≡◌, ◌∙◌, refl, sym, ap, subst, Bool, true, false, Option, none, some, List, ◌∷◌,
  if◌then◌else◌, ◌==◌, arith, All,
}
use tidesdb_mysql.Codes.{Rc, tdb_success, tdb_rc_to_ha, is_success}
use tidesdb_mysql.Rows.{
  Kind, Index, TableDef, Env, Store, Handler, is_ok, ha_of, call, call_ha, regular, fulltext, rtree,
}
use tidesdb_mysql.Rows.Key.{pk_from_record, build_data_key}
use tidesdb_mysql.Rows.Entries.{entries}
use tidesdb_mysql.Rows.Engine.{
  tidesdb_txn_delete_cf, delete_all, delete_all_unchecked, maintain, bulk_tail, mark_dirty,
}
use tidesdb_mysql.Rows.Delete.{
  delete_entries, delete_index, track_deleted, delete_stored, delete_row,
}
use tidesdb_mysql.Rows.KeyLength.{IsPart}
use tidesdb_mysql.Rows.Owner.{entries-Owned}
use tidesdb_mysql.Rows.Contents.{
  Contract, Ends, and_then-Ends, hit, call-delete, delete_all-hit, delete_all_frame, unchecked-hit,
  unchecked_frame,
}
use tidesdb_mysql.Rows.Represents.{
  Table, Contents, set_row, stored, Represents, IsTable, Goes, maintain-GoesAll, view-remove,
}
use tidesdb_mysql.Rows.Quiet.{Same, bulk_tail-Same, fts_update_meta-rows, fts_update_meta-indexes}
use tidesdb_mysql.Rows.WriteIndex.{suc_ne}
use tidesdb_mysql.Rows.SetRow.{RowSet, maintained-Represents}

pub ok_of_success : (rc : Rc) → is_success rc ≡ true → is_ok (ha_of rc) ≡ true
unfolding is_ok ha_of tdb_rc_to_ha
ok_of_success tdb_success h = refl
ok_of_success rc h = ground arith

module _ {Row W : Type 0} (s : Store W) (at : W → Contents) (law : Contract s at) (e : Env)
    (d : TableDef Row)
    (sure : (cf : ℕ) (k : List ℕ) (w : W) → is_success (s.single_delete cf k w).0 ≡ true) where
  pub sure_call :
      (cf : ℕ) (k : List ℕ) (h : Handler W)
      → is_ok (call (tidesdb_txn_delete_cf s true cf k) h).0 ≡ true
  unfolding call tidesdb_txn_delete_cf
  sure_call cf k h = ok_of_success _ (sure cf k h.world)

  module _ (t : Table Row) (row : Row) (pk : List ℕ) (present : t pk ≡ some row)
      (own : pk_from_record e.stale d pk row ≡ pk) (i : ℕ) (ix : Index Row)
      (parts : All IsPart ix.parts) where
    abbrev Removes : Handler W → Handler W → Type 0
    Removes h g = Goes e d at t (set_row t pk none) i ix h g

    -- What a run of deletes that all succeed does to the index.
    removes :
        (h g : Handler W)
        → ((j : ℕ) (k : List ℕ) → (i == j) ≡ false → at g.world (suc j) k ≡ at h.world (suc j) k)
        → ((q : List ℕ) → at g.world 0 (1 ∷ q) ≡ at h.world 0 (1 ∷ q))
        → ((k : List ℕ)
            → at g.world (suc i) k
              ≡ (if hit (entries e d ix row pk) k then none else at h.world (suc i) k))
        → Removes h g
    removes h g frame rows gone = (
      frame,
      rows,
      λ shows k.
          gone k
          ∙ ap (λ (o : Option (List ℕ)). if hit (entries e d ix row pk) k then none else o)
              (shows k)
          ∙ sym (view-remove e d ix t pk row (entries-Owned e d ix row pk parts own) k present),
    )

    unchecked-Removes :
        (h : Handler W) → Removes h (delete_all_unchecked s (suc i) (entries e d ix row pk) h).1
    unchecked-Removes h =
        let es = entries e d ix row pk in
        removes h (delete_all_unchecked s (suc i) es h).1
          (λ j k other. unchecked_frame s at law (suc i) es h (suc j) k (suc_ne i j other))
          (λ q. unchecked_frame s at law (suc i) es h 0 (1 ∷ q) (ground arith))
          (λ k. unchecked-hit s at law sure_call (suc i) es h k)

    delete_entries-Removes :
        (kind : Kind) (h : Handler W) → Ends (Removes h) (delete_entries s e d kind ix row pk i h)
    unfolding delete_entries
    delete_entries-Removes regular h =
        let es = entries e d ix row pk in
        λ done.
          removes h (delete_all s (suc i) es h).1
            (λ j k other. delete_all_frame s at law (suc i) es h (suc j) k (suc_ne i j other) done)
            (λ q. delete_all_frame s at law (suc i) es h 0 (1 ∷ q) (ground arith) done)
            (λ k. delete_all-hit s at law (suc i) es h k done)
    delete_entries-Removes rtree h = λ done. unchecked-Removes h
    delete_entries-Removes fulltext h =
        and_then-Ends (Removes h) (Removes h) _ _ (λ done. unchecked-Removes h)
          (λ g (frame, rows, goes) done. (
            λ j k other. fts_update_meta-indexes s at law i _ _ g j k ∙ frame j k other,
            λ q. fts_update_meta-rows s at law i _ _ g q ∙ rows q,
            λ shows k. fts_update_meta-indexes s at law i _ _ g i k ∙ goes shows k,
          ))

  track_deleted-world : (dk : List ℕ) (h : Handler W) → (track_deleted e dk h).world ≡ h.world
  unfolding track_deleted
  track_deleted-world dk h = ground arith

  module _ (t : Table Row) (wf : IsTable e d) (row : Row) (pk : List ℕ)
      (present : t pk ≡ some row) where
    abbrev Removed : Handler W → Type 0
    Removed g = Represents e d (at g.world) (set_row t pk none)

    delete_data-RowSet :
        (b : Bool) (h : Handler W)
        → Ends (RowSet at pk none h) (call (tidesdb_txn_delete_cf s b 0 (build_data_key pk)) h)
    unfolding call build_data_key
    delete_data-RowSet b h done = (
      λ q. call-delete s at law b 0 (1 ∷ pk) h (1 ∷ q) done,
      λ j k. law.delete_frame b 0 (1 ∷ pk) h.world (suc j) k (ground arith),
    )

    still-Removed : (f g : Handler W) → Same s at law f g → Removed f → Removed g
    still-Removed f g same removed = rw same removed

    delete_stored-Removed :
        (h : Handler W)
        → Represents e d (at h.world) t
        → Ends Removed (delete_stored s e d row pk h)
    unfolding delete_stored delete_index stored
    delete_stored-Removed h rep =
        let h' = track_deleted e (build_data_key pk) h in
        and_then-Ends Removed (RowSet at pk none h') _ _
          (delete_data-RowSet e.single_delete_primary h')
          (λ g gone.
            and_then-Ends Removed Removed _ _
              (λ done.
                maintained-Represents e d at t pk none h' g
                  (maintain d (delete_index s e d row pk) g).1
                  (rw (track_deleted-world (build_data_key pk) h) rep) gone (λ r eq. absurd (cc))
                  (maintain-GoesAll e d at t (set_row t pk none) (λ ix. All IsPart ix.parts)
                    (delete_index s e d row pk)
                    (λ i ix f parts.
                      delete_entries-Removes t row pk present (rep.named pk row present) i ix parts
                        ix.kind f)
                    g wf wf.parts done))
              (λ f removed done.
                still-Removed f (bulk_tail s e f.in_bulk_delete (1 + d.num_secondary_indexes) f).1
                  (bulk_tail-Same s at law e f.in_bulk_delete (1 + d.num_secondary_indexes) f done)
                  removed))

  -- Under the contract of the engine: if delete_row succeeds for the row that the handler stands at, and no single delete of the engine
  -- fails, the contents represent the table without the row: neither the row nor any index entry of it
  -- can be read, and everything else reads as before.
  pub delete_row-Represents :
      (t : Table Row) (row : Row) (h : Handler W)
      → IsTable e d
      → Represents e d (at h.world) t
      → t h.current_pk ≡ some row
      → is_ok (delete_row s e d row h).0 ≡ true
      → Represents e d (at (delete_row s e d row h).1.world) (set_row t h.current_pk none)
  unfolding delete_row call_ha mark_dirty
  delete_row-Represents t row h wf rep present =
      and_then-Ends (Removed t wf row h.current_pk present)
        (λ g. Same s at law h g × (g.current_pk ≡ h.current_pk)) _ _
        (λ done. (law.ensure_keeps h.world done, refl))
        (λ g (same, pk).
          subst
            (λ (p : List ℕ).
              Ends (Removed t wf row h.current_pk present)
                (delete_stored s e d row p (mark_dirty s e g)))
            (sym pk)
            (delete_stored-Removed t wf row h.current_pk present (mark_dirty s e g) (rw same rep)))
