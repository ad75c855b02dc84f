-- ===== src/Rows/WriteKeeps.antt =====
-- A write_row that succeeds adds the row to the table that the contents represent.
use tidesdb_mysql.Base.{
  ℕ, suc, ◌+◌, ◌≡◌, ◌≢◌, ◌∙◌, refl, sym, ap, Bool, true, false, Option, none, some, List, ◌∷◌,
  arith, All, Bool-cases, inl, inr,
}
use tidesdb_mysql.Rows.{TableDef, Env, Store, Handler, is_ok, call, call_ha}
use tidesdb_mysql.Rows.Key.{pk_from_record, build_data_key}
use tidesdb_mysql.Rows.Serialize.{serialize_row}
use tidesdb_mysql.Rows.Engine.{maintain, bulk_tail, mark_dirty}
use tidesdb_mysql.Rows.Write.{
  write_index, new_pk, take_row_id, checks_pk, store_row, write_checked, write_encoded, write_row,
}
use tidesdb_mysql.Rows.KeyLength.{IsPart}
use tidesdb_mysql.Rows.Contents.{Contract, Ends, and_then-Ends, call-put}
use tidesdb_mysql.Rows.Represents.{
  Table, Contents, set_row, stored, Represents, IsTable, maintain-GoesAll,
}
use tidesdb_mysql.Rows.Quiet.{Same, bulk_tail-Same}
use tidesdb_mysql.Rows.WriteChecks.{
  lock_row-Same, Checked, pk_dup_check-Checked, unique_checks-Same, absent,
}
use tidesdb_mysql.Rows.WriteIndex.{write_index-Goes}
use tidesdb_mysql.Rows.SetRow.{RowSet, maintained-Represents}

module _ {Row W : Type 0} (s : Store W) (at : W → Contents) (law : Contract s at) (e : Env)
    (d : TableDef Row) where
  put_row-RowSet :
      (pk bytes : List ℕ) (row : Row) (h : Handler W)
      → Ends (RowSet at pk (some bytes) h) (call (s.put 0 (build_data_key pk) bytes (d.ttl row)) h)
  unfolding call build_data_key
  put_row-RowSet pk bytes row h done = (
    λ q. call-put s at law 0 (1 ∷ pk) bytes (d.ttl row) h (1 ∷ q) done,
    λ j k. law.put_frame 0 (1 ∷ pk) bytes (d.ttl row) h.world (suc j) k (ground arith),
  )

  module _ (t : Table Row) (wf : IsTable e d) (row : Row) (pk bytes : List ℕ)
      (encoded : serialize_row d row ≡ some bytes) (own : pk_from_record e.stale d pk row ≡ pk)
      (free : t pk ≡ none) where
    abbrev Added : Handler W → Type 0
    Added g = Represents e d (at g.world) (set_row t pk (some row))

    new_row_named :
        (r : Row)
        → some row ≡ some r
        → (serialize_row d r ≢ none) × (pk_from_record e.stale d pk r ≡ pk)
    new_row_named r eq =
        let same : row ≡ r = cc in rw (← same) (λ bad. let clash = sym encoded ∙ bad in cc, own)

    still-Added : (f g : Handler W) → Same s at law f g → Added f → Added g
    still-Added f g same added = rw same added

    store_row-Added :
        (h : Handler W)
        → Represents e d (at h.world) t
        → Ends Added (store_row s e d row pk bytes h)
    unfolding store_row stored
    store_row-Added h rep =
        and_then-Ends Added (RowSet at pk (some bytes) h) _ _ (put_row-RowSet pk bytes row h)
          (λ g put.
            and_then-Ends Added Added _ _
              (λ done.
                maintained-Represents e d at t pk (some row) h g
                  (maintain d (write_index s e d row pk) (record g { current_pk = pk })).1 rep
                  (rw (← encoded) at put) new_row_named
                  (maintain-GoesAll e d at t (set_row t pk (some row)) (λ ix. All IsPart ix.parts)
                    (write_index s e d row pk)
                    (λ i ix f parts. write_index-Goes s at law e d t row pk i ix f free own parts)
                    (record g { current_pk = pk }) wf wf.parts done))
              (λ f added done.
                still-Added f (bulk_tail s e f.in_bulk_insert (1 + d.num_secondary_indexes) f).1
                  (bulk_tail-Same s at law e f.in_bulk_insert (1 + d.num_secondary_indexes) f done)
                  added))

  module _ (t : Table Row) (wf : IsTable e d) (row : Row) (pk : List ℕ)
      (own : pk_from_record e.stale d pk row ≡ pk) (auto replace : Bool)
      (given : checks_pk s e d auto replace ≡ false → t pk ≡ none) where
    -- Either the check was made and found nothing, or it was left out where nothing stands.
    free_pk :
        (h : Handler W)
        → Represents e d (at h.world) t
        → (g : Handler W) → Checked s at law e d auto replace pk h g
        → t pk ≡ none
    free_pk h rep g (same, missing) = elim (Bool-cases (checks_pk s e d auto replace)) [
      | inl checks ↦
          absent s at law e d (t pk)
            (sym (rep.rows pk) ∙ ap (λ (c : Contents). c 0 (1 ∷ pk)) (sym same) ∙ missing checks)
            (rep.whole pk)
      | inr skips ↦ given skips
    ]

    abbrev Written : Handler W → Type 0
    Written g = Represents e d (at g.world) (set_row t pk (some row))

    write_checked-Written :
        (bytes : List ℕ) (h : Handler W)
        → serialize_row d row ≡ some bytes
        → Represents e d (at h.world) t
        → Ends Written (write_checked s e d auto replace row pk bytes h)
    unfolding write_checked mark_dirty
    write_checked-Written bytes h encoded rep =
        and_then-Ends Written (Checked s at law e d auto replace pk h) _ _
          (and_then-Ends (Checked s at law e d auto replace pk h) (Same s at law h) _ _
            (lock_row-Same s at law e d pk (mark_dirty s e h))
            (λ g same done.
              let (same', missing) = pk_dup_check-Checked s at law e d auto replace pk g done in
              (same' ∙ same, missing)))
          (λ g checked.
            and_then-Ends Written (Same s at law g) _ _ (unique_checks-Same s at law e d row g)
              (λ f same.
                store_row-Added t wf row pk bytes encoded own (free_pk h rep g checked) f
                  (rw (same, checked.0) rep)))

    write_encoded-Written :
        (o : Option (List ℕ)) (h : Handler W)
        → serialize_row d row ≡ o
        → Represents e d (at h.world) t
        → Ends Written (write_encoded s e d auto replace row pk o h)
    unfolding write_encoded is_ok call_ha
    write_encoded-Written none h encoded rep = λ done. absurd (cc)
    write_encoded-Written (some bytes) h encoded rep =
        and_then-Ends Written (Same s at law h) _ _ (λ done. law.ensure_keeps h.world done)
          (λ g same. write_checked-Written bytes g encoded (rw same rep))

  new_pk-own :
      (row : Row) (h : Handler W)
      → pk_from_record e.stale d (new_pk s e d row h) row ≡ new_pk s e d row h
  unfolding new_pk pk_from_record
  new_pk-own row h = ground arith

  pub take_row_id-world : (h : Handler W) → (take_row_id s e d h).world ≡ h.world
  unfolding take_row_id
  take_row_id-world h = ground arith

  -- Under the contract of the engine: if write_row succeeds and the contents represented a table, they represent the table with the row
  -- under its key: the row can be read, every index that is maintained has its entries, and nothing else
  -- reads otherwise. Where the key is not looked up, no row must stand under it.
  pub write_row-Represents :
      (t : Table Row) (auto replace : Bool) (row : Row) (h : Handler W)
      → IsTable e d
      → Represents e d (at h.world) t
      → (checks_pk s e d auto replace ≡ false → t (new_pk s e d row h) ≡ none)
      → is_ok (write_row s e d auto replace row h).0 ≡ true
      → Represents e d
          (at (write_row s e d auto replace row h).1.world)
          (set_row t (new_pk s e d row h) (some row))
  unfolding write_row
  write_row-Represents t auto replace row h wf rep given =
      write_encoded-Written t wf row (new_pk s e d row h) (new_pk-own row h) auto replace given
        (serialize_row d row) (take_row_id s e d h) refl (rw (take_row_id-world h) rep)
