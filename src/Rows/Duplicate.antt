-- ===== src/Rows/Duplicate.antt =====
-- A write_row under the primary key of another row.
use tidesdb_mysql.Base.{
  ℕ, ◌≡◌, ◌∙◌, refl, ap, Bool, true, false, ◌&&◌, Option, some, List, ◌∷◌, if_cases, Option-cases,
  inl, inr, sym, subst, Bool-cases, ◌⊎◌,
}
use tidesdb_mysql.Codes.{Rc, Ha, ha_ok, is_success, is_not_found, ha_found_dupp_key}
use tidesdb_mysql.Rows.{TableDef, Env, Store, Handler, Step, is_ok, ha_of, and_then, call_ha}
use tidesdb_mysql.Rows.Key.{build_data_key}
use tidesdb_mysql.Rows.Serialize.{serialize_row}
use tidesdb_mysql.Rows.Engine.{mark_dirty}
use tidesdb_mysql.Rows.Write.{
  new_pk, take_row_id, lock_row, checks_pk, pk_dup_check, write_checked, write_encoded, write_row,
}
use tidesdb_mysql.Rows.Contents.{Contract, success_of_ok}
use tidesdb_mysql.Rows.Represents.{Table, Contents, stored, Represents}
use tidesdb_mysql.Rows.WriteChecks.{lock_row-Same}
use tidesdb_mysql.Rows.WriteKeeps.{take_row_id-world}

and_then_ok :
    {W : Type 0} (x : Ha × Handler W) (next : Step W)
    → is_ok x.0 ≡ true
    → and_then x next ≡ next x.1
unfolding and_then
and_then_ok x next good = rw (good, and_then) refl

and_then_bad :
    {W : Type 0} (x : Ha × Handler W) (next : Step W) → is_ok x.0 ≡ false → and_then x next ≡ x
unfolding and_then
and_then_bad x next bad = rw (bad, and_then) refl

not_ok : (rc : Rc) → is_success rc ≡ false → is_ok (ha_of rc) ≡ false
not_ok rc bad = elim (Bool-cases (is_ok (ha_of rc))) [
  | inl fine ↦ absurd (let good = success_of_ok rc fine in cc)
  | inr broken ↦ broken
]

module _ {Row W : Type 0} (s : Store W) (at : W → Contents) (law : Contract s at) (e : Env)
    (d : TableDef Row) (begins : (w : W) → (s.ensure_stmt_txn w).0 ≡ ha_ok)
    (locks : (pk : List ℕ) (w : W) → (s.row_lock_acquire pk w).0 ≡ ha_ok) where
  lock_row_ok : (pk : List ℕ) (h : Handler W) → is_ok (lock_row s e d pk h).0 ≡ true
  unfolding lock_row call_ha is_ok
  lock_row_ok pk h =
      if_cases (λ (x : Ha × Handler W). is_ok x.0 ≡ true)
        (e.pessimistic_locking && d.has_user_pk && e.has_trx) _ _
        (λ lock. rw (locks pk h.world) refl) (λ free. refl)

  abbrev duplicate : List ℕ → Handler W → Handler W
  duplicate pk h = record h { dup_key = some d.pk_index; dup_ref = pk }

  begin_ok : (h : Handler W) → is_ok (call_ha s.ensure_stmt_txn h).0 ≡ true
  unfolding call_ha is_ok
  begin_ok h = rw (begins h.world) refl

  begun : (h : Handler W) → at (call_ha s.ensure_stmt_txn h).1.world ≡ at h.world
  unfolding call_ha is_ok
  begun h = law.ensure_keeps h.world (rw (begins h.world) refl)

  locked :
      (pk : List ℕ) (g : Handler W) → at (lock_row s e d pk (mark_dirty s e g)).1.world ≡ at g.world
  unfolding mark_dirty
  locked pk g = lock_row-Same s at law e d pk (mark_dirty s e g) (lock_row_ok pk (mark_dirty s e g))

  -- The answer that the key is there, or that of a read that was refused.
  Answers : List ℕ → Handler W → Ha × Handler W → Type 0
  Answers pk h x =
      (x ≡ (ha_found_dupp_key, duplicate pk h))
      ⊎ ((is_success (s.get 0 (1 ∷ pk) h.world).0 ≡ false)
          × (x ≡ (ha_of (s.get 0 (1 ∷ pk) h.world).0, h)))

  pk_dup_check_found :
      (auto replace : Bool) (pk : List ℕ) (h : Handler W)
      → checks_pk s e d auto replace ≡ true
      → is_not_found (s.get 0 (1 ∷ pk) h.world).0 ≡ false
      → Answers pk h (pk_dup_check s e d auto replace pk h)
  unfolding pk_dup_check build_data_key Answers
  pk_dup_check_found auto replace pk h checks found =
      elim (Bool-cases (is_success (s.get 0 (1 ∷ pk) h.world).0)) [
        | inl good ↦ inl (rw (checks, good) refl)
        | inr bad ↦ inr (bad, rw (checks, bad, found) refl)
      ]

  Answers-bad :
      (pk : List ℕ) (h : Handler W) (x : Ha × Handler W) → Answers pk h x → is_ok x.0 ≡ false
  unfolding Answers is_ok
  Answers-bad pk h x (inl q) = ap (λ (y : Ha × Handler W). is_ok y.0) q
  Answers-bad pk h x (inr (bad, q)) =
      ap (λ (y : Ha × Handler W). is_ok y.0) q ∙ not_ok (s.get 0 (1 ∷ pk) h.world).0 bad

  write_checked_found :
      (auto replace : Bool) (row : Row) (pk bytes v : List ℕ) (h : Handler W)
      → checks_pk s e d auto replace ≡ true
      → at h.world 0 (1 ∷ pk) ≡ some v
      → Answers pk
          (lock_row s e d pk (mark_dirty s e h)).1
          (write_checked s e d auto replace row pk bytes h)
  unfolding write_checked mark_dirty
  write_checked_found auto replace row pk bytes v h checks there =
      let g = mark_dirty s e h in
      let k = (lock_row s e d pk g).1 in
      let answer = pk_dup_check_found auto replace pk k checks (
        law.get_found 0 (1 ∷ pk) v k.world (
          ap (λ (c : Contents). c 0 (1 ∷ pk)) (lock_row-Same s at law e d pk g (lock_row_ok pk g))
          ∙ there)) in
      let inner =
        and_then_ok (lock_row s e d pk g) (pk_dup_check s e d auto replace pk) (lock_row_ok pk g) in
      let inner_answer = subst (Answers pk k) (sym inner) answer in
      subst (Answers pk k) (sym (and_then_bad _ _ (Answers-bad pk k _ inner_answer))) inner_answer

  stored_there :
      (pk : List ℕ) (old : Row) (t : Table Row) (h : Handler W)
      → Represents e d (at h.world) t
      → t pk ≡ some old
      → (v : List ℕ) × (at h.world 0 (1 ∷ pk) ≡ some v)
  unfolding stored
  stored_there pk old t h rep there = elim (Option-cases (serialize_row d old)) [
    | inl bad ↦ absurd (rep.whole pk old there bad)
    | inr (v, good) ↦ (v, rep.rows pk ∙ ap (stored d) there ∙ good)
  ]

  write_row_found :
      (auto replace : Bool) (row : Row) (bytes v : List ℕ) (h : Handler W)
      → checks_pk s e d auto replace ≡ true
      → serialize_row d row ≡ some bytes
      → at h.world 0 (1 ∷ new_pk s e d row h) ≡ some v
      → (g : Handler W) × Answers (new_pk s e d row h) g (write_row s e d auto replace row h)
        × (at g.world ≡ at h.world)
  unfolding write_row write_encoded
  write_row_found auto replace row bytes v h checks encoded there =
      let pk = new_pk s e d row h in
      let f = take_row_id s e d h in
      let g = (call_ha s.ensure_stmt_txn f).1 in
      let same : at g.world ≡ at h.world = begun f ∙ ap at (take_row_id-world s at law e d h) in
      let is =
        ap (λ (o : Option (List ℕ)). write_encoded s e d auto replace row pk o f) encoded
        ∙ and_then_ok (call_ha s.ensure_stmt_txn f) (write_checked s e d auto replace row pk bytes)
            (begin_ok f) in
      let k = (lock_row s e d pk (mark_dirty s e g)).1 in
      (
        k,
        subst (Answers pk k) (sym is) (
            write_checked_found auto replace row pk bytes v g checks
              (ap (λ (c : Contents). c 0 (1 ∷ pk)) same ∙ there)),
        locked pk g ∙ same,
      )

  -- Under the contract of the engine: a row under whose primary key another one stands is not written: where the key is looked up and the
  -- row can be encoded, and the transaction and the lock are granted, write_row leaves everything that
  -- is read as it was. It answers that the key is there, and notes the index and the key for the server;
  -- or the look-up was refused for another reason than a missing key, and it answers with that error.
  pub write_row_duplicate :
      (t : Table Row) (auto replace : Bool) (row old : Row) (bytes : List ℕ) (h : Handler W)
      → Represents e d (at h.world) t
      → checks_pk s e d auto replace ≡ true
      → serialize_row d row ≡ some bytes
      → t (new_pk s e d row h) ≡ some old
      → (let x = write_row s e d auto replace row h in
          (at x.1.world ≡ at h.world)
          × (((x.0 ≡ ha_found_dupp_key)
                × (x.1.dup_key ≡ some d.pk_index)
                × (x.1.dup_ref ≡ new_pk s e d row h))
              ⊎ ((is_success (s.get 0 (1 ∷ new_pk s e d row h) x.1.world).0 ≡ false)
                  × (x.0 ≡ ha_of (s.get 0 (1 ∷ new_pk s e d row h) x.1.world).0))))
  unfolding Answers
  write_row_duplicate t auto replace row old bytes h rep checks encoded there =
      let pk = new_pk s e d row h in
      let (v, kept) = stored_there pk old t h rep there in
      let (g, answer, same) = write_row_found auto replace row bytes v h checks encoded kept in
      elim answer [
        | inl q ↦ rw q (same, inl (refl, refl, refl))
        | inr (bad, q) ↦ rw q (same, inr (bad, refl))
      ]
