-- ===== src/Rows/Contents.antt =====
-- What the engine is relied on for, and what its calls and the loops of calls do to the contents.
use tidesdb_mysql.Base.{
  ℕ, Bool, true, false, ◌&&◌, Option, none, some, List, [], ◌∷◌, if◌then◌else◌, ◌==◌, ◌≡◌, refl,
  ◌∙◌, ap, arith, Bool-cases, inl, inr, ==_refl, ℤ,
}
use tidesdb_mysql.Codes.{Rc, Ha, tdb_success, tdb_rc_to_ha, is_success, is_not_found}
use tidesdb_mysql.RowLock.{bytes_eq}
use tidesdb_mysql.RowLock.Lookup.{bytes_eq→eq}
use tidesdb_mysql.Rows.{Store, Handler, Step, is_ok, ha_of, and_then, call}
use tidesdb_mysql.Rows.Entries.{Entry}
use tidesdb_mysql.Rows.Engine.{put_all, delete_all, delete_all_unchecked, tidesdb_txn_delete_cf}

-- `at w cf key` is what a read of the transaction finds, where it is not refused, and `settled w` says
-- that nothing is buffered that a reset would discard. A write changes its own key only; one that
-- succeeds stores the value, and a delete that succeeds removes it. A commit that succeeds leaves what
-- is read, and leaves nothing buffered; a reset, or a handle that is freed and begun again, leaves what
-- is read where nothing was buffered. So does a begin that succeeds, and a lock that is granted. That no
-- other transaction commits a change of these rows in between is relied on too.
pub record Contract {W : Type 0} (s : Store W) (at : W → ℕ → List ℕ → Option (List ℕ))
    : Type 0 where
  pub get_missing :
      (cf : ℕ) (k : List ℕ) (w : W) → is_not_found (s.get cf k w).0 ≡ true → at w cf k ≡ none
  pub get_found :
      (cf : ℕ) (k v : List ℕ) (w : W) → at w cf k ≡ some v → is_not_found (s.get cf k w).0 ≡ false
  pub put_done :
      (cf : ℕ) (k v : List ℕ) (ttl : ℤ) (w : W)
      → is_success (s.put cf k v ttl w).0 ≡ true
      → at (s.put cf k v ttl w).1 cf k ≡ some v
  pub put_frame :
      (cf : ℕ) (k v : List ℕ) (ttl : ℤ) (w : W) (cf' : ℕ) (k' : List ℕ)
      → (cf == cf' && bytes_eq k k') ≡ false
      → at (s.put cf k v ttl w).1 cf' k' ≡ at w cf' k'
  pub delete_done :
      (b : Bool) (cf : ℕ) (k : List ℕ) (w : W)
      → is_success (tidesdb_txn_delete_cf s b cf k w).0 ≡ true
      → at (tidesdb_txn_delete_cf s b cf k w).1 cf k ≡ none
  pub delete_frame :
      (b : Bool) (cf : ℕ) (k : List ℕ) (w : W) (cf' : ℕ) (k' : List ℕ)
      → (cf == cf' && bytes_eq k k') ≡ false
      → at (tidesdb_txn_delete_cf s b cf k w).1 cf' k' ≡ at w cf' k'
  pub settled : W → Bool
  pub commit_keeps : (w : W) → is_success (s.commit w).0 ≡ true → at (s.commit w).1 ≡ at w
  pub commit_settles : (w : W) → is_success (s.commit w).0 ≡ true → settled (s.commit w).1 ≡ true
  pub reset_keeps : (w : W) → settled w ≡ true → at (s.reset w).1 ≡ at w
  pub reset_settles : (w : W) → settled w ≡ true → settled (s.reset w).1 ≡ true
  pub begin_keeps :
      (w : W)
      → settled w ≡ true
      → is_success (s.begin_again (s.free w)).0 ≡ true
      → at (s.begin_again (s.free w)).1 ≡ at w
  pub ensure_keeps :
      (w : W) → is_ok (s.ensure_stmt_txn w).0 ≡ true → at (s.ensure_stmt_txn w).1 ≡ at w
  pub lock_keeps :
      (pk : List ℕ) (w : W)
      → is_ok (s.row_lock_acquire pk w).0 ≡ true
      → at (s.row_lock_acquire pk w).1 ≡ at w

-- What holds of the handler if the operation succeeded.
abbrev pub Ends : {W : Type 0} → (Handler W → Type 0) → Ha × Handler W → Type 0
Ends P x = is_ok x.0 ≡ true → P x.1

branch-Ends :
    {W : Type 0} (P : Handler W → Type 0) (next : Step W) (c : Ha) (h : Handler W) (b : Bool)
    → is_ok c ≡ b
    → (is_ok c ≡ true → Ends P (next h))
    → Ends P (elim b [ true ↦ next h | false ↦ (c, h) ])
branch-Ends P next c h true e good = good e
branch-Ends P next c h false e good = λ done. absurd (cc)

pub and_then-Ends :
    {W : Type 0} (P Q : Handler W → Type 0) (x : Ha × Handler W) (next : Step W)
    → Ends Q x
    → ((h : Handler W) → Q h → Ends P (next h))
    → Ends P (and_then x next)
unfolding and_then
and_then-Ends P Q (c, h) next first rest =
    branch-Ends P next c h (is_ok c) refl (λ good. rest h (first good))

pub success_of_ok : (rc : Rc) → is_ok (ha_of rc) ≡ true → is_success rc ≡ true
unfolding is_ok ha_of tdb_rc_to_ha
success_of_ok tdb_success h = refl
success_of_ok rc h = ground arith

-- What is found under a key after entries were stored one after the other, or removed.
unfoldable pub over : List Entry → List ℕ → Option (List ℕ) → Option (List ℕ)
over [] k o = o
over ((j, v) ∷ es) k o = over es k (if bytes_eq j k then some v else o)

unfoldable pub hit : List Entry → List ℕ → Bool
hit [] k = false
hit ((j, v) ∷ es) k = if bytes_eq j k then true else hit es k

pub over-miss :
    (es : List Entry) (k : List ℕ) (o : Option (List ℕ)) → hit es k ≡ false → over es k o ≡ o
unfolding over hit
over-miss [] k o h = refl
over-miss ((j, v) ∷ es) k o h = elim (Bool-cases (bytes_eq j k)) [
  | inl e ↦ absurd (let q = rw e at h in cc)
  | inr e ↦ rw e (over-miss es k o (rw e at h))
]

pub over-hit :
    (es : List Entry) (k : List ℕ) (o o' : Option (List ℕ))
    → hit es k ≡ true
    → over es k o ≡ over es k o'
unfolding over hit
over-hit [] k o o' h = absurd (cc)
over-hit ((j, v) ∷ es) k o o' h = elim (Bool-cases (bytes_eq j k)) [
  | inl e ↦ rw e refl
  | inr e ↦ rw e (over-hit es k o o' (rw e at h))
]

removed_twice :
    (j v : List ℕ) (es : List Entry) (k : List ℕ) (a b c : Option (List ℕ))
    → a ≡ (if hit es k then none else b)
    → b ≡ (if bytes_eq j k then none else c)
    → a ≡ (if hit ((j, v) ∷ es) k then none else c)
unfolding hit
removed_twice j v es k a b c p q = ground arith

module _ {W : Type 0} (s : Store W) (at : W → ℕ → List ℕ → Option (List ℕ))
    (law : Contract s at) where
  pub call-put :
      (cf : ℕ) (j v : List ℕ) (ttl : ℤ) (h : Handler W) (k : List ℕ)
      → Ends
          (λ g. at g.world cf k ≡ (if bytes_eq j k then some v else at h.world cf k))
          (call (s.put cf j v ttl) h)
  unfolding call
  call-put cf j v ttl h k done = elim (Bool-cases (bytes_eq j k)) [
    | inl e ↦ rw (e, ← bytes_eq→eq j k e) (law.put_done cf j v ttl h.world (success_of_ok _ done))
    | inr e ↦ rw e (law.put_frame cf j v ttl h.world cf k (rw (==_refl cf) e))
  ]

  pub call-delete :
      (b : Bool) (cf : ℕ) (j : List ℕ) (h : Handler W) (k : List ℕ)
      → Ends
          (λ g. at g.world cf k ≡ (if bytes_eq j k then none else at h.world cf k))
          (call (tidesdb_txn_delete_cf s b cf j) h)
  unfolding call
  call-delete b cf j h k done = elim (Bool-cases (bytes_eq j k)) [
    | inl e ↦ rw (e, ← bytes_eq→eq j k e) (law.delete_done b cf j h.world (success_of_ok _ done))
    | inr e ↦ rw e (law.delete_frame b cf j h.world cf k (rw (==_refl cf) e))
  ]

  pub put_all_frame :
      (cf : ℕ) (ttl : ℤ) (es : List Entry) (h : Handler W) (cf' : ℕ) (k : List ℕ)
      → (cf == cf') ≡ false
      → Ends (λ g. at g.world cf' k ≡ at h.world cf' k) (put_all s cf ttl es h)
  unfolding put_all call
  put_all_frame cf ttl [] h cf' k n = λ done. refl
  put_all_frame cf ttl ((j, v) ∷ es) h cf' k n =
      and_then-Ends (λ g. at g.world cf' k ≡ at h.world cf' k)
        (λ g. at g.world cf' k ≡ at h.world cf' k) _ _
        (λ done. law.put_frame cf j v ttl h.world cf' k (rw n refl))
        (λ g e done. put_all_frame cf ttl es g cf' k n done ∙ e)

  pub put_all-over :
      (cf : ℕ) (ttl : ℤ) (es : List Entry) (h : Handler W) (k : List ℕ)
      → Ends (λ g. at g.world cf k ≡ over es k (at h.world cf k)) (put_all s cf ttl es h)
  unfolding put_all over
  put_all-over cf ttl [] h k = λ done. refl
  put_all-over cf ttl ((j, v) ∷ es) h k =
      and_then-Ends
        (λ g. at g.world cf k ≡ over es k (if bytes_eq j k then some v else at h.world cf k))
        (λ g. at g.world cf k ≡ (if bytes_eq j k then some v else at h.world cf k)) _ _
        (call-put cf j v ttl h k) (λ g e done. put_all-over cf ttl es g k done ∙ ap (over es k) e)

  pub delete_all_frame :
      (cf : ℕ) (es : List Entry) (h : Handler W) (cf' : ℕ) (k : List ℕ)
      → (cf == cf') ≡ false
      → Ends (λ g. at g.world cf' k ≡ at h.world cf' k) (delete_all s cf es h)
  unfolding delete_all call
  delete_all_frame cf [] h cf' k n = λ done. refl
  delete_all_frame cf ((j, v) ∷ es) h cf' k n =
      and_then-Ends (λ g. at g.world cf' k ≡ at h.world cf' k)
        (λ g. at g.world cf' k ≡ at h.world cf' k) _ _
        (λ done. law.delete_frame true cf j h.world cf' k (rw n refl))
        (λ g e done. delete_all_frame cf es g cf' k n done ∙ e)

  pub delete_all-hit :
      (cf : ℕ) (es : List Entry) (h : Handler W) (k : List ℕ)
      → Ends
          (λ g. at g.world cf k ≡ (if hit es k then none else at h.world cf k))
          (delete_all s cf es h)
  unfolding delete_all hit
  delete_all-hit cf [] h k = λ done. refl
  delete_all-hit cf ((j, v) ∷ es) h k =
      and_then-Ends (λ g. at g.world cf k ≡ (if hit ((j, v) ∷ es) k then none else at h.world cf k))
        (λ g. at g.world cf k ≡ (if bytes_eq j k then none else at h.world cf k)) _ _
        (call-delete true cf j h k)
        (λ g e done. removed_twice j v es k _ _ _ (delete_all-hit cf es g k done) e)

  pub unchecked_frame :
      (cf : ℕ) (es : List Entry) (h : Handler W) (cf' : ℕ) (k : List ℕ)
      → (cf == cf') ≡ false
      → at (delete_all_unchecked s cf es h).1.world cf' k ≡ at h.world cf' k
  unfolding delete_all_unchecked call
  unchecked_frame cf [] h cf' k n = refl
  unchecked_frame cf ((j, v) ∷ es) h cf' k n =
      unchecked_frame cf es (call (tidesdb_txn_delete_cf s true cf j) h).1 cf' k n
      ∙ law.delete_frame true cf j h.world cf' k (rw n refl)

  pub unchecked-hit :
      (sure : (cf : ℕ) (j : List ℕ) (h : Handler W)
        → is_ok (call (tidesdb_txn_delete_cf s true cf j) h).0 ≡ true)
      (cf : ℕ) (es : List Entry) (h : Handler W) (k : List ℕ)
      → at (delete_all_unchecked s cf es h).1.world cf k
        ≡ (if hit es k then none else at h.world cf k)
  unfolding delete_all_unchecked hit
  unchecked-hit sure cf [] h k = refl
  unchecked-hit sure cf ((j, v) ∷ es) h k =
      removed_twice j v es k _ _ _
        (unchecked-hit sure cf es (call (tidesdb_txn_delete_cf s true cf j) h).1 k)
        (call-delete true cf j h k (sure cf j h))
