-- ===== src/RowLock/Walk.antt =====
-- The deadlock walker of plugin/tidesdb_row_lock.cc against the wait-for graph that it walks.
use tidesdb_mysql.Base.{
  ℕ, zero, suc, ◌<◌, ◌≡◌, refl, sym, ap, ◌∙◌, ◌↔◌, inl, inr, true, false, Option, none, some, arith,
  Bool-cases, ◌==◌, ==_iff,
}
use tidesdb_mysql.RowLock.{Table, owner, waiting, walk, would_deadlock, deadlock_max_depth}

-- One hop of the graph: from a transaction to the owner of the lock that it waits on.
pub hop : Table → Option ℕ → Option ℕ
hop t none = none
hop t (some r) = elim (waiting t r) [ none ↦ none | some lock ↦ owner t lock ]

-- The transaction that is reached from `cur` by `n` hops.
pub reached : Table → ℕ → Option ℕ → Option ℕ
reached t zero cur = cur
reached t (suc n) cur = reached t n (hop t cur)

reached-none : (t : Table) (n : ℕ) → reached t n none ≡ none
unfolding reached hop
reached-none t zero = refl
reached-none t (suc n) = reached-none t n

walk-none : (t : Table) (r depth : ℕ) → walk t r depth none ≡ false
unfolding walk
walk-none t r zero = refl
walk-none t r (suc depth) = refl

walk_hit :
    (t : Table) (r depth cur : ℕ) → (cur == r) ≡ true → walk t r (suc depth) (some cur) ≡ true
unfolding walk
walk_hit t r depth cur e = ground arith

walk_miss :
    (t : Table) (r depth cur : ℕ)
    → (cur == r) ≡ false
    → walk t r (suc depth) (some cur) ≡ walk t r depth (hop t (some cur))
unfolding walk hop
walk_miss t r depth cur e = ground (arith, walk-none t r depth)

walk_sound :
    (t : Table) (r depth : ℕ) (cur : Option ℕ)
    → walk t r depth cur ≡ true
    → (n : ℕ) × (n < depth) × (reached t n cur ≡ some r)
unfolding reached
walk_sound t r zero cur e = absurd (unfold walk in cc)
walk_sound t r (suc depth) none e = absurd (unfold walk in cc)
walk_sound t r (suc depth) (some cur) e = elim (Bool-cases (cur == r)) [
  | inl hit ↦ (0, omega arith, ap some ((==_iff cur r).0 hit))
  | inr miss ↦
      let (n, l, p) =
        walk_sound t r depth (hop t (some cur)) (sym (walk_miss t r depth cur miss) ∙ e) in
      (suc n, omega arith, p)
]

walk_complete :
    (t : Table) (r depth : ℕ) (cur : Option ℕ) (n : ℕ)
    → n < depth
    → reached t n cur ≡ some r
    → walk t r depth cur ≡ true
unfolding reached
walk_complete t r zero cur n l e = absurd (omega arith)
walk_complete t r (suc depth) none n l e = cc (reached-none t n)
walk_complete t r (suc depth) (some cur) zero l e = walk_hit t r depth cur (ground arith)
walk_complete t r (suc depth) (some cur) (suc n) l e = elim (Bool-cases (cur == r)) [
  | inl hit ↦ walk_hit t r depth cur hit
  | inr miss ↦
      walk_miss t r depth cur miss ∙ walk_complete t r depth (hop t (some cur)) n (omega arith) e
]

-- The walker answers yes exactly when the requestor is reached from the owner of the target lock
-- by fewer than 100 hops from a transaction to the owner of the lock that it waits on.
pub would_deadlock_iff :
    (t : Table) (r target : ℕ)
    → (would_deadlock t r target ≡ true)
      ↔ ((n : ℕ) × (n < deadlock_max_depth) × (reached t n (owner t target) ≡ some r))
unfolding would_deadlock
would_deadlock_iff t r target = (
  walk_sound t r deadlock_max_depth (owner t target),
  λ (n, l, e). walk_complete t r deadlock_max_depth (owner t target) n l e,
)
