-- ===== src/RowLock/Ownership.antt =====
-- What one part of a call of `row_lock_acquire` does, on every path of it.
use tidesdb_mysql.Base.{
  ℕ, ◌+◌, ◌-◌, ◌≡◌, ◌≢◌, refl, sym, ◌∙◌, Bool, true, false, not, Option, none, some, arith, ◌==◌,
  ◌&&◌, if_cases, &&-eq-true,
}
use tidesdb_mysql.RowLock.{
  Table, owner, txn_id, waiting, option_eq, Phase, done, Code, ok, deadlock, wait_timeout,
  acquire_found, acquire_resume, wait_round, claim, leave, set_lock,
}
use tidesdb_mysql.RowLock.Frame.{
  IsLock, SameOwners, owner-claim, IsLock-claim, waiting-claim, leave-SameOwners,
  waiters-SameOwners, set_waiting-SameOwners, trx-set_lock,
}
use tidesdb_mysql.RowLock.Invariant.{Inv, SameOwners-Inv, claim-Inv}
use tidesdb_mysql.RowLock.System.{pending}

-- Transaction `r` acts on the lock `i`, and the table `t` becomes `t'` with the call at `p`.
pub record Acts (t : Table) (r i : ℕ) (p : Phase) (t' : Table) : Type 0 where
  pub inv : Inv t'
  pub granted : p ≡ done ok → owner t' i ≡ some r
  pub keeps : (j s : ℕ) → owner t j ≡ some s → owner t' j ≡ some s
  pub gains : (j s : ℕ) → s ≢ r → owner t' j ≡ some s → owner t j ≡ some s
  pub waits : waiting t' r ≡ pending p
  pub bystanders : (s : ℕ) → s ≢ r → waiting t' s ≡ waiting t s
  pub locks : (j : ℕ) → IsLock t j → IsLock t' j
  pub blocked : (j : ℕ) → pending p ≡ some j → (j ≡ i) × (owner t' i ≢ some r)

pub Acts-same :
    {t t' : Table} {r i : ℕ} {p : Phase}
    → SameOwners t t'
    → Inv t
    → (p ≡ done ok → owner t i ≡ some r)
    → waiting t' r ≡ pending p
    → ((s : ℕ) → s ≢ r → waiting t' s ≡ waiting t s)
    → ((j : ℕ) → pending p ≡ some j → (j ≡ i) × (owner t i ≢ some r))
    → Acts t r i p t'
Acts-same {t} {t'} {r} {i} {p} same v mine w others b = record {
  inv = SameOwners-Inv same v;
  granted = λ e. same.owners i ∙ mine e;
  keeps = λ j s e. same.owners j ∙ e;
  gains = λ j s ne e. sym (same.owners j) ∙ e;
  waits = w;
  bystanders = others;
  locks = same.kept;
  blocked = λ j e. ((b j e).0, λ o. (b j e).1 (sym (same.owners i) ∙ o));
}

Acts-claim :
    {t u t' : Table} {r i : ℕ}
    → SameOwners t u
    → SameOwners (claim u r i) t'
    → Inv t
    → IsLock t i
    → owner t i ≡ none
    → waiting t' r ≡ none
    → ((s : ℕ) → s ≢ r → waiting t' s ≡ waiting t s)
    → Acts t r i (done ok) t'
Acts-claim {t} {u} {t'} {r} {i} before after v here vacant w others =
    let here' = before.kept i here in
    let vacant' : owner u i ≡ none = before.owners i ∙ vacant in
    let now = owner-claim u r i here' in
    record {
      inv = SameOwners-Inv after (claim-Inv u r i here' vacant' (SameOwners-Inv before v));
      granted = λ e. ground (arith, after.owners i, now i);
      keeps = λ j s e. ground (arith, after.owners j, now j, before.owners j, vacant);
      gains = λ j s ne e. ground (arith, after.owners j, now j, before.owners j);
      waits = w;
      bystanders = others;
      locks = λ j h. after.kept j (IsLock-claim u r i here' j (before.kept j h));
      blocked = λ j e. absurd (cc);
    }

SameOwners-refl : (t : Table) → SameOwners t t
SameOwners-refl t = record {
  owners = λ j. refl;
  ids = λ j. refl;
  helds = λ s. refl;
  lock_ids = λ s. refl;
  kept = λ j h. h;
}

-- A lock whose id is 0 has no owner.
vacant_of_id : (t : Table) (i : ℕ) → Inv t → (txn_id t i == 0) ≡ true → owner t i ≡ none
vacant_of_id t i v e = ground (arith, v.free i)

owner_eq : (a : Option ℕ) (r : ℕ) → option_eq a (some r) ≡ true → a ≡ some r
owner_eq a r e = ground arith

pub acquire_found-Acts :
    (t : Table) (r i : ℕ)
    → Inv t
    → IsLock t i
    → waiting t r ≡ none
    → Acts t r i (acquire_found t r i).0 (acquire_found t r i).1
unfolding acquire_found
acquire_found-Acts t r i v here w =
    if_cases P (txn_id t i == (t.trx r).lock_txn_id && option_eq (owner t i) (some r)) _ _
      (λ own.
        Acts-same (SameOwners-refl t) v (λ _. owner_eq (owner t i) r (&&-eq-true _ _ own).1) w
          (λ s ne. refl) (λ j e. absurd (cc)))
      (λ own.
        if_cases P (txn_id t i == 0) _ _
          (λ free.
            Acts-claim (SameOwners-refl t) (SameOwners-refl _) v here (vacant_of_id t i v free)
              (waiting-claim t r i r ∙ w) (λ s ne. waiting-claim t r i s))
          (λ taken.
            Acts-same (set_waiting-SameOwners t r (some i)) v (λ e. absurd (cc)) (ground arith)
              (λ s ne. ground arith) (λ j e. (ground arith, not_own own))))
  where
    P : Phase × Table → Type 0
    P x = Acts t r i x.0 x.1

    not_own :
        (txn_id t i == (t.trx r).lock_txn_id && option_eq (owner t i) (some r)) ≡ false
        → owner t i ≢ some r
    not_own own e = ground (arith, v.stamped i r)

-- In a consistent table, one round of the wait loop, of a transaction that waits on an entry that it
-- does not own: if it reports success the transaction owns the lock; if it goes on waiting it does not own it and is still
-- published as waiting on it, and otherwise its wait is withdrawn; no other transaction gains or
-- loses a lock or a wait; and the table stays consistent.
pub wait_round-Acts :
    (killed deadlocked : Bool) (t : Table) (r i : ℕ)
    → Inv t
    → IsLock t i
    → owner t i ≢ some r
    → waiting t r ≡ some i
    → Acts t r i (wait_round killed deadlocked t r i).0 (wait_round killed deadlocked t r i).1
unfolding wait_round
wait_round-Acts killed deadlocked t r i v here other w =
    if_cases P (not (txn_id t i == 0) && not (option_eq (owner t i) (some r))) _ _
      (λ taken.
        if_cases P killed _ _ (λ k. gives_up wait_timeout (λ e. absurd (cc)))
          (λ alive.
            if_cases P deadlocked _ _ (λ d. gives_up deadlock (λ e. absurd (cc)))
              (λ ok_so_far.
                Acts-same (SameOwners-refl t) v (λ e. absurd (cc)) w (λ s ne. refl)
                  (λ j e. (ground arith, other)))))
      (λ vacated.
        Acts-claim (leave-SameOwners t r i) (SameOwners-refl _) v here (ground (arith, v.free i))
          (waiting-claim (leave t r i) r i r ∙ left)
          (λ s ne. waiting-claim (leave t r i) r i s ∙ bystander s ne))
  where
    P : Phase × Table → Type 0
    P x = Acts t r i x.0 x.1

    left : waiting (leave t r i) r ≡ none
    left = ground arith

    bystander : (s : ℕ) → s ≢ r → waiting (leave t r i) s ≡ waiting t s
    bystander s ne = ground (arith, trx-set_lock t i (λ l. record l { waiters = l.waiters - 1 }))

    gives_up : (c : Code) → (c ≡ ok → ⊥) → Acts t r i (done c) (leave t r i)
    gives_up c ne =
        Acts-same (leave-SameOwners t r i) v (λ e. absurd (ne (cc))) left bystander
          (λ j e. absurd (cc))

pub Acts-before :
    {t u t' : Table} {r i : ℕ} {p : Phase}
    → SameOwners t u
    → ((s : ℕ) → waiting u s ≡ waiting t s)
    → Acts u r i p t'
    → Acts t r i p t'
Acts-before {t} {u} {t'} {r} {i} same w a = record {
  inv = a.inv;
  granted = a.granted;
  keeps = λ j s e. a.keeps j s (same.owners j ∙ e);
  gains = λ j s ne e. sym (same.owners j) ∙ a.gains j s ne e;
  waits = a.waits;
  bystanders = λ s ne. a.bystanders s ne ∙ w s;
  locks = λ j h. a.locks j (same.kept j h);
  blocked = a.blocked;
}

-- In a consistent table, the part of a call that follows the first walk, of a transaction that waits on
-- an entry that it does not own: success means that the lock is owned, and no other transaction gains or loses a lock or a wait, whatever the walker answered.
pub acquire_resume-Acts :
    (found killed deadlocked : Bool) (t : Table) (r i : ℕ)
    → Inv t
    → IsLock t i
    → owner t i ≢ some r
    → waiting t r ≡ some i
    → Acts t r i
        (acquire_resume found killed deadlocked t r i).0
        (acquire_resume found killed deadlocked t r i).1
unfolding acquire_resume
acquire_resume-Acts found killed deadlocked t r i v here other w =
    if_cases P found _ _
      (λ cyclic.
        Acts-same (set_waiting-SameOwners t r none) v (λ e. absurd (cc)) (ground arith)
          (λ s ne. ground arith) (λ j e. absurd (cc)))
      (λ acyclic.
        if_cases P (txn_id t i == 0) _ _
          (λ free.
            Acts-claim (SameOwners-refl t) (set_waiting-SameOwners _ r none) v here
              (vacant_of_id t i v free) (ground arith)
              (λ s ne. ground (arith, waiting-claim t r i s)))
          (λ taken. Acts-before counted unwaited (
            wait_round-Acts killed deadlocked one_more r i (SameOwners-Inv counted v)
              (counted.kept i here) (λ e. other (sym (counted.owners i) ∙ e)) (unwaited r ∙ w))))
  where
    P : Phase × Table → Type 0
    P x = Acts t r i x.0 x.1

    one_more : Table
    one_more = set_lock t i (λ l. record l { waiters = l.waiters + 1 })

    counted : SameOwners t one_more
    counted = waiters-SameOwners t i (λ n. n + 1)

    unwaited : (s : ℕ) → waiting one_more s ≡ waiting t s
    unwaited s = ground (arith, trx-set_lock t i (λ l. record l { waiters = l.waiters + 1 }))
