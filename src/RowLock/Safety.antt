-- ===== src/RowLock/Safety.antt =====
-- Safety of the row locks of plugin/tidesdb_row_lock.cc under every interleaving.
use tidesdb_mysql.Base.{
  ℕ, ◌≡◌, ◌≢◌, refl, sym, ap, ◌∙◌, ◌⊎◌, inl, inr, Bool, true, Option, none, some, List, [], ◌∷◌,
  arith, Bool-cases, ◌==◌, ==_iff,
}
use tidesdb_mysql.RowLock.{
  Table, owner, held, waiting, find_or_create, lock_part, Phase, acquire_entry, acquire_start,
  release_all,
}
use tidesdb_mysql.RowLock.Frame.{IsLock, SameOwners, find_or_create-SameOwners}
use tidesdb_mysql.RowLock.Invariant.{Inv, SameOwners-Inv}
use tidesdb_mysql.RowLock.Release.{
  release_all-Inv, release_all_exact, owner-release_all, waiting-release_all, IsLock-release_all,
}
use tidesdb_mysql.RowLock.Round.{
  owner-release_lock, waiting-release_lock, IsLock-release_lock, owner_head, release_lock-Inv,
}
use tidesdb_mysql.RowLock.System.{
  System, Step, start, resume, wake, release_round, release_end, release_lock, Reach, here, next,
  move, pending, IsIdle,
}
use tidesdb_mysql.RowLock.Ownership.{
  Acts, Acts-same, Acts-before, acquire_found-Acts, acquire_resume-Acts, wait_round-Acts,
}
use tidesdb_mysql.RowLock.Lookup.{find_or_create-IsStable}

-- The table is consistent; a transaction publishes the lock that it waits on exactly while its call
-- is in progress; and it never waits on a lock that it owns.
pub record IsSafe (s : System) : Type 0 where
  pub inv : Inv s.table
  pub published : (r : ℕ) → waiting s.table r ≡ pending (s.phase r)
  pub entry : (r j : ℕ) → pending (s.phase r) ≡ some j → IsLock s.table j
  pub foreign : (r j : ℕ) → pending (s.phase r) ≡ some j → owner s.table j ≢ some r

ne_sym : {a b : ℕ} → a ≢ b → b ≢ a
ne_sym h e = h (sym e)

-- A transaction's action on one lock keeps the whole system safe.
Acts-IsSafe :
    (s : System) (r i : ℕ) (p : Phase) (t' : Table)
    → IsSafe s
    → Acts s.table r i p t'
    → (pending p ≡ some i → IsLock t' i)
    → IsSafe (move s r (p, t'))
Acts-IsSafe s r i p t' v a l = record {
  inv = a.inv;
  published = λ q. elim (Bool-cases (r == q)) [
    | inl mine ↦ let e = (==_iff r q).0 mine in rw (mine, ← e) a.waits
    | inr other ↦ let ne : q ≢ r = ground arith in rw other (a.bystanders q ne ∙ v.published q)
  ];
  entry = λ q j e. elim (Bool-cases (r == q)) [
    | inl mine ↦
        let p' : pending p ≡ some j = rw mine at e in
        let same = (a.blocked j p').0 in rw same (l (rw same at p'))
    | inr other ↦ a.locks j (v.entry q j (rw other at e))
  ];
  foreign = λ q j e o. elim (Bool-cases (r == q)) [
    | inl mine ↦ let b = a.blocked j (rw mine at e) in b.1 (rw (← b.0, (==_iff r q).0 mine) o)
    | inr other ↦ let ne : q ≢ r = ground arith in v.foreign q j (rw other at e) (a.gains j q ne o)
  ];
}

waiting_found :
    (alloc : Bool) (t : Table) (part : ℕ) (key : List ℕ) (q : ℕ)
    → waiting (find_or_create alloc t part key).1 q ≡ waiting t q
unfolding find_or_create
waiting_found alloc t part key q = ground arith

-- The first part of a call, whatever the lookup finds.
acquire_entry-Acts :
    (t u : Table) (r : ℕ) (entry : Option ℕ)
    → Inv t
    → SameOwners t u
    → ((q : ℕ) → waiting u q ≡ waiting t q)
    → waiting t r ≡ none
    → ((i : ℕ) → entry ≡ some i → IsLock u i)
    → (i : ℕ) × Acts t r i (acquire_entry u r entry).0 (acquire_entry u r entry).1
      × (pending (acquire_entry u r entry).0 ≡ some i → IsLock (acquire_entry u r entry).1 i)
      × ((k : ℕ) → entry ≡ some k → i ≡ k)
unfolding acquire_entry
acquire_entry-Acts t u r none v same w idle l = (
  0,
  Acts-same same v (λ e. absurd (cc)) (w r ∙ idle) (λ q ne. w q) (λ j e. absurd (cc)),
  λ e. absurd (cc),
  λ k e. absurd (cc),
)
acquire_entry-Acts t u r (some i) v same w idle l =
    let a = acquire_found-Acts u r i (SameOwners-Inv same v) (l i refl) (w r ∙ idle) in
    (i, Acts-before same w a, λ e. a.locks i (l i refl), λ k e. ground arith)

idle_waits : {s : System} {r : ℕ} → IsSafe s → IsIdle s r → waiting s.table r ≡ none
idle_waits {s} {r} v (c, e) = v.published r ∙ ap pending e

-- The target of a call is the entry that the lookup gives, if it gives one.
pub acquire_start-Acts :
    (hash : List ℕ → ℕ) (alloc : Bool) (t : Table) (r : ℕ) (key : List ℕ)
    → Inv t
    → waiting t r ≡ none
    → (i : ℕ) × Acts t r i
        (acquire_start hash true alloc t r key).0
        (acquire_start hash true alloc t r key).1
      × (pending (acquire_start hash true alloc t r key).0 ≡ some i
          → IsLock (acquire_start hash true alloc t r key).1 i)
      × ((k : ℕ) → (find_or_create alloc t (lock_part hash key) key).0 ≡ some k → i ≡ k)
unfolding acquire_start
acquire_start-Acts hash alloc t r key v idle =
    let part = lock_part hash key in
    let stable = find_or_create-IsStable alloc true t part key in
    acquire_entry-Acts t (find_or_create alloc t part key).1 r (find_or_create alloc t part key).0 v
      (find_or_create-SameOwners alloc t part key) (waiting_found alloc t part key) idle
      (λ i e gone. let (l, at, _) = (stable i e).0 in cc (at, gone))

start-IsSafe :
    (hash : List ℕ → ℕ) (alloc : Bool) (s : System) (r : ℕ) (key : List ℕ)
    → IsSafe s
    → IsIdle s r
    → IsSafe (move s r (acquire_start hash true alloc s.table r key))
start-IsSafe hash alloc s r key v idle =
    let (i, a, l, _) = acquire_start-Acts hash alloc s.table r key v.inv (idle_waits v idle) in
    Acts-IsSafe s r i _ _ v a l

-- What is owned after a release was owned before.
still_owned :
    (t : Table) (r q j : ℕ) → Inv t → owner (release_all true t r) j ≡ some q → owner t j ≡ some q
still_owned t r q j v o = ground (arith, (release_all_exact t r v).0 j)

release_round-IsSafe :
    (s : System) (r i : ℕ) (rest : List ℕ)
    → IsSafe s
    → held s.table r ≡ i ∷ rest
    → IsSafe (record s { table = release_lock s.table r i rest })
release_round-IsSafe s r i rest v h = record {
  inv = release_lock-Inv s.table r i rest v.inv h;
  published = λ q. waiting-release_lock s.table r i rest q ∙ v.published q;
  entry = λ q j e. IsLock-release_lock s.table r i rest j (v.entry q j e);
  foreign = λ q j e o. v.foreign q j e (ground (arith, owner-release_lock s.table r i rest j));
}

release_end-IsSafe :
    (s : System) (r : ℕ)
    → IsSafe s
    → IsIdle s r
    → IsSafe (record s { table = release_all true s.table r })
release_end-IsSafe s r v (c, idle) = record {
  inv = release_all-Inv s.table r v.inv;
  published = λ q. elim (Bool-cases (r == q)) [
    | inl mine ↦
        rw (waiting-release_all s.table r q, mine, ← (==_iff r q).0 mine) (sym (ap pending idle))
    | inr other ↦ rw (waiting-release_all s.table r q, other) (v.published q)
  ];
  entry = λ q j e. IsLock-release_all s.table r j (v.entry q j e);
  foreign = λ q j e o. v.foreign q j e (still_owned s.table r q j v.inv o);
}

-- Every step keeps the system safe, whatever the walker answers and whoever is killed.
pub Step-IsSafe : (hash : List ℕ → ℕ) (s s' : System) → IsSafe s → Step hash s s' → IsSafe s'
Step-IsSafe hash s s' v (start r key alloc idle e) = rw e (start-IsSafe hash alloc s r key v idle)
Step-IsSafe hash s s' v (resume r i found killed deadlocked at e) =
    let p : pending (s.phase r) ≡ some i = ap pending at in
    let l = v.entry r i p in
    let a =
      acquire_resume-Acts found killed deadlocked s.table r i v.inv l (v.foreign r i p)
        (v.published r ∙ p) in
    rw e (Acts-IsSafe s r i _ _ v a (λ _. a.locks i l))
Step-IsSafe hash s s' v (wake r i killed deadlocked at e) =
    let p : pending (s.phase r) ≡ some i = ap pending at in
    let l = v.entry r i p in
    let a =
      wait_round-Acts killed deadlocked s.table r i v.inv l (v.foreign r i p) (v.published r ∙ p) in
    rw e (Acts-IsSafe s r i _ _ v a (λ _. a.locks i l))
Step-IsSafe hash s s' v (release_round r i rest idle h e) =
    rw e (release_round-IsSafe s r i rest v h)
Step-IsSafe hash s s' v (release_end r idle h e) = rw e (release_end-IsSafe s r v idle)

-- Every system that is reached from a safe one, by any interleaving of the steps, rounds of a release included, is safe: the table is
-- consistent, a transaction publishes the lock that it waits on exactly while its call is in progress,
-- and it never waits on a lock that it owns.
pub Reach-IsSafe :
    (hash : List ℕ → ℕ) (s : System) {t : System} → IsSafe s → Reach hash s t → IsSafe t
Reach-IsSafe hash s v here = v
Reach-IsSafe hash s v (next {t = u} {u = w} path step) =
    Step-IsSafe hash u w (Reach-IsSafe hash s v path) step

-- The lock is released by a round of its owner's release.
abbrev pub Released : System → ℕ → ℕ → System → Type 0
Released s q j s' =
    IsIdle s q
    × (rest : List ℕ) × (held s.table q ≡ j ∷ rest)
    × (s' ≡ record s { table = release_lock s.table q j rest })

-- The last step of a release changes no owner.
end_keeps :
    (s : System) (r j : ℕ)
    → Inv s.table
    → held s.table r ≡ []
    → owner (release_all true s.table r) j ≡ owner s.table j
end_keeps s r j v h = owner-release_all s.table r j ∙ rw h refl

round_keeps :
    (s s' : System) (r i q j : ℕ) (rest : List ℕ)
    → Inv s.table
    → IsIdle s r
    → held s.table r ≡ i ∷ rest
    → s' ≡ record s { table = release_lock s.table r i rest }
    → owner s.table j ≡ some q
    → (owner s'.table j ≡ some q) ⊎ Released s q j s'
round_keeps s s' r i q j rest v idle h e o = elim (Bool-cases (i == j)) [
  | inl same ↦
      let at : i ≡ j = (==_iff i j).0 same in
      let mine : r ≡ q = ground (arith, owner_head s.table r i rest v h) in
      inr (rw (← at, ← mine) (idle, rest, h, e))
  | inr other ↦ inl (rw e (ground (arith, owner-release_lock s.table r i rest j)))
]

-- In a safe system a lock leaves its owner only through a round of that owner's own release that is about
-- this lock: any other step, by whomever, leaves every owned lock with its owner.
pub Step-keeps_owner :
    (hash : List ℕ → ℕ) (s s' : System) (q j : ℕ)
    → IsSafe s
    → Step hash s s'
    → owner s.table j ≡ some q
    → (owner s'.table j ≡ some q) ⊎ Released s q j s'
Step-keeps_owner hash s s' q j v (start r key alloc idle e) o =
    let (i, a, _, _) = acquire_start-Acts hash alloc s.table r key v.inv (idle_waits v idle) in
    inl (rw e (a.keeps j q o))
Step-keeps_owner hash s s' q j v (resume r i found killed deadlocked at e) o =
    let p : pending (s.phase r) ≡ some i = ap pending at in
    let a =
      acquire_resume-Acts found killed deadlocked s.table r i v.inv (v.entry r i p)
        (v.foreign r i p) (v.published r ∙ p) in
    inl (rw e (a.keeps j q o))
Step-keeps_owner hash s s' q j v (wake r i killed deadlocked at e) o =
    let p : pending (s.phase r) ≡ some i = ap pending at in
    let a =
      wait_round-Acts killed deadlocked s.table r i v.inv (v.entry r i p) (v.foreign r i p)
        (v.published r ∙ p) in
    inl (rw e (a.keeps j q o))
Step-keeps_owner hash s s' q j v (release_round r i rest idle h e) o =
    round_keeps s s' r i q j rest v.inv idle h e o
Step-keeps_owner hash s s' q j v (release_end r idle h e) o =
    inl (rw e (end_keeps s r j v.inv h ∙ o))
