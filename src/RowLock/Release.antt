-- ===== src/RowLock/Release.antt =====
-- `row_locks_release_all` of plugin/tidesdb_row_lock.cc.
use tidesdb_mysql.Base.{
  ℕ, ◌≡◌, refl, ◌∙◌, true, none, some, List, [], ◌∷◌, if◌then◌else◌, arith, ◌==◌, Bool-cases, inl,
  inr,
}
use tidesdb_mysql.RowLock.{
  RowLock, Table, owner, txn_id, held, waiting, option_eq, free_lock, release_loop, release_all,
}
use tidesdb_mysql.RowLock.Frame.{get_elem?-set_lock, trx-set_lock, IsLock}
use tidesdb_mysql.RowLock.Invariant.{Inv, has}

abbrev freed : RowLock → RowLock
freed l = record l { owner_txn_id = 0; owner_trx = none }

pub owner-free_lock :
    (t : Table) (i j : ℕ) → owner (free_lock t i) j ≡ (if i == j then none else owner t j)
unfolding owner free_lock
owner-free_lock t i j = ground (arith, get_elem?-set_lock t i freed j)

pub txn_id-free_lock :
    (t : Table) (i j : ℕ) → txn_id (free_lock t i) j ≡ (if i == j then 0 else txn_id t j)
unfolding free_lock
txn_id-free_lock t i j = ground (arith, get_elem?-set_lock t i freed j)

pub IsLock-free_lock : (t : Table) (i j : ℕ) → IsLock t j → IsLock (free_lock t i) j
unfolding free_lock
IsLock-free_lock t i j h = ground (arith, h, get_elem?-set_lock t i freed j)

pub trx-free_lock : (t : Table) (i : ℕ) → (free_lock t i).trx ≡ t.trx
unfolding free_lock
trx-free_lock t i = trx-set_lock t i freed

trx-release_loop : (t : Table) (is : List ℕ) → (release_loop t is).trx ≡ t.trx
unfolding release_loop
trx-release_loop t [] = refl
trx-release_loop t (i ∷ is) = trx-release_loop (free_lock t i) is ∙ trx-free_lock t i

owner-release_loop :
    (t : Table) (is : List ℕ) (j : ℕ)
    → owner (release_loop t is) j ≡ (if has j is then none else owner t j)
unfolding release_loop
owner-release_loop t [] j = refl
owner-release_loop t (i ∷ is) j =
    ground (arith, owner-release_loop (free_lock t i) is j, owner-free_lock t i j)

txn_id-release_loop :
    (t : Table) (is : List ℕ) (j : ℕ)
    → txn_id (release_loop t is) j ≡ (if has j is then 0 else txn_id t j)
unfolding release_loop
txn_id-release_loop t [] j = refl
txn_id-release_loop t (i ∷ is) j =
    ground (arith, txn_id-release_loop (free_lock t i) is j, txn_id-free_lock t i j)

IsLock-release_loop : (t : Table) (is : List ℕ) (j : ℕ) → IsLock t j → IsLock (release_loop t is) j
unfolding release_loop
IsLock-release_loop t [] j h = h
IsLock-release_loop t (i ∷ is) j h =
    IsLock-release_loop (free_lock t i) is j (IsLock-free_lock t i j h)

module _ (t : Table) (r : ℕ) where
  pub owner-release_all :
      (j : ℕ) → owner (release_all true t r) j ≡ (if has j (held t r) then none else owner t j)
  unfolding release_all owner
  owner-release_all j = fold_owner
    where
      fold_owner :
          owner (release_loop t (held t r)) j ≡ (if has j (held t r) then none else owner t j)
      fold_owner = owner-release_loop t (held t r) j

  txn_id-release_all :
      (j : ℕ) → txn_id (release_all true t r) j ≡ (if has j (held t r) then 0 else txn_id t j)
  unfolding release_all
  txn_id-release_all j = txn_id-release_loop t (held t r) j

  held-release_all : (s : ℕ) → held (release_all true t r) s ≡ (if r == s then [] else held t s)
  unfolding release_all
  held-release_all s = ground (arith, trx-release_loop t (held t r))

  pub waiting-release_all :
      (s : ℕ) → waiting (release_all true t r) s ≡ (if r == s then none else waiting t s)
  unfolding release_all
  waiting-release_all s = ground (arith, trx-release_loop t (held t r))

  lock_id-release_all : (s : ℕ) → ((release_all true t r).trx s).lock_txn_id ≡ (t.trx s).lock_txn_id
  unfolding release_all
  lock_id-release_all s = ground (arith, trx-release_loop t (held t r))

  pub IsLock-release_all : (j : ℕ) → IsLock t j → IsLock (release_all true t r) j
  unfolding release_all
  IsLock-release_all j h = IsLock-release_loop t (held t r) j h

  pub release_all-Inv : Inv t → Inv (release_all true t r)
  release_all-Inv v = record {
    owned =
        λ j s e. ground (arith, owner-release_all j, held-release_all s, v.owned j s, v.owned j r);
    owns = λ j s e. ground (arith, owner-release_all j, held-release_all s, v.owns j s, v.owns j r);
    free = λ j. ground (arith, owner-release_all j, txn_id-release_all j, v.free j);
    stamped = λ j s e.
        rw (lock_id-release_all s)
          (ground (arith, owner-release_all j, txn_id-release_all j, v.stamped j s));
    named = λ s. rw (lock_id-release_all s) (v.named s);
    distinct = λ s. elim (Bool-cases (r == s)) [
      | inl mine ↦ rw (held-release_all s, mine) tt
      | inr other ↦ rw (held-release_all s, other) (v.distinct s)
    ];
  }

  -- In a consistent table, releasing frees exactly the locks that the transaction owns, whoever owns the others, and
  -- leaves it with an empty held list and no wait intention.
  pub release_all_exact :
      Inv t
      → ((j : ℕ)
          → owner (release_all true t r) j
            ≡ (if option_eq (owner t j) (some r) then none else owner t j))
        × (held (release_all true t r) r ≡ [])
        × (waiting (release_all true t r) r ≡ none)
  release_all_exact v = (
    λ j. ground (arith, owner-release_all j, v.owned j r, v.owns j r),
    ground (arith, held-release_all r),
    ground (arith, waiting-release_all r),
  )
