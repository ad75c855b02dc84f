-- ===== src/RowLock/Frame.antt =====
-- What each write of plugin/tidesdb_row_lock.cc does to the owners and to the held lists.
use tidesdb_mysql.Base.{
  ℕ, zero, suc, ◌-◌, ◌≡◌, ◌≢◌, refl, ◌∙◌, inl, inr, Bool, Option, none, some, List, [], ◌∷◌, ◌++◌,
  if◌then◌else◌, arith, Option-cases, ◌==◌, length, get_elem?, set,
}
use tidesdb_mysql.RowLock.{
  RowLock, Table, owner, txn_id, held, waiting, set_lock, set_waiting, claim, leave, find_or_create,
  new_lock,
}

get_elem?-set :
    (xs : List RowLock) (i : ℕ) (v : RowLock) (j : ℕ)
    → get_elem? (set xs i v) j
      ≡ (if i == j then elim (get_elem? xs i) [ none ↦ none | some _ ↦ some v ] else get_elem? xs j)
get_elem?-set [] i v j = ground arith
get_elem?-set (x ∷ xs) zero v zero = refl
get_elem?-set (x ∷ xs) zero v (suc j) = ground arith
get_elem?-set (x ∷ xs) (suc i) v zero = ground arith
get_elem?-set (x ∷ xs) (suc i) v (suc j) = ground (arith, get_elem?-set xs i v j)

-- The entry that `set_lock` leaves at `j`.
pub get_elem?-set_lock :
    (t : Table) (i : ℕ) (f : RowLock → RowLock) (j : ℕ)
    → get_elem? (set_lock t i f).locks j ≡ (
        if i == j
        then elim (get_elem? t.locks i) [ none ↦ none | some l ↦ some (f l) ]
        else get_elem? t.locks j)
unfolding set_lock
get_elem?-set_lock t i f j = elim (Option-cases (get_elem? t.locks i)) [
  | inl e ↦ ground arith
  | inr (l, e) ↦ ground (arith, get_elem?-set t.locks i (f l) j)
]

-- `i` is the address of an entry.
abbrev pub IsLock : Table → ℕ → Type 0
IsLock t i = get_elem? t.locks i ≢ none

-- The owners, the ids of the owners, and the held lists are the same.
pub record SameOwners (t t' : Table) : Type 0 where
  pub owners : (i : ℕ) → owner t' i ≡ owner t i
  pub ids : (i : ℕ) → txn_id t' i ≡ txn_id t i
  pub helds : (r : ℕ) → held t' r ≡ held t r
  pub lock_ids : (r : ℕ) → (t'.trx r).lock_txn_id ≡ (t.trx r).lock_txn_id
  pub kept : (i : ℕ) → IsLock t i → IsLock t' i

pub trx-set_lock : (t : Table) (i : ℕ) (f : RowLock → RowLock) → (set_lock t i f).trx ≡ t.trx
unfolding set_lock
trx-set_lock t i f = ground arith

module _ (t : Table) (r i : ℕ) (here : IsLock t i) where
  pub owner-claim : (j : ℕ) → owner (claim t r i) j ≡ (if i == j then some r else owner t j)
  unfolding owner claim
  owner-claim j = ground (
    arith,
    here,
    get_elem?-set_lock t i
        (λ l. record l { owner_txn_id = (t.trx r).lock_txn_id; owner_trx = some r }) j,
  )

  pub txn_id-claim :
      (j : ℕ) → txn_id (claim t r i) j ≡ (if i == j then (t.trx r).lock_txn_id else txn_id t j)
  unfolding claim
  txn_id-claim j = ground (
    arith,
    here,
    get_elem?-set_lock t i
        (λ l. record l { owner_txn_id = (t.trx r).lock_txn_id; owner_trx = some r }) j,
  )

  pub held-claim : (s : ℕ) → held (claim t r i) s ≡ (if r == s then i ∷ held t r else held t s)
  unfolding claim
  held-claim s = ground (arith, trx-set_lock t i)

  pub IsLock-claim : (j : ℕ) → IsLock t j → IsLock (claim t r i) j
  unfolding claim
  IsLock-claim j h = ground (
    arith,
    here,
    get_elem?-set_lock t i
        (λ l. record l { owner_txn_id = (t.trx r).lock_txn_id; owner_trx = some r }) j,
  )

pub lock_id-claim :
    (t : Table) (r i s : ℕ) → ((claim t r i).trx s).lock_txn_id ≡ (t.trx s).lock_txn_id
unfolding claim
lock_id-claim t r i s = ground (
  arith,
  trx-set_lock t i (λ l. record l { owner_txn_id = (t.trx r).lock_txn_id; owner_trx = some r }),
)

pub waiting-claim : (t : Table) (r i s : ℕ) → waiting (claim t r i) s ≡ waiting t s
unfolding claim
waiting-claim t r i s = ground (
  arith,
  trx-set_lock t i (λ l. record l { owner_txn_id = (t.trx r).lock_txn_id; owner_trx = some r }),
)

-- A write to the waiters alone.
pub waiters-SameOwners :
    (t : Table) (i : ℕ) (f : ℕ → ℕ)
    → SameOwners t (set_lock t i (λ l. record l { waiters = f l.waiters }))
unfolding owner
waiters-SameOwners t i f = record {
  owners = λ j. ground (arith, get_elem?-set_lock t i (λ l. record l { waiters = f l.waiters }) j);
  ids = λ j. ground (arith, get_elem?-set_lock t i (λ l. record l { waiters = f l.waiters }) j);
  helds = λ r. ground (arith, trx-set_lock t i (λ l. record l { waiters = f l.waiters }));
  lock_ids = λ r. ground (arith, trx-set_lock t i (λ l. record l { waiters = f l.waiters }));
  kept = λ j h. ground (arith, get_elem?-set_lock t i (λ l. record l { waiters = f l.waiters }) j);
}

pub set_waiting-SameOwners : (t : Table) (r : ℕ) (w : Option ℕ) → SameOwners t (set_waiting t r w)
unfolding owner
set_waiting-SameOwners t r w = record {
  owners = λ j. refl;
  ids = λ j. refl;
  helds = λ s. ground arith;
  lock_ids = λ s. ground arith;
  kept = λ j h. h;
}

pub SameOwners-trans : {t u v : Table} → SameOwners t u → SameOwners u v → SameOwners t v
SameOwners-trans p q = record {
  owners = λ j. q.owners j ∙ p.owners j;
  ids = λ j. q.ids j ∙ p.ids j;
  helds = λ s. q.helds s ∙ p.helds s;
  lock_ids = λ s. q.lock_ids s ∙ p.lock_ids s;
  kept = λ j h. q.kept j (p.kept j h);
}

pub leave-SameOwners : (t : Table) (r i : ℕ) → SameOwners t (leave t r i)
unfolding leave
leave-SameOwners t r i =
    SameOwners-trans (waiters-SameOwners t i (λ n. n - 1)) (set_waiting-SameOwners _ r none)

pub get_elem?-append_one :
    (xs : List RowLock) (v : RowLock) (j : ℕ)
    → get_elem? (xs ++ v ∷ []) j ≡ (if j == length xs then some v else get_elem? xs j)
get_elem?-append_one [] v zero = refl
get_elem?-append_one [] v (suc j) = ground arith
get_elem?-append_one (x ∷ xs) v zero = ground arith
get_elem?-append_one (x ∷ xs) v (suc j) = ground (arith, get_elem?-append_one xs v j)

pub get_elem?-end : (xs : List RowLock) → get_elem? xs (length xs) ≡ none
get_elem?-end [] = refl
get_elem?-end (x ∷ xs) = get_elem?-end xs

-- A new entry is free.
pub find_or_create-SameOwners :
    (alloc : Bool) (t : Table) (part : ℕ) (pk : List ℕ)
    → SameOwners t (find_or_create alloc t part pk).1
unfolding owner find_or_create
find_or_create-SameOwners alloc t part pk = record {
  owners =
      λ j. ground (arith, get_elem?-append_one t.locks (new_lock part pk) j, get_elem?-end t.locks);
  ids =
      λ j. ground (arith, get_elem?-append_one t.locks (new_lock part pk) j, get_elem?-end t.locks);
  helds = λ s. ground arith;
  lock_ids = λ s. ground arith;
  kept = λ j h.
      ground (arith, h, get_elem?-append_one t.locks (new_lock part pk) j, get_elem?-end t.locks);
}
