-- ===== src/RowLock.antt =====
-- plugin/tidesdb_row_lock.cc and tidesdb_row_lock.h: the pessimistic row locks.
-- A lock entry is never freed, so its address is its index in `locks`; a transaction is named by a
-- number. The list through `hash_next` is `chain`, the list through `held_next` is `held`, both head
-- first. What runs under the partition's mutex is one function, and other transactions may act between
-- two of them. The hash, a failing allocation, `thd_killed` and what the walker of the wait-for graph
-- answered are arguments.
pub mod Walk
pub mod Frame
pub mod Invariant
pub mod Release
pub mod Round
pub mod System
pub mod Ownership
pub mod Lookup
pub mod Safety
pub mod Examples
use tidesdb_mysql.Base.{
  ℕ, zero, suc, ◌+◌, ◌-◌, ◌%◌, Bool, true, false, not, ◌&&◌, ◌||◌, Option, none, some, List, [],
  ◌∷◌, ◌++◌, if◌then◌else◌, ltb, ◌==◌, length, get_elem?, set,
}

abbrev pub row_lock_partitions : ℕ
row_lock_partitions = 65536

abbrev pub deadlock_max_depth : ℕ
deadlock_max_depth = 100

pub record RowLock : Type 0 where
  pub pk : List ℕ
  pub owner_txn_id : ℕ
  pub owner_trx : Option ℕ
  pub waiters : ℕ
  pub partition : ℕ

-- The part of `tidesdb_trx_t` that the lock manager uses.
pub record TrxLocks : Type 0 where
  pub held : List ℕ
  pub waiting_on : Option ℕ
  pub lock_txn_id : ℕ

pub record Table : Type 0 where
  pub locks : List RowLock
  pub chain : ℕ → List ℕ
  pub trx : ℕ → TrxLocks

abbrev pub update {ℓ} : {A : Type ℓ} → (ℕ → A) → ℕ → A → ℕ → A
update f k v j = if k == j then v else f j

unfoldable pub bytes_eq : List ℕ → List ℕ → Bool
bytes_eq [] [] = true
bytes_eq [] (y ∷ ys) = false
bytes_eq (x ∷ xs) [] = false
bytes_eq (x ∷ xs) (y ∷ ys) = x == y && bytes_eq xs ys

abbrev pub option_eq : Option ℕ → Option ℕ → Bool
option_eq none none = true
option_eq none (some b) = false
option_eq (some a) none = false
option_eq (some a) (some b) = a == b

-- `lock->owner_trx`, and none for an address that is no entry.
pub owner : Table → ℕ → Option ℕ
owner t i = elim (get_elem? t.locks i) [ none ↦ none | some l ↦ l.owner_trx ]

abbrev pub waiting : Table → ℕ → Option ℕ
waiting t r = (t.trx r).waiting_on

abbrev pub held : Table → ℕ → List ℕ
held t r = (t.trx r).held

pub lock_part : (List ℕ → ℕ) → List ℕ → ℕ
lock_part hash key = hash key % row_lock_partitions

-- The loop over the partition's chain.
pub find_in_chain : List RowLock → List ℕ → List ℕ → Option ℕ
find_in_chain locks [] pk = none
find_in_chain locks (i ∷ rest) pk = elim (get_elem? locks i) [
  | none ↦ find_in_chain locks rest pk
  | some e ↦ if bytes_eq e.pk pk then some i else find_in_chain locks rest pk
]

abbrev pub new_lock : ℕ → List ℕ → RowLock
new_lock part pk = record {
  pk = pk;
  owner_txn_id = 0;
  owner_trx = none;
  waiters = 0;
  partition = part;
}

-- A new entry, at the head of its partition's chain.
abbrev pub insert_lock : Table → ℕ → List ℕ → Table
insert_lock t part pk = record t {
  locks = t.locks ++ new_lock part pk ∷ [];
  chain = update t.chain part (length t.locks ∷ t.chain part);
}

-- `alloc` tells whether both allocations succeed.
pub find_or_create : Bool → Table → ℕ → List ℕ → Option ℕ × Table
find_or_create alloc t part pk = elim (find_in_chain t.locks (t.chain part) pk) [
  | some i ↦ (some i, t)
  | none ↦ if alloc then (some (length t.locks), insert_lock t part pk) else (none, t)
]

-- Up to `depth` owners, from the owner `cur` on.
pub walk : Table → ℕ → ℕ → Option ℕ → Bool
walk t requestor zero cur = false
walk t requestor (suc depth) none = false
walk t requestor (suc depth) (some cur) = elim (cur == requestor) [
  | true ↦ true
  | false ↦ elim (waiting t cur) [
    | none ↦ false
    | some lock ↦ walk t requestor depth (owner t lock)
  ]
]

pub would_deadlock : Table → ℕ → ℕ → Bool
would_deadlock t requestor target = walk t requestor deadlock_max_depth (owner t target)

pub data Code : Type 0 where
  ok deadlock wait_timeout out_of_mem : Code

-- Where a call of `row_lock_acquire` stands when it drops the mutex: it returned, it walks the
-- wait-for graph, or it sleeps on the lock's condition.
pub data Phase : Type 0 where
  done : Code → Phase
  walking : ℕ → Phase
  sleeping : ℕ → Phase

pub set_lock : Table → ℕ → (RowLock → RowLock) → Table
set_lock t i f = elim (get_elem? t.locks i) [
  | none ↦ t
  | some l ↦ record t { locks = set t.locks i (f l) }
]

abbrev pub set_waiting : Table → ℕ → Option ℕ → Table
set_waiting t r w = record t { trx = update t.trx r (record (t.trx r) { waiting_on = w }) }

-- Both owner fields, and the lock on the head of the transaction's list.
pub claim : Table → ℕ → ℕ → Table
unfolding set_lock
claim t r i =
    let t' =
      set_lock t i (λ l. record l { owner_txn_id = (t.trx r).lock_txn_id; owner_trx = some r }) in
    record t' { trx = update t.trx r (record (t.trx r) { held = i ∷ held t r }) }

-- `owner_txn_id` of an entry; an address that is no entry counts as free.
abbrev pub txn_id : Table → ℕ → ℕ
txn_id t i = elim (get_elem? t.locks i) [ none ↦ 0 | some l ↦ l.owner_txn_id ]

-- What is done with the entry once it is found, up to where the mutex is dropped.
pub acquire_found : Table → ℕ → ℕ → Phase × Table
unfolding claim
acquire_found t r i =
    if txn_id t i == (t.trx r).lock_txn_id && option_eq (owner t i) (some r)
    then (done ok, t)
    else if txn_id t i == 0
    then (done ok, claim t r i)
    else (walking i, set_waiting t r (some i))

pub acquire_entry : Table → ℕ → Option ℕ → Phase × Table
unfolding acquire_found
acquire_entry t r none = (done out_of_mem, t)
acquire_entry t r (some i) = acquire_found t r i

-- The call up to where it first drops the mutex; `ready` tells whether the lock table and the
-- transaction exist.
pub acquire_start : (List ℕ → ℕ) → Bool → Bool → Table → ℕ → List ℕ → Phase × Table
unfolding acquire_entry
acquire_start hash ready alloc t r key =
    if not ready
    then (done ok, t)
    else let (entry, t') = find_or_create alloc t (lock_part hash key) key in
      acquire_entry t' r entry

-- Leaving the wait loop: one waiter less, and the wait intention is withdrawn.
pub leave : Table → ℕ → ℕ → Table
unfolding set_lock
leave t r i = set_waiting (set_lock t i (λ l. record l { waiters = l.waiters - 1 })) r none

-- One test of the wait loop: its condition, the kill flag, the walker's answer, or sleep.
pub wait_round : Bool → Bool → Table → ℕ → ℕ → Phase × Table
unfolding leave claim
wait_round killed deadlocked t r i =
    if not (txn_id t i == 0) && not (option_eq (owner t i) (some r))
    then if killed
      then (done wait_timeout, leave t r i)
      else if deadlocked
      then (done deadlock, leave t r i)
      else (sleeping i, t)
    else (done ok, claim (leave t r i) r i)

-- The call from where it takes the mutex again after the first walk, which answered `found`.
pub acquire_resume : Bool → Bool → Bool → Table → ℕ → ℕ → Phase × Table
unfolding wait_round
acquire_resume found killed deadlocked t r i =
    if found
    then (done deadlock, set_waiting t r none)
    else if txn_id t i == 0
    then (done ok, set_waiting (claim t r i) r none)
    else wait_round killed deadlocked (set_lock t i (λ l. record l { waiters = l.waiters + 1 })) r i

-- `lock->owner_txn_id = 0; lock->owner_trx = nullptr`.
pub free_lock : Table → ℕ → Table
unfolding set_lock
free_lock t i = set_lock t i (λ l. record l { owner_txn_id = 0; owner_trx = none })

-- The loop over the held list.
pub release_loop : Table → List ℕ → Table
release_loop t [] = t
release_loop t (i ∷ rest) = release_loop (free_lock t i) rest

pub release_all : Bool → Table → ℕ → Table
release_all ready t r =
    if not ready
    then t
    else let t' = release_loop t (held t r) in
      record t' { trx = update t'.trx r (record (t'.trx r) { held = []; waiting_on = none }) }

-- The conditions that `release_all` broadcasts: of the held locks that have waiters.
pub broadcasts : Table → List ℕ → List ℕ
broadcasts t [] = []
broadcasts t (i ∷ rest) = elim (get_elem? t.locks i) [
  | none ↦ broadcasts t rest
  | some l ↦ if ltb 0 l.waiters then i ∷ broadcasts t rest else broadcasts t rest
]
