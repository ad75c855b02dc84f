-- ===== src/RowLock/Examples.antt =====
-- The laws of the row locks of plugin/tidesdb_row_lock.cc at a small table: two transactions that
-- want the same key, and a cycle of two.
use tidesdb_mysql.Base.{
  ℕ, ◌<◌, ◌≡◌, refl, ◌⊎◌, ◌↔◌, true, false, none, some, List, [], ◌∷◌, if◌then◌else◌,
}
use tidesdb_mysql.RowLock.{
  RowLock, Table, owner, held, waiting, option_eq, find_or_create, lock_part, would_deadlock,
  deadlock_max_depth, acquire_start, acquire_resume, wait_round, release_all, done, walking,
  sleeping, ok, Phase,
}
use tidesdb_mysql.RowLock.Walk.{reached, would_deadlock_iff}
use tidesdb_mysql.RowLock.Invariant.{empty_table, empty_table-Inv}
use tidesdb_mysql.RowLock.Release.{release_all_exact}
use tidesdb_mysql.RowLock.System.{System, Step, start, here, next, move}
use tidesdb_mysql.RowLock.Lookup.{IsStable, find_or_create-IsStable}
use tidesdb_mysql.RowLock.Safety.{IsSafe, Step-IsSafe, Reach-IsSafe, Released, Step-keeps_owner}

abbrev hash : List ℕ → ℕ
hash key = 7

abbrev key : List ℕ
key = 1 ∷ 2 ∷ []

abbrev quiet : System
quiet = record { table = empty_table; phase = λ r. done ok }

quiet-IsSafe : IsSafe quiet
quiet-IsSafe = record {
  inv = empty_table-Inv;
  published = λ r. refl;
  entry = λ r j e. absurd (cc);
  foreign = λ r j e. absurd (cc);
}

-- Transaction 5 takes the lock, transaction 6 asks for it, and walks.
abbrev one_owner : System
one_owner = move quiet 5 (acquire_start hash true true quiet.table 5 key)

abbrev contended : System
contended = move one_owner 6 (acquire_start hash true true one_owner.table 6 key)

contended_start : Step hash quiet one_owner
contended_start = start 5 key true (ok, refl) refl

contended_next : Step hash one_owner contended
contended_next = start 6 key true (ok, refl) refl

Step-IsSafe_example : IsSafe one_owner
Step-IsSafe_example = Step-IsSafe hash quiet one_owner quiet-IsSafe contended_start

one_owner-IsSafe : IsSafe one_owner
one_owner-IsSafe = Step-IsSafe hash quiet one_owner quiet-IsSafe contended_start

contended-IsSafe : IsSafe contended
contended-IsSafe = Step-IsSafe hash one_owner contended one_owner-IsSafe contended_next

Reach-IsSafe_example : IsSafe contended
Reach-IsSafe_example =
    Reach-IsSafe hash quiet quiet-IsSafe (next (next here contended_start) contended_next)

taken : owner one_owner.table 0 ≡ some 5
unfolding acquire_start tidesdb_mysql.RowLock.lock_part tidesdb_mysql.RowLock.find_or_create
    tidesdb_mysql.RowLock.find_in_chain tidesdb_mysql.RowLock.acquire_entry
    tidesdb_mysql.RowLock.acquire_found tidesdb_mysql.RowLock.claim tidesdb_mysql.RowLock.set_lock
    owner
taken = refl

Step-keeps_owner_example : (owner contended.table 0 ≡ some 5) ⊎ Released one_owner 5 0 contended
Step-keeps_owner_example =
    Step-keeps_owner hash one_owner contended 5 0 one_owner-IsSafe contended_next taken

release_all_exact_example :
    ((j : ℕ)
      → owner (release_all true contended.table 5) j
        ≡ (if option_eq (owner contended.table j) (some 5) then none else owner contended.table j))
    × (held (release_all true contended.table 5) 5 ≡ [])
    × (waiting (release_all true contended.table 5) 5 ≡ none)
release_all_exact_example = release_all_exact contended.table 5 contended-IsSafe.inv

find_or_create-IsStable_example : IsStable false 7 key (find_or_create true empty_table 7 key)
find_or_create-IsStable_example = find_or_create-IsStable true false empty_table 7 key

-- Transaction 1 owns lock 0 and waits on lock 1, which transaction 2 owns.
abbrev cycle : Table
cycle = record {
  locks =
      record { pk = 1 ∷ []; owner_txn_id = 1; owner_trx = some 1; waiters = 0; partition = 0 }
      ∷ record { pk = 2 ∷ []; owner_txn_id = 1; owner_trx = some 2; waiters = 1; partition = 0 }
      ∷ [];
  chain = λ p. 0 ∷ 1 ∷ [];
  trx = λ r. record {
    held = [];
    waiting_on = if option_eq (some r) (some 1) then some 1 else none;
    lock_txn_id = 1;
  };
}

cycle_found : would_deadlock cycle 2 0 ≡ true
unfolding would_deadlock tidesdb_mysql.RowLock.walk owner
cycle_found = refl

would_deadlock_iff_example :
    (would_deadlock cycle 2 0 ≡ true)
    ↔ ((n : ℕ) × (n < deadlock_max_depth) × (reached cycle n (owner cycle 0) ≡ some 2))
would_deadlock_iff_example = would_deadlock_iff cycle 2 0
