-- ===== src/RowLock/System.antt =====
-- Transactions that acquire and release locks of plugin/tidesdb_row_lock.cc at the same time: each
-- part of a call that runs under the partition's mutex is one step, and the steps of different
-- transactions interleave in any order; a release is one step for each lock, and a last one. The
-- walker may answer anything: its answer is read without the mutex and may be stale. A condition may
-- wake a sleeper at any time.
use tidesdb_mysql.Base.{ℕ, ◌∷◌, [], ◌≡◌, Bool, true, Option, none, some, List, if◌then◌else◌, ◌==◌}
use tidesdb_mysql.RowLock.{
  Table, Phase, done, walking, sleeping, Code, acquire_start, acquire_resume, wait_round, held,
  update, free_lock, release_all,
}

-- The table, and where each transaction's call stands.
pub record System : Type 0 where
  pub table : Table
  pub phase : ℕ → Phase

abbrev pub move : System → ℕ → Phase × Table → System
move s r (p, t) = record { table = t; phase = λ q. if r == q then p else s.phase q }

abbrev pub IsIdle : System → ℕ → Type 0
IsIdle s r = (c : Code) × (s.phase r ≡ done c)

-- One round of the loop of row_locks_release_all, which runs under the mutex of the lock's partition. The
-- held list is what the loop has still to visit; only its own transaction reads that list.
unfoldable pub release_lock : Table → ℕ → ℕ → List ℕ → Table
release_lock t r i rest =
    let t' = free_lock t i in
    record t' { trx = update t'.trx r (record (t'.trx r) { held = rest }) }

-- A transaction may do more here than the code lets it: between two rounds of its release it may also ask
-- for another lock. The last step of a release clears the list and the wait intention.
pub data Step (hash : List ℕ → ℕ) (s s' : System) : Type 0 where
  start :
      (r : ℕ) (key : List ℕ) (alloc : Bool)
      → IsIdle s r
      → s' ≡ move s r (acquire_start hash true alloc s.table r key)
      → Step hash s s'
  resume :
      (r i : ℕ) (found killed deadlocked : Bool)
      → s.phase r ≡ walking i
      → s' ≡ move s r (acquire_resume found killed deadlocked s.table r i)
      → Step hash s s'
  wake :
      (r i : ℕ) (killed deadlocked : Bool)
      → s.phase r ≡ sleeping i
      → s' ≡ move s r (wait_round killed deadlocked s.table r i)
      → Step hash s s'
  release_round :
      (r i : ℕ) (rest : List ℕ)
      → IsIdle s r
      → held s.table r ≡ i ∷ rest
      → s' ≡ record s { table = release_lock s.table r i rest }
      → Step hash s s'
  release_end :
      (r : ℕ)
      → IsIdle s r
      → held s.table r ≡ []
      → s' ≡ record s { table = release_all true s.table r }
      → Step hash s s'

pub data Reach (hash : List ℕ → ℕ) (s : System) : System → Type 0 where
  here : Reach hash s s
  next : {t u : System} → Reach hash s t → Step hash t u → Reach hash s u

-- The lock that a call in progress is about.
abbrev pub pending : Phase → Option ℕ
pending (done c) = none
pending (walking i) = some i
pending (sleeping i) = some i
