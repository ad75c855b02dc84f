-- ===== src/Retry.antt =====
-- plugin/tidesdb_retry.h: reads are repeated while the engine reports TDB_ERR_LOCKED. The function
-- that is repeated changes the state of the engine; the pauses are the list of microseconds slept.
pub mod Ladder
pub mod Examples
use tidesdb_mysql.Base.{ℕ, Bool, true, false, List, [], ◌∷◌}
use tidesdb_mysql.Codes.{Rc, is_locked}

abbrev pub read_retry_backoff_us : List ℕ
read_retry_backoff_us = 200 ∷ 1000 ∷ 5000 ∷ 20000 ∷ []

pub record Run (W : Type 0) : Type 0 where
  pub rc : Rc
  pub pauses : List ℕ
  pub world : W

-- The loop, with the pauses that are left.
pub retry_loop : {W : Type 0} → (W → Rc × W) → List ℕ → Rc × W → Run W
retry_loop fn [] (rc, w) = record { rc = rc; pauses = []; world = w }
retry_loop fn (us ∷ rest) (rc, w) = elim (is_locked rc) [
  | true ↦ let tail = retry_loop fn rest (fn w) in record tail { pauses = us ∷ tail.pauses }
  | false ↦ record { rc = rc; pauses = []; world = w }
]

pub tdb_retry_transient : {W : Type 0} → (W → Rc × W) → W → Run W
tdb_retry_transient fn w = retry_loop fn read_retry_backoff_us (fn w)
