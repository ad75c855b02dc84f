-- ===== src/Retry/Ladder.antt =====
-- What `tdb_retry_transient` of plugin/tidesdb_retry.h returns, and how often it tries.
use tidesdb_mysql.Base.{
  ℕ, zero, suc, ◌<◌, ◌≤◌, ◌≡◌, ◌⊎◌, inl, inr, true, false, List, [], ◌∷◌, arith, Bool-cases, length,
  take,
}
use tidesdb_mysql.Codes.{Rc, is_locked}
use tidesdb_mysql.Retry.{Run, retry_loop, tdb_retry_transient, read_retry_backoff_us}

-- The result of the call number `n`, counted from 0, when `fn` is called over and over.
pub attempt : {W : Type 0} → (W → Rc × W) → Rc × W → ℕ → Rc × W
attempt fn x zero = x
attempt fn x (suc n) = attempt fn (fn x.1) n

-- The run stopped at call `k`: the earlier ones were locked out, each followed by its pause, and
-- this one was not or was the last.
pub record StopsAt {W : Type 0} (fn : W → Rc × W) (us : List ℕ) (x : Rc × W) (run : Run W) (k : ℕ)
    : Type 0 where
  pub bounded : k ≤ length us
  pub result : (run.rc, run.world) ≡ attempt fn x k
  pub paused : run.pauses ≡ take k us
  pub locked_before : (j : ℕ) → j < k → is_locked (attempt fn x j).0 ≡ true
  pub stopped : (is_locked run.rc ≡ false) ⊎ (k ≡ length us)

earlier :
    {W : Type 0} (fn : W → Rc × W) (x : Rc × W) (j k : ℕ)
    → is_locked x.0 ≡ true
    → ((i : ℕ) → i < k → is_locked (attempt fn (fn x.1) i).0 ≡ true)
    → j < suc k
    → is_locked (attempt fn x j).0 ≡ true
unfolding attempt
earlier fn x zero k busy h l = busy
earlier fn x (suc j) k busy h l = h j (omega arith)

retry_loop-StopsAt :
    {W : Type 0} (fn : W → Rc × W) (us : List ℕ) (x : Rc × W)
    → (k : ℕ) × StopsAt fn us x (retry_loop fn us x) k
unfolding retry_loop attempt
retry_loop-StopsAt fn [] x = (
  0,
  record {
    bounded = omega arith;
    result = ground arith;
    paused = ground arith;
    locked_before = λ j l. absurd (omega arith);
    stopped = inr ground arith;
  },
)
retry_loop-StopsAt fn (us ∷ rest) x = elim (Bool-cases (is_locked x.0)) [
  | inl busy ↦
      let (k, s) = retry_loop-StopsAt fn rest (fn x.1) in
      (
        suc k,
        record {
          bounded = ground arith;
          result = ground arith;
          paused = ground arith;
          locked_before = λ j. earlier fn x j k busy s.locked_before;
          stopped = ground arith;
        },
      )
  | inr free ↦ (
    0,
    record {
      bounded = ground arith;
      result = ground arith;
      paused = ground arith;
      locked_before = λ j l. absurd (omega arith);
      stopped = inl ground arith;
    },
  )
]

-- The retry returns what one of the first five calls returned and the state that call left: every call
-- before it reported TDB_ERR_LOCKED and was followed by its pause of 200, 1000, 5000 or 20000
-- microseconds, in this order, and it did not report TDB_ERR_LOCKED itself unless it is the fifth.
pub tdb_retry_transient-StopsAt :
    {W : Type 0} (fn : W → Rc × W) (w : W)
    → (k : ℕ) × StopsAt fn read_retry_backoff_us (fn w) (tdb_retry_transient fn w) k
unfolding tdb_retry_transient
tdb_retry_transient-StopsAt fn w = retry_loop-StopsAt fn read_retry_backoff_us (fn w)
