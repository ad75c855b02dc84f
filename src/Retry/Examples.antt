-- ===== src/Retry/Examples.antt =====
-- An instance of the retry of plugin/tidesdb_retry.h: an engine that is locked for two calls.
use tidesdb_mysql.Base.{ℕ, zero, suc, ◌≡◌, refl, [], ◌∷◌}
use tidesdb_mysql.Codes.{Rc, tdb_success, err_locked}
use tidesdb_mysql.Retry.{tdb_retry_transient, read_retry_backoff_us, retry_loop}
use tidesdb_mysql.Retry.Ladder.{StopsAt, tdb_retry_transient-StopsAt}

-- The state is the number of calls that are still locked out.
abbrev read : ℕ → Rc × ℕ
read zero = (tdb_success, zero)
read (suc n) = (err_locked, n)

two_retries : (tdb_retry_transient read 2).pauses ≡ 200 ∷ 1000 ∷ []
unfolding tidesdb_mysql.Retry.tdb_retry_transient tidesdb_mysql.Retry.retry_loop
two_retries = refl

tdb_retry_transient-StopsAt_example :
    (k : ℕ) × StopsAt read read_retry_backoff_us (read 2) (tdb_retry_transient read 2) k
tdb_retry_transient-StopsAt_example = tdb_retry_transient-StopsAt read 2
