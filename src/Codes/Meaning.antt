-- ===== src/Codes/Meaning.antt =====
-- What the codes of `tdb_rc_to_ha` (plugin/ha_tidesdb.cc) tell the server.
use tidesdb_mysql.Base.{◌≡◌, ◌≢◌, ◌⊎◌, Bool, true, false, arith, ◌↔◌}
use tidesdb_mysql.Codes.{
  Rc, tdb_success, err_io, err_corruption, Ha, ha_ok, ha_lock_deadlock, ha_lock_wait_timeout,
  ha_crashed, error, tdb_rc_to_ha, is_quiet, is_success,
}

-- The server is told of a retry: of the transaction, or of the statement.
abbrev pub IsRetry : Ha → Type 0
IsRetry c = (c ≡ ha_lock_deadlock) ⊎ (c ≡ ha_lock_wait_timeout)

-- A call that succeeded is the only one reported as a success; a table is reported as crashed exactly
-- for an I/O error and for corruption; and whatever is reported as crashed is in the error log.
pub tdb_rc_to_ha_meaning :
    (p : Bool) (rc : Rc)
    → (((tdb_rc_to_ha p rc).code ≡ ha_ok) ↔ (rc ≡ tdb_success))
      × (((tdb_rc_to_ha p rc).code ≡ ha_crashed) ↔ ((rc ≡ err_io) ⊎ (rc ≡ err_corruption)))
      × ((tdb_rc_to_ha p rc).code ≡ ha_crashed → (tdb_rc_to_ha p rc).note ≡ error)
unfolding tdb_rc_to_ha
tdb_rc_to_ha_meaning p rc = (
  (λ e. ground arith, λ e. ground arith),
  (λ e. ground arith, λ e. ground arith),
  λ e. ground arith,
)

-- An engine call that failed is never answered by a success.
pub failure-not_ok : (p : Bool) (rc : Rc) → is_success rc ≡ false → (tdb_rc_to_ha p rc).code ≢ ha_ok
unfolding tdb_rc_to_ha
failure-not_ok p rc e = ground arith

-- A code that prepare and commit do not log is always answered by a retry, never by another error.
pub quiet-IsRetry : (p : Bool) (rc : Rc) → is_quiet rc ≡ true → IsRetry (tdb_rc_to_ha p rc).code
unfolding tdb_rc_to_ha
quiet-IsRetry p rc e = ground arith
