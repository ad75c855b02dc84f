-- ===== src/Codes.antt =====
-- The result codes of the engine and what the plugin answers to the server for each of them:
-- `tdb_rc_to_ha` of plugin/ha_tidesdb.cc. The engine's codes are names here; `err_other` stands for
-- any number that the switch does not list.
pub mod Meaning
use tidesdb_mysql.Base.{ℕ, Bool, true, false, if◌then◌else◌}

pub data Rc : Type 0 where
  tdb_success err_conflict err_locked err_txn_expired err_txn_aborted err_too_old err_no_space : Rc
  err_memory_limit err_memory err_not_found err_exists err_readonly err_io err_corruption : Rc
  err_too_large err_invalid_db err_invalid_args : Rc
  err_other : ℕ → Rc

pub data Ha : Type 0 where
  ha_ok ha_lock_deadlock ha_lock_wait_timeout ha_record_file_full ha_out_of_mem ha_key_not_found :
      Ha
  ha_found_dupp_key ha_read_only_transaction ha_crashed ha_too_big_row ha_internal_error
        ha_generic :
      Ha
  ha_no_savepoint : Ha

-- What is written to the error log, if anything.
pub data Note : Type 0 where
  silent information warning error : Note

-- The code, the log entry, and whether `last_conflict_info` is overwritten.
pub record Reply : Type 0 where
  pub code : Ha
  pub note : Note
  pub saves_conflict : Bool

abbrev pub reply : Ha → Note → Reply
reply c n = record { code = c; note = n; saves_conflict = false }

unfoldable pub tdb_rc_to_ha : Bool → Rc → Reply
tdb_rc_to_ha print_all_conflicts tdb_success = reply ha_ok silent
tdb_rc_to_ha print_all_conflicts err_conflict =
    if print_all_conflicts
    then record { code = ha_lock_deadlock; note = information; saves_conflict = true }
    else reply ha_lock_deadlock silent
tdb_rc_to_ha print_all_conflicts err_locked = reply ha_lock_wait_timeout silent
tdb_rc_to_ha print_all_conflicts err_txn_expired = reply ha_lock_wait_timeout silent
tdb_rc_to_ha print_all_conflicts err_txn_aborted = reply ha_lock_deadlock silent
tdb_rc_to_ha print_all_conflicts err_too_old = reply ha_lock_deadlock silent
tdb_rc_to_ha print_all_conflicts err_no_space = reply ha_record_file_full error
tdb_rc_to_ha print_all_conflicts err_memory_limit = reply ha_lock_deadlock silent
tdb_rc_to_ha print_all_conflicts err_memory = reply ha_out_of_mem error
tdb_rc_to_ha print_all_conflicts err_not_found = reply ha_key_not_found silent
tdb_rc_to_ha print_all_conflicts err_exists = reply ha_found_dupp_key silent
tdb_rc_to_ha print_all_conflicts err_readonly = reply ha_read_only_transaction silent
tdb_rc_to_ha print_all_conflicts err_io = reply ha_crashed error
tdb_rc_to_ha print_all_conflicts err_corruption = reply ha_crashed error
tdb_rc_to_ha print_all_conflicts err_too_large = reply ha_too_big_row silent
tdb_rc_to_ha print_all_conflicts err_invalid_db = reply ha_internal_error error
tdb_rc_to_ha print_all_conflicts err_invalid_args = reply ha_internal_error error
tdb_rc_to_ha print_all_conflicts (err_other n) = reply ha_generic warning

abbrev pub is_success : Rc → Bool
is_success tdb_success = true
is_success err_conflict = false
is_success err_locked = false
is_success err_txn_expired = false
is_success err_txn_aborted = false
is_success err_too_old = false
is_success err_no_space = false
is_success err_memory_limit = false
is_success err_memory = false
is_success err_not_found = false
is_success err_exists = false
is_success err_readonly = false
is_success err_io = false
is_success err_corruption = false
is_success err_too_large = false
is_success err_invalid_db = false
is_success err_invalid_args = false
is_success (err_other n) = false

abbrev pub is_locked : Rc → Bool
is_locked tdb_success = false
is_locked err_conflict = false
is_locked err_locked = true
is_locked err_txn_expired = false
is_locked err_txn_aborted = false
is_locked err_too_old = false
is_locked err_no_space = false
is_locked err_memory_limit = false
is_locked err_memory = false
is_locked err_not_found = false
is_locked err_exists = false
is_locked err_readonly = false
is_locked err_io = false
is_locked err_corruption = false
is_locked err_too_large = false
is_locked err_invalid_db = false
is_locked err_invalid_args = false
is_locked (err_other n) = false

-- The codes that prepare and commit do not log.
abbrev pub is_quiet : Rc → Bool
is_quiet tdb_success = false
is_quiet err_conflict = true
is_quiet err_locked = true
is_quiet err_txn_expired = true
is_quiet err_txn_aborted = true
is_quiet err_too_old = false
is_quiet err_no_space = false
is_quiet err_memory_limit = true
is_quiet err_memory = false
is_quiet err_not_found = false
is_quiet err_exists = false
is_quiet err_readonly = false
is_quiet err_io = false
is_quiet err_corruption = false
is_quiet err_too_large = false
is_quiet err_invalid_db = false
is_quiet err_invalid_args = false
is_quiet (err_other n) = false

abbrev pub is_not_found : Rc → Bool
is_not_found tdb_success = false
is_not_found err_conflict = false
is_not_found err_locked = false
is_not_found err_txn_expired = false
is_not_found err_txn_aborted = false
is_not_found err_too_old = false
is_not_found err_no_space = false
is_not_found err_memory_limit = false
is_not_found err_memory = false
is_not_found err_not_found = true
is_not_found err_exists = false
is_not_found err_readonly = false
is_not_found err_io = false
is_not_found err_corruption = false
is_not_found err_too_large = false
is_not_found err_invalid_db = false
is_not_found err_invalid_args = false
is_not_found (err_other n) = false
