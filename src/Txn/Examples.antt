-- ===== src/Txn/Examples.antt =====
-- The laws of the transactions of plugin/ha_tidesdb.cc at a small engine that answers every call with
-- success, and at one whose commit always conflicts. The state of the engine is where its only
-- transaction stands.
use tidesdb_mysql.Base.{
  ℕ, ◌≡◌, ◌≢◌, refl, inl, Bool, true, false, Option, none, some, List, [], ◌∷◌, replicate, pos,
  arith,
}
use tidesdb_mysql.Codes.{Rc, tdb_success, ha_ok}
use tidesdb_mysql.Xid.{Xid}
use tidesdb_mysql.Xid.Canonical.{serialize_total}
use tidesdb_mysql.RowLock.{owner}
use tidesdb_mysql.RowLock.Invariant.{empty_table, empty_table-Inv}
use tidesdb_mysql.Txn.{
  Isolation, read_committed, snapshot, serializable, read_uncommitted, repeatable_read, TxnState,
  active, prepared, committed, aborted, Engine, Trx, Conn, Call, next_generation,
  release_stmt_savepoint,
}
use tidesdb_mysql.Txn.Begin.{get_or_create_trx, reset_or_begin}
use tidesdb_mysql.Txn.Savepoint.{Slot, named, savepoint_set, savepoint_rollback, savepoint_release}
use tidesdb_mysql.Txn.Resolve.{prepare, commit, rollback, encoded}
use tidesdb_mysql.Txn.Fresh.{BeginContract, pending_reset_survives}
use tidesdb_mysql.Txn.Clean.{Discards, Ended, Voted, rollback-Ended, prepare-Voted, commit_frees}
use tidesdb_mysql.Txn.Phases.{
  Decided, commit-Decided, PrepareContract, Resolves, prepare-two_phases,
}
use tidesdb_mysql.Txn.Recycled.{IsFresh, Ended-IsFresh}
use tidesdb_mysql.Txn.Slots.{savepoint_set-same_name}

abbrev number : Isolation → ℕ
number read_uncommitted = 0
number read_committed = 1
number repeatable_read = 2
number snapshot = 3
number serializable = 4

abbrev to_state : TxnState → ℕ → TxnState → Rc × TxnState
to_state s h w = (tdb_success, s)

abbrev willing : Engine TxnState ℕ
willing = record {
  begin_with_isolation = λ iso cell w. (tdb_success, some 1, active);
  reset = λ h iso w. (tdb_success, active);
  free = λ h w. w;
  commit = to_state committed;
  rollback = to_state aborted;
  prepare = λ h xid w. (tdb_success, prepared);
  commit_prepared = to_state committed;
  rollback_prepared = to_state aborted;
  savepoint = λ h n w. (tdb_success, w);
  rollback_to_savepoint = λ h n w. (tdb_success, w);
  release_savepoint = λ h n w. (tdb_success, w);
  txn_state = λ h w. (tdb_success, w);
  level = number;
}

willing-BeginContract : BeginContract willing
willing-BeginContract = record {
  opens = λ iso cell w e. (1, refl);
  keeps = λ iso cell w e. absurd (cc);
}

willing-PrepareContract : PrepareContract willing
willing-PrepareContract h xid w e = inl refl

abbrev call : Call
call = record {
  me = 5;
  ready = true;
  print_all_conflicts = false;
  all = true;
  multi_statement = true;
}

abbrev with_handle : Option ℕ → Bool → Trx ℕ
with_handle h reset = record {
  txn = h;
  dirty = true;
  stmt_savepoint_active = true;
  stmt_was_dirty = false;
  needs_reset = reset;
  isolation_level = read_committed;
  txn_generation = 3;
}

abbrev conn : Trx ℕ → Conn TxnState ℕ
conn t = record { engine = active; trx = some t; table = empty_table }

abbrev writing : Trx ℕ
writing = with_handle (some 1) false

abbrev lost : Trx ℕ
lost = with_handle none true

abbrev id : Xid
id = record {
  format_id = pos 1;
  gtrid_len = pos 1;
  bqual_len = pos 1;
  bytes = 7 ∷ 9 ∷ replicate 126 0;
}

begun : (get_or_create_trx willing 5 serializable true (conn lost)).0 ≡ true
unfolding get_or_create_trx tidesdb_mysql.Txn.Begin.begin_again
begun = refl

pending_reset_survives_example :
    (u : Trx ℕ) × (h : ℕ) × ((get_or_create_trx willing 5 serializable true (conn lost)).1.trx
      ≡ some u)
    × (u.txn ≡ some h)
    × (get_or_create_trx willing 5 serializable false
          (get_or_create_trx willing 5 serializable true (conn lost)).1
        ≡ reset_or_begin willing 5 serializable h u
            (get_or_create_trx willing 5 serializable true (conn lost)).1)
pending_reset_survives_example =
    pending_reset_survives willing 5 serializable false true (conn lost) lost refl refl refl
      willing-BeginContract begun

rollback-Ended_example :
    ((rollback willing call (conn writing)).0 ≡ ha_ok)
    × Ended call writing (conn writing) (rollback willing call (conn writing)).1
    × Discards willing call 1
        (release_stmt_savepoint willing 1 writing (conn writing).engine).1
        (rollback willing call (conn writing)).1.engine
rollback-Ended_example = rollback-Ended willing call (conn writing) writing 1 refl refl

prepare-Voted_example :
    Voted willing call writing (conn writing) (prepare willing call id (conn writing))
prepare-Voted_example = prepare-Voted willing call id (conn writing) writing 1 refl refl

committed_ok : (commit willing call (conn writing)).0 ≡ ha_ok
unfolding commit tidesdb_mysql.Txn.Resolve.commit_single_phase tidesdb_mysql.Txn.Resolve.commit_now
committed_ok = refl

commit_frees_example : owner (commit willing call (conn writing)).1.table 0 ≢ some 5
commit_frees_example =
    commit_frees willing call (conn writing) writing 1 0 refl refl refl refl empty_table-Inv
      committed_ok

commit-Decided_example : Decided willing call 1 writing (conn writing)
commit-Decided_example =
    commit-Decided willing call (conn writing) writing 1 refl refl refl refl committed_ok

prepared_ok : (prepare willing call id (conn writing)).0 ≡ ha_ok
unfolding prepare tidesdb_mysql.Txn.Resolve.prepare_txn tidesdb_mysql.Txn.Resolve.prepare_under
prepared_ok =
    let (out, e, _, _) =
      serialize_total (pos 1) 1 1 144 id.bytes (omega arith) (omega arith) refl (omega arith) in
    rw e refl

prepare-two_phases_example :
    (let c' = (prepare willing call id (conn writing)).1 in
      Resolves willing call 1 c' (commit willing call c').1.engine committed
      × Resolves willing call 1 c' (rollback willing call c').1.engine aborted)
prepare-two_phases_example =
    prepare-two_phases willing call id (conn writing) writing 1 willing-PrepareContract refl refl
      refl refl prepared_ok

abbrev after : Conn TxnState ℕ
after = (rollback willing call (conn writing)).1

renewed_ok : (get_or_create_trx willing 5 serializable true after).0 ≡ true
unfolding get_or_create_trx rollback tidesdb_mysql.Txn.Resolve.rollback_txn
    tidesdb_mysql.Txn.Begin.reset_or_begin
renewed_ok = refl

Ended-IsFresh_example :
    IsFresh willing serializable
      (next_generation (next_generation 3))
      (get_or_create_trx willing 5 serializable true after).1
Ended-IsFresh_example =
    Ended-IsFresh willing 5 serializable call true writing 1 (conn writing) after
      willing-BeginContract refl (rollback-Ended willing call (conn writing) writing 1 refl refl).1
      renewed_ok

abbrev print : ℕ → List ℕ
print a = 115 ∷ 118 ∷ 95 ∷ a ∷ []

abbrev slot : Slot
slot = record { address = 64; name = [] }

savepoint_set-same_name_example :
    (let x = savepoint_set willing print call (some slot) (conn writing) in
      (x.1 ≡ some (named print slot))
      × (x.2 ≡ conn writing)
      × ((savepoint_release willing print call x.1 x.2).1 ≡ some (named print slot))
      × ((savepoint_release willing print call x.1 x.2).2 ≡ conn writing)
      × ((savepoint_rollback willing print call x.1 x.2).1 ≡ some (named print slot))
      × ((savepoint_rollback willing print call x.1 x.2).2 ≡ conn writing))
savepoint_set-same_name_example =
    savepoint_set-same_name willing print call slot (conn writing) writing 1 refl refl
