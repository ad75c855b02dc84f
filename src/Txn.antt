-- ===== src/Txn.antt =====
-- The transaction of a connection in plugin/ha_tidesdb.cc, from its begin to its commit, rollback or
-- prepare. `Engine` stands for the functions of the TidesDB library: `W` is the state of the engine and
-- `H` a transaction handle of it. `Conn` is what the callbacks of one connection reach: the engine,
-- the `tidesdb_trx_t` that hangs on the THD, and the table of the row locks, in which the connection is
-- the transaction `me`. What goes to the error log is not part of the state.
pub mod Begin
pub mod Savepoint
pub mod Resolve
pub mod Fresh
pub mod Clean
pub mod Phases
pub mod Recycled
pub mod Slots
pub mod Examples
use tidesdb_mysql.Base.{
  ℕ, ◌+◌, ◌%◌, ◌^◌, ◌≡◌, Bool, true, false, not, ◌||◌, Option, none, some, List, [], ◌∷◌,
  if◌then◌else◌,
}
use tidesdb_mysql.Codes.{Rc, is_success, Ha, ha_ok, tdb_rc_to_ha}
use tidesdb_mysql.RowLock.{Table, release_all}

pub data Isolation : Type 0 where
  read_uncommitted read_committed repeatable_read snapshot serializable : Isolation

pub data TxnState : Type 0 where
  active prepared committed aborted : TxnState

-- The library. An out-parameter is given its old content; `level` is the enumerator's number.
pub record Engine (W H : Type 0) : Type 0 where
  pub begin_with_isolation : Isolation → Option H → W → Rc × Option H × W
  pub reset : H → Isolation → W → Rc × W
  pub free : H → W → W
  pub commit : H → W → Rc × W
  pub rollback : H → W → Rc × W
  pub prepare : H → List ℕ → W → Rc × W
  pub commit_prepared : H → W → Rc × W
  pub rollback_prepared : H → W → Rc × W
  pub savepoint : H → List ℕ → W → Rc × W
  pub rollback_to_savepoint : H → List ℕ → W → Rc × W
  pub release_savepoint : H → List ℕ → W → Rc × W
  pub txn_state : H → W → Rc × TxnState
  pub level : Isolation → ℕ

-- `tidesdb_trx_t`, less what the lock manager keeps in it.
pub record Trx (H : Type 0) : Type 0 where
  pub txn : Option H
  pub dirty : Bool
  pub stmt_savepoint_active : Bool
  pub stmt_was_dirty : Bool
  pub needs_reset : Bool
  pub isolation_level : Isolation
  pub txn_generation : ℕ

pub record Conn (W H : Type 0) : Type 0 where
  pub engine : W
  pub trx : Option (Trx H)
  pub table : Table

-- What a callback is told: which transaction it acts for, whether the lock table exists, whether all
-- conflicts are printed, the argument `all`, and the test of OPTION_NOT_AUTOCOMMIT | OPTION_BEGIN.
pub record Call : Type 0 where
  pub me : ℕ
  pub ready : Bool
  pub print_all_conflicts : Bool
  pub all : Bool
  pub multi_statement : Bool

abbrev pub is_real : Call → Bool
is_real k = k.all || not k.multi_statement

abbrev pub stmt_name : List ℕ
stmt_name = 115 ∷ 116 ∷ 109 ∷ 116 ∷ []

abbrev pub next_generation : ℕ → ℕ
next_generation g = (g + 1) % 2 ^ 64

abbrev pub code : Call → Rc → Ha
code k rc = (tdb_rc_to_ha k.print_all_conflicts rc).code

-- `if (!trx || !trx->txn) return 0;`
abbrev pub on_txn :
    {W H : Type 0} → (Trx H → H → Conn W H → Ha × Conn W H) → Conn W H → Ha × Conn W H
on_txn f c = elim c.trx [
  | none ↦ (ha_ok, c)
  | some t ↦ elim t.txn [ none ↦ (ha_ok, c) | some h ↦ f t h c ]
]

-- The transaction object stays and is reset before it is used again; its locks are released.
abbrev pub recycle : {W H : Type 0} → Call → W → Trx H → Conn W H → Conn W H
recycle k w t c = record {
  engine = w;
  trx = some (record t {
    txn_generation = next_generation t.txn_generation;
    needs_reset = true;
    dirty = false;
    stmt_savepoint_active = false;
  });
  table = release_all k.ready c.table k.me;
}

-- The transaction object is rolled back and freed; its locks are released.
abbrev pub discard : {W H : Type 0} → Engine W H → Call → H → W → Trx H → Conn W H → Conn W H
discard e k h w t c = record {
  engine = e.free h (e.rollback h w).1;
  trx = some (record t {
    txn = none;
    txn_generation = next_generation t.txn_generation;
    dirty = false;
    stmt_savepoint_active = false;
  });
  table = release_all k.ready c.table k.me;
}

abbrev pub release_stmt_savepoint : {W H : Type 0} → Engine W H → H → Trx H → W → Trx H × W
release_stmt_savepoint e h t w =
    if t.stmt_savepoint_active
    then (record t { stmt_savepoint_active = false }, (e.release_savepoint h stmt_name w).1)
    else (t, w)

-- `tdb_trx_txn_state`: none when the engine does not tell.
abbrev pub trx_txn_state : {W H : Type 0} → Engine W H → H → W → Option TxnState
trx_txn_state e h w = if is_success (e.txn_state h w).0 then some (e.txn_state h w).1 else none

abbrev pub is_resolved : Option TxnState → Bool
is_resolved none = false
is_resolved (some active) = false
is_resolved (some prepared) = false
is_resolved (some committed) = true
is_resolved (some aborted) = true

abbrev pub is_prepared : Option TxnState → Bool
is_prepared none = false
is_prepared (some active) = false
is_prepared (some prepared) = true
is_prepared (some committed) = false
is_prepared (some aborted) = false
