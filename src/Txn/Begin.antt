-- ===== src/Txn/Begin.antt =====
-- plugin/ha_tidesdb.cc: the isolation level of a transaction, `get_or_create_trx`, and START
-- TRANSACTION WITH CONSISTENT SNAPSHOT.
use tidesdb_mysql.Base.{ℕ, Bool, true, false, not, Option, none, some, [], if◌then◌else◌, ltb}
use tidesdb_mysql.Codes.{is_success}
use tidesdb_mysql.RowLock.{update}
use tidesdb_mysql.Txn.{
  Isolation, read_uncommitted, read_committed, repeatable_read, snapshot, serializable, Engine, Trx,
  Conn, next_generation,
}

-- The level of the SQL session; `iso_other` stands for any other number.
pub data SessionIsolation : Type 0 where
  iso_read_uncommitted iso_read_committed iso_repeatable_read iso_serializable iso_other :
      SessionIsolation

-- The level of the table is an argument that no path reads.
unfoldable pub resolve_effective_isolation : Bool → SessionIsolation → Isolation → Isolation
resolve_effective_isolation true session table_iso = read_committed
resolve_effective_isolation false iso_read_uncommitted table_iso = read_uncommitted
resolve_effective_isolation false iso_read_committed table_iso = read_committed
resolve_effective_isolation false iso_repeatable_read table_iso = snapshot
resolve_effective_isolation false iso_serializable table_iso = serializable
resolve_effective_isolation false iso_other table_iso = read_committed

module _ {W H : Type 0} (e : Engine W H) (me : ℕ) (iso : Isolation) where
  -- A transaction struct without a handle: begin one.
  unfoldable pub begin_again : Trx H → Conn W H → Bool × Conn W H
  begin_again t c =
      let (rc, cell, w) = e.begin_with_isolation iso none c.engine in
      if is_success rc
      then (
        true,
        record c {
          engine = w;
          trx = some (record t {
            txn = cell;
            dirty = false;
            isolation_level = iso;
            txn_generation = next_generation t.txn_generation;
          });
        },
      )
      else (false, record c { engine = w; trx = some (record t { txn = cell }) })

  abbrev pub renewed : Option H → W → Trx H → Conn W H → Conn W H
  renewed cell w t c = record c {
    engine = w;
    trx = some (record t {
      txn = cell;
      needs_reset = false;
      isolation_level = iso;
      txn_generation = next_generation t.txn_generation;
    });
  }

  -- A handle kept from the transaction before: reset it, or free it and begin another.
  unfoldable pub reset_or_begin : H → Trx H → Conn W H → Bool × Conn W H
  reset_or_begin h t c =
      let (rrc, w) = e.reset h iso c.engine in
      if is_success rrc
      then (true, renewed (some h) w t c)
      else let (rc, cell, w') = e.begin_with_isolation iso none (e.free h w) in
        if is_success rc
        then (true, renewed cell w' t c)
        else (false, record c { engine = w'; trx = some (record t { txn = cell }) })

  -- No transaction struct yet; `alloc` tells whether its allocation succeeds.
  unfoldable pub create_trx : Bool → Conn W H → Bool × Conn W H
  create_trx alloc c =
      if not alloc
      then (false, c)
      else let (rc, cell, w) = e.begin_with_isolation iso none c.engine in
        if is_success rc
        then (
          true,
          record {
            engine = w;
            trx = some (record {
              txn = cell;
              dirty = false;
              stmt_savepoint_active = false;
              stmt_was_dirty = false;
              needs_reset = false;
              isolation_level = iso;
              txn_generation = 1;
            });
            table = record c.table {
              trx =
                  update c.table.trx me (record { held = []; waiting_on = none; lock_txn_id = 1 });
            };
          },
        )
        else (false, record c { engine = w })

  -- Whether the call returns the struct, and what it leaves.
  unfoldable pub get_or_create_trx : Bool → Conn W H → Bool × Conn W H
  get_or_create_trx alloc c = elim c.trx [
    | none ↦ create_trx alloc c
    | some t ↦ elim t.txn [
      | none ↦ begin_again t c
      | some h ↦ if t.needs_reset then reset_or_begin h t c else (true, c)
    ]
  ]

-- The level that the snapshot is begun with.
abbrev pub snapshot_isolation : {W H : Type 0} → Engine W H → Bool → SessionIsolation → Isolation
snapshot_isolation e pessimistic session =
    let iso = resolve_effective_isolation pessimistic session repeatable_read in
    if ltb (e.level iso) (e.level snapshot) then snapshot else iso

-- True: the call returned 0 and the engine is registered for the statement and the transaction.
unfoldable pub start_consistent_snapshot :
    {W H : Type 0} → Engine W H → ℕ → Bool → SessionIsolation → Bool → Conn W H → Bool × Conn W H
start_consistent_snapshot e me pessimistic session alloc c =
    get_or_create_trx e me (snapshot_isolation e pessimistic session) alloc c
