-- ===== src/Txn/Resolve.antt =====
-- The prepare, commit, rollback and close callbacks of plugin/ha_tidesdb.cc.
use tidesdb_mysql.Base.{ℕ, true, false, not, Option, none, some, List, if◌then◌else◌}
use tidesdb_mysql.Codes.{is_success, Ha, ha_ok, ha_internal_error}
use tidesdb_mysql.RowLock.{release_all}
use tidesdb_mysql.Xid.{Xid, serialize, xid_max_serialized}
use tidesdb_mysql.Txn.{
  Engine, Trx, Conn, Call, is_real, code, on_txn, recycle, discard, release_stmt_savepoint,
  trx_txn_state, is_resolved, is_prepared,
}

abbrev pub encoded : Xid → Option (List ℕ)
encoded x = serialize x.format_id x.gtrid_len x.bqual_len (some x.bytes) true xid_max_serialized

module _ {W H : Type 0} (e : Engine W H) (k : Call) where
  -- Prepare a dirty transaction under the encoded id, if there is one.
  unfoldable pub prepare_under : Option (List ℕ) → Trx H → H → W → Conn W H → Ha × Conn W H
  prepare_under none t h w c = (ha_internal_error, recycle k (e.rollback h w).1 t c)
  prepare_under (some xid) t h w c =
      let (rc, w') = e.prepare h xid w in
      if is_success rc
      then (ha_ok, record c { engine = w'; trx = some t })
      else (code k rc, discard e k h w' t c)

  unfoldable pub prepare_txn : Xid → Trx H → H → Conn W H → Ha × Conn W H
  prepare_txn x t h c =
      if not (is_real k)
      then (ha_ok, c)
      else if not t.dirty
      then (ha_ok, c)
      else let (t', w) = release_stmt_savepoint e h t c.engine in prepare_under (encoded x) t' h w c

  unfoldable pub prepare : Xid → Conn W H → Ha × Conn W H
  prepare x c = on_txn (prepare_txn x) c

  -- Phase two of a transaction that is prepared.
  unfoldable pub commit_phase_two : Trx H → H → Conn W H → Ha × Conn W H
  commit_phase_two t h c =
      let (prc, w) = e.commit_prepared h c.engine in
      if is_success prc then (ha_ok, recycle k w t c) else (code k prc, record c { engine = w })

  -- The commit of a transaction that was not prepared, once the statement's savepoint is released.
  unfoldable pub commit_now : Trx H → H → W → Conn W H → Ha × Conn W H
  commit_now t h w c =
      if t.dirty
      then (let (rc, w') = e.commit h w in
          if is_success rc then (ha_ok, recycle k w' t c) else (code k rc, discard e k h w' t c))
      else (ha_ok, recycle k (e.rollback h w).1 t c)

  unfoldable pub commit_single_phase : Trx H → H → Conn W H → Ha × Conn W H
  commit_single_phase t h c =
      let (t', w) = release_stmt_savepoint e h t c.engine in commit_now t' h w c

  unfoldable pub commit : Conn W H → Ha × Conn W H
  commit c =
      on_txn
        (λ t h c'.
          let state = trx_txn_state e h c'.engine in
          if not (is_real k)
          then (ha_ok, record c' { trx = some (record t { stmt_was_dirty = false }) })
          else if is_resolved state
          then (ha_ok, recycle k c'.engine t c')
          else if is_prepared state
          then commit_phase_two t h c'
          else commit_single_phase t h c')
        c

  -- The engine after the handle is rolled back, whatever state it is in.
  unfoldable pub undo : H → W → W
  undo h w =
      let state = trx_txn_state e h w in
      if is_resolved state
      then w
      else if is_prepared state
      then (e.rollback_prepared h w).1
      else (e.rollback h w).1

  unfoldable pub rollback_txn : Trx H → H → Conn W H → Ha × Conn W H
  rollback_txn t h c =
      let (t', w) = release_stmt_savepoint e h t c.engine in (ha_ok, recycle k (undo h w) t' c)

  unfoldable pub rollback : Conn W H → Ha × Conn W H
  rollback c = on_txn rollback_txn c

  unfoldable pub close_connection : Conn W H → Conn W H
  close_connection c = elim c.trx [
    | none ↦ c
    | some t ↦ record {
      engine = elim t.txn [ none ↦ c.engine | some h ↦ e.free h (e.rollback h c.engine).1 ];
      trx = none;
      table = release_all k.ready c.table k.me;
    }
  ]
