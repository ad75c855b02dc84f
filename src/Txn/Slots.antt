-- ===== src/Txn/Slots.antt =====
-- The savepoint callbacks of plugin/ha_tidesdb.cc together: the name that a slot is given is kept.
use tidesdb_mysql.Base.{ℕ, ◌≡◌, some, List, arith, if◌then◌else◌}
use tidesdb_mysql.Codes.{is_success, Ha}
use tidesdb_mysql.Txn.{Engine, Trx, Conn, Call}
use tidesdb_mysql.Txn.Savepoint.{
  Slot, named, with_name, on_slot, savepoint_set, savepoint_rollback, savepoint_release,
}

with_name-named : (print : ℕ → List ℕ) (s : Slot) → with_name print (named print s) ≡ named print s
unfolding with_name
with_name-named print s = ground arith

module _ {W H : Type 0} (e : Engine W H) (print : ℕ → List ℕ) (k : Call) where
  slot_live :
      (f : H → Slot → Conn W H → Ha × Slot × Conn W H) (s : Slot) (c : Conn W H) (t : Trx H) (h : H)
      → c.trx ≡ some t
      → t.txn ≡ some h
      → on_slot e print k f (some s) c ≡ ((f h s c).0, some (f h s c).1, (f h s c).2)
  slot_live f s c t h here open_ = ground arith

  set_live :
      (s : Slot) (c : Conn W H) (t : Trx H) (h : H)
      → c.trx ≡ some t
      → t.txn ≡ some h
      → ((savepoint_set e print k (some s) c).1 ≡ some (named print s))
        × ((savepoint_set e print k (some s) c).2
            ≡ record c { engine = (e.savepoint h (named print s).name c.engine).1 })
  unfolding savepoint_set
  set_live s c t h here open_ = (ground arith, ground arith)

  release_live :
      (s : Slot) (c : Conn W H) (t : Trx H) (h : H)
      → c.trx ≡ some t
      → t.txn ≡ some h
      → with_name print s ≡ s
      → ((savepoint_release e print k (some s) c).1 ≡ some s)
        × ((savepoint_release e print k (some s) c).2
            ≡ record c { engine = (e.release_savepoint h s.name c.engine).1 })
  unfolding savepoint_release
  release_live s c t h here open_ set_ = (ground arith, ground arith)

  rollback_live :
      (s : Slot) (c : Conn W H) (t : Trx H) (h : H)
      → c.trx ≡ some t
      → t.txn ≡ some h
      → with_name print s ≡ s
      → ((savepoint_rollback e print k (some s) c).1 ≡ some s)
        × ((savepoint_rollback e print k (some s) c).2 ≡ record c {
          engine =
              if is_success (e.rollback_to_savepoint h s.name c.engine).0
              then (e.savepoint h s.name (e.rollback_to_savepoint h s.name c.engine).1).1
              else (e.rollback_to_savepoint h s.name c.engine).1;
        })
  unfolding savepoint_rollback
  rollback_live s c t h here open_ set_ = (ground arith, ground arith)

  -- Where a savepoint was set, releasing it and rolling back to it ask the engine for the very name
  -- that set gave it; a rollback that succeeds sets the savepoint again; and none of the three
  -- changes the slot after the first, the transaction struct or the row locks.
  pub savepoint_set-same_name :
      (s : Slot) (c : Conn W H) (t : Trx H) (h : H)
      → c.trx ≡ some t
      → t.txn ≡ some h
      → (let n = (named print s).name in
          let w = (e.savepoint h n c.engine).1 in
          let x = savepoint_set e print k (some s) c in
          (x.1 ≡ some (named print s))
          × (x.2 ≡ record c { engine = w })
          × ((savepoint_release e print k x.1 x.2).1 ≡ some (named print s))
          × ((savepoint_release e print k x.1 x.2).2
              ≡ record c { engine = (e.release_savepoint h n w).1 })
          × ((savepoint_rollback e print k x.1 x.2).1 ≡ some (named print s))
          × ((savepoint_rollback e print k x.1 x.2).2 ≡ record c {
            engine =
                if is_success (e.rollback_to_savepoint h n w).0
                then (e.savepoint h n (e.rollback_to_savepoint h n w).1).1
                else (e.rollback_to_savepoint h n w).1;
          }))
  savepoint_set-same_name s c t h here open_ =
      let c' = record c { engine = (e.savepoint h (named print s).name c.engine).1 } in
      let (slot, conn) = set_live s c t h here open_ in
      let (slot', conn') =
        release_live (named print s) c' t h here open_ (with_name-named print s) in
      let (slot'', conn'') =
        rollback_live (named print s) c' t h here open_ (with_name-named print s) in
      (
        slot,
        conn,
        rw (slot, conn) slot',
        rw (slot, conn) conn',
        rw (slot, conn) slot'',
        rw (slot, conn) conn'',
      )
