-- ===== src/Txn/Savepoint.antt =====
-- The savepoint callbacks of plugin/ha_tidesdb.cc. A slot is the memory that the server keeps for a
-- savepoint: its address, and the name that the engine knows it by. `print` is the "sv_%p" of an address.
use tidesdb_mysql.Base.{ℕ, ◌-◌, Option, none, some, List, [], ◌∷◌, if◌then◌else◌, take}
use tidesdb_mysql.Codes.{is_success, Ha, ha_ok, ha_no_savepoint, is_not_found}
use tidesdb_mysql.Txn.{Engine, Conn, Call, code}

abbrev pub savepoint_name_max : ℕ
savepoint_name_max = 32

pub record Slot : Type 0 where
  pub address : ℕ
  pub name : List ℕ

abbrev pub named : (ℕ → List ℕ) → Slot → Slot
named print s = record s { name = take (savepoint_name_max - 1) (print s.address) }

-- `if (!sp->name[0]) snprintf(...)`.
unfoldable pub with_name : (ℕ → List ℕ) → Slot → Slot
with_name print s = elim s.name [ [] ↦ named print s | x ∷ xs ↦ s ]

module _ {W H : Type 0} (e : Engine W H) (print : ℕ → List ℕ) (k : Call) where
  -- `if (!trx || !trx->txn || !sv) return 0;`
  abbrev pub on_slot :
      (H → Slot → Conn W H → Ha × Slot × Conn W H)
      → Option Slot
      → Conn W H
      → Ha × Option Slot × Conn W H
  on_slot f none c = (ha_ok, none, c)
  on_slot f (some s) c = elim c.trx [
    | none ↦ (ha_ok, some s, c)
    | some t ↦ elim t.txn [
      | none ↦ (ha_ok, some s, c)
      | some h ↦ let (r, s', c') = f h s c in (r, some s', c')
    ]
  ]

  unfoldable pub savepoint_set : Option Slot → Conn W H → Ha × Option Slot × Conn W H
  savepoint_set sv c =
      on_slot
        (λ h s c'.
          let s' = named print s in
          let (rc, w) = e.savepoint h s'.name c'.engine in
          (if is_success rc then ha_ok else code k rc, s', record c' { engine = w }))
        sv c

  unfoldable pub savepoint_rollback : Option Slot → Conn W H → Ha × Option Slot × Conn W H
  savepoint_rollback sv c =
      on_slot
        (λ h s c'.
          let s' = with_name print s in
          let (rc, w) = e.rollback_to_savepoint h s'.name c'.engine in
          if is_success rc
          then (ha_ok, s', record c' { engine = (e.savepoint h s'.name w).1 })
          else (
            if is_not_found rc then ha_no_savepoint else code k rc,
            s',
            record c' { engine = w },
          ))
        sv c

  unfoldable pub savepoint_release : Option Slot → Conn W H → Ha × Option Slot × Conn W H
  savepoint_release sv c =
      on_slot
        (λ h s c'.
          let s' = with_name print s in
          let (rc, w) = e.release_savepoint h s'.name c'.engine in
          (
            if is_success rc then ha_ok else if is_not_found rc then ha_no_savepoint else code k rc,
            s',
            record c' { engine = w },
          ))
        sv c
