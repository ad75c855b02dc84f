-- ===== src/Scan/Table.antt =====
-- The scan of the rows and the reads by position: rnd_init, rnd_next, rnd_end, position and rnd_pos of
-- plugin/ha_tidesdb.cc.
use tidesdb_mysql.Base.{ℕ, true, false, none, some, List, [], ◌∷◌, if◌then◌else◌}
use tidesdb_mysql.Codes.{Ha, is_success, ha_ok}
use tidesdb_mysql.Key.{key_ns_data}
use tidesdb_mysql.Rows.{Store, is_ok, ha_of}
use tidesdb_mysql.Scan.{
  Iterator, ScanEnv, Scan, Dir, Read, dir_none, dir_forward, dir_backward, aborted, turn_if_found,
  moved, fetch_row_by_pk, iter_read_current, open_iter, drop_stale_iter, and_read,
}

module _ {Row W I : Type 0} (it : Iterator I) (s : Store W) (e : ScanEnv Row W I) where
  -- The transaction of the statement is begun where it is not.
  unfoldable pub with_txn : (Scan Row W I → Ha × Scan Row W I) → Scan Row W I → Ha × Scan Row W I
  with_txn next c =
      let (code, w) = s.ensure_stmt_txn c.world in
      let c' = record c { world = w } in elim (is_ok code) [ true ↦ next c' | false ↦ (code, c') ]

  -- To the first key of a row, past the keys of the meta namespace.
  unfoldable pub seek_rows : Scan Row W I → Scan Row W I
  seek_rows c = moved (it.seek (key_ns_data ∷ [])) c

  -- The iterator that was kept, or a new one.
  unfoldable pub open_kept : ℕ → Scan Row W I → Ha × Scan Row W I
  open_kept txn c =
      let (rc, opened) = open_iter it s e txn 0 c in
      elim c.iter [
        | some i ↦ (ha_ok, seek_rows c)
        | none ↦
            if is_success rc
            then (ha_ok, seek_rows opened)
            else (ha_of rc, record opened { scan_txn = none })
      ]

  unfoldable pub open_rows : Scan Row W I → Ha × Scan Row W I
  open_rows c =
      let txn = e.stmt_txn c.world in
      open_kept txn (drop_stale_iter it s e 0 txn (record c { scan_txn = some txn }))

  unfoldable pub rnd_init : Scan Row W I → Ha × Scan Row W I
  rnd_init c = with_txn open_rows (record c { current_pk = []; dir = dir_none })

  unfoldable pub rnd_end : Scan Row W I → Scan Row W I
  rnd_end c = record c { scan_txn = none }

  -- `if (scan_dir_ != DIR_NONE) tdb_iter_next_r(scan_iter)`
  unfoldable pub step_in : Dir → Scan Row W I → Scan Row W I
  step_in dir_none c = c
  step_in dir_forward c = moved it.next c
  step_in dir_backward c = moved it.next c

  abbrev pub step_on : Scan Row W I → Scan Row W I
  step_on c = step_in c.dir c

  unfoldable pub rnd_next : Read (Scan Row W I)
  rnd_next c =
      if e.killed c.world
      then (aborted, c)
      else turn_if_found dir_forward (iter_read_current it s e) (step_on c)

  -- What `position` stores for a later `rnd_pos`.
  unfoldable pub position : Scan Row W I → List ℕ
  position c = c.current_pk

  unfoldable pub rnd_pos : List ℕ → Read (Scan Row W I)
  rnd_pos pos c = and_read (with_txn (λ c. (ha_ok, c)) c) (fetch_row_by_pk it s e pos)
