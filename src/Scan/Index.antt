-- ===== src/Scan/Index.antt =====
-- index_init and index_end of plugin/ha_tidesdb.cc.
use tidesdb_mysql.Base.{ℕ, Bool, false, not, ◌&&◌, ◌||◌, Option, none, some, if◌then◌else◌, ◌==◌}
use tidesdb_mysql.Codes.{Ha, ha_ok, ha_generic}
use tidesdb_mysql.Rows.{Store}
use tidesdb_mysql.Scan.{Iterator, ScanEnv, Scan, dir_none, drop_stale_iter}
use tidesdb_mysql.Scan.Table.{with_txn}

module _ {Row W I : Type 0} (it : Iterator I) (s : Store W) (e : ScanEnv Row W I) where
  -- A pushed condition is stale where it is for another key, or was cancelled by halves.
  unfoldable pub is_push_stale : ℕ → W → Bool
  is_push_stale idx w =
      elim (e.pushed_keyno w) [ none ↦ false | some k ↦ not (k == idx) ]
      || (not (e.has_pushed w) && e.in_range_pushed w)

  unfoldable pub enter_index : ℕ → Scan Row W I → Scan Row W I
  enter_index idx c = record c {
    active_index = idx;
    exact_done = false;
    dir = dir_none;
    spatial_active = false;
    world = if is_push_stale idx c.world then e.cancel_pushed c.world else c.world;
    is_pk = e.has_user_pk && idx == e.pk_index;
  }

  unfoldable pub target_cf : ℕ → Option ℕ
  target_cf idx = if e.has_user_pk && idx == e.pk_index then some 0 else e.idx_cf idx

  unfoldable pub open_index : ℕ → Scan Row W I → Ha × Scan Row W I
  open_index idx c =
      let txn = e.stmt_txn c.world in
      elim (target_cf idx) [
        | none ↦ (ha_generic, record c { scan_txn = none; scan_cf = none })
        | some cf ↦ (
          ha_ok,
          drop_stale_iter it s e cf txn (record c { scan_txn = some txn; scan_cf = some cf }),
        )
      ]

  unfoldable pub index_init : ℕ → Scan Row W I → Ha × Scan Row W I
  index_init idx c = with_txn it s e (open_index idx) (enter_index idx c)

  unfoldable pub index_end : ℕ → Scan Row W I → Scan Row W I
  index_end max_key c = record c { scan_txn = none; active_index = max_key; spatial_active = false }
