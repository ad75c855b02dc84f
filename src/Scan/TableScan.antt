-- ===== src/Scan/TableScan.antt =====
-- rnd_init of plugin/ha_tidesdb.cc and the scan that follows it.
use tidesdb_mysql.Base.{◌≡◌, true, some, List, [], ◌∷◌}
use tidesdb_mysql.Codes.{Ha}
use tidesdb_mysql.Key.{key_ns_data}
use tidesdb_mysql.Rows.{Store, is_ok}
use tidesdb_mysql.Scan.{Iterator, ScanEnv, Scan, dir_none}
use tidesdb_mysql.Scan.Contract.{KeyValue, drop_below, Forward, Uncontended}

module _ {Row W I : Type 0} (it : Iterator I) (s : Store W) (e : ScanEnv Row W I)
    (rest all : I → List KeyValue) (law : Forward it rest all) (free : Uncontended it) where
  -- An iterator of the rows, of this transaction and generation, at the first row.
  pub record Opens (w : W) (b : Row) (d : Scan Row W I) : Type 0 where
    pub pos : I
    pub iter_is : d.iter ≡ some pos
    pub rest_is : rest pos ≡ drop_below (key_ns_data ∷ []) (all pos)
    pub dir_is : d.dir ≡ dir_none
    pub buf_is : d.buf ≡ b
    pub world_is : d.world ≡ w
    pub cf_is : d.iter_cf ≡ 0
    pub txn_is : d.iter_txn ≡ e.stmt_txn w
    pub gen_is : d.iter_gen ≡ e.generation w

  -- What holds if the scan could be opened.
  abbrev OpensIf : W → Row → Ha × Scan Row W I → Type 0
  OpensIf w b r = is_ok r.0 ≡ true → Opens w b r.1
