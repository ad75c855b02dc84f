-- ===== src/Key/Examples.antt =====
-- The order of the keys of plugin/ha_tidesdb.cc and plugin/tidesdb_atomic_ddl_pure.cc at small keys.
use tidesdb_mysql.Base.{◌≡◌, arith, memcmp, then_compare}
use Prim.Native.Nat.{compare}
use tidesdb_mysql.Key.{SdiKey, pack_key}
use tidesdb_mysql.Key.Order.{pack_key_order}

abbrev older : SdiKey
older = record { type_ = 1; id = 700 }

abbrev newer : SdiKey
newer = record { type_ = 2; id = 5 }

pack_key_order_example :
    memcmp (pack_key older) (pack_key newer) ≡ then_compare (compare 1 2) (compare 700 5)
pack_key_order_example =
    pack_key_order older newer (omega arith) (omega arith) (omega arith) (omega arith)
