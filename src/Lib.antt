-- ===== src/Lib.antt =====
-- A verification library of the TidesDB storage engine for MySQL (plugin/).
--
-- The program is a handlerton: the server calls it at the borders of transactions and for rows, and it
-- calls the TidesDB library, which stores column families of keys and values with MVCC transactions.
-- The library is not part of the repository, so it is a parameter of the models: the record `Engine` of
-- Txn.antt, and function arguments elsewhere.
--
-- Codes    plugin/ha_tidesdb.cc, tdb_rc_to_ha: the engine's result codes and the server's.
-- Retry    plugin/tidesdb_retry.h: the bounded retry of reads under contention.
-- Xid      plugin/tidesdb_xid.h: the bytes that name a prepared transaction. The encoder returns the list
--          of the bytes that it writes, the decoder reads such a list; `none` is a rejection.
-- RowLock  plugin/tidesdb_row_lock.cc and .h: row locks with a wait-for walk. A table is a list of
--          entries, chains per partition and, per transaction, what tidesdb_trx_t keeps for it. What runs
--          under a partition's mutex is one function; RowLock/System.antt interleaves these functions
--          freely, a release lock by lock, with any answer of the walker and any kill. The walk has at most 100 hops, which is
--          DEADLOCK_MAX_DEPTH of the source and not a bound of the model.
-- Txn      plugin/ha_tidesdb.cc: get_or_create_trx (Txn/Begin), the savepoint callbacks (Txn/Savepoint), and
--          tidesdb_prepare, tidesdb_commit, tidesdb_rollback and tidesdb_close_connection
--          (Txn/Resolve). They end a transaction by row_locks_release_all of RowLock, name a prepared
--          transaction by the encoder of Xid, and answer by the codes of Codes.
-- Recovery plugin/ha_tidesdb.cc: tidesdb_collect_prepared, tidesdb_xa_recover, tidesdb_resolve_by_xid and
--          tidesdb_release_indoubt. They use Xid in both directions.
-- Key      plugin/ha_tidesdb.cc and plugin/tidesdb_atomic_ddl_pure.cc: fixed-width keys.
-- Spatial  plugin/tidesdb_spatial.cc: quantised coordinates, the Hilbert value, the keys, the filters,
--          the decomposition of a query box into ranges (Spatial/Ranges), and the WKB parser (Spatial/Wkb).
--          A double is its bits. The loop over the bits has 32 rounds, one for each bit.
-- Delta    plugin/tidesdb_atomic_ddl_pure.cc: compute_delta_pure.
-- Path     plugin/ha_tidesdb.cc: names from table paths, the sanitiser of the log, and the check of
--          backup paths.
-- Fts      plugin/tidesdb_fts.cc: the codec of the full-text index, its counters, the tokenizer (Fts/Tokens)
--          and the parser of boolean queries (Fts/Query), where the server's character set is a parameter.
-- Rows     plugin/ha_tidesdb.cc: write_row, delete_row and update_row (Rows/Write, Rows/Delete,
--          Rows/Update), automatic keys and lifetimes (Rows/AutoIncrement), the frames of bulk
--          operations (Rows/Bulk) and the read of columns from an index (Rows/KeyRead), with the keys
--          (Rows/Key), the row format (Rows/Serialize, Rows/Deserialize), the entries of an index
--          (Rows/Entries) and the calls of the engine (Rows/Engine). The engine is the record `Store`, and
--          what is relied on is `Contract` of Rows/Contents. What a table and its indexes should hold is
--          `Represents` of Rows/Represents: a map from primary keys to rows, where each index has the
--          entries of the rows and no others. The operations use the locks' interface, the keys of Key,
--          Fts and Spatial, and the codes of Codes. A record buffer is any type, but for the decoder, where
--          it is the byte at each address.
-- Scan     plugin/ha_tidesdb.cc: table scans and reads by position (Scan/Table), reads of a primary or
--          secondary index (Scan/Index, Scan/Lookup) and the steps along it (Scan/Walk), and the search of
--          a spatial index (Scan/Boxes). The members of the handler that scans use are the record `Scan`;
--          the engine's iterator is the record `Iterator`, and what is relied on is `Forward` of
--          Scan/Contract, and `Uncontended` where no call may be refused, which Scan/Memory fills by a list of entries. Rows are read through the `Store`
--          of Rows, by its keys, and the ranges of a box are those of Spatial.
-- MasterKey plugin/tidesdb_master_key.cc: the master key and each thread's copy of it; and the encryption
--          of a row by it, tidesdb_encrypt_row_into and tidesdb_decrypt_row of plugin/ha_tidesdb.cc
--          (MasterKey/RowCipher). The cipher is a parameter.
-- Perf     plugin/tidesdb_perf_ring.cc: the ring of a thread's samples, and its flush.
-- Base     shared names, lemmas on lists, bits, integers and big-endian bytes.
--
-- Each component has its definitions in its own file and, where it is large, in child modules; its
-- theorems in child modules named for what they show; and instances at concrete inputs in Examples.
-- The WKB parser and the loop over a boolean query recur on fuel; the end of the fuel is a result of its
-- own, which they do not come to with more fuel than their input is long (Spatial/Fuel, Fts/Query/Progress). The loops of Scan, which go on until the engine's
-- iterator ends, take `limit` rounds at most and answer `out_of_rounds` where that is too few; a limit
-- above the number of the entries is enough for the scans of Scan/TableScan and Scan/Exact. No other
-- definition has fuel. Numbers are natural numbers with the wrap-around of the source written out.
--
-- Not modelled: the copy of a search key to its comparable form, the multi-range read and the
-- statistics; the ranking of full-text search; in-place ALTER and the DDL log; what stands on classes of
-- the server; the error log; the freeing of memory; and weak memory: a part under a mutex is atomic.
pub mod Base
pub mod Codes
pub mod Retry
pub mod Xid
pub mod RowLock
pub mod Txn
pub mod Recovery
pub mod Key
pub mod Spatial
pub mod Delta
pub mod Path
pub mod Fts
pub mod Rows
pub mod Perf
pub mod Scan
pub mod MasterKey
