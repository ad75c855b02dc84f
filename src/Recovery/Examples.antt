-- ===== src/Recovery/Examples.antt =====
-- The laws of the XA recovery of plugin/ha_tidesdb.cc at two transactions in doubt.
use tidesdb_mysql.Base.{
  ℕ, ◌≡◌, refl, true, some, List, [], ◌∷◌, arith, get_elem?, take, drop, All, IsByte,
}
use tidesdb_mysql.Codes.{Rc, tdb_success}
use tidesdb_mysql.Xid.Examples.{decoded_wire, wire, wire_is_read, wire_is_written}
use tidesdb_mysql.Recovery.{InDoubt, handed, xa_recover, resolve_entry, resolve_by_xid}
use tidesdb_mysql.Recovery.Pages.{named, xa_recover-pages}
use tidesdb_mysql.Recovery.Decide.{Resolved, resolve_by_xid-Resolved, handed-resolves}

-- The second id is damaged.
abbrev in_doubt : InDoubt ℕ
in_doubt = record {
  entries = record { xid = wire; txn = 10 } ∷ record { xid = 1 ∷ []; txn = 11 } ∷ [];
  cursor = 0;
}

-- The state of the engine is the list of the handles that were committed.
abbrev commit_handle : ℕ → List ℕ → Rc × List ℕ
commit_handle h w = (tdb_success, h ∷ w)

abbrev free_handle : ℕ → List ℕ → List ℕ
free_handle h w = w

xa_recover-pages_example :
    ((xa_recover true 1 in_doubt).0 ≡ take 1 (named in_doubt.entries))
    × (named (drop (xa_recover true 1 in_doubt).1.cursor (xa_recover true 1 in_doubt).1.entries)
        ≡ drop 1 (named in_doubt.entries))
    × ((xa_recover true 1 in_doubt).1.entries ≡ in_doubt.entries)
xa_recover-pages_example = xa_recover-pages 1 in_doubt

resolve_by_xid-Resolved_example :
    Resolved commit_handle wire in_doubt []
      (resolve_by_xid commit_handle free_handle (some decoded_wire) in_doubt [])
resolve_by_xid-Resolved_example =
    resolve_by_xid-Resolved commit_handle free_handle decoded_wire wire in_doubt [] wire_is_written

wire_bytes : All IsByte wire
wire_bytes = ground arith

handed-resolves_example :
    (i : ℕ) × (h : ℕ) × (get_elem? in_doubt.entries i ≡ some (record { xid = wire; txn = h }))
    × (resolve_by_xid commit_handle free_handle (some (handed decoded_wire)) in_doubt []
        ≡ resolve_entry commit_handle free_handle i h in_doubt [])
handed-resolves_example =
    handed-resolves commit_handle free_handle in_doubt [] 0 (record { xid = wire; txn = 10 })
      decoded_wire refl wire_bytes wire_is_read
