-- ===== src/Recovery.antt =====
-- XA recovery in plugin/ha_tidesdb.cc: the transactions that were prepared before the last shutdown and
-- never decided. `W` is the state of the engine and `H` a transaction handle of it. The encoded
-- XIDs are lists of bytes; a count that the engine reports is not negative.
pub mod Pages
pub mod Decide
pub mod Examples
use tidesdb_mysql.Base.{
  ℕ, zero, suc, ◌+◌, ◌-◌, ◌+ℤ◌, to_u64, Bool, true, false, not, ◌&&◌, ◌||◌, Option, none, some,
  List, [], ◌∷◌, ◌++◌, if◌then◌else◌, ltb, ◌==◌, length, take, drop,
}
use tidesdb_mysql.Codes.{Rc, is_success}
use tidesdb_mysql.Xid.{Xid, deserialize}
use tidesdb_mysql.RowLock.{bytes_eq}
use tidesdb_mysql.Txn.Resolve.{encoded}

-- `TdbInDoubtTxn`.
pub record Entry (H : Type 0) : Type 0 where
  pub xid : List ℕ
  pub txn : H

-- `g_indoubt` and `g_indoubt_cursor`.
pub record InDoubt (H : Type 0) : Type 0 where
  pub entries : List (Entry H)
  pub cursor : ℕ

-- `tidesdb_prepared_txn_t`: none for a null pointer; the size is the length of the bytes.
pub record Found (H : Type 0) : Type 0 where
  pub found_xid : Option (List ℕ)
  pub found_txn : Option H

-- The loop over what the engine lists.
pub collect : {H : Type 0} → List (Found H) → List (Entry H)
collect [] = []
collect (f ∷ fs) = elim f.found_txn [
  | none ↦ collect fs
  | some h ↦ elim f.found_xid [
    | none ↦ collect fs
    | some x ↦ if length x == 0 then collect fs else record { xid = x; txn = h } ∷ collect fs
  ]
]

-- `open_` tells whether there is a database, `counted` is what the first call of the engine answers, and
-- `listed` what the second does: the vector it filled and the count it left.
pub collect_prepared :
    {H : Type 0} → Bool → Rc × ℕ → (ℕ → Rc × List (Found H) × ℕ) → InDoubt H → InDoubt H
collect_prepared open_ counted listed old =
    let (rc, count) = counted in
    let (rc', found, count') = listed count in
    if not open_
    then old
    else if not (is_success rc)
    then old
    else if count == 0
    then old
    else if not (is_success rc')
    then old
    else record { entries = collect (take count' found); cursor = 0 }

pub free_all : {W H : Type 0} → (H → W → W) → List (Entry H) → W → W
free_all free [] w = w
free_all free (en ∷ es) w = free_all free es (free en.txn w)

pub release_indoubt : {W H : Type 0} → (H → W → W) → InDoubt H → W → W × InDoubt H
release_indoubt free s w = (free_all free s.entries w, record { entries = []; cursor = 0 })

-- The id that is written for the server: its data is the meaningful bytes.
abbrev pub handed : Xid → Xid
handed x = record x { bytes = take (to_u64 (x.gtrid_len +ℤ x.bqual_len)) x.bytes }

-- The loop from the cursor on, with the room that is left: the ids written, and how far the
-- cursor moves.
pub hand_out : {H : Type 0} → List (Entry H) → ℕ → List Xid × ℕ
hand_out [] room = ([], 0)
hand_out (en ∷ es) zero = ([], 0)
hand_out (en ∷ es) (suc room) = elim (deserialize (some en.xid) true) [
  | none ↦ let (xs, n) = hand_out es (suc room) in (xs, suc n)
  | some x ↦ let (xs, n) = hand_out es room in (handed x ∷ xs, suc n)
]

-- `given` tells whether there is a list to write to.
pub xa_recover : {H : Type 0} → Bool → ℕ → InDoubt H → List Xid × InDoubt H
xa_recover given len s =
    if not given || len == 0
    then ([], s)
    else let (xs, n) = hand_out (drop s.cursor s.entries) len in
      (xs, record s { cursor = s.cursor + n })

pub data XaStatus : Type 0 where
  xa_ok xaer_nota xaer_rmerr : XaStatus

-- The first entry with the key, and its index.
pub find_entry : {H : Type 0} → List ℕ → List (Entry H) → Option (ℕ × H)
find_entry key [] = none
find_entry key (en ∷ es) =
    let rest = find_entry key es in
    if bytes_eq en.xid key
    then some (0, en.txn)
    else elim rest [ none ↦ none | some x ↦ some (suc x.0, x.1) ]

abbrev pub erase : {H : Type 0} → ℕ → List (Entry H) → List (Entry H)
erase i es = take i es ++ drop (suc i) es

-- The entry at the index is found: resolve it.
pub resolve_entry :
    {W H : Type 0}
    → (H → W → Rc × W)
    → (H → W → W)
    → ℕ
    → H
    → InDoubt H
    → W
    → XaStatus × InDoubt H × W
resolve_entry fn free i h s w =
    let (rc, w') = fn h w in
    if is_success rc
    then (
      xa_ok,
      record {
        entries = erase i s.entries;
        cursor = if ltb i s.cursor then s.cursor - 1 else s.cursor;
      },
      free h w',
    )
    else (xaer_rmerr, s, w')

-- `fn` is the engine's commit_prepared or rollback_prepared; the id is none for a null pointer.
pub resolve_by_xid :
    {W H : Type 0}
    → (H → W → Rc × W)
    → (H → W → W)
    → Option Xid
    → InDoubt H
    → W
    → XaStatus × InDoubt H × W
resolve_by_xid fn free none s w = (xaer_nota, s, w)
resolve_by_xid fn free (some x) s w = elim (encoded x) [
  | none ↦ (xaer_nota, s, w)
  | some key ↦ elim (find_entry key s.entries) [
    | none ↦ (xaer_nota, s, w)
    | some (i, h) ↦ resolve_entry fn free i h s w
  ]
]
