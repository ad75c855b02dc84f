-- ===== src/Rows/Owner.antt =====
-- Which row an entry belongs to: its key holds the primary key behind what the index is sorted by.
use tidesdb_mysql.Base.{
  ℕ, ◌≡◌, refl, Bool, true, false, Option, none, some, List, [], ◌∷◌, ltb, All, if_cases, length,
  take, drop, drop-append_seam, length-be_bytes, be_bytes,
}
use tidesdb_mysql.RowLock.{bytes_eq}
use tidesdb_mysql.RowLock.Lookup.{bytes_eq→eq, bytes_eq_refl}
use tidesdb_mysql.Fts.{of_le}
use tidesdb_mysql.Fts.Codec.{build_key-parts}
use tidesdb_mysql.Spatial
use tidesdb_mysql.Spatial.{Mbr, encode_hilbert_be, hilbert_xy2d_64, double_to_lex_uint32}
use tidesdb_mysql.Spatial.Wkb.{spatial_compute_mbr}
use tidesdb_mysql.Rows.{Part, Index, Kind, TableDef, Env, regular, fulltext, rtree}
use tidesdb_mysql.Rows.Key.{make_comparable_key, sec_idx_key, pk_from_record, parts_length}
use tidesdb_mysql.Rows.Entries.{
  Entry, entries, entries_of, term_entries, box_entries, spatial_entries, tf_map, tokens,
  word_count,
}
use tidesdb_mysql.Rows.KeyLength.{IsPart, length-make_comparable_key}
use tidesdb_mysql.Rows.Contents.{hit}

pub owner_in : {Row : Type 0} → Kind → List (Part Row) → List ℕ → List ℕ
owner_in regular parts k = drop (parts_length parts) k
owner_in fulltext parts k = drop (of_le (take 2 k)) (drop 2 k)
owner_in rtree parts k = drop 8 k

unfoldable pub owner_of : {Row : Type 0} → Index Row → List ℕ → List ℕ
unfolding owner_in
owner_of ix k = owner_in ix.kind ix.parts k

-- Every entry's owner.
abbrev pub Owned : {Row : Type 0} → Index Row → List ℕ → Entry → Type 0
Owned ix pk x = owner_of ix x.0 ≡ pk

term_entries-owned :
    {Row : Type 0} (parts : List (Part Row)) (words : ℕ) (pk : List ℕ) (m : List (List ℕ × ℕ))
    → All (λ x. owner_in fulltext parts x.0 ≡ pk) (term_entries words pk m)
unfolding term_entries owner_in
term_entries-owned parts words pk [] = tt
term_entries-owned parts words pk ((t, n) ∷ m) =
    ((build_key-parts t pk).1, term_entries-owned parts words pk m)

drop-build_key : (cx cy : ℕ) (pk : List ℕ) → drop 8 (Spatial.build_key cx cy pk) ≡ pk
unfolding Spatial.build_key encode_hilbert_be
drop-build_key cx cy pk =
    let h : ℕ = hilbert_xy2d_64 (double_to_lex_uint32 cx) (double_to_lex_uint32 cy) in
    rw (length-be_bytes 8 h) at (drop-append_seam (be_bytes 8 h) pk)

module _ {Row : Type 0} (e : Env) (d : TableDef Row) where
  box_entries-owned :
      (parts : List (Part Row)) (pk : List ℕ) (box : Option Mbr)
      → All (λ x. drop 8 x.0 ≡ pk) (box_entries e d pk box)
  unfolding box_entries
  box_entries-owned parts pk none = tt
  box_entries-owned parts pk (some m) = (drop-build_key _ _ pk, tt)

  spatial_entries-owned :
      (parts : List (Part Row)) (geometry pk : List ℕ)
      → All (λ x. owner_in rtree parts x.0 ≡ pk) (spatial_entries e d geometry pk)
  unfolding spatial_entries owner_in
  spatial_entries-owned parts geometry pk =
      if_cases (λ (es : List Entry). All (λ x. drop 8 x.0 ≡ pk) es) (ltb 0 (length geometry)) _ _
        (λ some_bytes. box_entries-owned parts pk (spatial_compute_mbr geometry)) (λ empty. tt)

  regular_entry-owned :
      (ix : Index Row) (row : Row) (pk : List ℕ)
      → All IsPart ix.parts
      → pk_from_record e.stale d pk row ≡ pk
      → drop (parts_length ix.parts) (sec_idx_key e.stale d pk ix row) ≡ pk
  unfolding sec_idx_key
  regular_entry-owned ix row pk ok own =
      rw (own, ← length-make_comparable_key e.stale ix.parts row ok)
        (drop-append_seam (make_comparable_key e.stale ix.parts row) pk)

  owned_in :
      (kind : Kind) (ix : Index Row) (row : Row) (pk : List ℕ)
      → All IsPart ix.parts
      → pk_from_record e.stale d pk row ≡ pk
      → All (λ x. owner_in kind ix.parts x.0 ≡ pk) (entries_of e d kind ix row pk)
  unfolding entries_of owner_in
  owned_in regular ix row pk ok own = (regular_entry-owned ix row pk ok own, tt)
  owned_in fulltext ix row pk ok own =
      term_entries-owned ix.parts (word_count e d ix row) pk (tf_map (tokens e d ix row))
  owned_in rtree ix row pk ok own = spatial_entries-owned ix.parts (ix.geometry row) pk

  -- The entries that a row with this primary key has in an index belong to it.
  pub entries-Owned :
      (ix : Index Row) (row : Row) (pk : List ℕ)
      → All IsPart ix.parts
      → pk_from_record e.stale d pk row ≡ pk
      → All (Owned ix pk) (entries e d ix row pk)
  unfolding entries owner_of
  entries-Owned ix row pk ok own = owned_in ix.kind ix row pk ok own

-- What belongs to another row is not under any of these keys.
pub hit-foreign :
    {Row : Type 0} (ix : Index Row) (pk : List ℕ) (es : List Entry) (k : List ℕ)
    → All (Owned ix pk) es
    → bytes_eq (owner_of ix k) pk ≡ false
    → hit es k ≡ false
unfolding hit
hit-foreign ix pk [] k own other = refl
hit-foreign ix pk ((j, v) ∷ es) k own other =
    if_cases (λ (b : Bool). b ≡ false) (bytes_eq j k) _ _
      (λ e. absurd (is_other (own_key j k e own.0) other)) (λ e. hit-foreign ix pk es k own.1 other)
  where
    own_key : (j k : List ℕ) → bytes_eq j k ≡ true → owner_of ix j ≡ pk → owner_of ix k ≡ pk
    own_key j k e o = rw (← bytes_eq→eq j k e) o

    is_other : owner_of ix k ≡ pk → bytes_eq (owner_of ix k) pk ≡ false → ⊥
    is_other o n = let q = rw (o, bytes_eq_refl pk) at n in cc
