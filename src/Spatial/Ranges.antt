-- ===== src/Spatial/Ranges.antt =====
-- The decomposition of a query box into ranges of the Hilbert curve, plugin/tidesdb_spatial.cc.
use tidesdb_mysql.Base.{
  ℕ, zero, suc, ◌+◌, ◌-◌, ◌*◌, ◌/◌, ◌%◌, ◌^◌, min, List, [], ◌∷◌, ◌++◌, if◌then◌else◌, ltb, leb,
}
use tidesdb_mysql.Spatial.{hilbert_order, hilbert_xy2d_64}

abbrev pub spatial_decomp_bits : ℕ
spatial_decomp_bits = 8

abbrev pub shift : ℕ
shift = hilbert_order - spatial_decomp_bits

-- `while (i <= last)` for the coarse rows and columns: `left` of them, from `first` on.
pub column : ℕ → ℕ → ℕ → List ℕ
column gx first zero = []
column gx first (suc left) =
    hilbert_xy2d_64 (gx * 2 ^ shift % 2 ^ 32) (first * 2 ^ shift % 2 ^ 32)
    ∷ column gx (first + 1) left

pub grid : ℕ → ℕ → ℕ → ℕ → List ℕ
grid first zero gy rows = []
grid first (suc left) gy rows = column first gy rows ++ grid (first + 1) left gy rows

pub insert : ℕ → List ℕ → List ℕ
insert x [] = x ∷ []
insert x (y ∷ ys) = let rest = insert x ys in if leb x y then x ∷ y ∷ ys else y ∷ rest

pub sort : List ℕ → List ℕ
sort [] = []
sort (x ∷ xs) = insert x (sort xs)

abbrev pub cell_span : ℕ
cell_span = 2 ^ (2 * shift)

-- The last value of the cell that begins at `lo`.
abbrev pub last_of : ℕ → ℕ
last_of lo = (lo + cell_span - 1) % 2 ^ 64

-- The loop over the sorted cells, with the range that is being built.
pub merge : ℕ × ℕ → List ℕ → List (ℕ × ℕ)
merge range [] = range ∷ []
merge (lo, hi) (cell ∷ cells) =
    let wider = merge (lo, if ltb hi (last_of cell) then last_of cell else hi) cells in
    let fresh = merge (cell, last_of cell) cells in
    if leb cell ((hi + 1) % 2 ^ 64) then wider else (lo, hi) ∷ fresh

pub merge_cells : List ℕ → List (ℕ × ℕ)
merge_cells [] = (0, 2 ^ 64 - 1) ∷ []
merge_cells (cell ∷ cells) = merge (cell, last_of cell) cells

pub spatial_decompose_ranges : ℕ → ℕ → ℕ → ℕ → List (ℕ × ℕ)
spatial_decompose_ranges qx_min qy_min qx_max qy_max =
    let gx0 = qx_min / 2 ^ shift in
    let gy0 = qy_min / 2 ^ shift in
    let gx1 = min (qx_max / 2 ^ shift) (2 ^ spatial_decomp_bits - 1) in
    let gy1 = min (qy_max / 2 ^ shift) (2 ^ spatial_decomp_bits - 1) in
    merge_cells (sort (grid gx0 (gx1 + 1 - gx0) gy0 (gy1 + 1 - gy0)))
