-- ===== src/Spatial.antt =====
-- plugin/tidesdb_spatial.cc: the keys and the filters of a spatial index. A double is its 64 bits, a
-- number below 2 ^ 64, and a buffer is the list of its bytes.
pub mod Lex
pub mod Filter
pub mod Ranges
pub mod Wkb
pub mod Fuel
pub mod Examples
use tidesdb_mysql.Base.{
  ℕ, zero, suc, ◌+◌, ◌-◌, ◌*◌, ◌/◌, ◌%◌, ◌^◌, bit_and, bit_xor, Bool, true, false, not, ◌&&◌, ◌||◌,
  List, [], ◌∷◌, ◌++◌, if◌then◌else◌, ltb, leb, ◌==◌, length, drop, take, be_bytes, of_be,
}

abbrev pub sign_mask : ℕ
sign_mask = 2 ^ 63

-- `~bits` is the difference to 2 ^ 64 - 1.
pub double_to_lex_uint32 : ℕ → ℕ
double_to_lex_uint32 bits =
    if bit_and bits sign_mask == 0
    then bit_xor bits sign_mask / 2 ^ 32 % 2 ^ 32
    else (2 ^ 64 - 1 - bits) / 2 ^ 32 % 2 ^ 32

-- `(uint32_t)(n - 1) - v`.
abbrev pub mirror : ℕ → ℕ → ℕ
mirror n v = ((n - 1) % 2 ^ 32 + 2 ^ 32 - v) % 2 ^ 32

pub hilbert_rot : ℕ → ℕ × ℕ → ℕ → ℕ → ℕ × ℕ
hilbert_rot n (x, y) rx ry =
    if ry == 0 then if rx == 1 then (mirror n y, mirror n x) else (y, x) else (x, y)

-- The loop over the bits that are left, from `s = 2 ^ (k - 1)` down.
pub hilbert_loop : ℕ → ℕ → ℕ → ℕ → ℕ
hilbert_loop zero d x y = d
hilbert_loop (suc k) d x y =
    let s = 2 ^ k in
    let rx = if ltb 0 (bit_and x s) then 1 else 0 in
    let ry = if ltb 0 (bit_and y s) then 1 else 0 in
    let (x', y') = hilbert_rot (2 * s) (x, y) rx ry in
    hilbert_loop k ((d + s * s * bit_xor (3 * rx) ry % 2 ^ 64) % 2 ^ 64) x' y'

abbrev pub hilbert_order : ℕ
hilbert_order = 32

pub hilbert_xy2d_64 : ℕ → ℕ → ℕ
hilbert_xy2d_64 x y = hilbert_loop hilbert_order 0 x y

unfoldable pub encode_hilbert_be : ℕ → List ℕ
encode_hilbert_be h = be_bytes 8 h

pub decode_hilbert_be : List ℕ → ℕ
decode_hilbert_be buf = of_be 0 (take 8 buf)

unfoldable pub build_key : ℕ → ℕ → List ℕ → List ℕ
build_key cx cy pk =
    encode_hilbert_be (hilbert_xy2d_64 (double_to_lex_uint32 cx) (double_to_lex_uint32 cy)) ++ pk

-- Where a double stands in the order of the doubles that are numbers; both zeros stand at 2 ^ 63.
pub rank : ℕ → ℕ
rank bits = if ltb bits sign_mask then sign_mask + bits else sign_mask - (bits - sign_mask)

pub is_nan : ℕ → Bool
is_nan bits = ltb 0x7ff0000000000000 (bits % 2 ^ 63)

-- The comparisons of C++: every one with a NaN is false.
pub lt_double : ℕ → ℕ → Bool
lt_double a b = not (is_nan a) && not (is_nan b) && ltb (rank a) (rank b)

pub le_double : ℕ → ℕ → Bool
le_double a b = not (is_nan a) && not (is_nan b) && leb (rank a) (rank b)

pub eq_double : ℕ → ℕ → Bool
eq_double a b = not (is_nan a) && not (is_nan b) && rank a == rank b

pub record Mbr : Type 0 where
  pub xmin : ℕ
  pub ymin : ℕ
  pub xmax : ℕ
  pub ymax : ℕ

pub mbr_intersects : Mbr → Mbr → Bool
mbr_intersects a b = not (
    lt_double a.xmax b.xmin
    || lt_double b.xmax a.xmin
    || lt_double a.ymax b.ymin
    || lt_double b.ymax a.ymin)

pub mbr_within : Mbr → Mbr → Bool
mbr_within a b =
    le_double b.xmin a.xmin
    && le_double a.xmax b.xmax
    && le_double b.ymin a.ymin
    && le_double a.ymax b.ymax

pub mbr_equals : Mbr → Mbr → Bool
mbr_equals a b =
    eq_double a.xmin b.xmin
    && eq_double a.xmax b.xmax
    && eq_double a.ymin b.ymin
    && eq_double a.ymax b.ymax

pub mbr_disjoint : Mbr → Mbr → Bool
mbr_disjoint a b = not (mbr_intersects a b)

pub data Mode : Type 0 where
  mbr_intersect mbr_contain mbr_within_mode mbr_equal mbr_disjoint_mode other_mode : Mode

pub spatial_mbr_predicate : Mode → Mbr → Mbr → Bool
spatial_mbr_predicate mbr_intersect query entry = mbr_intersects entry query
spatial_mbr_predicate mbr_contain query entry = mbr_within entry query
spatial_mbr_predicate mbr_within_mode query entry = mbr_within entry query
spatial_mbr_predicate mbr_equal query entry = mbr_equals entry query
spatial_mbr_predicate mbr_disjoint_mode query entry = mbr_disjoint entry query
spatial_mbr_predicate other_mode query entry = false
