-- ===== src/Base/Bytes.antt =====
-- Big-endian bytes of a number, and `memcmp`. The loop
-- `for (i = 0; i < n; i++) out[i] = (uint8_t)(x >> ((n - 1 - i) * 8))` has `left = n - 1 - i`.
use Prim.Native.Nat.{ℕ, zero, suc, ◌+◌, ◌*◌, ◌/◌, ◌%◌, ◌^◌, ◌<◌, compare, Ordering, bit_or}
use mathlib.Core.Path.{◌≡◌, refl, sym, ap, ◌∙◌}
use mathlib.Core.List.{List, [], ◌∷◌, ◌++◌}
use native.Mathlib.Nat.{one-le-pow, pow-suc, div-add-mod, div-div-eq-div-mul, mod-lt}
use native.Mathlib.Omega.{arith}
use tidesdb_mysql.Base.Lists.{length, All}
use tidesdb_mysql.Base.Bits.{bit_or_high}

abbrev pub IsByte : ℕ → Type 0
IsByte b = b < 256

unfoldable pub be_bytes : ℕ → ℕ → List ℕ
be_bytes zero x = []
be_bytes (suc left) x = x / 256 ^ left % 256 ∷ be_bytes left x

-- `for (i = 0; i < n; i++) h = (h << 8) | in[i];` on a uint64_t.
unfoldable pub of_be : ℕ → List ℕ → ℕ
of_be h [] = h
of_be h (b ∷ bs) = of_be (bit_or (h * 2 ^ 8 % 2 ^ 64) b) bs

pub then_compare : Ordering → Ordering → Ordering
then_compare Ordering.lt o = Ordering.lt
then_compare Ordering.gt o = Ordering.gt
then_compare Ordering.eq o = o

-- The sign of C's `memcmp` over the shorter of two buffers.
unfoldable pub memcmp : List ℕ → List ℕ → Ordering
unfolding then_compare
memcmp [] ys = Ordering.eq
memcmp (x ∷ xs) [] = Ordering.eq
memcmp (x ∷ xs) (y ∷ ys) = then_compare (compare x y) (memcmp xs ys)

pub length-be_bytes : (n x : ℕ) → length (be_bytes n x) ≡ n
unfolding be_bytes
length-be_bytes zero x = refl
length-be_bytes (suc n) x = ap suc (length-be_bytes n x)

pub be_bytes-IsByte : (n x : ℕ) → All IsByte (be_bytes n x)
unfolding be_bytes
be_bytes-IsByte zero x = tt
be_bytes-IsByte (suc n) x = (omega arith, be_bytes-IsByte n x)

base_pos : (n : ℕ) → 0 < 256 ^ n
base_pos n = one-le-pow n 256 (omega arith)

-- The leading digit of a remainder.
mod_split : (x b : ℕ) → 0 < b → x % (b * 256) ≡ x / b % 256 * b + x % b
mod_split x b h =
    let q : x / b ≡ x / (b * 256) * 256 + x / b % 256 = omega (arith, div-div-eq-div-mul x b 256) in
    omega (arith, ap (λ (t : ℕ). t * b) q, div-add-mod x b, div-add-mod x (b * 256))

pub of_be-be_bytes :
    (n h x : ℕ)
    → h * 256 ^ n + x % 256 ^ n < 2 ^ 64
    → of_be h (be_bytes n x) ≡ h * 256 ^ n + x % 256 ^ n
unfolding of_be be_bytes
of_be-be_bytes zero h x l = omega arith
of_be-be_bytes (suc n) h x l =
    let b : ℕ = 256 ^ n in
    let d : ℕ = x / b % 256 in
    let p : 256 ^ suc n ≡ b * 256 = pow-suc 256 n in
    let m : x % 256 ^ suc n ≡ d * b + x % b = rw p (mod_split x b (base_pos n)) in
    let l' : (h * 256 + d) * b + x % b < 2 ^ 64 = omega (arith, ap (λ (t : ℕ). h * t) p) in
    let small : h * 256 + d < 2 ^ 64 = grind (arith, base_pos n) in
    let w : h * 2 ^ 8 % 2 ^ 64 ≡ h * 2 ^ 8 = omega arith in
    let e : bit_or (h * 2 ^ 8 % 2 ^ 64) d ≡ h * 256 + d = rw w (bit_or_high 8 h d (omega arith)) in
    ap (λ (t : ℕ). of_be t (be_bytes n x)) e
    ∙ of_be-be_bytes n (h * 256 + d) x l'
    ∙ omega (arith, ap (λ (t : ℕ). h * t) p)

pub digits_lt : (b c d r s : ℕ) → r < b → c < d → c * b + r < d * b + s
digits_lt b c d r s p q = grind arith

digits_eq : (b c d : ℕ) → c ≡ d → c * b ≡ d * b
digits_eq b c d e = ap (λ (t : ℕ). t * b) e

-- Comparing two-digit numbers is comparing the high digits, then the low ones.
compare_digits :
    (b c d r s : ℕ)
    → r < b
    → s < b
    → compare (c * b + r) (d * b + s) ≡ then_compare (compare c d) (compare r s)
unfolding then_compare
compare_digits b c d r s p q =
    ground (arith, digits_lt b c d r s, digits_lt b d c s r, digits_eq b c d)

-- Byte order on the encodings is numeric order.
pub memcmp-be_bytes :
    (n x y : ℕ) → memcmp (be_bytes n x) (be_bytes n y) ≡ compare (x % 256 ^ n) (y % 256 ^ n)
unfolding memcmp be_bytes
memcmp-be_bytes zero x y = ground arith
memcmp-be_bytes (suc n) x y =
    let b : ℕ = 256 ^ n in
    let p : 256 ^ suc n ≡ b * 256 = pow-suc 256 n in
    let rest = memcmp-be_bytes n x y in
    rw (p, mod_split x b (base_pos n), mod_split y b (base_pos n), rest)
      (sym (compare_digits b _ _ _ _ (mod-lt x (base_pos n)) (mod-lt y (base_pos n))))

then_compare_assoc :
    (a b c : Ordering) → then_compare (then_compare a b) c ≡ then_compare a (then_compare b c)
unfolding then_compare
then_compare_assoc a b c = ground arith

-- Comparing buffers whose first parts are of the same length compares these, and then the rest.
pub memcmp-append :
    (xs ys xs' ys' : List ℕ)
    → length xs ≡ length ys
    → memcmp (xs ++ xs') (ys ++ ys') ≡ then_compare (memcmp xs ys) (memcmp xs' ys')
unfolding memcmp then_compare
memcmp-append [] [] xs' ys' e = refl
memcmp-append [] (y ∷ ys) xs' ys' e = absurd (ground arith)
memcmp-append (x ∷ xs) [] xs' ys' e = absurd (ground arith)
memcmp-append (x ∷ xs) (y ∷ ys) xs' ys' e =
    rw (memcmp-append xs ys xs' ys' (ground arith)) (sym (then_compare_assoc (compare x y) _ _))
