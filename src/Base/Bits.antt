-- ===== src/Base/Bits.antt =====
-- C's `|`, `&` and `^` on unsigned numbers, as arithmetic: fields that do not overlap, a mask of low
-- bits, and a single bit. The native operations are recursions on binary digits with fuel.
use Prim.Native.Nat.{ℕ, zero, suc, ◌+◌, ◌-◌, ◌*◌, ◌/◌, ◌%◌, ◌^◌, ◌≤◌, ◌<◌, min, max, digits}
use Prim.Native.Nat.{bit_and, bit_or, bit_xor, differ}
use Prim.Native.Nat.{bit_and-bitwise, bit_or-bitwise, bit_xor-bitwise}
use mathlib.Core.Path.{◌≡◌, refl, ap, ◌∙◌}
use native.Mathlib.Nat.{pow-suc, one-le-pow, le_refl}
use native.Mathlib.Omega.{arith}

-- A shifted field loses its lowest digit when halved.
pow_double : (q k : ℕ) → q * 2 ^ suc k ≡ 2 * (q * 2 ^ k)
pow_double q k = omega (arith, ap (λ (t : ℕ). q * t) (pow-suc 2 k))

pow_pos : (k : ℕ) → 0 < 2 ^ k
pow_pos k = one-le-pow k 2 (omega arith)

or_fuel_low :
    (n k r q : ℕ) → r ≤ n → r < 2 ^ k → digits (λ b. b) max n r (q * 2 ^ k) ≡ r + q * 2 ^ k
or_fuel_low zero k zero q h l = omega arith
or_fuel_low zero k (suc r) q h l = absurd (omega arith)
or_fuel_low (suc n) k zero q h l = omega arith
or_fuel_low (suc n) zero (suc r) q h l = absurd (omega (arith, l))
or_fuel_low (suc n) (suc k) (suc r) q h l =
    let half = pow_double q k in
    let p = pow-suc 2 k in
    let e : q * 2 ^ suc k / 2 ≡ q * 2 ^ k = omega arith in
    rw e (omega (arith, or_fuel_low n k (suc r / 2) q (omega arith) (omega arith)))

or_fuel_high :
    (n k r q : ℕ)
    → q * 2 ^ k ≤ n
    → r < 2 ^ k
    → (a : ℕ) → a ≡ q * 2 ^ k
    → digits (λ b. b) max n a r ≡ a + r
or_fuel_high zero k r q h l zero e = omega arith
or_fuel_high zero k r q h l (suc a) e = absurd (omega arith)
or_fuel_high (suc n) k r q h l zero e = omega arith
or_fuel_high (suc n) zero r q h l (suc a) e =
    let z : r ≡ 0 = omega (arith, l) in
    rw z (
      omega (
        arith,
        or_fuel_high n zero 0 (suc a / 2) (omega arith) (omega arith) (suc a / 2) (omega arith),
      ))
or_fuel_high (suc n) (suc k) r q h l (suc a) e =
    let half = pow_double q k in
    let p = pow-suc 2 k in
    omega (arith, or_fuel_high n k (r / 2) q (omega arith) (omega arith) (suc a / 2) (omega arith))

-- `r | (q << k)` where `r` fits `k` bits.
pub bit_or_low : (k r q : ℕ) → r < 2 ^ k → bit_or r (q * 2 ^ k) ≡ r + q * 2 ^ k
bit_or_low k r q l = bit_or-bitwise r (q * 2 ^ k) ∙ or_fuel_low r k r q (le_refl r) l

-- `(q << k) | r` where `r` fits `k` bits.
pub bit_or_high : (k q r : ℕ) → r < 2 ^ k → bit_or (q * 2 ^ k) r ≡ q * 2 ^ k + r
bit_or_high k q r l =
    bit_or-bitwise (q * 2 ^ k) r ∙ or_fuel_high (q * 2 ^ k) k r q (le_refl _) l (q * 2 ^ k) refl

and_fuel_mask :
    (n k a q r : ℕ)
    → a ≤ n
    → a ≡ q * 2 ^ k + r
    → r < 2 ^ k
    → digits (λ b. zero) min n a (2 ^ k - 1) ≡ r
and_fuel_mask zero k zero q r h e l = omega arith
and_fuel_mask zero k (suc a) q r h e l = absurd (omega arith)
and_fuel_mask (suc n) k zero q r h e l = omega arith
and_fuel_mask (suc n) zero (suc a) q r h e l = omega (
  arith,
  and_fuel_mask n zero (suc a / 2) (suc a / 2) 0 (omega arith) (omega arith) (omega arith),
)
and_fuel_mask (suc n) (suc k) (suc a) q r h e l =
    let half = pow_double q k in
    let p = pow-suc 2 k in
    let m : (2 ^ suc k - 1) / 2 ≡ 2 ^ k - 1 = omega (arith, pow_pos k) in
    rw m (
      omega (
        arith,
        pow_pos k,
        and_fuel_mask n k (suc a / 2) q (r / 2) (omega arith) (omega arith) (omega arith),
      ))

-- `x & (2^k - 1)` is the remainder by `2 ^ k`.
pub bit_and_mask : (k a : ℕ) → bit_and a (2 ^ k - 1) ≡ a % 2 ^ k
bit_and_mask k a =
    bit_and-bitwise a (2 ^ k - 1)
    ∙ and_fuel_mask a k a (a / 2 ^ k) (a % 2 ^ k) (le_refl a) (grind (arith, pow_pos k))
        (grind (arith, pow_pos k))

and_fuel_zero : (n a : ℕ) → digits (λ b. zero) min n a 0 ≡ 0
and_fuel_zero zero a = refl
and_fuel_zero (suc n) zero = refl
and_fuel_zero (suc n) (suc a) = omega (arith, and_fuel_zero n (suc a / 2))

and_fuel_bit :
    (n k a q d r : ℕ)
    → a ≤ n
    → a ≡ q * 2 ^ suc k + d * 2 ^ k + r
    → d ≤ 1
    → r < 2 ^ k
    → digits (λ b. zero) min n a (2 ^ k) ≡ d * 2 ^ k
and_fuel_bit zero k zero q d r h e l m = grind (arith, pow_pos k)
and_fuel_bit zero k (suc a) q d r h e l m = absurd (omega arith)
and_fuel_bit (suc n) k zero q d r h e l m = grind (arith, pow_pos k)
and_fuel_bit (suc n) zero (suc a) q d r h e l m =
    let one : 2 ^ 0 / 2 ≡ 0 = refl in rw one (omega (arith, and_fuel_zero n (suc a / 2)))
and_fuel_bit (suc n) (suc k) (suc a) q d r h e l m =
    let half = pow_double q (suc k) in
    let half' = pow_double d k in
    let p = pow-suc 2 k in
    let c : 2 ^ suc k / 2 ≡ 2 ^ k = omega arith in
    rw c (
      omega (
        arith,
        and_fuel_bit n k (suc a / 2) q d (r / 2) (omega arith) (omega arith) l (omega arith),
      ))

-- `x & (1 << k)` for the digit `d` of `x` at place `k`.
pub bit_and_pow :
    (k q d r : ℕ) → d ≤ 1 → r < 2 ^ k → bit_and (q * 2 ^ suc k + d * 2 ^ k + r) (2 ^ k) ≡ d * 2 ^ k
bit_and_pow k q d r l m =
    bit_and-bitwise (q * 2 ^ suc k + d * 2 ^ k + r) (2 ^ k)
    ∙ and_fuel_bit (q * 2 ^ suc k + d * 2 ^ k + r) k (q * 2 ^ suc k + d * 2 ^ k + r) q d r
        (le_refl _) refl l m

differ-zero : (d : ℕ) → differ d 0 ≡ d
differ-zero zero = refl
differ-zero (suc d) = refl

differ-one : (d : ℕ) → d ≤ 1 → differ d 1 ≡ 1 - d
differ-one zero h = refl
differ-one (suc zero) h = refl
differ-one (suc (suc d)) h = absurd (omega arith)

xor_fuel_zero : (n a : ℕ) → a ≤ n → digits (λ b. b) differ n a 0 ≡ a
xor_fuel_zero zero zero h = refl
xor_fuel_zero zero (suc a) h = absurd (omega arith)
xor_fuel_zero (suc n) zero h = refl
xor_fuel_zero (suc n) (suc a) h =
    omega (arith, xor_fuel_zero n (suc a / 2) (omega arith), differ-zero (suc a % 2))

xor_fuel_bit :
    (n k a q d r : ℕ)
    → a ≤ n
    → a ≡ q * 2 ^ suc k + d * 2 ^ k + r
    → d ≤ 1
    → r < 2 ^ k
    → digits (λ b. b) differ n a (2 ^ k) ≡ q * 2 ^ suc k + (1 - d) * 2 ^ k + r
xor_fuel_bit zero k zero q d r h e l m = grind (arith, pow_pos k, pow-suc 2 k)
xor_fuel_bit zero k (suc a) q d r h e l m = absurd (omega arith)
xor_fuel_bit (suc n) k zero q d r h e l m = grind (arith, pow_pos k, pow-suc 2 k)
xor_fuel_bit (suc n) zero (suc a) q d r h e l m =
    let one : 2 ^ 0 / 2 ≡ 0 = refl in
    let odd : suc a % 2 ≡ d = omega arith in
    let flip : differ (suc a % 2) (2 ^ 0 % 2) ≡ 1 - d = rw odd (differ-one d l) in
    rw one (omega (arith, xor_fuel_zero n (suc a / 2) (omega arith), flip))
xor_fuel_bit (suc n) (suc k) (suc a) q d r h e l m =
    let half = pow_double q (suc k) in
    let half' = pow_double d k in
    let half'' = pow_double (1 - d) k in
    let p = pow-suc 2 k in
    let c : 2 ^ suc k / 2 ≡ 2 ^ k = omega arith in
    let even : 2 ^ suc k % 2 ≡ 0 = omega arith in
    rw (c, even, differ-zero)
      (omega (
        arith,
        xor_fuel_bit n k (suc a / 2) q d (r / 2) (omega arith) (omega arith) l (omega arith),
      ))

-- `x ^ (1 << k)` flips the digit `d` of `x` at place `k`.
pub bit_xor_pow :
    (k q d r : ℕ)
    → d ≤ 1
    → r < 2 ^ k
    → bit_xor (q * 2 ^ suc k + d * 2 ^ k + r) (2 ^ k) ≡ q * 2 ^ suc k + (1 - d) * 2 ^ k + r
bit_xor_pow k q d r l m =
    bit_xor-bitwise (q * 2 ^ suc k + d * 2 ^ k + r) (2 ^ k)
    ∙ xor_fuel_bit (q * 2 ^ suc k + d * 2 ^ k + r) k (q * 2 ^ suc k + d * 2 ^ k + r) q d r
        (le_refl _) refl l m
