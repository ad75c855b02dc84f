-- ===== src/Spatial/Lex.antt =====
-- The order of the coordinates that the keys of plugin/tidesdb_spatial.cc are made from.
use tidesdb_mysql.Base.{
  ℕ, ◌<◌, ◌≤◌, ◌+◌, ◌-◌, ◌*◌, ◌/◌, ◌^◌, ◌≡◌, ◌∙◌, ap, arith, true, Bool-cases, inl, inr, bit_and,
  bit_xor, bit_and_pow, bit_xor_pow, ltb,
}
use tidesdb_mysql.Spatial.{double_to_lex_uint32, rank, lt_double}

lex_positive : (b : ℕ) → b < 2 ^ 63 → double_to_lex_uint32 b ≡ (b + 2 ^ 63) / 2 ^ 32
unfolding double_to_lex_uint32
lex_positive b l =
    let sum : b ≡ 0 * 2 ^ 64 + 0 * 2 ^ 63 + b = omega arith in
    let a : bit_and b (2 ^ 63) ≡ 0 * 2 ^ 63 =
      ap (λ (t : ℕ). bit_and t (2 ^ 63)) sum ∙ bit_and_pow 63 0 0 b (omega arith) l in
    let x : bit_xor b (2 ^ 63) ≡ 0 * 2 ^ 64 + (1 - 0) * 2 ^ 63 + b =
      ap (λ (t : ℕ). bit_xor t (2 ^ 63)) sum ∙ bit_xor_pow 63 0 0 b (omega arith) l in
    rw (a, x) (omega arith)

lex_negative : (b : ℕ) → b < 2 ^ 63 → double_to_lex_uint32 (2 ^ 63 + b) ≡ (2 ^ 63 - 1 - b) / 2 ^ 32
unfolding double_to_lex_uint32
lex_negative b l =
    let sum : 2 ^ 63 + b ≡ 0 * 2 ^ 64 + 1 * 2 ^ 63 + b = omega arith in
    let a : bit_and (2 ^ 63 + b) (2 ^ 63) ≡ 1 * 2 ^ 63 =
      ap (λ (t : ℕ). bit_and t (2 ^ 63)) sum ∙ bit_and_pow 63 0 1 b (omega arith) l in
    rw a (omega arith)

rank_mono :
    (a b : ℕ)
    → a < 2 ^ 64
    → b < 2 ^ 64
    → rank a < rank b
    → double_to_lex_uint32 a ≤ double_to_lex_uint32 b
unfolding rank
rank_mono a b l m r = elim (Bool-cases (ltb a (2 ^ 63))) [
  | inl pos_a ↦ elim (Bool-cases (ltb b (2 ^ 63))) [
    | inl pos_b ↦ rw (lex_positive a (ground arith), lex_positive b (ground arith)) ground arith
    | inr neg_b ↦ absurd (ground arith)
  ]
  | inr neg_a ↦
      let a' : a ≡ 2 ^ 63 + (a - 2 ^ 63) = ground arith in
      elim (Bool-cases (ltb b (2 ^ 63))) [
        | inl pos_b ↦
            rw (a', lex_negative (a - 2 ^ 63) (ground arith), lex_positive b (ground arith)) ground
              arith
        | inr neg_b ↦
            let b' : b ≡ 2 ^ 63 + (b - 2 ^ 63) = ground arith in
            rw
              (
                a',
                b',
                lex_negative (a - 2 ^ 63) (ground arith),
                lex_negative (b - 2 ^ 63) (ground arith),
              )
              ground arith
      ]
]

-- Where one double is less than another, as C++ compares them, the 32 bits that it is cut to are at most
-- those of the other, as unsigned numbers, whatever the signs are.
pub double_to_lex_uint32_mono :
    (a b : ℕ)
    → a < 2 ^ 64
    → b < 2 ^ 64
    → lt_double a b ≡ true
    → double_to_lex_uint32 a ≤ double_to_lex_uint32 b
unfolding lt_double
double_to_lex_uint32_mono a b l m less = rank_mono a b l m (ground arith)
