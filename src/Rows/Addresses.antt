-- ===== src/Rows/Addresses.antt =====
-- Bytes at addresses and null bits, for the decoder of rows of plugin/ha_tidesdb.cc.
use tidesdb_mysql.Base.{
  ℕ, zero, suc, ◌+◌, ◌*◌, ◌/◌, ◌%◌, ◌<◌, ◌≤◌, ◌≡◌, ◌≢◌, ◌⊎◌, inl, inr, refl, sym, ap, ◌∙◌, arith,
  Bool, true, false, ◌&&◌, List, [], ◌∷◌, if◌then◌else◌, ◌==◌, length, Bool-cases, ==_iff,
}
use tidesdb_mysql.Rows.Deserialize.{
  Buffer, Slot, bytes_of, copy_to, bit_at, with_bit, is_real_null, set_null,
}

pub length-bytes_of : (b : Buffer) (a n : ℕ) → length (bytes_of b a n) ≡ n
unfolding bytes_of
length-bytes_of b a zero = refl
length-bytes_of b a (suc n) = ap suc (length-bytes_of b (suc a) n)

-- Ranges that agree.
pub bytes_of-agree :
    (n : ℕ) (b c : Buffer) (i j : ℕ)
    → ((k : ℕ) → k < n → b (i + k) ≡ c (j + k))
    → bytes_of b i n ≡ bytes_of c j n
unfolding bytes_of
bytes_of-agree zero b c i j h = refl
bytes_of-agree (suc n) b c i j h =
    let first : b i ≡ c j = ap b (omega arith) ∙ (h 0 (omega arith) ∙ ap c (omega arith)) in
    let later =
      bytes_of-agree n b c (suc i) (suc j)
        (λ k l. ap b (omega arith) ∙ (h (suc k) (omega arith) ∙ ap c (omega arith))) in
    cc

pub copy_to-outside :
    (xs : List ℕ) (a : ℕ) (b : Buffer) (j : ℕ)
    → ((j < a) ⊎ (a + length xs ≤ j))
    → copy_to a xs b j ≡ b j
unfolding copy_to
copy_to-outside [] a b j h = refl
copy_to-outside (x ∷ xs) a b j h = ground (arith, copy_to-outside xs (suc a) b j)

pub copy_to-inside :
    (n : ℕ) (c : Buffer) (i a : ℕ) (b : Buffer) (k : ℕ)
    → k < n
    → copy_to a (bytes_of c i n) b (a + k) ≡ c (i + k)
unfolding copy_to bytes_of
copy_to-inside zero c i a b k l = absurd (omega arith)
copy_to-inside (suc n) c i a b zero l =
    let here : (a + 0 == a) ≡ true = (==_iff (a + 0) a).1 (omega arith) in
    rw here (ap c (omega arith))
copy_to-inside (suc n) c i a b (suc k) l =
    let past : (a + suc k == a) ≡ false = ground arith in
    rw past (
      ap (copy_to (suc a) (bytes_of c (suc i) n) b) (omega arith)
      ∙ (copy_to-inside n c (suc i) (suc a) b k (omega arith) ∙ ap c (omega arith)))

pub bit_at-with_bit :
    (k : ℕ) (on : Bool) (x : ℕ) → bit_at k (with_bit k on x) ≡ (if on then 1 else 0)
unfolding bit_at with_bit
bit_at-with_bit zero on x = ground arith
bit_at-with_bit (suc k) on x =
    let half : (2 * with_bit k on (x / 2) + x % 2) / 2 ≡ with_bit k on (x / 2) = omega arith in
    ap (bit_at k) half ∙ bit_at-with_bit k on (x / 2)

pub bit_at-other : (k m : ℕ) (on : Bool) (x : ℕ) → k ≢ m → bit_at m (with_bit k on x) ≡ bit_at m x
unfolding bit_at with_bit
bit_at-other zero zero on x h = absurd (h refl)
bit_at-other zero (suc m) on x h = ap (bit_at m) (ground arith)
bit_at-other (suc k) zero on x h = omega arith
bit_at-other (suc k) (suc m) on x h =
    let half : (2 * with_bit k on (x / 2) + x % 2) / 2 ≡ with_bit k on (x / 2) = omega arith in
    ap (bit_at m) half ∙ bit_at-other k m on (x / 2) (λ e. h (ap suc e))

-- Setting the null bit.
pub is_real_null-set_null :
    (s : Slot) (on : Bool) (b : Buffer) → is_real_null s (set_null s on b) ≡ (s.nullable && on)
unfolding is_real_null set_null
is_real_null-set_null s on b =
    let here : (s.null_byte == s.null_byte) ≡ true = (==_iff s.null_byte s.null_byte).1 refl in
    elim (Bool-cases s.nullable) [
      | inl set ↦
          rw (set, here)
            (ap (λ (x : ℕ). x == 1) (bit_at-with_bit s.null_bit on (b s.null_byte)) ∙ ground arith)
      | inr unset ↦ rw unset refl
    ]

pub set_null-outside :
    (s : Slot) (on : Bool) (b : Buffer) (j : ℕ)
    → ((s.nullable ≡ false) ⊎ (j ≢ s.null_byte))
    → set_null s on b j ≡ b j
unfolding set_null
set_null-outside s on b j h = ground arith

-- The null bits of two columns differ.
unfoldable pub NullsApart : Slot → Slot → Type 0
NullsApart s t = (s.null_byte ≢ t.null_byte) ⊎ (s.null_bit ≢ t.null_bit)

pub is_real_null-other :
    (s t : Slot) (on : Bool) (b : Buffer)
    → NullsApart s t
    → is_real_null t (set_null s on b) ≡ is_real_null t b
unfolding is_real_null set_null NullsApart
is_real_null-other s t on b (inl h) =
    ap (λ (x : ℕ). t.nullable && bit_at t.null_bit x == 1)
      (set_null-outside s on b t.null_byte (inr (λ e. h (sym e))))
is_real_null-other s t on b (inr h) = elim (Bool-cases (s.nullable && t.null_byte == s.null_byte)) [
  | inl set ↦ rw set (
      ap (λ (x : ℕ). t.nullable && x == 1)
        (bit_at-other s.null_bit t.null_bit on (b t.null_byte) h))
  | inr unset ↦ rw unset refl
]
