-- ===== src/Rows/Slots.antt =====
-- The columns of a record of plugin/ha_tidesdb.cc: their bytes and null bits do not overlap.
use tidesdb_mysql.Base.{
  ℕ, zero, suc, ◌+◌, ◌<◌, ◌≤◌, ◌≡◌, ◌⊎◌, inl, inr, sym, ap, ◌∙◌, Bool, true, false, ◌&&◌, List, [],
  ◌∷◌, ◌==◌, take, drop, Bool-cases, All,
}
use tidesdb_mysql.Rows.Deserialize.{Buffer, Slot, bit_at, is_real_null}
use tidesdb_mysql.Rows.Addresses.{NullsApart}

-- An address that is not among those of the column.
unfoldable pub Outside : Slot → ℕ → Type 0
Outside s j = (j < s.offset) ⊎ (s.offset + s.pack_length ≤ j)

-- Two columns of a record: no address and no null bit in common.
pub record Apart (s t : Slot) : Type 0 where
  pub ranges : (k : ℕ) → k < t.pack_length → Outside s (t.offset + k)
  pub ranges' : (k : ℕ) → k < s.pack_length → Outside t (s.offset + k)
  pub nulls : NullsApart s t

unfoldable pub AllApart : List Slot → Type 0
AllApart [] = Unit
AllApart (s ∷ ss) = All (Apart s) ss × AllApart ss

-- The columns of two definitions of a table, one by one, as far as both go.
unfoldable pub Zip : (Slot → Slot → Type 0) → List Slot → List Slot → Type 0
Zip P [] ts = Unit
Zip P (s ∷ ss) [] = Unit
Zip P (s ∷ ss) (t ∷ ts) = P s t × Zip P ss ts

-- A column in the record: behind the null bitmap, and unpack writes nowhere else.
pub record Fits (n : ℕ) (t : Slot) : Type 0 where
  pub behind : n ≤ t.offset
  pub null_in : t.nullable ≡ true → t.null_byte < n
  pub writes :
      t.copied ≡ false
      → (from : List ℕ) (b : Buffer) (j : ℕ) → Outside t j
      → (t.unpack from b).0 j ≡ b j

abbrev pub SameNull : Buffer → Buffer → Slot → Slot → Type 0
SameNull row b s t = is_real_null t b ≡ is_real_null s row

pub is_real_null-agree :
    (n : ℕ) (t : Slot) (b c : Buffer)
    → Fits n t
    → ((j : ℕ) → j < n → b j ≡ c j)
    → is_real_null t b ≡ is_real_null t c
unfolding is_real_null
is_real_null-agree n t b c f h = elim (Bool-cases t.nullable) [
  | inl set ↦ ap (λ (x : ℕ). t.nullable && bit_at t.null_bit x == 1) (h t.null_byte (f.null_in set))
  | inr unset ↦
      ap (λ (x : Bool). x && bit_at t.null_bit (b t.null_byte) == 1) unset
      ∙ sym (ap (λ (x : Bool). x && bit_at t.null_bit (c t.null_byte) == 1) unset)
]

pub Zip-map :
    (P Q : Slot → Slot → Type 0) (ss ts : List Slot) (R : Slot → Type 0)
    → ((s t : Slot) → R t → P s t → Q s t)
    → All R ts
    → Zip P ss ts
    → Zip Q ss ts
unfolding Zip
Zip-map P Q [] ts R h r p = tt
Zip-map P Q (s ∷ ss) [] R h r p = tt
Zip-map P Q (s ∷ ss) (t ∷ ts) R h r p = (h s t r.0 p.0, Zip-map P Q ss ts R h r.1 p.1)

pub All-take : (P : Slot → Type 0) (n : ℕ) (ts : List Slot) → All P ts → All P (take n ts)
All-take P zero ts a = tt
All-take P (suc n) [] a = tt
All-take P (suc n) (t ∷ ts) a = (a.0, All-take P n ts a.1)

pub All-drop : (P : Slot → Type 0) (n : ℕ) (ts : List Slot) → All P ts → All P (drop n ts)
All-drop P zero ts a = a
All-drop P (suc n) [] a = tt
All-drop P (suc n) (t ∷ ts) a = All-drop P n ts a.1
