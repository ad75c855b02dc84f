-- ===== src/Rows/KeyLength.antt =====
-- How long the keys of plugin/ha_tidesdb.cc are.
use tidesdb_mysql.Base.{
  ℕ, ◌-◌, ◌^◌, ◌≤◌, ◌<◌, ◌≡◌, refl, min, true, List, [], ◌∷◌, ◌++◌, ltb, arith, All, if_cases,
  length, take, drop, replicate, length-append, length-take, length-drop, length-replicate,
  length-be_bytes,
}
use tidesdb_mysql.Rows.{Part}
use tidesdb_mysql.Rows.Key.{
  fit, len_bytes, data_space, varbinary_tail, varbinary_key, part_key, make_comparable_key,
  part_length, parts_length,
}

-- The length bytes of a VARBINARY part have room in the part.
abbrev pub IsPart : {Row : Type 0} → Part Row → Type 0
IsPart p = p.binary_varstring ≡ true → (len_bytes p.field_length ≤ p.length) × (p.length < 2 ^ 32)

pub length-fit : (n : ℕ) (xs : List ℕ) → length (fit n xs) ≡ n
unfolding fit
length-fit n xs = omega (
  arith,
  length-take n (xs ++ replicate n 0),
  length-append xs (replicate n 0),
  length-replicate {A = ℕ} n 0,
)

length-varbinary_tail :
    (stale : List ℕ) (space n : ℕ) (value : List ℕ)
    → length (varbinary_tail stale space n value) ≡ n
unfolding varbinary_tail
length-varbinary_tail stale space n value =
    let over = min (length value - space) n in
    if_cases (λ (t : List ℕ). length t ≡ n) (ltb space (length value)) _ _
      (λ more. omega (
        arith,
        length-append (take over (drop space value)) (take (n - over) (drop over (fit n stale))),
        length-take over (drop space value),
        length-drop space value,
        length-take (n - over) (drop over (fit n stale)),
        length-drop over (fit n stale),
        length-fit n stale,
      ))
      (λ fits. length-be_bytes n (length value))

length-varbinary_key :
    {Row : Type 0} (stale : List ℕ) (p : Part Row) (row : Row)
    → len_bytes p.field_length ≤ p.length
    → p.length < 2 ^ 32
    → length (varbinary_key stale p row) ≡ p.length
unfolding varbinary_key
length-varbinary_key stale p row room small =
    let space = data_space p.length p.field_length in
    let n = len_bytes p.field_length in
    let v = p.value row in
    omega (
      arith,
      length-append (fit space v) (varbinary_tail stale space n v),
      length-fit space v,
      length-varbinary_tail stale space n v,
    )

length-part_key :
    {Row : Type 0} (stale : List ℕ) (p : Part Row) (row : Row)
    → IsPart p
    → length (part_key stale p row) ≡ part_length p
unfolding part_key
length-part_key stale p row ok = ground (
  arith,
  length-varbinary_key stale p row,
  length-fit p.length (p.sort_key row),
  length-replicate {A = ℕ} p.length 0,
)

-- Whatever the row holds, its key is as long as the definition of the parts says, so that a key can be
-- cut from what follows it; this asks that a VARBINARY part is as long as its length bytes.
pub length-make_comparable_key :
    {Row : Type 0} (stale : ℕ → List ℕ) (parts : List (Part Row)) (row : Row)
    → All IsPart parts
    → length (make_comparable_key stale parts row) ≡ parts_length parts
unfolding make_comparable_key
length-make_comparable_key stale [] row ok = refl
length-make_comparable_key stale (p ∷ parts) row ok = omega (
  arith,
  length-append (part_key (stale (length parts)) p row) (make_comparable_key stale parts row),
  length-part_key (stale (length parts)) p row ok.0,
  length-make_comparable_key stale parts row ok.1,
)
