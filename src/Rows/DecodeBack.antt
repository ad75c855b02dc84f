-- ===== src/Rows/DecodeBack.antt =====
-- A row that plugin/ha_tidesdb.cc encoded under one definition of the table and decodes under another,
-- which has columns added or dropped at the end.
use tidesdb_mysql.Base.{
  ℕ, ◌+◌, ◌<◌, ◌≤◌, ◌≡◌, ◌⊎◌, inl, inr, refl, sym, ap, ◌∙◌, arith, true, false, Option, none, some,
  List, [], ◌∷◌, ◌++◌, if◌then◌else◌, ◌==◌, ltb, length, take, drop, subst, Bool-cases, if_cases,
  All, length-append, take-append_seam, drop-append_seam, length-take,
}
use tidesdb_mysql.Rows.Deserialize.{
  Buffer, Slot, bytes_of, copy_to, is_real_null, unpack_slot, unpack_slots,
}
use tidesdb_mysql.Rows.Addresses.{length-bytes_of, bytes_of-agree, copy_to-outside, copy_to-inside}
use tidesdb_mysql.Rows.Slots.{Outside, Fits}

module _ {V : Type 0} (value : Slot → Buffer → V) where
  -- What a column holds.
  unfoldable pub content : Slot → Buffer → List ℕ ⊎ V
  content t b = if t.copied then inl (bytes_of b t.offset t.pack_length) else inr (value t b)

  -- The same column in two definitions, the first one with `stored` bytes of null bits. Field::unpack
  -- takes what Field::pack wrote, gives the value back, and the value depends on the column's bytes.
  pub record Kept (stored : ℕ) (s t : Slot) : Type 0 where
    pub copied_is : s.copied ≡ t.copied
    pub length_is : s.pack_length ≡ t.pack_length
    pub nullable_is : s.nullable ≡ t.nullable
    pub byte_is : s.null_byte ≡ t.null_byte
    pub bit_is : s.null_bit ≡ t.null_bit
    pub byte_stored : s.nullable ≡ true → s.null_byte < stored
    pub some_length : 0 < s.pack_length
    pub some_pack : t.copied ≡ false → (row : Buffer) → 0 < length (s.pack row)
    pub takes :
        t.copied ≡ false
        → (row b : Buffer) (rest : List ℕ) → (t.unpack (s.pack row ++ rest) b).1 ≡ some rest
    pub gives :
        t.copied ≡ false
        → (row b : Buffer) (rest : List ℕ)
        → value t (t.unpack (s.pack row ++ rest) b).0 ≡ value s row
    pub own :
        t.copied ≡ false
        → (b c : Buffer) → ((k : ℕ) → k < t.pack_length → b (t.offset + k) ≡ c (t.offset + k))
        → value t b ≡ value t c

  pub content-own :
      (stored : ℕ) (s t : Slot) (b c : Buffer)
      → Kept stored s t
      → ((k : ℕ) → k < t.pack_length → b (t.offset + k) ≡ c (t.offset + k))
      → content t b ≡ content t c
  unfolding content
  content-own stored s t b c p h = elim (Bool-cases t.copied) [
    | inl copies ↦ simp (copies, bytes_of-agree t.pack_length b c t.offset t.offset h)
    | inr packs ↦ simp (packs, p.own packs b c h)
  ]

  -- The bytes that are copied are no more than the column has.
  behind_copy :
      (t : Slot) (from : List ℕ) (j : ℕ)
      → ltb (length from) t.pack_length ≡ false
      → Outside t j
      → ((j < t.offset) ⊎ (t.offset + length (take t.pack_length from) ≤ j))
  unfolding Outside
  behind_copy t from j long o =
      let size = length-take t.pack_length from in
      elim o [ inl l ↦ inl l | inr l ↦ inr (omega arith) ]

  pub unpack_slot-Outside :
      (n : ℕ) (t : Slot) (from : List ℕ) (b : Buffer) (j : ℕ)
      → Fits n t
      → Outside t j
      → (unpack_slot t from b).0 j ≡ b j
  unfolding unpack_slot
  unpack_slot-Outside n t from b j f o = elim (Bool-cases t.copied) [
    | inr packs ↦ simp (packs, f.writes packs from b j o)
    | inl copies ↦ elim (Bool-cases (ltb (length from) t.pack_length)) [
      | inl short ↦ simp (copies, short)
      | inr long ↦ simp (
        copies,
        long,
        copy_to-outside (take t.pack_length from) t.offset b j (behind_copy t from j long o),
      )
    ]
  ]

  unpacked :
      (ts : List Slot) (r : Buffer × Option (List ℕ)) (b : Buffer) (j : ℕ)
      → ((from : List ℕ) (c : Buffer) → unpack_slots ts from c j ≡ c j)
      → r.0 j ≡ b j
      → (elim r.1 as (λ _. Buffer) [ none ↦ r.0 | some rest ↦ unpack_slots ts rest r.0 ]) j ≡ b j
  unpacked ts (c, none) b j onward h = h
  unpacked ts (c, some rest) b j onward h = onward rest c ∙ h

  pub unpack_slots-Outside :
      (n : ℕ) (ts : List Slot) (from : List ℕ) (b : Buffer) (j : ℕ)
      → All (Fits n) ts
      → All (λ t. Outside t j) ts
      → unpack_slots ts from b j ≡ b j
  unfolding unpack_slots
  unpack_slots-Outside n [] from b j f o = refl
  unpack_slots-Outside n (t ∷ ts) from b j f o =
      let onward : (from : List ℕ) (c : Buffer) → unpack_slots ts from c j ≡ c j =
        λ from' c. unpack_slots-Outside n ts from' c j f.1 o.1 in
      let one = unpack_slot-Outside n t from b j f.0 o.0 in
      if_cases (λ (c : Buffer). c j ≡ b j) (is_real_null t b) _ _ (λ _. onward from b)
        (λ _.
          if_cases (λ (c : Buffer). c j ≡ b j) (length from == 0) _ _ (λ _. refl)
            (λ _. unpacked ts (unpack_slot t from b) b j onward one))

  pub unpack_slots-null :
      (t : Slot) (ts : List Slot) (from : List ℕ) (b : Buffer)
      → is_real_null t b ≡ true
      → unpack_slots (t ∷ ts) from b ≡ unpack_slots ts from b
  unfolding unpack_slots
  unpack_slots-null t ts from b h =
      if_cases (λ (c : Buffer). c ≡ unpack_slots ts from b) (is_real_null t b) _ _ (λ _. refl)
        (λ e. absurd (cc))

  pub unpack_slots-there :
      (t : Slot) (ts : List Slot) (from rest : List ℕ) (b : Buffer)
      → is_real_null t b ≡ false
      → 0 < length from
      → (unpack_slot t from b).1 ≡ some rest
      → unpack_slots (t ∷ ts) from b ≡ unpack_slots ts rest (unpack_slot t from b).0
  unfolding unpack_slots
  unpack_slots-there t ts from rest b there more h =
      let c = (unpack_slot t from b).0 in
      if_cases (λ (x : Buffer). x ≡ unpack_slots ts rest c) (is_real_null t b) _ _
        (λ e. absurd (cc))
        (λ _.
          if_cases (λ (x : Buffer). x ≡ unpack_slots ts rest c) (length from == 0) _ _
            (λ e. absurd (ground arith))
            (λ _.
              ap
                (λ (o : Option (List ℕ)). elim o as (λ _. Buffer) [
                  | none ↦ c
                  | some rest ↦ unpack_slots ts rest c
                ])
                h))

  -- What the encoder writes of a column that is not NULL.
  unfoldable pub written : Slot → Buffer → List ℕ
  written s row = if s.copied then bytes_of row s.offset s.pack_length else s.pack row

  unpack_slot-copied :
      (t : Slot) (xs rest : List ℕ) (b : Buffer)
      → t.copied ≡ true
      → length xs ≡ t.pack_length
      → unpack_slot t (xs ++ rest) b ≡ (copy_to t.offset xs b, some rest)
  unfolding unpack_slot
  unpack_slot-copied t xs rest b h size =
      let total = length-append xs rest in
      let long : ltb (length (xs ++ rest)) t.pack_length ≡ false = ground arith in
      let first : take t.pack_length (xs ++ rest) ≡ xs =
        ap (λ (n : ℕ). take n (xs ++ rest)) (sym size) ∙ take-append_seam xs rest in
      let later : drop t.pack_length (xs ++ rest) ≡ rest =
        ap (λ (n : ℕ). drop n (xs ++ rest)) (sym size) ∙ drop-append_seam xs rest in
      simp (h, long, first, later)

  written-copied :
      (s : Slot) (row : Buffer)
      → s.copied ≡ true
      → written s row ≡ bytes_of row s.offset s.pack_length
  unfolding written
  written-copied s row h = simp h

  written-packed : (s : Slot) (row : Buffer) → s.copied ≡ false → written s row ≡ s.pack row
  unfolding written
  written-packed s row h = simp h

  content-copied :
      (t : Slot) (b : Buffer)
      → t.copied ≡ true
      → content t b ≡ inl (bytes_of b t.offset t.pack_length)
  unfolding content
  content-copied t b h = simp h

  content-packed : (t : Slot) (b : Buffer) → t.copied ≡ false → content t b ≡ inr (value t b)
  unfolding content
  content-packed t b h = simp h

  unpack_slot-packed :
      (t : Slot) (from : List ℕ) (b : Buffer)
      → t.copied ≡ false
      → unpack_slot t from b ≡ t.unpack from b
  unfolding unpack_slot
  unpack_slot-packed t from b h = simp h

  -- What the bytes of one column give.
  abbrev pub Given : Slot → Slot → Buffer → List ℕ → Buffer × Option (List ℕ) → Type 0
  Given s t row rest r = (r.1 ≡ some rest) × (content t r.0 ≡ content s row)

  unpack_copied :
      (stored : ℕ) (s t : Slot) (row b : Buffer) (rest : List ℕ)
      → Kept stored s t
      → s.copied ≡ true
      → Given s t row rest (unpack_slot t (bytes_of row s.offset s.pack_length ++ rest) b)
        × (0 < length (bytes_of row s.offset s.pack_length))
  unpack_copied stored s t row b rest p h =
      let xs = bytes_of row s.offset s.pack_length in
      let copies : t.copied ≡ true = sym p.copied_is ∙ h in
      let size = length-bytes_of row s.offset s.pack_length in
      let some_length = p.some_length in
      let is = unpack_slot-copied t xs rest b copies (size ∙ p.length_is) in
      let back : bytes_of (copy_to t.offset xs b) t.offset t.pack_length ≡ xs =
        bytes_of-agree t.pack_length (copy_to t.offset xs b) row t.offset s.offset (λ k l.
          copy_to-inside s.pack_length row s.offset t.offset b k
            (let e = p.length_is in omega arith))
        ∙ ap (bytes_of row s.offset) (sym p.length_is) in
      (
        (
          ap (λ (r : Buffer × Option (List ℕ)). r.1) is,
          ap (λ (r : Buffer × Option (List ℕ)). content t r.0) is
              ∙ (content-copied t _ copies ∙ (ap inl back ∙ sym (content-copied s row h))),
        ),
        omega arith,
      )

  unpack_packed :
      (stored : ℕ) (s t : Slot) (row b : Buffer) (rest : List ℕ)
      → Kept stored s t
      → s.copied ≡ false
      → Given s t row rest (unpack_slot t (s.pack row ++ rest) b) × (0 < length (s.pack row))
  unpack_packed stored s t row b rest p h =
      let packs : t.copied ≡ false = sym p.copied_is ∙ h in
      let is = unpack_slot-packed t (s.pack row ++ rest) b packs in
      (
        (
          ap (λ (r : Buffer × Option (List ℕ)). r.1) is ∙ p.takes packs row b rest,
          ap (λ (r : Buffer × Option (List ℕ)). content t r.0) is
              ∙ (content-packed t _ packs
                  ∙ (ap inr (p.gives packs row b rest) ∙ sym (content-packed s row h))),
        ),
        p.some_pack packs row,
      )

  pub unpack_slot-Kept :
      (stored : ℕ) (s t : Slot) (row b : Buffer) (rest : List ℕ)
      → Kept stored s t
      → Given s t row rest (unpack_slot t (written s row ++ rest) b) × (0 < length (written s row))
  unpack_slot-Kept stored s t row b rest p =
      let P =
        λ (xs : List ℕ). Given s t row rest (unpack_slot t (xs ++ rest) b) × (0 < length xs) in
      elim (Bool-cases s.copied) [
        | inl copies ↦
            subst P (sym (written-copied s row copies))
              (unpack_copied stored s t row b rest p copies)
        | inr packs ↦
            subst P (sym (written-packed s row packs)) (unpack_packed stored s t row b rest p packs)
      ]

  -- The columns that both definitions have, after the loop.
  abbrev pub Holds : Buffer → Buffer → Slot → Slot → Type 0
  Holds row b s t = is_real_null s row ≡ false → content t b ≡ content s row
