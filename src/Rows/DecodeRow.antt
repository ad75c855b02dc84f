-- ===== src/Rows/DecodeRow.antt =====
-- deserialize_row of plugin/ha_tidesdb.cc against serialize_row.
use tidesdb_mysql.Base.{
  ℕ, zero, suc, ◌+◌, ◌-◌, ◌<◌, ◌≤◌, ◌≡◌, inl, inr, refl, sym, ap, ◌∙◌, arith, true, false, List, [],
  ◌∷◌, ◌++◌, ◌==◌, length, take, drop, map, min, Bool-cases, All, length-append, subst,
}
use tidesdb_mysql.Rows.Serialize.{pack_columns}
use tidesdb_mysql.Rows.Deserialize.{
  Buffer, Slot, Layout, bit_at, bytes_of, copy_to, is_real_null, column_of, unpack_slot,
  unpack_slots, copy_bitmap,
}
use tidesdb_mysql.Rows.Addresses.{copy_to-outside, copy_to-inside}
use tidesdb_mysql.Rows.Slots.{
  Outside, Apart, AllApart, Zip, Fits, SameNull, is_real_null-agree, Zip-map, All-take, All-drop,
}
use tidesdb_mysql.Rows.DecodeBack.{
  Kept, content-own, unpack_slot-Outside, unpack_slots-Outside, unpack_slots-null,
  unpack_slots-there, written, unpack_slot-Kept, Holds,
}
use tidesdb_mysql.Rows.AddedColumns.{ranges_of}

module _ {V : Type 0} (value : Slot → Buffer → V) where
  pack_columns-null :
      (s : Slot) (ss : List Slot) (row : Buffer)
      → is_real_null s row ≡ true
      → pack_columns (map column_of (s ∷ ss)) row ≡ pack_columns (map column_of ss) row
  unfolding pack_columns column_of
  pack_columns-null s ss row h = simp h

  pack_columns-there :
      (s : Slot) (ss : List Slot) (row : Buffer)
      → is_real_null s row ≡ false
      → pack_columns (map column_of (s ∷ ss)) row
        ≡ written value s row ++ pack_columns (map column_of ss) row
  unfolding pack_columns column_of written
  pack_columns-there s ss row h = simp h

  -- An address of the null bitmap.
  pub bitmap-Outside :
      (n : ℕ) (ts : List Slot) (j : ℕ) → All (Fits n) ts → j < n → All (λ t. Outside t j) ts
  unfolding Outside
  bitmap-Outside n [] j f l = tt
  bitmap-Outside n (t ∷ ts) j f l =
      let behind = f.0.behind in (inl (omega arith), bitmap-Outside n ts j f.1 l)

  kept_bitmap :
      (n : ℕ) (t : Slot) (from : List ℕ) (b : Buffer)
      → Fits n t
      → (j : ℕ) → j < n
      → (unpack_slot t from b).0 j ≡ b j
  unfolding Outside
  kept_bitmap n t from b f j l =
      let behind = f.behind in unpack_slot-Outside value n t from b j f (inl (omega arith))

  -- The loop over the columns that both definitions have.
  pub unpack_slots-Holds :
      (n stored : ℕ) (ss ts : List Slot) (row b : Buffer)
      → Zip (Kept value stored) ss ts
      → All (Fits n) ts
      → AllApart ts
      → Zip (SameNull row b) ss ts
      → Zip
          (Holds value row
            (unpack_slots (take (length ss) ts) (pack_columns (map column_of ss) row) b))
          ss
          ts
  unfolding Zip AllApart
  unpack_slots-Holds n stored [] ts row b k f a z = tt
  unpack_slots-Holds n stored (s ∷ ss) [] row b k f a z = tt
  unpack_slots-Holds n stored (s ∷ ss) (t ∷ ts) row b k f a z =
      let packed = pack_columns (map column_of ss) row in
      let us = take (length ss) ts in
      let P = λ (c : Buffer). Holds value row c s t × Zip (Holds value row c) ss ts in
      elim (Bool-cases (is_real_null s row)) [
        | inl null ↦
            let is =
              ap (λ (xs : List ℕ). unpack_slots (t ∷ us) xs b) (pack_columns-null s ss row null)
              ∙ unpack_slots-null value t us packed b (z.0 ∙ null) in
            subst P (sym is)
              (λ e. absurd (cc), unpack_slots-Holds n stored ss ts row b k.1 f.1 a.1 z.1)
        | inr there ↦
            let xs = written value s row in
            let (given, more) = unpack_slot-Kept value stored s t row b packed k.0 in
            let c = (unpack_slot t (xs ++ packed) b).0 in
            let size = length-append xs packed in
            let is =
              ap (λ (ys : List ℕ). unpack_slots (t ∷ us) ys b) (pack_columns-there s ss row there)
              ∙ unpack_slots-there value t us (xs ++ packed) packed b (z.0 ∙ there) (omega arith)
                  given.0 in
            let kept = kept_bitmap n t (xs ++ packed) b f.0 in
            let nulls =
              Zip-map (SameNull row b) (SameNull row c) ss ts (Fits n)
                (λ s' t' g e. is_real_null-agree n t' c b g kept ∙ e) f.1 z.1 in
            let own = content-own value stored s t (unpack_slots us packed c) c k.0 (λ j l.
              unpack_slots-Outside value n us packed c (t.offset + j)
                (All-take (Fits n) (length ss) ts f.1)
                (All-take _ (length ss) ts (ranges_of t ts j a.0 l))) in
            subst P (sym is)
              (λ e. own ∙ given.1, unpack_slots-Holds n stored ss ts row c k.1 f.1 a.1 nulls)
      ]

  -- The null bitmap that was stored, as far as the record has one.
  take-bytes_of :
      (m n a : ℕ) (b : Buffer) (xs : List ℕ)
      → m ≤ n
      → take m (bytes_of b a n ++ xs) ≡ bytes_of b a m
  unfolding bytes_of
  take-bytes_of zero n a b xs l = refl
  take-bytes_of (suc m) zero a b xs l = absurd (omega arith)
  take-bytes_of (suc m) (suc n) a b xs l =
      ap (◌∷◌ (b a)) (take-bytes_of m n (suc a) b xs (omega arith))

  copy_bitmap-stored :
      (l : Layout) (stored : ℕ) (row b : Buffer) (packed : List ℕ) (j : ℕ)
      → j < stored
      → j < l.null_bytes
      → copy_bitmap l stored (bytes_of row 0 stored ++ packed) b j ≡ row j
  unfolding copy_bitmap
  copy_bitmap-stored l stored row b packed j p q =
      let n = min stored l.null_bytes in
      let same : 0 + j ≡ j = omega arith in
      let c = copy_to 0 (take n (bytes_of row 0 stored ++ packed)) b in
      copy_to-outside (bytes_of l.default_values n (l.null_bytes - n)) n c j (inl (omega arith))
      ∙ (ap (λ (xs : List ℕ). copy_to 0 xs b j) (take-bytes_of n stored 0 row packed (omega arith))
          ∙ subst (λ (i : ℕ). copy_to 0 (bytes_of row 0 n) b i ≡ row i) same
              (copy_to-inside n row 0 0 b j (omega arith)))

  null_unset : (s : Slot) (b : Buffer) → s.nullable ≡ false → is_real_null s b ≡ false
  unfolding is_real_null
  null_unset s b h = simp h

  null_set :
      (s : Slot) (b : Buffer)
      → s.nullable ≡ true
      → is_real_null s b ≡ (bit_at s.null_bit (b s.null_byte) == 1)
  unfolding is_real_null
  null_set s b h = simp h

  copied_null :
      (l : Layout) (stored : ℕ) (s t : Slot) (row b : Buffer) (packed : List ℕ)
      → Fits l.null_bytes t
      → Kept value stored s t
      → is_real_null t (copy_bitmap l stored (bytes_of row 0 stored ++ packed) b)
        ≡ is_real_null s row
  copied_null l stored s t row b packed f k =
      let c = copy_bitmap l stored (bytes_of row 0 stored ++ packed) b in
      elim (Bool-cases s.nullable) [
        | inr unset ↦ null_unset t c (sym k.nullable_is ∙ unset) ∙ sym (null_unset s row unset)
        | inl set ↦
            let set' = sym k.nullable_is ∙ set in
            let inside = k.byte_stored set in
            let byte = k.byte_is in
            let there =
              copy_bitmap-stored l stored row b packed t.null_byte (omega arith) (f.null_in set') in
            null_set t c set'
            ∙ ap (λ (x : ℕ). bit_at t.null_bit x == 1) (there ∙ ap row (sym byte))
            ∙ ap (λ (i : ℕ). bit_at i (row s.null_byte) == 1) (sym k.bit_is)
            ∙ sym (null_set s row set)
      ]

  pub copied_nulls :
      (l : Layout) (stored : ℕ) (ss ts : List Slot) (row b : Buffer) (packed : List ℕ)
      → All (Fits l.null_bytes) ts
      → Zip (Kept value stored) ss ts
      → Zip (SameNull row (copy_bitmap l stored (bytes_of row 0 stored ++ packed) b)) ss ts
  copied_nulls l stored ss ts row b packed f k =
      Zip-map (Kept value stored)
        (SameNull row (copy_bitmap l stored (bytes_of row 0 stored ++ packed) b)) ss ts
        (Fits l.null_bytes) (λ s t g p. copied_null l stored s t row b packed g p) f k

  -- The loop writes to no column that was added.
  pub AwayFrom : List Slot → Slot → Type 0
  AwayFrom ts u = (k : ℕ) → k < u.pack_length → All (λ t. Outside t (u.offset + k)) ts

  away_one :
      (ts us : List Slot) (t : Slot)
      → All (Apart t) us
      → All (AwayFrom ts) us
      → All (AwayFrom (t ∷ ts)) us
  unfolding AwayFrom
  away_one ts [] t a h = tt
  away_one ts (u ∷ us) t a h = (λ k l. (a.0.ranges k l, h.0 k l), away_one ts us t a.1 h.1)

  away_none : (us : List Slot) → All (AwayFrom []) us
  unfolding AwayFrom
  away_none [] = tt
  away_none (u ∷ us) = (λ k l. tt, away_none us)

  pub away : (n : ℕ) (ts : List Slot) → AllApart ts → All (AwayFrom (take n ts)) (drop n ts)
  unfolding AllApart
  away zero ts a = away_none ts
  away (suc n) [] a = tt
  away (suc n) (t ∷ ts) a =
      away_one (take n ts) (drop n ts) t (All-drop (Apart t) n ts a.0) (away n ts a.1)

  pub AllApart-drop : (n : ℕ) (ts : List Slot) → AllApart ts → AllApart (drop n ts)
  unfolding AllApart
  AllApart-drop zero ts a = a
  AllApart-drop (suc n) [] a = a
  AllApart-drop (suc n) (t ∷ ts) a = AllApart-drop n ts a.1

  pub untouched :
      (n m : ℕ) (us ts : List Slot) (from : List ℕ) (b : Buffer)
      → All (Fits n) ts
      → All (AwayFrom (take m ts)) us
      → All
          (λ u.
            (k : ℕ)
            → k < u.pack_length
            → unpack_slots (take m ts) from b (u.offset + k) ≡ b (u.offset + k))
          us
  unfolding AwayFrom
  untouched n m [] ts from b f h = tt
  untouched n m (u ∷ us) ts from b f h = (
    λ k l.
        unpack_slots-Outside value n (take m ts) from b (u.offset + k) (All-take (Fits n) m ts f)
          (h.0 k l),
    untouched n m us ts from b f h.1,
  )
