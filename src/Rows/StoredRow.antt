-- ===== src/Rows/StoredRow.antt =====
-- deserialize_row of plugin/ha_tidesdb.cc against serialize_row, the header and the encryption included.
use tidesdb_mysql.Base.{
  Option, none, some, ℕ, suc, ◌+◌, ◌*◌, ◌/◌, ◌%◌, ◌^◌, ◌<◌, ◌≡◌, refl, sym, ap, ◌∙◌, arith, true,
  false, List, [], ◌∷◌, ◌++◌, ◌==◌, ltb, length, take, drop, map, if_cases, All, length-append,
  drop-append_seam, subst,
}
use tidesdb_mysql.Fts.{le_bytes, of_le}
use tidesdb_mysql.Rows.{Column, TableDef}
use tidesdb_mysql.Rows.Serialize.{pack_columns, plain_row, serialize_row, row_header_magic}
use tidesdb_mysql.Rows.Deserialize.{
  Buffer, Slot, Layout, bytes_of, column_of, fill_defaults, unpack_slots, copy_bitmap, read_columns,
  deserialize_row, deserialize_stored, row_header_size, has_magic,
}
use tidesdb_mysql.Rows.Addresses.{length-bytes_of}
use tidesdb_mysql.Rows.Slots.{
  AllApart, Zip, Fits, SameNull, is_real_null-agree, Zip-map, All-take, All-drop,
}
use tidesdb_mysql.Rows.DecodeBack.{Kept, unpack_slots-Outside, Holds}
use tidesdb_mysql.Rows.AddedColumns.{
  Added, All-Added-agree, fill_defaults-Added, fill_defaults-SameNull,
}
use tidesdb_mysql.Rows.DecodeRow.{
  unpack_slots-Holds, bitmap-Outside, copied_nulls, away, AllApart-drop, untouched,
}

-- The decryption gives back what the encryption took; both are there, or neither.
unfoldable pub Undoes : Option (List ℕ → Option (List ℕ)) → Option (List ℕ → List ℕ) → Type 0
Undoes none none = Unit
Undoes none (some f) = some f ≡ none
Undoes (some c) none = some c ≡ none
Undoes (some c) (some f) = (plain bytes : List ℕ) → c plain ≡ some bytes → f bytes ≡ plain

stored_plain :
    (encrypt : Option (List ℕ → Option (List ℕ))) (decrypt : Option (List ℕ → List ℕ)) (l : Layout)
    (plain bytes : List ℕ) (b : Buffer)
    → 0 < length plain
    → Undoes encrypt decrypt
    → (elim encrypt [ none ↦ some plain | some cipher ↦ cipher plain ]) ≡ some bytes
    → deserialize_stored decrypt l bytes b ≡ deserialize_row l plain b
unfolding deserialize_stored Undoes
stored_plain none none l plain bytes b n u h =
    ap (λ (xs : List ℕ). deserialize_row l xs b) (sym (let e : plain ≡ bytes = cc in e))
stored_plain none (some f) l plain bytes b n u h = absurd (cc)
stored_plain (some c) none l plain bytes b n u h = absurd (cc)
stored_plain (some c) (some f) l plain bytes b n u h =
    let back : f bytes ≡ plain = u plain bytes h in
    let long : (length (f bytes) == 0) ≡ false =
      ap (λ (xs : List ℕ). length xs == 0) back ∙ ground arith in
    if_cases (λ (r : Buffer). r ≡ deserialize_row l plain b) (length (f bytes) == 0) _ _
      (λ e. absurd (cc)) (λ _. ap (λ (xs : List ℕ). deserialize_row l xs b) back)

plain_row_long : {Row : Type 0} (d : TableDef Row) (row : Row) → 0 < length (plain_row d row)
unfolding plain_row
plain_row_long d row = omega arith

module _ {V : Type 0} (value : Slot → Buffer → V) where
  length-map_column : (ss : List Slot) → length (map column_of ss) ≡ length ss
  length-map_column [] = refl
  length-map_column (s ∷ ss) = ap suc (length-map_column ss)

  of_two : (n : ℕ) → n < 2 ^ 16 → n % 256 + 256 * (n / 256 % 256 + 256 * 0) ≡ n
  of_two n l = omega arith

  -- The header.
  deserialize_row-long :
      (l : Layout) (input : List ℕ) (b : Buffer)
      → ltb (length input) row_header_size ≡ false
      → has_magic input ≡ true
      → deserialize_row l input b
        ≡ read_columns l
            (of_le (take 2 (drop 1 input)))
            (of_le (take 2 (drop 3 input)))
            (drop row_header_size input)
            b
  unfolding deserialize_row
  deserialize_row-long l input b h m = simp (h, m)

  deserialize_row-header :
      (l : Layout) (stored fields : ℕ) (rest : List ℕ) (b : Buffer)
      → stored < 2 ^ 16
      → fields < 2 ^ 16
      → deserialize_row l (row_header_magic ∷ (le_bytes 2 stored ++ (le_bytes 2 fields ++ rest))) b
        ≡ read_columns l stored fields rest b
  unfolding has_magic le_bytes of_le
  deserialize_row-header l stored fields rest b p q =
      let input = row_header_magic ∷ (le_bytes 2 stored ++ (le_bytes 2 fields ++ rest)) in
      let size : length input ≡ 5 + length rest = omega arith in
      let long : ltb (length input) row_header_size ≡ false = ground arith in
      deserialize_row-long l input b long refl
      ∙ ap (λ (m : ℕ). read_columns l m (of_le (take 2 (drop 3 input))) rest b) (of_two stored p)
      ∙ ap (λ (n : ℕ). read_columns l stored n rest b) (of_two fields q)

  -- The columns that were there and those that were added, behind the null bitmap.
  abbrev before : Layout → ℕ → ℕ → List ℕ → Buffer → Buffer
  before l stored n from b =
      fill_defaults l.default_values (drop n l.slots) (copy_bitmap l stored from b)

  read_columns-stored :
      (l : Layout) (stored n : ℕ) (row b : Buffer) (packed : List ℕ)
      → read_columns l stored n (bytes_of row 0 stored ++ packed) b
        ≡ unpack_slots
            (take n l.slots)
            packed
            (before l stored n (bytes_of row 0 stored ++ packed) b)
  unfolding read_columns
  read_columns-stored l stored n row b packed =
      let from = bytes_of row 0 stored ++ packed in
      let size = length-bytes_of row 0 stored in
      let total = length-append (bytes_of row 0 stored) packed in
      let later : drop stored from ≡ packed =
        ap (λ (m : ℕ). drop m from) (sym size) ∙ drop-append_seam (bytes_of row 0 stored) packed in
      if_cases (λ (c : Buffer). c ≡ unpack_slots (take n l.slots) packed (before l stored n from b))
        (ltb (length from) stored) _ _ (λ e. absurd (ground arith))
        (λ _.
          ap (λ (xs : List ℕ). unpack_slots (take n l.slots) xs (before l stored n from b)) later)

  deserialize_row-plain :
      (d : TableDef Buffer) (l : Layout) (ss : List Slot) (stored : ℕ) (row b : Buffer)
      → d.null_bitmap row ≡ bytes_of row 0 stored
      → d.fields ≡ map column_of ss
      → stored < 2 ^ 16
      → length ss < 2 ^ 16
      → deserialize_row l (plain_row d row) b
        ≡ read_columns l stored
            (length ss)
            (bytes_of row 0 stored ++ pack_columns (map column_of ss) row)
            b
  unfolding plain_row
  deserialize_row-plain d l ss stored row b e f p q =
      let packed = pack_columns (map column_of ss) row in
      let whole = λ (m n : ℕ) (xs ys : List ℕ).
        row_header_magic ∷ (le_bytes 2 m ++ (le_bytes 2 n ++ (xs ++ ys))) in
      let bits : length (d.null_bitmap row) ≡ stored = ap length e ∙ length-bytes_of row 0 stored in
      let count : length d.fields ≡ length ss = ap length f ∙ length-map_column ss in
      ap
        (λ (m : ℕ).
          deserialize_row l
            (whole m (length d.fields) (d.null_bitmap row) (pack_columns d.fields row)) b)
        bits
      ∙ ap
          (λ (n : ℕ).
            deserialize_row l (whole stored n (d.null_bitmap row) (pack_columns d.fields row)) b)
          count
      ∙ ap
          (λ (xs : List ℕ).
            deserialize_row l (whole stored (length ss) xs (pack_columns d.fields row)) b)
          e
      ∙ ap
          (λ (fs : List (Column Buffer)).
            deserialize_row l
              (whole stored (length ss) (bytes_of row 0 stored) (pack_columns fs row)) b)
          f
      ∙ deserialize_row-header l stored (length ss) (bytes_of row 0 stored ++ packed) b p q

  -- The same of the row before it is encrypted.
  deserialize_row-plain_row :
      (d : TableDef Buffer) (l : Layout) (ss : List Slot) (stored : ℕ) (row b : Buffer)
      → d.null_bitmap row ≡ bytes_of row 0 stored
      → d.fields ≡ map column_of ss
      → stored < 2 ^ 16
      → length ss < 2 ^ 16
      → All (Fits l.null_bytes) l.slots
      → AllApart l.slots
      → Zip (Kept value stored) ss l.slots
      → Zip (SameNull row (deserialize_row l (plain_row d row) b)) ss l.slots
        × Zip (Holds value row (deserialize_row l (plain_row d row) b)) ss l.slots
        × All
            (Added l.default_values (deserialize_row l (plain_row d row) b))
            (drop (length ss) l.slots)
  deserialize_row-plain_row d l ss stored row b e f p q fit apart kept =
      let n = length ss in
      let ts = l.slots in
      let packed = pack_columns (map column_of ss) row in
      let from = bytes_of row 0 stored ++ packed in
      let b' = before l stored n from b in
      let r = unpack_slots (take n ts) packed b' in
      let is =
        deserialize_row-plain d l ss stored row b e f p q
        ∙ read_columns-stored l stored n row b packed in
      let P = λ (c : Buffer).
        Zip (SameNull row c) ss ts
        × Zip (Holds value row c) ss ts
        × All (Added l.default_values c) (drop n ts) in
      let same : (j : ℕ) → j < l.null_bytes → r j ≡ b' j = λ j k.
        unpack_slots-Outside value l.null_bytes (take n ts) packed b' j
          (All-take (Fits l.null_bytes) n ts fit)
          (All-take _ n ts (bitmap-Outside value l.null_bytes ts j fit k)) in
      let nulls =
        fill_defaults-SameNull l.null_bytes ss ts row l.default_values (copy_bitmap l stored from b)
          fit apart (copied_nulls value l stored ss ts row b packed fit kept) in
      let added =
        fill_defaults-Added l.null_bytes (drop n ts) l.default_values (copy_bitmap l stored from b)
          (All-drop (Fits l.null_bytes) n ts fit) (AllApart-drop value n ts apart) in
      subst P (sym is) (
        Zip-map (SameNull row b') (SameNull row r) ss ts (Fits l.null_bytes)
            (λ s t g h. is_real_null-agree l.null_bytes t r b' g same ∙ h) fit nulls,
        unpack_slots-Holds value l.null_bytes stored ss ts row b' kept fit apart nulls,
        All-Added-agree l.null_bytes (drop n ts) l.default_values b' r
            (All-drop (Fits l.null_bytes) n ts fit) added same
            (untouched value l.null_bytes n (drop n ts) ts packed b' fit (away value n ts apart)),
      )

  -- What the decoder is given to decrypt, and what the encoder encrypts.
  deserialize_stored-serialized :
      (d : TableDef Buffer) (decrypt : Option (List ℕ → List ℕ)) (l : Layout) (row b : Buffer)
      (bytes : List ℕ)
      → Undoes d.encrypt decrypt
      → serialize_row d row ≡ some bytes
      → deserialize_stored decrypt l bytes b ≡ deserialize_row l (plain_row d row) b
  unfolding serialize_row
  deserialize_stored-serialized d decrypt l row b bytes u h =
      stored_plain d.encrypt decrypt l (plain_row d row) bytes b (plain_row_long d row) u h

  -- A row that was encoded with the columns `ss` and `stored` bytes of null bits, encrypted where the
  -- table is, and is decoded by a definition of the table that can have more or fewer columns at its
  -- end: a column of both is NULL exactly where it was, and otherwise holds what it did; and a column
  -- that was added is NULL exactly where its default is, and has the bytes of its default. What stood in
  -- the record before does not matter. The columns and null bits of the record are apart, and the
  -- decryption undoes the encryption. Field::pack writes at least one byte, and Field::unpack undoes it;
  -- the value stands in the column's own bytes, so a BLOB is none of the columns.
  pub deserialize_stored-serialize_row :
      (d : TableDef Buffer) (decrypt : Option (List ℕ → List ℕ)) (l : Layout) (ss : List Slot)
      (stored : ℕ) (row b : Buffer) (bytes : List ℕ)
      → Undoes d.encrypt decrypt
      → serialize_row d row ≡ some bytes
      → d.null_bitmap row ≡ bytes_of row 0 stored
      → d.fields ≡ map column_of ss
      → stored < 2 ^ 16
      → length ss < 2 ^ 16
      → All (Fits l.null_bytes) l.slots
      → AllApart l.slots
      → Zip (Kept value stored) ss l.slots
      → Zip (SameNull row (deserialize_stored decrypt l bytes b)) ss l.slots
        × Zip (Holds value row (deserialize_stored decrypt l bytes b)) ss l.slots
        × All
            (Added l.default_values (deserialize_stored decrypt l bytes b))
            (drop (length ss) l.slots)
  deserialize_stored-serialize_row d decrypt l ss stored row b bytes u h e f p q fit apart kept =
      let P = λ (c : Buffer).
        Zip (SameNull row c) ss l.slots
        × Zip (Holds value row c) ss l.slots
        × All (Added l.default_values c) (drop (length ss) l.slots) in
      subst P (sym (deserialize_stored-serialized d decrypt l row b bytes u h))
        (deserialize_row-plain_row d l ss stored row b e f p q fit apart kept)
