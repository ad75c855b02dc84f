-- ===== src/Rows/Covering.antt =====
-- A read from the index alone gives the columns of the row.
use tidesdb_mysql.Base.{
  ℕ, ◌≡◌, ◌∙◌, refl, sym, ap, subst, Bool, true, false, ◌&&◌, Option, none, some, List, [], ◌∷◌,
  ◌++◌, if◌then◌else◌, ltb, arith, All, length, take, drop, length-append, take-append_seam,
  drop-append_seam, Bool-cases, inl, inr,
}
use mathlib.Core.List.{append_assoc}
use tidesdb_mysql.Rows.{Part, TableDef, Index}
use tidesdb_mysql.Rows.Key.{
  fit, part_key, make_comparable_key, parts_length, pk_from_record, sec_idx_key,
}
use tidesdb_mysql.Rows.KeyLength.{IsPart, length-fit, length-make_comparable_key}
use tidesdb_mysql.Rows.KeyRead.{
  KeyField, Buffer, decode_sort_key_part, prepend, set_field, read_value, read_nullable,
  decode_parts, parts_of, both, paired, try_keyread_from_index,
}

-- The row has a value in the column, and the decoder gives it back from what the server made of it.
abbrev pub IsReadable : {Row : Type 0} → Row → KeyField Row → Type 0
IsReadable row f =
    (f.part.is_null row ≡ false)
    × (f.part.binary_varstring ≡ false)
    × (decode_sort_key_part (fit f.part.length (f.part.sort_key row)) f.part.length f.type_
        ≡ some (f.part.value row))

-- The columns of the row, as the decoder sets them.
unfoldable pub columns_of : {Row : Type 0} → List (KeyField Row) → Row → Buffer
columns_of [] row = []
columns_of (f ∷ fs) row = (f.part.field_nr, some (f.part.value row)) ∷ columns_of fs row

abbrev all_fields : ℕ → Bool
all_fields nr = true

read_value-fit :
    {Row : Type 0} (f : KeyField Row) (row : Row) (next : List ℕ → Option Buffer) (rest : List ℕ)
    → IsReadable row f
    → read_value all_fields f next (fit f.part.length (f.part.sort_key row) ++ rest)
      ≡ prepend (f.part.field_nr, some (f.part.value row)) (next rest)
unfolding read_value set_field
read_value-fit f row next rest (there, plain, decoded) =
    let key = fit f.part.length (f.part.sort_key row) in
    let len : length key ≡ f.part.length = length-fit f.part.length (f.part.sort_key row) in
    let room : ltb (length (key ++ rest)) f.part.length ≡ false =
      ground (arith, length-append key rest, len) in
    let front : take f.part.length (key ++ rest) ≡ key =
      subst (λ (n : ℕ). take n (key ++ rest) ≡ key) len (take-append_seam key rest) in
    let back : drop f.part.length (key ++ rest) ≡ rest =
      subst (λ (n : ℕ). drop n (key ++ rest) ≡ rest) len (drop-append_seam key rest) in
    rw (room, front, back, decoded) refl

part_key-value :
    {Row : Type 0} (stale : List ℕ) (f : KeyField Row) (row : Row)
    → IsReadable row f
    → part_key stale f.part row
      ≡ (if f.part.nullable then 1 ∷ [] else []) ++ fit f.part.length (f.part.sort_key row)
unfolding part_key
part_key-value stale f row (there, plain, decoded) = elim (Bool-cases f.part.nullable) [
  | inl maybe ↦ rw (maybe, there, plain) refl
  | inr always ↦ rw (always, plain) refl
]

decode_parts-part :
    {Row : Type 0} (stale : List ℕ) (f : KeyField Row) (fs : List (KeyField Row)) (row : Row)
    (rest : List ℕ)
    → IsReadable row f
    → decode_parts all_fields (f ∷ fs) (part_key stale f.part row ++ rest)
      ≡ prepend (f.part.field_nr, some (f.part.value row)) (decode_parts all_fields fs rest)
unfolding decode_parts read_nullable read_value
decode_parts-part stale f fs row rest readable = elim (Bool-cases f.part.nullable) [
  | inl maybe ↦
      rw (part_key-value stale f row readable, maybe)
        (read_value-fit f row (decode_parts all_fields fs) rest readable)
  | inr always ↦
      rw (part_key-value stale f row readable, always)
        (read_value-fit f row (decode_parts all_fields fs) rest readable)
]

decode_parts-make_comparable_key :
    {Row : Type 0} (stale : ℕ → List ℕ) (fs : List (KeyField Row)) (row : Row) (rest : List ℕ)
    → All (IsReadable row) fs
    → decode_parts all_fields fs (make_comparable_key stale (parts_of fs) row ++ rest)
      ≡ some (columns_of fs row)
unfolding make_comparable_key columns_of decode_parts prepend
decode_parts-make_comparable_key stale [] row rest readable = refl
decode_parts-make_comparable_key stale (f ∷ fs) row rest readable =
    let key = part_key (stale (length (parts_of fs))) f.part row in
    let keys = make_comparable_key stale (parts_of fs) row in
    ap (decode_parts all_fields (f ∷ fs)) (append_assoc key keys rest)
    ∙ decode_parts-part (stale (length (parts_of fs))) f fs row (keys ++ rest) readable.0
    ∙ ap (prepend (f.part.field_nr, some (f.part.value row)))
        (decode_parts-make_comparable_key stale fs row rest readable.1)

append_nil : (xs : List ℕ) → xs ++ [] ≡ xs
append_nil [] = refl
append_nil (x ∷ xs) = ap (◌∷◌ x) (append_nil xs)

-- The key of the index, and then the primary key.
read_whole_key :
    {Row : Type 0} (d : TableDef Row) (stale : ℕ → List ℕ) (fs pks : List (KeyField Row))
    (row : Row)
    → d.has_user_pk ≡ true
    → All IsPart (parts_of fs)
    → All (IsReadable row) fs
    → All (IsReadable row) pks
    → (let pk = make_comparable_key stale (parts_of pks) row in
        try_keyread_from_index d true all_fields fs pks
          (make_comparable_key stale (parts_of fs) row ++ pk)
        ≡ some (columns_of fs row ++ columns_of pks row, pk))
unfolding try_keyread_from_index both paired
read_whole_key d stale fs pks row user ok readable readable' =
    let keys = make_comparable_key stale (parts_of fs) row in
    let pk = make_comparable_key stale (parts_of pks) row in
    let behind : drop (parts_length (parts_of fs)) (keys ++ pk) ≡ pk =
      subst (λ (n : ℕ). drop n (keys ++ pk) ≡ pk)
        (length-make_comparable_key stale (parts_of fs) row ok) (drop-append_seam keys pk) in
    let read_pk : decode_parts all_fields pks pk ≡ some (columns_of pks row) =
      ap (decode_parts all_fields pks) (sym (append_nil pk))
      ∙ decode_parts-make_comparable_key stale pks row [] readable' in
    ap
      (λ (b : Bool).
        if b && true
        then paired (drop (parts_length (parts_of fs)) (keys ++ pk)) (
            both (decode_parts all_fields fs (keys ++ pk))
              (decode_parts all_fields pks (drop (parts_length (parts_of fs)) (keys ++ pk))))
        else none)
      user
    ∙ rw (behind, decode_parts-make_comparable_key stale fs row pk readable, read_pk) refl

-- Where a row has a value in every column of an index and of the primary key, and the decoder gives back
-- each value from its sort key, the key that was stored for the row in the index is read back to these
-- columns, and to the primary key of the row.
pub try_keyread_from_index-sec_idx_key :
    {Row : Type 0} (d : TableDef Row) (stale : ℕ → List ℕ) (ix : Index Row)
    (fs pks : List (KeyField Row)) (row : Row) (current : List ℕ)
    → d.has_user_pk ≡ true
    → ix.parts ≡ parts_of fs
    → d.pk_parts ≡ parts_of pks
    → All IsPart (parts_of fs)
    → All (IsReadable row) fs
    → All (IsReadable row) pks
    → try_keyread_from_index d true (λ nr. true) fs pks (sec_idx_key stale d current ix row)
      ≡ some (columns_of fs row ++ columns_of pks row, pk_from_record stale d current row)
unfolding sec_idx_key pk_from_record
try_keyread_from_index-sec_idx_key d stale ix fs pks row current user parts pk_parts ok readable
      readable' =
    let keys = make_comparable_key stale (parts_of fs) row in
    let own : pk_from_record stale d current row ≡ make_comparable_key stale (parts_of pks) row =
      ap (λ (b : Bool). if b then make_comparable_key stale d.pk_parts row else current) user
      ∙ ap (λ (ps : List (Part _)). make_comparable_key stale ps row) pk_parts in
    ap (try_keyread_from_index d true all_fields fs pks) (
      ap
        (λ (ps : List (Part _)).
          make_comparable_key stale ps row ++ pk_from_record stale d current row)
        parts
      ∙ ap (λ (q : List ℕ). keys ++ q) own)
    ∙ read_whole_key d stale fs pks row user ok readable readable'
    ∙ ap (λ (q : List ℕ). some (columns_of fs row ++ columns_of pks row, q)) (sym own)
