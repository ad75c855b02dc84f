-- ===== src/Rows/KeyRead.antt =====
-- Reading columns from the key of an index entry, plugin/ha_tidesdb.cc: decode_sort_key_part,
-- try_keyread_from_index and icp_check_secondary. What is written into the record buffer is the list of
-- the columns with their bytes, none for NULL.
use tidesdb_mysql.Base.{
  ℕ, ◌-◌, Bool, true, not, ◌&&◌, Option, none, some, List, [], ◌∷◌, ◌++◌, if◌then◌else◌, ltb, leb,
  ◌==◌, length, take, drop, replicate, min,
}
use tidesdb_mysql.Key.{decode_int_sort_key, reverse_bytes}
use tidesdb_mysql.Rows.{Part, TableDef}
use tidesdb_mysql.Rows.Key.{parts_length}

-- The type of a column as the decoder tells them apart; an integer may be unsigned, and a CHAR has its
-- bytes in the record and whether its character set is binary or latin1.
pub data FieldType : Type 0 where
  integer : Bool → FieldType
  year date datetime : FieldType
  string : Bool → ℕ → FieldType
  other_type : FieldType

pub record KeyField (Row : Type 0) : Type 0 where
  pub part : Part Row
  pub type_ : FieldType

abbrev pub date_pack_len : ℕ
date_pack_len = 3

abbrev pub datetime_max_pack_len : ℕ
datetime_max_pack_len = 8

unfoldable pub decode_sort_key_part : List ℕ → ℕ → FieldType → Option (List ℕ)
decode_sort_key_part src sort_len (integer is_unsigned) =
    decode_int_sort_key src sort_len (not is_unsigned)
decode_sort_key_part src sort_len year = some (take 1 src)
decode_sort_key_part src sort_len date =
    if sort_len == date_pack_len then some (reverse_bytes (take sort_len src)) else none
decode_sort_key_part src sort_len datetime =
    if leb sort_len datetime_max_pack_len then some (reverse_bytes (take sort_len src)) else none
decode_sort_key_part src sort_len (string plain pack_length) =
    if plain
    then some (take (min sort_len pack_length) src ++ replicate (pack_length - sort_len) 32)
    else none
decode_sort_key_part src sort_len other_type = none

abbrev pub Buffer : Type 0
Buffer = List (ℕ × Option (List ℕ))

unfoldable pub prepend : ℕ × Option (List ℕ) → Option Buffer → Option Buffer
prepend x none = none
prepend x (some buf) = some (x ∷ buf)

unfoldable pub set_field : ℕ → Option (List ℕ) → Option Buffer → Option Buffer
set_field nr none rest = none
set_field nr (some bytes) rest = prepend (nr, some bytes) rest

-- The value of a part, if the column is wanted, and the parts behind it.
unfoldable pub read_value :
    {Row : Type 0} → (ℕ → Bool) → KeyField Row → (List ℕ → Option Buffer) → List ℕ → Option Buffer
read_value want f rest pos =
    let nr = f.part.field_nr in
    let len = f.part.length in
    if ltb (length pos) len
    then none
    else if want nr
    then set_field nr (decode_sort_key_part (take len pos) len f.type_) (rest (drop len pos))
    else rest (drop len pos)

-- A part that may be NULL begins with a byte that tells.
unfoldable pub read_nullable :
    {Row : Type 0} → (ℕ → Bool) → KeyField Row → (List ℕ → Option Buffer) → List ℕ → Option Buffer
read_nullable want f rest [] = none
read_nullable want f rest (b ∷ pos) =
    if b == 0 then prepend (f.part.field_nr, none) (rest pos) else read_value want f rest pos

unfoldable pub decode_parts :
    {Row : Type 0} → (ℕ → Bool) → List (KeyField Row) → List ℕ → Option Buffer
decode_parts want [] pos = some []
decode_parts want (f ∷ fs) pos =
    if f.part.nullable
    then read_nullable want f (decode_parts want fs) pos
    else read_value want f (decode_parts want fs) pos

abbrev pub parts_of : {Row : Type 0} → List (KeyField Row) → List (Part Row)
parts_of [] = []
parts_of (f ∷ fs) = f.part ∷ parts_of fs

unfoldable pub both : Option Buffer → Option Buffer → Option Buffer
both none b = none
both (some a) none = none
both (some a) (some b) = some (a ++ b)

unfoldable pub paired : List ℕ → Option Buffer → Option (Buffer × List ℕ)
paired pk none = none
paired pk (some buf) = some (buf, pk)

-- The columns and the primary key; none where the row has to be looked up. `covered` says whether the
-- columns that are wanted are all in the index or in the primary key.
unfoldable pub try_keyread_from_index :
    {Row : Type 0}
    → TableDef Row
    → Bool
    → (ℕ → Bool)
    → List (KeyField Row)
    → List (KeyField Row)
    → List ℕ
    → Option (Buffer × List ℕ)
try_keyread_from_index d covered want index_fields pk_fields ik =
    let pk = drop (parts_length (parts_of index_fields)) ik in
    if d.has_user_pk && covered
    then paired pk (both (decode_parts want index_fields ik) (decode_parts want pk_fields pk))
    else none

pub data Check : Type 0 where
  check_pos check_neg check_out_of_range : Check

-- The tests of the server on a row, in their order.
unfoldable pub evaluate : Bool → (Buffer → Bool) → (Buffer → Bool) → Buffer → Check
evaluate killed beyond condition buf =
    if killed
    then check_neg
    else if beyond buf
    then check_out_of_range
    else if condition buf
    then check_pos
    else check_neg

-- `pushed` says whether a condition was pushed for this index, `beyond` whether the row is behind the end
-- of the range, and `fetch` looks the row up by its primary key.
unfoldable pub icp_check_secondary :
    {Row : Type 0}
    → TableDef Row
    → Bool
    → Bool
    → (Buffer → Bool)
    → (Buffer → Bool)
    → (List ℕ → Option Buffer)
    → List (KeyField Row)
    → List (KeyField Row)
    → List ℕ
    → Check
icp_check_secondary d pushed killed beyond condition fetch index_fields pk_fields ik =
    let cols = parts_length (parts_of index_fields) in
    let decoded =
      both (decode_parts (λ nr. true) index_fields ik)
        (if d.has_user_pk then decode_parts (λ nr. true) pk_fields (drop cols ik) else some []) in
    if not pushed then check_pos else elim decoded [
      | some buf ↦ evaluate killed beyond condition buf
      | none ↦
          if ltb cols (length ik)
          then elim (fetch (drop cols ik)) [
            | none ↦ check_pos
            | some buf ↦ evaluate killed beyond condition buf
          ]
          else check_pos
    ]
