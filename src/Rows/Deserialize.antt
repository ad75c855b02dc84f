-- ===== src/Rows/Deserialize.antt =====
-- The decoder of rows, deserialize_row of plugin/ha_tidesdb.cc. A record buffer is the byte at each
-- address; a slot is what Field and the table of codecs say of a column of the record.
use tidesdb_mysql.Base.{
  ℕ, zero, suc, ◌+◌, ◌*◌, ◌/◌, ◌%◌, Bool, false, ◌&&◌, ◌||◌, not, Option, none, some, List, [], ◌∷◌,
  ◌-◌, if◌then◌else◌, ◌==◌, ltb, length, take, drop, min,
}
use tidesdb_mysql.Fts.{of_le}
use tidesdb_mysql.Rows.{Column}
use tidesdb_mysql.Rows.Serialize.{row_header_magic}

abbrev pub row_header_size : ℕ
row_header_size = 5

abbrev pub Buffer : Type 0
Buffer = ℕ → ℕ

unfoldable pub bytes_of : Buffer → ℕ → ℕ → List ℕ
bytes_of b a zero = []
bytes_of b a (suc n) = b a ∷ bytes_of b (suc a) n

-- memcpy to the address.
unfoldable pub copy_to : ℕ → List ℕ → Buffer → Buffer
copy_to a [] b j = b j
copy_to a (x ∷ xs) b j = let later = copy_to (suc a) xs b j in if j == a then x else later

unfoldable pub bit_at : ℕ → ℕ → ℕ
bit_at zero x = x % 2
bit_at (suc k) x = bit_at k (x / 2)

-- `|= null_bit` or `&= ~null_bit`.
unfoldable pub with_bit : ℕ → Bool → ℕ → ℕ
with_bit zero on x = 2 * (x / 2) + (if on then 1 else 0)
with_bit (suc k) on x = 2 * with_bit k on (x / 2) + x % 2

-- `null_byte` and `null_bit` are where the null bit is, `copied` is FIELD_CODEC_MEMCPY. `unpack` answers
-- the buffer and, unless it fails, the input that is left.
pub record Slot : Type 0 where
  pub offset : ℕ
  pub pack_length : ℕ
  pub nullable : Bool
  pub null_byte : ℕ
  pub null_bit : ℕ
  pub copied : Bool
  pub pack : Buffer → List ℕ
  pub unpack : List ℕ → Buffer → Buffer × Option (List ℕ)

pub record Layout : Type 0 where
  pub reclength : ℕ
  pub null_bytes : ℕ
  pub default_values : Buffer
  pub slots : List Slot

unfoldable pub is_real_null : Slot → Buffer → Bool
is_real_null s b = s.nullable && bit_at s.null_bit (b s.null_byte) == 1

-- What the encoder reads of a column.
unfoldable pub column_of : Slot → Column Buffer
column_of s = record {
  is_null = is_real_null s;
  copied = s.copied;
  raw = λ b. bytes_of b s.offset s.pack_length;
  packed = s.pack;
}

unfoldable pub set_null : Slot → Bool → Buffer → Buffer
set_null s on b j = if s.nullable && j == s.null_byte then with_bit s.null_bit on (b j) else b j

-- A column that was added after the row was written.
unfoldable pub fill_default : Buffer → Slot → Buffer → Buffer
fill_default d s b =
    set_null s (is_real_null s d) (copy_to s.offset (bytes_of d s.offset s.pack_length) b)

unfoldable pub fill_defaults : Buffer → List Slot → Buffer → Buffer
fill_defaults d [] b = b
fill_defaults d (s ∷ ss) b = fill_defaults d ss (fill_default d s b)

unfoldable pub unpack_slot : Slot → List ℕ → Buffer → Buffer × Option (List ℕ)
unpack_slot s from b =
    if s.copied
    then (if ltb (length from) s.pack_length
        then (b, none)
        else (copy_to s.offset (take s.pack_length from) b, some (drop s.pack_length from)))
    else s.unpack from b

unfoldable pub unpack_slots : List Slot → List ℕ → Buffer → Buffer
unpack_slots [] from b = b
unpack_slots (s ∷ ss) from b =
    let skipped = unpack_slots ss from b in
    let r = unpack_slot s from b in
    let unpacked : Buffer = elim r.1 [ none ↦ r.0 | some rest ↦ unpack_slots ss rest r.0 ] in
    if is_real_null s b then skipped else if length from == 0 then b else unpacked

unfoldable pub has_magic : List ℕ → Bool
has_magic [] = false
has_magic (x ∷ xs) = x == row_header_magic

unfoldable pub zeroed : ℕ → Buffer → Buffer
zeroed n b j = if ltb j n then 0 else b j

-- The null bitmap: what is stored of it, and the default values for the rest.
unfoldable pub copy_bitmap : Layout → ℕ → List ℕ → Buffer → Buffer
copy_bitmap l stored from b =
    let copy_nb = min stored l.null_bytes in
    copy_to copy_nb (bytes_of l.default_values copy_nb (l.null_bytes - copy_nb))
      (copy_to 0 (take copy_nb from) b)

unfoldable pub read_columns : Layout → ℕ → ℕ → List ℕ → Buffer → Buffer
read_columns l stored fields from b =
    let added = drop fields l.slots in
    let b' = fill_defaults l.default_values added (copy_bitmap l stored from b) in
    if ltb (length from) stored then b else unpack_slots (take fields l.slots) (drop stored from) b'

unfoldable pub deserialize_row : Layout → List ℕ → Buffer → Buffer
deserialize_row l row b =
    if ltb (length row) row_header_size || not (has_magic row)
    then zeroed l.reclength b
    else read_columns l (of_le (take 2 (drop 1 row))) (of_le (take 2 (drop 3 row)))
        (drop row_header_size row) b

-- A stored row, which is decrypted first where the table is encrypted; an empty plaintext is a failure.
unfoldable pub deserialize_stored : Option (List ℕ → List ℕ) → Layout → List ℕ → Buffer → Buffer
deserialize_stored none l row b = deserialize_row l row b
deserialize_stored (some decrypt) l row b =
    let plain = decrypt row in
    if length plain == 0 then zeroed l.reclength b else deserialize_row l plain b
