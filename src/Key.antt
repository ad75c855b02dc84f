-- ===== src/Key.antt =====
-- Keys of plugin/ha_tidesdb.cc (rows of a table without a primary key) and of
-- plugin/tidesdb_atomic_ddl_pure.cc (the records of the data dictionary). A buffer is the list of its
-- bytes.
pub mod Order
pub mod Examples
use tidesdb_mysql.Base.{
  ℕ, suc, ◌*◌, ◌-◌, ◌+◌, ◌%◌, ◌/◌, ◌^◌, bit_xor, Bool, true, false, not, ◌&&◌, ◌||◌, Option, none,
  some, List, [], ◌∷◌, ◌++◌, if◌then◌else◌, ltb, ◌==◌, length, take, get_or, be_bytes, of_be,
}

abbrev pub key_ns_data : ℕ
key_ns_data = 1

pub encode_be64 : ℕ → List ℕ
encode_be64 id = be_bytes 8 id

pub decode_be64 : List ℕ → ℕ
decode_be64 buf = of_be 0 (take 8 buf)

unfoldable pub is_data_key : List ℕ → Bool
is_data_key [] = false
is_data_key (b ∷ key) = b == key_ns_data

unfoldable pub reverse_bytes : List ℕ → List ℕ
reverse_bytes [] = []
reverse_bytes (b ∷ bs) = reverse_bytes bs ++ b ∷ []

-- The last byte with its sign bit flipped.
unfoldable pub flip_last : List ℕ → List ℕ
flip_last [] = []
flip_last (b ∷ []) = bit_xor b 0x80 ∷ []
flip_last (b ∷ c ∷ bs) = b ∷ flip_last (c ∷ bs)

-- What is stored for the sort key of an integer, or none if the width is rejected.
unfoldable pub decode_int_sort_key : List ℕ → ℕ → Bool → Option (List ℕ)
decode_int_sort_key src sort_len is_signed =
    if sort_len == 0 || (ltb 4 sort_len && not (sort_len == 8))
    then none
    else some (
        if is_signed
        then flip_last (reverse_bytes (take sort_len src))
        else reverse_bytes (take sort_len src))

-- `sdi_key_t`.
pub record SdiKey : Type 0 where
  pub type_ : ℕ
  pub id : ℕ

-- The four bytes of the type, and the eight of the id.
pub pack_key : SdiKey → List ℕ
pack_key k =
    k.type_ / 2 ^ 24 % 256
    ∷ k.type_ / 2 ^ 16 % 256
    ∷ k.type_ / 2 ^ 8 % 256
    ∷ k.type_ % 256
    ∷ be_bytes 8 k.id
