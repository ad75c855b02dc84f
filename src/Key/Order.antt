-- ===== src/Key/Order.antt =====
-- The keys of plugin/ha_tidesdb.cc and plugin/tidesdb_atomic_ddl_pure.cc sort as what they encode.
use tidesdb_mysql.Base.{
  ℕ, ◌<◌, ◌^◌, ◌%◌, ◌≡◌, ◌∙◌, refl, sym, ◌++◌, arith, take, be_bytes, of_be-be_bytes,
  length-be_bytes, memcmp, memcmp-be_bytes, memcmp-append, then_compare,
}
use Prim.Native.Nat.{compare}
use tidesdb_mysql.Key.{SdiKey, encode_be64, decode_be64, pack_key}

-- The hidden row id is read back from its key, and the keys of two ids compare by memcmp as the ids do.
pub encode_be64_lem :
    (x y : ℕ)
    → x < 2 ^ 64
    → y < 2 ^ 64
    → (decode_be64 (encode_be64 x) ≡ x) × (memcmp (encode_be64 x) (encode_be64 y) ≡ compare x y)
unfolding encode_be64 decode_be64 be_bytes
encode_be64_lem x y l m =
    let small : x % 256 ^ 8 ≡ x = omega arith in
    let small' : y % 256 ^ 8 ≡ y = omega arith in
    let all : take 8 (be_bytes 8 x) ≡ be_bytes 8 x = refl in
    (
      rw all (of_be-be_bytes 8 0 x (omega arith) ∙ omega arith),
      memcmp-be_bytes 8 x y ∙ rw (small, small') refl,
    )

pack_key_parts : (k : SdiKey) → pack_key k ≡ be_bytes 4 k.type_ ++ be_bytes 8 k.id
unfolding pack_key be_bytes
pack_key_parts k = ground arith

-- The packed keys of the data dictionary compare by memcmp as the keys do, by the type and then the id.
pub pack_key_order :
    (k l : SdiKey)
    → k.type_ < 2 ^ 32
    → l.type_ < 2 ^ 32
    → k.id < 2 ^ 64
    → l.id < 2 ^ 64
    → memcmp (pack_key k) (pack_key l) ≡ then_compare (compare k.type_ l.type_) (compare k.id l.id)
pack_key_order k l a b c d =
    let small : k.type_ % 256 ^ 4 ≡ k.type_ = omega arith in
    let small' : l.type_ % 256 ^ 4 ≡ l.type_ = omega arith in
    let id : k.id % 256 ^ 8 ≡ k.id = omega arith in
    let id' : l.id % 256 ^ 8 ≡ l.id = omega arith in
    rw (pack_key_parts k, pack_key_parts l)
      (memcmp-append (be_bytes 4 k.type_) (be_bytes 4 l.type_) (be_bytes 8 k.id) (be_bytes 8 l.id)
          (length-be_bytes 4 k.type_ ∙ sym (length-be_bytes 4 l.type_))
        ∙ rw
            (memcmp-be_bytes 4 k.type_ l.type_, memcmp-be_bytes 8 k.id l.id, small, small', id, id')
            refl)
