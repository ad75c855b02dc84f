-- ===== src/Xid/Examples.antt =====
-- Instances of the laws of plugin/tidesdb_xid.h at concrete ids.
use tidesdb_mysql.Base.{ℕ, ◌≡◌, refl, true, some, List, [], ◌∷◌, arith, replicate, pos, negsuc}
use tidesdb_mysql.Xid.{Xid, serialize, deserialize, padded, xid_max_serialized}
use tidesdb_mysql.Xid.RoundTrip.{Decodes, deserialize-serialize}
use tidesdb_mysql.Xid.Canonical.{serialize-deserialize}

-- A buffer with two meaningful bytes.
abbrev two_bytes : List ℕ
two_bytes = 7 ∷ 9 ∷ replicate 126 0

-- formatID -2, a gtrid of one byte and a bqual of one byte.
abbrev pub wire : List ℕ
wire = 254 ∷ 255 ∷ 255 ∷ 255 ∷ 255 ∷ 255 ∷ 255 ∷ 255 ∷ 1 ∷ 0 ∷ 0 ∷ 0 ∷ 1 ∷ 0 ∷ 0 ∷ 0 ∷ 7 ∷ 9 ∷ []

pub wire_is_written : serialize (negsuc 1) (pos 1) (pos 1) (some two_bytes) true 144 ≡ some wire
unfolding serialize tidesdb_mysql.Xid.lengths_valid tidesdb_mysql.Xid.put_u32
    tidesdb_mysql.Xid.put_u64
wire_is_written = refl

deserialize-serialize_example : Decodes (negsuc 1) (pos 1) (pos 1) two_bytes wire
deserialize-serialize_example =
    deserialize-serialize (negsuc 1) (pos 1) (pos 1) two_bytes 144 (omega arith) refl
      wire_is_written

abbrev pub decoded_wire : Xid
decoded_wire = record {
  format_id = negsuc 1;
  gtrid_len = pos 1;
  bqual_len = pos 1;
  bytes = two_bytes;
}

pub wire_is_read : deserialize (some wire) true ≡ some decoded_wire
unfolding deserialize tidesdb_mysql.Xid.read_payload tidesdb_mysql.Xid.lengths_valid
    tidesdb_mysql.Xid.get_u32 tidesdb_mysql.Xid.get_u64 padded
wire_is_read = refl

serialize-deserialize_example :
    serialize (negsuc 1) (pos 1) (pos 1) (some two_bytes) true xid_max_serialized ≡ some wire
serialize-deserialize_example = serialize-deserialize wire (omega arith) wire_is_read
