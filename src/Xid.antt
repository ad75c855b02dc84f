-- ===== src/Xid.antt =====
-- plugin/tidesdb_xid.h: the wire format of the transaction id that is recorded at prepare.
-- A buffer is the list of its bytes; `long` is ℤ, an unsigned number is ℕ, and a byte is a number
-- below 256. The functions return the bytes that they write, and `none` where the source returns 0
-- or false.
pub mod RoundTrip
pub mod Canonical
pub mod Examples
use tidesdb_mysql.Base.{
  ℕ, ◌+◌, ◌-◌, ◌*◌, ◌/◌, ◌%◌, ◌^◌, bit_and, bit_or, Bool, true, false, not, ◌&&◌, ◌||◌, Option,
  none, some, List, [], ◌∷◌, ◌++◌, if◌then◌else◌, ltb, leb, ◌==◌, length, take, drop, replicate,
  get_or, ℤ, pos, negsuc, ◌+ℤ◌, ltb_ℤ, to_u64, to_u32, of_u64, of_u32,
}

abbrev pub xid_data_size : ℕ
xid_data_size = 128

abbrev pub xid_max_part : ℤ
xid_max_part = pos 64

abbrev pub xid_header_size : ℕ
xid_header_size = 16

abbrev pub xid_max_serialized : ℕ
xid_max_serialized = xid_header_size + xid_data_size

-- The four bytes at `p`.
pub put_u32 : ℕ → List ℕ
put_u32 v =
    bit_and v 0xff
    ∷ bit_and (v / 2 ^ 8) 0xff
    ∷ bit_and (v / 2 ^ 16) 0xff
    ∷ bit_and (v / 2 ^ 24) 0xff
    ∷ []

-- A byte of a buffer; the callers stay inside.
abbrev pub byte_at : List ℕ → ℕ → ℕ
byte_at p i = get_or p i 0

pub get_u32 : List ℕ → ℕ
get_u32 p =
    bit_or (bit_or (bit_or (byte_at p 0) (byte_at p 1 * 2 ^ 8)) (byte_at p 2 * 2 ^ 16))
      (byte_at p 3 * 2 ^ 24)

pub put_u64 : ℕ → List ℕ
put_u64 v = put_u32 (bit_and v 0xffffffff) ++ put_u32 (bit_and (v / 2 ^ 32) 0xffffffff)

pub get_u64 : List ℕ → ℕ
get_u64 p = bit_or (get_u32 p) (get_u32 (drop 4 p) * 2 ^ 32)

pub lengths_valid : ℤ → ℤ → Bool
lengths_valid gtrid_len bqual_len =
    if ltb_ℤ gtrid_len (pos 0) || ltb_ℤ bqual_len (pos 0)
    then false
    else if ltb_ℤ xid_max_part gtrid_len || ltb_ℤ xid_max_part bqual_len
    then false
    else leb (to_u64 (gtrid_len +ℤ bqual_len)) xid_data_size

-- `data` is `none` for a null pointer, and `out` tells whether the output pointer is set.
pub serialize : ℤ → ℤ → ℤ → Option (List ℕ) → Bool → ℕ → Option (List ℕ)
serialize format_id gtrid_len bqual_len none out out_cap =
    if not out || ltb_ℤ (pos 0) (gtrid_len +ℤ bqual_len)
    then none
    else if not (lengths_valid gtrid_len bqual_len)
    then none
    else if ltb out_cap (xid_header_size + to_u64 (gtrid_len +ℤ bqual_len))
    then none
    else some
        (put_u64 (to_u64 format_id) ++ (put_u32 (to_u32 gtrid_len) ++ put_u32 (to_u32 bqual_len)))
serialize format_id gtrid_len bqual_len (some bytes) out out_cap =
    if not out
    then none
    else if not (lengths_valid gtrid_len bqual_len)
    then none
    else if ltb out_cap (xid_header_size + to_u64 (gtrid_len +ℤ bqual_len))
    then none
    else some (
        put_u64 (to_u64 format_id)
        ++ (put_u32 (to_u32 gtrid_len)
            ++ (put_u32 (to_u32 bqual_len) ++ take (to_u64 (gtrid_len +ℤ bqual_len)) bytes)))

-- What `deserialize` stores through its out-parameters; `bytes` is the 128-byte buffer.
pub record Xid : Type 0 where
  pub format_id : ℤ
  pub gtrid_len : ℤ
  pub bqual_len : ℤ
  pub bytes : List ℕ

-- The buffer after `memset` to zero and `memcpy` of the payload.
pub padded : ℕ → List ℕ → List ℕ
padded n bytes = take n bytes ++ replicate (xid_data_size - n) 0

-- What follows once both lengths are read.
pub read_payload : List ℕ → ℤ → ℤ → Option Xid
read_payload input g b =
    if not (lengths_valid g b)
    then none
    else if not (length input == xid_header_size + to_u64 (g +ℤ b))
    then none
    else some (record {
      format_id = of_u64 (get_u64 input);
      gtrid_len = g;
      bqual_len = b;
      bytes = padded (to_u64 (g +ℤ b)) (drop xid_header_size input);
    })

-- `outs` tells whether all the out-parameters are set.
pub deserialize : Option (List ℕ) → Bool → Option Xid
deserialize none outs = none
deserialize (some input) outs =
    if not outs
    then none
    else if ltb (length input) xid_header_size
    then none
    else read_payload input (of_u32 (get_u32 (drop 8 input))) (of_u32 (get_u32 (drop 12 input)))
