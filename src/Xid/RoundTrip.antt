-- ===== src/Xid/RoundTrip.antt =====
-- The laws of plugin/tidesdb_xid.h: the integers, the accepted lengths, and the round trips.
use tidesdb_mysql.Base.{
  ℕ, ◌+◌, ◌*◌, ◌/◌, ◌%◌, ◌^◌, ◌≤◌, ◌<◌, ◌≡◌, refl, ap, ◌∙◌, true, false, some, List, [], ◌∷◌, ◌++◌,
  zero, suc, arith, length, take, drop, length-take, bit_or_low, bit_and_mask, ℤ, pos, negsuc, ◌+ℤ◌,
  to_u64, to_u32, of_u64, of_u32, IsInt64, of_u64-to_u64, ltb, ◌==◌, ==_refl, to_u64-lt,
}
use tidesdb_mysql.Xid.{
  Xid, put_u32, get_u32, put_u64, get_u64, lengths_valid, serialize, deserialize, read_payload,
  padded, xid_data_size,
}

pub get_u32_sum :
    (a b c d : ℕ) (rest : List ℕ)
    → a < 256
    → b < 256
    → c < 256
    → d < 256
    → get_u32 (a ∷ b ∷ c ∷ d ∷ rest) ≡ a + b * 2 ^ 8 + c * 2 ^ 16 + d * 2 ^ 24
unfolding get_u32
get_u32_sum a b c d rest p q r s =
    let x = bit_or_low 8 a b (omega arith) in
    let y = bit_or_low 16 (a + b * 2 ^ 8) c (omega arith) in
    let z = bit_or_low 24 (a + b * 2 ^ 8 + c * 2 ^ 16) d (omega arith) in rw (x, y, z)

pub get_u32-put_u32 : (v : ℕ) (rest : List ℕ) → v < 2 ^ 32 → get_u32 (put_u32 v ++ rest) ≡ v
unfolding put_u32
get_u32-put_u32 v rest h =
    let a = bit_and_mask 8 v in
    let b = bit_and_mask 8 (v / 2 ^ 8) in
    let c = bit_and_mask 8 (v / 2 ^ 16) in
    let d = bit_and_mask 8 (v / 2 ^ 24) in
    rw (a, b, c, d)
      (get_u32_sum (v % 2 ^ 8) (v / 2 ^ 8 % 2 ^ 8) (v / 2 ^ 16 % 2 ^ 8) (v / 2 ^ 24 % 2 ^ 8) rest
          (omega arith) (omega arith) (omega arith) (omega arith)
        ∙ omega arith)

length-put_u32 : (v : ℕ) → length (put_u32 v) ≡ 4
unfolding put_u32
length-put_u32 v = refl

drop-put_u32 : (v : ℕ) (rest : List ℕ) → drop 4 (put_u32 v ++ rest) ≡ rest
unfolding put_u32
drop-put_u32 v rest = refl

pub append-put_u64 :
    (v : ℕ) (rest : List ℕ)
    → put_u64 v ++ rest ≡ put_u32 (v % 2 ^ 32) ++ (put_u32 (v / 2 ^ 32 % 2 ^ 32) ++ rest)
unfolding put_u64 put_u32
append-put_u64 v rest = rw (bit_and_mask 32 v, bit_and_mask 32 (v / 2 ^ 32))

pub get_u64-put_u64 : (v : ℕ) (rest : List ℕ) → v < 2 ^ 64 → get_u64 (put_u64 v ++ rest) ≡ v
unfolding get_u64
get_u64-put_u64 v rest h =
    let low = v % 2 ^ 32 in
    let high = v / 2 ^ 32 % 2 ^ 32 in
    let a = get_u32-put_u32 low (put_u32 high ++ rest) (omega arith) in
    let b = get_u32-put_u32 high rest (omega arith) in
    rw (append-put_u64 v rest, drop-put_u32 low, a, b, bit_or_low 32 low high (omega arith))
      (omega arith)

-- The bytes of an id whose parts have `m` and `n` bytes, with the payload last.
unfoldable pub frame : ℤ → ℕ → ℕ → List ℕ → List ℕ
frame f m n payload = put_u64 (to_u64 f) ++ (put_u32 m ++ (put_u32 n ++ payload))

pub length-frame :
    (f : ℤ) (m n : ℕ) (payload : List ℕ) → length (frame f m n payload) ≡ 16 + length payload
unfolding frame put_u64 put_u32
length-frame f m n payload = omega arith

lengths_valid_pos : (m n : ℕ) → m ≤ 64 → n ≤ 64 → lengths_valid (pos m) (pos n) ≡ true
unfolding lengths_valid
lengths_valid_pos m n p q = ground arith

-- The accepted lengths are exactly those of two parts of at most 64 bytes.
pub lengths_valid_lem :
    (g b : ℤ)
    → lengths_valid g b ≡ true
    → (m : ℕ) × (n : ℕ) × (g ≡ pos m) × (b ≡ pos n) × (m ≤ 64) × (n ≤ 64)
unfolding lengths_valid
lengths_valid_lem (pos m) (pos n) h = (m, n, refl, refl, ground arith, ground arith)
lengths_valid_lem (pos m) (negsuc n) h = absurd (ground arith)
lengths_valid_lem (negsuc m) (pos n) h = absurd (ground arith)
lengths_valid_lem (negsuc m) (negsuc n) h = absurd (ground arith)

-- A well-formed id is encoded whenever the buffer has room.
pub serialize-frame :
    (f : ℤ) (m n cap : ℕ) (bytes : List ℕ)
    → m ≤ 64
    → n ≤ 64
    → 16 + (m + n) ≤ cap
    → serialize f (pos m) (pos n) (some bytes) true cap ≡ some (frame f m n (take (m + n) bytes))
unfolding serialize frame
serialize-frame f m n cap bytes p q r =
    let valid = lengths_valid_pos m n p q in
    let size : to_u64 (pos m +ℤ pos n) ≡ m + n = ground arith in
    let g : to_u32 (pos m) ≡ m = omega arith in
    let b : to_u32 (pos n) ≡ n = omega arith in
    let room : ltb cap (16 + (m + n)) ≡ false = ground arith in rw (valid, size, g, b, room)

drop-frame_gtrid :
    (f : ℤ) (m n : ℕ) (payload : List ℕ)
    → drop 8 (frame f m n payload) ≡ put_u32 m ++ (put_u32 n ++ payload)
unfolding frame put_u64 put_u32
drop-frame_gtrid f m n payload = refl

drop-frame_bqual :
    (f : ℤ) (m n : ℕ) (payload : List ℕ) → drop 12 (frame f m n payload) ≡ put_u32 n ++ payload
unfolding frame put_u64 put_u32
drop-frame_bqual f m n payload = refl

gtrid-frame :
    (f : ℤ) (m n : ℕ) (payload : List ℕ)
    → m ≤ 64
    → of_u32 (get_u32 (drop 8 (frame f m n payload))) ≡ pos m
gtrid-frame f m n payload h =
    rw (drop-frame_gtrid f m n payload, get_u32-put_u32 m (put_u32 n ++ payload) (omega arith))
      (ground arith)

bqual-frame :
    (f : ℤ) (m n : ℕ) (payload : List ℕ)
    → n ≤ 64
    → of_u32 (get_u32 (drop 12 (frame f m n payload))) ≡ pos n
bqual-frame f m n payload h =
    rw (drop-frame_bqual f m n payload, get_u32-put_u32 n payload (omega arith)) (ground arith)

format-frame :
    (f : ℤ) (m n : ℕ) (payload : List ℕ) → IsInt64 f → of_u64 (get_u64 (frame f m n payload)) ≡ f
unfolding frame
format-frame f m n payload h =
    ap of_u64 (get_u64-put_u64 (to_u64 f) (put_u32 m ++ (put_u32 n ++ payload)) (to_u64-lt f))
    ∙ of_u64-to_u64 f h

drop-frame : (f : ℤ) (m n : ℕ) (payload : List ℕ) → drop 16 (frame f m n payload) ≡ payload
unfolding frame put_u64 put_u32
drop-frame f m n payload = refl

abbrev pub decoded : ℤ → ℕ → ℕ → List ℕ → Xid
decoded f m n payload = record {
  format_id = f;
  gtrid_len = pos m;
  bqual_len = pos n;
  bytes = padded (m + n) payload;
}

deserialize-frame :
    (f : ℤ) (m n : ℕ) (payload : List ℕ)
    → IsInt64 f
    → m ≤ 64
    → n ≤ 64
    → length payload ≡ m + n
    → deserialize (some (frame f m n payload)) true ≡ some (decoded f m n payload)
unfolding deserialize read_payload
deserialize-frame f m n payload h p q l =
    let size : to_u64 (pos m +ℤ pos n) ≡ m + n = ground arith in
    let long : ltb (16 + (m + n)) 16 ≡ false = ground arith in
    let exact : (16 + (m + n) == 16 + (m + n)) ≡ true = ==_refl (16 + (m + n)) in
    rw (
      length-frame f m n payload,
      l,
      gtrid-frame f m n payload p,
      bqual-frame f m n payload q,
      format-frame f m n payload h,
      drop-frame f m n payload,
      lengths_valid_pos m n p q,
      size,
      long,
      exact,
    )

serialize_bounds :
    (f : ℤ) (m n cap : ℕ) (bytes : List ℕ) {out : List ℕ}
    → serialize f (pos m) (pos n) (some bytes) true cap ≡ some out
    → (m ≤ 64) × (n ≤ 64) × (16 + (m + n) ≤ cap)
unfolding serialize lengths_valid
serialize_bounds f m n cap bytes e = ground arith

serialize-negsuc :
    (f g b : ℤ) (cap : ℕ) (bytes : List ℕ) {out : List ℕ}
    → lengths_valid g b ≡ false
    → serialize f g b (some bytes) true cap ≡ some out
    → ⊥
unfolding serialize
serialize-negsuc f g b cap bytes v e = ground arith

serialize_out :
    (f : ℤ) (m n cap : ℕ) (bytes : List ℕ) {out : List ℕ}
    → serialize f (pos m) (pos n) (some bytes) true cap ≡ some out
    → out ≡ frame f m n (take (m + n) bytes)
serialize_out f m n limit bytes e =
    let (p, q, r) = serialize_bounds f m n limit bytes e in
    cc (serialize-frame f m n limit bytes p q r)

take-take : (n : ℕ) (bytes : List ℕ) → take n (take n bytes) ≡ take n bytes
take-take zero bytes = refl
take-take (suc n) [] = refl
take-take (suc n) (b ∷ bytes) = ap (◌∷◌ b) (take-take n bytes)

abbrev pub Decodes : ℤ → ℤ → ℤ → List ℕ → List ℕ → Type 0
Decodes f g b bytes out =
    deserialize (some out) true
    ≡ some (record {
      format_id = f;
      gtrid_len = g;
      bqual_len = b;
      bytes = padded (to_u64 (g +ℤ b)) bytes;
    })

frame-Decodes :
    (f : ℤ) (m n : ℕ) (bytes : List ℕ)
    → IsInt64 f
    → m ≤ 64
    → n ≤ 64
    → length bytes ≡ xid_data_size
    → Decodes f (pos m) (pos n) bytes (frame f m n (take (m + n) bytes))
unfolding padded
frame-Decodes f m n bytes h p q l =
    let s : length (take (m + n) bytes) ≡ m + n = omega (arith, length-take (m + n) bytes) in
    let size : to_u64 (pos m +ℤ pos n) ≡ m + n = ground arith in
    rw (deserialize-frame f m n (take (m + n) bytes) h p q s, size, take-take (m + n) bytes)

-- What the encoder writes, the decoder reads back: the three integers, and a buffer of 128 bytes
-- that holds the first `gtrid_len + bqual_len` bytes of the data and zeros behind them.
pub deserialize-serialize :
    (f g b : ℤ) (bytes : List ℕ) (limit : ℕ) {out : List ℕ}
    → IsInt64 f
    → length bytes ≡ xid_data_size
    → serialize f g b (some bytes) true limit ≡ some out
    → Decodes f g b bytes out
unfolding lengths_valid
deserialize-serialize f (pos m) (pos n) bytes limit h l e =
    let (p, q, r) = serialize_bounds f m n limit bytes e in
    rw (serialize_out f m n limit bytes e) (frame-Decodes f m n bytes h p q l)
deserialize-serialize f (pos m) (negsuc n) bytes limit h l e =
    absurd (serialize-negsuc f (pos m) (negsuc n) limit bytes (ground arith) e)
deserialize-serialize f (negsuc m) b bytes limit h l e =
    absurd (serialize-negsuc f (negsuc m) b limit bytes (ground arith) e)
