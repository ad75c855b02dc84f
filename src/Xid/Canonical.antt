-- ===== src/Xid/Canonical.antt =====
-- plugin/tidesdb_xid.h: the encoder is total on well-formed ids, and the decoder accepts nothing but
-- what the encoder writes.
use tidesdb_mysql.Base.{
  ℕ, zero, suc, ◌+◌, ◌*◌, ◌/◌, ◌%◌, ◌^◌, ◌≤◌, ◌<◌, ◌≡◌, refl, sym, ap, ◌∙◌, Bool, true, some, List,
  [], ◌∷◌, ◌++◌, arith, length, take, drop, length-take, length-drop, take-append_seam,
  take-length_self, take-take, All, IsByte, bit_or_low, bit_and_mask, ℤ, pos, ◌+ℤ◌, to_u64, of_u32,
  of_u64, to_u64-of_u64,
}
use tidesdb_mysql.Xid.{
  Xid, put_u32, get_u32, put_u64, get_u64, lengths_valid, serialize, deserialize, read_payload,
  padded, xid_data_size, xid_max_serialized,
}
use tidesdb_mysql.Xid.RoundTrip.{
  frame, serialize-frame, length-frame, append-put_u64, get_u32_sum, lengths_valid_lem,
}

-- Every id with two parts of at most 64 bytes is encoded if the buffer has room, in 16 bytes more
-- than its parts have, which is never more than the declared maximum.
pub serialize_total :
    (f : ℤ) (m n limit : ℕ) (bytes : List ℕ)
    → m ≤ 64
    → n ≤ 64
    → length bytes ≡ xid_data_size
    → 16 + (m + n) ≤ limit
    → (out : List ℕ) × (serialize f (pos m) (pos n) (some bytes) true limit ≡ some out)
      × (length out ≡ 16 + (m + n))
      × (length out ≤ xid_max_serialized)
serialize_total f m n limit bytes p q l r =
    let s = length-frame f m n (take (m + n) bytes) in
    let t = length-take (m + n) bytes in
    (
      frame f m n (take (m + n) bytes),
      serialize-frame f m n limit bytes p q r,
      omega arith,
      omega arith,
    )

drop-nil : (n : ℕ) → drop {A = ℕ} n [] ≡ []
drop-nil zero = refl
drop-nil (suc n) = refl

drop-drop : (m n : ℕ) (xs : List ℕ) → drop m (drop n xs) ≡ drop (n + m) xs
drop-drop m zero xs = ap (λ (t : ℕ). drop t xs) (omega arith)
drop-drop m (suc n) [] = drop-nil m ∙ sym (drop-nil (suc n + m))
drop-drop m (suc n) (x ∷ xs) =
    let e : suc (n + m) ≡ suc n + m = omega arith in
    drop-drop m n xs ∙ ap (λ (t : ℕ). drop t (x ∷ xs)) e

All-drop : (n : ℕ) (xs : List ℕ) → All IsByte xs → All IsByte (drop n xs)
All-drop zero xs h = h
All-drop (suc n) [] h = tt
All-drop (suc n) (x ∷ xs) h = All-drop n xs h.1

-- Four bytes are written back as they were read.
put_u32-get_u32 : (p : List ℕ) → All IsByte p → 4 ≤ length p → put_u32 (get_u32 p) ++ drop 4 p ≡ p
unfolding put_u32
put_u32-get_u32 [] h l = absurd (omega arith)
put_u32-get_u32 (a ∷ []) h l = absurd (omega arith)
put_u32-get_u32 (a ∷ b ∷ []) h l = absurd (omega arith)
put_u32-get_u32 (a ∷ b ∷ c ∷ []) h l = absurd (omega arith)
put_u32-get_u32 (a ∷ b ∷ c ∷ d ∷ rest) (ha, (hb, (hc, (hd, h)))) l =
    let v = get_u32_sum a b c d rest ha hb hc hd in
    let w : ℕ = get_u32 (a ∷ b ∷ c ∷ d ∷ rest) in
    rw
      (
        bit_and_mask 8 w,
        bit_and_mask 8 (w / 2 ^ 8),
        bit_and_mask 8 (w / 2 ^ 16),
        bit_and_mask 8 (w / 2 ^ 24),
      )
      (let e0 : w % 2 ^ 8 ≡ a = omega arith in
        let e1 : w / 2 ^ 8 % 2 ^ 8 ≡ b = omega arith in
        let e2 : w / 2 ^ 16 % 2 ^ 8 ≡ c = omega arith in
        let e3 : w / 2 ^ 24 % 2 ^ 8 ≡ d = omega arith in rw (e0, e1, e2, e3))

get_u32-lt : (p : List ℕ) → All IsByte p → 4 ≤ length p → get_u32 p < 2 ^ 32
get_u32-lt [] h l = absurd (omega arith)
get_u32-lt (a ∷ []) h l = absurd (omega arith)
get_u32-lt (a ∷ b ∷ []) h l = absurd (omega arith)
get_u32-lt (a ∷ b ∷ c ∷ []) h l = absurd (omega arith)
get_u32-lt (a ∷ b ∷ c ∷ d ∷ rest) (ha, (hb, (hc, (hd, h)))) l =
    omega (arith, get_u32_sum a b c d rest ha hb hc hd)

put_u64-get_u64 :
    (p : List ℕ)
    → All IsByte p
    → 8 ≤ length p
    → put_u64 (to_u64 (of_u64 (get_u64 p))) ++ drop 8 p ≡ p
unfolding get_u64
put_u64-get_u64 p h l =
    let h' = All-drop 4 p h in
    let l' : 4 ≤ length (drop 4 p) = omega (arith, length-drop 4 p) in
    let lo = get_u32-lt p h (omega arith) in
    let hi = get_u32-lt (drop 4 p) h' l' in
    let sum = bit_or_low 32 (get_u32 p) (get_u32 (drop 4 p)) lo in
    let v : ℕ = get_u32 p + get_u32 (drop 4 p) * 2 ^ 32 in
    let low : v % 2 ^ 32 ≡ get_u32 p = omega arith in
    let high : v / 2 ^ 32 % 2 ^ 32 ≡ get_u32 (drop 4 p) = omega arith in
    rw (
      sum,
      to_u64-of_u64 v (omega arith),
      append-put_u64 v (drop 8 p),
      low,
      high,
      ← drop-drop 4 4 p,
      put_u32-get_u32 (drop 4 p) h' l',
      put_u32-get_u32 p h (omega arith),
    )

-- Any 16 bytes or more are a frame of the numbers that the decoder reads from them.
input-frame :
    (p : List ℕ)
    → All IsByte p
    → 16 ≤ length p
    → frame (of_u64 (get_u64 p)) (get_u32 (drop 8 p)) (get_u32 (drop 12 p)) (drop 16 p) ≡ p
unfolding frame
input-frame p h l =
    let l8 : 4 ≤ length (drop 8 p) = omega (arith, length-drop 8 p) in
    let l12 : 4 ≤ length (drop 12 p) = omega (arith, length-drop 12 p) in
    rw (
      ← drop-drop 4 12 p,
      put_u32-get_u32 (drop 12 p) (All-drop 12 p h) l12,
      ← drop-drop 4 8 p,
      put_u32-get_u32 (drop 8 p) (All-drop 8 p h) l8,
      put_u64-get_u64 p h (omega arith),
    )

take-padded : (n : ℕ) (payload : List ℕ) → length payload ≡ n → take n (padded n payload) ≡ payload
unfolding padded
take-padded n payload e =
    let whole : take n payload ≡ payload = rw (← e) (take-length_self payload) in
    rw (whole, ← e) (take-append_seam payload _)

read_payload_fields :
    (p : List ℕ) (g b : ℤ) {x : Xid}
    → read_payload p g b ≡ some x
    → (lengths_valid g b ≡ true)
      × (length p ≡ 16 + to_u64 (g +ℤ b))
      × (x.format_id ≡ of_u64 (get_u64 p))
      × (x.gtrid_len ≡ g)
      × (x.bqual_len ≡ b)
      × (x.bytes ≡ padded (to_u64 (g +ℤ b)) (drop 16 p))
unfolding read_payload
read_payload_fields p g b e = ground arith

of_u32_inj : (u m : ℕ) → u < 2 ^ 32 → m ≤ 64 → of_u32 u ≡ pos m → u ≡ m
of_u32_inj u m h l e = ground arith

deserialize_long :
    (p : List ℕ) {x : Xid}
    → deserialize (some p) true ≡ some x
    → (16 ≤ length p)
      × (read_payload p (of_u32 (get_u32 (drop 8 p))) (of_u32 (get_u32 (drop 12 p))) ≡ some x)
unfolding deserialize
deserialize_long p e = ground arith

-- The decoder accepts only what the encoder writes: encoding the decoded id again gives the
-- same bytes.
pub serialize-deserialize :
    (p : List ℕ) {x : Xid}
    → All IsByte p
    → deserialize (some p) true ≡ some x
    → serialize x.format_id x.gtrid_len x.bqual_len (some x.bytes) true xid_max_serialized ≡ some p
serialize-deserialize p {x} h e =
    let (long, e') = deserialize_long p e in
    let g : ℤ = of_u32 (get_u32 (drop 8 p)) in
    let b : ℤ = of_u32 (get_u32 (drop 12 p)) in
    let (v, l, ef, eg, eb, ey) = read_payload_fields p g b e' in
    let (m, n, gm, bn, pm, pn) = lengths_valid_lem g b v in
    let um =
      of_u32_inj _ m (get_u32-lt (drop 8 p) (All-drop 8 p h) (omega (arith, length-drop 8 p))) pm
        gm in
    let un =
      of_u32_inj _ n (get_u32-lt (drop 12 p) (All-drop 12 p h) (omega (arith, length-drop 12 p))) pn
        bn in
    let size : to_u64 (g +ℤ b) ≡ m + n = rw (gm, bn) (ground arith) in
    let payload : length (drop 16 p) ≡ m + n = omega (arith, length-drop 16 p) in
    let again = input-frame p h long in
    rw (
      ef,
      eg,
      eb,
      ey,
      size,
      gm,
      bn,
      serialize-frame (of_u64 (get_u64 p)) m n xid_max_serialized (padded (m + n) (drop 16 p)) pm pn
          (omega arith),
      take-padded (m + n) (drop 16 p) payload,
      ← um,
      ← un,
      again,
    )

-- Only the meaningful bytes of the buffer are encoded.
pub serialize-take :
    (f g b : ℤ) (bytes : List ℕ) (out : Bool) (n : ℕ)
    → serialize f g b (some (take (to_u64 (g +ℤ b)) bytes)) out n
      ≡ serialize f g b (some bytes) out n
unfolding serialize
serialize-take f g b bytes out n = rw (take-take (to_u64 (g +ℤ b)) bytes) refl
