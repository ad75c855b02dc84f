-- ===== src/Rows/AddedColumns.antt =====
-- The columns that a table got after a row was written: deserialize_row of plugin/ha_tidesdb.cc gives
-- them their default values and leaves the other columns alone.
use tidesdb_mysql.Base.{
  ℕ, ◌+◌, ◌<◌, ◌≤◌, ◌≡◌, ◌≢◌, ◌⊎◌, inl, inr, refl, sym, ◌∙◌, arith, false, ◌&&◌, List, [], ◌∷◌,
  length, drop, All, Bool-cases,
}
use tidesdb_mysql.Rows.Deserialize.{
  Buffer, Slot, bytes_of, copy_to, is_real_null, fill_default, fill_defaults,
}
use tidesdb_mysql.Rows.Addresses.{
  length-bytes_of, bytes_of-agree, copy_to-outside, copy_to-inside, is_real_null-set_null,
  set_null-outside, NullsApart, is_real_null-other,
}
use tidesdb_mysql.Rows.Slots.{
  Outside, Apart, AllApart, Zip, Fits, SameNull, is_real_null-agree, All-drop,
}

-- The column has its default value.
pub record Added (d b : Buffer) (u : Slot) : Type 0 where
  pub null_is : is_real_null u b ≡ is_real_null u d
  pub bytes_are : bytes_of b u.offset u.pack_length ≡ bytes_of d u.offset u.pack_length

NullsApart-sym : (s t : Slot) → NullsApart s t → NullsApart t s
unfolding NullsApart
NullsApart-sym s t (inl h) = inl (λ e. h (sym e))
NullsApart-sym s t (inr h) = inr (λ e. h (sym e))

not_null_byte :
    (n : ℕ) (s : Slot) (j : ℕ) → Fits n s → n ≤ j → ((s.nullable ≡ false) ⊎ (j ≢ s.null_byte))
not_null_byte n s j f l = elim (Bool-cases s.nullable) [
  | inl set ↦ inr (λ e. let m = f.null_in set in omega arith)
  | inr unset ↦ inl unset
]

copied-Outside :
    (n : ℕ) (s : Slot) (d b : Buffer) (j : ℕ)
    → Outside s j
    → copy_to s.offset (bytes_of d s.offset s.pack_length) b j ≡ b j
unfolding Outside
copied-Outside n s d b j o =
    let size = length-bytes_of d s.offset s.pack_length in
    copy_to-outside (bytes_of d s.offset s.pack_length) s.offset b j
      (elim o [ inl l ↦ inl l | inr l ↦ inr (omega arith) ])

fill_default-range :
    (n : ℕ) (s : Slot) (d b : Buffer) (j : ℕ)
    → Fits n s
    → Outside s j
    → n ≤ j
    → fill_default d s b j ≡ b j
unfolding fill_default
fill_default-range n s d b j f o l =
    set_null-outside s (is_real_null s d) _ j (not_null_byte n s j f l) ∙ copied-Outside n s d b j o

copied_bitmap :
    (n : ℕ) (s : Slot) (d b : Buffer)
    → Fits n s
    → (j : ℕ) → j < n
    → copy_to s.offset (bytes_of d s.offset s.pack_length) b j ≡ b j
unfolding Outside
copied_bitmap n s d b f j l = let behind = f.behind in copied-Outside n s d b j (inl (omega arith))

fill_default-null :
    (n : ℕ) (s t : Slot) (d b : Buffer)
    → Fits n s
    → Fits n t
    → NullsApart s t
    → is_real_null t (fill_default d s b) ≡ is_real_null t b
unfolding fill_default
fill_default-null n s t d b f g a =
    is_real_null-other s t (is_real_null s d) _ a
    ∙ is_real_null-agree n t _ b g (copied_bitmap n s d b f)

null_twice : (s : Slot) (d : Buffer) → (s.nullable && is_real_null s d) ≡ is_real_null s d
unfolding is_real_null
null_twice s d = ground arith

fill_default-Added : (n : ℕ) (s : Slot) (d b : Buffer) → Fits n s → Added d (fill_default d s b) s
unfolding fill_default
fill_default-Added n s d b f = record {
  null_is = is_real_null-set_null s (is_real_null s d) _ ∙ null_twice s d;
  bytes_are = bytes_of-agree s.pack_length _ d s.offset s.offset (λ k l.
      let behind = f.behind in
      set_null-outside s (is_real_null s d) _ (s.offset + k)
        (not_null_byte n s (s.offset + k) f (omega arith))
      ∙ copy_to-inside s.pack_length d s.offset s.offset b k l);
}

fill_defaults-range :
    (n : ℕ) (us : List Slot) (d b : Buffer) (j : ℕ)
    → All (Fits n) us
    → All (λ u. Outside u j) us
    → n ≤ j
    → fill_defaults d us b j ≡ b j
unfolding fill_defaults
fill_defaults-range n [] d b j f o l = refl
fill_defaults-range n (u ∷ us) d b j f o l =
    fill_defaults-range n us d (fill_default d u b) j f.1 o.1 l
    ∙ fill_default-range n u d b j f.0 o.0 l

fill_defaults-null :
    (n : ℕ) (us : List Slot) (t : Slot) (d b : Buffer)
    → All (Fits n) us
    → Fits n t
    → All (Apart t) us
    → is_real_null t (fill_defaults d us b) ≡ is_real_null t b
unfolding fill_defaults
fill_defaults-null n [] t d b f g a = refl
fill_defaults-null n (u ∷ us) t d b f g a =
    fill_defaults-null n us t d (fill_default d u b) f.1 g a.1
    ∙ fill_default-null n u t d b f.0 g (NullsApart-sym t u a.0.nulls)

pub ranges_of :
    (t : Slot) (ts : List Slot) (k : ℕ)
    → All (Apart t) ts
    → k < t.pack_length
    → All (λ u. Outside u (t.offset + k)) ts
ranges_of t [] k a l = tt
ranges_of t (u ∷ ts) k a l = (a.0.ranges' k l, ranges_of t ts k a.1 l)

Added-agree :
    (n : ℕ) (u : Slot) (d b c : Buffer)
    → Added d b u
    → is_real_null u c ≡ is_real_null u b
    → ((k : ℕ) → k < u.pack_length → c (u.offset + k) ≡ b (u.offset + k))
    → Added d c u
Added-agree n u d b c a e h = record {
  null_is = e ∙ a.null_is;
  bytes_are = bytes_of-agree u.pack_length c b u.offset u.offset h ∙ a.bytes_are;
}

pub All-Added-agree :
    (n : ℕ) (us : List Slot) (d b c : Buffer)
    → All (Fits n) us
    → All (Added d b) us
    → ((j : ℕ) → j < n → c j ≡ b j)
    → All (λ u. (k : ℕ) → k < u.pack_length → c (u.offset + k) ≡ b (u.offset + k)) us
    → All (Added d c) us
All-Added-agree n [] d b c f a e h = tt
All-Added-agree n (u ∷ us) d b c f a e h = (
  Added-agree n u d b c a.0 (is_real_null-agree n u c b f.0 e) h.0,
  All-Added-agree n us d b c f.1 a.1 e h.1,
)

pub fill_defaults-Added :
    (n : ℕ) (us : List Slot) (d b : Buffer)
    → All (Fits n) us
    → AllApart us
    → All (Added d (fill_defaults d us b)) us
unfolding fill_defaults AllApart
fill_defaults-Added n [] d b f a = tt
fill_defaults-Added n (u ∷ us) d b f a =
    let c = fill_default d u b in
    (
      Added-agree n u d c (fill_defaults d us c) (fill_default-Added n u d b f.0)
          (fill_defaults-null n us u d c f.1 f.0 a.0)
          (λ k l.
            let behind = f.0.behind in
            fill_defaults-range n us d c (u.offset + k) f.1 (ranges_of u us k a.0 l) (omega arith)),
      fill_defaults-Added n us d c f.1 a.1,
    )

-- The null bits of the columns that both definitions have.
pub fill_defaults-SameNull :
    (n : ℕ) (ss ts : List Slot) (row d b : Buffer)
    → All (Fits n) ts
    → AllApart ts
    → Zip (SameNull row b) ss ts
    → Zip (SameNull row (fill_defaults d (drop (length ss) ts) b)) ss ts
unfolding Zip AllApart
fill_defaults-SameNull n [] ts row d b f a z = tt
fill_defaults-SameNull n (s ∷ ss) [] row d b f a z = tt
fill_defaults-SameNull n (s ∷ ss) (t ∷ ts) row d b f a z = (
  fill_defaults-null n (drop (length ss) ts) t d b (All-drop (Fits n) (length ss) ts f.1) f.0
        (All-drop (Apart t) (length ss) ts a.0)
      ∙ z.0,
  fill_defaults-SameNull n ss ts row d b f.1 a.1 z.1,
)
