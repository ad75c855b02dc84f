-- ===== src/Fts/Codec.antt =====
-- The keys of the full-text index of plugin/tidesdb_fts.cc can be taken apart again.
use tidesdb_mysql.Base.{
  ℕ, ◌+◌, ◌*◌, ◌/◌, ◌%◌, ◌≤◌, ◌≡◌, List, arith, length, take, drop, length-take, take-append_seam,
  drop-append_seam, false, Option, Bool-cases, inl, inr, ◌∷◌, ℤ, ◌+ℤ◌, ap,
}
use tidesdb_mysql.Codes.{Rc}
use tidesdb_mysql.RowLock.{bytes_eq}
use tidesdb_mysql.RowLock.Lookup.{bytes_eq→eq}
use tidesdb_mysql.Fts.{
  build_key, le_bytes, of_le, fts_max_term_bytes, meta_key, load_meta, update_meta, Totals,
  at_least_zero, meta_value,
}

-- The first two bytes of a key tell how many bytes of the term follow, and these are the first 512 of
-- the term; what follows them is the primary key.
pub build_key-parts :
    (term pk : List ℕ)
    → (let k = build_key term pk in
        let n = of_le (take 2 k) in
        (take n (drop 2 k) ≡ take fts_max_term_bytes term) × (drop n (drop 2 k) ≡ pk))
unfolding build_key le_bytes of_le
build_key-parts term pk =
    let t = take 512 term in
    let short : length t ≤ 512 = omega (arith, length-take 512 term) in
    let size : length t % 256 + 256 * (length t / 256 % 256 + 256 * 0) ≡ length t = omega arith in
    rw size (take-append_seam t pk, drop-append_seam t pk)

-- The key of the totals is not the key of a row.
pub meta_key-ne : (keynr : ℕ) (pk : List ℕ) → bytes_eq (meta_key keynr) (1 ∷ pk) ≡ false
unfolding meta_key
meta_key-ne keynr pk = elim (Bool-cases (bytes_eq (meta_key keynr) (1 ∷ pk))) [
  | inl same ↦ absurd (let clash = bytes_eq→eq _ _ same in ground (arith, clash))
  | inr other ↦ other
]

module _ {W : Type 0} (get : List ℕ → W → Rc × Option (List ℕ) × W)
    (put : List ℕ → List ℕ → W → Rc × W) (keeps : (k : List ℕ) (w : W) → (get k w).2 ≡ w) where
  load_meta_keeps : (keynr : ℕ) (w : W) → (load_meta get keynr w).1 ≡ w
  unfolding load_meta
  load_meta_keeps keynr w = ground (arith, keeps (meta_key keynr) w)

  -- An update of the totals is one write, of some value, under their key.
  pub update_meta_writes :
      (keynr : ℕ) (docs words : ℤ) (w : W)
      → (v : List ℕ) × (update_meta get put keynr docs words w ≡ put (meta_key keynr) v w)
  unfolding update_meta
  update_meta_writes keynr docs words w =
      let t = (load_meta get keynr w).0 in
      let sums : Totals = record {
        docs = at_least_zero (t.docs +ℤ docs);
        words = at_least_zero (t.words +ℤ words);
      } in
      (meta_value sums, ap (put (meta_key keynr) (meta_value sums)) (load_meta_keeps keynr w))
