-- ===== src/Scan/Group.antt =====
-- The loop over the entries of a secondary index, plugin/ha_tidesdb.cc, within those that begin with the
-- search key.
use tidesdb_mysql.Base.{
  ℕ, zero, suc, ◌<◌, ◌≤◌, ◌≡◌, refl, ap, ◌∙◌, sym, ◌⊎◌, inl, inr, Bool, true, false, some, List, [],
  ◌∷◌, if◌then◌else◌, leb, arith, Bool-cases, length, drop, subst, All,
}
use tidesdb_mysql.Codes.{tdb_success}
use tidesdb_mysql.Rows.{Store}
use tidesdb_mysql.Rows.Key.{build_data_key}
use tidesdb_mysql.Rows.KeyRead.{Check, check_pos, check_neg}
use tidesdb_mysql.Scan.{Iterator, ScanEnv, Scan, Answer, Read, found, fetch_row_by_pk}
use tidesdb_mysql.Scan.Lookup.{has_prefix, judge, visit, icp_loop}
use tidesdb_mysql.Scan.Contract.{KeyValue, Steady}

abbrev pub verdict : Bool → Check
verdict accepted = if accepted then check_pos else check_neg

-- The primary keys of the entries that begin with the search key and are accepted, up to the first one
-- that does not begin with it.
unfoldable pub hits : ℕ → (List ℕ → Bool) → List ℕ → List KeyValue → List (List ℕ)
hits len accept comp [] = []
hits len accept comp ((k, v) ∷ es) =
    let onward = hits len accept comp es in
    if has_prefix comp k then (if accept k then drop len k ∷ onward else onward) else []

-- What a read leaves alone.
pub record Keeps {Row W I : Type 0} (c d : Scan Row W I) : Type 0 where
  pub same_world : d.world ≡ c.world
  pub same_index : d.active_index ≡ c.active_index
  pub same_comp : d.search_comp ≡ c.search_comp
  pub same_pk : d.is_pk ≡ c.is_pk
  pub same_spatial : d.spatial_active ≡ c.spatial_active

pub Keeps-trans : {Row W I : Type 0} (a b c : Scan Row W I) → Keeps a b → Keeps b c → Keeps a c
Keeps-trans a b c p q = record {
  same_world = q.same_world ∙ p.same_world;
  same_index = q.same_index ∙ p.same_index;
  same_comp = q.same_comp ∙ p.same_comp;
  same_pk = q.same_pk ∙ p.same_pk;
  same_spatial = q.same_spatial ∙ p.same_spatial;
}

module _ {Row W I : Type 0} (it : Iterator I) (s : Store W) (e : ScanEnv Row W I)
    (rest all : I → List KeyValue) (law : Steady it rest all) (idx : ℕ) (accept : List ℕ → Bool)
    (tested : (k : List ℕ) (b : Row) → (e.icp idx k b).0 ≡ verdict (accept k)) (comp : List ℕ)
    (w : W) where
  abbrev pub len : ℕ
  len = e.idx_comp_key_len idx

  -- An entry that has a row.
  abbrev pub HasRow : KeyValue → Type 0
  HasRow x =
      (len < length x.0)
      × ((row : List ℕ) × (s.get 0 (build_data_key (drop len x.0)) w ≡ (tdb_success, some row)))

  -- Either no entry is left, and the answer is `missed`; or the answer is the next row.
  unfoldable pub Hit : Answer → List KeyValue → Scan Row W I → Answer × Scan Row W I → Type 0
  Hit missed es c r =
      Keeps c r.1
      × (((hits len accept comp es ≡ []) × (r.0 ≡ missed))
          ⊎ ((x : KeyValue) × (xs : List KeyValue) × (i : I) × (r.0 ≡ found)
              × (r.1.iter ≡ some i)
              × (rest i ≡ x ∷ xs)
              × All HasRow xs
              × (length xs < length es)
              × (hits len accept comp es ≡ r.1.current_pk ∷ hits len accept comp xs)))

  pub fetch-found :
      (x : KeyValue) (c : Scan Row W I)
      → HasRow x
      → c.world ≡ w
      → (d : Scan Row W I) × (fetch_row_by_pk it s e (drop len x.0) c ≡ (found, d))
        × (d.current_pk ≡ drop len x.0)
        × (d.iter ≡ c.iter)
        × Keeps c d
  unfolding fetch_row_by_pk
  fetch-found x c (long, (row, got)) same =
      let got' : s.get 0 (build_data_key (drop len x.0)) c.world ≡ (tdb_success, some row) =
        ap (λ (u : W). s.get 0 (build_data_key (drop len x.0)) u) same ∙ got in
      (
        record c { buf = e.decode row c.buf; current_pk = drop len x.0 },
        rw got' refl,
        refl,
        refl,
        record {
          same_world = refl;
          same_index = refl;
          same_comp = refl;
          same_pk = refl;
          same_spatial = refl;
        },
      )

  module _ (missed : Answer) (finish : List ℕ → Read (Scan Row W I))
      (finishes : (x : KeyValue) (c : Scan Row W I)
        → HasRow x
        → c.world ≡ w
        → c.active_index ≡ idx
        → ((finish x.0 c).0 ≡ found)
          × ((finish x.0 c).1.current_pk ≡ drop len x.0)
          × ((finish x.0 c).1.iter ≡ c.iter)
          × Keeps c (finish x.0 c).1) where
    abbrev pub loop : ℕ → Read (Scan Row W I)
    loop n c = icp_loop it s e it.next missed (has_prefix comp) finish n c

    abbrev at : Scan Row W I → I → Scan Row W I
    at c i = record c { iter = some i }

    loop_end :
        (n : ℕ) (c : Scan Row W I) (i : I) → rest i ≡ [] → loop (suc n) (at c i) ≡ (missed, at c i)
    unfolding icp_loop visit judge
    loop_end n c i h = rw (law.at_end i h)

    loop_other :
        (n : ℕ) (c : Scan Row W I) (i : I) (x : KeyValue) (es : List KeyValue)
        → rest i ≡ x ∷ es
        → has_prefix comp x.0 ≡ false
        → loop (suc n) (at c i) ≡ (missed, at c i)
    unfolding icp_loop visit judge
    loop_other n c i x es h other = rw (law.valid_at i x es h, law.key_at i x es h, other)

    loop_skip :
        (n : ℕ) (c : Scan Row W I) (i : I) (x : KeyValue) (es : List KeyValue)
        → rest i ≡ x ∷ es
        → has_prefix comp x.0 ≡ true
        → leb (length x.0) (e.idx_comp_key_len c.active_index) ≡ false
        → (e.icp c.active_index x.0 c.buf).0 ≡ check_neg
        → loop (suc n) (at c i)
          ≡ loop n (at (record c { buf = (e.icp c.active_index x.0 c.buf).1 }) (it.next i))
    unfolding icp_loop visit judge
    loop_skip n c i x es h inside long rejected =
        rw (law.valid_at i x es h, law.key_at i x es h, inside, long, rejected)

    loop_hit :
        (n : ℕ) (c : Scan Row W I) (i : I) (x : KeyValue) (es : List KeyValue)
        → rest i ≡ x ∷ es
        → has_prefix comp x.0 ≡ true
        → leb (length x.0) (e.idx_comp_key_len c.active_index) ≡ false
        → (e.icp c.active_index x.0 c.buf).0 ≡ check_pos
        → loop (suc n) (at c i)
          ≡ finish x.0 (at (record c { buf = (e.icp c.active_index x.0 c.buf).1 }) i)
    unfolding icp_loop visit judge
    loop_hit n c i x es h inside long taken =
        rw (law.valid_at i x es h, law.key_at i x es h, inside, long, taken)

    Keeps-refl : (c : Scan Row W I) (i : I) (b : Row) → Keeps c (at (record c { buf = b }) i)
    Keeps-refl c i b = record {
      same_world = refl;
      same_index = refl;
      same_comp = refl;
      same_pk = refl;
      same_spatial = refl;
    }

    Hit-more :
        (es fs : List KeyValue) (c d : Scan Row W I) (r : Answer × Scan Row W I)
        → hits len accept comp es ≡ hits len accept comp fs
        → length fs ≤ length es
        → Keeps c d
        → Hit missed fs d r
        → Hit missed es c r
    unfolding Hit
    Hit-more es fs c d r same le k (k', inl (a, z)) = (Keeps-trans c d r.1 k k', inl (same ∙ a, z))
    Hit-more es fs c d r same le k (k', inr (x, xs, i, f, ie, re, hr, sh, eq)) =
        (Keeps-trans c d r.1 k k', inr (x, xs, i, f, ie, re, hr, omega arith, same ∙ eq))

    Hit-missed :
        (es : List KeyValue) (c : Scan Row W I) (i : I)
        → hits len accept comp es ≡ []
        → Hit missed es c (missed, at c i)
    unfolding Hit
    Hit-missed es c i none_left = (Keeps-refl c i c.buf, inl (none_left, refl))

    none_at_end : hits len accept comp [] ≡ []
    unfolding hits
    none_at_end = refl

    hits-other :
        (x : KeyValue) (es : List KeyValue)
        → has_prefix comp x.0 ≡ false
        → hits len accept comp (x ∷ es) ≡ []
    unfolding hits
    hits-other x es other = rw other refl

    hits-rejected :
        (x : KeyValue) (es : List KeyValue)
        → has_prefix comp x.0 ≡ true
        → accept x.0 ≡ false
        → hits len accept comp (x ∷ es) ≡ hits len accept comp es
    unfolding hits
    hits-rejected x es inside no' = rw (inside, no') refl

    hits-taken :
        (x : KeyValue) (es : List KeyValue)
        → has_prefix comp x.0 ≡ true
        → accept x.0 ≡ true
        → hits len accept comp (x ∷ es) ≡ drop len x.0 ∷ hits len accept comp es
    unfolding hits
    hits-taken x es inside ok = rw (inside, ok) refl

    Hit-finish :
        (x : KeyValue) (es : List KeyValue) (c : Scan Row W I) (i : I) (b : Row)
        → rest i ≡ x ∷ es
        → All HasRow (x ∷ es)
        → has_prefix comp x.0 ≡ true
        → accept x.0 ≡ true
        → c.world ≡ w
        → c.active_index ≡ idx
        → Hit missed (x ∷ es) c (finish x.0 (at (record c { buf = b }) i))
    unfolding Hit
    Hit-finish x es c i b h rows inside ok sw si =
        let c' = at (record c { buf = b }) i in
        let (f, pk, ie, k) = finishes x c' rows.0 sw si in
        (
          Keeps-trans c c' (finish x.0 c').1 (Keeps-refl c i b) k,
          inr (
            x,
            es,
            i,
            f,
            ie,
            h,
            rows.1,
            omega arith,
            hits-taken x es inside ok ∙ ap (λ (q : List ℕ). q ∷ hits len accept comp es) (sym pk),
          ),
        )

    short_of :
        (c : Scan Row W I) (x : KeyValue)
        → c.active_index ≡ idx
        → HasRow x
        → leb (length x.0) (e.idx_comp_key_len c.active_index) ≡ false
    short_of c x si has =
        let same = ap e.idx_comp_key_len si in let long = has.0 in ground (arith, same, long)

    judged :
        (c : Scan Row W I) (x : KeyValue)
        → c.active_index ≡ idx
        → (b : Bool) → accept x.0 ≡ b
        → (e.icp c.active_index x.0 c.buf).0 ≡ verdict b
    judged c x si b h = ap (λ (j : ℕ). (e.icp j x.0 c.buf).0) si ∙ (tested x.0 c.buf ∙ ap verdict h)

    Keeps-buf : (c : Scan Row W I) (b : Row) → Keeps c (record c { buf = b })
    Keeps-buf c b = record {
      same_world = refl;
      same_index = refl;
      same_comp = refl;
      same_pk = refl;
      same_spatial = refl;
    }

    pub loop-Hit :
        (n : ℕ) (es : List KeyValue) (c : Scan Row W I) (i : I)
        → rest i ≡ es
        → All HasRow es
        → c.world ≡ w
        → c.active_index ≡ idx
        → length es < n
        → Hit missed es c (loop n (at c i))
    loop-Hit zero es c i h rows sw si l = absurd (omega arith)
    loop-Hit (suc n) [] c i h rows sw si l =
        subst (Hit missed [] c) (sym (loop_end n c i h)) (Hit-missed [] c i none_at_end)
    loop-Hit (suc n) (x ∷ es) c i h rows sw si l = elim (Bool-cases (has_prefix comp x.0)) [
      | inr other ↦
          subst (Hit missed (x ∷ es) c) (sym (loop_other n c i x es h other))
            (Hit-missed (x ∷ es) c i (hits-other x es other))
      | inl inside ↦ elim (Bool-cases (accept x.0)) [
        | inl ok ↦
            subst (Hit missed (x ∷ es) c)
              (sym (loop_hit n c i x es h inside (short_of c x si rows.0) (judged c x si true ok)))
              (Hit-finish x es c i (e.icp c.active_index x.0 c.buf).1 h rows inside ok sw si)
        | inr no' ↦
            let b = (e.icp c.active_index x.0 c.buf).1 in
            let c' = record c { buf = b } in
            subst (Hit missed (x ∷ es) c)
              (sym
                (loop_skip n c i x es h inside (short_of c x si rows.0) (judged c x si false no')))
              (Hit-more (x ∷ es) es c c' (loop n (at c' (it.next i)))
                (hits-rejected x es inside no') (omega arith) (Keeps-buf c b)
                (loop-Hit n es c' (it.next i) (law.next_at i x es h) rows.1 sw si (omega arith)))
      ]
    ]
