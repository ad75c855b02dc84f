-- ===== src/Rows/TermSwap.antt =====
-- Storing only the terms that changed gives what storing all of them would.
use tidesdb_mysql.Base.{
  ℕ, ◌≡◌, ◌∙◌, refl, ap, subst, Bool, true, false, not, ◌||◌, Option, none, some, List, [], ◌∷◌,
  if◌then◌else◌, ◌==◌, arith, All, if_cases, Bool-cases, inl, inr,
}
use tidesdb_mysql.RowLock.{bytes_eq}
use tidesdb_mysql.RowLock.Lookup.{bytes_eq→eq, bytes_eq_refl}
use tidesdb_mysql.Fts
use tidesdb_mysql.Rows.Entries.{count_term, tf_map, term_entries}
use tidesdb_mysql.Rows.Update.{count_of, keep_gone, gone, needs, need_put, changed}
use tidesdb_mysql.Rows.Contents.{over, hit, over-miss}
use tidesdb_mysql.Rows.TermDiff.{
  Terms, Short, AllShort, Distinct, is_some, put_of, over-terms, hit-terms, count_of-gone, needed,
  count_of-changed,
}

apart : (u t : List ℕ) → bytes_eq u t ≡ false → bytes_eq t u ≡ false
apart u t other = elim (Bool-cases (bytes_eq t u)) [
  | inl same ↦ absurd (let o = rw (bytes_eq→eq t u same, bytes_eq_refl u) at other in cc)
  | inr differs ↦ differs
]

-- The map of the terms of a document has each term once.
count_term_other :
    (u t : List ℕ) (m : Terms)
    → bytes_eq t u ≡ false
    → count_of u m ≡ none
    → count_of u (count_term t m) ≡ none
unfolding count_of count_term
count_term_other u t [] other missing = rw other refl
count_term_other u t ((v, n) ∷ m) other missing = ground (arith, count_term_other u t m)

count_term-Distinct : (t : List ℕ) (m : Terms) → Distinct m → Distinct (count_term t m)
unfolding count_term count_of
count_term-Distinct t [] distinct = (refl, tt)
count_term-Distinct t ((u, n) ∷ m) distinct =
    if_cases Distinct (bytes_eq u t) _ _ (λ same. distinct)
      (λ other.
        (count_term_other u t m (apart u t other) distinct.0, count_term-Distinct t m distinct.1))

pub tf_map-Distinct : (ts : List (List ℕ)) → Distinct (tf_map ts)
unfolding tf_map
tf_map-Distinct [] = tt
tf_map-Distinct (t ∷ ts) = count_term-Distinct t (tf_map ts) (tf_map-Distinct ts)

count_term-AllShort : (t : List ℕ) (m : Terms) → Short t → AllShort m → AllShort (count_term t m)
unfolding count_term
count_term-AllShort t [] st short = (st, tt)
count_term-AllShort t ((u, n) ∷ m) st short =
    if_cases AllShort (bytes_eq u t) _ _ (λ same. short)
      (λ other. (short.0, count_term-AllShort t m st short.1))

pub tf_map-AllShort : (ts : List (List ℕ)) → All Short ts → AllShort (tf_map ts)
unfolding tf_map
tf_map-AllShort [] short = tt
tf_map-AllShort (t ∷ ts) short =
    count_term-AllShort t (tf_map ts) short.0 (tf_map-AllShort ts short.1)

-- What is left of a map keeps its properties.
keep_gone-All :
    (P : Terms → Type 0) (o : Option ℕ) (x : List ℕ × ℕ) (rest : Terms)
    → P rest
    → P (x ∷ rest)
    → P (keep_gone o x rest)
unfolding keep_gone
keep_gone-All P none x rest a b = b
keep_gone-All P (some n) x rest a b = a

gone-AllShort : (new m : Terms) → AllShort m → AllShort (gone new m)
unfolding gone
gone-AllShort new [] short = tt
gone-AllShort new ((t, n) ∷ m) short =
    let rest = gone-AllShort new m short.1 in
    keep_gone-All AllShort (count_of t new) (t, n) (gone new m) rest (short.0, rest)

gone-misses :
    (new m : Terms) (w w' : ℕ) (pk k : List ℕ)
    → hit (term_entries w' pk m) k ≡ false
    → hit (term_entries w pk (gone new m)) k ≡ false
unfolding gone hit term_entries
gone-misses new [] w w' pk k missed = refl
gone-misses new ((t, n) ∷ m) w w' pk k missed =
    let rest = gone-misses new m w w' pk k in
    keep_gone-All (λ x. hit (term_entries w pk x) k ≡ false) (count_of t new) (t, n) (gone new m)
      (ground (arith, rest)) (ground (arith, rest))

changed-AllShort : (b : Bool) (old m : Terms) → AllShort m → AllShort (changed b old m)
unfolding changed
changed-AllShort b old [] short = tt
changed-AllShort b old ((t, n) ∷ m) short =
    let rest = changed-AllShort b old m short.1 in
    if_cases AllShort (need_put b old (t, n)) _ _ (λ put. (short.0, rest)) (λ kept. rest)

changed-misses :
    (b : Bool) (old m : Terms) (w : ℕ) (pk k : List ℕ)
    → hit (term_entries w pk m) k ≡ false
    → hit (term_entries w pk (changed b old m)) k ≡ false
unfolding changed hit term_entries
changed-misses b old [] w pk k missed = refl
changed-misses b old ((t, n) ∷ m) w pk k missed =
    let rest = changed-misses b old m w pk k in
    if_cases (λ x. hit (term_entries w pk x) k ≡ false) (need_put b old (t, n)) _ _
      (λ put. ground (arith, rest)) (λ kept. ground (arith, rest))

changed-Distinct : (b : Bool) (old m : Terms) → AllShort m → Distinct m → Distinct (changed b old m)
unfolding changed needed
changed-Distinct b old [] short distinct = tt
changed-Distinct b old ((t, n) ∷ m) short distinct =
    let rest = changed-Distinct b old m short.1 distinct.1 in
    let alone : count_of t (changed b old m) ≡ none =
      count_of-changed [] t short.0 b old m distinct.1
      ∙ ap (needed [] t short.0 b old) distinct.0 in
    if_cases Distinct (need_put b old (t, n)) _ _ (λ put. (alone, rest)) (λ kept. rest)

-- The term of an entry that is there.
term_of :
    (w : ℕ) (pk k : List ℕ) (m : Terms)
    → AllShort m
    → hit (term_entries w pk m) k ≡ true
    → (t : List ℕ) × Short t × (Fts.build_key t pk ≡ k)
unfolding hit term_entries
term_of w pk k [] short found = absurd (cc)
term_of w pk k ((t, n) ∷ m) short found = elim (Bool-cases (bytes_eq (Fts.build_key t pk) k)) [
  | inl same ↦ (t, short.0, bytes_eq→eq _ _ same)
  | inr other ↦ term_of w pk k m short.1 (rw other at found)
]

-- `f` is what is put of the new counts.
same_counts :
    (b : Bool) (w w' : ℕ) (v : Option (List ℕ)) (f : Option ℕ → Option ℕ) (co cn : Option ℕ)
    → f none ≡ none
    → ((n : ℕ) → f (some n) ≡ (if needs b co n then some n else none))
    → b ≡ not (w == w')
    → ((m : ℕ) → co ≡ some m → v ≡ some (Fts.build_value m w))
    → put_of w' (if is_some (if is_some cn then none else co) then none else v) (f cn)
      ≡ put_of w' (if is_some co then none else v) cn
unfolding put_of is_some needs
same_counts b w w' v f none none fn fs differ shown = rw fn refl
same_counts b w w' v f (some m) none fn fs differ shown = rw fn refl
same_counts b w w' v f none (some n) fn fs differ shown = rw (fs n) refl
same_counts b w w' v f (some m) (some n) fn fs differ shown = rw (fs n) (
    if_cases (λ (x : Option ℕ). put_of w' v x ≡ some (Fts.build_value n w')) (b || not (m == n)) _ _
      (λ put. refl)
      (λ kept.
        let e : m ≡ n = ground arith in
        let g : w ≡ w' = ground arith in shown m refl ∙ rw (e, g) refl))

module _ (pk : List ℕ) (w w' : ℕ) (old new : Terms) (short : AllShort old) (short' : AllShort new)
    (distinct : Distinct old) (distinct' : Distinct new) (b : Bool)
    (differ : b ≡ not (w == w')) where
  abbrev Alike : List ℕ → Option (List ℕ) → Type 0
  Alike k v =
      (hit (term_entries w pk old) k ≡ true → v ≡ over (term_entries w pk old) k none)
      → over (term_entries w' pk (changed b old new)) k
          (if hit (term_entries 0 pk (gone new old)) k then none else v)
        ≡ over (term_entries w' pk new) k (if hit (term_entries w pk old) k then none else v)

  -- Under the key of a term.
  swap_term : (t : List ℕ) (v : Option (List ℕ)) → Short t → Alike (Fts.build_key t pk) v
  unfolding needed need_put put_of is_some
  swap_term t v st shown =
      rw
        (
          over-terms pk t st w' (changed b old new) _ (changed-AllShort b old new short')
              (changed-Distinct b old new short' distinct'),
          over-terms pk t st w' new _ short' distinct',
          hit-terms pk t st 0 (gone new old) (gone-AllShort new old short),
          hit-terms pk t st w old short,
          count_of-gone pk t st new old,
          count_of-changed pk t st b old new distinct',
        )
        (same_counts b w w' v (needed pk t st b old) (count_of t old) (count_of t new) refl
          (λ n. refl) differ (λ m e. value_of m e))
    where
      value_of : (m : ℕ) → count_of t old ≡ some m → v ≡ some (Fts.build_value m w)
      value_of m e =
          shown (hit-terms pk t st w old short ∙ ap is_some e)
          ∙ over-terms pk t st w old none short distinct
          ∙ ap (put_of w none) e

  -- Under any key.
  pub terms_swap : (k : List ℕ) (v : Option (List ℕ)) → Alike k v
  terms_swap k v shown = elim (Bool-cases (hit (term_entries w pk old) k)) [
    | inl found ↦
        let (t, st, e) = term_of w pk k old short found in
        subst (λ (q : List ℕ). Alike q v) e (swap_term t v st) shown
    | inr missed ↦ elim (Bool-cases (hit (term_entries w' pk new) k)) [
      | inl found ↦
          let (t, st, e) = term_of w' pk k new short' found in
          subst (λ (q : List ℕ). Alike q v) e (swap_term t v st) shown
      | inr missed' ↦
          rw
            (
              missed,
              gone-misses new old 0 w pk k missed,
              over-miss _ k v (changed-misses b old new w' pk k missed'),
              over-miss _ k v missed',
            )
            refl
    ]
  ]
