-- ===== src/Scan/Order.antt =====
-- In the order of the keys, those that begin with a given key stand together.
use tidesdb_mysql.Base.{
  ℕ, ◌≡◌, refl, Bool, true, false, ◌&&◌, List, [], ◌∷◌, if◌then◌else◌, ◌==◌, arith, Bool-cases, inl,
  inr, drop, All,
}
use tidesdb_mysql.RowLock.{bytes_eq}
use tidesdb_mysql.Scan.Lookup.{has_prefix}
use tidesdb_mysql.Scan.Contract.{KeyValue, below, drop_below}
use tidesdb_mysql.Scan.Group.{hits}

has_prefix_empty : (k : List ℕ) → has_prefix [] k ≡ true
unfolding has_prefix bytes_eq
has_prefix_empty k = ground arith

has_prefix_nil : (c : ℕ) (cs : List ℕ) → has_prefix (c ∷ cs) [] ≡ false
unfolding has_prefix
has_prefix_nil c cs = ground arith

has_prefix_cons :
    (c : ℕ) (cs : List ℕ) (k : ℕ) (ks : List ℕ)
    → has_prefix (c ∷ cs) (k ∷ ks) ≡ (k == c && has_prefix cs ks)
unfolding has_prefix bytes_eq
has_prefix_cons c cs k ks = ground arith

-- A key that begins with another is not below it.
prefix-above : (c k : List ℕ) → has_prefix c k ≡ true → below k c ≡ false
unfolding below
prefix-above [] k h = refl
prefix-above (c ∷ cs) [] h = absurd (let q = has_prefix_nil c cs in cc)
prefix-above (c ∷ cs) (k ∷ ks) h = ground (arith, has_prefix_cons c cs k ks, prefix-above cs ks)

no_prefix-below : (c k : List ℕ) → below k c ≡ true → has_prefix c k ≡ false
no_prefix-below c k l = elim (Bool-cases (has_prefix c k)) [
  | inl h ↦ absurd (let q = prefix-above c k h in cc)
  | inr h ↦ h
]

below_trans : (c k j : List ℕ) → below k c ≡ false → below k j ≡ true → below j c ≡ false
unfolding below
below_trans [] k j h l = refl
below_trans (c ∷ cs) [] j h l = absurd (cc)
below_trans (c ∷ cs) (k ∷ ks) [] h l = absurd (cc)
below_trans (c ∷ cs) (k ∷ ks) (j ∷ js) h l = ground (arith, below_trans cs ks js)

-- Behind a key that is not below `c` and does not begin with it, no key begins with it.
prefix-past :
    (c k j : List ℕ)
    → below k c ≡ false
    → has_prefix c k ≡ false
    → below k j ≡ true
    → has_prefix c j ≡ false
unfolding below
prefix-past [] k j h p l = absurd (let q = has_prefix_empty k in cc)
prefix-past (c ∷ cs) [] j h p l = absurd (cc)
prefix-past (c ∷ cs) (k ∷ ks) [] h p l = has_prefix_nil c cs
prefix-past (c ∷ cs) (k ∷ ks) (j ∷ js) h p l =
    ground (arith, has_prefix_cons c cs k ks, has_prefix_cons c cs j js, prefix-past cs ks js)

-- Each key is below all that follow.
abbrev pub Sorted : List KeyValue → Type 0
Sorted [] = Unit {0}
Sorted (x ∷ es) = All (λ y. below x.0 y.0 ≡ true) es × Sorted es

-- The primary keys of the accepted entries that begin with the search key, wherever they stand.
unfoldable pub matching : ℕ → (List ℕ → Bool) → List ℕ → List KeyValue → List (List ℕ)
matching len accept comp [] = []
matching len accept comp ((k, v) ∷ es) =
    let onward = matching len accept comp es in
    if has_prefix comp k && accept k then drop len k ∷ onward else onward

module _ (len : ℕ) (accept : List ℕ → Bool) (comp : List ℕ) where
  past_all :
      (x : KeyValue) (es : List KeyValue)
      → below x.0 comp ≡ false
      → has_prefix comp x.0 ≡ false
      → All (λ y. below x.0 y.0 ≡ true) es
      → matching len accept comp es ≡ []
  unfolding matching
  past_all x [] h p l = refl
  past_all x (y ∷ es) h p l = rw (prefix-past comp x.0 y.0 h p l.0) (past_all x es h p l.1)

  hits_behind :
      (es : List KeyValue)
      → Sorted es
      → All (λ y. below y.0 comp ≡ false) es
      → hits len accept comp es ≡ matching len accept comp es
  unfolding hits matching
  hits_behind [] so ab = refl
  hits_behind (x ∷ es) so ab = elim (Bool-cases (has_prefix comp x.0)) [
    | inl inside ↦ rw (inside, hits_behind es so.1 ab.1) refl
    | inr other ↦ rw (other, past_all x es ab.0 other so.0) refl
  ]

  above_all :
      (x : KeyValue) (es : List KeyValue)
      → below x.0 comp ≡ false
      → All (λ y. below x.0 y.0 ≡ true) es
      → All (λ y. below y.0 comp ≡ false) es
  above_all x [] h l = tt
  above_all x (y ∷ es) h l = (below_trans comp x.0 y.0 h l.0, above_all x es h l.1)

  pub hits-drop_below :
      (es : List KeyValue)
      → Sorted es
      → hits len accept comp (drop_below comp es) ≡ matching len accept comp es
  unfolding drop_below matching
  hits-drop_below [] so = hits_behind [] tt tt
  hits-drop_below (x ∷ es) so = elim (Bool-cases (below x.0 comp)) [
    | inl lower ↦ rw (lower, no_prefix-below comp x.0 lower) (hits-drop_below es so.1)
    | inr upper ↦ rw upper (hits_behind (x ∷ es) so (upper, above_all x es upper so.0))
  ]
