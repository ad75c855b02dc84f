-- ===== src/Rows/SetRow.antt =====
-- The contents after a row was put under its key, or removed, and the indexes were brought up to date.
use tidesdb_mysql.Base.{
  ℕ, suc, ◌≡◌, ◌≢◌, ◌∙◌, refl, false, Option, none, some, List, ◌∷◌, if◌then◌else◌, arith,
  Bool-cases, inl, inr,
}
use tidesdb_mysql.RowLock.{bytes_eq}
use tidesdb_mysql.RowLock.Lookup.{bytes_eq→eq, bytes_eq_refl}
use tidesdb_mysql.Rows.{TableDef, Env, Handler}
use tidesdb_mysql.Rows.Key.{pk_from_record}
use tidesdb_mysql.Rows.Serialize.{serialize_row}
use tidesdb_mysql.Rows.Represents.{
  Table, Contents, set_row, stored, Represents, Indexed, Indexed-frame, GoesAll,
}

pub data_key_eq : (pk q : List ℕ) → bytes_eq (1 ∷ pk) (1 ∷ q) ≡ bytes_eq q pk
data_key_eq pk q = elim (Bool-cases (bytes_eq q pk)) [
  | inl same ↦ rw (bytes_eq→eq q pk same, bytes_eq_refl (1 ∷ pk), bytes_eq_refl pk) refl
  | inr other ↦ rw other (miss other)
]
  where
    clash : bytes_eq q pk ≡ false → 1 ∷ pk ≡ 1 ∷ q → ⊥
    clash other e = let p : pk ≡ q = cc in let o = rw (p, bytes_eq_refl q) at other in cc

    miss : bytes_eq q pk ≡ false → bytes_eq (1 ∷ pk) (1 ∷ q) ≡ false
    miss other = elim (Bool-cases (bytes_eq (1 ∷ pk) (1 ∷ q))) [
      | inl e ↦ absurd (clash other (bytes_eq→eq (1 ∷ pk) (1 ∷ q) e))
      | inr n ↦ n
    ]

module _ {Row : Type 0} (e : Env) (d : TableDef Row) (t : Table Row) (pk : List ℕ) where
  -- A family of statements about the rows of a table, one under each key.
  pub set_row-All :
      (P : List ℕ → Row → Type 0) (o : Option Row)
      → ((q : List ℕ) (r : Row) → t q ≡ some r → P q r)
      → ((r : Row) → o ≡ some r → P pk r)
      → (q : List ℕ) (r : Row) → set_row t pk o q ≡ some r
      → P q r
  unfolding set_row
  set_row-All P o old new q r h = elim (Bool-cases (bytes_eq q pk)) [
    | inl same ↦ let found = rw same at h in rw (bytes_eq→eq q pk same) (new r found)
    | inr other ↦ old q r (rw other at h)
  ]

  -- The contents represent the changed table.
  pub set_row-Represents :
      (c c' : Contents) (o : Option Row)
      → Represents e d c t
      → ((q : List ℕ)
          → c' 0 (1 ∷ q) ≡ (if bytes_eq (1 ∷ pk) (1 ∷ q) then stored d o else c 0 (1 ∷ q)))
      → Indexed e d (set_row t pk o) c' 0 d.keys
      → ((row : Row)
          → o ≡ some row
          → (serialize_row d row ≢ none) × (pk_from_record e.stale d pk row ≡ pk))
      → Represents e d c' (set_row t pk o)
  unfolding set_row
  set_row-Represents c c' o rep rows indexed new = record {
    rows = λ q. rows q ∙ row_at q;
    indexed = indexed;
    whole = set_row-All (λ q r. serialize_row d r ≢ none) o rep.whole (λ r h. (new r h).0);
    named = set_row-All (λ q r. pk_from_record e.stale d q r ≡ q) o rep.named (λ r h. (new r h).1);
  }
    where
      row_at :
          (q : List ℕ)
          → (if bytes_eq (1 ∷ pk) (1 ∷ q) then stored d o else c 0 (1 ∷ q))
            ≡ stored d (if bytes_eq q pk then o else t q)
      row_at q = rw (data_key_eq pk q) (ground (arith, rep.rows q))

-- After the row's write only its data key reads otherwise.
abbrev pub RowSet :
    {W : Type 0} → (W → Contents) → List ℕ → Option (List ℕ) → Handler W → Handler W → Type 0
RowSet at pk o h g =
    ((q : List ℕ)
      → at g.world 0 (1 ∷ q) ≡ (if bytes_eq (1 ∷ pk) (1 ∷ q) then o else at h.world 0 (1 ∷ q)))
    × ((j : ℕ) (k : List ℕ) → at g.world (suc j) k ≡ at h.world (suc j) k)

module _ {Row W : Type 0} (e : Env) (d : TableDef Row) (at : W → Contents) (t : Table Row)
    (pk : List ℕ) (o : Option Row) where
  -- The row, and then the indexes.
  pub maintained-Represents :
      (h g f : Handler W)
      → Represents e d (at h.world) t
      → RowSet at pk (stored d o) h g
      → ((row : Row)
          → o ≡ some row
          → (serialize_row d row ≢ none) × (pk_from_record e.stale d pk row ≡ pk))
      → GoesAll e d at t (set_row t pk o) 0 d.keys g f
      → Represents e d (at f.world) (set_row t pk o)
  maintained-Represents h g f rep (rows, indexes) new (_, same_rows, goes) =
      set_row-Represents e d t pk (at h.world) (at f.world) o rep (λ q. same_rows q ∙ rows q)
        (goes (
          Indexed-frame e d t (at h.world) (at g.world) 0 d.keys (λ j k l. indexes j k)
            rep.indexed))
        new
