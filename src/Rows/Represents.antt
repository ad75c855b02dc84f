-- ===== src/Rows/Represents.antt =====
-- What the contents of the engine say of a table: a map from primary keys to rows.
use tidesdb_mysql.Base.{
  ℕ, suc, ◌+◌, ◌<◌, ◌≤◌, ◌≡◌, ◌≢◌, ◌∙◌, refl, sym, true, false, Option, none, some, List, [], ◌∷◌,
  if◌then◌else◌, ltb, ◌==◌, arith, All, if_cases, Bool-cases, inl, inr,
}
use tidesdb_mysql.RowLock.{bytes_eq}
use tidesdb_mysql.RowLock.Lookup.{bytes_eq→eq}
use tidesdb_mysql.Rows.{Index, TableDef, Env, Handler, Step}
use tidesdb_mysql.Rows.Key.{pk_from_record}
use tidesdb_mysql.Rows.Serialize.{serialize_row}
use tidesdb_mysql.Rows.Entries.{entries}
use tidesdb_mysql.Rows.Engine.{is_maintained, each_index, maintain}
use tidesdb_mysql.Rows.KeyLength.{IsPart}
use tidesdb_mysql.Rows.Owner.{Owned, owner_of, hit-foreign}
use tidesdb_mysql.Rows.Contents.{Ends, and_then-Ends, over, hit, over-miss}

-- A table, and the contents of the engine by column family.
abbrev pub Table : Type 0 → Type 0
Table Row = List ℕ → Option Row

abbrev pub Contents : Type 0
Contents = ℕ → List ℕ → Option (List ℕ)

-- The table with another row, or none, under a key.
unfoldable pub set_row : {Row : Type 0} → Table Row → List ℕ → Option Row → Table Row
set_row t pk o q = if bytes_eq q pk then o else t q

unfoldable pub stored : {Row : Type 0} → TableDef Row → Option Row → Option (List ℕ)
stored d none = none
stored d (some row) = serialize_row d row

module _ {Row : Type 0} (e : Env) (d : TableDef Row) where
  unfoldable pub entry_of : Index Row → List ℕ → List ℕ → Option Row → Option (List ℕ)
  entry_of ix k pk none = none
  entry_of ix k pk (some row) = over (entries e d ix row pk) k none

  -- What an index holds under a key: the entry of the row that the key belongs to.
  unfoldable pub view : Index Row → Table Row → List ℕ → Option (List ℕ)
  view ix t k = entry_of ix k (owner_of ix k) (t (owner_of ix k))

  abbrev pub Shows : Table Row → Contents → ℕ → Index Row → Type 0
  Shows t c i ix = (k : List ℕ) → c (suc i) k ≡ view ix t k

  -- Every index that is maintained, from the number `i` on.
  abbrev pub Indexed : Table Row → Contents → ℕ → List (Index Row) → Type 0
  Indexed t c i [] = Unit {0}
  Indexed t c i (ix ∷ keys) =
      (is_maintained d i ix ≡ true → Shows t c i ix) × Indexed t c (i + 1) keys

  abbrev pub Unmaintained : ℕ → List (Index Row) → Type 0
  Unmaintained i [] = Unit {0}
  Unmaintained i (ix ∷ keys) = (is_maintained d i ix ≡ false) × Unmaintained (i + 1) keys

  -- The row of each key is stored, and could be encoded, every index holds the entries of the rows and no others, and each row
  -- has the key under which it stands.
  pub record Represents (c : Contents) (t : Table Row) : Type 0 where
    pub rows : (pk : List ℕ) → c 0 (1 ∷ pk) ≡ stored d (t pk)
    pub indexed : Indexed t c 0 d.keys
    pub whole : (pk : List ℕ) (row : Row) → t pk ≡ some row → serialize_row d row ≢ none
    pub named : (pk : List ℕ) (row : Row) → t pk ≡ some row → pk_from_record e.stale d pk row ≡ pk

  -- The parts are well formed, and a table that counts no secondary key has none.
  pub record IsTable : Type 0 where
    pub parts : All (λ ix. All IsPart ix.parts) d.keys
    pub counted : ltb 0 d.num_secondary_indexes ≡ false → Unmaintained 0 d.keys

  pub Indexed-frame :
      (t : Table Row) (c c' : Contents) (i : ℕ) (keys : List (Index Row))
      → ((j : ℕ) (k : List ℕ) → i ≤ j → c' (suc j) k ≡ c (suc j) k)
      → Indexed t c i keys
      → Indexed t c' i keys
  Indexed-frame t c c' i [] same ok = tt
  Indexed-frame t c c' i (ix ∷ keys) same ok = (
    λ m k. same i k (omega arith) ∙ ok.0 m k,
    Indexed-frame t c c' (i + 1) keys (λ j k l. same j k (omega arith)) ok.1,
  )

  Indexed-Unmaintained :
      (t t' : Table Row) (c : Contents) (i : ℕ) (keys : List (Index Row))
      → Unmaintained i keys
      → Indexed t c i keys
      → Indexed t' c i keys
  Indexed-Unmaintained t t' c i [] un ok = tt
  Indexed-Unmaintained t t' c i (ix ∷ keys) un ok =
      (λ m k. absurd (let u = un.0 in cc), Indexed-Unmaintained t t' c (i + 1) keys un.1 ok.1)

  -- A step for one index: it changes its family only, and takes the entries of one table to those of
  -- another.
  module _ {W : Type 0} (at : W → Contents) (t t' : Table Row) where
    abbrev pub SameRows : Handler W → Handler W → Type 0
    SameRows h g = (pk : List ℕ) → at g.world 0 (1 ∷ pk) ≡ at h.world 0 (1 ∷ pk)

    abbrev pub Goes : ℕ → Index Row → Handler W → Handler W → Type 0
    Goes i ix h g =
        ((j : ℕ) (k : List ℕ) → (i == j) ≡ false → at g.world (suc j) k ≡ at h.world (suc j) k)
        × SameRows h g
        × (Shows t (at h.world) i ix → Shows t' (at g.world) i ix)

    abbrev pub GoesAll : ℕ → List (Index Row) → Handler W → Handler W → Type 0
    GoesAll i keys h g =
        ((j : ℕ) (k : List ℕ) → j < i → at g.world (suc j) k ≡ at h.world (suc j) k)
        × SameRows h g
        × (Indexed t (at h.world) i keys → Indexed t' (at g.world) i keys)

    module _ (Good : Index Row → Type 0) (step : ℕ → Index Row → Step W)
        (law : (i : ℕ) (ix : Index Row) (h : Handler W)
          → Good ix
          → Ends (Goes i ix h) (step i ix h)) where
      then_rest :
          (i : ℕ) (ix : Index Row) (keys : List (Index Row)) (h g f : Handler W)
          → Goes i ix h g
          → GoesAll (i + 1) keys g f
          → GoesAll i (ix ∷ keys) h f
      then_rest i ix keys h g f (frame, rows, goes) (frame', rows', goes') = (
        λ j k l. frame' j k (omega arith) ∙ frame j k (ground arith),
        λ pk. rows' pk ∙ rows pk,
        λ ok. (
          λ m k. frame' i k (omega arith) ∙ goes (ok.0 m) k,
          goes' (
              Indexed-frame t (at h.world) (at g.world) (i + 1) keys
                (λ j k l. frame j k (ground arith)) ok.1),
        ),
      )

      each_index-GoesAll :
          (i : ℕ) (keys : List (Index Row)) (h : Handler W)
          → All Good keys
          → Ends (GoesAll i keys h) (each_index d step i keys h)
      unfolding each_index
      each_index-GoesAll i [] h good = λ done. (λ j k l. refl, λ pk. refl, λ ok. tt)
      each_index-GoesAll i (ix ∷ keys) h good =
          if_cases (Ends (GoesAll i (ix ∷ keys) h)) (is_maintained d i ix) _ _
            (λ live.
              and_then-Ends (GoesAll i (ix ∷ keys) h) (Goes i ix h) _ _ (law i ix h good.0)
                (λ g goes done.
                  then_rest i ix keys h g (each_index d step (i + 1) keys g).1 goes
                    (each_index-GoesAll (i + 1) keys g good.1 done)))
            (λ dead done.
              let rest = each_index-GoesAll (i + 1) keys h good.1 done in
              (λ j k l. rest.0 j k (omega arith), rest.1, λ ok. (λ m k. absurd (cc), rest.2 ok.1)))

      pub maintain-GoesAll :
          (h : Handler W)
          → IsTable
          → All Good d.keys
          → Ends (GoesAll 0 d.keys h) (maintain d step h)
      unfolding maintain
      maintain-GoesAll h wf good =
          if_cases (Ends (GoesAll 0 d.keys h)) (ltb 0 d.num_secondary_indexes) _ _
            (λ more. each_index-GoesAll 0 d.keys h good)
            (λ few done. (
              λ j k l. refl,
              λ pk. refl,
              Indexed-Unmaintained t t' (at h.world) 0 d.keys (wf.counted few),
            ))

  module _ (ix : Index Row) (t : Table Row) (pk : List ℕ) (row : Row)
      (own : All (Owned ix pk) (entries e d ix row pk)) where
    -- What an index should hold when a row is added is what it held with the row's entries over it.
    pub view-insert :
        (k : List ℕ)
        → t pk ≡ none
        → view ix (set_row t pk (some row)) k ≡ over (entries e d ix row pk) k (view ix t k)
    unfolding view set_row entry_of
    view-insert k free = elim (Bool-cases (bytes_eq (owner_of ix k) pk)) [
      | inl same ↦ rw (same, bytes_eq→eq _ _ same, free) refl
      | inr other ↦ rw other (sym (over-miss _ k _ (hit-foreign ix pk _ k own other)))
    ]

    pub view-remove :
        (k : List ℕ)
        → t pk ≡ some row
        → view ix (set_row t pk none) k
          ≡ (if hit (entries e d ix row pk) k then none else view ix t k)
    unfolding view set_row entry_of
    view-remove k present = elim (Bool-cases (bytes_eq (owner_of ix k) pk)) [
      | inl same ↦
          rw (same, bytes_eq→eq _ _ same, present)
            (if_cases (λ (o : Option (List ℕ)). none ≡ o) (hit (entries e d ix row pk) k) _ _
              (λ found. refl) (λ missed. sym (over-miss (entries e d ix row pk) k none missed)))
      | inr other ↦ rw (other, hit-foreign ix pk (entries e d ix row pk) k own other) refl
    ]
