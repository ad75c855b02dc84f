-- ===== src/Delta/Members.antt =====
-- Which names `compute_delta_pure` of plugin/tidesdb_atomic_ddl_pure.cc lists.
use tidesdb_mysql.Base.{ℕ, ◌≡◌, refl, ap, not, ◌&&◌, List, [], ◌∷◌, arith, Bool-cases, inl, inr}
use tidesdb_mysql.RowLock.{bytes_eq}
use tidesdb_mysql.RowLock.Lookup.{bytes_eq→eq}
use tidesdb_mysql.Delta.{finds, is_skipped, orphans, missing, compute_delta_pure}

finds-orphans :
    (expected actual : List (List ℕ)) (name : List ℕ)
    → finds name (orphans expected actual)
      ≡ (finds name actual && (not (is_skipped name) && not (finds name expected)))
unfolding orphans
finds-orphans expected [] name = refl
finds-orphans expected (a ∷ actual) name = elim (Bool-cases (bytes_eq a name)) [
  | inl hit ↦
      let same : a ≡ name = bytes_eq→eq a name hit in
      ground (
        arith,
        finds-orphans expected actual name,
        ap is_skipped same,
        ap (λ n. finds n expected) same,
      )
  | inr miss ↦ ground (arith, finds-orphans expected actual name)
]

finds-missing :
    (actual expected : List (List ℕ)) (name : List ℕ)
    → finds name (missing actual expected) ≡ (finds name expected && not (finds name actual))
unfolding missing
finds-missing actual [] name = refl
finds-missing actual (e ∷ expected) name = elim (Bool-cases (bytes_eq e name)) [
  | inl hit ↦
      let same : e ≡ name = bytes_eq→eq e name hit in
      ground (arith, finds-missing actual expected name, ap (λ n. finds n actual) same)
  | inr miss ↦ ground (arith, finds-missing actual expected name)
]

-- A name is listed as an orphan of the engine exactly when the engine has it, it does not begin with
-- "__", and the dictionary does not expect it; and as an orphan of the dictionary exactly when
-- the dictionary expects it and the engine does not have it, whatever it begins with (the comments of
-- the code say that names with "__" are left out there too).
pub compute_delta_pure_exact :
    (expected actual : List (List ℕ)) (name : List ℕ)
    → (finds name (compute_delta_pure expected actual).orphan_cfs
        ≡ (finds name actual && (not (is_skipped name) && not (finds name expected))))
      × (finds name (compute_delta_pure expected actual).orphan_dd_tables
          ≡ (finds name expected && not (finds name actual)))
unfolding compute_delta_pure
compute_delta_pure_exact expected actual name =
    (finds-orphans expected actual name, finds-missing actual expected name)
