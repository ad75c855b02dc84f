-- ===== src/Rows/WriteChecks.antt =====
-- The checks of write_row before the row is stored.
use tidesdb_mysql.Base.{
  ℕ, suc, ◌≡◌, ◌≢◌, refl, Bool, true, ◌&&◌, Option, none, some, List, ◌∷◌, leb, length, take,
  if_cases,
}
use tidesdb_mysql.Codes.{is_success, is_not_found}
use tidesdb_mysql.RowLock.{bytes_eq}
use tidesdb_mysql.Rows.{Index, TableDef, Env, Store, Handler, is_ok, call_ha}
use tidesdb_mysql.Rows.Key.{make_comparable_key, build_data_key}
use tidesdb_mysql.Rows.Serialize.{serialize_row}
use tidesdb_mysql.Rows.Write.{
  lock_row, checks_pk, pk_dup_check, is_regular, unique_hit, unique_found, unique_check,
  unique_checks,
}
use tidesdb_mysql.Rows.Contents.{Contract, Ends, success_of_ok}
use tidesdb_mysql.Rows.Represents.{Contents, stored}
use tidesdb_mysql.Rows.Quiet.{Same, maintain-Same}

module _ {Row W : Type 0} (s : Store W) (at : W → Contents) (law : Contract s at) (e : Env)
    (d : TableDef Row) where
  pub lock_row-Same : (pk : List ℕ) (h : Handler W) → Ends (Same s at law h) (lock_row s e d pk h)
  unfolding lock_row call_ha
  lock_row-Same pk h =
      if_cases (Ends (Same s at law h)) (e.pessimistic_locking && d.has_user_pk && e.has_trx) _ _
        (λ locks locks_done. law.lock_keeps pk h.world locks_done) (λ free done. refl)

  -- The check of the primary key passes only where no row stands.
  abbrev pub Checked : Bool → Bool → List ℕ → Handler W → Handler W → Type 0
  Checked auto replace pk h g =
      Same s at law h g × (checks_pk s e d auto replace ≡ true → at g.world 0 (1 ∷ pk) ≡ none)

  pub pk_dup_check-Checked :
      (auto replace : Bool) (pk : List ℕ) (h : Handler W)
      → Ends (Checked auto replace pk h) (pk_dup_check s e d auto replace pk h)
  unfolding pk_dup_check build_data_key is_ok
  pk_dup_check-Checked auto replace pk h =
      let P = Ends (Checked auto replace pk h) in
      if_cases P (checks_pk s e d auto replace) _ _
        (λ checks.
          if_cases P (is_success (s.get 0 (1 ∷ pk) h.world).0) _ _ (λ found done. absurd (cc))
            (λ other.
              if_cases P (is_not_found (s.get 0 (1 ∷ pk) h.world).0) _ _
                (λ missing done. (refl, λ c. law.get_missing 0 (1 ∷ pk) h.world missing))
                (λ bad done. absurd (let good = success_of_ok _ done in cc))))
        (λ skips done. (refl, λ c. absurd (cc)))

  unique_found-Same :
      (i : ℕ) (prefix : List ℕ) (found : Option (List ℕ)) (h : Handler W)
      → Ends (Same s at law h) (unique_found s e d i prefix found h)
  unfolding unique_found unique_hit
  unique_found-Same i prefix none h = λ done. refl
  unique_found-Same i prefix (some key) h =
      if_cases (Ends (Same s at law h))
        (leb (length prefix) (length key) && bytes_eq (take (length prefix) key) prefix) _ _
        (λ hit done. refl) (λ miss done. refl)

  unique_check-Same :
      (row : Row) (i : ℕ) (ix : Index Row) (h : Handler W)
      → Ends (Same s at law h) (unique_check s e d row i ix h)
  unfolding unique_check
  unique_check-Same row i ix h =
      let prefix = make_comparable_key e.stale ix.parts row in
      let P = Ends (Same s at law h) in
      if_cases P (is_regular ix.kind && ix.nosame) _ _
        (λ unique.
          if_cases P (is_success (s.seek (suc i) prefix h.world).0) _ _
            (λ good. unique_found-Same i prefix (s.seek (suc i) prefix h.world).1 h)
            (λ bad done. refl))
        (λ other done. refl)

  pub unique_checks-Same :
      (row : Row) (h : Handler W) → Ends (Same s at law h) (unique_checks s e d row h)
  unfolding unique_checks
  unique_checks-Same row h =
      if_cases (Ends (Same s at law h)) e.skip_unique_check _ _ (λ skip done. refl)
        (λ check. maintain-Same s at law d (unique_check s e d row) (unique_check-Same row) h)

  -- A row is stored under a key only if it can be encoded.
  pub absent :
      (o : Option Row)
      → stored d o ≡ none
      → ((r : Row) → o ≡ some r → serialize_row d r ≢ none)
      → o ≡ none
  unfolding stored
  absent none h whole = refl
  absent (some r) h whole = absurd (whole r refl h)
