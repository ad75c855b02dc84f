-- ===== src/Delta/Examples.antt =====
-- `compute_delta_pure` of plugin/tidesdb_atomic_ddl_pure.cc at small sets.
use tidesdb_mysql.Base.{ℕ, ◌≡◌, not, ◌&&◌, List, [], ◌∷◌}
use tidesdb_mysql.Delta.{finds, is_skipped, compute_delta_pure}
use tidesdb_mysql.Delta.Members.{compute_delta_pure_exact}

abbrev expected_cfs : List (List ℕ)
expected_cfs = (97 ∷ []) ∷ (98 ∷ []) ∷ []

abbrev actual_cfs : List (List ℕ)
actual_cfs = (95 ∷ 95 ∷ 120 ∷ []) ∷ (97 ∷ []) ∷ (99 ∷ []) ∷ []

compute_delta_pure_exact_example :
    (finds (99 ∷ []) (compute_delta_pure expected_cfs actual_cfs).orphan_cfs ≡ (
      finds (99 ∷ []) actual_cfs
      && (not (is_skipped (99 ∷ [])) && not (finds (99 ∷ []) expected_cfs))))
    × (finds (99 ∷ []) (compute_delta_pure expected_cfs actual_cfs).orphan_dd_tables
        ≡ (finds (99 ∷ []) expected_cfs && not (finds (99 ∷ []) actual_cfs)))
compute_delta_pure_exact_example = compute_delta_pure_exact expected_cfs actual_cfs (99 ∷ [])
