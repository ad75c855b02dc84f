-- ===== src/Delta.antt =====
-- plugin/tidesdb_atomic_ddl_pure.cc, `compute_delta_pure`: what the column families of the engine and
-- the tables of the data dictionary lack of each other. A name is the list of its bytes, and a set
-- the list of its elements in order.
pub mod Members
pub mod Examples
use tidesdb_mysql.Base.{ℕ, Bool, true, false, not, ◌&&◌, ◌||◌, List, [], ◌∷◌, if◌then◌else◌, take}
use tidesdb_mysql.RowLock.{bytes_eq}

-- "__".
abbrev pub reconciler_skip_prefix : List ℕ
reconciler_skip_prefix = 95 ∷ 95 ∷ []

pub record ReconcileDelta : Type 0 where
  pub orphan_cfs : List (List ℕ)
  pub orphan_dd_tables : List (List ℕ)

abbrev pub finds : List ℕ → List (List ℕ) → Bool
finds name [] = false
finds name (n ∷ ns) = bytes_eq n name || finds name ns

abbrev pub is_skipped : List ℕ → Bool
is_skipped name = bytes_eq (take 2 name) reconciler_skip_prefix

pub orphans : List (List ℕ) → List (List ℕ) → List (List ℕ)
orphans expected [] = []
orphans expected (a ∷ actual) =
    let rest = orphans expected actual in
    if is_skipped a then rest else if finds a expected then rest else a ∷ rest

pub missing : List (List ℕ) → List (List ℕ) → List (List ℕ)
missing actual [] = []
missing actual (e ∷ expected) =
    let rest = missing actual expected in if finds e actual then rest else e ∷ rest

pub compute_delta_pure : List (List ℕ) → List (List ℕ) → ReconcileDelta
compute_delta_pure expected actual = record {
  orphan_cfs = orphans expected actual;
  orphan_dd_tables = missing actual expected;
}
