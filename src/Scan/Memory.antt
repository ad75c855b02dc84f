-- ===== src/Scan/Memory.antt =====
-- An iterator over a list of entries that meets the contract of the scans, and handlers for the examples.
use tidesdb_mysql.Base.{
  ℕ, ◌+◌, ◌-◌, ◌≡◌, refl, Bool, true, false, none, some, List, [], ◌∷◌, if◌then◌else◌, ◌==◌, length,
  drop,
}
use tidesdb_mysql.Codes.{Rc, tdb_success, err_not_found, ha_ok, is_success}
use tidesdb_mysql.Spatial.{mbr_intersect}
use tidesdb_mysql.Rows.Memory.{Session}
use tidesdb_mysql.Rows.KeyRead.{check_pos}
use tidesdb_mysql.Scan.{Iterator, ScanEnv, Scan, dir_none}
use tidesdb_mysql.Scan.Contract.{KeyValue, below, drop_below, Forward, Uncontended}

-- All entries, and those from the position on.
pub record Position : Type 0 where
  pub all : List KeyValue
  pub rest : List KeyValue

-- How many entries are not above the key.
pub not_above : List ℕ → List KeyValue → ℕ
not_above k [] = 0
not_above k ((j, v) ∷ es) = let n = not_above k es in if below k j then n else n + 1

-- The position of the entry with this number, counted from 1.
pub at_number : List KeyValue → ℕ → Position
at_number es n = record { all = es; rest = if n == 0 then [] else drop (n - 1) es }

abbrev pub list_iterator : Iterator Position
list_iterator = record {
  valid = λ i. elim i.rest [ [] ↦ false | x ∷ xs ↦ true ];
  key = λ i. elim i.rest [ [] ↦ (err_not_found, []) | x ∷ xs ↦ (tdb_success, x.0) ];
  value = λ i. elim i.rest [ [] ↦ (err_not_found, []) | x ∷ xs ↦ (tdb_success, x.1) ];
  key_value = λ i. elim i.rest [ [] ↦ (err_not_found, [], []) | x ∷ xs ↦ (tdb_success, x.0, x.1) ];
  next_rc = λ i. tdb_success;
  seek_rc = λ k i. tdb_success;
  next = λ i. record i { rest = drop 1 i.rest };
  prev = λ i. at_number i.all (length i.all - length i.rest);
  seek = λ k i. record i { rest = drop_below k i.all };
  seek_for_prev = λ k i. at_number i.all (not_above k i.all);
  seek_to_first = λ i. record i { rest = i.all };
  seek_to_last = λ i. at_number i.all (length i.all);
}

abbrev pub rest_of : Position → List KeyValue
rest_of i = i.rest

abbrev pub all_of : Position → List KeyValue
all_of i = i.all

key_there :
    (i : Position) → list_iterator.valid i ≡ true → is_success (list_iterator.key i).0 ≡ true
key_there i h = go i.rest h
  where
    go :
        (xs : List KeyValue)
        → (elim xs as (λ _. Bool) [ [] ↦ false | x ∷ xs ↦ true ]) ≡ true
        → is_success
            (elim xs as (λ _. Rc × List ℕ) [
              | [] ↦ (err_not_found, [])
              | x ∷ xs ↦ (tdb_success, x.0)
            ]).0
          ≡ true
    go [] h = absurd (cc)
    go (x ∷ xs) h = refl

key_value_there :
    (i : Position) → list_iterator.valid i ≡ true → is_success (list_iterator.key_value i).0 ≡ true
key_value_there i h = go i.rest h
  where
    go :
        (xs : List KeyValue)
        → (elim xs as (λ _. Bool) [ [] ↦ false | x ∷ xs ↦ true ]) ≡ true
        → is_success
            (elim xs as (λ _. Rc × List ℕ × List ℕ) [
              | [] ↦ (err_not_found, [], [])
              | x ∷ xs ↦ (tdb_success, x.0, x.1)
            ]).0
          ≡ true
    go [] h = absurd (cc)
    go (x ∷ xs) h = refl

pub list_iterator-Forward : Forward list_iterator rest_of all_of
list_iterator-Forward = record {
  at_end = λ i h. simp h refl;
  valid_at = λ i x xs h. simp h refl;
  key_at = λ i x xs h good. simp h refl;
  key_value_at = λ i x xs h good. simp h refl;
  next_at = λ i x xs h good. simp h refl;
  next_stays = λ i bad. absurd (cc);
  seek_at = λ i k good. refl;
  seek_all = λ i k. refl;
}

pub list_iterator-Uncontended : Uncontended list_iterator
list_iterator-Uncontended = record {
  key_ok = key_there;
  key_value_ok = key_value_there;
  next_ok = λ i h. refl;
  seek_ok = λ i k. refl;
}

-- A family with a counter, a row 7 5 and a row 8 5; and an index on the second byte.
abbrev pub row_entries : List KeyValue
row_entries = (0 ∷ 1 ∷ [], 9 ∷ []) ∷ (1 ∷ 7 ∷ [], 7 ∷ 5 ∷ []) ∷ (1 ∷ 8 ∷ [], 8 ∷ 5 ∷ []) ∷ []

abbrev pub index_entries : List KeyValue
index_entries = (5 ∷ 7 ∷ [], []) ∷ (5 ∷ 8 ∷ [], []) ∷ (6 ∷ 9 ∷ [], []) ∷ []

abbrev pub scan_env : ScanEnv (List ℕ) Session Position
scan_env = record {
  iter_new = λ txn cf w.
      let es = if cf == 0 then row_entries else index_entries in
      (tdb_success, record { all = es; rest = [] });
  stmt_txn = λ w. 1;
  generation = λ w. 1;
  killed = λ w. false;
  pushed_keyno = λ w. none;
  has_pushed = λ w. false;
  in_range_pushed = λ w. false;
  cancel_pushed = λ w. w;
  has_user_pk = true;
  pk_index = 0;
  idx_cf = λ idx. some (idx + 1);
  idx_comp_key_len = λ idx. 1;
  pk_key_len = 1;
  locks_reads = false;
  decode = λ value b. value;
  icp = λ idx k b. (check_pos, b);
  keyread_only = false;
  keyread = λ idx k b. (false, b);
  limit = 5;
}

-- Each key has a row, its primary key.
abbrev pub rows_world : Session
rows_world = record {
  committed = λ cf k. some (drop 1 k);
  pending = λ cf k. none;
  buffered = false;
  conflict = false;
}

abbrev pub idle : ℕ → Scan (List ℕ) Session Position
idle idx = record {
  world = rows_world;
  buf = [];
  current_pk = [];
  iter = none;
  iter_cf = 0;
  iter_txn = 0;
  iter_gen = 0;
  scan_cf = some (idx + 1);
  scan_txn = some 1;
  dir = dir_none;
  last_err = ha_ok;
  last_err_cf = none;
  last_err_txn = none;
  is_pk = false;
  active_index = idx;
  exact_done = false;
  search_comp = [];
  spatial_active = false;
  spatial_ranges = [];
  query_mbr = record { xmin = 0; ymin = 0; xmax = 0; ymax = 0 };
  spatial_mode = mbr_intersect;
}
