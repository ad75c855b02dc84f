-- ===== src/Path.antt =====
-- plugin/ha_tidesdb.cc: what is made of table paths and of the strings that an administrator sets. A
-- string is the list of its bytes, without the zero at its end.
use tidesdb_mysql.Base.{
  ℕ, zero, suc, Bool, true, false, not, ◌&&◌, ◌||◌, Option, none, some, List, [], ◌∷◌, ◌++◌, map,
  if◌then◌else◌, ltb, ◌==◌, take,
}

abbrev pub slash : ℕ
slash = 47

abbrev pub dot : ℕ
dot = 46

-- `rfind`: what stands before the last slash, and what after it.
pub split_last : List ℕ → Option (List ℕ × List ℕ)
split_last [] = none
split_last (c ∷ p) = elim (split_last p) [
  | some (dir, name) ↦ some (c ∷ dir, name)
  | none ↦ if c == slash then some ([], p) else none
]

-- The path without a leading "./".
pub strip_prefix : List ℕ → List ℕ
strip_prefix [] = []
strip_prefix (c ∷ []) = c ∷ []
strip_prefix (c ∷ d ∷ p) = if c == dot && d == slash then p else c ∷ d ∷ p

-- The names of the database and of the table; none where the path has no slash.
pub path_names : List ℕ → Option (List ℕ × List ℕ)
path_names path = elim (split_last (strip_prefix path)) [
  | none ↦ none
  | some (dir, table) ↦ elim (split_last dir) [
    | none ↦ some (dir, table)
    | some (parent, db) ↦ some (db, table)
  ]
]

-- '#' becomes '_'.
abbrev pub replace_marker : ℕ → ℕ
replace_marker c = if c == 35 then 95 else c

pub path_to_cf_name : List ℕ → List ℕ
path_to_cf_name path = elim (path_names path) [
  | none ↦ strip_prefix path
  | some (db, table) ↦ map replace_marker (db ++ 95 ∷ 95 ∷ table)
]

pub schema_cf_key : List ℕ → List ℕ → List ℕ
schema_cf_key db table = db ++ 0 ∷ table

pub schema_cf_key_from_path : List ℕ → List ℕ
schema_cf_key_from_path path = elim (path_names path) [
  | none ↦ 0 ∷ strip_prefix path
  | some (db, table) ↦ schema_cf_key db table
]

-- A control character is a question mark.
abbrev pub printable : ℕ → ℕ
printable c = if ltb c 0x20 || c == 0x7f then 63 else c

-- What stands in the buffer before its zero byte; `none` for a null pointer, or where no buffer is given.
pub tdb_sanitize_for_log : Option (List ℕ) → ℕ → Option (List ℕ)
tdb_sanitize_for_log text zero = none
tdb_sanitize_for_log none (suc size) = some []
tdb_sanitize_for_log (some text) (suc size) = some (map printable (take size text))

-- `path[i]` is the zero byte or a slash.
pub at_boundary : List ℕ → Bool
at_boundary [] = true
at_boundary (c ∷ p) = c == slash

-- The search for "..", `boundary` for a start of the path or a slash before it.
pub scan_dots : Bool → List ℕ → Bool
scan_dots boundary [] = true
scan_dots boundary (c ∷ []) = true
scan_dots boundary (c ∷ d ∷ p) =
    let next = scan_dots (c == slash) (d ∷ p) in
    let skip = scan_dots false p in
    if c == dot && d == dot then if boundary && at_boundary p then false else skip else next

-- The bytes of the path hold no zero, so the loop over a given length, within the path, rejects nothing.
pub tdb_path_is_safe : List ℕ → Bool
tdb_path_is_safe [] = false
tdb_path_is_safe (c ∷ p) = if not (c == slash) then false else scan_dots true (c ∷ p)
