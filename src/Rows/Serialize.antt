-- ===== src/Rows/Serialize.antt =====
-- The row format of plugin/ha_tidesdb.cc: a header, the null bitmap, and the columns that are not NULL.
use tidesdb_mysql.Base.{ℕ, Option, none, some, List, [], ◌∷◌, ◌++◌, if◌then◌else◌, length}
use tidesdb_mysql.Fts.{le_bytes}
use tidesdb_mysql.Rows.{Column, TableDef}

abbrev pub row_header_magic : ℕ
row_header_magic = 0xfe

unfoldable pub pack_columns : {Row : Type 0} → List (Column Row) → Row → List ℕ
pack_columns [] row = []
pack_columns (f ∷ fields) row =
    let rest = pack_columns fields row in
    if f.is_null row then rest else (if f.copied then f.raw row else f.packed row) ++ rest

unfoldable pub plain_row : {Row : Type 0} → TableDef Row → Row → List ℕ
plain_row d row =
    row_header_magic
    ∷ (le_bytes 2 (length (d.null_bitmap row))
        ++ (le_bytes 2 (length d.fields) ++ (d.null_bitmap row ++ pack_columns d.fields row)))

-- None where the encryption fails.
unfoldable pub serialize_row : {Row : Type 0} → TableDef Row → Row → Option (List ℕ)
serialize_row d row = elim d.encrypt [
  | none ↦ some (plain_row d row)
  | some cipher ↦ cipher (plain_row d row)
]
