-- ===== src/Rows/Entries.antt =====
-- The entries of a row in a key, plugin/ha_tidesdb.cc, with the values of plugin/tidesdb_spatial.cc.
use tidesdb_mysql.Base.{
  ℕ, ◌+◌, ◌%◌, ◌^◌, Option, none, some, List, [], ◌∷◌, ◌++◌, if◌then◌else◌, ltb, length,
}
use tidesdb_mysql.RowLock.{bytes_eq}
use tidesdb_mysql.Fts
use tidesdb_mysql.Fts.{le_bytes, of_le}
use tidesdb_mysql.Fts.Tokens.{extract_and_tokenize}
use tidesdb_mysql.Spatial
use tidesdb_mysql.Spatial.{Mbr}
use tidesdb_mysql.Spatial.Wkb.{spatial_compute_mbr}
use tidesdb_mysql.Rows.{Index, Kind, TableDef, Env, regular, fulltext, rtree}
use tidesdb_mysql.Rows.Key.{sec_idx_key}

abbrev pub Entry : Type 0
Entry = List ℕ × List ℕ

-- `tf_map[word]++` on a uint16. The terms stand here in the order of their last occurrences.
unfoldable pub count_term : List ℕ → List (List ℕ × ℕ) → List (List ℕ × ℕ)
count_term t [] = (t, 1) ∷ []
count_term t ((u, n) ∷ m) =
    let rest = count_term t m in if bytes_eq u t then (u, (n + 1) % 2 ^ 16) ∷ m else (u, n) ∷ rest

unfoldable pub tf_map : List (List ℕ) → List (List ℕ × ℕ)
tf_map [] = []
tf_map (t ∷ ts) = count_term t (tf_map ts)

-- The entries of the terms, each with the number of words of the document.
unfoldable pub term_entries : ℕ → List ℕ → List (List ℕ × ℕ) → List Entry
term_entries words pk [] = []
term_entries words pk ((t, n) ∷ m) =
    (Fts.build_key t pk, Fts.build_value n words) ∷ term_entries words pk m

unfoldable pub spatial_build_value : Mbr → List ℕ
spatial_build_value m =
    le_bytes 8 m.xmin ++ (le_bytes 8 m.ymin ++ (le_bytes 8 m.xmax ++ le_bytes 8 m.ymax))

module _ {Row : Type 0} (e : Env) (d : TableDef Row) where
  unfoldable pub tokens : Index Row → Row → List (List ℕ)
  tokens ix row = extract_and_tokenize ix.charset e.settings (ix.columns row)

  unfoldable pub word_count : Index Row → Row → ℕ
  word_count ix row = length (tokens ix row) % 2 ^ 32

  unfoldable pub box_entries : List ℕ → Option Mbr → List Entry
  box_entries pk none = []
  box_entries pk (some m) =
      (
        Spatial.build_key (e.half_sum m.xmin m.xmax) (e.half_sum m.ymin m.ymax) pk,
        spatial_build_value m,
      )
      ∷ []

  unfoldable pub spatial_entries : List ℕ → List ℕ → List Entry
  spatial_entries geometry pk =
      if ltb 0 (length geometry) then box_entries pk (spatial_compute_mbr geometry) else []

  unfoldable pub entries_of : Kind → Index Row → Row → List ℕ → List Entry
  entries_of regular ix row pk = (sec_idx_key e.stale d pk ix row, 0 ∷ []) ∷ []
  entries_of fulltext ix row pk = term_entries (word_count ix row) pk (tf_map (tokens ix row))
  entries_of rtree ix row pk = spatial_entries (ix.geometry row) pk

  -- The entries of the row in the key, where its primary key is `pk`.
  unfoldable pub entries : Index Row → Row → List ℕ → List Entry
  entries ix row pk = entries_of ix.kind ix row pk
