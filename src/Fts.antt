-- ===== src/Fts.antt =====
-- The codec and the counters of the full-text index, plugin/tidesdb_fts.cc. A buffer is the list of its
-- bytes; `W` is the state of the engine.
pub mod Codec
pub mod Tokens
pub mod Query
pub mod Examples
use tidesdb_mysql.Base.{
  ℕ, zero, suc, ◌+◌, ◌*◌, ◌/◌, ◌%◌, Bool, true, false, not, ◌&&◌, Option, none, some, List, [], ◌∷◌,
  ◌++◌, if◌then◌else◌, leb, length, take, drop, ℤ, pos, negsuc, ◌+ℤ◌, ltb_ℤ, to_u64, of_u64,
}
use tidesdb_mysql.Codes.{Rc, is_success}

abbrev pub fts_max_term_bytes : ℕ
fts_max_term_bytes = 512

-- `int2store`, `int4store` and `int8store`: little-endian bytes.
unfoldable pub le_bytes : ℕ → ℕ → List ℕ
le_bytes zero x = []
le_bytes (suc n) x = x % 256 ∷ le_bytes n (x / 256)

unfoldable pub of_le : List ℕ → ℕ
of_le [] = 0
of_le (b ∷ bs) = b + 256 * of_le bs

pub build_key : List ℕ → List ℕ → List ℕ
build_key term pk = let t = take fts_max_term_bytes term in le_bytes 2 (length t) ++ (t ++ pk)

pub build_value : ℕ → ℕ → List ℕ
build_value tf doc_len = le_bytes 2 tf ++ le_bytes 4 doc_len

-- The namespace, "FTS" with its zero, and the number of the index.
pub meta_key : ℕ → List ℕ
meta_key keynr = 0 ∷ 70 ∷ 84 ∷ 83 ∷ 0 ∷ keynr % 256 ∷ []

-- The totals of the documents and of the words.
pub record Totals : Type 0 where
  pub docs : ℤ
  pub words : ℤ

pub load_meta : {W : Type 0} → (List ℕ → W → Rc × Option (List ℕ) × W) → ℕ → W → Totals × W
load_meta get keynr w =
    let (rc, val, w') = get (meta_key keynr) w in
    elim val [
      | none ↦ (record { docs = pos 0; words = pos 0 }, w')
      | some v ↦
          if is_success rc && leb 16 (length v)
          then (
            record { docs = of_u64 (of_le (take 8 v)); words = of_u64 (of_le (take 8 (drop 8 v))) },
            w',
          )
          else (record { docs = pos 0; words = pos 0 }, w')
    ]

abbrev pub at_least_zero : ℤ → ℤ
at_least_zero n = if ltb_ℤ n (pos 0) then pos 0 else n

abbrev pub meta_value : Totals → List ℕ
meta_value t = le_bytes 8 (to_u64 t.docs) ++ le_bytes 8 (to_u64 t.words)

pub update_meta :
    {W : Type 0}
    → (List ℕ → W → Rc × Option (List ℕ) × W)
    → (List ℕ → List ℕ → W → Rc × W)
    → ℕ
    → ℤ
    → ℤ
    → W
    → Rc × W
update_meta get put keynr delta_docs delta_words w =
    let (t, w') = load_meta get keynr w in
    let sums : Totals = record {
      docs = at_least_zero (t.docs +ℤ delta_docs);
      words = at_least_zero (t.words +ℤ delta_words);
    } in
    put (meta_key keynr) (meta_value sums) w'
