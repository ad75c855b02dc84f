-- ===== src/Rows/Key.antt =====
-- The keys of plugin/ha_tidesdb.cc that compare by memcmp: make_comparable_key and what uses it.
use tidesdb_mysql.Base.{
  ℕ, ◌+◌, ◌-◌, ◌%◌, ◌^◌, min, ◌&&◌, List, [], ◌∷◌, ◌++◌, if◌then◌else◌, ltb, length, take, drop,
  replicate, be_bytes,
}
use tidesdb_mysql.Rows.{Part, Index, TableDef, Kind, regular, fulltext, rtree}

abbrev pub sort_key_null : ℕ
sort_key_null = 0

abbrev pub sort_key_not_null : ℕ
sort_key_not_null = 1

-- `n` bytes, the given ones first and zeros behind them.
unfoldable pub fit : ℕ → List ℕ → List ℕ
fit n bytes = take n (bytes ++ replicate n 0)

abbrev pub len_bytes : ℕ → ℕ
len_bytes field_length = if ltb field_length 256 then 1 else 2

-- `kp->length - len_bytes`, as an unsigned number of 32 bits.
abbrev pub data_space : ℕ → ℕ → ℕ
data_space len field_length = (len + 2 ^ 32 - len_bytes field_length) % 2 ^ 32

-- What is written behind the data: the rest of a value that does not fit, or its length. `stale` is
-- what the buffer held there, of which a rest that is too short leaves a byte.
unfoldable pub varbinary_tail : List ℕ → ℕ → ℕ → List ℕ → List ℕ
varbinary_tail stale space n value =
    if ltb space (length value)
    then (let over = min (length value - space) n in
        take over (drop space value) ++ take (n - over) (drop over (fit n stale)))
    else be_bytes n (length value)

unfoldable pub varbinary_key : {Row : Type 0} → List ℕ → Part Row → Row → List ℕ
varbinary_key stale p row =
    let space = data_space p.length p.field_length in
    let v = p.value row in fit space v ++ varbinary_tail stale space (len_bytes p.field_length) v

-- One part: the null indicator, and the value or zeros.
unfoldable pub part_key : {Row : Type 0} → List ℕ → Part Row → Row → List ℕ
part_key stale p row =
    if p.nullable && p.is_null row
    then sort_key_null ∷ replicate p.length 0
    else (if p.nullable then sort_key_not_null ∷ [] else [])
      ++ (if p.binary_varstring then varbinary_key stale p row else fit p.length (p.sort_key row))

-- The parts one after the other; callers pass the parts that they want. `stale` is what the length
-- areas of the buffer held, for each number of parts left.
unfoldable pub make_comparable_key : {Row : Type 0} → (ℕ → List ℕ) → List (Part Row) → Row → List ℕ
make_comparable_key stale [] row = []
make_comparable_key stale (p ∷ parts) row =
    part_key (stale (length parts)) p row ++ make_comparable_key stale parts row

abbrev pub part_length : {Row : Type 0} → Part Row → ℕ
part_length p = (if p.nullable then 1 else 0) + p.length

abbrev pub parts_length : {Row : Type 0} → List (Part Row) → ℕ
parts_length [] = 0
parts_length (p ∷ parts) = part_length p + parts_length parts

unfoldable pub comparable_key_length : {Row : Type 0} → Kind → List (Part Row) → ℕ
comparable_key_length rtree parts = 8
comparable_key_length regular parts = parts_length parts
comparable_key_length fulltext parts = parts_length parts

unfoldable pub build_data_key : List ℕ → List ℕ
build_data_key pk = 1 ∷ pk

-- With a primary key of the user; otherwise the bytes of the current row.
unfoldable pub pk_from_record : {Row : Type 0} → (ℕ → List ℕ) → TableDef Row → List ℕ → Row → List ℕ
pk_from_record stale d current row =
    if d.has_user_pk then make_comparable_key stale d.pk_parts row else current

unfoldable pub sec_idx_key :
    {Row : Type 0} → (ℕ → List ℕ) → TableDef Row → List ℕ → Index Row → Row → List ℕ
sec_idx_key stale d current ix row =
    make_comparable_key stale ix.parts row ++ pk_from_record stale d current row
