-- ===== src/Spatial/Wkb.antt =====
-- The WKB parser of plugin/tidesdb_spatial.cc. The cursor is the list of the bytes that are left, and the
-- box that the parser widens is an `Mbr`. Numbers are stored little-endian.
use tidesdb_mysql.Base.{
  ℕ, zero, suc, ◌%◌, ◌^◌, Bool, ◌&&◌, Option, none, some, List, if◌then◌else◌, ltb, ◌==◌, length,
  drop, take,
}
use tidesdb_mysql.Fts.{of_le}
use tidesdb_mysql.Spatial.{Mbr, lt_double, le_double}

abbrev pub is_finite : ℕ → Bool
is_finite bits = ltb (bits % 2 ^ 63) 0x7ff0000000000000

abbrev pub Cursor : Type 0
Cursor = List ℕ × Mbr

-- What a part of the parser comes to: the cursor after it and the box, or the `false` of the source; the
-- end of the model's fuel is neither.
pub data Outcome : Type 0 where
  out_of_fuel : Outcome
  rejected : Outcome
  parsed : Cursor → Outcome

-- A part of the parser.
abbrev pub Reader : Type 0
Reader = List ℕ → Mbr → Outcome

pub grow : ℕ → ℕ → Mbr → Mbr
grow x y m =
    if is_finite x && is_finite y
    then record {
      xmin = if lt_double x m.xmin then x else m.xmin;
      ymin = if lt_double y m.ymin then y else m.ymin;
      xmax = if lt_double m.xmax x then x else m.xmax;
      ymax = if lt_double m.ymax y then y else m.ymax;
    }
    else m

unfoldable pub wkb_read_point : Reader
wkb_read_point p m =
    if ltb (length p) 16
    then rejected
    else parsed (drop 16 p, grow (of_le (take 8 p)) (of_le (take 8 (drop 8 p))) m)

-- What follows a part, unless the part failed.
unfoldable pub next : Reader → Outcome → Outcome
next rest out_of_fuel = out_of_fuel
next rest rejected = rejected
next rest (parsed x) = rest x.0 x.1

-- `for (i = 0; i < n; i++) if (!read(...)) return false;`
unfoldable pub repeat : Reader → ℕ → Reader
repeat read zero p m = parsed (p, m)
repeat read (suc n) p m = next (repeat read n) (read p m)

-- A count of at most `limit`, and as many objects.
unfoldable pub read_counted : ℕ → Reader → Reader
read_counted limit read p m =
    if ltb (length p) 4
    then rejected
    else if ltb limit (of_le (take 4 p))
    then rejected
    else repeat read (of_le (take 4 p)) (drop 4 p) m

unfoldable pub wkb_read_point_sequence : Reader
wkb_read_point_sequence p m = read_counted 1000000 wkb_read_point p m

-- The object after its header; `nested` reads the objects that it contains.
unfoldable pub parse_body : Reader → ℕ → Reader
parse_body nested kind p m =
    if kind == 1
    then wkb_read_point p m
    else if kind == 2
    then wkb_read_point_sequence p m
    else if kind == 3
    then read_counted 10000 wkb_read_point_sequence p m
    else if ltb 3 kind && ltb kind 8
    then read_counted 100000 nested p m
    else rejected

-- The recursion is on fuel: how deep objects may be nested.
unfoldable pub wkb_parse_geometry : ℕ → Reader
wkb_parse_geometry zero p m = out_of_fuel
wkb_parse_geometry (suc fuel) p m =
    if ltb (length p) 5
    then rejected
    else parse_body (wkb_parse_geometry fuel) (of_le (take 4 (drop 1 p))) (drop 5 p) m

-- DBL_MAX and -DBL_MAX.
abbrev pub dbl_max : ℕ
dbl_max = 0x7fefffffffffffff

abbrev pub minus_dbl_max : ℕ
minus_dbl_max = 0xffefffffffffffff

abbrev pub empty_box : Mbr
empty_box = record { xmin = dbl_max; ymin = dbl_max; xmax = minus_dbl_max; ymax = minus_dbl_max }

pub spatial_compute_mbr : List ℕ → Option Mbr
spatial_compute_mbr bytes =
    if ltb (length bytes) 9
    then none
    else elim (wkb_parse_geometry (length bytes) (drop 4 bytes) empty_box) [
      | out_of_fuel ↦ none
      | rejected ↦ none
      | parsed (rest, m) ↦
          if le_double m.xmin m.xmax && le_double m.ymin m.ymax then some m else none
    ]
