-- ===== src/Spatial/Examples.antt =====
-- Coordinates of plugin/tidesdb_spatial.cc, and the geometry of a point.
use tidesdb_mysql.Base.{ℕ, ◌≡◌, ◌≤◌, ◌≢◌, length, refl, ◌∷◌, arith}
use tidesdb_mysql.Base.{List, replicate}
use tidesdb_mysql.Spatial.Wkb.{out_of_fuel, wkb_parse_geometry, empty_box}
use tidesdb_mysql.Spatial.Fuel.{Within, wkb_parse_geometry_ends}
use tidesdb_mysql.Spatial.{double_to_lex_uint32}
use tidesdb_mysql.Spatial.Lex.{double_to_lex_uint32_mono}

-- -1.0 and 1.0.
abbrev minus_one : ℕ
minus_one = 0xbff0000000000000

abbrev one : ℕ
one = 0x3ff0000000000000

double_to_lex_uint32_mono_example : double_to_lex_uint32 minus_one ≤ double_to_lex_uint32 one
unfolding tidesdb_mysql.Spatial.lt_double tidesdb_mysql.Spatial.is_nan tidesdb_mysql.Spatial.rank
double_to_lex_uint32_mono_example =
    double_to_lex_uint32_mono minus_one one (omega arith) (omega arith) refl

-- A point at the origin.
abbrev origin : List ℕ
origin = 1 ∷ 1 ∷ 0 ∷ 0 ∷ 0 ∷ replicate 16 0

wkb_parse_geometry_ends_example :
    (wkb_parse_geometry 22 origin empty_box ≢ out_of_fuel)
    × Within (length origin) (wkb_parse_geometry 22 origin empty_box)
    × (wkb_parse_geometry 22 origin empty_box ≡ wkb_parse_geometry 40 origin empty_box)
wkb_parse_geometry_ends_example =
    wkb_parse_geometry_ends 22 40 origin empty_box (omega arith) (omega arith)
