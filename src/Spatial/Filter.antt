-- ===== src/Spatial/Filter.antt =====
-- How the filters of plugin/tidesdb_spatial.cc relate.
use tidesdb_mysql.Base.{◌≡◌, true, false, arith}
use tidesdb_mysql.Spatial.{
  Mbr, mbr_intersects, mbr_within, mbr_equals, mbr_disjoint, spatial_mbr_predicate, mbr_intersect,
  mbr_contain, mbr_equal, mbr_disjoint_mode, lt_double, le_double, eq_double,
}

-- A box with its corners in order.
abbrev pub IsBox : Mbr → Type 0
IsBox m = (le_double m.xmin m.xmax ≡ true) × (le_double m.ymin m.ymax ≡ true)

-- A box that passes the test of equality passes the one of containment; one that passes this
-- and has its corners in order passes the one of intersection and not the one of disjointness; and
-- intersection does not depend on which of the two boxes is the query.
pub spatial_mbr_predicate_laws :
    (query entry : Mbr)
    → IsBox entry
    → (spatial_mbr_predicate mbr_equal query entry ≡ true
        → spatial_mbr_predicate mbr_contain query entry ≡ true)
      × (spatial_mbr_predicate mbr_contain query entry ≡ true
          → (spatial_mbr_predicate mbr_intersect query entry ≡ true)
            × (spatial_mbr_predicate mbr_disjoint_mode query entry ≡ false))
      × (spatial_mbr_predicate mbr_intersect query entry
          ≡ spatial_mbr_predicate mbr_intersect entry query)
unfolding spatial_mbr_predicate mbr_disjoint mbr_equals mbr_within mbr_intersects lt_double
    le_double eq_double
spatial_mbr_predicate_laws query entry (bx, by) =
    (λ e. ground arith, λ e. (ground arith, ground arith), ground arith)
