-- ===== src/Scan/Boxes.antt =====
-- The search of a spatial index: spatial_scan_next and the branch of index_read_map that begins it,
-- plugin/ha_tidesdb.cc.
use tidesdb_mysql.Base.{
  ℕ, zero, suc, ◌^◌, ◌-◌, Bool, true, false, not, ◌||◌, Option, none, some, List, [], ◌∷◌,
  if◌then◌else◌, ltb, leb, length, take, drop,
}
use tidesdb_mysql.Codes.{
  Ha, is_success, ha_ok, ha_lock_deadlock, ha_lock_wait_timeout, ha_record_file_full, ha_out_of_mem,
  ha_key_not_found, ha_found_dupp_key, ha_read_only_transaction, ha_crashed, ha_too_big_row,
  ha_internal_error, ha_generic, ha_no_savepoint,
}
use tidesdb_mysql.Fts.{of_le}
use tidesdb_mysql.Spatial.{
  Mbr, Mode, encode_hilbert_be, decode_hilbert_be, double_to_lex_uint32, spatial_mbr_predicate,
  mbr_intersect, mbr_contain, mbr_within_mode, mbr_equal, mbr_disjoint_mode, other_mode,
}
use tidesdb_mysql.Spatial.Ranges.{spatial_decompose_ranges}
use tidesdb_mysql.Rows.{Store}
use tidesdb_mysql.Scan.{
  Iterator, ScanEnv, Scan, Answer, Read, dir_forward, found, end_of_file, aborted, out_of_rounds,
  failed, moved, and_read, fetch_row_by_pk, ensure_scan_iter,
}

abbrev pub spatial_hilbert_key_len : ℕ
spatial_hilbert_key_len = 8

abbrev pub spatial_mbr_value_len : ℕ
spatial_mbr_value_len = 32

-- Four doubles, in the order of a little-endian machine.
unfoldable pub entry_mbr : List ℕ → Mbr
entry_mbr value = record {
  xmin = of_le (take 8 value);
  ymin = of_le (take 8 (drop 8 value));
  xmax = of_le (take 8 (drop 16 value));
  ymax = of_le (take 8 (drop 24 value));
}

-- HA_ERR_KEY_NOT_FOUND, after which the search goes on.
unfoldable pub is_key_not_found : Ha → Bool
is_key_not_found ha_key_not_found = true
is_key_not_found ha_ok = false
is_key_not_found ha_lock_deadlock = false
is_key_not_found ha_lock_wait_timeout = false
is_key_not_found ha_record_file_full = false
is_key_not_found ha_out_of_mem = false
is_key_not_found ha_found_dupp_key = false
is_key_not_found ha_read_only_transaction = false
is_key_not_found ha_crashed = false
is_key_not_found ha_too_big_row = false
is_key_not_found ha_internal_error = false
is_key_not_found ha_generic = false
is_key_not_found ha_no_savepoint = false

-- The ranges of a query; what is disjoint from the box can be anywhere.
unfoldable pub query_ranges : Mode → Mbr → List (ℕ × ℕ)
query_ranges mode q =
    let tight =
      spatial_decompose_ranges (double_to_lex_uint32 q.xmin) (double_to_lex_uint32 q.ymin)
        (double_to_lex_uint32 q.xmax) (double_to_lex_uint32 q.ymax) in
    elim mode [
      | mbr_disjoint_mode ↦ (0, 2 ^ 64 - 1) ∷ []
      | mbr_intersect ↦ tight
      | mbr_contain ↦ tight
      | mbr_within_mode ↦ tight
      | mbr_equal ↦ tight
      | other_mode ↦ tight
    ]

module _ {Row W I : Type 0} (it : Iterator I) (s : Store W) (e : ScanEnv Row W I) where
  -- The row of an entry, unless there is none; then the search goes on.
  unfoldable pub take_match :
      List ℕ → Scan Row W I → Option Answer × Scan Row W I → Option Answer × Scan Row W I
  take_match ik c onward =
      let r = fetch_row_by_pk it s e (drop spatial_hilbert_key_len ik) c in
      elim r.0 [
        | found ↦ (some found, record r.1 { dir = dir_forward })
        | end_of_file ↦ (some end_of_file, r.1)
        | aborted ↦ (some aborted, r.1)
        | out_of_rounds ↦ (some out_of_rounds, r.1)
        | failed code ↦ if is_key_not_found code then onward else (some (failed code), r.1)
      ]

  -- The loop within the range that ends at `cur_hi`; none where the range is exhausted.
  unfoldable pub scan_range : ℕ → ℕ → Scan Row W I → Option Answer × Scan Row W I
  scan_range zero cur_hi c = (some out_of_rounds, c)
  scan_range (suc n) cur_hi c = elim c.iter [
    | none ↦ (none, c)
    | some i ↦
        let (rc, ik) = it.key i in
        let (rv, value) = it.value i in
        let onward = scan_range n cur_hi (record c { iter = some (it.next i) }) in
        if not (it.valid i)
        then (none, c)
        else if e.killed c.world
        then (some aborted, c)
        else if not (is_success rc)
        then (none, c)
        else if leb (length ik) spatial_hilbert_key_len
        then onward
        else if ltb cur_hi (decode_hilbert_be ik)
        then (none, c)
        else if not (is_success rv) || ltb (length value) spatial_mbr_value_len
        then onward
        else if not (spatial_mbr_predicate c.spatial_mode c.query_mbr (entry_mbr value))
        then onward
        else take_match ik c onward
  ]

  -- To the first key of the first range, if there is one.
  unfoldable pub seek_range : List (ℕ × ℕ) → Scan Row W I → Scan Row W I
  seek_range [] c = c
  seek_range ((lo, hi) ∷ ranges) c = moved (it.seek (encode_hilbert_be lo)) c

  unfoldable pub scan_ranges : List (ℕ × ℕ) → Read (Scan Row W I)
  scan_ranges [] c = (end_of_file, c)
  scan_ranges ((lo, hi) ∷ ranges) c =
      let r = scan_range e.limit hi c in
      elim r.0 [
        | some answer ↦ (answer, r.1)
        | none ↦ scan_ranges ranges (seek_range ranges (record r.1 { spatial_ranges = ranges }))
      ]

  unfoldable pub spatial_scan_next : Read (Scan Row W I)
  spatial_scan_next c = scan_ranges c.spatial_ranges c

  -- `index_read_map` with one of the flags of a box, where the key is that of the box.
  unfoldable pub index_read_mbr : Mode → Mbr → Read (Scan Row W I)
  index_read_mbr mode q c =
      and_read
        (ensure_scan_iter it s e
          (record c { query_mbr = q; spatial_mode = mode; spatial_active = true }))
        (λ c'.
          let ranges = query_ranges mode q in
          spatial_scan_next (seek_range ranges (record c' { spatial_ranges = ranges })))
