-- ===== src/Scan/Walk.antt =====
-- The steps along an index: index_next, index_prev, index_first, index_last and index_next_same of
-- plugin/ha_tidesdb.cc.
use tidesdb_mysql.Base.{
  ℕ, zero, suc, Bool, true, false, not, ◌&&◌, Option, none, some, [], ◌∷◌, if◌then◌else◌, leb,
  length, drop,
}
use tidesdb_mysql.Codes.{is_success}
use tidesdb_mysql.Key.{is_data_key, key_ns_data}
use tidesdb_mysql.Rows.{Store}
use tidesdb_mysql.Rows.Key.{build_data_key}
use tidesdb_mysql.Scan.{
  Iterator, ScanEnv, Scan, Dir, Answer, Read, dir_none, dir_forward, dir_backward, end_of_file,
  aborted, out_of_rounds, and_read, moved, is_iter_valid, fetch_row_by_pk, iter_read_current,
  ensure_scan_iter,
}
use tidesdb_mysql.Scan.Table.{step_on}
use tidesdb_mysql.Scan.Boxes.{spatial_scan_next}
use tidesdb_mysql.Scan.Lookup.{has_prefix, stands_at, read_entry, icp_loop, read_forward}

module _ {Row W I : Type 0} (it : Iterator I) (s : Store W) (e : ScanEnv Row W I) where
  unfoldable pub turn : Dir → Answer × Scan Row W I → Answer × Scan Row W I
  turn d r = (r.0, record r.1 { dir = d })

  -- To the row that was read last, by a look-up that used no iterator.
  unfoldable pub seek_current : Scan Row W I → Scan Row W I
  seek_current c = moved (it.seek (build_data_key c.current_pk)) c

  unfoldable pub past_current : Scan Row W I → Scan Row W I
  past_current c =
      let at = seek_current c in if is_iter_valid it s e at then moved it.next at else at

  unfoldable pub read_next : Read (Scan Row W I)
  read_next c =
      if c.is_pk
      then turn dir_forward (iter_read_current it s e c)
      else icp_loop it s e it.next end_of_file (λ _. true)
          (λ ik c'. turn dir_forward (read_entry it s e ik c')) e.limit c

  unfoldable pub next_entry : Read (Scan Row W I)
  next_entry c =
      if c.exact_done
      then and_read (ensure_scan_iter it s e (record c { exact_done = false }))
          (λ c'. read_next (past_current c'))
      else and_read (ensure_scan_iter it s e c) (λ c'. read_next (step_on it s e c'))

  unfoldable pub index_next : Read (Scan Row W I)
  index_next c =
      if e.killed c.world
      then (aborted, c)
      else if c.spatial_active
      then and_read (ensure_scan_iter it s e c) (λ c'. spatial_scan_next it s e (step_on it s e c'))
      else next_entry c

  -- The loop back over the keys that are no rows: whether it ended before the rounds did, and whether a
  -- key could not be read.
  unfoldable pub skip_back : ℕ → Scan Row W I → Option Bool × Scan Row W I
  skip_back zero c = (none, c)
  skip_back (suc n) c = elim c.iter [
    | none ↦ (some true, c)
    | some i ↦
        let onward = skip_back n (record c { iter = some (it.prev i) }) in
        if not (it.valid i)
        then (some true, c)
        else if not (is_success (it.key i).0)
        then (some false, c)
        else if is_data_key (it.key i).1
        then (some true, c)
        else onward
  ]

  unfoldable pub read_row_back : Read (Scan Row W I)
  read_row_back c =
      let r = skip_back e.limit c in
      elim r.0 [
        | none ↦ (out_of_rounds, r.1)
        | some read ↦
            if read
            then iter_read_current it s e (record r.1 { dir = dir_backward })
            else (end_of_file, r.1)
      ]

  unfoldable pub read_prev : Read (Scan Row W I)
  read_prev c =
      if c.is_pk
      then read_row_back c
      else icp_loop it s e it.prev end_of_file (λ _. true)
          (λ ik c'. read_entry it s e ik (record c' { dir = dir_backward })) e.limit c

  unfoldable pub index_prev : Read (Scan Row W I)
  index_prev c =
      let start =
        if c.exact_done
        then and_read (ensure_scan_iter it s e (record c { exact_done = false }))
            (λ c'. read_prev (moved it.prev (seek_current c')))
        else and_read (ensure_scan_iter it s e c) (λ c'. read_prev (moved it.prev c')) in
      if e.killed c.world then (aborted, c) else start

  unfoldable pub index_first : Read (Scan Row W I)
  index_first c = and_read (ensure_scan_iter it s e (record c { exact_done = false })) (λ c'.
      if c'.is_pk
      then read_forward it s e (moved (it.seek (key_ns_data ∷ [])) c')
      else index_next (record (moved it.seek_to_first c') { dir = dir_none }))

  -- The last entry of a secondary index; no pushed condition is tested.
  unfoldable pub read_last_entry : Read (Scan Row W I)
  read_last_entry c = elim c.iter [
    | none ↦ (end_of_file, c)
    | some i ↦
        let ik = (it.key i).1 in
        let len = e.idx_comp_key_len c.active_index in
        if not (it.valid i)
        then (end_of_file, c)
        else if not (is_success (it.key i).0)
        then (end_of_file, c)
        else if leb (length ik) len
        then (end_of_file, c)
        else fetch_row_by_pk it s e (drop len ik) (record c { dir = dir_backward })
  ]

  unfoldable pub index_last : Read (Scan Row W I)
  index_last c = and_read (ensure_scan_iter it s e (record c { exact_done = false })) (λ c'.
      let last = moved it.seek_to_last c' in
      if c'.is_pk then read_row_back last else read_last_entry last)

  -- The next row with the same part of the primary key.
  unfoldable pub next_same_row : Read (Scan Row W I)
  next_same_row c =
      let onward = moved it.next c in
      if leb (e.idx_comp_key_len e.pk_index) (length c.search_comp)
      then (end_of_file, c)
      else elim c.iter [
        | none ↦ (end_of_file, c)
        | some i ↦
            if stands_at it s e (λ ik. leb 1 (length ik) && has_prefix c.search_comp (drop 1 ik))
              onward
            then read_forward it s e onward
            else (end_of_file, onward)
      ]

  unfoldable pub index_next_same : Read (Scan Row W I)
  index_next_same c =
      let onward = moved it.next c in
      let next_same =
        icp_loop it s e it.next end_of_file (has_prefix c.search_comp) (read_entry it s e) e.limit
          onward in
      if e.killed c.world
      then (aborted, c)
      else if c.is_pk && not c.spatial_active
      then next_same_row c
      else elim c.iter [
        | none ↦ (end_of_file, c)
        | some i ↦ if c.spatial_active then spatial_scan_next it s e onward else next_same
      ]
