-- ===== src/Scan/Lookup.antt =====
-- index_read_map of plugin/ha_tidesdb.cc. The search key is given as
-- key_copy_to_comparable makes it.
use tidesdb_mysql.Base.{
  ℕ, zero, suc, ◌-◌, Bool, true, false, not, ◌&&◌, ◌||◌, none, some, List, ◌++◌, if◌then◌else◌, ltb,
  leb, length, take, drop, replicate,
}
use tidesdb_mysql.Codes.{Rc, Ha, is_success, ha_ok}
use tidesdb_mysql.RowLock.{bytes_eq}
use tidesdb_mysql.Rows.{Store}
use tidesdb_mysql.Rows.Key.{build_data_key}
use tidesdb_mysql.Rows.KeyRead.{Check, check_pos, check_neg, check_out_of_range}
use tidesdb_mysql.Scan.{
  Iterator, ScanEnv, Scan, Answer, Read, dir_forward, dir_backward, found, end_of_file, aborted,
  out_of_rounds, failed, key_not_found, turn_if_found, and_read, moved, is_iter_valid,
  fetch_row_by_pk, iter_read_current, ensure_scan_iter,
}

-- The search flags but those of a box; `read_other` is any other number.
pub data Find : Type 0 where
  read_exact read_or_next read_after read_or_prev read_before read_prefix_last : Find
  read_prefix_last_or_prev read_other : Find

abbrev pub key_inf_hi_byte : ℕ
key_inf_hi_byte = 255

-- `len >= comp_len && memcmp(ik, comp, comp_len) == 0`
unfoldable pub has_prefix : List ℕ → List ℕ → Bool
has_prefix comp ik = not (ltb (length ik) (length comp)) && bytes_eq (take (length comp) ik) comp

unfoldable pub is_backward : Find → Bool
is_backward read_exact = false
is_backward read_or_next = false
is_backward read_after = false
is_backward read_or_prev = true
is_backward read_before = true
is_backward read_prefix_last = true
is_backward read_prefix_last_or_prev = true
is_backward read_other = false

unfoldable pub is_exact : Find → Bool
is_exact read_exact = true
is_exact read_or_next = false
is_exact read_after = false
is_exact read_or_prev = false
is_exact read_before = false
is_exact read_prefix_last = false
is_exact read_prefix_last_or_prev = false
is_exact read_other = false

module _ {Row W I : Type 0} (it : Iterator I) (s : Store W) (e : ScanEnv Row W I) where
  -- Whether the iterator stands at a key for which the test holds.
  unfoldable pub stands_at : (List ℕ → Bool) → Scan Row W I → Bool
  stands_at test c = elim c.iter [
    | none ↦ false
    | some i ↦ it.valid i && (is_success (it.key i).0 && test (it.key i).1)
  ]

  -- The columns from the entry where that is enough, and otherwise the row.
  unfoldable pub read_entry : List ℕ → Read (Scan Row W I)
  read_entry ik c =
      let pk = drop (e.idx_comp_key_len c.active_index) ik in
      let (read, b) = e.keyread c.active_index ik c.buf in
      if e.keyread_only
      then (if read
          then (found, record c { buf = b })
          else fetch_row_by_pk it s e pk (record c { buf = b }))
      else fetch_row_by_pk it s e pk c

  -- What the test of a pushed condition says: on to the next entry, the end of the range, or this entry.
  unfoldable pub judge :
      (List ℕ → Read (Scan Row W I))
      → Read (Scan Row W I)
      → List ℕ
      → Scan Row W I
      → Check × Row
      → Answer × Scan Row W I
  judge finish onward ik c (check_neg, b) = onward (record c { buf = b })
  judge finish onward ik c (check_out_of_range, b) = (end_of_file, record c { buf = b })
  judge finish onward ik c (check_pos, b) = finish ik (record c { buf = b })

  -- One entry of a secondary index. `missed` is the answer where the loop ends, `wanted` a test of the
  -- key that ends it, and `finish` what is done with the entry.
  unfoldable pub visit :
      Answer
      → (List ℕ → Bool)
      → (List ℕ → Read (Scan Row W I))
      → Read (Scan Row W I)
      → Scan Row W I
      → Rc × List ℕ
      → Answer × Scan Row W I
  visit missed wanted finish onward c (rc, ik) =
      if not (is_success rc)
      then (missed, c)
      else if not (wanted ik)
      then (missed, c)
      else if leb (length ik) (e.idx_comp_key_len c.active_index)
      then (missed, c)
      else judge finish onward ik c (e.icp c.active_index ik c.buf)

  unfoldable pub icp_loop :
      (I → I) → Answer → (List ℕ → Bool) → (List ℕ → Read (Scan Row W I)) → ℕ → Read (Scan Row W I)
  icp_loop advance missed wanted finish zero c = (out_of_rounds, c)
  icp_loop advance missed wanted finish (suc n) c = elim c.iter [
    | none ↦ (missed, c)
    | some i ↦
        let onward = λ (d : Scan Row W I).
          icp_loop advance missed wanted finish n (record d { iter = some (advance i) }) in
        if not (it.valid i) then (missed, c) else visit missed wanted finish onward c (it.key i)
  ]

  -- `while` the key has the prefix; the flag is false where the rounds ran out.
  unfoldable pub skip_prefix : List ℕ → ℕ → Scan Row W I → Bool × Scan Row W I
  skip_prefix comp zero c = (false, c)
  skip_prefix comp (suc n) c = elim c.iter [
    | none ↦ (true, c)
    | some i ↦
        let onward = skip_prefix comp n (record c { iter = some (it.next i) }) in
        if it.valid i && (is_success (it.key i).0 && has_prefix comp (it.key i).1)
        then onward
        else (true, c)
  ]

  unfoldable pub read_forward : Read (Scan Row W I)
  read_forward c = turn_if_found dir_forward (iter_read_current it s e) c

  unfoldable pub read_backward : Read (Scan Row W I)
  read_backward c = turn_if_found dir_backward (iter_read_current it s e) c

  -- A full primary key, read exactly: the lock, where reads lock, and the row.
  unfoldable pub read_point : List ℕ → Read (Scan Row W I)
  read_point comp c =
      let (code, w) = s.row_lock_acquire comp c.world in
      let locked : Ha × Scan Row W I =
        if e.locks_reads then (code, record c { world = w }) else (ha_ok, c) in
      and_read locked (λ c'.
        let r = fetch_row_by_pk it s e comp c' in
        elim r.0 [
          | found ↦ (found, record r.1 { exact_done = true })
          | end_of_file ↦ r
          | aborted ↦ r
          | out_of_rounds ↦ r
          | failed code' ↦ r
        ])

  -- The reads backwards along the primary key. A part of a key is filled up to find the last row of its
  -- group.
  unfoldable pub read_pk_backward : Find → List ℕ → Read (Scan Row W I)
  read_pk_backward flag comp c =
      let key = build_data_key comp in
      let pad = e.idx_comp_key_len e.pk_index - length comp in
      let padded = moved (it.seek_for_prev (key ++ replicate pad key_inf_hi_byte)) c in
      let sought = moved (it.seek_for_prev key) c in
      let left_group = is_iter_valid it s e padded && not (stands_at (has_prefix key) padded) in
      let before = if stands_at (bytes_eq key) sought then moved it.prev sought else sought in
      if ltb (length comp) (e.idx_comp_key_len e.pk_index)
      then elim flag [
        | read_prefix_last ↦ if left_group then (key_not_found, padded) else read_backward padded
        | read_exact ↦ read_backward padded
        | read_or_next ↦ read_backward padded
        | read_after ↦ read_backward padded
        | read_or_prev ↦ read_backward padded
        | read_before ↦ read_backward padded
        | read_prefix_last_or_prev ↦ read_backward padded
        | read_other ↦ read_backward padded
      ]
      else elim flag [
        | read_before ↦ read_backward before
        | read_prefix_last ↦ read_backward sought
        | read_exact ↦ read_backward sought
        | read_or_next ↦ read_backward sought
        | read_after ↦ read_backward sought
        | read_or_prev ↦ read_backward sought
        | read_prefix_last_or_prev ↦ read_backward sought
        | read_other ↦ read_backward sought
      ]

  unfoldable pub read_pk : Find → List ℕ → Read (Scan Row W I)
  read_pk flag comp c =
      let key = build_data_key comp in
      let sought = λ (c' : Scan Row W I). moved (it.seek key) c' in
      let with_iter = and_read (ensure_scan_iter it s e c) in
      let forward = with_iter (λ c'. read_forward (sought c')) in
      let backward = with_iter (read_pk_backward flag comp) in
      elim flag [
        | read_exact ↦
            if leb (e.idx_comp_key_len e.pk_index) (length comp) then read_point comp c else forward
        | read_or_next ↦ forward
        | read_after ↦ with_iter (λ c'.
            let at = sought c' in
            read_forward (if stands_at (bytes_eq key) at then moved it.next at else at))
        | read_or_prev ↦ backward
        | read_before ↦ backward
        | read_prefix_last ↦ backward
        | read_prefix_last_or_prev ↦ backward
        | read_other ↦ forward
      ]

  -- Where a read of a secondary index begins.
  unfoldable pub seek_entry : Find → List ℕ → Scan Row W I → Bool × Scan Row W I
  seek_entry flag comp c =
      let sought = moved (it.seek comp) c in
      let last = moved (it.seek_for_prev (comp ++ replicate e.pk_key_len key_inf_hi_byte)) c in
      elim flag [
        | read_exact ↦ (true, sought)
        | read_or_next ↦ (true, sought)
        | read_after ↦ skip_prefix comp e.limit sought
        | read_or_prev ↦ (true, last)
        | read_before ↦ (true, last)
        | read_prefix_last ↦ (true, last)
        | read_prefix_last_or_prev ↦ (true, last)
        | read_other ↦ (true, sought)
      ]

  unfoldable pub read_secondary : Find → List ℕ → Read (Scan Row W I)
  read_secondary flag comp c =
      let wanted = λ (ik : List ℕ). not (is_exact flag) || has_prefix comp ik in
      let sought = seek_entry flag comp c in
      let turn = if is_backward flag then dir_backward else dir_forward in
      let advance = if is_backward flag then it.prev else it.next in
      if sought.0
      then icp_loop advance key_not_found wanted (λ ik. turn_if_found turn (read_entry ik)) e.limit
          sought.1
      else (out_of_rounds, sought.1)

  unfoldable pub index_read_map : Find → List ℕ → Read (Scan Row W I)
  index_read_map flag comp c =
      let c' = record c { search_comp = comp } in
      if c.is_pk
      then read_pk flag comp c'
      else and_read (ensure_scan_iter it s e c') (read_secondary flag comp)

  unfoldable pub index_read_last_map : List ℕ → Read (Scan Row W I)
  index_read_last_map comp c = index_read_map read_prefix_last comp c
