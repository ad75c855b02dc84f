-- ===== src/Scan/Exact.antt =====
-- index_read_map with HA_READ_KEY_EXACT on a secondary index and the calls of index_next_same that
-- follow, plugin/ha_tidesdb.cc.
use tidesdb_mysql.Base.{
  ℕ, zero, suc, ◌<◌, ◌≡◌, refl, ap, ◌∙◌, sym, inl, inr, Bool, true, false, some, List, [], ◌∷◌,
  if◌then◌else◌, arith, length, drop, subst, All, map, if_cases,
}
use tidesdb_mysql.Codes.{Ha}
use tidesdb_mysql.Rows.{Store, is_ok}
use tidesdb_mysql.Scan.{
  Iterator, ScanEnv, Scan, Answer, Read, dir_forward, found, end_of_file, key_not_found, turned,
  turn_if_found, and_read, fetch_row_by_pk, ensure_scan_iter,
}
use tidesdb_mysql.Scan.Lookup.{
  read_exact, has_prefix, is_exact, is_backward, read_entry, icp_loop, seek_entry, read_pk,
  read_secondary, index_read_map,
}
use tidesdb_mysql.Scan.Walk.{index_next_same}
use tidesdb_mysql.Scan.Contract.{
  KeyValue, below, drop_below, length-drop_below, Forward, Uncontended, steady, gather, read_all,
  moved-some,
}
use tidesdb_mysql.Scan.Ensure.{ensure_scan_iter-Has}
use tidesdb_mysql.Scan.Group.{hits, verdict, Keeps, HasRow, Hit, fetch-found, loop, loop-Hit}
use tidesdb_mysql.Scan.Order.{Sorted, matching, hits-drop_below}

module _ {Row W I : Type 0} (it : Iterator I) (s : Store W) (e : ScanEnv Row W I)
    (rest all : I → List KeyValue) (law : Forward it rest all) (free : Uncontended it) (idx : ℕ)
    (accept : List ℕ → Bool)
    (tested : (k : List ℕ) (b : Row) → (e.icp idx k b).0 ≡ verdict (accept k))
    (rows_read : e.keyread_only ≡ false) (comp : List ℕ) (w : W) (alive : e.killed w ≡ false) where
  abbrev pub HasRow' : KeyValue → Type 0
  HasRow' = HasRow it s e rest all (steady law free) idx accept tested comp w

  read_entry_fetches :
      (x : KeyValue) (c : Scan Row W I)
      → c.active_index ≡ idx
      → read_entry it s e x.0 c ≡ fetch_row_by_pk it s e (drop (e.idx_comp_key_len idx) x.0) c
  unfolding read_entry
  read_entry_fetches x c h =
      simp rows_read (ap (λ (j : ℕ). fetch_row_by_pk it s e (drop (e.idx_comp_key_len j) x.0) c) h)

  -- A row was found, and only the row, its primary key and the direction differ.
  Gives : KeyValue → Scan Row W I → Answer × Scan Row W I → Type 0
  Gives x c r =
      (r.0 ≡ found)
      × (r.1.current_pk ≡ drop (e.idx_comp_key_len idx) x.0)
      × (r.1.iter ≡ c.iter)
      × Keeps c r.1

  read_entry-Gives :
      (x : KeyValue) (c : Scan Row W I)
      → HasRow' x
      → c.world ≡ w
      → c.active_index ≡ idx
      → Gives x c (read_entry it s e x.0 c)
  unfolding Gives
  read_entry-Gives x c has sw si =
      let (d, eq, pk, ie, k) =
        fetch-found it s e rest all (steady law free) idx accept tested comp w x c has sw in
      subst (Gives x c) (sym (read_entry_fetches x c si ∙ eq)) (refl, pk, ie, k)

  first_entry-Gives :
      (x : KeyValue) (c : Scan Row W I)
      → HasRow' x
      → c.world ≡ w
      → c.active_index ≡ idx
      → Gives x c (turned dir_forward (read_entry it s e x.0 c))
  unfolding Gives turned
  first_entry-Gives x c has sw si =
      let (d, eq, pk, ie, k) =
        fetch-found it s e rest all (steady law free) idx accept tested comp w x c has sw in
      subst (λ r. Gives x c (turned dir_forward r)) (sym (read_entry_fetches x c si ∙ eq))
        (
          refl,
          pk,
          ie,
          record {
            same_world = k.same_world;
            same_index = k.same_index;
            same_comp = k.same_comp;
            same_pk = k.same_pk;
            same_spatial = k.same_spatial;
          },
        )

  Hit' : Answer → List KeyValue → Scan Row W I → Answer × Scan Row W I → Type 0
  Hit' = Hit it s e rest all (steady law free) idx accept tested comp w

  -- A handler that reads this index, for this key.
  record Reading (c : Scan Row W I) : Type 0 where
    world_is : c.world ≡ w
    index_is : c.active_index ≡ idx
    comp_is : c.search_comp ≡ comp
    no_pk : c.is_pk ≡ false
    no_box : c.spatial_active ≡ false

  Reading-Keeps : (c d : Scan Row W I) → Keeps c d → Reading c → Reading d
  Reading-Keeps c d k a = record {
    world_is = k.same_world ∙ a.world_is;
    index_is = k.same_index ∙ a.index_is;
    comp_is = k.same_comp ∙ a.comp_is;
    no_pk = k.same_pk ∙ a.no_pk;
    no_box = k.same_spatial ∙ a.no_box;
  }

  -- It stands at the entry that was read last.
  record Inside (x : KeyValue) (xs : List KeyValue) (c : Scan Row W I) : Type 0 where
    pos : I
    iter_is : c.iter ≡ some pos
    rest_is : rest pos ≡ x ∷ xs
    rows : All HasRow' xs
    reading : Reading c

  next_same_loop :
      (c : Scan Row W I) (i : I)
      → c.iter ≡ some i
      → e.killed c.world ≡ false
      → c.is_pk ≡ false
      → c.spatial_active ≡ false
      → index_next_same it s e c
        ≡ icp_loop it s e it.next end_of_file
            (has_prefix c.search_comp)
            (read_entry it s e)
            e.limit
            (record c { iter = some (it.next i) })
  unfolding index_next_same
  next_same_loop c i h al np nb = simp (al, np, nb, h, moved-some it.next c i h)

  next_same-Hit :
      (x : KeyValue) (xs : List KeyValue) (c : Scan Row W I)
      → Inside x xs c
      → length xs < e.limit
      → Hit' end_of_file xs c (index_next_same it s e c)
  unfolding Hit' Gives
  next_same-Hit x xs c a l =
      let al : e.killed c.world ≡ false = ap e.killed a.reading.world_is ∙ alive in
      let go : icp_loop it s e it.next end_of_file (has_prefix c.search_comp) (read_entry it s e)
            e.limit (record c { iter = some (it.next a.pos) })
          ≡ loop it s e rest all (steady law free) idx accept tested comp w end_of_file
              (read_entry it s e) read_entry-Gives e.limit
              (record c { iter = some (it.next a.pos) }) =
        ap
          (λ (q : List ℕ).
            icp_loop it s e it.next end_of_file (has_prefix q) (read_entry it s e) e.limit
              (record c { iter = some (it.next a.pos) }))
          a.reading.comp_is in
      subst (Hit it s e rest all (steady law free) idx accept tested comp w end_of_file xs c)
        (sym (next_same_loop c a.pos a.iter_is al a.reading.no_pk a.reading.no_box ∙ go))
        (loop-Hit it s e rest all (steady law free) idx accept tested comp w end_of_file
          (read_entry it s e) read_entry-Gives e.limit xs c (it.next a.pos)
          ((steady law free).next_at a.pos x xs a.rest_is) a.rows a.reading.world_is
          a.reading.index_is l)

  abbrev pub pks : List (List ℕ × Row) → List (List ℕ)
  pks rows = map (λ (r : List ℕ × Row). r.0) rows

  -- The primary keys that were read, and the answer of the last read.
  abbrev pub Reads : Answer → List (List ℕ) → List (List ℕ × Row) × Answer → Type 0
  Reads last keys r = (pks r.0 ≡ keys) × (r.1 ≡ last)

  abbrev pub ending : Answer → List (List ℕ) → Answer
  ending missed [] = missed
  ending missed (k ∷ keys) = end_of_file

  ended :
      (onward : Scan Row W I → List (List ℕ × Row) × Answer) (d : Scan Row W I)
      → gather onward (end_of_file, d) ≡ ([], end_of_file)
  unfolding gather
  ended onward d = refl

  missed_first :
      (onward : Scan Row W I → List (List ℕ × Row) × Answer) (d : Scan Row W I)
      → gather onward (key_not_found, d) ≡ ([], key_not_found)
  unfolding gather
  missed_first onward d = refl

  gathered :
      (missed : Answer) (onward : Scan Row W I → List (List ℕ × Row) × Answer) (es : List KeyValue)
      (c : Scan Row W I) (r : Answer × Scan Row W I)
      → ((d : Scan Row W I) → gather onward (missed, d) ≡ ([], missed))
      → Reading c
      → Hit' missed es c r
      → ((x : KeyValue) (xs : List KeyValue) (d : Scan Row W I)
          → length xs < length es
          → Inside x xs d
          → Reads end_of_file (hits (e.idx_comp_key_len idx) accept comp xs) (onward d))
      → Reads
          (ending missed (hits (e.idx_comp_key_len idx) accept comp es))
          (hits (e.idx_comp_key_len idx) accept comp es)
          (gather onward r)
  unfolding Hit' Hit gather
  gathered missed onward es c (a, d) ends at (k, inl (none_left, m)) ih =
      rw (none_left, m, ends d) (refl, refl)
  gathered missed onward es c (a, d) ends at (k, inr (x, xs, i, f, ie, re, rows, sh, eq)) ih =
      let inside : Inside x xs d = record {
        pos = i;
        iter_is = ie;
        rest_is = re;
        rows = rows;
        reading = Reading-Keeps c d k at;
      } in
      let (keys, last) = ih x xs d sh inside in
      rw (eq, f) (ap (λ (ks : List (List ℕ)). d.current_pk ∷ ks) keys, last)

  ending_same : (keys : List (List ℕ)) → ending end_of_file keys ≡ end_of_file
  ending_same [] = refl
  ending_same (k ∷ keys) = refl

  read_on :
      (n : ℕ) (x : KeyValue) (xs : List KeyValue) (c : Scan Row W I)
      → Inside x xs c
      → length xs < e.limit
      → ((y : KeyValue) (ys : List KeyValue) (d : Scan Row W I)
          → length ys < length xs
          → Inside y ys d
          → Reads end_of_file
              (hits (e.idx_comp_key_len idx) accept comp ys)
              (read_all (index_next_same it s e) n d))
      → Reads
          (ending end_of_file (hits (e.idx_comp_key_len idx) accept comp xs))
          (hits (e.idx_comp_key_len idx) accept comp xs)
          (read_all (index_next_same it s e) (suc n) c)
  unfolding read_all
  read_on n x xs c a l ih =
      gathered end_of_file (read_all (index_next_same it s e) n) xs c (index_next_same it s e c)
        (ended (read_all (index_next_same it s e) n)) a.reading (next_same-Hit x xs c a l) ih

  next_same_all :
      (n : ℕ) (x : KeyValue) (xs : List KeyValue) (c : Scan Row W I)
      → Inside x xs c
      → length xs < e.limit
      → length xs < n
      → Reads end_of_file
          (hits (e.idx_comp_key_len idx) accept comp xs)
          (read_all (index_next_same it s e) n c)
  next_same_all zero x xs c a l m = absurd (omega arith)
  next_same_all (suc n) x xs c a l m =
      subst
        (λ last.
          Reads last (hits (e.idx_comp_key_len idx) accept comp xs)
            (read_all (index_next_same it s e) (suc n) c))
        (ending_same (hits (e.idx_comp_key_len idx) accept comp xs))
        (read_on n x xs c a l (λ y ys d sh b. next_same_all n y ys d b (omega arith) (omega arith)))

  first_of_group :
      (c : Scan Row W I) (j : I)
      → c.iter ≡ some j
      → read_secondary it s e read_exact comp c
        ≡ icp_loop it s e it.next key_not_found
            (has_prefix comp)
            (λ ik. turn_if_found dir_forward (read_entry it s e ik))
            e.limit
            (record c { iter = some (it.seek comp j) })
  unfolding read_secondary seek_entry is_exact is_backward
  first_of_group c j h = simp (moved-some (it.seek comp) c j h)

  first_read-Hit :
      (c : Scan Row W I) (j : I)
      → c.iter ≡ some j
      → Reading c
      → All HasRow' (drop_below comp (all j))
      → length (drop_below comp (all j)) < e.limit
      → Hit' key_not_found (drop_below comp (all j)) c (read_secondary it s e read_exact comp c)
  unfolding Hit' Gives
  first_read-Hit c j h a rows l =
      let finish = λ (ik : List ℕ). turn_if_found dir_forward (read_entry it s e ik) in
      subst
        (Hit it s e rest all (steady law free) idx accept tested comp w key_not_found
          (drop_below comp (all j)) c)
        (sym (first_of_group c j h))
        (loop-Hit it s e rest all (steady law free) idx accept tested comp w key_not_found finish
          first_entry-Gives e.limit (drop_below comp (all j)) c (it.seek comp j)
          ((steady law free).seek_at j comp) rows a.world_is a.index_is l)

  All-drop_below : (es : List KeyValue) → All HasRow' es → All HasRow' (drop_below comp es)
  unfolding drop_below
  All-drop_below [] h = tt
  All-drop_below ((k, v) ∷ es) h =
      if_cases (All HasRow') (below k comp) (drop_below comp es) ((k, v) ∷ es)
        (λ _. All-drop_below es h.1) (λ _. h)

  and_read_ok :
      (x : Ha × Scan Row W I) (f : Read (Scan Row W I)) → is_ok x.0 ≡ true → and_read x f ≡ f x.1
  unfolding and_read
  and_read_ok x f h = rw (and_read, h) refl

  read_map_exact :
      (c : Scan Row W I)
      → c.is_pk ≡ false
      → is_ok (ensure_scan_iter it s e (record c { search_comp = comp })).0 ≡ true
      → index_read_map it s e read_exact comp c
        ≡ read_secondary it s e read_exact comp
            (ensure_scan_iter it s e (record c { search_comp = comp })).1
  unfolding index_read_map
  read_map_exact c np ok =
      let c' = record c { search_comp = comp } in
      let second = and_read (ensure_scan_iter it s e c') (read_secondary it s e read_exact comp) in
      ap (λ (b : Bool). if b then read_pk it s e read_exact comp c' else second) np
      ∙ and_read_ok (ensure_scan_iter it s e c') (read_secondary it s e read_exact comp) ok

  -- On a secondary index whose entries `es` stand in the order of their keys and all have rows, and with a
  -- pushed condition that accepts or rejects each key and no read of columns from the index: an exact
  -- read for the search key, and then reads of the next row with the same key until one gives none, give
  -- the primary keys of exactly those entries, wherever they stand, that begin with the search key and
  -- are accepted, in order. The last answer is that there is no such key where there is no such entry,
  -- and otherwise the end of the file. The statement is not killed, an iterator is there or can be
  -- opened, no read, step or seek of the iterator is refused (as contention that outlasts the retries
  -- does), and each loop and the caller may take more rounds than there are entries.
  pub index_read_map-next_same :
      (n : ℕ) (c : Scan Row W I) (es : List KeyValue)
      → c.world ≡ w
      → c.active_index ≡ idx
      → c.is_pk ≡ false
      → c.spatial_active ≡ false
      → is_ok (ensure_scan_iter it s e (record c { search_comp = comp })).0 ≡ true
      → ((j : I)
          → (ensure_scan_iter it s e (record c { search_comp = comp })).1.iter ≡ some j
          → all j ≡ es)
      → Sorted es
      → All HasRow' es
      → length es < e.limit
      → length es < n
      → Reads
          (ending key_not_found (matching (e.idx_comp_key_len idx) accept comp es))
          (matching (e.idx_comp_key_len idx) accept comp es)
          (gather (read_all (index_next_same it s e) n) (index_read_map it s e read_exact comp c))
  index_read_map-next_same n c es sw si np nb ok same so rows l m =
      let c' = record c { search_comp = comp } in
      let d = (ensure_scan_iter it s e c').1 in
      let has = ensure_scan_iter-Has it s e c' ok in
      let len = e.idx_comp_key_len idx in
      let found_es : all has.pos ≡ es = same has.pos has.iter_is in
      let left = drop_below comp (all has.pos) in
      let keys : hits len accept comp left ≡ matching len accept comp es =
        ap (λ (fs : List KeyValue). hits len accept comp (drop_below comp fs)) found_es
        ∙ hits-drop_below len accept comp es so in
      let short = length-drop_below comp (all has.pos) in
      let size : length (all has.pos) ≡ length es = ap length found_es in
      let at : Reading c' = record {
        world_is = sw;
        index_is = si;
        comp_is = refl;
        no_pk = np;
        no_box = nb;
      } in
      let reading = Reading-Keeps c' d has.keeps at in
      let left_rows = All-drop_below (all has.pos) (subst (All HasRow') (sym found_es) rows) in
      let hit = first_read-Hit d has.pos has.iter_is reading left_rows (omega arith) in
      subst
        (λ (ks : List (List ℕ)).
          Reads (ending key_not_found ks) ks (
            gather (read_all (index_next_same it s e) n) (index_read_map it s e read_exact comp c)))
        keys
        (subst
          (λ (r : Answer × Scan Row W I).
            Reads (ending key_not_found (hits len accept comp left)) (hits len accept comp left)
              (gather (read_all (index_next_same it s e) n) r))
          (sym (read_map_exact c np ok))
          (gathered key_not_found (read_all (index_next_same it s e) n) left d
            (read_secondary it s e read_exact comp d)
            (missed_first (read_all (index_next_same it s e) n)) reading hit
            (λ x xs f sh b. next_same_all n x xs f b (omega arith) (omega arith))))
