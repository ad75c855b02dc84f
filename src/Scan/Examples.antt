-- ===== src/Scan/Examples.antt =====
-- A scan of two rows, and a read of an index with three entries.
use tidesdb_mysql.Base.{ℕ, ◌≡◌, refl, arith, true, Option, none, some, List, [], ◌∷◌, sym, ap}
use tidesdb_mysql.RowLock.{bytes_eq}
use tidesdb_mysql.Rows.{is_ok}
use tidesdb_mysql.Rows.Memory.{Session, memory}
use tidesdb_mysql.Scan.{Scan, end_of_file, open_iter, ensure_scan_iter, open_scan_iter}
use tidesdb_mysql.Scan.Table.{rnd_init}
use tidesdb_mysql.Scan.Lookup.{index_read_map, read_exact, has_prefix}
use tidesdb_mysql.Scan.Walk.{index_next_same}
use tidesdb_mysql.Scan.Contract.{KeyValue, below, read_all, gather}
use tidesdb_mysql.Scan.Order.{Sorted, matching}
use tidesdb_mysql.Scan.Exact.{Reads, index_read_map-next_same}
use tidesdb_mysql.Scan.Memory.{
  Position, list_iterator, rest_of, all_of, list_iterator-Forward, list_iterator-Uncontended,
  index_entries, scan_env, rows_world, idle,
}

abbrev scanned : Scan (List ℕ) Session Position
scanned = (rnd_init list_iterator memory scan_env (idle 0)).1

abbrev entries_of : Option Position → List KeyValue
entries_of none = []
entries_of (some i) = i.all

sorted : Sorted index_entries
unfolding below
sorted = ((refl, (refl, tt)), ((refl, tt), (tt, tt)))

ensured :
    is_ok
      (ensure_scan_iter list_iterator memory scan_env (record (idle 1) { search_comp = 5 ∷ [] })).0
    ≡ true
unfolding ensure_scan_iter is_ok open_scan_iter open_iter
ensured = refl

abbrev searching : Scan (List ℕ) Session Position
searching =
    (ensure_scan_iter list_iterator memory scan_env (record (idle 1) { search_comp = 5 ∷ [] })).1

the_index : (j : Position) → searching.iter ≡ some j → all_of j ≡ index_entries
unfolding ensure_scan_iter is_ok open_scan_iter open_iter
the_index j h = sym (ap entries_of h)

index_read_map-next_same_example :
    Reads list_iterator memory scan_env rest_of all_of list_iterator-Forward
      list_iterator-Uncontended 1
      (λ k. true)
      (λ k b. refl)
      refl
      (5 ∷ [])
      rows_world
      refl
      end_of_file
      ((7 ∷ []) ∷ (8 ∷ []) ∷ [])
      (gather
        (read_all (index_next_same list_iterator memory scan_env) 9)
        (index_read_map list_iterator memory scan_env read_exact (5 ∷ []) (idle 1)))
unfolding matching has_prefix bytes_eq
index_read_map-next_same_example =
    index_read_map-next_same list_iterator memory scan_env rest_of all_of list_iterator-Forward
      list_iterator-Uncontended 1 (λ k. true) (λ k b. refl) refl (5 ∷ []) rows_world refl 9 (idle 1)
      index_entries refl refl refl refl ensured the_index sorted
      ((omega arith, (_, refl)), ((omega arith, (_, refl)), ((omega arith, (_, refl)), tt)))
      (omega arith) (omega arith)
