-- ===== src/Perf/Examples.antt =====
-- Samples in a ring of sixteen slots.
use tidesdb_mysql.Base.{ℕ, ◌^◌, ◌≡◌, refl, true, List, [], ◌∷◌, arith, ◌-◌}
use tidesdb_mysql.Perf.{
  Sample, Ring, new_ring, place, push_sample, window, to_drain, drain, drain_all, by_method,
  writes_from, flush_rings, store_at,
}
use tidesdb_mysql.Perf.Queue.{IsQueue, push_all, written, drain-push_all}

-- A ring whose counters are about to wrap.
abbrev near_wrap : Ring
near_wrap = record (new_ring 4 7) { write_idx = 2 ^ 64 - 1; read_idx = 2 ^ 64 - 1 }

abbrev write : ℕ → Sample
write t = record { method_id = 1; thread_id = 7; reserved = 9; enter_tsc = t; exit_tsc = t }

near_wrap-IsQueue : IsQueue near_wrap []
unfolding window
near_wrap-IsQueue = record {
  pow2 = 4;
  pow2_small = omega arith;
  size = refl;
  fits = omega arith;
  start = omega arith;
  end_ = refl;
  holds = refl;
}

drain-push_all_example :
    ((drain (push_all near_wrap (write 1 ∷ write 2 ∷ []))).0
      ≡ written (write 1) ∷ written (write 2) ∷ [])
    × IsQueue (drain (push_all near_wrap (write 1 ∷ write 2 ∷ []))).1 []
drain-push_all_example =
    drain-push_all near_wrap [] (write 1 ∷ write 2 ∷ []) near_wrap-IsQueue (omega arith)

-- The two samples are written to the file of their method.
abbrev flushed : List (ℕ × List Sample)
flushed =
    (flush_rings (λ _. true) 0 (record { total_wraps_seen = 0; last_log = 0 })
      (push_all near_wrap (write 1 ∷ write 2 ∷ []) ∷ [])).0

flushed_one_file : flushed ≡ (1, written (write 1) ∷ written (write 2) ∷ []) ∷ []
unfolding flush_rings writes_from by_method drain_all drain window to_drain push_all push_sample
    store_at place
flushed_one_file = refl
