-- ===== src/Perf.antt =====
-- The performance counters, plugin/tidesdb_perf_ring.cc: the samples of a thread, and the flush that
-- writes them. The atomic counters wrap at 64 bits; a push and the drain of a ring are one step each.
pub mod Queue
pub mod Examples
use tidesdb_mysql.Base.{
  ℕ, zero, suc, ◌+◌, ◌-◌, ◌*◌, ◌%◌, ◌^◌, bit_and, Bool, true, false, not, ◌&&◌, ◌||◌, Option, none,
  some, List, [], ◌∷◌, ◌++◌, if◌then◌else◌, ltb, leb, ◌==◌,
}

pub record Sample : Type 0 where
  pub method_id : ℕ
  pub thread_id : ℕ
  pub reserved : ℕ
  pub enter_tsc : ℕ
  pub exit_tsc : ℕ

-- TLS_Ring; `slots` is read at numbers below the capacity only.
pub record Ring : Type 0 where
  pub capacity : ℕ
  pub write_idx : ℕ
  pub read_idx : ℕ
  pub wrap_count : ℕ
  pub owner_tid : ℕ
  pub slots : ℕ → Sample

abbrev pub method_count : ℕ
method_count = 32

abbrev pub capacity_pow2_default : ℕ
capacity_pow2_default = 16

abbrev pub no_sample : Sample
no_sample = record { method_id = 0; thread_id = 0; reserved = 0; enter_tsc = 0; exit_tsc = 0 }

-- Where both allocations succeed; `pow2` is the size that init was given.
abbrev pub new_ring : ℕ → ℕ → Ring
new_ring pow2 owner = record {
  capacity = if ltb pow2 4 || ltb 30 pow2 then 2 ^ capacity_pow2_default else 2 ^ pow2;
  write_idx = 0;
  read_idx = 0;
  wrap_count = 0;
  owner_tid = owner;
  slots = λ _. no_sample;
}

-- `x & (capacity - 1)`.
unfoldable pub place : ℕ → ℕ → ℕ
place capacity x = bit_and x (capacity - 1)

unfoldable pub store_at : (ℕ → Sample) → ℕ → Sample → ℕ → Sample
store_at f p s i = if i == p then s else f i

unfoldable pub push_sample : Ring → ℕ → ℕ → ℕ → ℕ → Ring
push_sample r method thread enter exit =
    let w = r.write_idx in
    let p = place r.capacity w in
    let s : Sample = record {
      method_id = method;
      thread_id = thread;
      reserved = 0;
      enter_tsc = enter;
      exit_tsc = exit;
    } in
    record r {
      write_idx = (w + 1) % 2 ^ 64;
      wrap_count =
          if leb r.capacity w && (p == 0) then (r.wrap_count + 1) % 2 ^ 32 else r.wrap_count;
      slots = store_at r.slots p s;
    }

-- The destructor of PerfScope: `ring` is the ring of the thread, `alloc` what the allocation of one
-- gives, and `now` the counter of the processor.
pub scope_end : Bool → Option Ring → Option Ring → ℕ → ℕ → ℕ → Option Ring
scope_end active ring alloc method enter now =
    let r : Option Ring = elim ring [ none ↦ alloc | some r ↦ some r ] in
    if not active
    then ring
    else elim r [ none ↦ none | some r ↦ some (push_sample r method (r.owner_tid % 256) enter now) ]

-- The samples from `read_idx + i` on.
unfoldable pub window : (ℕ → Sample) → ℕ → ℕ → ℕ → ℕ → List Sample
window f capacity rd i zero = []
window f capacity rd i (suc n) =
    f (place capacity ((rd + i) % 2 ^ 64)) ∷ window f capacity rd (suc i) n

unfoldable pub to_drain : Ring → ℕ
to_drain r =
    let n = (r.write_idx + 2 ^ 64 - r.read_idx) % 2 ^ 64 in
    if ltb r.capacity n then r.capacity else n

-- One ring of flush_once: what is read, and the ring after it.
unfoldable pub drain : Ring → List Sample × Ring
drain r = (window r.slots r.capacity r.read_idx 0 (to_drain r), record r { read_idx = r.write_idx })

-- All rings: the samples, the sum of the wrap counts, and the rings.
pub drain_all : List Ring → List Sample × ℕ × List Ring
drain_all [] = ([], 0, [])
drain_all (r ∷ rings) =
    let (read, r') = drain r in
    let (others, wraps, rings') = drain_all rings in
    (read ++ others, (r.wrap_count + wraps) % 2 ^ 64, r' ∷ rings')

pub by_method : ℕ → List Sample → List Sample
by_method id [] = []
by_method id (s ∷ samples) =
    let rest = by_method id samples in if s.method_id == id then s ∷ rest else rest

-- The writes to the files of the methods from `id` on, `left` of them; `is_open` tells which file is.
pub writes_from : (ℕ → Bool) → List Sample → ℕ → ℕ → List (ℕ × List Sample)
writes_from is_open samples id zero = []
writes_from is_open samples id (suc left) =
    let rest = writes_from is_open samples (suc id) left in
    elim (by_method id samples) [
      | [] ↦ rest
      | s ∷ ss ↦ if is_open id then (id, s ∷ ss) ∷ rest else rest
    ]

-- The throttle of the overflow log: the total seen, and the time of the last line in seconds, which is
-- not negative.
pub record Overflow : Type 0 where
  pub total_wraps_seen : ℕ
  pub last_log : ℕ

-- Whether a line is logged, and the throttle after it. No other flush runs, so the exchange succeeds.
pub surface : Overflow → ℕ → ℕ → Bool × Overflow
surface o wraps now =
    let seen = record o { total_wraps_seen = wraps } in
    if ltb o.total_wraps_seen wraps
    then (if (o.total_wraps_seen == 0) || leb (o.last_log + 60) now
        then (true, record seen { last_log = now })
        else (false, seen))
    else (false, o)

-- flush_once once the files are in place: the writes, whether a line is logged, and the state.
pub flush_rings :
    (ℕ → Bool) → ℕ → Overflow → List Ring → List (ℕ × List Sample) × Bool × Overflow × List Ring
flush_rings is_open now o rings =
    let (samples, wraps, rings') = drain_all rings in
    let (logged, o') = surface o wraps now in
    (writes_from is_open samples 1 method_count, logged, o', rings')
