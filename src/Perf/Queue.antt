-- ===== src/Perf/Queue.antt =====
-- The ring of plugin/tidesdb_perf_ring.cc as a queue.
use tidesdb_mysql.Base.{
  ℕ, zero, suc, ◌+◌, ◌-◌, ◌*◌, ◌/◌, ◌%◌, ◌^◌, ◌≤◌, ◌<◌, ◌≡◌, ◌≢◌, refl, sym, ap, ◌∙◌, List, [], ◌∷◌,
  ◌++◌, ltb, arith, length, bit_and_mask, inl, inr, subst, map, ==_refl, ap₂, length-append,
}
use native.Mathlib.Nat.{
  mod-mod_of_dvd, dvd_refl, dvd-mul_right_of_dvd, pow-suc, mul-le-mul_left, pow-le-pow_right,
}
use Prim.Native.Nat.{◌∣◌}
use mathlib.Core.List.{append-nil, append_assoc}
use tidesdb_mysql.Base.{Bool-cases, ltb→lt}
use tidesdb_mysql.Perf.{Sample, Ring, place, store_at, push_sample, window, to_drain, drain}

pow_dvd : (k d : ℕ) → 2 ^ k ∣ 2 ^ (k + d)
pow_dvd k zero = subst (λ n. 2 ^ k ∣ 2 ^ n) (omega arith) (dvd_refl (2 ^ k))
pow_dvd k (suc d) =
    let e : 2 ^ (k + d) * 2 ≡ 2 ^ (k + suc d) =
      sym (pow-suc 2 (k + d)) ∙ ap (λ n. 2 ^ n) (omega arith) in
    subst (λ n. 2 ^ k ∣ n) e (dvd-mul_right_of_dvd (2 ^ k) (pow_dvd k d) 2)

place_mod : (k x : ℕ) → k ≤ 30 → place (2 ^ k) (x % 2 ^ 64) ≡ x % 2 ^ k
unfolding place
place_mod k x h =
    let e : k + (64 - k) ≡ 64 = omega arith in
    let d : 2 ^ k ∣ 2 ^ 64 = subst (λ n. 2 ^ k ∣ 2 ^ n) e (pow_dvd k (64 - k)) in
    bit_and_mask k (x % 2 ^ 64) ∙ mod-mod_of_dvd (2 ^ k) x d

apart : (c x y : ℕ) → x < y → y < x + c → x % c ≢ y % c
apart c x y h l e = elim (Bool-cases (ltb (x / c) (y / c))) [
  | inl lt ↦
      let next = mul-le-mul_left c (ltb→lt (x / c) (y / c) lt) in
      let e' : c * suc (x / c) ≡ c * (x / c) + c = omega arith in omega arith
  | inr ge ↦ let le : y / c ≤ x / c = ground arith in let same = mul-le-mul_left c le in omega arith
]

window_last :
    (f : ℕ → Sample) (c rd i n : ℕ)
    → window f c rd i (suc n) ≡ window f c rd i n ++ (f (place c ((rd + (i + n)) % 2 ^ 64)) ∷ [])
unfolding window
window_last f c rd i zero =
    let e : rd + i ≡ rd + (i + 0) = omega arith in ap (λ x. f (place c (x % 2 ^ 64)) ∷ []) e
window_last f c rd i (suc n) =
    let e : suc i + n ≡ i + suc n = omega arith in
    ap (λ ss. f (place c ((rd + i) % 2 ^ 64)) ∷ ss)
      (window_last f c rd (suc i) n
        ∙ ap (λ m. window f c rd (suc i) n ++ (f (place c ((rd + m) % 2 ^ 64)) ∷ [])) e)

store_at-same : (f : ℕ → Sample) (p : ℕ) (s : Sample) → store_at f p s p ≡ s
unfolding store_at
store_at-same f p s = rw (==_refl p) refl

store_at-other : (f : ℕ → Sample) (p i : ℕ) (s : Sample) → i ≢ p → store_at f p s i ≡ f i
unfolding store_at
store_at-other f p i s h = ground arith

window-store_at :
    (f : ℕ → Sample) (c rd p : ℕ) (s : Sample) (n i : ℕ)
    → ((j : ℕ) → j < i + n → place c ((rd + j) % 2 ^ 64) ≢ p)
    → window (store_at f p s) c rd i n ≡ window f c rd i n
unfolding window
window-store_at f c rd p s zero i h = refl
window-store_at f c rd p s (suc n) i h =
    ap₂ (λ x ss. x ∷ ss) (store_at-other f p (place c ((rd + i) % 2 ^ 64)) s (h i (omega arith)))
      (window-store_at f c rd p s n (suc i) (λ j l. h j (omega arith)))

-- What the next slot is given comes last, and the `n` samples before it stay.
window_push :
    (f : ℕ → Sample) (k rd n : ℕ) (s : Sample)
    → k ≤ 30
    → n < 2 ^ k
    → window (store_at f (place (2 ^ k) ((rd + n) % 2 ^ 64)) s) (2 ^ k) rd 0 (suc n)
      ≡ window f (2 ^ k) rd 0 n ++ (s ∷ [])
window_push f k rd n s h l =
    let p = place (2 ^ k) ((rd + n) % 2 ^ 64) in
    let differ : (j : ℕ) → j < 0 + n → place (2 ^ k) ((rd + j) % 2 ^ 64) ≢ p = λ j m e.
      apart (2 ^ k) (rd + j) (rd + n) (omega arith) (omega arith)
        (sym (place_mod k (rd + j) h) ∙ (e ∙ place_mod k (rd + n) h)) in
    let e : 0 + n ≡ n = omega arith in
    window_last (store_at f p s) (2 ^ k) rd 0 n
    ∙ ap
        (λ m.
          window (store_at f p s) (2 ^ k) rd 0 n
          ++ (store_at f p s (place (2 ^ k) ((rd + m) % 2 ^ 64)) ∷ []))
        e
    ∙ ap₂ (λ ss x. ss ++ (x ∷ [])) (window-store_at f (2 ^ k) rd p s n 0 differ)
        (store_at-same f p s)

-- The ring holds the queue `q`: from `read_idx` up to `write_idx` stand the samples of `q`.
pub record IsQueue (r : Ring) (q : List Sample) : Type 0 where
  pub pow2 : ℕ
  pub pow2_small : pow2 ≤ 30
  pub size : r.capacity ≡ 2 ^ pow2
  pub fits : length q ≤ r.capacity
  pub start : r.read_idx < 2 ^ 64
  pub end_ : r.write_idx ≡ (r.read_idx + length q) % 2 ^ 64
  pub holds : window r.slots r.capacity r.read_idx 0 (length q) ≡ q

abbrev pub written : Sample → Sample
written s = record s { reserved = 0 }

unfoldable pub push_all : Ring → List Sample → Ring
push_all r [] = r
push_all r (s ∷ ss) = push_all (push_sample r s.method_id s.thread_id s.enter_tsc s.exit_tsc) ss

push_sample-IsQueue :
    (r : Ring) (q : List Sample) (s : Sample)
    → IsQueue r q
    → length q < r.capacity
    → IsQueue (push_sample r s.method_id s.thread_id s.enter_tsc s.exit_tsc) (q ++ (written s ∷ []))
unfolding push_sample
push_sample-IsQueue r q s h l =
    let longer : length (q ++ (written s ∷ [])) ≡ suc (length q) =
      length-append q (written s ∷ []) ∙ omega arith in
    record {
      pow2 = h.pow2;
      pow2_small = h.pow2_small;
      size = h.size;
      fits = omega arith;
      start = h.start;
      end_ = rw longer (omega arith);
      holds =
          rw (longer, h.size, h.end_)
            (window_push r.slots h.pow2 r.read_idx (length q) (written s) h.pow2_small (omega arith)
              ∙ ap (λ ss. ss ++ (written s ∷ []))
                  (subst (λ c. window r.slots c r.read_idx 0 (length q) ≡ q) h.size h.holds));
    }

to_drain-length : (r : Ring) (q : List Sample) → IsQueue r q → to_drain r ≡ length q
unfolding to_drain
to_drain-length r q h =
    let bound = pow-le-pow_right {n = 2} (omega arith) h.pow2_small in
    let n : (r.write_idx + 2 ^ 64 - r.read_idx) % 2 ^ 64 ≡ length q = omega (arith, h.size) in
    rw n (ground arith)

drain-IsQueue :
    (r : Ring) (q : List Sample) → IsQueue r q → ((drain r).0 ≡ q) × IsQueue (drain r).1 []
unfolding drain window
drain-IsQueue r q h = (
  rw (to_drain-length r q h) h.holds,
  record {
    pow2 = h.pow2;
    pow2_small = h.pow2_small;
    size = h.size;
    fits = omega arith;
    start = omega (arith, h.end_);
    end_ = omega arith;
    holds = refl;
  },
)

push_all-IsQueue :
    (ss : List Sample) (r : Ring) (q : List Sample)
    → IsQueue r q
    → length q + length ss ≤ r.capacity
    → IsQueue (push_all r ss) (q ++ map written ss)
unfolding push_all push_sample
push_all-IsQueue [] r q h l = subst (IsQueue r) (sym (append-nil q)) h
push_all-IsQueue (s ∷ ss) r q h l =
    let r' = push_sample r s.method_id s.thread_id s.enter_tsc s.exit_tsc in
    let q' = q ++ (written s ∷ []) in
    let longer = length-append q (written s ∷ []) in
    let fits : length q' + length ss ≤ r.capacity = omega arith in
    subst (IsQueue (push_all r' ss)) (append_assoc q (written s ∷ []) (map written ss))
      (push_all-IsQueue ss r' q' (push_sample-IsQueue r q s h (omega arith)) fits)

-- Where a ring holds the queue `q` and the samples `ss` are pushed, no more than the capacity in all, a
-- drain of the ring gives the samples of `q` and then those of `ss`, in the order of the pushes and
-- with `reserved` cleared, and the ring then holds the empty queue; also where the counters wrap.
pub drain-push_all :
    (r : Ring) (q ss : List Sample)
    → IsQueue r q
    → length q + length ss ≤ r.capacity
    → ((drain (push_all r ss)).0 ≡ q ++ map written ss) × IsQueue (drain (push_all r ss)).1 []
drain-push_all r q ss h l =
    drain-IsQueue (push_all r ss) (q ++ map written ss) (push_all-IsQueue ss r q h l)
