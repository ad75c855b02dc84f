-- ===== src/Rows/Unique.antt =====
-- Automatic keys do not meet keys that were used before.
use tidesdb_mysql.Base.{
  ℕ, zero, suc, ◌≡◌, ◌+◌, ◌-◌, ◌*◌, if◌then◌else◌, ◌==◌, ◌%◌, ◌^◌, ◌≤◌, ◌<◌, List, [], ◌∷◌, arith,
  All, pos,
}
use tidesdb_mysql.Rows.AutoIncrement.{Counters, get_auto_increment, raise_counter}

-- What happens to the counter: a reservation, with the increment that the server asks for and the number
-- of the values, or a row with a value of its own.
pub data Use : Type 0 where
  reserve : ℕ → ℕ → Use
  explicit : ℕ → Use

unfoldable pub used : Use → Counters → Counters
used (reserve increment n) c = (get_auto_increment 1 increment n c).2
used (explicit v) c = raise_counter (pos v) c

unfoldable pub all_used : List Use → Counters → Counters
all_used [] c = c
all_used (u ∷ us) c = all_used us (used u c)

-- The greatest value that each of them takes: the values of a reservation are the first one, and each
-- next one is higher by the increment.
unfoldable pub taken : Use → Counters → ℕ
taken (reserve increment n) c =
    if n == 0 then c.auto_inc_val else c.auto_inc_val + 1 + (n - 1) * increment
taken (explicit v) c = v

unfoldable pub all_taken : List Use → Counters → List ℕ
all_taken [] c = []
all_taken (u ∷ us) c = taken u c ∷ all_taken us (used u c)

-- The increment of the server is 1.
abbrev pub ByOne : Use → Type 0
ByOne (reserve increment n) = increment ≡ 1
ByOne (explicit v) = Unit {0}

-- The increment is 1 for each of them, and no value goes over 64 bits.
abbrev pub Fits : List Use → Counters → Type 0
Fits [] c = Unit {0}
Fits (u ∷ us) c = (ByOne u × (taken u c < 2 ^ 64)) × Fits us (used u c)

taken_by_one :
    (increment n : ℕ) (c : Counters)
    → increment ≡ 1
    → taken (reserve increment n) c ≡ c.auto_inc_val + n
unfolding taken
taken_by_one increment zero c one = omega arith
taken_by_one increment (suc n) c one = rw one (grind arith)

used-grows :
    (u : Use) (c : Counters)
    → ByOne u × (taken u c < 2 ^ 64)
    → c.auto_inc_val ≤ (used u c).auto_inc_val
unfolding used get_auto_increment raise_counter
used-grows (reserve increment n) c h =
    let one = taken_by_one increment n c h.0 in ground (arith, one)
used-grows (explicit v) c (_, fits) = ground arith

taken-le :
    (u : Use) (c : Counters) → ByOne u × (taken u c < 2 ^ 64) → taken u c ≤ (used u c).auto_inc_val
unfolding used taken get_auto_increment raise_counter
taken-le (reserve increment n) c h = let one = taken_by_one increment n c h.0 in ground (arith, one)
taken-le (explicit v) c (_, fits) = ground arith

all_used-grows :
    (us : List Use) (c : Counters) → Fits us c → c.auto_inc_val ≤ (all_used us c).auto_inc_val
unfolding all_used
all_used-grows [] c fits = omega arith
all_used-grows (u ∷ us) c fits =
    omega (arith, used-grows u c fits.0, all_used-grows us (used u c) fits.1)

below :
    (us : List Use) (c : Counters) (bound : ℕ)
    → Fits us c
    → (all_used us c).auto_inc_val < bound
    → All (λ v. v < bound) (all_taken us c)
unfolding all_used all_taken
below [] c bound fits h = tt
below (u ∷ us) c bound fits h = (
  omega (arith, taken-le u c fits.0, all_used-grows us (used u c) fits.1),
  below us (used u c) bound fits.1 h,
)

-- Where the server's increment is 1: whatever was reserved and written before, without a value over 64
-- bits, the first value that get_auto_increment hands out next is greater than all the values that
-- were taken.
pub get_auto_increment-fresh :
    (us : List Use) (c : Counters) (n : ℕ)
    → Fits us c
    → (all_used us c).auto_inc_val + 1 < 2 ^ 64
    → All (λ v. v < (get_auto_increment 1 1 n (all_used us c)).0) (all_taken us c)
unfolding get_auto_increment
get_auto_increment-fresh us c n fits room =
    below us c (((all_used us c).auto_inc_val + 1) % 2 ^ 64) fits (omega arith)
