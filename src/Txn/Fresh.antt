-- ===== src/Txn/Fresh.antt =====
-- What `get_or_create_trx` of plugin/ha_tidesdb.cc hands out.
use tidesdb_mysql.Base.{
  ℕ, ◌≡◌, ◌∙◌, refl, ◌⊎◌, Bool, true, false, Option, none, some, arith, if_cases, if◌then◌else◌,
}
use tidesdb_mysql.Codes.{is_success}
use tidesdb_mysql.Txn.{Isolation, Engine, Trx, Conn}
use tidesdb_mysql.Txn.Begin.{get_or_create_trx, begin_again, reset_or_begin}

-- The documented behaviour of begin: a handle on success, and the out-parameter is left alone otherwise.
pub record BeginContract {W H : Type 0} (e : Engine W H) : Type 0 where
  pub opens :
      (iso : Isolation) (cell : Option H) (w : W)
      → is_success (e.begin_with_isolation iso cell w).0 ≡ true
      → (h : H) × ((e.begin_with_isolation iso cell w).1 ≡ some h)
  pub keeps :
      (iso : Isolation) (cell : Option H) (w : W)
      → is_success (e.begin_with_isolation iso cell w).0 ≡ false
      → (e.begin_with_isolation iso cell w).1 ≡ cell

abbrev pub handle : {W H : Type 0} → Conn W H → Option H
handle c = elim c.trx [ none ↦ none | some t ↦ t.txn ]

-- The engine stands where a begin at the level `iso` left it that gave the handle, or where a reset of
-- the handle to the level did.
unfoldable pub Begun : {W H : Type 0} → Engine W H → Isolation → H → W → Type 0
Begun {W} e iso h now =
    ((w : W) × (is_success (e.begin_with_isolation iso none w).0 ≡ true)
      × ((e.begin_with_isolation iso none w).1 ≡ some h)
      × (now ≡ (e.begin_with_isolation iso none w).2))
    ⊎ ((w : W) × (is_success (e.reset h iso w).0 ≡ true) × (now ≡ (e.reset h iso w).1))

-- A returned struct has a handle; it is the connection's running transaction, untouched, or one that the
-- engine began or reset at the isolation level that was asked for, which the struct notes. When nothing
-- is returned no handle is left.
pub record Opens {W H : Type 0} (e : Engine W H) (iso : Isolation) (c : Conn W H)
    (x : Bool × Conn W H) : Type 0 where
  pub returned :
      x.0 ≡ true
      → (t : Trx H) × (h : H) × (x.1.trx ≡ some t)
        × (t.txn ≡ some h)
        × ((x.1 ≡ c) ⊎ ((t.isolation_level ≡ iso) × Begun e iso h x.1.engine))
  pub refused : x.0 ≡ false → handle x.1 ≡ none

module _ {W H : Type 0} (e : Engine W H) (me : ℕ) (iso : Isolation) where
  -- The struct that a begin leaves, and that the reset flag is left as it was.
  begin_again_result :
      (t : Trx H) (c : Conn W H)
      → BeginContract e
      → (begin_again e me iso t c).0 ≡ true
      → (u : Trx H) × (h : H) × ((begin_again e me iso t c).1.trx ≡ some u)
        × (u.txn ≡ some h)
        × (u.needs_reset ≡ t.needs_reset)
  unfolding begin_again
  begin_again_result t c b went =
      if_cases
        (λ (x : Bool × Conn W H).
          x.0 ≡ true
          → (u : Trx H) × (h : H) × (x.1.trx ≡ some u)
            × (u.txn ≡ some h)
            × (u.needs_reset ≡ t.needs_reset))
        (is_success (e.begin_with_isolation iso none c.engine).0) _ _
        (λ good done.
          let (h, opened) = b.opens iso none c.engine good in (_, h, refl, opened, refl))
        (λ bad done. absurd (cc)) went

  pub get_or_create_lost :
      (alloc : Bool) (c : Conn W H) (t : Trx H)
      → c.trx ≡ some t
      → t.txn ≡ none
      → get_or_create_trx e me iso alloc c ≡ begin_again e me iso t c
  unfolding get_or_create_trx
  get_or_create_lost alloc c t here lost = ground arith

  pub get_or_create_kept :
      (alloc : Bool) (c : Conn W H) (t : Trx H) (h : H)
      → c.trx ≡ some t
      → t.txn ≡ some h
      → get_or_create_trx e me iso alloc c
        ≡ (if t.needs_reset then reset_or_begin e me iso h t c else (true, c))
  unfolding get_or_create_trx
  get_or_create_kept alloc c t h here kept = ground arith

  -- Under the contract of begin: a reset that is pending when the handle is lost outlives the handle: the next call that succeeds begins a new
  -- one and leaves the reset pending, so that the call after it resets the transaction just begun.
  pub pending_reset_survives :
      (again alloc : Bool) (c : Conn W H) (t : Trx H)
      → c.trx ≡ some t
      → t.txn ≡ none
      → t.needs_reset ≡ true
      → BeginContract e
      → (get_or_create_trx e me iso alloc c).0 ≡ true
      → (u : Trx H) × (h : H) × ((get_or_create_trx e me iso alloc c).1.trx ≡ some u)
        × (u.txn ≡ some h)
        × (get_or_create_trx e me iso again (get_or_create_trx e me iso alloc c).1
            ≡ reset_or_begin e me iso h u (get_or_create_trx e me iso alloc c).1)
  pending_reset_survives again alloc c t here lost stale b went =
      rw (get_or_create_lost alloc c t here lost)
        (begun (rw (get_or_create_lost alloc c t here lost) at went))
    where
      begun :
          (begin_again e me iso t c).0 ≡ true
          → (u : Trx H) × (h : H) × ((begin_again e me iso t c).1.trx ≡ some u)
            × (u.txn ≡ some h)
            × (get_or_create_trx e me iso again (begin_again e me iso t c).1
                ≡ reset_or_begin e me iso h u (begin_again e me iso t c).1)
      begun good =
          let (u, h, at, live, same) = begin_again_result t c b good in
          (
            u,
            h,
            at,
            live,
            get_or_create_kept again (begin_again e me iso t c).1 u h at live ∙ ground arith,
          )
