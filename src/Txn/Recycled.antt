-- ===== src/Txn/Recycled.antt =====
-- The next transaction of a connection of plugin/ha_tidesdb.cc after one has ended, and the
-- transaction of START TRANSACTION WITH CONSISTENT SNAPSHOT.
use tidesdb_mysql.Base.{ℕ, ◌≡◌, ◌∙◌, refl, inl, inr, Bool, true, false, none, some, if_cases}
use tidesdb_mysql.Codes.{is_success}
use tidesdb_mysql.Txn.{Isolation, Engine, Trx, Conn, Call, next_generation}
use tidesdb_mysql.Txn.Begin.{get_or_create_trx, begin_again, reset_or_begin}
use tidesdb_mysql.Txn.Fresh.{BeginContract, Begun, get_or_create_lost, get_or_create_kept}
use tidesdb_mysql.Txn.Clean.{Ended}

-- The connection stands at the start of a transaction that the engine began or reset at the level `iso`,
-- with the generation `g`.
abbrev pub IsFresh : {W H : Type 0} → Engine W H → Isolation → ℕ → Conn W H → Type 0
IsFresh {H = H} e iso g c =
    (u : Trx H) × (h : H) × (c.trx ≡ some u)
    × (u.txn ≡ some h)
    × (u.dirty ≡ false)
    × (u.isolation_level ≡ iso)
    × Begun e iso h c.engine
    × (u.txn_generation ≡ g)

module _ {W H : Type 0} (e : Engine W H) (me : ℕ) (iso : Isolation) where
  begin_again-IsFresh :
      (t : Trx H) (c : Conn W H)
      → BeginContract e
      → (begin_again e me iso t c).0 ≡ true
      → IsFresh e iso (next_generation t.txn_generation) (begin_again e me iso t c).1
  unfolding begin_again Begun
  begin_again-IsFresh t c b went =
      if_cases
        (λ (x : Bool × Conn W H). x.0 ≡ true → IsFresh e iso (next_generation t.txn_generation) x.1)
        (is_success (e.begin_with_isolation iso none c.engine).0) _ _
        (λ good q.
          let (h, opened) = b.opens iso none c.engine good in
          (_, h, refl, opened, refl, refl, inl (c.engine, good, opened, refl), refl))
        (λ bad q. absurd (cc)) went

  reset_or_begin-IsFresh :
      (h : H) (t : Trx H) (c : Conn W H)
      → BeginContract e
      → t.dirty ≡ false
      → (reset_or_begin e me iso h t c).0 ≡ true
      → IsFresh e iso (next_generation t.txn_generation) (reset_or_begin e me iso h t c).1
  unfolding reset_or_begin Begun
  reset_or_begin-IsFresh h t c b clean went =
      let w = e.free h (e.reset h iso c.engine).1 in
      if_cases
        (λ (x : Bool × Conn W H). x.0 ≡ true → IsFresh e iso (next_generation t.txn_generation) x.1)
        (is_success (e.reset h iso c.engine).0) _ _
        (λ good q. (_, h, refl, refl, clean, refl, inr (c.engine, good, refl), refl))
        (λ bad.
          if_cases
            (λ (x : Bool × Conn W H).
              x.0 ≡ true → IsFresh e iso (next_generation t.txn_generation) x.1)
            (is_success (e.begin_with_isolation iso none w).0) _ _
            (λ good q.
              let (h', opened) = b.opens iso none w good in
              (_, h', refl, opened, clean, refl, inl (w, good, opened, refl), refl))
            (λ worse q. absurd (cc)))
        went

  -- Under the contract of begin: however a transaction ended, the next one of the connection is fresh
  -- when it is handed out: it has a handle that the engine has begun or reset at the level asked
  -- for, nothing is marked dirty, and its generation is two steps after the generation of the
  -- transaction that ended.
  pub Ended-IsFresh :
      (k : Call) (alloc : Bool) (t : Trx H) (h : H) (c c' : Conn W H)
      → BeginContract e
      → t.txn ≡ some h
      → Ended k t c c'
      → (get_or_create_trx e me iso alloc c').0 ≡ true
      → IsFresh e iso
          (next_generation (next_generation t.txn_generation))
          (get_or_create_trx e me iso alloc c').1
  Ended-IsFresh k alloc t h c c' b open_ ended went = rw (← ended.generation) (elim ended.reusable [
    | inl lost ↦
        let same = get_or_create_lost e me iso alloc c' ended.left ended.kept lost in
        rw same (begin_again-IsFresh ended.left c' b (rw same at went))
    | inr (kept, stale) ↦
        let same : get_or_create_trx e me iso alloc c' ≡ reset_or_begin e me iso h ended.left c' =
          get_or_create_kept e me iso alloc c' ended.left h ended.kept (kept ∙ open_)
          ∙ rw stale refl in
        rw same (reset_or_begin-IsFresh h ended.left c' b ended.clean (rw same at went))
  ])
