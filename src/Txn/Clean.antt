-- ===== src/Txn/Clean.antt =====
-- How a transaction of plugin/ha_tidesdb.cc ends: what commit, rollback, prepare and close leave behind.
use tidesdb_mysql.Base.{
  ℕ, ◌≡◌, ◌≢◌, refl, ap, ◌⊎◌, inl, inr, true, false, not, Option, none, some, List, arith, if_cases,
  if◌then◌else◌,
}
use tidesdb_mysql.Codes.{is_success, Ha, ha_ok}
use tidesdb_mysql.Codes.Meaning.{failure-not_ok}
use tidesdb_mysql.Xid.{Xid}
use tidesdb_mysql.RowLock.{release_all, owner}
use tidesdb_mysql.RowLock.Invariant.{Inv}
use tidesdb_mysql.RowLock.Release.{release_all_exact}
use tidesdb_mysql.Txn.{
  Engine, Trx, Conn, Call, is_real, on_txn, trx_txn_state, next_generation, is_prepared,
  is_resolved, recycle, discard, release_stmt_savepoint,
}
use tidesdb_mysql.Txn.Resolve.{
  prepare, prepare_txn, rollback_txn, prepare_under, encoded, commit, commit_phase_two,
  commit_single_phase, commit_now, rollback, undo,
}

-- The transaction `t` has ended: nothing is buffered, the row locks are released, the generation moved
-- on, and the struct either has no handle or has its old one with a reset pending.
pub record Ended {W H : Type 0} (k : Call) (t : Trx H) (c c' : Conn W H) : Type 0 where
  pub left : Trx H
  pub kept : c'.trx ≡ some left
  pub clean : left.dirty ≡ false
  pub no_savepoint : left.stmt_savepoint_active ≡ false
  pub generation : left.txn_generation ≡ next_generation t.txn_generation
  pub reusable : (left.txn ≡ none) ⊎ ((left.txn ≡ t.txn) × (left.needs_reset ≡ true))
  pub released : c'.table ≡ release_all k.ready c.table k.me

-- The commit decision could not be recorded: everything but the engine is as before, the locks too,
-- and an error is reported.
abbrev pub InDoubt : {W H : Type 0} → Engine W H → H → Conn W H → Ha × Conn W H → Type 0
InDoubt e h c x =
    (is_prepared (trx_txn_state e h c.engine) ≡ true)
    × (is_success (e.commit_prepared h c.engine).0 ≡ false)
    × (x.1 ≡ record c { engine = (e.commit_prepared h c.engine).1 })
    × (x.0 ≢ ha_ok)

module _ {W H : Type 0} (e : Engine W H) (k : Call) where
  recycle-Ended :
      (w : W) (t t' : Trx H) (c : Conn W H)
      → t'.txn ≡ t.txn
      → t'.txn_generation ≡ t.txn_generation
      → Ended k t c (recycle k w t' c)
  recycle-Ended w t t' c same gen = record {
    left = _;
    kept = refl;
    clean = refl;
    no_savepoint = refl;
    generation = ap next_generation gen;
    reusable = inr (same, refl);
    released = refl;
  }

  discard-Ended :
      (h : H) (w : W) (t t' : Trx H) (c : Conn W H)
      → t'.txn_generation ≡ t.txn_generation
      → Ended k t c (discard e k h w t' c)
  discard-Ended h w t t' c gen = record {
    left = _;
    kept = refl;
    clean = refl;
    no_savepoint = refl;
    generation = ap next_generation gen;
    reusable = inl refl;
    released = refl;
  }

  -- After the statement's savepoint is released the struct is the same transaction.
  released_txn :
      (h : H) (t : Trx H) (w : W)
      → ((release_stmt_savepoint e h t w).0.txn ≡ t.txn)
        × ((release_stmt_savepoint e h t w).0.txn_generation ≡ t.txn_generation)
  released_txn h t w = ground arith

  commit_now-Ended :
      (t t' : Trx H) (h : H) (w : W) (c : Conn W H)
      → t'.txn ≡ t.txn
      → t'.txn_generation ≡ t.txn_generation
      → Ended k t c (commit_now e k t' h w c).1
  unfolding commit_now
  commit_now-Ended t t' h w c same gen =
      if_cases (λ (x : Ha × Conn W H). Ended k t c x.1) t'.dirty _ _
        (λ writes.
          if_cases (λ (x : Ha × Conn W H). Ended k t c x.1) (is_success (e.commit h w).0) _ _
            (λ good. recycle-Ended _ t t' c same gen) (λ bad. discard-Ended h _ t t' c gen))
        (λ reads. recycle-Ended _ t t' c same gen)

  commit_single_phase-Ended :
      (t : Trx H) (h : H) (c : Conn W H) → Ended k t c (commit_single_phase e k t h c).1
  unfolding commit_single_phase
  commit_single_phase-Ended t h c =
      let (same, gen) = released_txn h t c.engine in commit_now-Ended t _ h _ c same gen

  pub live :
      (f : Trx H → H → Conn W H → Ha × Conn W H) (c : Conn W H) (t : Trx H) (h : H)
      → c.trx ≡ some t
      → t.txn ≡ some h
      → on_txn f c ≡ f t h c
  live f c t h here open_ = ground arith

  pub commit_live :
      (c : Conn W H) (t : Trx H) (h : H)
      → c.trx ≡ some t
      → t.txn ≡ some h
      → is_real k ≡ true
      → commit e k c ≡ (
          if is_resolved (trx_txn_state e h c.engine)
          then (ha_ok, recycle k c.engine t c)
          else if is_prepared (trx_txn_state e h c.engine)
          then commit_phase_two e k t h c
          else commit_single_phase e k t h c)
  unfolding commit
  commit_live c t h here open_ real = ground arith

  commit_phase_two-Ended :
      (c : Conn W H) (t : Trx H) (h : H)
      → is_prepared (trx_txn_state e h c.engine) ≡ true
      → Ended k t c (commit_phase_two e k t h c).1 ⊎ InDoubt e h c (commit_phase_two e k t h c)
  unfolding commit_phase_two
  commit_phase_two-Ended c t h voted =
      if_cases (λ (x : Ha × Conn W H). Ended k t c x.1 ⊎ InDoubt e h c x)
        (is_success (e.commit_prepared h c.engine).0) _ _
        (λ good. inl (recycle-Ended _ t t c refl refl))
        (λ bad. inr (voted, bad, refl, failure-not_ok k.print_all_conflicts _ bad))

  pub commit-Ended :
      (c : Conn W H) (t : Trx H) (h : H)
      → c.trx ≡ some t
      → t.txn ≡ some h
      → is_real k ≡ true
      → Ended k t c (commit e k c).1 ⊎ InDoubt e h c (commit e k c)
  commit-Ended c t h here open_ real = rw (commit_live c t h here open_ real) (
      if_cases (λ (x : Ha × Conn W H). Ended k t c x.1 ⊎ InDoubt e h c x)
        (is_resolved (trx_txn_state e h c.engine)) _ _
        (λ decided. inl (recycle-Ended _ t t c refl refl))
        (λ undecided.
          if_cases (λ (x : Ha × Conn W H). Ended k t c x.1 ⊎ InDoubt e h c x)
            (is_prepared (trx_txn_state e h c.engine)) _ _ (commit_phase_two-Ended c t h)
            (λ fresh. inl (commit_single_phase-Ended t h c))))

  -- How the rollback callback leaves the engine, from where it stands once the statement's savepoint is
  -- released: alone where the transaction is resolved, and otherwise after the one call that discards it.
  abbrev pub Discards : H → W → W → Type 0
  Discards h w now =
      ((is_resolved (trx_txn_state e h w) ≡ true) × (now ≡ w))
      ⊎ ((is_prepared (trx_txn_state e h w) ≡ true) × (now ≡ (e.rollback_prepared h w).1))
      ⊎ ((is_resolved (trx_txn_state e h w) ≡ false)
          × (is_prepared (trx_txn_state e h w) ≡ false)
          × (now ≡ (e.rollback h w).1))

  undo-Discards : (h : H) (w : W) → Discards h w (undo e k h w)
  unfolding undo
  undo-Discards h w =
      if_cases (Discards h w) (is_resolved (trx_txn_state e h w)) _ _ (λ done. inl (done, refl))
        (λ open_.
          if_cases (Discards h w) (is_prepared (trx_txn_state e h w)) _ _
            (λ voted. inr (inl (voted, refl))) (λ fresh. inr (inr (open_, fresh, refl))))

  -- The rollback callback for a transaction with a handle, also for the rollback of one statement: after
  -- the statement's savepoint is released, a transaction that is resolved is left alone, a prepared one
  -- is given to rollback_prepared, and any other one to the rollback in one phase. Whatever that call
  -- answers, success is reported and the connection is done with the transaction: nothing is marked
  -- dirty, the row locks are released and a reset is pending. Where rollback_prepared fails, the
  -- engine may still have it in doubt.
  pub rollback-Ended :
      (c : Conn W H) (t : Trx H) (h : H)
      → c.trx ≡ some t
      → t.txn ≡ some h
      → ((rollback e k c).0 ≡ ha_ok)
        × Ended k t c (rollback e k c).1
        × Discards h (release_stmt_savepoint e h t c.engine).1 (rollback e k c).1.engine
  unfolding rollback rollback_txn
  rollback-Ended c t h here open_ =
      let (same, gen) = released_txn h t c.engine in
      rw (live (rollback_txn e k) c t h here open_) (
        refl,
        recycle-Ended _ t (release_stmt_savepoint e h t c.engine).0 c same gen,
        undo-Discards h (release_stmt_savepoint e h t c.engine).1,
      )

  -- What prepare answers for a transaction: it ended with an error, or success is reported and the
  -- row locks are all kept, the struct too but for the statement's savepoint.
  abbrev pub Voted : Trx H → Conn W H → Ha × Conn W H → Type 0
  Voted t c x =
      (Ended k t c x.1 × (x.0 ≢ ha_ok))
      ⊎ ((x.0 ≡ ha_ok)
          × (x.1.table ≡ c.table)
          × ((u : Trx H) × (x.1.trx ≡ some u)
              × (u.txn ≡ t.txn)
              × (u.dirty ≡ t.dirty)
              × (u.txn_generation ≡ t.txn_generation)))

  prepare_under-Voted :
      (xid : Option (List ℕ)) (t t' : Trx H) (h : H) (w : W) (c : Conn W H)
      → t'.txn ≡ t.txn
      → t'.txn_generation ≡ t.txn_generation
      → t'.dirty ≡ t.dirty
      → Voted t c (prepare_under e k xid t' h w c)
  unfolding prepare_under
  prepare_under-Voted none t t' h w c same gen dirt =
      inl (recycle-Ended _ t t' c same gen, λ q. absurd (cc))
  prepare_under-Voted (some xid) t t' h w c same gen dirt =
      if_cases (Voted t c) (is_success (e.prepare h xid w).0) _ _
        (λ good. inr (refl, refl, (t', refl, same, dirt, gen)))
        (λ bad. inl (discard-Ended h _ t t' c gen, failure-not_ok k.print_all_conflicts _ bad))

  -- For a transaction with a handle, prepare either reports success and keeps every row lock, the handle and
  -- the generation, or reports an error and the transaction has ended.
  pub prepare-Voted :
      (x : Xid) (c : Conn W H) (t : Trx H) (h : H)
      → c.trx ≡ some t
      → t.txn ≡ some h
      → Voted t c (prepare e k x c)
  unfolding prepare prepare_txn
  prepare-Voted x c t h here open_ =
      let (same, gen) = released_txn h t c.engine in
      rw (live (prepare_txn e k x) c t h here open_) (
        if_cases (Voted t c) (not (is_real k)) _ _ (λ part. as_before)
          (λ real.
            if_cases (Voted t c) (not t.dirty) _ _ (λ reads. as_before)
              (λ writes. prepare_under-Voted (encoded x) t _ h _ c same gen (ground arith))))
    where
      as_before : Voted t c (ha_ok, c)
      as_before = inr (refl, refl, (t, here, refl, refl, refl))

  -- Once a commit of the whole transaction has reported success, with a lock table that exists and is
  -- consistent, the transaction owns no row lock any more.
  pub commit_frees :
      (c : Conn W H) (t : Trx H) (h : H) (j : ℕ)
      → c.trx ≡ some t
      → t.txn ≡ some h
      → is_real k ≡ true
      → k.ready ≡ true
      → Inv c.table
      → (commit e k c).0 ≡ ha_ok
      → owner (commit e k c).1.table j ≢ some k.me
  commit_frees c t h j here open_ real up v done = elim (commit-Ended c t h here open_ real) [
    | inl ended ↦
        let freed = (release_all_exact c.table k.me v).0 j in
        rw (ended.released, up, freed) (λ mine. ground arith)
    | inr (_, _, _, err) ↦ absurd (err done)
  ]
