-- ===== src/Txn/Phases.antt =====
-- The two phases of a commit in plugin/ha_tidesdb.cc: prepare votes, and the commit or the rollback
-- callback asks the engine where the transaction stands and runs the phase that is left.
use tidesdb_mysql.Base.{
  ℕ, ◌≡◌, ◌∙◌, refl, ◌⊎◌, inl, inr, true, false, Option, none, some, List, arith, Bool-cases,
  if_cases,
}
use tidesdb_mysql.Codes.{is_success, Ha, ha_ok}
use tidesdb_mysql.Codes.Meaning.{failure-not_ok}
use tidesdb_mysql.Xid.{Xid}
use tidesdb_mysql.Txn.{
  Engine, Trx, Conn, Call, prepared, committed, is_real, trx_txn_state, is_prepared, is_resolved,
  recycle, release_stmt_savepoint,
}
use tidesdb_mysql.Txn.Resolve.{
  prepare, prepare_txn, prepare_under, encoded, commit, commit_phase_two, commit_single_phase,
  commit_now, rollback, rollback_txn, undo,
}
use tidesdb_mysql.Txn.Clean.{live, commit_live}

-- The documented behaviour of the engine's prepare: it leaves the transaction prepared, or, when
-- nothing is buffered, committed.
abbrev pub PrepareContract : {W H : Type 0} → Engine W H → Type 0
PrepareContract {W} {H} e =
    (h : H) (xid : List ℕ) (w : W)
    → is_success (e.prepare h xid w).0 ≡ true
    → (trx_txn_state e h (e.prepare h xid w).1 ≡ some prepared)
      ⊎ (trx_txn_state e h (e.prepare h xid w).1 ≡ some committed)

module _ {W H : Type 0} (e : Engine W H) (k : Call) where
  -- Why a commit of a dirty transaction may report success.
  abbrev pub Decided : H → Trx H → Conn W H → Type 0
  Decided h t c =
      (is_resolved (trx_txn_state e h c.engine) ≡ true)
      ⊎ ((is_prepared (trx_txn_state e h c.engine) ≡ true)
          × (is_success (e.commit_prepared h c.engine).0 ≡ true))
      ⊎ (is_success (e.commit h (release_stmt_savepoint e h t c.engine).1).0 ≡ true)

  commit_phase_two_ok :
      (t : Trx H) (h : H) (c : Conn W H)
      → (commit_phase_two e k t h c).0 ≡ ha_ok
      → is_success (e.commit_prepared h c.engine).0 ≡ true
  unfolding commit_phase_two
  commit_phase_two_ok t h c went = elim (Bool-cases (is_success (e.commit_prepared h c.engine).0)) [
    | inl good ↦ good
    | inr bad ↦ absurd (failure-not_ok k.print_all_conflicts _ bad (rw bad at went))
  ]

  commit_single_phase_ok :
      (t : Trx H) (h : H) (c : Conn W H)
      → t.dirty ≡ true
      → (commit_single_phase e k t h c).0 ≡ ha_ok
      → is_success (e.commit h (release_stmt_savepoint e h t c.engine).1).0 ≡ true
  unfolding commit_single_phase commit_now
  commit_single_phase_ok t h c dirt went =
      elim (Bool-cases (is_success (e.commit h (release_stmt_savepoint e h t c.engine).1).0)) [
        | inl good ↦ good
        | inr bad ↦ absurd (
            failure-not_ok k.print_all_conflicts
              (e.commit h (release_stmt_savepoint e h t c.engine).1).0 bad (ground arith))
      ]

  -- When the commit of a whole transaction with writes reports success, the engine had resolved it
  -- before, or has recorded the decision on its prepared batch, or has committed it now.
  pub commit-Decided :
      (c : Conn W H) (t : Trx H) (h : H)
      → c.trx ≡ some t
      → t.txn ≡ some h
      → is_real k ≡ true
      → t.dirty ≡ true
      → (commit e k c).0 ≡ ha_ok
      → Decided h t c
  commit-Decided c t h here open_ real dirt went =
      if_cases (λ (x : Ha × Conn W H). x.0 ≡ ha_ok → Decided h t c)
        (is_resolved (trx_txn_state e h c.engine)) (ha_ok, recycle k c.engine t c) _
        (λ resolved q. inl resolved)
        (λ undecided.
          if_cases (λ (x : Ha × Conn W H). x.0 ≡ ha_ok → Decided h t c)
            (is_prepared (trx_txn_state e h c.engine)) (commit_phase_two e k t h c)
            (commit_single_phase e k t h c)
            (λ voted q. inr (inl (voted, commit_phase_two_ok t h c q)))
            (λ fresh q. inr (inr (commit_single_phase_ok t h c dirt q))))
        (rw (commit_live e k c t h here open_ real) at went)

  -- What a successful vote leaves.
  record Standing (h : H) (c : Conn W H) : Type 0 where
    pub struct : Trx H
    pub kept : c.trx ≡ some struct
    pub handle : struct.txn ≡ some h
    pub no_savepoint : struct.stmt_savepoint_active ≡ false
    pub state :
        (trx_txn_state e h c.engine ≡ some prepared) ⊎ (trx_txn_state e h c.engine ≡ some committed)

  writes :
      (x : Xid) (t : Trx H) (h : H) (c : Conn W H)
      → is_real k ≡ true
      → t.dirty ≡ true
      → prepare_txn e k x t h c
        ≡ prepare_under e k
            (encoded x)
            (release_stmt_savepoint e h t c.engine).0
            h
            (release_stmt_savepoint e h t c.engine).1
            c
  unfolding prepare_txn
  writes x t h c real dirt = ground arith

  commit_phase_two_engine :
      (t : Trx H) (h : H) (c : Conn W H)
      → (commit_phase_two e k t h c).1.engine ≡ (e.commit_prepared h c.engine).1
  unfolding commit_phase_two
  commit_phase_two_engine t h c = ground arith

  -- Where the engine has the transaction prepared, the callback leaves the engine at `after`; where it has
  -- it committed, the callback leaves the engine alone.
  abbrev pub Resolves : H → Conn W H → W → W → Type 0
  Resolves h c now after =
      ((trx_txn_state e h c.engine ≡ some prepared) × (now ≡ after))
      ⊎ ((trx_txn_state e h c.engine ≡ some committed) × (now ≡ c.engine))

  Standing-commit :
      (c : Conn W H) (h : H)
      → is_real k ≡ true
      → Standing h c
      → Resolves h c (commit e k c).1.engine (e.commit_prepared h c.engine).1
  Standing-commit c h real s = elim s.state [
    | inl voted ↦ inl (
      voted,
      rw (commit_live e k c s.struct h s.kept s.handle real, voted)
          (commit_phase_two_engine s.struct h c),
    )
    | inr resolved ↦
        inr (resolved, rw (commit_live e k c s.struct h s.kept s.handle real, resolved) refl)
  ]

  Standing-rollback :
      (c : Conn W H) (h : H)
      → Standing h c
      → Resolves h c (rollback e k c).1.engine (e.rollback_prepared h c.engine).1
  unfolding rollback rollback_txn undo
  Standing-rollback c h s = elim s.state [
    | inl voted ↦ inl (
      voted,
      rw (live e k (rollback_txn e k) c s.struct h s.kept s.handle, s.no_savepoint, voted) refl,
    )
    | inr resolved ↦ inr (
      resolved,
      rw (live e k (rollback_txn e k) c s.struct h s.kept s.handle, s.no_savepoint, resolved) refl,
    )
  ]

  prepare_under-Standing :
      (xid : Option (List ℕ)) (t : Trx H) (h : H) (w : W) (c : Conn W H)
      → PrepareContract e
      → t.txn ≡ some h
      → t.stmt_savepoint_active ≡ false
      → (prepare_under e k xid t h w c).0 ≡ ha_ok
      → Standing h (prepare_under e k xid t h w c).1
  unfolding prepare_under
  prepare_under-Standing none t h w c contract open_ off went = absurd (cc)
  prepare_under-Standing (some xid) t h w c contract open_ off went =
      if_cases (λ (x : Ha × Conn W H). x.0 ≡ ha_ok → Standing h x.1)
        (is_success (e.prepare h xid w).0) _ _
        (λ good q. record {
          struct = t;
          kept = refl;
          handle = open_;
          no_savepoint = off;
          state = contract h xid w good;
        })
        (λ bad q. absurd (failure-not_ok k.print_all_conflicts _ bad q)) went

  prepare-Standing :
      (x : Xid) (c : Conn W H) (t : Trx H) (h : H)
      → PrepareContract e
      → c.trx ≡ some t
      → t.txn ≡ some h
      → is_real k ≡ true
      → t.dirty ≡ true
      → (prepare e k x c).0 ≡ ha_ok
      → Standing h (prepare e k x c).1
  unfolding prepare
  prepare-Standing x c t h contract here open_ real dirt went = rw (whole) (
      prepare_under-Standing (encoded x) (release_stmt_savepoint e h t c.engine).0 h
        (release_stmt_savepoint e h t c.engine).1 c contract (ground arith) (ground arith)
        (rw (whole) at went))
    where
      whole :
          prepare e k x c
          ≡ prepare_under e k
              (encoded x)
              (release_stmt_savepoint e h t c.engine).0
              h
              (release_stmt_savepoint e h t c.engine).1
              c
      whole = live e k (prepare_txn e k x) c t h here open_ ∙ writes x t h c real dirt

  -- Under the contract of prepare: once a transaction with writes is prepared as a whole, the engine has
  -- it prepared or committed. Where it is prepared, commit leaves the engine exactly where one
  -- commit_prepared leaves it, and rollback where one rollback_prepared does; where it is committed,
  -- both leave the engine alone. Neither callback commits or rolls it back in one phase.
  pub prepare-two_phases :
      (x : Xid) (c : Conn W H) (t : Trx H) (h : H)
      → PrepareContract e
      → c.trx ≡ some t
      → t.txn ≡ some h
      → is_real k ≡ true
      → t.dirty ≡ true
      → (prepare e k x c).0 ≡ ha_ok
      → (let c' = (prepare e k x c).1 in
          Resolves h c' (commit e k c').1.engine (e.commit_prepared h c'.engine).1
          × Resolves h c' (rollback e k c').1.engine (e.rollback_prepared h c'.engine).1)
  prepare-two_phases x c t h contract here open_ real dirt went =
      let s = prepare-Standing x c t h contract here open_ real dirt went in
      (Standing-commit (prepare e k x c).1 h real s, Standing-rollback (prepare e k x c).1 h s)
