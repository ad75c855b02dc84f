-- ===== src/RowLock/Round.antt =====
-- One round of the loop of row_locks_release_all, plugin/tidesdb_row_lock.cc.
use tidesdb_mysql.Base.{
  ℕ, ◌≡◌, none, some, List, ◌∷◌, if◌then◌else◌, arith, ◌==◌, Bool-cases, inl, inr,
}
use tidesdb_mysql.RowLock.{Table, owner, txn_id, held, waiting}
use tidesdb_mysql.RowLock.Frame.{IsLock}
use tidesdb_mysql.RowLock.Invariant.{Inv, Distinct}
use tidesdb_mysql.RowLock.Release.{
  owner-free_lock, txn_id-free_lock, IsLock-free_lock, trx-free_lock,
}
use tidesdb_mysql.RowLock.System.{release_lock}

module _ (t : Table) (r i : ℕ) (rest : List ℕ) where
  pub owner-release_lock :
      (j : ℕ) → owner (release_lock t r i rest) j ≡ (if i == j then none else owner t j)
  unfolding release_lock owner
  owner-release_lock j = fold_owner
    where
      fold_owner :
          owner (tidesdb_mysql.RowLock.free_lock t i) j ≡ (if i == j then none else owner t j)
      fold_owner = owner-free_lock t i j

  txn_id-release_lock :
      (j : ℕ) → txn_id (release_lock t r i rest) j ≡ (if i == j then 0 else txn_id t j)
  unfolding release_lock
  txn_id-release_lock j = txn_id-free_lock t i j

  held-release_lock :
      (s : ℕ) → held (release_lock t r i rest) s ≡ (if r == s then rest else held t s)
  unfolding release_lock
  held-release_lock s = ground (arith, trx-free_lock t i)

  pub waiting-release_lock : (s : ℕ) → waiting (release_lock t r i rest) s ≡ waiting t s
  unfolding release_lock
  waiting-release_lock s = ground (arith, trx-free_lock t i)

  lock_id-release_lock :
      (s : ℕ) → ((release_lock t r i rest).trx s).lock_txn_id ≡ (t.trx s).lock_txn_id
  unfolding release_lock
  lock_id-release_lock s = ground (arith, trx-free_lock t i)

  pub IsLock-release_lock : (j : ℕ) → IsLock t j → IsLock (release_lock t r i rest) j
  unfolding release_lock
  IsLock-release_lock j h = IsLock-free_lock t i j h

  -- The lock that the round is about is the transaction's own.
  pub owner_head : Inv t → held t r ≡ i ∷ rest → owner t i ≡ some r
  owner_head v h = v.owns i r (rw h ground arith)

  tail-Distinct : Inv t → held t r ≡ i ∷ rest → Distinct (i ∷ rest)
  tail-Distinct v h = let d : Distinct (held t r) = v.distinct r in rw h at d

  pub release_lock-Inv : Inv t → held t r ≡ i ∷ rest → Inv (release_lock t r i rest)
  release_lock-Inv v h =
      let mine = owner_head v h in
      let (once, others) = tail-Distinct v h in
      record {
        owned = λ j s e.
            ground (arith, owner-release_lock j, held-release_lock s, v.owned j s, v.owned j r, h);
        owns = λ j s e. ground (
          arith,
          owner-release_lock j,
          held-release_lock s,
          v.owns j s,
          v.owns j r,
          h,
          once,
          mine,
        );
        free = λ j. ground (arith, owner-release_lock j, txn_id-release_lock j, v.free j);
        stamped = λ j s e.
            rw (lock_id-release_lock s)
              (ground (arith, owner-release_lock j, txn_id-release_lock j, v.stamped j s));
        named = λ s. rw (lock_id-release_lock s) (v.named s);
        distinct = λ s. elim (Bool-cases (r == s)) [
          | inl own ↦ rw (held-release_lock s, own) others
          | inr other ↦ rw (held-release_lock s, other) (v.distinct s)
        ];
      }
