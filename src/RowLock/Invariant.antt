-- ===== src/RowLock/Invariant.antt =====
-- The consistency of the lock table of plugin/tidesdb_row_lock.cc, and that each atomic part of
-- acquiring and releasing keeps it.
use tidesdb_mysql.Base.{
  ℕ, ◌<◌, ◌≡◌, refl, sym, ◌∙◌, Bool, true, false, ◌||◌, Option, none, some, List, [], ◌∷◌, arith,
  ◌==◌, Bool-cases, inl, inr,
}
use tidesdb_mysql.RowLock.{Table, owner, txn_id, held, claim}
use tidesdb_mysql.RowLock.Frame.{
  IsLock, SameOwners, owner-claim, txn_id-claim, held-claim, lock_id-claim,
}

abbrev pub has : ℕ → List ℕ → Bool
has i [] = false
has i (j ∷ js) = (j == i) || has i js

abbrev pub is_none : Option ℕ → Bool
is_none none = true
is_none (some a) = false

-- No lock is on the list twice.
abbrev pub Distinct : List ℕ → Type 0
Distinct [] = Unit {0}
Distinct (i ∷ is) = (has i is ≡ false) × Distinct is

-- A transaction owns a lock exactly when it is on its held list, and a lock is free by its
-- owner exactly when it is free by its id; an owned lock carries the id of its owner; and no lock is on a held
-- list twice.
pub record Inv (t : Table) : Type 0 where
  pub owned : (i r : ℕ) → owner t i ≡ some r → has i (held t r) ≡ true
  pub owns : (i r : ℕ) → has i (held t r) ≡ true → owner t i ≡ some r
  pub free : (i : ℕ) → (txn_id t i == 0) ≡ is_none (owner t i)
  pub stamped : (i r : ℕ) → owner t i ≡ some r → txn_id t i ≡ (t.trx r).lock_txn_id
  pub named : (r : ℕ) → 0 < (t.trx r).lock_txn_id
  pub distinct : (r : ℕ) → Distinct (held t r)

pub SameOwners-Inv : {t t' : Table} → SameOwners t t' → Inv t → Inv t'
SameOwners-Inv s v = record {
  owned = λ i r e. rw (s.helds r) (v.owned i r (sym (s.owners i) ∙ e));
  owns = λ i r e. s.owners i ∙ v.owns i r (rw (s.helds r) at e);
  free = λ i. rw (s.ids i, s.owners i) (v.free i);
  stamped = λ i r e. rw (s.ids i, s.lock_ids r) (v.stamped i r (sym (s.owners i) ∙ e));
  named = λ r. rw (s.lock_ids r) (v.named r);
  distinct = λ r. rw (s.helds r) (v.distinct r);
}

not_held : (t : Table) (r i : ℕ) → owner t i ≡ none → Inv t → has i (held t r) ≡ false
not_held t r i vacant v = ground (arith, v.owns i r, vacant)

pub claim-Inv : (t : Table) (r i : ℕ) → IsLock t i → owner t i ≡ none → Inv t → Inv (claim t r i)
claim-Inv t r i here vacant v = record {
  owned = λ j s e. ground (arith, owner-claim t r i here j, held-claim t r i here s, v.owned j s);
  owns = λ j s e.
      ground
        (arith, owner-claim t r i here j, held-claim t r i here s, v.owns j s, v.owns j r, vacant);
  free =
      λ j. ground (arith, owner-claim t r i here j, txn_id-claim t r i here j, v.free j, v.named r);
  stamped = λ j s e.
      rw (lock_id-claim t r i s)
        (ground (arith, owner-claim t r i here j, txn_id-claim t r i here j, v.stamped j s));
  named = λ s. rw (lock_id-claim t r i s) (v.named s);
  distinct = λ s. elim (Bool-cases (r == s)) [
    | inl mine ↦ rw (held-claim t r i here s, mine) (not_held t r i vacant v, v.distinct r)
    | inr other ↦ rw (held-claim t r i here s, other) (v.distinct s)
  ];
}

-- No lock was ever asked for.
abbrev pub empty_table : Table
empty_table = record {
  locks = [];
  chain = λ part. [];
  trx = λ r. record { held = []; waiting_on = none; lock_txn_id = 1 };
}

pub empty_table-Inv : Inv empty_table
unfolding owner
empty_table-Inv = record {
  owned = λ i r e. absurd (cc);
  owns = λ i r e. absurd (cc);
  free = λ i. refl;
  stamped = λ i r e. absurd (cc);
  named = λ r. omega arith;
  distinct = λ r. tt;
}
