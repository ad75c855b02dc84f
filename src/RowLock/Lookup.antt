-- ===== src/RowLock/Lookup.antt =====
-- The hash chains of plugin/tidesdb_row_lock.cc: which entry a key is given.
use tidesdb_mysql.Base.{
  ℕ, ◌≡◌, refl, ap₂, ◌∙◌, inl, inr, Bool, true, Option, none, some, List, [], ◌∷◌, if◌then◌else◌,
  arith, Option-cases, Bool-cases, ◌==◌, ==_iff, ==_refl, length, get_elem?, &&-eq-true, if_cases,
}
use tidesdb_mysql.RowLock.{
  RowLock, Table, bytes_eq, find_in_chain, find_or_create, new_lock, insert_lock,
}
use tidesdb_mysql.RowLock.Frame.{get_elem?-append_one}

pub bytes_eq_refl : (xs : List ℕ) → bytes_eq xs xs ≡ true
unfolding bytes_eq
bytes_eq_refl [] = refl
bytes_eq_refl (x ∷ xs) = rw (==_refl x, bytes_eq_refl xs)

pub bytes_eq→eq : (xs ys : List ℕ) → bytes_eq xs ys ≡ true → xs ≡ ys
unfolding bytes_eq
bytes_eq→eq [] [] e = refl
bytes_eq→eq [] (y ∷ ys) e = cc
bytes_eq→eq (x ∷ xs) [] e = cc
bytes_eq→eq (x ∷ xs) (y ∷ ys) e =
    let (p, q) = &&-eq-true (x == y) (bytes_eq xs ys) e in
    ap₂ ◌∷◌ ((==_iff x y).0 p) (bytes_eq→eq xs ys q)

-- `i` is an entry with the key `pk`.
abbrev pub IsEntry : List RowLock → ℕ → List ℕ → Type 0
IsEntry locks i pk = (l : RowLock) × (get_elem? locks i ≡ some l) × (l.pk ≡ pk)

find_in_chain-IsEntry :
    (locks : List RowLock) (c pk : List ℕ) (i : ℕ)
    → find_in_chain locks c pk ≡ some i
    → IsEntry locks i pk
unfolding find_in_chain
find_in_chain-IsEntry locks [] pk i e = absurd (cc)
find_in_chain-IsEntry locks (j ∷ c) pk i e = elim (Option-cases (get_elem? locks j)) [
  | inl gone ↦ find_in_chain-IsEntry locks c pk i (ground arith)
  | inr (l, at) ↦ elim (Bool-cases (bytes_eq l.pk pk)) [
    | inl hit ↦ let here : j ≡ i = ground arith in (l, rw (← here) at, bytes_eq→eq l.pk pk hit)
    | inr miss ↦ find_in_chain-IsEntry locks c pk i (ground arith)
  ]
]

new_entry :
    (t : Table) (part : ℕ) (pk : List ℕ)
    → get_elem? (insert_lock t part pk).locks (length t.locks) ≡ some (new_lock part pk)
new_entry t part pk =
    get_elem?-append_one t.locks (new_lock part pk) (length t.locks) ∙ rw (==_refl (length t.locks))

find_new :
    (t : Table) (part : ℕ) (pk : List ℕ)
    → find_in_chain (insert_lock t part pk).locks ((insert_lock t part pk).chain part) pk
      ≡ some (length t.locks)
unfolding find_in_chain
find_new t part pk = ground (arith, new_entry t part pk, bytes_eq_refl pk)

find_again :
    (again : Bool) (t : Table) (part : ℕ) (pk : List ℕ) (i : ℕ)
    → find_in_chain t.locks (t.chain part) pk ≡ some i
    → find_or_create again t part pk ≡ (some i, t)
unfolding find_or_create
find_again again t part pk i e = ground arith

find_none :
    (alloc : Bool) (t : Table) (part : ℕ) (pk : List ℕ)
    → find_in_chain t.locks (t.chain part) pk ≡ none
    → find_or_create alloc t part pk
      ≡ (if alloc then (some (length t.locks), insert_lock t part pk) else (none, t))
unfolding find_or_create
find_none alloc t part pk e = ground arith

abbrev pub IsStable : Bool → ℕ → List ℕ → Option ℕ × Table → Type 0
IsStable again part pk x =
    (i : ℕ)
    → x.0 ≡ some i
    → IsEntry x.1.locks i pk × (find_or_create again x.1 part pk ≡ (some i, x.1))

insert_lock-IsStable :
    (again : Bool) (t : Table) (part : ℕ) (pk : List ℕ)
    → IsStable again part pk (some (length t.locks), insert_lock t part pk)
insert_lock-IsStable again t part pk i e =
    let newest : length t.locks ≡ i = ground arith in
    rw (← newest) (
      (new_lock part pk, new_entry t part pk, refl),
      find_again again (insert_lock t part pk) part pk (length t.locks) (find_new t part pk),
    )

-- The entry that a key is given carries that key, and asking again for the key, with or without
-- memory left, gives the same entry and changes nothing.
pub find_or_create-IsStable :
    (alloc again : Bool) (t : Table) (part : ℕ) (pk : List ℕ)
    → IsStable again part pk (find_or_create alloc t part pk)
find_or_create-IsStable alloc again t part pk =
    elim (Option-cases (find_in_chain t.locks (t.chain part) pk)) [
      | inl fresh ↦ rw (find_none alloc t part pk fresh) (
          if_cases (IsStable again part pk) alloc _ _ (λ more. insert_lock-IsStable again t part pk)
            (λ less i e. absurd (cc)))
      | inr (j, old) ↦ rw (find_again alloc t part pk j old) (λ i e.
          let same : j ≡ i = ground arith in
          rw (← same) (
            find_in_chain-IsEntry t.locks (t.chain part) pk j old,
            find_again again t part pk j old,
          ))
    ]
