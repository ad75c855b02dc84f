-- ===== src/Rows/TermDiff.antt =====
-- The terms that update_row removes and stores, against all the terms of both rows.
use tidesdb_mysql.Base.{
  ℕ, zero, suc, ◌≤◌, ◌≡◌, ◌∙◌, refl, sym, ap, Bool, true, false, Option, none, some, List, [], ◌∷◌,
  if◌then◌else◌, arith, All, if_cases, Bool-cases, inl, inr, length, take, drop, take_nil,
}
use tidesdb_mysql.RowLock.{bytes_eq}
use tidesdb_mysql.RowLock.Lookup.{bytes_eq→eq, bytes_eq_refl}
use tidesdb_mysql.Fts
use tidesdb_mysql.Fts.{of_le}
use tidesdb_mysql.Fts.Codec.{build_key-parts}
use tidesdb_mysql.Rows.Entries.{term_entries}
use tidesdb_mysql.Rows.Update.{count_of, keep_gone, gone, need_put, changed}
use tidesdb_mysql.Rows.Contents.{over, hit}

abbrev pub Terms : Type 0
Terms = List (List ℕ × ℕ)

-- The term is stored whole in a key.
abbrev pub Short : List ℕ → Type 0
Short t = length t ≤ 512

abbrev pub AllShort : Terms → Type 0
AllShort m = All (λ x. Short x.0) m

abbrev pub Distinct : Terms → Type 0
Distinct [] = Unit {0}
Distinct ((t, n) ∷ m) = (count_of t m ≡ none) × Distinct m

unfoldable pub is_some : {A : Type 0} → Option A → Bool
is_some none = false
is_some (some a) = true

take_short : (n : ℕ) (t : List ℕ) → length t ≤ n → take n t ≡ t
take_short n [] h = take_nil n
take_short zero (x ∷ t) h = absurd (omega arith)
take_short (suc n) (x ∷ t) h = ap (◌∷◌ x) (take_short n t (omega arith))

key-injective :
    (t u pk : List ℕ) → Short t → Short u → Fts.build_key t pk ≡ Fts.build_key u pk → t ≡ u
key-injective t u pk st su e =
    sym (take_short 512 t st)
    ∙ sym (build_key-parts t pk).0
    ∙ ap (λ (k : List ℕ). take (of_le (take 2 k)) (drop 2 k)) e
    ∙ (build_key-parts u pk).0
    ∙ take_short 512 u su

key_eq :
    (t u pk : List ℕ)
    → Short t
    → Short u
    → bytes_eq (Fts.build_key t pk) (Fts.build_key u pk) ≡ bytes_eq t u
key_eq t u pk st su = elim (Bool-cases (bytes_eq t u)) [
  | inl same ↦ rw (bytes_eq→eq t u same, bytes_eq_refl u, bytes_eq_refl (Fts.build_key u pk)) refl
  | inr other ↦ elim (Bool-cases (bytes_eq (Fts.build_key t pk) (Fts.build_key u pk))) [
    | inl clash ↦
        let e : t ≡ u = key-injective t u pk st su (bytes_eq→eq _ _ clash) in
        absurd (let o = rw (e, bytes_eq_refl u) at other in cc)
    | inr apart ↦ apart ∙ sym other
  ]
]

unfoldable pub put_of : ℕ → Option (List ℕ) → Option ℕ → Option (List ℕ)
put_of w o none = o
put_of w o (some n) = some (Fts.build_value n w)

put_of-if :
    (w n : ℕ) (o : Option (List ℕ)) (b b' : Bool) (found : Option ℕ)
    → b' ≡ b
    → (b ≡ true → found ≡ none)
    → put_of w (if b' then some (Fts.build_value n w) else o) found
      ≡ put_of w o (if b then some n else found)
unfolding put_of
put_of-if w n o true b' found e alone = rw (e, alone refl) refl
put_of-if w n o false b' found e alone = rw e refl

-- What holds of one term holds of an equal one.
pub same_term : {A : Type 0} (f : List ℕ → A) (u t : List ℕ) → bytes_eq u t ≡ true → f u ≡ f t
same_term f u t same = ap f (bytes_eq→eq u t same)

module _ (pk t : List ℕ) (st : Short t) where
  pub over-terms :
      (w : ℕ) (m : Terms) (o : Option (List ℕ))
      → AllShort m
      → Distinct m
      → over (term_entries w pk m) (Fts.build_key t pk) o ≡ put_of w o (count_of t m)
  unfolding over term_entries count_of put_of
  over-terms w [] o short distinct = refl
  over-terms w ((u, n) ∷ m) o short distinct =
      over-terms w m
        (if bytes_eq (Fts.build_key u pk) (Fts.build_key t pk)
          then some (Fts.build_value n w)
          else o)
        short.1 distinct.1
      ∙ put_of-if w n o (bytes_eq u t) _ (count_of t m) (key_eq u t pk short.0 st)
          (λ same. sym (same_term (λ x. count_of x m) u t same) ∙ distinct.0)

  pub hit-terms :
      (w : ℕ) (m : Terms)
      → AllShort m
      → hit (term_entries w pk m) (Fts.build_key t pk) ≡ is_some (count_of t m)
  unfolding hit term_entries count_of is_some
  hit-terms w [] short = refl
  hit-terms w ((u, n) ∷ m) short =
      rw (key_eq u t pk short.0 st, hit-terms w m short.1) (ground arith)

  count_of-kept :
      (new : Terms) (o : Option ℕ) (u : List ℕ) (n : ℕ) (rest m : Terms)
      → count_of u new ≡ o
      → count_of t rest ≡ (if is_some (count_of t new) then none else count_of t m)
      → count_of t (keep_gone o (u, n) rest)
        ≡ (if is_some (count_of t new) then none else count_of t ((u, n) ∷ m))
  unfolding count_of keep_gone is_some
  count_of-kept new none u n rest m e ih =
      ground (arith, same_term (λ (x : List ℕ). count_of x new) u t)
  count_of-kept new (some k) u n rest m e ih =
      ground (arith, same_term (λ (x : List ℕ). count_of x new) u t)

  pub count_of-gone :
      (new m : Terms)
      → count_of t (gone new m) ≡ (if is_some (count_of t new) then none else count_of t m)
  unfolding gone count_of
  count_of-gone new [] =
      if_cases (λ (x : Option ℕ). none ≡ x) (is_some (count_of t new)) none none (λ h. refl)
        (λ h. refl)
  count_of-gone new ((u, n) ∷ m) =
      count_of-kept new (count_of u new) u n (gone new m) m refl (count_of-gone new m)

  unfoldable pub needed : Bool → Terms → Option ℕ → Option ℕ
  needed differ old none = none
  needed differ old (some n) = if need_put differ old (t, n) then some n else none

  pub count_of-changed :
      (differ : Bool) (old m : Terms)
      → Distinct m
      → count_of t (changed differ old m) ≡ needed differ old (count_of t m)
  unfolding count_of changed needed
  count_of-changed differ old [] distinct = refl
  count_of-changed differ old ((u, n) ∷ m) distinct = ground (
    arith,
    same_term (λ (x : List ℕ). count_of x m) u t,
    same_term (λ (x : List ℕ). need_put differ old (x, n)) u t,
    count_of-changed differ old m distinct.1,
  )
