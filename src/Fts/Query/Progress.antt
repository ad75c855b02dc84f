-- ===== src/Fts/Query/Progress.antt =====
-- Every round of fts_parse_boolean, plugin/tidesdb_fts.cc, goes on in the text.
use tidesdb_mysql.Base.{
  ℕ, zero, suc, ◌+◌, ◌∙◌, ◌≤◌, ◌<◌, ◌≡◌, refl, ap, true, ◌||◌, Option, none, some, List, [], ◌∷◌,
  ◌++◌, if◌then◌else◌, ◌==◌, length, arith, if_cases,
}
use tidesdb_mysql.Fts.Tokens.{Charset, Settings, fts_tokenize}
use tidesdb_mysql.Fts.Query.{
  YesNo, QueryTerm, skip_spaces, read_sign, read_quoted, phrase_terms, starts_word, skip_to_word,
  read_word, op_phrase, op_trunc, next_word, go_on, read_term, read_round, parse_rounds,
  fts_parse_boolean,
}

skip_spaces_le : (text : List ℕ) → length (skip_spaces text) ≤ length text
unfolding skip_spaces
skip_spaces_le [] = omega arith
skip_spaces_le (c ∷ text) = ground (arith, skip_spaces_le text)

read_sign_le : (text : List ℕ) → length (read_sign text).1 ≤ length text
unfolding read_sign
read_sign_le [] = omega arith
read_sign_le (c ∷ text) = ground arith

read_quoted_le : (text : List ℕ) → length (read_quoted text).1 ≤ length text
unfolding read_quoted
read_quoted_le [] = omega arith
read_quoted_le (c ∷ text) = ground (arith, read_quoted_le text)

-- The text of a round that goes on is shorter than `n`.
abbrev Shorter : ℕ → Option (List QueryTerm × List ℕ) → Type 0
Shorter n none = Unit {0}
Shorter n (some x) = length x.1 < n

Shorter-mono : (n k : ℕ) (o : Option (List QueryTerm × List ℕ)) → n ≤ k → Shorter n o → Shorter k o
Shorter-mono n k none l h = tt
Shorter-mono n k (some x) l h = omega arith

module _ (cs : Charset) where
  read_word-single :
      (c : ℕ) (text : List ℕ)
      → cs.mb_len (c ∷ text) ≡ 0
      → read_word cs 0 (c ∷ text) ≡ (
          if cs.is_alnum c || (c == op_trunc)
          then (c ∷ (read_word cs 0 text).0, (read_word cs 0 text).1)
          else ([], c ∷ text))
  unfolding read_word
  read_word-single c text e = rw (read_word, e) refl

  read_word-multi :
      (c : ℕ) (text : List ℕ) (k : ℕ)
      → cs.mb_len (c ∷ text) ≡ suc k
      → read_word cs 0 (c ∷ text) ≡ (c ∷ (read_word cs k text).0, (read_word cs k text).1)
  unfolding read_word
  read_word-multi c text k e = rw (read_word, e) refl

  read_char_le :
      (c : ℕ) (text : List ℕ) (m : ℕ)
      → cs.mb_len (c ∷ text) ≡ m
      → ((k : ℕ) → length (read_word cs k text).1 ≤ length text)
      → length (read_word cs 0 (c ∷ text)).1 ≤ length (c ∷ text)
  read_char_le c text zero e h =
      let l = ap (λ x. length x.1) (read_word-single c text e) in ground (arith, h 0, l)
  read_char_le c text (suc k) e h =
      let l = ap (λ x. length x.1) (read_word-multi c text k e) in omega (arith, h k, l)

  read_word_le : (pending : ℕ) (text : List ℕ) → length (read_word cs pending text).1 ≤ length text
  unfolding read_word
  read_word_le pending [] = omega arith
  read_word_le (suc k) (c ∷ text) = omega (arith, read_word_le k text)
  read_word_le zero (c ∷ text) =
      read_char_le c text (cs.mb_len (c ∷ text)) refl (λ k. read_word_le k text)

  read_char_lt :
      (c : ℕ) (text : List ℕ) (m : ℕ)
      → cs.mb_len (c ∷ text) ≡ m
      → starts_word cs (c ∷ text) ≡ true
      → length (read_word cs 0 (c ∷ text)).1 < suc (length text)
  unfolding starts_word
  read_char_lt c text zero e h =
      let l = ap (λ x. length x.1) (read_word-single c text e) in
      ground (arith, e, h, l, read_word_le 0 text)
  read_char_lt c text (suc k) e h =
      let l = ap (λ x. length x.1) (read_word-multi c text k e) in
      omega (arith, l, read_word_le k text)

  -- The text from the next word on, where there is one.
  Starts : ℕ → List ℕ → Type 0
  Starts n [] = Unit {0}
  Starts n (d ∷ rest) = (starts_word cs (d ∷ rest) ≡ true) × (suc (length rest) ≤ n)

  Starts-mono : (n : ℕ) (text : List ℕ) → Starts n text → Starts (suc n) text
  unfolding Starts
  Starts-mono n [] h = tt
  Starts-mono n (d ∷ rest) h = (h.0, omega (arith, h.1))

  skip_to_word-Starts : (text : List ℕ) → Starts (length text) (skip_to_word cs text)
  unfolding skip_to_word Starts
  skip_to_word-Starts [] = tt
  skip_to_word-Starts (c ∷ text) =
      if_cases (Starts (suc (length text))) (starts_word cs (c ∷ text)) (c ∷ text)
        (skip_to_word cs text) (λ h. (h, omega arith))
        (λ _. Starts-mono (length text) (skip_to_word cs text) (skip_to_word-Starts text))

  read_next_word-Shorter :
      (yesno : YesNo) (n : ℕ) (text : List ℕ) → Starts n text → Shorter n (next_word cs yesno text)
  unfolding next_word Starts
  read_next_word-Shorter yesno n [] h = tt
  read_next_word-Shorter yesno n (d ∷ rest) h =
      omega (arith, h.1, read_char_lt d rest (cs.mb_len (d ∷ rest)) refl h.0)

  read_term-Shorter :
      (st : Settings) (yesno : YesNo) (text : List ℕ)
      → Shorter (length text) (read_term cs st yesno text)
  unfolding read_term
  read_term-Shorter st yesno [] = tt
  read_term-Shorter st yesno (c ∷ text) =
      if_cases (Shorter (suc (length text))) (c == op_phrase)
        (some (phrase_terms yesno (fts_tokenize cs st (read_quoted text).0), (read_quoted text).1))
        (next_word cs yesno (skip_to_word cs (c ∷ text))) (λ _. omega (arith, read_quoted_le text))
        (λ _.
          read_next_word-Shorter yesno (suc (length text)) (skip_to_word cs (c ∷ text))
            (skip_to_word-Starts (c ∷ text)))

  read_round-Shorter :
      (st : Settings) (text : List ℕ) → Shorter (length text) (read_round cs st text)
  unfolding read_round
  read_round-Shorter st text =
      let (yesno, signed) = read_sign (skip_spaces text) in
      Shorter-mono (length (skip_spaces signed)) (length text)
        (read_term cs st yesno (skip_spaces signed))
        (omega (arith, skip_spaces_le text, read_sign_le (skip_spaces text), skip_spaces_le signed))
        (read_term-Shorter st yesno (skip_spaces signed))

  go_on-agree :
      (f g : List ℕ → Option (List QueryTerm)) (n : ℕ) (o : Option (List QueryTerm × List ℕ))
      → Shorter n o
      → ((left : List ℕ) → length left < n → f left ≡ g left)
      → go_on cs f o ≡ go_on cs g o
  unfolding go_on
  go_on-agree f g n none h same = refl
  go_on-agree f g n (some x) h same = rw (go_on, same x.1 h) refl

  go_on-ends :
      (f : List ℕ → Option (List QueryTerm)) (n : ℕ) (o : Option (List QueryTerm × List ℕ))
      → Shorter n o
      → ((left : List ℕ) → length left < n → (ts : List QueryTerm) × (f left ≡ some ts))
      → (ts : List QueryTerm) × (go_on cs f o ≡ some ts)
  unfolding go_on
  go_on-ends f n none h ends = ([], refl)
  go_on-ends f n (some x) h ends = let (later, e) = ends x.1 h in (x.0 ++ later, rw (go_on, e) refl)

  rounds_agree :
      (n k : ℕ) (st : Settings) (text : List ℕ)
      → length text < n
      → length text < k
      → parse_rounds cs n st text ≡ parse_rounds cs k st text
  unfolding parse_rounds
  rounds_agree zero k st text h l = absurd (omega arith)
  rounds_agree (suc n) zero st text h l = absurd (omega arith)
  rounds_agree (suc n) (suc k) st text h l =
      go_on-agree (parse_rounds cs n st) (parse_rounds cs k st) (length text)
        (read_round cs st text) (read_round-Shorter st text)
        (λ left m. rounds_agree n k st left (omega arith) (omega arith))

  rounds_end :
      (n : ℕ) (st : Settings) (text : List ℕ)
      → length text < n
      → (ts : List QueryTerm) × (parse_rounds cs n st text ≡ some ts)
  unfolding parse_rounds
  rounds_end zero st text h = absurd (omega arith)
  rounds_end (suc n) st text h =
      go_on-ends (parse_rounds cs n st) (length text) (read_round cs st text)
        (read_round-Shorter st text) (λ left m. rounds_end n st left (omega arith))

  -- The parser ends: with fuel for more rounds than the query has bytes the loop comes to the end of
  -- the query, with the same terms whatever the fuel is, and these are the terms of
  -- fts_parse_boolean.
  pub parse_rounds_ends :
      (n : ℕ) (st : Settings) (text : List ℕ)
      → length text < n
      → (ts : List QueryTerm) × (parse_rounds cs n st text ≡ some ts)
        × (fts_parse_boolean cs st text ≡ some ts)
  unfolding fts_parse_boolean
  parse_rounds_ends n st text h =
      let (ts, e) = rounds_end n st text h in
      (ts, e, rounds_agree (length text + 1) n st text (omega arith) h ∙ e)
