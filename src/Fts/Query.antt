-- ===== src/Fts/Query.antt =====
-- The parser of boolean queries, fts_parse_boolean of plugin/tidesdb_fts.cc. What is left of the query
-- stands for the pointer into it.
pub mod Progress
use tidesdb_mysql.Base.{
  ℕ, zero, suc, ◌+◌, ◌≤◌, ◌<◌, ◌≡◌, refl, ap, Bool, true, false, not, ◌&&◌, ◌||◌, Option, none,
  some, List, [], ◌∷◌, ◌++◌, if◌then◌else◌, ◌==◌, length, map, arith, Bool-cases, inl, inr,
}
use tidesdb_mysql.Fts.Tokens.{Charset, Settings, fts_tokenize}

pub data YesNo : Type 0 where
  required : YesNo
  excluded : YesNo
  neutral : YesNo

pub record QueryTerm : Type 0 where
  pub term : List ℕ
  pub yesno : YesNo
  pub trunc : Bool
  pub is_phrase : Bool
  pub phrase_words : List (List ℕ)

-- The operators `+`, `-`, `"` and `*`, and the space.
abbrev op_required : ℕ
op_required = 43

abbrev op_excluded : ℕ
op_excluded = 45

abbrev pub op_phrase : ℕ
op_phrase = 34

abbrev pub op_trunc : ℕ
op_trunc = 42

abbrev space : ℕ
space = 32

unfoldable pub skip_spaces : List ℕ → List ℕ
skip_spaces [] = []
skip_spaces (c ∷ text) = let rest = skip_spaces text in if c == space then rest else c ∷ text

-- The sign at the head of the text, and the text after it.
unfoldable pub read_sign : List ℕ → YesNo × List ℕ
read_sign [] = (neutral, [])
read_sign (c ∷ text) =
    if c == op_required
    then (required, text)
    else if c == op_excluded
    then (excluded, text)
    else (neutral, c ∷ text)

-- What stands before the next quote, and the text behind that quote.
unfoldable pub read_quoted : List ℕ → List ℕ × List ℕ
read_quoted [] = ([], [])
read_quoted (c ∷ text) =
    let (phrase, rest) = read_quoted text in
    if c == op_phrase then ([], text) else (c ∷ phrase, rest)

abbrev required_word : List ℕ → QueryTerm
required_word w = record {
  term = w;
  yesno = required;
  trunc = false;
  is_phrase = false;
  phrase_words = [];
}

-- Each word of a phrase is a required term; the first carries the phrase.
unfoldable pub phrase_terms : YesNo → List (List ℕ) → List QueryTerm
phrase_terms yesno [] = []
phrase_terms yesno (w ∷ words) =
    let sign : YesNo = elim yesno [
      | neutral ↦ required
      | required ↦ required
      | excluded ↦ excluded
    ] in
    let first : QueryTerm = record {
      term = w;
      yesno = sign;
      trunc = false;
      is_phrase = true;
      phrase_words = w ∷ words;
    } in
    first ∷ map required_word words

module _ (cs : Charset) where
  -- Whether the text begins with a character of a word.
  unfoldable pub starts_word : List ℕ → Bool
  starts_word [] = false
  starts_word (c ∷ text) = cs.is_alnum c || (not (cs.mb_len (c ∷ text) == 0) || (c == op_trunc))

  unfoldable pub skip_to_word : List ℕ → List ℕ
  skip_to_word [] = []
  skip_to_word (c ∷ text) =
      let rest = skip_to_word text in if starts_word (c ∷ text) then c ∷ text else rest

  -- A word and the text behind it; the number is of the bytes of a multi-byte character that are
  -- still to come.
  unfoldable pub read_word : ℕ → List ℕ → List ℕ × List ℕ
  read_word pending [] = ([], [])
  read_word (suc k) (c ∷ text) = let (word, rest) = read_word k text in (c ∷ word, rest)
  read_word zero (c ∷ text) = elim (cs.mb_len (c ∷ text)) [
    | suc k ↦ let (word, rest) = read_word k text in (c ∷ word, rest)
    | zero ↦
        let (word, rest) = read_word 0 text in
        if cs.is_alnum c || (c == op_trunc) then (c ∷ word, rest) else ([], c ∷ text)
  ]

  -- The word without a `*` at its end, and whether there was one.
  unfoldable pub split_trunc : List ℕ → List ℕ × Bool
  split_trunc [] = ([], false)
  split_trunc (c ∷ []) = if c == op_trunc then ([], true) else (c ∷ [], false)
  split_trunc (c ∷ d ∷ word) = let (front, trunc) = split_trunc (d ∷ word) in (c ∷ front, trunc)

  unfoldable pub word_terms : YesNo → List ℕ → List QueryTerm
  word_terms yesno word =
      let (front, trunc) = split_trunc word in
      let t : QueryTerm = record {
        term = cs.to_lower front;
        yesno = yesno;
        trunc = trunc;
        is_phrase = false;
        phrase_words = [];
      } in
      elim front [ [] ↦ [] | c ∷ cs' ↦ t ∷ [] ]

  -- From the character on that begins a word.
  unfoldable pub next_word : YesNo → List ℕ → Option (List QueryTerm × List ℕ)
  next_word yesno [] = none
  next_word yesno (d ∷ text) =
      let (word, left) = read_word 0 (d ∷ text) in some (word_terms yesno word, left)

  -- The rest of a round, from the character behind the sign on: the terms and the text that is left;
  -- `none` where the text ends.
  unfoldable pub read_term : Settings → YesNo → List ℕ → Option (List QueryTerm × List ℕ)
  read_term st yesno [] = none
  read_term st yesno (c ∷ text) =
      let (phrase, rest) = read_quoted text in
      if c == op_phrase
      then some (phrase_terms yesno (fts_tokenize cs st phrase), rest)
      else next_word yesno (skip_to_word (c ∷ text))

  -- One round of the loop.
  unfoldable pub read_round : Settings → List ℕ → Option (List QueryTerm × List ℕ)
  read_round st text =
      let (yesno, signed) = read_sign (skip_spaces text) in read_term st yesno (skip_spaces signed)

  unfoldable pub go_on :
      (List ℕ → Option (List QueryTerm))
      → Option (List QueryTerm × List ℕ)
      → Option (List QueryTerm)
  go_on rounds none = some []
  go_on rounds (some (terms, left)) = elim (rounds left) [
    | none ↦ none
    | some later ↦ some (terms ++ later)
  ]

  -- The loop, on fuel: `none` where the fuel ends before the query does.
  unfoldable pub parse_rounds : ℕ → Settings → List ℕ → Option (List QueryTerm)
  parse_rounds zero st text = none
  parse_rounds (suc n) st text = go_on (parse_rounds n st) (read_round st text)

  unfoldable pub fts_parse_boolean : Settings → List ℕ → Option (List QueryTerm)
  fts_parse_boolean st text = parse_rounds (length text + 1) st text
