-- ===== src/Fts/Tokens.antt =====
-- The tokenizer of plugin/tidesdb_fts.cc. The character set is the server's, so what is asked of it is a
-- parameter, and so are the settings: the characters that blend, the stop words, and the two lengths.
use tidesdb_mysql.Base.{
  ℕ, zero, suc, ◌+◌, ◌-◌, Bool, true, false, ◌&&◌, ◌||◌, Option, none, some, List, [], ◌∷◌, ◌++◌,
  if◌then◌else◌, ltb, length, drop,
}
use tidesdb_mysql.RowLock.{bytes_eq}

-- `mb_len` is my_ismbchar on the rest of the text: 0, or the bytes of the character it begins with.
pub record Charset : Type 0 where
  pub mb_len : List ℕ → ℕ
  pub is_alnum : ℕ → Bool
  pub to_lower : List ℕ → List ℕ

pub record Settings : Type 0 where
  pub blends : ℕ → Bool
  pub is_stopword : List ℕ → Bool
  pub min_word_len : ℕ
  pub max_word_len : ℕ

-- The word that is being read: its bytes, last first; its characters; whether it has a blend
-- character; and how many bytes of a multi-byte character are still to come.
pub record Word : Type 0 where
  pub bytes : List ℕ
  pub chars : ℕ
  pub blended : Bool
  pub pending : ℕ

abbrev pub no_word : Word
no_word = record { bytes = []; chars = 0; blended = false; pending = 0 }

abbrev pub reversed : List ℕ → List ℕ → List ℕ
reversed [] acc = acc
reversed (b ∷ bs) acc = reversed bs (b ∷ acc)

module _ (cs : Charset) (st : Settings) where
  unfoldable pub emit_token : List ℕ → ℕ → List (List ℕ)
  emit_token bytes chars =
      if ltb chars st.min_word_len || ltb st.max_word_len chars
      then []
      else if st.is_stopword (cs.to_lower bytes)
      then []
      else cs.to_lower bytes ∷ []

  -- The parts between the blend characters: what is left of the word, and the part that is being
  -- read, last byte first, with its count.
  pub sub_parts : List ℕ → List ℕ → ℕ → List (List ℕ)
  sub_parts [] [] chars = []
  sub_parts [] (b ∷ part) chars = emit_token (reversed (b ∷ part) []) chars
  sub_parts (c ∷ word) part chars =
      let next = sub_parts word [] 0 in
      let longer = sub_parts word (c ∷ part) (chars + 1) in
      if st.blends c
      then elim part [ [] ↦ next | b ∷ bs ↦ emit_token (reversed (b ∷ bs) []) chars ++ next ]
      else longer

  -- The end of a word.
  unfoldable pub flush : Word → List (List ℕ)
  flush w = elim w.bytes [
    | [] ↦ []
    | b ∷ bs ↦
        let word = reversed (b ∷ bs) [] in
        emit_token word w.chars ++ (if w.blended then sub_parts word [] 0 else [])
  ]

  -- The two loops over the text in one pass: the word so far grows, or ends.
  unfoldable pub scan : Word → List ℕ → List (List ℕ)
  scan w [] = flush w
  scan w (c ∷ text) = elim w.pending [
    | suc k ↦ scan (record w { bytes = c ∷ w.bytes; pending = k }) text
    | zero ↦ elim (cs.mb_len (c ∷ text)) [
      | suc k ↦ scan (record w { bytes = c ∷ w.bytes; chars = w.chars + 1; pending = k }) text
      | zero ↦
          if cs.is_alnum c
          then scan (record w { bytes = c ∷ w.bytes; chars = w.chars + 1 }) text
          else if st.blends c
          then scan (record w { bytes = c ∷ w.bytes; chars = w.chars + 1; blended = true }) text
          else flush w ++ scan no_word text
    ]
  ]

  unfoldable pub fts_tokenize : List ℕ → List (List ℕ)
  fts_tokenize text = scan no_word text

-- The columns of a document, of which the null ones are left out, joined by spaces.
pub join_columns : List ℕ → List (Option (List ℕ)) → List ℕ
join_columns doc [] = doc
join_columns doc (none ∷ columns) = join_columns doc columns
join_columns doc (some text ∷ columns) =
    join_columns (elim doc [ [] ↦ text | b ∷ bs ↦ (b ∷ bs) ++ (32 ∷ text) ]) columns

pub extract_and_tokenize : Charset → Settings → List (Option (List ℕ)) → List (List ℕ)
extract_and_tokenize cs st columns = fts_tokenize cs st (join_columns [] columns)

-- Whether the words stand at the head of the document.
pub phrase_here : List (List ℕ) → List (List ℕ) → Bool
phrase_here doc [] = true
phrase_here [] (w ∷ words) = false
phrase_here (d ∷ doc) (w ∷ words) = bytes_eq d w && phrase_here doc words

-- The positions `i`, of which `left + 1` are left.
pub phrase_from : List (List ℕ) → List (List ℕ) → ℕ → Bool
phrase_from doc words zero = phrase_here doc words
phrase_from doc words (suc left) = phrase_here doc words || phrase_from (drop 1 doc) words left

pub fts_phrase_in_tokens : List (List ℕ) → List (List ℕ) → Bool
fts_phrase_in_tokens doc [] = true
fts_phrase_in_tokens doc (w ∷ words) =
    if ltb (length doc) (length (w ∷ words))
    then false
    else phrase_from doc (w ∷ words) (length doc - length (w ∷ words))
