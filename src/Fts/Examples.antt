-- ===== src/Fts/Examples.antt =====
-- A boolean query of plugin/tidesdb_fts.cc.
use tidesdb_mysql.Base.{
  ℕ, ◌≡◌, refl, false, ◌&&◌, Option, none, some, List, [], ◌∷◌, leb, map, arith,
}
use tidesdb_mysql.Fts.Tokens.{Charset, Settings, emit_token, flush, scan, fts_tokenize}
use tidesdb_mysql.Fts.Query.{
  QueryTerm, skip_spaces, read_sign, read_quoted, phrase_terms, starts_word, skip_to_word,
  read_word, split_trunc, word_terms, next_word, read_term, read_round, go_on, parse_rounds,
  fts_parse_boolean,
}
use tidesdb_mysql.Fts.Query.Progress.{parse_rounds_ends}

abbrev ascii : Charset
ascii = record { mb_len = λ _. 0; is_alnum = λ c. leb 97 c && leb c 122; to_lower = λ w. w }

abbrev settings : Settings
settings = record {
  blends = λ _. false;
  is_stopword = λ _. false;
  min_word_len = 1;
  max_word_len = 84;
}

abbrev query : List ℕ
query = 43 ∷ 97 ∷ 98 ∷ 42 ∷ 32 ∷ 34 ∷ 99 ∷ 32 ∷ 100 ∷ 34 ∷ []

parse_rounds_ends_example :
    (ts : List QueryTerm) × (parse_rounds ascii 12 settings query ≡ some ts)
    × (fts_parse_boolean ascii settings query ≡ some ts)
parse_rounds_ends_example = parse_rounds_ends ascii 12 settings query (omega arith)

abbrev terms_of : Option (List QueryTerm) → List (List ℕ)
terms_of none = []
terms_of (some ts) = map (λ (t : QueryTerm). t.term) ts

-- The query `+ab* "c d"`: a required prefix, and the phrase, whose words are required.
parsed :
    terms_of (fts_parse_boolean ascii settings query) ≡ (97 ∷ 98 ∷ []) ∷ (99 ∷ []) ∷ (100 ∷ []) ∷ []
unfolding fts_parse_boolean parse_rounds go_on read_round read_term next_word word_terms split_trunc
    read_word skip_to_word starts_word phrase_terms read_quoted read_sign skip_spaces fts_tokenize
    scan flush emit_token
parsed = refl
