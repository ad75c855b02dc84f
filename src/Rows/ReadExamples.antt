-- ===== src/Rows/ReadExamples.antt =====
-- The automatic values of a key, and the columns of a row read from an index.
use tidesdb_mysql.Base.{
  ◌≡◌, refl, true, some, List, [], ◌∷◌, ◌++◌, All, ◌+◌, ◌<◌, ◌^◌, arith, take, drop,
}
use tidesdb_mysql.Rows.Key.{fit, sec_idx_key, pk_from_record}
use tidesdb_mysql.Rows.AutoIncrement.{Counters, get_auto_increment, raise_counter}
use tidesdb_mysql.Rows.Unique.{
  Use, reserve, explicit, used, all_used, taken, all_taken, Fits, get_auto_increment-fresh,
}
use tidesdb_mysql.Rows.KeyRead.{KeyField, string, decode_sort_key_part, try_keyread_from_index}
use tidesdb_mysql.Rows.Covering.{columns_of, try_keyread_from_index-sec_idx_key}
use tidesdb_mysql.Rows.Memory.{TwoBytes, byte_part, byte_index, pairs}

abbrev first_field : KeyField TwoBytes
first_field = record { part = byte_part 0 (take 1); type_ = string true 1 }

abbrev second_field : KeyField TwoBytes
second_field = record { part = byte_part 1 (drop 1); type_ = string true 1 }

reads_first : decode_sort_key_part (fit 1 (7 ∷ [])) 1 (string true 1) ≡ some (7 ∷ [])
unfolding decode_sort_key_part fit
reads_first = refl

reads_second : decode_sort_key_part (fit 1 (5 ∷ [])) 1 (string true 1) ≡ some (5 ∷ [])
unfolding decode_sort_key_part fit
reads_second = refl

try_keyread_from_index-sec_idx_key_example :
    try_keyread_from_index pairs true
      (λ nr. true)
      (second_field ∷ [])
      (first_field ∷ [])
      (sec_idx_key (λ left. []) pairs [] (byte_index (byte_part 1 (drop 1) ∷ [])) (7 ∷ 5 ∷ []))
    ≡ some (
      columns_of (second_field ∷ []) (7 ∷ 5 ∷ []) ++ columns_of (first_field ∷ []) (7 ∷ 5 ∷ []),
      pk_from_record (λ left. []) pairs [] (7 ∷ 5 ∷ []),
    )
try_keyread_from_index-sec_idx_key_example =
    try_keyread_from_index-sec_idx_key pairs (λ left. []) (byte_index (byte_part 1 (drop 1) ∷ []))
      (second_field ∷ []) (first_field ∷ []) (7 ∷ 5 ∷ []) [] refl refl refl (λ h. absurd (cc), tt)
      ((refl, refl, reads_second), tt) ((refl, refl, reads_first), tt)

-- Two values are reserved, a row has 9, and one more value is reserved.
abbrev uses : List Use
uses = reserve 1 2 ∷ explicit 9 ∷ reserve 1 1 ∷ []

abbrev no_values : Counters
no_values = record { auto_inc_val = 0; next_row_id = 1 }

uses-Fits : Fits uses no_values
unfolding used taken get_auto_increment raise_counter
uses-Fits = ((refl, omega arith), ((tt, omega arith), ((refl, omega arith), tt)))

room_left : (all_used uses no_values).auto_inc_val + 1 < 2 ^ 64
unfolding all_used used get_auto_increment raise_counter
room_left = omega arith

get_auto_increment-fresh_example :
    All (λ v. v < (get_auto_increment 1 1 1 (all_used uses no_values)).0) (all_taken uses no_values)
get_auto_increment-fresh_example = get_auto_increment-fresh uses no_values 1 uses-Fits room_left
