-- ===== src/Rows/DecodeExamples.antt =====
-- A row of two columns, encoded before a third one was added.
use tidesdb_mysql.Base.{
  ap, sym, drop, ℕ, ◌≡◌, inl, inr, refl, arith, true, false, Option, none, some, List, [], ◌∷◌, map,
  All, pos,
}
use tidesdb_mysql.Rows.{TableDef}
use tidesdb_mysql.Rows.Serialize.{plain_row, serialize_row}
use tidesdb_mysql.Rows.Deserialize.{
  Buffer, Slot, Layout, bytes_of, copy_to, is_real_null, column_of, deserialize_row,
  deserialize_stored,
}
use tidesdb_mysql.Rows.Addresses.{copy_to-outside, NullsApart}
use tidesdb_mysql.Rows.Slots.{Outside, Apart, AllApart, Zip, Fits, SameNull}
use tidesdb_mysql.Rows.DecodeBack.{Kept, Holds}
use tidesdb_mysql.Rows.AddedColumns.{Added}
use tidesdb_mysql.Rows.StoredRow.{Undoes, deserialize_stored-serialize_row}

-- Two bytes that are copied, with the first null bit.
unpack_none : List ℕ → Buffer → Buffer × Option (List ℕ)
unpack_none from b = (b, none)

abbrev number : Slot
number = record {
  offset = 1;
  pack_length = 2;
  nullable = true;
  null_byte = 0;
  null_bit = 0;
  copied = true;
  pack = λ b. 0 ∷ [];
  unpack = unpack_none;
}

-- One byte that is packed behind its length.
unpack_letter : List ℕ → Buffer → Buffer × Option (List ℕ)
unpack_letter [] b = (b, none)
unpack_letter (n ∷ []) b = (b, none)
unpack_letter (n ∷ x ∷ from) b = (copy_to 3 (x ∷ []) b, some from)

abbrev letter : Slot
letter = record {
  offset = 3;
  pack_length = 1;
  nullable = false;
  null_byte = 0;
  null_bit = 7;
  copied = false;
  pack = λ b. 1 ∷ b 3 ∷ [];
  unpack = unpack_letter;
}

-- The column that is added, with the second null bit.
abbrev flag : Slot
flag = record {
  offset = 4;
  pack_length = 1;
  nullable = true;
  null_byte = 0;
  null_bit = 1;
  copied = true;
  pack = λ b. 0 ∷ [];
  unpack = unpack_none;
}

abbrev stored_row : Buffer
stored_row = copy_to 0 (2 ∷ 10 ∷ 11 ∷ 12 ∷ []) (λ _. 0)

abbrev grown : Layout
grown = record {
  reclength = 5;
  null_bytes = 1;
  default_values = copy_to 0 (0 ∷ 0 ∷ 0 ∷ 0 ∷ 9 ∷ []) (λ _. 0);
  slots = number ∷ letter ∷ flag ∷ [];
}

abbrev narrow : TableDef Buffer
narrow = record {
  has_user_pk = false;
  pk_index = 0;
  pk_parts = [];
  keys = [];
  num_secondary_indexes = 0;
  null_bitmap = λ b. bytes_of b 0 1;
  fields = map column_of (number ∷ letter ∷ []);
  encrypt = none;
  ttl = λ _. pos 0;
}

abbrev first_byte : Slot → Buffer → ℕ
first_byte t b = b t.offset

number-Fits : Fits 1 number
unfolding unpack_none
number-Fits = record { behind = omega arith; null_in = λ _. omega arith; writes = λ h. absurd (cc) }

flag-Fits : Fits 1 flag
unfolding unpack_none
flag-Fits = record { behind = omega arith; null_in = λ _. omega arith; writes = λ h. absurd (cc) }

letter_writes :
    (from : List ℕ) (b : Buffer) (j : ℕ) → Outside letter j → (unpack_letter from b).0 j ≡ b j
unfolding unpack_letter Outside
letter_writes [] b j o = refl
letter_writes (n ∷ []) b j o = refl
letter_writes (n ∷ x ∷ from) b j o = copy_to-outside (x ∷ []) 3 b j o

letter-Fits : Fits 1 letter
letter-Fits = record {
  behind = omega arith;
  null_in = λ h. absurd (cc);
  writes = λ _. letter_writes;
}

number-letter : Apart number letter
unfolding Outside NullsApart
number-letter = record {
  ranges = λ k l. inr (omega arith);
  ranges' = λ k l. inl (omega arith);
  nulls = inr (λ e. omega arith);
}

number-flag : Apart number flag
unfolding Outside NullsApart
number-flag = record {
  ranges = λ k l. inr (omega arith);
  ranges' = λ k l. inl (omega arith);
  nulls = inr (λ e. omega arith);
}

letter-flag : Apart letter flag
unfolding Outside NullsApart
letter-flag = record {
  ranges = λ k l. inr (omega arith);
  ranges' = λ k l. inl (omega arith);
  nulls = inr (λ e. omega arith);
}

letter-Kept : Kept first_byte 1 letter letter
unfolding unpack_letter copy_to
letter-Kept = record {
  copied_is = refl;
  length_is = refl;
  nullable_is = refl;
  byte_is = refl;
  bit_is = refl;
  byte_stored = λ h. absurd (cc);
  some_length = omega arith;
  some_pack = λ _ row. omega arith;
  takes = λ _ row b rest. refl;
  gives = λ _ row b rest. refl;
  own = λ _ b c h. h 0 (omega arith);
}

number-Kept : Kept first_byte 1 number number
number-Kept = record {
  copied_is = refl;
  length_is = refl;
  nullable_is = refl;
  byte_is = refl;
  bit_is = refl;
  byte_stored = λ h. omega arith;
  some_length = omega arith;
  some_pack = λ h. absurd (cc);
  takes = λ h. absurd (cc);
  gives = λ h. absurd (cc);
  own = λ h. absurd (cc);
}

all_apart : AllApart grown.slots
unfolding AllApart
all_apart = ((number-letter, (number-flag, tt)), ((letter-flag, tt), (tt, tt)))

both-Kept : Zip (Kept first_byte 1) (number ∷ letter ∷ []) grown.slots
unfolding Zip
both-Kept = (number-Kept, (letter-Kept, tt))

abbrev decoded : Buffer
decoded = deserialize_row grown (plain_row narrow stored_row) (λ _. 77)

-- A cipher that puts a byte before its input.
abbrev guarded : TableDef Buffer
guarded = record narrow { encrypt = some (λ plain. some (99 ∷ plain)) }

abbrev stored_bytes : List ℕ
stored_bytes = 99 ∷ plain_row guarded stored_row

undone : Undoes guarded.encrypt (some (drop 1))
unfolding Undoes
undone plain bytes h = let e : 99 ∷ plain ≡ bytes = cc in ap (drop 1) (sym e)

serialized : serialize_row guarded stored_row ≡ some stored_bytes
unfolding serialize_row
serialized = refl

abbrev read_back : Buffer
read_back = deserialize_stored (some (drop 1)) grown stored_bytes (λ _. 77)

deserialize_stored-serialize_row_example :
    Zip (SameNull stored_row read_back) (number ∷ letter ∷ []) grown.slots
    × Zip (Holds first_byte stored_row read_back) (number ∷ letter ∷ []) grown.slots
    × All (Added grown.default_values read_back) (flag ∷ [])
deserialize_stored-serialize_row_example =
    deserialize_stored-serialize_row first_byte guarded (some (drop 1)) grown (number ∷ letter ∷ [])
      1 stored_row (λ _. 77) stored_bytes undone serialized refl refl (omega arith) (omega arith)
      (number-Fits, (letter-Fits, (flag-Fits, tt))) all_apart both-Kept

-- The record that the decoder gives for that row.
decoded_bytes : bytes_of decoded 0 5 ≡ 0 ∷ 10 ∷ 11 ∷ 12 ∷ 9 ∷ []
unfolding bytes_of deserialize_row plain_row tidesdb_mysql.Fts.le_bytes
    tidesdb_mysql.Rows.Serialize.pack_columns column_of is_real_null
    tidesdb_mysql.Rows.Deserialize.bit_at copy_to tidesdb_mysql.Rows.Deserialize.has_magic
    tidesdb_mysql.Rows.Deserialize.read_columns tidesdb_mysql.Fts.of_le
    tidesdb_mysql.Rows.Deserialize.unpack_slots tidesdb_mysql.Rows.Deserialize.fill_defaults
    tidesdb_mysql.Rows.Deserialize.fill_default tidesdb_mysql.Rows.Deserialize.set_null
    tidesdb_mysql.Rows.Deserialize.with_bit tidesdb_mysql.Rows.Deserialize.copy_bitmap
    tidesdb_mysql.Rows.Deserialize.unpack_slot unpack_letter
decoded_bytes = refl
