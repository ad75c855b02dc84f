-- ===== src/Rows/AutoIncrement.antt =====
-- Automatic keys and lifetimes of rows, plugin/ha_tidesdb.cc: the head of write_row, get_auto_increment,
-- reset_auto_increment and compute_row_ttl. An atomic operation on a counter is one function.
use tidesdb_mysql.Base.{
  ℕ, ◌+◌, ◌-◌, ◌%◌, ◌^◌, Bool, ◌&&◌, Option, none, some, if◌then◌else◌, ltb, ◌==◌, length, ℤ, pos,
  ltb_ℤ, to_u64,
}
use tidesdb_mysql.Codes.{Ha}
use tidesdb_mysql.Rows.{TableDef, Env, Store, Handler, is_ok}
use tidesdb_mysql.Rows.Engine.{ttl_none}
use tidesdb_mysql.Rows.Write.{write_row}

-- The counters of the share: the last value that was handed out, and the next hidden row id.
pub record Counters : Type 0 where
  pub auto_inc_val : ℕ
  pub next_row_id : ℕ

-- The first value and how many; the counter moves on by their number, whatever the increment is.
unfoldable pub get_auto_increment : ℕ → ℕ → ℕ → Counters → ℕ × ℕ × Counters
get_auto_increment offset increment nb_desired_values c = (
  (c.auto_inc_val + 1) % 2 ^ 64,
  nb_desired_values,
  record c { auto_inc_val = (c.auto_inc_val + nb_desired_values) % 2 ^ 64 },
)

abbrev pub hidden_pk_first_row_id : ℕ
hidden_pk_first_row_id = 1

unfoldable pub reset_auto_increment : ℕ → Counters
reset_auto_increment value = record {
  auto_inc_val = if ltb 0 value then value - 1 else 0;
  next_row_id = if ltb 0 value then value else hidden_pk_first_row_id;
}

-- The counter is kept ahead of a value that a row has, as an unsigned number.
unfoldable pub raise_counter : ℤ → Counters → Counters
raise_counter value c =
    if ltb c.auto_inc_val (to_u64 value) then record c { auto_inc_val = to_u64 value } else c

-- Whether the look-up of the primary key is left out: the field is 0 before the server gives it a value.
unfoldable pub is_pk_auto_generated : {Row : Type 0} → TableDef Row → ℤ → Bool
is_pk_auto_generated d before = to_u64 before == 0 && d.has_user_pk && length d.pk_parts == 1

-- `update` is the server's update_auto_increment: its result, the row with the value that the field has
-- then, that value, and the counters.
unfoldable pub write_new_row :
    {Row W : Type 0}
    → Store W
    → Env
    → TableDef Row
    → (Row → Counters → Ha × Row × ℤ × Counters)
    → ℤ
    → Bool
    → Row
    → Counters
    → Handler W
    → Ha × Handler W × Counters
write_new_row s e d update before replace row c h =
    let (code, row', value, c') = update row c in
    let written = write_row s e d (is_pk_auto_generated d before) replace row' h in
    if is_ok code then (written.0, written.1, raise_counter value c') else (code, h, c')

-- The lifetime: the column's value, then the session's, then the table's, whichever is positive first.
unfoldable pub compute_row_ttl : Option ℤ → ℕ → ℕ → ℤ
compute_row_ttl column session default =
    let own : ℤ = elim column [ none ↦ pos 0 | some n ↦ n ] in
    if ltb_ℤ (pos 0) own
    then own
    else if ltb 0 session
    then pos session
    else if ltb 0 default
    then pos default
    else ttl_none
