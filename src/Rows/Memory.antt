-- ===== src/Rows/Memory.antt =====
-- An engine in memory that meets the contract, and a table of two columns, for the examples.
use tidesdb_mysql.Base.{
  ℕ, ◌≡◌, refl, Bool, true, false, not, Bool-cases, inl, inr, ◌&&◌, Option, none, some, List, [],
  ◌∷◌, if◌then◌else◌, ◌==◌, take, drop, pos, ==_refl,
}
use tidesdb_mysql.Codes.{
  Rc, tdb_success, err_not_found, err_conflict, is_success, ha_ok, is_not_found,
}
use tidesdb_mysql.RowLock.{bytes_eq}
use tidesdb_mysql.RowLock.Lookup.{bytes_eq_refl}
use tidesdb_mysql.Rows.{Part, Index, TableDef, Env, Store, Handler, regular}
use tidesdb_mysql.Rows.Engine.{tidesdb_txn_delete_cf}
use tidesdb_mysql.Rows.Contents.{Contract}
use tidesdb_mysql.Rows.Represents.{Table, Contents, Represents, IsTable, view, entry_of, stored}

abbrev pub put_at : ℕ → List ℕ → Option (List ℕ) → Contents → Contents
put_at cf k o w cf' k' = if cf == cf' && bytes_eq k k' then o else w cf' k'

abbrev pub found : Option (List ℕ) → Rc × Option (List ℕ)
found none = (err_not_found, none)
found (some v) = (tdb_success, some v)

-- What is committed, what the transaction reads while it has changes, and whether a commit will fail.
pub record Session : Type 0 where
  pub committed : Contents
  pub pending : Contents
  pub buffered : Bool
  pub conflict : Bool

abbrev pub contents : Session → Contents
contents w = if w.buffered then w.pending else w.committed

abbrev pub change : ℕ → List ℕ → Option (List ℕ) → Session → Session
change cf k o w = record w { pending = put_at cf k o (contents w); buffered = true }

abbrev pub discarded : Session → Session
discarded w = record w { buffered = false }

-- A commit that fails, a reset and a free discard what is buffered.
abbrev pub memory : Store Session
memory = record {
  get = λ cf k w. found (contents w cf k);
  put = λ cf k v ttl w. (tdb_success, change cf k (some v) w);
  delete = λ cf k w. (tdb_success, change cf k none w);
  single_delete = λ cf k w. (tdb_success, change cf k none w);
  seek = λ cf k w. (tdb_success, none);
  commit = λ w.
      if w.conflict
      then (err_conflict, discarded w)
      else (tdb_success, record w { committed = contents w; buffered = false });
  reset = λ w. (tdb_success, discarded w);
  free = λ w. discarded w;
  begin_again = λ w. (tdb_success, w);
  ensure_stmt_txn = λ w. (ha_ok, w);
  row_lock_acquire = λ pk w. (ha_ok, w);
}

put_at_self : (cf : ℕ) (k : List ℕ) (o : Option (List ℕ)) (w : Contents) → put_at cf k o w cf k ≡ o
put_at_self cf k o w = rw (==_refl cf, bytes_eq_refl k) refl

put_at_other :
    (cf : ℕ) (k : List ℕ) (o : Option (List ℕ)) (w : Contents) (cf' : ℕ) (k' : List ℕ)
    → (cf == cf' && bytes_eq k k') ≡ false
    → put_at cf k o w cf' k' ≡ w cf' k'
put_at_other cf k o w cf' k' other = rw other refl

not_found : (o : Option (List ℕ)) → is_not_found (found o).0 ≡ true → o ≡ none
not_found none h = refl
not_found (some v) h = absurd (cc)

deletes :
    (b : Bool) (cf : ℕ) (k : List ℕ) (w : Session)
    → (tidesdb_txn_delete_cf memory b cf k w).1 ≡ change cf k none w
unfolding tidesdb_txn_delete_cf
deletes true cf k w = refl
deletes false cf k w = refl

calm_view : (w : Session) → not w.buffered ≡ true → w.committed ≡ contents w
calm_view w h = elim (Bool-cases w.buffered) [
  | inl busy ↦ absurd (let q = rw busy at h in cc)
  | inr calm ↦ simp calm
]

commit_keeps_view :
    (w : Session)
    → is_success (memory.commit w).0 ≡ true
    → contents (memory.commit w).1 ≡ contents w
commit_keeps_view w h = elim (Bool-cases w.conflict) [
  | inl clash ↦ absurd (let q = simp clash at h in cc)
  | inr free ↦ simp free
]

commit_settles_view :
    (w : Session) → is_success (memory.commit w).0 ≡ true → not (memory.commit w).1.buffered ≡ true
commit_settles_view w h = elim (Bool-cases w.conflict) [
  | inl clash ↦ simp clash
  | inr free ↦ simp free
]

pub memory-Contract : Contract memory contents
memory-Contract = record {
  get_missing = λ cf k w h. not_found (contents w cf k) h;
  get_found = λ cf k v w h. rw h refl;
  put_done = λ cf k v ttl w h. put_at_self cf k (some v) (contents w);
  put_frame = λ cf k v ttl w cf' k' h. put_at_other cf k (some v) (contents w) cf' k' h;
  delete_done = λ b cf k w h. rw (deletes b cf k w) (put_at_self cf k none (contents w));
  delete_frame =
      λ b cf k w cf' k' h. rw (deletes b cf k w) (put_at_other cf k none (contents w) cf' k' h);
  settled = λ w. not w.buffered;
  commit_keeps = commit_keeps_view;
  commit_settles = commit_settles_view;
  reset_keeps = calm_view;
  reset_settles = λ w h. refl;
  begin_keeps = λ w h good. calm_view w h;
  ensure_keeps = λ w h. refl;
  lock_keeps = λ pk w h. refl;
}

-- A row is its bytes: the first one is the primary key, and the second has an index.
abbrev pub TwoBytes : Type 0
TwoBytes = List ℕ

abbrev pub byte_part : ℕ → (TwoBytes → List ℕ) → Part TwoBytes
byte_part nr read = record {
  length = 1;
  field_nr = nr;
  nullable = false;
  is_null = λ row. false;
  binary_varstring = false;
  field_length = 1;
  value = read;
  sort_key = read;
}

abbrev pub byte_index : List (Part TwoBytes) → Index TwoBytes
byte_index parts = record {
  kind = regular;
  has_cf = true;
  nosame = false;
  parts = parts;
  charset = record { mb_len = λ text. 0; is_alnum = λ c. true; to_lower = λ word. word };
  columns = λ row. [];
  geometry = λ row. [];
}

abbrev pub pairs : TableDef TwoBytes
pairs = record {
  has_user_pk = true;
  pk_index = 0;
  pk_parts = byte_part 0 (take 1) ∷ [];
  keys = byte_index (byte_part 0 (take 1) ∷ []) ∷ byte_index (byte_part 1 (drop 1) ∷ []) ∷ [];
  num_secondary_indexes = 1;
  null_bitmap = λ row. 0 ∷ [];
  fields =
      record { is_null = λ row. false; copied = true; raw = λ row. row; packed = λ row. [] } ∷ [];
  encrypt = none;
  ttl = λ row. pos 0;
}

abbrev pub session : Env
session = record {
  skip_unique_check = false;
  single_delete_primary = false;
  pessimistic_locking = true;
  has_trx = true;
  compact_after_range_delete_min_rows = 0;
  max_key = 64;
  ref_length = 1;
  data_key_buf_len = 64;
  settings = record {
    blends = λ c. false;
    is_stopword = λ word. false;
    min_word_len = 3;
    max_word_len = 84;
  };
  half_sum = λ x y. x;
  stale = λ left. [];
}

abbrev pub fresh : Handler Session
fresh = record {
  world = record {
    committed = λ cf k. none;
    pending = λ cf k. none;
    buffered = false;
    conflict = false;
  };
  current_pk = [];
  next_row_id = 1;
  dup_key = none;
  dup_ref = [];
  dirty = false;
  trx_dirty = false;
  txn_generation = 0;
  in_bulk_insert = false;
  in_bulk_update = false;
  in_bulk_delete = false;
  bulk_insert_ops = 0;
  doc_delta = λ i. pos 0;
  word_delta = λ i. pos 0;
  bulk_delete_rows = 0;
  bulk_delete_min_pk = [];
  bulk_delete_max_pk = [];
}

abbrev pub no_rows : Table TwoBytes
no_rows pk = none

pub pairs-IsTable : IsTable session pairs
pairs-IsTable = record {
  parts = ((λ h. absurd (cc), tt), ((λ h. absurd (cc), tt), tt));
  counted = λ h. absurd (cc);
}

pub no_rows-Represents : Represents session pairs (λ cf k. none) no_rows
unfolding view entry_of stored
no_rows-Represents = record {
  rows = λ pk. refl;
  indexed = (λ m k. refl, (λ m k. refl, tt));
  whole = λ pk row h. absurd (cc);
  named = λ pk row h. absurd (cc);
}
