-- ===== src/Rows/Examples.antt =====
-- A row is inserted into an empty table, changed, and deleted.
use tidesdb_mysql.Base.{
  ◌⊎◌, ℕ, ◌≡◌, refl, Bool, true, false, none, some, List, [], ◌∷◌, ◌==◌, length, take,
}
use tidesdb_mysql.Rows.Serialize.{plain_row}
use tidesdb_mysql.Rows.Duplicate.{write_row_duplicate}
use tidesdb_mysql.Codes.{ha_found_dupp_key, tdb_rc_to_ha, is_success}
use tidesdb_mysql.RowLock.{bytes_eq}
use tidesdb_mysql.Rows.{Handler, is_ok, ha_of, and_then, call, call_ha}
use tidesdb_mysql.Rows.Key.{pk_from_record, make_comparable_key, part_key, fit, sec_idx_key}
use tidesdb_mysql.Rows.Serialize.{serialize_row}
use tidesdb_mysql.Rows.Entries.{entries, entries_of}
use tidesdb_mysql.Rows.Engine.{
  tidesdb_txn_delete_cf, put_all, delete_all, bulk_tail, mark_dirty, is_maintained, each_index,
  maintain,
}
use tidesdb_mysql.Rows.Write.{
  count_document, write_index, new_pk, take_row_id, lock_row, checks_pk, pk_dup_check, unique_found,
  unique_check, unique_checks, store_row, write_checked, write_encoded, write_row,
}
use tidesdb_mysql.Rows.Delete.{
  delete_entries, delete_index, track_deleted, delete_stored, delete_row,
}
use tidesdb_mysql.Rows.Update.{
  any_touched, pk_changed, old_index_key, new_index_key, update_entries, update_index, drop_old_row,
  update_stored, updated_pk, update_encoded, update_row,
}
use tidesdb_mysql.Rows.KeyLength.{length-make_comparable_key}
use tidesdb_mysql.Rows.Represents.{Table, Represents, set_row}
use tidesdb_mysql.Rows.WriteKeeps.{write_row-Represents}
use tidesdb_mysql.Rows.DeleteKeeps.{delete_row-Represents}
use tidesdb_mysql.Rows.UpdateRow.{update_row-Represents}
use tidesdb_mysql.Rows.Memory.{
  Session, memory, contents, memory-Contract, TwoBytes, byte_part, byte_index, pairs, session,
  fresh, no_rows, pairs-IsTable, no_rows-Represents,
}

abbrev first : TwoBytes
first = 7 ∷ 5 ∷ []

abbrev second : TwoBytes
second = 7 ∷ 6 ∷ []

abbrev one_row : Table TwoBytes
one_row = set_row no_rows (new_pk memory session pairs first fresh) (some first)

abbrev after_write : Handler Session
after_write = (write_row memory session pairs false false first fresh).1

write_succeeds : is_ok (write_row memory session pairs false false first fresh).0 ≡ true
unfolding write_row write_encoded new_pk take_row_id lock_row checks_pk pk_dup_check unique_checks
    unique_check unique_found store_row write_checked write_index count_document serialize_row
    mark_dirty maintain each_index is_maintained bulk_tail put_all entries entries_of and_then call
    call_ha ha_of is_ok tdb_rc_to_ha
write_succeeds = refl

write_row-Represents_example : Represents session pairs (contents after_write.world) one_row
write_row-Represents_example =
    write_row-Represents memory contents memory-Contract session pairs no_rows false false first
      fresh pairs-IsTable no_rows-Represents (λ h. refl) write_succeeds

length-make_comparable_key_example :
    length (make_comparable_key (λ left. []) (byte_part 0 (λ row. row) ∷ []) first) ≡ 1
length-make_comparable_key_example =
    length-make_comparable_key (λ left. []) (byte_part 0 (λ row. row) ∷ []) first
      (λ h. absurd (cc), tt)

after_write-Represents : Represents session pairs (contents after_write.world) one_row
after_write-Represents =
    write_row-Represents memory contents memory-Contract session pairs no_rows false false first
      fresh pairs-IsTable no_rows-Represents (λ h. refl) write_succeeds

stands_at_first : one_row after_write.current_pk ≡ some first
unfolding write_row write_encoded new_pk take_row_id lock_row checks_pk pk_dup_check unique_checks
    unique_check unique_found store_row write_checked write_index count_document serialize_row
    mark_dirty maintain each_index is_maintained bulk_tail put_all entries entries_of and_then call
    call_ha ha_of is_ok tdb_rc_to_ha pk_from_record make_comparable_key part_key fit set_row
    bytes_eq
stands_at_first = refl

deletes_succeed :
    (cf : ℕ) (k : List ℕ) (w : Session) → is_success (memory.single_delete cf k w).0 ≡ true
deletes_succeed cf k w = refl

delete_succeeds : is_ok (delete_row memory session pairs first after_write).0 ≡ true
unfolding write_row write_encoded new_pk take_row_id lock_row checks_pk pk_dup_check unique_checks
    unique_check unique_found store_row write_checked write_index count_document serialize_row
    mark_dirty maintain each_index is_maintained bulk_tail put_all entries entries_of and_then call
    call_ha ha_of is_ok tdb_rc_to_ha pk_from_record make_comparable_key part_key fit delete_row
    delete_stored track_deleted delete_index delete_entries delete_all tidesdb_txn_delete_cf
delete_succeeds = refl

delete_row-Represents_example :
    Represents session pairs
      (contents (delete_row memory session pairs first after_write).1.world)
      (set_row one_row after_write.current_pk none)
delete_row-Represents_example =
    delete_row-Represents memory contents memory-Contract session pairs deletes_succeed one_row
      first after_write pairs-IsTable after_write-Represents stands_at_first delete_succeeds

-- The second column is written.
abbrev writes_second : ℕ → Bool
writes_second nr = nr == 1

update_succeeds :
    is_ok (update_row memory session pairs writes_second first second after_write).0 ≡ true
unfolding write_row write_encoded new_pk take_row_id lock_row checks_pk pk_dup_check unique_checks
    unique_check unique_found store_row write_checked write_index count_document serialize_row
    mark_dirty maintain each_index is_maintained bulk_tail put_all entries entries_of and_then call
    call_ha ha_of is_ok tdb_rc_to_ha pk_from_record make_comparable_key part_key fit update_row
    update_encoded updated_pk update_stored drop_old_row pk_changed any_touched update_index
    update_entries old_index_key new_index_key bytes_eq tidesdb_txn_delete_cf sec_idx_key
update_succeeds = refl

keeps_key :
    pk_from_record session.stale pairs
      (updated_pk memory session pairs writes_second second after_write)
      second
    ≡ updated_pk memory session pairs writes_second second after_write
unfolding write_row write_encoded new_pk take_row_id lock_row checks_pk pk_dup_check unique_checks
    unique_check unique_found store_row write_checked write_index count_document serialize_row
    mark_dirty maintain each_index is_maintained bulk_tail put_all entries entries_of and_then call
    call_ha ha_of is_ok tdb_rc_to_ha pk_from_record make_comparable_key part_key fit updated_pk
    any_touched
keeps_key = refl

key_is_free :
    set_row one_row after_write.current_pk none
      (updated_pk memory session pairs writes_second second after_write)
    ≡ none
unfolding write_row write_encoded new_pk take_row_id lock_row checks_pk pk_dup_check unique_checks
    unique_check unique_found store_row write_checked write_index count_document serialize_row
    mark_dirty maintain each_index is_maintained bulk_tail put_all entries entries_of and_then call
    call_ha ha_of is_ok tdb_rc_to_ha pk_from_record make_comparable_key part_key fit updated_pk
    any_touched set_row bytes_eq
key_is_free = refl

same_first_entries :
    entries session pairs (byte_index (byte_part 0 (take 1) ∷ [])) first after_write.current_pk
    ≡ entries session pairs
        (byte_index (byte_part 0 (take 1) ∷ []))
        second
        (updated_pk memory session pairs writes_second second after_write)
unfolding write_row write_encoded new_pk take_row_id lock_row checks_pk pk_dup_check unique_checks
    unique_check unique_found store_row write_checked write_index count_document serialize_row
    mark_dirty maintain each_index is_maintained bulk_tail put_all entries entries_of and_then call
    call_ha ha_of is_ok tdb_rc_to_ha pk_from_record make_comparable_key part_key fit updated_pk
    any_touched sec_idx_key
same_first_entries = refl

update_row-Represents_example :
    Represents session pairs
      (contents (update_row memory session pairs writes_second first second after_write).1.world)
      (set_row
        (set_row one_row after_write.current_pk none)
        (updated_pk memory session pairs writes_second second after_write)
        (some second))
unfolding any_touched
update_row-Represents_example =
    update_row-Represents memory contents memory-Contract session pairs deletes_succeed one_row
      writes_second first second after_write pairs-IsTable after_write-Represents stands_at_first
      keeps_key key_is_free
      (
        (λ stays untouched. same_first_entries, λ kind. absurd (cc)),
        ((λ stays untouched. absurd (cc), λ kind. absurd (cc)), tt),
      )
      update_succeeds

encodes_first : serialize_row pairs first ≡ some (plain_row pairs first)
unfolding serialize_row
encodes_first = refl

taken_key : one_row (new_pk memory session pairs first after_write) ≡ some first
unfolding write_row write_encoded new_pk take_row_id lock_row checks_pk pk_dup_check unique_checks
    unique_check unique_found store_row write_checked write_index count_document serialize_row
    mark_dirty maintain each_index is_maintained bulk_tail put_all entries entries_of and_then call
    call_ha ha_of is_ok tdb_rc_to_ha pk_from_record make_comparable_key part_key fit set_row
    bytes_eq
taken_key = refl

checks_key : checks_pk memory session pairs false false ≡ true
unfolding checks_pk
checks_key = refl

write_row_duplicate_example :
    (let x = write_row memory session pairs false false first after_write in
      (contents x.1.world ≡ contents after_write.world)
      × (((x.0 ≡ ha_found_dupp_key)
            × (x.1.dup_key ≡ some 0)
            × (x.1.dup_ref ≡ new_pk memory session pairs first after_write))
          ⊎ ((is_success
                  (memory.get 0 (1 ∷ new_pk memory session pairs first after_write) x.1.world).0
                ≡ false)
              × (x.0
                  ≡ ha_of
                      (memory.get 0
                        (1 ∷ new_pk memory session pairs first after_write)
                        x.1.world).0))))
write_row_duplicate_example =
    write_row_duplicate memory contents memory-Contract session pairs (λ w. refl) (λ pk w. refl)
      one_row false false first first (plain_row pairs first) after_write after_write-Represents
      checks_key encodes_first taken_key
