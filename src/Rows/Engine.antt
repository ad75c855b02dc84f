-- ===== src/Rows/Engine.antt =====
-- How the operations on rows use the engine: plugin/ha_tidesdb.cc.
use tidesdb_mysql.Base.{
  ℕ, ◌+◌, ◌%◌, ◌^◌, Bool, true, not, ◌&&◌, ◌||◌, List, [], ◌∷◌, if◌then◌else◌, ltb, leb, ◌==◌, ℤ,
  negsuc,
}
use tidesdb_mysql.Codes.{Rc, is_success, ha_ok}
use tidesdb_mysql.Fts.{update_meta}
use tidesdb_mysql.Rows.{Index, TableDef, Env, Store, Handler, Step, and_then, call}
use tidesdb_mysql.Rows.Entries.{Entry}

abbrev pub bulk_insert_batch_ops : ℕ
bulk_insert_batch_ops = 500

-- TIDESDB_TTL_NONE: no expiration.
abbrev pub ttl_none : ℤ
ttl_none = negsuc 0

module _ {W : Type 0} (s : Store W) where
  unfoldable pub tidesdb_txn_delete_cf : Bool → ℕ → List ℕ → W → Rc × W
  tidesdb_txn_delete_cf use_single_delete cf key w =
      if use_single_delete then s.single_delete cf key w else s.delete cf key w

  -- One put after the other; the first error ends it.
  unfoldable pub put_all : ℕ → ℤ → List Entry → Step W
  put_all cf ttl [] h = (ha_ok, h)
  put_all cf ttl ((key, value) ∷ es) h =
      and_then (call (s.put cf key value ttl) h) (put_all cf ttl es)

  -- Deletes whose result codes are checked, and deletes whose result codes are not.
  unfoldable pub delete_all : ℕ → List Entry → Step W
  delete_all cf [] h = (ha_ok, h)
  delete_all cf ((key, value) ∷ es) h =
      and_then (call (tidesdb_txn_delete_cf true cf key) h) (delete_all cf es)

  unfoldable pub delete_all_unchecked : ℕ → List Entry → Step W
  delete_all_unchecked cf [] h = (ha_ok, h)
  delete_all_unchecked cf ((key, value) ∷ es) h =
      delete_all_unchecked cf es (call (tidesdb_txn_delete_cf true cf key) h).1

  -- fts_update_meta on the family of the rows; its result is ignored.
  unfoldable pub fts_update_meta : ℕ → ℤ → ℤ → Step W
  fts_update_meta keynr docs words h = (
    ha_ok,
    record h {
      world =
          (update_meta (λ key w. ((s.get 0 key w).0, (s.get 0 key w).1, w))
            (λ key value w. s.put 0 key value ttl_none w) keynr docs words h.world).1;
    },
  )

  -- The middle of maybe_bulk_commit, after the commit.
  unfoldable pub bulk_reset : Step W
  bulk_reset h =
      if is_success (s.reset h.world).0
      then (ha_ok, record h { world = (s.reset h.world).1 })
      else call (λ w. s.begin_again (s.free (s.reset w).1)) h

  unfoldable pub maybe_bulk_commit : Env → Step W
  maybe_bulk_commit e h =
      if e.has_trx
      then and_then (and_then (call s.commit h) bulk_reset)
          (λ g. (ha_ok, record g { txn_generation = (g.txn_generation + 1) % 2 ^ 64 }))
      else (ha_ok, h)

  -- The end of the three operations in bulk mode, where an operation counts as `ops` changes.
  unfoldable pub bulk_tail : Env → Bool → ℕ → Step W
  bulk_tail e in_bulk ops h =
      if in_bulk
      then (let counted : Handler W = record h { bulk_insert_ops = h.bulk_insert_ops + ops } in
          if leb bulk_insert_batch_ops (h.bulk_insert_ops + ops)
          then and_then (maybe_bulk_commit e counted)
              (λ g. (ha_ok, record g { bulk_insert_ops = 0 }))
          else (ha_ok, counted))
      else (ha_ok, h)

  -- The flags that say that the transaction has changes.
  unfoldable pub mark_dirty : Env → Handler W → Handler W
  mark_dirty e h = record h { dirty = true; trx_dirty = h.trx_dirty || e.has_trx }

-- Whether the loop over the keys takes the key number `i`: it is not the primary key, and has a family.
unfoldable pub is_maintained : {Row : Type 0} → TableDef Row → ℕ → Index Row → Bool
is_maintained d i ix = not (d.has_user_pk && i == d.pk_index) && ix.has_cf

-- `for (i = 0; i < num_keys; i++)`, from the key number `i` on.
unfoldable pub each_index :
    {Row W : Type 0} → TableDef Row → (ℕ → Index Row → Step W) → ℕ → List (Index Row) → Step W
each_index d step i [] h = (ha_ok, h)
each_index d step i (ix ∷ keys) h =
    if is_maintained d i ix
    then and_then (step i ix h) (each_index d step (i + 1) keys)
    else each_index d step (i + 1) keys h

unfoldable pub maintain : {Row W : Type 0} → TableDef Row → (ℕ → Index Row → Step W) → Step W
maintain d step h =
    if ltb 0 d.num_secondary_indexes then each_index d step 0 d.keys h else (ha_ok, h)
