-- ===== src/Rows/Quiet.antt =====
-- The steps of the operations on rows that leave what is read of rows and indexes as it is.
use tidesdb_mysql.Base.{
  ℕ, suc, ◌+◌, ◌≡◌, ◌∙◌, refl, Bool, true, List, [], ◌∷◌, ltb, leb, arith, if_cases, ℤ,
}
use tidesdb_mysql.Codes.{is_success}
use tidesdb_mysql.Fts.{meta_key}
use tidesdb_mysql.Fts.Codec.{update_meta_writes, meta_key-ne}
use tidesdb_mysql.Rows.{Index, TableDef, Env, Store, Handler, Step, call}
use tidesdb_mysql.Rows.Engine.{
  fts_update_meta, bulk_reset, maybe_bulk_commit, bulk_tail, bulk_insert_batch_ops, each_index,
  maintain, is_maintained, ttl_none,
}
use tidesdb_mysql.Rows.Contents.{Contract, Ends, and_then-Ends, success_of_ok}
use tidesdb_mysql.Rows.Represents.{Contents}

module _ {W : Type 0} (s : Store W) (at : W → Contents) (law : Contract s at) where
  abbrev pub Same : Handler W → Handler W → Type 0
  Same h g = at g.world ≡ at h.world

  bulk_reset-Same : (h : Handler W) → law.settled h.world ≡ true → Ends (Same h) (bulk_reset s h)
  unfolding bulk_reset call
  bulk_reset-Same h calm =
      if_cases (Ends (Same h)) (is_success (s.reset h.world).0) _ _
        (λ good done. law.reset_keeps h.world calm)
        (λ bad done.
          law.begin_keeps (s.reset h.world).1 (law.reset_settles h.world calm)
            (success_of_ok _ done)
          ∙ law.reset_keeps h.world calm)

  maybe_bulk_commit-Same : (e : Env) (h : Handler W) → Ends (Same h) (maybe_bulk_commit s e h)
  unfolding maybe_bulk_commit call
  maybe_bulk_commit-Same e h =
      if_cases (Ends (Same h)) e.has_trx _ _
        (λ trx.
          and_then-Ends (Same h) (Same h) _ _
            (and_then-Ends (Same h) (λ g. Same h g × (law.settled g.world ≡ true)) _ _
              (λ done.
                let good = success_of_ok _ done in
                (law.commit_keeps h.world good, law.commit_settles h.world good))
              (λ g (p, calm) done. bulk_reset-Same g calm done ∙ p))
            (λ g p done. p))
        (λ idle done. refl)

  pub bulk_tail-Same :
      (e : Env) (in_bulk : Bool) (ops : ℕ) (h : Handler W)
      → Ends (Same h) (bulk_tail s e in_bulk ops h)
  unfolding bulk_tail
  bulk_tail-Same e in_bulk ops h =
      if_cases (Ends (Same h)) in_bulk _ _
        (λ bulk.
          if_cases (Ends (Same h)) (leb bulk_insert_batch_ops (h.bulk_insert_ops + ops)) _ _
            (λ full.
              and_then-Ends (Same h) (Same h) _ _ (maybe_bulk_commit-Same e _) (λ g p done. p))
            (λ room done. refl))
        (λ single done. refl)

  -- The totals of a full-text index stand in the family of the rows, under keys of their own.
  pub fts_update_meta-rows :
      (i : ℕ) (docs words : ℤ) (h : Handler W) (pk : List ℕ)
      → at (fts_update_meta s i docs words h).1.world 0 (1 ∷ pk) ≡ at h.world 0 (1 ∷ pk)
  unfolding fts_update_meta
  fts_update_meta-rows i docs words h pk =
      let (v, eq) =
        update_meta_writes (λ k w. ((s.get 0 k w).0, (s.get 0 k w).1, w))
          (λ k u w. s.put 0 k u ttl_none w) (λ k w. refl) i docs words h.world in
      rw eq (law.put_frame 0 (meta_key i) v ttl_none h.world 0 (1 ∷ pk) (meta_key-ne i pk))

  pub fts_update_meta-indexes :
      (i : ℕ) (docs words : ℤ) (h : Handler W) (j : ℕ) (k : List ℕ)
      → at (fts_update_meta s i docs words h).1.world (suc j) k ≡ at h.world (suc j) k
  unfolding fts_update_meta
  fts_update_meta-indexes i docs words h j k =
      let (v, eq) =
        update_meta_writes (λ k w. ((s.get 0 k w).0, (s.get 0 k w).1, w))
          (λ k u w. s.put 0 k u ttl_none w) (λ k w. refl) i docs words h.world in
      rw eq (law.put_frame 0 (meta_key i) v ttl_none h.world (suc j) k (ground arith))

  module _ {Row : Type 0} (d : TableDef Row) (step : ℕ → Index Row → Step W)
      (same : (i : ℕ) (ix : Index Row) (h : Handler W) → Ends (Same h) (step i ix h)) where
    each_index-Same :
        (i : ℕ) (keys : List (Index Row)) (h : Handler W)
        → Ends (Same h) (each_index d step i keys h)
    unfolding each_index
    each_index-Same i [] h = λ done. refl
    each_index-Same i (ix ∷ keys) h =
        if_cases (Ends (Same h)) (is_maintained d i ix) _ _
          (λ live.
            and_then-Ends (Same h) (Same h) _ _ (same i ix h)
              (λ g p done. each_index-Same (i + 1) keys g done ∙ p))
          (λ dead. each_index-Same (i + 1) keys h)

    pub maintain-Same : (h : Handler W) → Ends (Same h) (maintain d step h)
    unfolding maintain
    maintain-Same h =
        if_cases (Ends (Same h)) (ltb 0 d.num_secondary_indexes) _ _
          (λ more. each_index-Same 0 d.keys h) (λ few done. refl)
