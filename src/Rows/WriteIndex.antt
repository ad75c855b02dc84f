-- ===== src/Rows/WriteIndex.antt =====
-- What write_row does to an index.
use tidesdb_mysql.Base.{
  ℕ, suc, ◌≡◌, ◌∙◌, refl, sym, ap, true, false, ◌&&◌, none, some, List, ◌∷◌, ltb, ◌==◌, arith, All,
  if_cases,
}
use tidesdb_mysql.Codes.{Ha}
use tidesdb_mysql.Rows.{Kind, Index, TableDef, Env, Store, Handler, is_ok, regular, fulltext, rtree}
use tidesdb_mysql.Rows.Key.{pk_from_record}
use tidesdb_mysql.Rows.Entries.{entries}
use tidesdb_mysql.Rows.Engine.{put_all}
use tidesdb_mysql.Rows.Write.{count_document, write_index}
use tidesdb_mysql.Rows.KeyLength.{IsPart}
use tidesdb_mysql.Rows.Owner.{entries-Owned}
use tidesdb_mysql.Rows.Contents.{Contract, Ends, and_then-Ends, over, put_all-over, put_all_frame}
use tidesdb_mysql.Rows.Represents.{Table, Contents, set_row, Goes, view-insert}
use tidesdb_mysql.Rows.Quiet.{fts_update_meta-rows, fts_update_meta-indexes}

pub suc_ne : (i j : ℕ) → (i == j) ≡ false → (suc i == suc j) ≡ false
suc_ne i j h = ground arith

module _ {Row W : Type 0} (s : Store W) (at : W → Contents) (law : Contract s at) (e : Env)
    (d : TableDef Row) where
  -- The counters change neither rows nor indexes.
  count_document-indexes :
      (kind : Kind) (ix : Index Row) (row : Row) (i : ℕ) (h : Handler W) (j : ℕ) (k : List ℕ)
      → at (count_document s e d kind ix row i h).1.world (suc j) k ≡ at h.world (suc j) k
  unfolding count_document
  count_document-indexes regular ix row i h j k = refl
  count_document-indexes rtree ix row i h j k = refl
  count_document-indexes fulltext ix row i h j k =
      if_cases (λ (x : Ha × Handler W). at x.1.world (suc j) k ≡ at h.world (suc j) k)
        (h.in_bulk_insert && ltb i e.max_key) _ _ (λ bulk. refl)
        (λ single. fts_update_meta-indexes s at law i _ _ h j k)

  count_document-rows :
      (kind : Kind) (ix : Index Row) (row : Row) (i : ℕ) (h : Handler W) (pk : List ℕ)
      → at (count_document s e d kind ix row i h).1.world 0 (1 ∷ pk) ≡ at h.world 0 (1 ∷ pk)
  unfolding count_document
  count_document-rows regular ix row i h pk = refl
  count_document-rows rtree ix row i h pk = refl
  count_document-rows fulltext ix row i h pk =
      if_cases (λ (x : Ha × Handler W). at x.1.world 0 (1 ∷ pk) ≡ at h.world 0 (1 ∷ pk))
        (h.in_bulk_insert && ltb i e.max_key) _ _ (λ bulk. refl)
        (λ single. fts_update_meta-rows s at law i _ _ h pk)

  -- Writing the entries of a row adds it to the index.
  pub write_index-Goes :
      (t : Table Row) (row : Row) (pk : List ℕ) (i : ℕ) (ix : Index Row) (h : Handler W)
      → t pk ≡ none
      → pk_from_record e.stale d pk row ≡ pk
      → All IsPart ix.parts
      → Ends (Goes e d at t (set_row t pk (some row)) i ix h) (write_index s e d row pk i ix h)
  unfolding write_index
  write_index-Goes t row pk i ix h free own parts =
      let es = entries e d ix row pk in
      let ttl = d.ttl row in
      and_then-Ends (Goes e d at t (set_row t pk (some row)) i ix h)
        (λ g. g ≡ (put_all s (suc i) ttl es h).1 × (is_ok (put_all s (suc i) ttl es h).0 ≡ true)) _
        _ (λ done. (refl, done))
        (λ g (eq, put) done. (
          λ j k other.
              count_document-indexes ix.kind ix row i g j k
              ∙ ap (λ (x : Handler W). at x.world (suc j) k) eq
              ∙ put_all_frame s at law (suc i) ttl es h (suc j) k (suc_ne i j other) put,
          λ q.
              count_document-rows ix.kind ix row i g q
              ∙ ap (λ (x : Handler W). at x.world 0 (1 ∷ q)) eq
              ∙ put_all_frame s at law (suc i) ttl es h 0 (1 ∷ q) (ground arith) put,
          λ shows k.
              count_document-indexes ix.kind ix row i g i k
              ∙ ap (λ (x : Handler W). at x.world (suc i) k) eq
              ∙ put_all-over s at law (suc i) ttl es h k put
              ∙ ap (over es k) (shows k)
              ∙ sym (view-insert e d ix t pk row (entries-Owned e d ix row pk parts own) k free),
        ))
