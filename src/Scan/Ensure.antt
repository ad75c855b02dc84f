-- ===== src/Scan/Ensure.antt =====
-- ensure_scan_iter of plugin/ha_tidesdb.cc.
use tidesdb_mysql.Base.{
  ℕ, ◌≡◌, refl, inl, inr, Bool, true, not, ◌&&◌, none, some, if◌then◌else◌, Bool-cases,
  Option-cases,
}
use tidesdb_mysql.Codes.{Ha, is_success, ha_ok}
use tidesdb_mysql.Rows.{Store, is_ok, ha_of}
use tidesdb_mysql.Rows.Contents.{success_of_ok}
use tidesdb_mysql.Scan.{
  Iterator, ScanEnv, Scan, same_handle, open_iter, fail_scan, open_scan_iter, ensure_scan_iter,
}
use tidesdb_mysql.Scan.Group.{Keeps}

module _ {Row W I : Type 0} (it : Iterator I) (s : Store W) (e : ScanEnv Row W I) where
  -- There is an iterator; one that is new is of the family and the transaction of the scan.
  pub record Has (c d : Scan Row W I) : Type 0 where
    pub pos : I
    pub iter_is : d.iter ≡ some pos
    pub keeps : Keeps c d
    pub fresh :
        c.iter ≡ none
        → (c.scan_cf ≡ some d.iter_cf)
          × (c.scan_txn ≡ some d.iter_txn)
          × (d.iter_gen ≡ e.generation c.world)

  Has-self : (c : Scan Row W I) (i : I) → c.iter ≡ some i → Has c c
  Has-self c i h = record {
    pos = i;
    iter_is = h;
    keeps = record {
      same_world = refl;
      same_index = refl;
      same_comp = refl;
      same_pk = refl;
      same_spatial = refl;
    };
    fresh = λ n. absurd (cc);
  }

  -- What holds if it succeeded.
  abbrev HasIf : Scan Row W I → Ha × Scan Row W I → Type 0
  HasIf c r = is_ok r.0 ≡ true → Has c r.1

  open-Has :
      (c : Scan Row W I) (txn cf : ℕ)
      → c.scan_txn ≡ some txn
      → c.scan_cf ≡ some cf
      → HasIf c (
          let (rc, c') = open_iter it s e txn cf c in
          if is_success rc
          then (ha_ok, record c' { last_err = ha_ok })
          else fail_scan it s e (ha_of rc) c')
  unfolding open_iter fail_scan
  open-Has c txn cf ht hc = elim (Bool-cases (is_success (e.iter_new txn cf c.world).0)) [
    | inr bad ↦
        simp bad (λ ok. absurd (let done = success_of_ok (e.iter_new txn cf c.world).0 ok in cc))
    | inl good ↦ simp good (λ ok. record {
      pos = (e.iter_new txn cf c.world).1;
      iter_is = refl;
      keeps = record {
        same_world = refl;
        same_index = refl;
        same_comp = refl;
        same_pk = refl;
        same_spatial = refl;
      };
      fresh = λ n. (hc, ht, refl);
    })
  ]

  open_scan_iter-Has : (c : Scan Row W I) → HasIf c (open_scan_iter it s e c)
  unfolding open_scan_iter fail_scan is_ok
  open_scan_iter-Has c = elim (Option-cases c.scan_txn) [
    | inl nt ↦ simp (open_scan_iter, nt) (λ ok. absurd (cc))
    | inr (txn, ht) ↦ elim (Option-cases c.scan_cf) [
      | inl nc ↦ simp (open_scan_iter, ht, nc) (λ ok. absurd (cc))
      | inr (cf, hc) ↦ simp (open_scan_iter, ht, hc) (open-Has c txn cf ht hc)
    ]
  ]

  not_failed : (code : Ha) (b : Bool) → (not (is_ok code) && b) ≡ true → is_ok code ≡ true → ⊥
  not_failed code b h ok = let q = rw ok at h in cc

  -- Where it succeeds there is an iterator, and one that was not there before is of the family, of the
  -- transaction and of the generation of the scan.
  pub ensure_scan_iter-Has : (c : Scan Row W I) → HasIf c (ensure_scan_iter it s e c)
  unfolding ensure_scan_iter
  ensure_scan_iter-Has c = elim (Option-cases c.iter) [
    | inr (i, h) ↦ simp (ensure_scan_iter, h) (λ ok. Has-self c i h)
    | inl none_yet ↦
        elim (Bool-cases (
          not (is_ok c.last_err)
          && (same_handle c.last_err_cf c.scan_cf && same_handle c.last_err_txn c.scan_txn))) [
            | inl cached ↦
                simp (ensure_scan_iter, none_yet, cached)
                  (λ ok. absurd (not_failed c.last_err _ cached ok))
            | inr new ↦ simp (ensure_scan_iter, none_yet, new) (open_scan_iter-Has c)
          ]
  ]
