-- ===== src/Recovery/Decide.antt =====
-- The decisions of the server in `tidesdb_resolve_by_xid` of plugin/ha_tidesdb.cc.
use tidesdb_mysql.Base.{
  ℕ, zero, suc, ◌+◌, ◌-◌, ◌<◌, ◌≡◌, ◌≢◌, ◌∙◌, refl, true, none, some, List, [], ◌∷◌, arith, length,
  drop, take_nil, drop_nil, get_elem?, Option-cases, Bool-cases, inl, inr, if_cases, All, IsByte,
}
use tidesdb_mysql.Codes.{Rc, is_success}
use tidesdb_mysql.Xid.{Xid, deserialize}
use tidesdb_mysql.Xid.Canonical.{serialize-deserialize, serialize-take}
use tidesdb_mysql.RowLock.{bytes_eq}
use tidesdb_mysql.RowLock.Lookup.{bytes_eq→eq, bytes_eq_refl}
use tidesdb_mysql.Txn.Resolve.{encoded}
use tidesdb_mysql.Recovery.{
  Entry, InDoubt, handed, find_entry, erase, resolve_entry, resolve_by_xid, XaStatus, xa_ok,
  xaer_nota,
}

module _ {H : Type 0} where
  find_entry_sound :
      (key : List ℕ) (es : List (Entry H)) (i : ℕ) (h : H)
      → find_entry key es ≡ some (i, h)
      → get_elem? es i ≡ some (record { xid = key; txn = h })
  unfolding find_entry
  find_entry_sound key [] i h e = absurd (cc)
  find_entry_sound key (en ∷ es) i h e = elim (Bool-cases (bytes_eq en.xid key)) [
    | inl hit ↦ ground (arith, bytes_eq→eq en.xid key hit)
    | inr miss ↦ elim (Option-cases (find_entry key es)) [
      | inl gone ↦ absurd (ground arith)
      | inr ((j, g), found) ↦ ground (arith, find_entry_sound key es j h)
    ]
  ]

  find_entry_complete :
      (es : List (Entry H)) (j : ℕ) (en : Entry H)
      → get_elem? es j ≡ some en
      → (i : ℕ) × (h : H) × (find_entry en.xid es ≡ some (i, h))
  unfolding find_entry
  find_entry_complete [] j en at = absurd (ground arith)
  find_entry_complete (e ∷ es) zero en at =
      let same : e ≡ en = ground arith in (0, e.txn, ground (arith, same, bytes_eq_refl en.xid))
  find_entry_complete (e ∷ es) (suc j) en at = elim (Bool-cases (bytes_eq e.xid en.xid)) [
    | inl hit ↦ (0, e.txn, ground arith)
    | inr miss ↦
        let (i, h, found) = find_entry_complete es j en (ground arith) in (suc i, h, ground arith)
  ]

  drop-erase : (es : List (Entry H)) (i c : ℕ) → i < c → drop (c - 1) (erase i es) ≡ drop c es
  drop-erase es i zero l = absurd (omega arith)
  drop-erase [] i (suc c) l = rw (take_nil i, drop_nil (suc c - 1)) refl
  drop-erase (e ∷ es) zero (suc c) l = ground arith
  drop-erase (e ∷ es) (suc i) (suc zero) l = absurd (omega arith)
  drop-erase (e ∷ es) (suc i) (suc (suc c)) l =
      let here : suc (suc c) - 1 ≡ suc c = omega arith in
      let there : suc c - 1 ≡ c = omega arith in
      rw here (rw there at (drop-erase es i (suc c) (omega arith)))

  length-erase :
      (es : List (Entry H)) (i : ℕ) (en : Entry H)
      → get_elem? es i ≡ some en
      → length (erase i es) + 1 ≡ length es
  length-erase [] i en at = absurd (ground arith)
  length-erase (e ∷ es) zero en at = ground arith
  length-erase (e ∷ es) (suc i) en at = ground (arith, length-erase es i en)

-- What a decision does. When it is reported as done, the engine has done it for the entry at `i`, the
-- first one with the id; that entry and no other is dropped, and if it had been handed out before, what
-- is still to be handed out is the same as before. When it is not, every entry stays.
pub record Resolved {W H : Type 0} (fn : H → W → Rc × W) (key : List ℕ) (s : InDoubt H) (w : W)
    (x : XaStatus × InDoubt H × W) : Type 0 where
  pub decided :
      x.0 ≡ xa_ok
      → (i : ℕ) × (h : H) × (get_elem? s.entries i ≡ some (record { xid = key; txn = h }))
        × (is_success (fn h w).0 ≡ true)
        × (x.1.entries ≡ erase i s.entries)
        × (length x.1.entries + 1 ≡ length s.entries)
        × (i < s.cursor → drop x.1.cursor x.1.entries ≡ drop s.cursor s.entries)
  pub kept : x.0 ≢ xa_ok → x.1 ≡ s

module _ {W H : Type 0} (fn : H → W → Rc × W) (free : H → W → W) where
  resolve_entry-Resolved :
      (key : List ℕ) (i : ℕ) (h : H) (s : InDoubt H) (w : W)
      → get_elem? s.entries i ≡ some (record { xid = key; txn = h })
      → Resolved fn key s w (resolve_entry fn free i h s w)
  unfolding resolve_entry
  resolve_entry-Resolved key i h s w at =
      if_cases (Resolved fn key s w) (is_success (fn h w).0) _ _
        (λ good. record {
          decided = λ q. (
            i,
            h,
            at,
            good,
            refl,
            length-erase s.entries i _ at,
            λ l. ground (arith, drop-erase s.entries i s.cursor l),
          );
          kept = λ q. absurd (q refl);
        })
        (λ bad. record { decided = λ q. absurd (cc); kept = λ q. refl })

  unknown :
      (x : Xid) (key : List ℕ) (s : InDoubt H) (w : W)
      → encoded x ≡ some key
      → find_entry key s.entries ≡ none
      → resolve_by_xid fn free (some x) s w ≡ (xaer_nota, s, w)
  unfolding resolve_by_xid
  unknown x key s w e gone = ground arith

  known :
      (x : Xid) (key : List ℕ) (s : InDoubt H) (w : W) (i : ℕ) (h : H)
      → encoded x ≡ some key
      → find_entry key s.entries ≡ some (i, h)
      → resolve_by_xid fn free (some x) s w ≡ resolve_entry fn free i h s w
  unfolding resolve_by_xid
  known x key s w i h e found = ground arith

  -- Deciding an id whose encoding is `key`: the decision is done by the engine for exactly the entry
  -- that is dropped, the list of what is still to be handed out does not lose or gain by dropping one
  -- that was handed out, and without success no entry is lost.
  pub resolve_by_xid-Resolved :
      (x : Xid) (key : List ℕ) (s : InDoubt H) (w : W)
      → encoded x ≡ some key
      → Resolved fn key s w (resolve_by_xid fn free (some x) s w)
  resolve_by_xid-Resolved x key s w e = elim (Option-cases (find_entry key s.entries)) [
    | inl gone ↦
        rw (unknown x key s w e gone) (record { decided = λ q. absurd (cc); kept = λ q. refl })
    | inr ((i, h), found) ↦
        rw (known x key s w i h e found)
          (resolve_entry-Resolved key i h s w (find_entry_sound key s.entries i h found))
  ]

  -- The id that the server was handed for an entry finds an entry again: the server's decision about it
  -- is always run on a transaction with the very bytes that were recorded at prepare, never answered
  -- by "not ours".
  pub handed-resolves :
      (s : InDoubt H) (w : W) (j : ℕ) (en : Entry H) (x : Xid)
      → get_elem? s.entries j ≡ some en
      → All IsByte en.xid
      → deserialize (some en.xid) true ≡ some x
      → (i : ℕ) × (h : H) × (get_elem? s.entries i ≡ some (record { xid = en.xid; txn = h }))
        × (resolve_by_xid fn free (some (handed x)) s w ≡ resolve_entry fn free i h s w)
  handed-resolves s w j en x at bytes e =
      let again : encoded (handed x) ≡ some en.xid =
        serialize-take x.format_id x.gtrid_len x.bqual_len x.bytes true _
        ∙ serialize-deserialize en.xid bytes e in
      let (i, h, found) = find_entry_complete s.entries j en at in
      (
        i,
        h,
        find_entry_sound en.xid s.entries i h found,
        known (handed x) en.xid s w i h again found,
      )
