-- ===== src/Recovery/Pages.antt =====
-- What the server is handed by `tidesdb_xa_recover` of plugin/ha_tidesdb.cc, over all its calls.
use tidesdb_mysql.Base.{
  ℕ, zero, suc, ◌+◌, ◌<◌, ◌≡◌, ◌∙◌, refl, true, none, some, List, [], ◌∷◌, arith, length, drop,
  take, drop-drop, Option-cases, inl, inr,
}
use tidesdb_mysql.Xid.{Xid, deserialize}
use tidesdb_mysql.Recovery.{Entry, InDoubt, handed, hand_out, xa_recover}

-- The ids of the entries that this build can decode, in order.
pub named : {H : Type 0} → List (Entry H) → List Xid
named [] = []
named (en ∷ es) = elim (deserialize (some en.xid) true) [
  | none ↦ named es
  | some x ↦ handed x ∷ named es
]

module _ {H : Type 0} where
  hand_out-zero : (es : List (Entry H)) → hand_out es 0 ≡ ([], 0)
  unfolding hand_out
  hand_out-zero [] = refl
  hand_out-zero (en ∷ es) = refl

  hand_out-short :
      (es : List (Entry H)) (room : ℕ)
      → length (hand_out es room).0 < room
      → hand_out es room ≡ (named es, length es)
  unfolding hand_out named
  hand_out-short [] room l = refl
  hand_out-short (en ∷ es) zero l = absurd (omega arith)
  hand_out-short (en ∷ es) (suc room) l = elim (Option-cases (deserialize (some en.xid) true)) [
    | inl bad ↦ ground (arith, hand_out-short es room, hand_out-short es (suc room))
    | inr (x, good) ↦ ground (arith, hand_out-short es room, hand_out-short es (suc room))
  ]

  xa_recover_page :
      (len : ℕ) (s : InDoubt H)
      → xa_recover true len s ≡ (
        (hand_out (drop s.cursor s.entries) len).0,
        record s { cursor = s.cursor + (hand_out (drop s.cursor s.entries) len).1 },
      )
  unfolding xa_recover
  xa_recover_page zero s = ground (arith, hand_out-zero (drop s.cursor s.entries))
  xa_recover_page (suc len) s = ground arith

  -- The ids that are handed out are the first of those that can be decoded, and the rest is left.
  hand_out-named :
      (es : List (Entry H)) (room : ℕ)
      → ((hand_out es room).0 ≡ take room (named es))
        × (named (drop (hand_out es room).1 es) ≡ drop room (named es))
  unfolding hand_out named
  hand_out-named [] zero = (refl, refl)
  hand_out-named [] (suc room) = (refl, refl)
  hand_out-named (en ∷ es) zero = (refl, refl)
  hand_out-named (en ∷ es) (suc room) = elim (Option-cases (deserialize (some en.xid) true)) [
    | inl bad ↦ ground (arith, hand_out-named es (suc room))
    | inr (x, good) ↦ ground (arith, hand_out-named es room)
  ]

  -- A call for at most `len` ids hands out, of the ids of the entries from the cursor on that this
  -- build can decode, the first `len`, each of them and in order; the entries stay, and those from
  -- the new cursor on have the ids that were not handed out. So no id is skipped or handed out
  -- twice, whatever the size of the pages.
  pub xa_recover-pages :
      (len : ℕ) (s : InDoubt H)
      → let after = (xa_recover true len s).1 in
        ((xa_recover true len s).0 ≡ take len (named (drop s.cursor s.entries)))
        × (named (drop after.cursor after.entries) ≡ drop len (named (drop s.cursor s.entries)))
        × (after.entries ≡ s.entries)
  xa_recover-pages len s =
      let es = drop s.cursor s.entries in
      let n = (hand_out es len).1 in
      let both = hand_out-named es len in
      rw (xa_recover_page len s) (both.0, rw (← drop-drop s.cursor n s.entries) both.1, refl)

  -- A page that is not full, which ends the server's questions, is the last one: it holds the ids of
  -- all the entries from the cursor on that this build can decode, in order, and the cursor stands
  -- at the end.
  pub xa_recover-short :
      (len : ℕ) (s : InDoubt H)
      → length (xa_recover true len s).0 < len
      → xa_recover true len s ≡ (
        named (drop s.cursor s.entries),
        record s { cursor = s.cursor + length (drop s.cursor s.entries) },
      )
  xa_recover-short len s l =
      xa_recover_page len s
      ∙ rw (hand_out-short (drop s.cursor s.entries) len (rw (xa_recover_page len s) at l)) refl
