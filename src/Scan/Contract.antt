-- ===== src/Scan/Contract.antt =====
-- What scans rely on of an iterator that goes forward, and what a caller reads until a read gives no row.
use tidesdb_mysql.Base.{
  ℕ, zero, suc, ◌≡◌, ◌≤◌, refl, arith, length, Bool, true, false, some, List, [], ◌∷◌,
  if◌then◌else◌, ◌==◌, ltb,
}
use tidesdb_mysql.Codes.{tdb_success, is_success}
use tidesdb_mysql.Scan.{
  Iterator, Scan, Answer, Read, found, end_of_file, aborted, out_of_rounds, failed, moved,
}

abbrev pub KeyValue : Type 0
KeyValue = List ℕ × List ℕ

-- The order of keys: byte by byte, and a key before those that it begins.
unfoldable pub below : List ℕ → List ℕ → Bool
below xs [] = false
below [] (y ∷ ys) = true
below (x ∷ xs) (y ∷ ys) = let rest = below xs ys in if x == y then rest else ltb x y

-- The entries from the first one on that is not below the key.
unfoldable pub drop_below : List ℕ → List KeyValue → List KeyValue
drop_below k [] = []
drop_below k ((j, v) ∷ es) = let rest = drop_below k es in if below j k then rest else (j, v) ∷ es

-- `rest i` are the entries from the position on, and `all i` those of the family, as the transaction
-- sees them. A step that is refused leaves the iterator where it is.
pub record Forward {I : Type 0} (it : Iterator I) (rest all : I → List KeyValue) : Type 0 where
  pub at_end : (i : I) → rest i ≡ [] → it.valid i ≡ false
  pub valid_at : (i : I) (e : KeyValue) (es : List KeyValue) → rest i ≡ e ∷ es → it.valid i ≡ true
  pub key_at :
      (i : I) (e : KeyValue) (es : List KeyValue)
      → rest i ≡ e ∷ es
      → is_success (it.key i).0 ≡ true
      → it.key i ≡ (tdb_success, e.0)
  pub key_value_at :
      (i : I) (e : KeyValue) (es : List KeyValue)
      → rest i ≡ e ∷ es
      → is_success (it.key_value i).0 ≡ true
      → it.key_value i ≡ (tdb_success, e.0, e.1)
  pub next_at :
      (i : I) (e : KeyValue) (es : List KeyValue)
      → rest i ≡ e ∷ es
      → is_success (it.next_rc i) ≡ true
      → rest (it.next i) ≡ es
  pub next_stays : (i : I) → is_success (it.next_rc i) ≡ false → rest (it.next i) ≡ rest i
  pub seek_at :
      (i : I) (k : List ℕ)
      → is_success (it.seek_rc k i) ≡ true
      → rest (it.seek k i) ≡ drop_below k (all i)
  pub seek_all : (i : I) (k : List ℕ) → all (it.seek k i) ≡ all i

-- No read, step or seek of the iterator is refused, for contention that outlasts the retries or another
-- reason.
pub record Uncontended {I : Type 0} (it : Iterator I) : Type 0 where
  pub key_ok : (i : I) → it.valid i ≡ true → is_success (it.key i).0 ≡ true
  pub key_value_ok : (i : I) → it.valid i ≡ true → is_success (it.key_value i).0 ≡ true
  pub next_ok : (i : I) → it.valid i ≡ true → is_success (it.next_rc i) ≡ true
  pub seek_ok : (i : I) (k : List ℕ) → is_success (it.seek_rc k i) ≡ true

-- Both together.
pub record Steady {I : Type 0} (it : Iterator I) (rest all : I → List KeyValue) : Type 0 where
  pub at_end : (i : I) → rest i ≡ [] → it.valid i ≡ false
  pub valid_at : (i : I) (e : KeyValue) (es : List KeyValue) → rest i ≡ e ∷ es → it.valid i ≡ true
  pub key_at :
      (i : I) (e : KeyValue) (es : List KeyValue) → rest i ≡ e ∷ es → it.key i ≡ (tdb_success, e.0)
  pub key_value_at :
      (i : I) (e : KeyValue) (es : List KeyValue)
      → rest i ≡ e ∷ es
      → it.key_value i ≡ (tdb_success, e.0, e.1)
  pub next_at :
      (i : I) (e : KeyValue) (es : List KeyValue) → rest i ≡ e ∷ es → rest (it.next i) ≡ es
  pub seek_at : (i : I) (k : List ℕ) → rest (it.seek k i) ≡ drop_below k (all i)
  pub seek_all : (i : I) (k : List ℕ) → all (it.seek k i) ≡ all i

pub steady :
    {I : Type 0} {it : Iterator I} {rest all : I → List KeyValue}
    → Forward it rest all
    → Uncontended it
    → Steady it rest all
steady law free = record {
  at_end = law.at_end;
  valid_at = law.valid_at;
  key_at = λ i e es h. law.key_at i e es h (free.key_ok i (law.valid_at i e es h));
  key_value_at =
      λ i e es h. law.key_value_at i e es h (free.key_value_ok i (law.valid_at i e es h));
  next_at = λ i e es h. law.next_at i e es h (free.next_ok i (law.valid_at i e es h));
  seek_at = λ i k. law.seek_at i k (free.seek_ok i k);
  seek_all = law.seek_all;
}

-- The rows that `n` reads give, up to one that gives none, and its answer.
unfoldable pub gather :
    {Row W I : Type 0}
    → (Scan Row W I → List (List ℕ × Row) × Answer)
    → Answer × Scan Row W I
    → List (List ℕ × Row) × Answer
gather onward (found, c) = ((c.current_pk, c.buf) ∷ (onward c).0, (onward c).1)
gather onward (end_of_file, c) = ([], end_of_file)
gather onward (aborted, c) = ([], aborted)
gather onward (out_of_rounds, c) = ([], out_of_rounds)
gather onward (failed code, c) = ([], failed code)

unfoldable pub read_all :
    {Row W I : Type 0} → Read (Scan Row W I) → ℕ → Scan Row W I → List (List ℕ × Row) × Answer
read_all read zero c = ([], out_of_rounds)
read_all read (suc n) c = gather (read_all read n) (read c)

pub moved-some :
    {Row W I : Type 0} (f : I → I) (c : Scan Row W I) (i : I)
    → c.iter ≡ some i
    → moved f c ≡ record c { iter = some (f i) }
unfolding moved
moved-some f c i h = rw (moved, h) refl

pub length-drop_below : (k : List ℕ) (es : List KeyValue) → length (drop_below k es) ≤ length es
unfolding drop_below
length-drop_below k [] = omega arith
length-drop_below k ((j, v) ∷ es) = ground (arith, length-drop_below k es)
