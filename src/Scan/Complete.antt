-- ===== src/Scan/Complete.antt =====
-- A table scan, rnd_init and rnd_next of plugin/ha_tidesdb.cc, gives every row.
use tidesdb_mysql.Base.{
  ℕ, zero, suc, ◌<◌, ◌≤◌, ◌≡◌, refl, ap, ◌∙◌, sym, ◌⊎◌, inl, inr, true, false, some, List, [], ◌∷◌,
  if◌then◌else◌, arith, Bool-cases, length, drop, subst,
}
use tidesdb_mysql.Key.{is_data_key, key_ns_data}
use tidesdb_mysql.Rows.{Store}
use tidesdb_mysql.Scan.{
  Iterator, ScanEnv, Scan, Answer, dir_forward, found, end_of_file, turned, read_current,
  iter_read_current,
}
use tidesdb_mysql.Scan.Table.{step_in, step_on, rnd_next}
use tidesdb_mysql.Scan.Contract.{KeyValue, below, drop_below, Steady, gather, read_all, moved-some}

-- The rows of the entries, each with its primary key; a row is decoded into the buffer of the one before.
pub rows_of : {Row : Type 0} → (List ℕ → Row → Row) → List KeyValue → Row → List (List ℕ × Row)
rows_of decode [] b = []
rows_of decode ((k, v) ∷ es) b =
    let row = decode v b in
    let onward = rows_of decode es row in
    let past = rows_of decode es b in if is_data_key k then (drop 1 k, row) ∷ onward else past

data_key-above : (k : List ℕ) → below k (key_ns_data ∷ []) ≡ true → is_data_key k ≡ false
unfolding below is_data_key
data_key-above [] h = refl
data_key-above (x ∷ xs) h = ground arith

pub rows_of-drop_below :
    {Row : Type 0} (decode : List ℕ → Row → Row) (es : List KeyValue) (b : Row)
    → rows_of decode (drop_below (key_ns_data ∷ []) es) b ≡ rows_of decode es b
unfolding drop_below rows_of
rows_of-drop_below decode [] b = refl
rows_of-drop_below decode ((k, v) ∷ es) b = elim (Bool-cases (below k (key_ns_data ∷ []))) [
  | inl lower ↦ rw (lower, data_key-above k lower) (rows_of-drop_below decode es b)
  | inr upper ↦ rw upper refl
]

module _ {Row W I : Type 0} (it : Iterator I) (s : Store W) (e : ScanEnv Row W I)
    (rest all : I → List KeyValue) (law : Steady it rest all) where
  -- Either there is no further row and the read says so, or it gives the next one.
  Next : List KeyValue → Row → W → Answer × Scan Row W I → Type 0
  Next es b w r =
      ((rows_of e.decode es b ≡ []) × (r.0 ≡ end_of_file))
      ⊎ ((x : KeyValue) × (xs : List KeyValue) × (i : I) × (r.0 ≡ found)
          × (r.1.iter ≡ some i)
          × (rest i ≡ x ∷ xs)
          × (r.1.world ≡ w)
          × (length xs < length es)
          × (rows_of e.decode es b ≡ (r.1.current_pk, r.1.buf) ∷ rows_of e.decode xs r.1.buf))

  Next-more :
      (es fs : List KeyValue) (b : Row) (w : W) (r : Answer × Scan Row W I)
      → rows_of e.decode es b ≡ rows_of e.decode fs b
      → length fs ≤ length es
      → Next fs b w r
      → Next es b w r
  unfolding Next
  Next-more es fs b w r same le (inl (a, z)) = inl (same ∙ a, z)
  Next-more es fs b w r same le (inr (x, xs, i, f, it', re, wo, sh, eq)) =
      inr (x, xs, i, f, it', re, wo, omega arith, same ∙ eq)

  abbrev pub at : Scan Row W I → I → Scan Row W I
  at c i = record c { iter = some i }

  read_current_end :
      (n : ℕ) (c : Scan Row W I) (i : I)
      → rest i ≡ []
      → read_current it s e (suc n) (at c i) ≡ (end_of_file, at c i)
  unfolding read_current
  read_current_end n c i h = rw (law.at_end i h)

  read_current_row :
      (n : ℕ) (c : Scan Row W I) (i : I) (k v : List ℕ) (es : List KeyValue)
      → rest i ≡ (k, v) ∷ es
      → is_data_key k ≡ true
      → read_current it s e (suc n) (at c i)
        ≡ (found, record c { iter = some i; current_pk = drop 1 k; buf = e.decode v c.buf })
  unfolding read_current
  read_current_row n c i k v es h row =
      rw (law.valid_at i (k, v) es h, law.key_value_at i (k, v) es h, row)

  read_current_skip :
      (n : ℕ) (c : Scan Row W I) (i : I) (k v : List ℕ) (es : List KeyValue)
      → rest i ≡ (k, v) ∷ es
      → is_data_key k ≡ false
      → read_current it s e (suc n) (at c i) ≡ read_current it s e n (at c (it.next i))
  unfolding read_current
  read_current_skip n c i k v es h meta =
      rw (law.valid_at i (k, v) es h, law.key_value_at i (k, v) es h, meta)

  Next-row :
      (c : Scan Row W I) (i : I) (k v : List ℕ) (es : List KeyValue)
      → rest i ≡ (k, v) ∷ es
      → is_data_key k ≡ true
      → Next
          ((k, v) ∷ es)
          c.buf
          c.world
          (found, record c { iter = some i; current_pk = drop 1 k; buf = e.decode v c.buf })
  unfolding Next rows_of
  Next-row c i k v es h row = inr ((k, v), es, i, refl, refl, h, refl, omega arith, rw row refl)

  rows_of-skip :
      (k v : List ℕ) (es : List KeyValue) (b : Row)
      → is_data_key k ≡ false
      → rows_of e.decode ((k, v) ∷ es) b ≡ rows_of e.decode es b
  unfolding rows_of
  rows_of-skip k v es b meta = rw meta refl

  Next-end : (c : Scan Row W I) → Next [] c.buf c.world (end_of_file, c)
  unfolding Next rows_of
  Next-end c = inl (refl, refl)

  read_current-Next :
      (n : ℕ) (es : List KeyValue) (c : Scan Row W I) (i : I)
      → rest i ≡ es
      → length es < n
      → Next es c.buf c.world (read_current it s e n (at c i))
  read_current-Next zero es c i h l = absurd (omega arith)
  read_current-Next (suc n) [] c i h l =
      subst (Next [] c.buf c.world) (sym (read_current_end n c i h)) (Next-end (at c i))
  read_current-Next (suc n) ((k, v) ∷ es) c i h l = elim (Bool-cases (is_data_key k)) [
    | inl row ↦
        subst (Next ((k, v) ∷ es) c.buf c.world) (sym (read_current_row n c i k v es h row))
          (Next-row c i k v es h row)
    | inr meta ↦
        subst (Next ((k, v) ∷ es) c.buf c.world) (sym (read_current_skip n c i k v es h meta)) (
          Next-more ((k, v) ∷ es) es c.buf c.world (read_current it s e n (at c (it.next i)))
            (rows_of-skip k v es c.buf meta) (omega arith)
            (read_current-Next n es c (it.next i) (law.next_at i (k, v) es h) (omega arith)))
  ]

  -- The scan stands so that its next step goes to the entries `es`.
  abbrev pub Ready : List KeyValue → Scan Row W I → Type 0
  Ready es c = (i : I) × (step_on it s e c ≡ at c i) × (rest i ≡ es) × (e.killed c.world ≡ false)

  scan_reads :
      (es : List KeyValue) (c : Scan Row W I)
      → Ready es c
      → length es < e.limit
      → Next es c.buf c.world (iter_read_current it s e (step_on it s e c))
  unfolding iter_read_current
  scan_reads es c (i, e1, e2, e3) l = rw e1 (read_current-Next e.limit es c i e2 l)

  rnd_next-turned :
      (c : Scan Row W I)
      → e.killed c.world ≡ false
      → rnd_next it s e c ≡ turned dir_forward (iter_read_current it s e (step_on it s e c))
  unfolding rnd_next
  rnd_next-turned c alive = rw alive refl

  step_on_forward :
      (c : Scan Row W I) (i : I)
      → c.iter ≡ some i
      → step_on it s e (record c { dir = dir_forward })
        ≡ at (record c { dir = dir_forward }) (it.next i)
  unfolding step_in
  step_on_forward c i h = moved-some it.next (record c { dir = dir_forward }) i h

  -- What is read from a result on.
  onward : ℕ → Answer × Scan Row W I → List (List ℕ × Row) × Answer
  onward n r = gather (read_all (rnd_next it s e) n) (turned dir_forward r)

  read_all-onward :
      (n : ℕ) (c : Scan Row W I)
      → e.killed c.world ≡ false
      → read_all (rnd_next it s e) (suc n) c
        ≡ onward n (iter_read_current it s e (step_on it s e c))
  unfolding read_all onward
  read_all-onward n c alive = ap (gather (read_all (rnd_next it s e) n)) (rnd_next-turned c alive)

  onward-end :
      (n : ℕ) (a : Answer) (c : Scan Row W I)
      → a ≡ end_of_file
      → onward n (a, c) ≡ ([], end_of_file)
  unfolding onward turned gather
  onward-end n a c h = rw h refl

  onward-found :
      (n : ℕ) (a : Answer) (c : Scan Row W I) (rows : List (List ℕ × Row))
      → a ≡ found
      → read_all (rnd_next it s e) n (record c { dir = dir_forward }) ≡ (rows, end_of_file)
      → onward n (a, c) ≡ ((c.current_pk, c.buf) ∷ rows, end_of_file)
  unfolding onward turned gather
  onward-found n a c rows h ih = rw h (rw ih refl)

  onward-Next :
      (n : ℕ) (es : List KeyValue) (c : Scan Row W I) (r : Answer × Scan Row W I)
      → e.killed c.world ≡ false
      → Next es c.buf c.world r
      → ((xs : List KeyValue) (c' : Scan Row W I)
          → length xs < length es
          → Ready xs c'
          → read_all (rnd_next it s e) n c' ≡ (rows_of e.decode xs c'.buf, end_of_file))
      → onward n r ≡ (rows_of e.decode es c.buf, end_of_file)
  unfolding Next
  onward-Next n es c (a, d) alive (inl (none_left, end)) ih =
      onward-end n a d end ∙ rw none_left refl
  onward-Next n es c (a, d) alive (inr (x, xs, i, f, ie, re, we, sh, eq)) ih =
      onward-found n a d (rows_of e.decode xs d.buf) f (
        ih xs (record d { dir = dir_forward }) sh
          (it.next i, step_on_forward d i ie, law.next_at i x xs re, rw we alive))
      ∙ rw eq refl

  alive_of : (es : List KeyValue) (c : Scan Row W I) → Ready es c → e.killed c.world ≡ false
  alive_of es c (i, e1, e2, alive) = alive

  pub read_all-rows :
      (n : ℕ) (es : List KeyValue) (c : Scan Row W I)
      → Ready es c
      → length es < e.limit
      → length es < n
      → read_all (rnd_next it s e) n c ≡ (rows_of e.decode es c.buf, end_of_file)
  read_all-rows zero es c r l m = absurd (omega arith)
  read_all-rows (suc n) es c r l m =
      read_all-onward n c (alive_of es c r)
      ∙ onward-Next n es c (iter_read_current it s e (step_on it s e c)) (alive_of es c r)
          (scan_reads es c r l)
          (λ xs c' sh ready. read_all-rows n xs c' ready (omega arith) (omega arith))
