-- ===== src/MasterKey/Coherent.antt =====
-- The threads' copies of the master key, plugin/tidesdb_master_key.cc, against the key that was loaded.
use tidesdb_mysql.Base.{
  ℕ, ◌+◌, ◌<◌, ◌≤◌, ◌^◌, ◌≡◌, refl, sym, ◌∙◌, inl, inr, not, ◌&&◌, Option, none, some, List, [],
  ◌∷◌, if◌then◌else◌, ◌==◌, length, arith, Bool-cases, if_cases, &&-eq-true, ==_iff,
}
use tidesdb_mysql.MasterKey.{
  Copy, Keys, master_key_len, zero_key, start, load_from_file, clear, set_copy, encryption_key_get,
}

-- What a thread or an administrator does.
pub data Op : Type 0 where
  load : Option (List ℕ) → Op
  clears : Op
  get : ℕ → Op

unfoldable pub apply : Op → Keys → Keys
apply (load file) k = (load_from_file file k).1
apply clears k = clear k
apply (get t) k = (encryption_key_get t k).1

-- The newest operation stands first.
unfoldable pub run : List Op → Keys
run [] = start
run (op ∷ ops) = apply op (run ops)

-- The key of the last file that was loaded, unless it was cleared since.
unfoldable pub installed : List Op → Option (List ℕ)
installed [] = none
installed (load none ∷ ops) = installed ops
installed (load (some file) ∷ ops) =
    let before = installed ops in if length file == master_key_len then some file else before
installed (clears ∷ ops) = none
installed (get t ∷ ops) = installed ops

-- How often the key was changed.
unfoldable pub changes : List Op → ℕ
changes [] = 0
changes (load none ∷ ops) = changes ops
changes (load (some file) ∷ ops) =
    let n = changes ops in if length file == master_key_len then n + 1 else n
changes (clears ∷ ops) = changes ops + 1
changes (get t ∷ ops) = changes ops

-- The key is the installed one; the generation is the number of changes; and a thread's copy that is of
-- this generation is of the installed key.
pub record Agrees (k : Keys) (key : Option (List ℕ)) (n : ℕ) : Type 0 where
  pub shared : key ≡ (if k.loaded then some k.master_key else none)
  pub counted : k.gen ≡ n
  pub older : (t : ℕ) → (k.copies t).tls_gen ≤ n
  pub current : (t : ℕ) → (k.copies t).tls_gen ≡ n → 0 < n → key ≡ some (k.copies t).tls_key

start-Agrees : Agrees start none 0
start-Agrees = record {
  shared = refl;
  counted = refl;
  older = λ t. omega arith;
  current = λ t e l. absurd (omega arith);
}

clear-Agrees :
    (k : Keys) (key : Option (List ℕ)) (n : ℕ)
    → n + 1 < 2 ^ 64
    → Agrees k key n
    → Agrees (clear k) none (n + 1)
unfolding clear
clear-Agrees k key n small a = record {
  shared = refl;
  counted = omega (arith, a.counted);
  older = λ t. omega (arith, a.older t);
  current = λ t e l. absurd (omega (arith, a.older t));
}

-- A copy that is of an old generation, or of the installed key.
abbrev IsCopy : Option (List ℕ) → ℕ → Copy → Type 0
IsCopy key n c = (c.tls_gen ≤ n) × (c.tls_gen ≡ n → 0 < n → key ≡ some c.tls_key)

set_copy-Agrees :
    (t : ℕ) (c : Copy) (k : Keys) (key : Option (List ℕ)) (n : ℕ)
    → IsCopy key n c
    → Agrees k key n
    → Agrees (set_copy t c k) key n
unfolding set_copy
set_copy-Agrees t c k key n ok a = record {
  shared = a.shared;
  counted = a.counted;
  older = λ u.
      (if_cases (IsCopy key n) (u == t) c (k.copies u) (λ _. ok) (λ _. (a.older u, a.current u))).0;
  current = λ u.
      (if_cases (IsCopy key n) (u == t) c (k.copies u) (λ _. ok) (λ _. (a.older u, a.current u))).1;
}

-- The key for a thread is the installed one, and nothing is changed but its copy.
pub get_key-Agrees :
    (t : ℕ) (k : Keys) (key : Option (List ℕ)) (n : ℕ)
    → Agrees k key n
    → ((encryption_key_get t k).0 ≡ key) × Agrees (encryption_key_get t k).1 key n
unfolding encryption_key_get
get_key-Agrees t k key n a = elim (Bool-cases (not (k.gen == 0) && (k.copies t).tls_gen == k.gen)) [
  | inl fast ↦
      let (positive, same) = &&-eq-true (not (k.gen == 0)) ((k.copies t).tls_gen == k.gen) fast in
      let same' : (k.copies t).tls_gen ≡ n = (==_iff _ _).0 same ∙ a.counted in
      let some_change : 0 < n = ground (arith, positive, a.counted) in
      rw fast (sym (a.current t same' some_change), a)
  | inr slow ↦ elim (Bool-cases k.loaded) [
    | inl there ↦
        let is_key : key ≡ some k.master_key = a.shared ∙ rw there refl in
        simp (slow, there)
          (
            sym is_key,
            set_copy-Agrees t (record { tls_key = k.master_key; tls_gen = k.gen }) k key n
                (omega (arith, a.counted), λ e l. is_key) a,
          )
    | inr gone ↦
        let no_key : key ≡ none = a.shared ∙ rw gone refl in
        simp (slow, gone)
          (
            sym no_key,
            set_copy-Agrees t (record { tls_key = zero_key; tls_gen = 0 }) k key n
                (omega arith, λ e l. absurd (omega arith)) a,
          )
  ]
]

apply_load-Agrees :
    (file : Option (List ℕ)) (k : Keys) (ops : List Op)
    → changes (load file ∷ ops) < 2 ^ 64
    → Agrees k (installed ops) (changes ops)
    → Agrees (load_from_file file k).1 (installed (load file ∷ ops)) (changes (load file ∷ ops))
unfolding load_from_file installed changes
apply_load-Agrees none k ops small a = a
apply_load-Agrees (some file) k ops small a = elim (Bool-cases (length file == master_key_len)) [
  | inr other ↦ rw other a
  | inl fits ↦ rw fits (record {
    shared = refl;
    counted = omega (arith, a.counted, (rw fits at small));
    older = λ t. omega (arith, a.older t);
    current = λ t e l. absurd (omega (arith, a.older t));
  })
]

changes-load : (file : Option (List ℕ)) (ops : List Op) → changes ops ≤ changes (load file ∷ ops)
unfolding changes
changes-load none ops = omega arith
changes-load (some file) ops = ground arith

pub run-Agrees :
    (ops : List Op) → changes ops < 2 ^ 64 → Agrees (run ops) (installed ops) (changes ops)
unfolding run apply installed changes
run-Agrees [] small = start-Agrees
run-Agrees (load file ∷ ops) small =
    apply_load-Agrees file (run ops) ops small
      (run-Agrees ops (omega (arith, changes-load file ops)))
run-Agrees (clears ∷ ops) small =
    clear-Agrees (run ops) (installed ops) (changes ops) small (run-Agrees ops (omega arith))
run-Agrees (get t ∷ ops) small =
    (get_key-Agrees t (run ops) (installed ops) (changes ops) (run-Agrees ops small)).1

-- After any sequence of loads, clears and reads of the key by any threads, in which the key is changed
-- fewer than 2 ^ 64 times, a thread that asks for the key gets the key of the last file of 32 bytes
-- that was loaded, unless it was cleared since; and an error if there is none.
pub encryption_key_get-installed :
    (ops : List Op) (t : ℕ)
    → changes ops < 2 ^ 64
    → (encryption_key_get t (run ops)).0 ≡ installed ops
encryption_key_get-installed ops t small =
    (get_key-Agrees t (run ops) (installed ops) (changes ops) (run-Agrees ops small)).0
