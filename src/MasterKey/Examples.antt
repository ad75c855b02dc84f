-- ===== src/MasterKey/Examples.antt =====
-- A key that is loaded, and a row that is encrypted and read back by another thread. The cipher of the
-- examples only pads.
use tidesdb_mysql.Base.{
  ℕ, ◌+◌, ◌-◌, ◌≤◌, ◌<◌, ◌*◌, ◌/◌, ◌%◌, ◌^◌, ◌≡◌, refl, sym, ap, ◌∙◌, Option, some, List, [], ◌∷◌,
  ◌++◌, length, take, replicate, arith, length-append, length-replicate, take-append_seam,
}
use mathlib.Core.List.{append_assoc}
use tidesdb_mysql.MasterKey.{
  encrypted_length, encryption_key_get, encryption_crypt, load_from_file, set_copy,
}
use tidesdb_mysql.MasterKey.Coherent.{
  Op, load, clears, get, apply, run, installed, changes, encryption_key_get-installed,
}
use tidesdb_mysql.MasterKey.RowCipher.{
  encrypt_max_plain, encrypt_row_into, decrypt_row, encrypt_with, joined,
}
use tidesdb_mysql.MasterKey.RoundTrip.{encrypted_length_bounds, decrypt_row-encrypt_row_into}

abbrev key : List ℕ
key = replicate 32 7

-- Loaded, read by two threads, cleared, loaded again, and read by the first one.
abbrev history : List Op
history = get 1 ∷ load (some key) ∷ clears ∷ get 2 ∷ get 1 ∷ load (some (replicate 32 3)) ∷ []

few : changes history < 2 ^ 64
unfolding changes
few = omega arith

encryption_key_get-installed_example : (encryption_key_get 2 (run history)).0 ≡ installed history
encryption_key_get-installed_example = encryption_key_get-installed history 2 few

encrypted_length_bounds_example :
    (16 < encrypted_length 16)
    × (encrypted_length 16 ≤ 32)
    × (encrypted_length 16 < 2 ^ 32)
    × (encrypted_length 16 % 16 ≡ 0)
encrypted_length_bounds_example = encrypted_length_bounds 16 (omega arith)

padding : List ℕ → List ℕ
padding plain = replicate (15 - length plain % 16) 0 ++ ((16 - length plain % 16) ∷ [])

last_of : List ℕ → ℕ
last_of [] = 0
last_of (x ∷ []) = x
last_of (x ∷ y ∷ ys) = last_of (y ∷ ys)

last-append : (xs : List ℕ) (x : ℕ) → last_of (xs ++ (x ∷ [])) ≡ x
unfolding last_of
last-append [] x = refl
last-append (y ∷ []) x = refl
last-append (y ∷ z ∷ zs) x = last-append (z ∷ zs) x

pad : List ℕ → List ℕ → List ℕ → Option (List ℕ)
pad _ _ plain = some (plain ++ padding plain)

unpad : List ℕ → List ℕ → List ℕ → Option (List ℕ)
unpad _ _ text = some (take (length text - last_of text) text)

length-padding : (plain : List ℕ) → length (padding plain) ≡ 16 - length plain % 16
unfolding padding
length-padding plain =
    let n = 15 - length plain % 16 in
    length-append (replicate n 0) ((16 - length plain % 16) ∷ [])
    ∙ ap (λ (m : ℕ). m + 1) (length-replicate n 0)
    ∙ omega arith

length-pad : (plain : List ℕ) → length (plain ++ padding plain) ≡ (length plain / 16 + 1) * 16
length-pad plain =
    let whole = length-append plain (padding plain) in
    let part = length-padding plain in omega arith

last-pad : (plain : List ℕ) → last_of (plain ++ padding plain) ≡ 16 - length plain % 16
unfolding padding
last-pad plain =
    let zeros = replicate (15 - length plain % 16) 0 in
    let last = (16 - length plain % 16) ∷ [] in
    ap last_of (sym (append_assoc plain zeros last))
    ∙ last-append (plain ++ zeros) (16 - length plain % 16)

unpad-pad : (plain : List ℕ) (key iv : List ℕ) → unpad key iv (plain ++ padding plain) ≡ some plain
unfolding unpad
unpad-pad plain key iv =
    let whole = length-pad plain in
    let last = last-pad plain in
    let cut : length (plain ++ padding plain) - last_of (plain ++ padding plain) ≡ length plain =
      omega arith in
    ap (λ (n : ℕ). some (take n (plain ++ padding plain))) cut
    ∙ ap some (take-append_seam plain (padding plain))

padded :
    (key iv plain text : List ℕ)
    → length plain ≤ encrypt_max_plain
    → pad key iv plain ≡ some text
    → (unpad key iv text ≡ some plain) × (length text ≡ encrypted_length (length plain))
unfolding pad encrypted_length
padded key iv plain text small h =
    let is : plain ++ padding plain ≡ text = cc in
    let whole = length-pad plain in
    (
      ap (unpad key iv) (sym is) ∙ unpad-pad plain key iv,
      ap length (sym is) ∙ (whole ∙ omega arith),
    )

-- Encrypted by thread 1 and read by thread 3, after the key was dropped and loaded again.
abbrev loaded_again : List Op
loaded_again = get 3 ∷ load (some key) ∷ clears ∷ load (some key) ∷ []

few_again : changes loaded_again < 2 ^ 64
unfolding changes
few_again = omega arith

few_once : changes (get 1 ∷ load (some key) ∷ []) < 2 ^ 64
unfolding changes
few_once = omega arith

stored_row : List ℕ
stored_row = replicate 16 1 ++ (5 ∷ 6 ∷ padding (5 ∷ 6 ∷ []))

decrypt_row-encrypt_row_into_example :
    (decrypt_row unpad 3 stored_row (run loaded_again)).0 ≡ 5 ∷ 6 ∷ []
unfolding installed encrypt_row_into encrypt_with encryption_key_get run apply load_from_file
    set_copy joined encryption_crypt pad stored_row
decrypt_row-encrypt_row_into_example =
    decrypt_row-encrypt_row_into pad unpad padded (get 1 ∷ load (some key) ∷ []) loaded_again 1 3
      (some (replicate 16 1)) (5 ∷ 6 ∷ []) stored_row few_once few_again refl refl
