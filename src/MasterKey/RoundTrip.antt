-- ===== src/MasterKey/RoundTrip.antt =====
-- An encrypted row, plugin/ha_tidesdb.cc and plugin/tidesdb_master_key.cc, read back.
use tidesdb_mysql.Base.{
  ℕ, ◌+◌, ◌-◌, ◌<◌, ◌≤◌, ◌%◌, ◌^◌, ◌≡◌, refl, sym, ap, ◌∙◌, inl, inr, true, false, Option, none,
  some, List, ◌++◌, ◌==◌, ltb, leb, length, take, drop, arith, Bool-cases, length-append,
  take-append_seam, drop-append_seam, take-length_self, ==_iff,
}
use tidesdb_mysql.MasterKey.{
  Keys, master_key_len, aes_block_len, encrypted_length, encryption_key_get, encryption_crypt,
}
use tidesdb_mysql.MasterKey.Coherent.{
  Op, run, installed, changes, Agrees, run-Agrees, get_key-Agrees, encryption_key_get-installed,
}
use tidesdb_mysql.MasterKey.RowCipher.{
  Cipher, enc_iv_len, encrypt_max_plain, joined, encrypt_with, encrypt_row_into, or_empty,
  decrypt_with, decrypt_row,
}

-- The length of the ciphertext of a row that is not too large: a multiple of the block with at least
-- one byte of padding, and no wrap-around.
pub encrypted_length_bounds :
    (n : ℕ)
    → n ≤ encrypt_max_plain
    → (n < encrypted_length n)
      × (encrypted_length n ≤ n + aes_block_len)
      × (encrypted_length n < 2 ^ 32)
      × (encrypted_length n % aes_block_len ≡ 0)
unfolding encrypted_length
encrypted_length_bounds n h = omega arith

-- What a call of the cipher that succeeds says.
crypt-some :
    (aes : Cipher) (k : Keys) (src key iv text : List ℕ)
    → encryption_crypt aes k src key iv ≡ some text
    → ((length iv == aes_block_len) ≡ true)
      × (k.loaded ≡ true)
      × ((length key == master_key_len) ≡ true)
      × (aes key iv src ≡ some text)
unfolding encryption_crypt
crypt-some aes k src key iv text h = ground arith

crypt-done :
    (aes : Cipher) (k : Keys) (src key iv : List ℕ)
    → (length iv == aes_block_len) ≡ true
    → k.loaded ≡ true
    → (length key == master_key_len) ≡ true
    → encryption_crypt aes k src key iv ≡ aes key iv src
unfolding encryption_crypt
crypt-done aes k src key iv a b c = simp (a, b, c)

joined-some :
    (iv row : List ℕ) (o : Option (List ℕ))
    → joined iv o ≡ some row
    → (text : List ℕ) × (o ≡ some text) × (row ≡ iv ++ text)
unfolding joined
joined-some iv row none h = absurd (cc)
joined-some iv row (some text) h = (text, refl, cc)

encrypt_with-some :
    (aes : Cipher) (k : Keys) (plain row : List ℕ) (key random : Option (List ℕ))
    → encrypt_with aes k plain key random ≡ some row
    → (sk : List ℕ) × (iv : List ℕ) × (text : List ℕ) × (key ≡ some sk)
      × (random ≡ some iv)
      × (length plain ≤ encrypt_max_plain)
      × (encryption_crypt aes k plain sk iv ≡ some text)
      × (row ≡ iv ++ text)
unfolding encrypt_with
encrypt_with-some aes k plain row none random h = absurd (cc)
encrypt_with-some aes k plain row (some sk) none h = absurd (cc)
encrypt_with-some aes k plain row (some sk) (some iv) h =
    elim (Bool-cases (ltb encrypt_max_plain (length plain))) [
      | inl large ↦ absurd (let q = rw large at h in cc)
      | inr fits ↦
          let (text, e, r) =
            joined-some iv row (encryption_crypt aes k plain sk iv) (rw fits at h) in
          (sk, iv, text, refl, refl, ground arith, e, r)
    ]

loaded_of :
    (k : Keys) (key : Option (List ℕ)) (n : ℕ) (sk : List ℕ)
    → Agrees k key n
    → key ≡ some sk
    → k.loaded ≡ true
loaded_of k key n sk a h = elim (Bool-cases k.loaded) [
  | inl there ↦ there
  | inr gone ↦ absurd (let q = rw gone at a.shared in cc)
]

-- The parts of a stored row.
row_parts :
    (iv text row : List ℕ)
    → length iv ≡ enc_iv_len
    → length text < 2 ^ 32
    → 0 < length text
    → row ≡ iv ++ text
    → (leb (length row) enc_iv_len ≡ false)
      × (take enc_iv_len row ≡ iv)
      × (take ((length row - enc_iv_len) % 2 ^ 32) (drop enc_iv_len row) ≡ text)
row_parts iv text row size small some_text e =
    let total : length row ≡ length iv + length text = ap length e ∙ length-append iv text in
    let src : (length row - enc_iv_len) % 2 ^ 32 ≡ length text = omega arith in
    let head : take enc_iv_len row ≡ iv =
      ap (take enc_iv_len) e
      ∙ (ap (λ (n : ℕ). take n (iv ++ text)) (sym size) ∙ take-append_seam iv text) in
    let tail : drop enc_iv_len row ≡ text =
      ap (drop enc_iv_len) e
      ∙ (ap (λ (n : ℕ). drop n (iv ++ text)) (sym size) ∙ drop-append_seam iv text) in
    (ground arith, head, rw (src, tail) (take-length_self text))

decrypt_with-row :
    (dec : Cipher) (k : Keys) (row sk iv text plain : List ℕ)
    → take enc_iv_len row ≡ iv
    → take ((length row - enc_iv_len) % 2 ^ 32) (drop enc_iv_len row) ≡ text
    → encryption_crypt dec k text sk iv ≡ some plain
    → decrypt_with dec k row (some sk) ≡ plain
unfolding decrypt_with or_empty
decrypt_with-row dec k row sk iv text plain a b c = simp (a, b, c)

decrypt_row_with :
    (dec : Cipher) (u : ℕ) (row : List ℕ) (k : Keys)
    → leb (length row) enc_iv_len ≡ false
    → (decrypt_row dec u row k).0
      ≡ decrypt_with dec (encryption_key_get u k).1 row (encryption_key_get u k).0
unfolding decrypt_row
decrypt_row_with dec u row k h = simp h

-- Where a row was encrypted by one thread and the same key is installed when another thread decrypts
-- it, the decrypted row is the row, whatever was done with the keys before either, as long as they
-- were changed fewer than 2 ^ 64 times. For rows up to the largest one that is encrypted, the cipher is
-- relied on to decrypt what it encrypted, and to write the length that encryption_encrypted_length says.
pub decrypt_row-encrypt_row_into :
    (enc dec : Cipher)
    → ((key iv plain text : List ℕ)
        → length plain ≤ encrypt_max_plain
        → enc key iv plain ≡ some text
        → (dec key iv text ≡ some plain) × (length text ≡ encrypted_length (length plain)))
    → (before after : List Op) (t u : ℕ) (random : Option (List ℕ)) (plain row : List ℕ)
    → changes before < 2 ^ 64
    → changes after < 2 ^ 64
    → installed after ≡ installed before
    → (encrypt_row_into enc t random plain (run before)).0 ≡ some row
    → (decrypt_row dec u row (run after)).0 ≡ plain
unfolding encrypt_row_into
decrypt_row-encrypt_row_into enc dec law before after t u random plain row sb sa same h =
    let k = (encryption_key_get t (run before)).1 in
    let got = encryption_key_get-installed before t sb in
    let (sk, iv, text, hk, hr, fits, e, r) =
      encrypt_with-some enc k plain row (encryption_key_get t (run before)).0 random h in
    let (iv_ok, there, key_ok, ciphered) = crypt-some enc k plain sk iv text e in
    let (deciphered, size) = law sk iv plain text fits ciphered in
    let bounds = encrypted_length_bounds (length plain) fits in
    let (kept, agrees) =
      get_key-Agrees u (run after) (installed after) (changes after) (run-Agrees after sa) in
    let k' = (encryption_key_get u (run after)).1 in
    let key_is : installed after ≡ some sk = same ∙ (sym got ∙ hk) in
    let there' = loaded_of k' (installed after) (changes after) sk agrees key_is in
    let iv_size : length iv ≡ enc_iv_len = (==_iff _ _).0 iv_ok in
    let (long, head, tail) = row_parts iv text row iv_size (omega arith) (omega arith) r in
    decrypt_row_with dec u row (run after) long
    ∙ ap (decrypt_with dec k' row) (kept ∙ key_is)
    ∙ decrypt_with-row dec k' row sk iv text plain head tail
        (crypt-done dec k' text sk iv iv_ok there' key_ok ∙ deciphered)
