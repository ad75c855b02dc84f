-- ===== src/MasterKey/RowCipher.antt =====
-- tidesdb_encrypt_row_into and tidesdb_decrypt_row of plugin/ha_tidesdb.cc: a stored row is the
-- initialisation vector and the ciphertext.
use tidesdb_mysql.Base.{
  ℕ, ◌-◌, ◌%◌, ◌^◌, Option, none, some, List, [], ◌++◌, if◌then◌else◌, ltb, leb, length, take, drop,
}
use tidesdb_mysql.MasterKey.{Keys, encryption_key_get, encryption_crypt}

abbrev pub enc_iv_len : ℕ
enc_iv_len = 16

abbrev pub encrypt_max_plain : ℕ
encrypt_max_plain = 0xefffffff

abbrev pub Cipher : Type 0
Cipher = List ℕ → List ℕ → List ℕ → Option (List ℕ)

unfoldable pub joined : List ℕ → Option (List ℕ) → Option (List ℕ)
joined iv none = none
joined iv (some text) = some (iv ++ text)

-- With a key and an initialisation vector.
unfoldable pub encrypt_with :
    Cipher → Keys → List ℕ → Option (List ℕ) → Option (List ℕ) → Option (List ℕ)
encrypt_with aes k plain none random = none
encrypt_with aes k plain (some key) none = none
encrypt_with aes k plain (some key) (some iv) =
    if ltb encrypt_max_plain (length plain)
    then none
    else joined iv (encryption_crypt aes k plain key iv)

-- `random` are the bytes of my_random_bytes, none where it fails.
unfoldable pub encrypt_row_into :
    Cipher → ℕ → Option (List ℕ) → List ℕ → Keys → Option (List ℕ) × Keys
encrypt_row_into aes t random plain k =
    let (key, k') = encryption_key_get t k in (encrypt_with aes k' plain key random, k')

unfoldable pub or_empty : Option (List ℕ) → List ℕ
or_empty none = []
or_empty (some text) = text

unfoldable pub decrypt_with : Cipher → Keys → List ℕ → Option (List ℕ) → List ℕ
decrypt_with aes k row none = []
decrypt_with aes k row (some key) =
    let src_len = (length row - enc_iv_len) % 2 ^ 32 in
    or_empty (encryption_crypt aes k (take src_len (drop enc_iv_len row)) key (take enc_iv_len row))

-- Empty where it fails.
unfoldable pub decrypt_row : Cipher → ℕ → List ℕ → Keys → List ℕ × Keys
decrypt_row aes t row k =
    let (key, k') = encryption_key_get t k in
    if leb (length row) enc_iv_len then ([], k) else (decrypt_with aes k' row key, k')
