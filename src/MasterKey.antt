-- ===== src/MasterKey.antt =====
-- The master key of encryption at rest, plugin/tidesdb_master_key.cc: the key of the server, and each
-- thread's copy of it. What is done under the mutex is one step, and so is a read of the thread's own
-- copy. The cipher is the server's; it is a parameter.
pub mod Coherent
pub mod RowCipher
pub mod RoundTrip
pub mod Examples
use tidesdb_mysql.Base.{
  ℕ, zero, suc, ◌+◌, ◌*◌, ◌/◌, ◌%◌, ◌^◌, Bool, true, false, not, ◌&&◌, ◌||◌, Option, none, some,
  List, [], ◌∷◌, if◌then◌else◌, ◌==◌, length, replicate,
}

abbrev pub master_key_len : ℕ
master_key_len = 32

abbrev pub aes_block_len : ℕ
aes_block_len = 16

-- A thread's copy of the key, and the generation that it is of.
pub record Copy : Type 0 where
  pub tls_key : List ℕ
  pub tls_gen : ℕ

pub record Keys : Type 0 where
  pub master_key : List ℕ
  pub loaded : Bool
  pub gen : ℕ
  pub copies : ℕ → Copy

abbrev pub zero_key : List ℕ
zero_key = replicate master_key_len 0

abbrev pub start : Keys
start = record {
  master_key = zero_key;
  loaded = false;
  gen = 0;
  copies = λ t. record { tls_key = zero_key; tls_gen = 0 };
}

-- `file` is what the file holds, none where the path is empty or the file cannot be opened. The result
-- is true on an error, as in the source.
unfoldable pub load_from_file : Option (List ℕ) → Keys → Bool × Keys
load_from_file none k = (true, k)
load_from_file (some file) k =
    if length file == master_key_len
    then (false, record k { master_key = file; loaded = true; gen = (k.gen + 1) % 2 ^ 64 })
    else (true, k)

unfoldable pub clear : Keys → Keys
clear k = record k { master_key = zero_key; loaded = false; gen = (k.gen + 1) % 2 ^ 64 }

-- ENCRYPTION_KEY_VERSION_INVALID is none.
unfoldable pub get_latest_version : Keys → Option ℕ
get_latest_version k = if k.loaded then some 1 else none

unfoldable pub set_copy : ℕ → Copy → Keys → Keys
set_copy t c k = record k { copies = λ u. if u == t then c else k.copies u }

-- The key for the thread `t`, none for the result -1.
unfoldable pub encryption_key_get : ℕ → Keys → Option (List ℕ) × Keys
encryption_key_get t k =
    if not (k.gen == 0) && (k.copies t).tls_gen == k.gen
    then (some (k.copies t).tls_key, k)
    else if not k.loaded
    then (none, set_copy t (record { tls_key = zero_key; tls_gen = 0 }) k)
    else (some k.master_key, set_copy t (record { tls_key = k.master_key; tls_gen = k.gen }) k)

-- With the wrap-around of an unsigned int.
unfoldable pub encrypted_length : ℕ → ℕ
encrypted_length src_len = (src_len / aes_block_len + 1) * aes_block_len % 2 ^ 32

-- `aes` encrypts or decrypts by key and initialisation vector, none for a negative result.
unfoldable pub encryption_crypt :
    (List ℕ → List ℕ → List ℕ → Option (List ℕ)) → Keys → List ℕ → List ℕ → List ℕ → Option (List ℕ)
encryption_crypt aes k src key iv =
    if not (length iv == aes_block_len)
    then none
    else if not k.loaded
    then none
    else if not (length key == master_key_len)
    then none
    else aes key iv src
