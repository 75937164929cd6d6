-- ===== src/Pkcs12/Ring.antt =====
-- What src/pkcs12.rs calls of ring, of the crates aes and cbc and of the CPU, as a record of functions, and
-- the laws that the code relies on: how long digests and derived keys are.
use fastsigner.Base.{ℕ, ◌<◌, ◌≡◌, Bool, Option, some, List, Bytes, length}

pub data Sha : Type 0 where
  sha1 sha256 sha384 sha512 : Sha

-- `cbc_new` has the key, the initialization vector and a decryptor, whose state is a byte string;
-- `sha_ext` is the compression function where `ShaExt::detect` finds the instructions.
pub record Ring : Type 0 where
  pub output_len : Sha → ℕ
  pub block_len : Sha → ℕ
  pub digest : Sha → Bytes → Bytes
  pub hmac_verify : Sha → Bytes → Bytes → Bytes → Bool
  pub derive : Sha → ℕ → Bytes → Bytes → ℕ → Bytes
  pub cbc_new : Bytes → Bytes → Option Bytes
  pub decrypt_block : Bytes → Bytes → Bytes × Bytes
  pub to_lowercase : Bytes → Bytes
  pub sha_ext : Option (List ℕ → Bytes → List ℕ)

-- The lengths that the crates document; a state of SHA-256 has eight words.
pub record IsRing (r : Ring) : Type 0 where
  pub output_positive : (a : Sha) → 0 < r.output_len a
  pub block_positive : (a : Sha) → 0 < r.block_len a
  pub digest_len : (a : Sha) (m : Bytes) → length (r.digest a m) ≡ r.output_len a
  pub sha256_len : r.output_len sha256 ≡ 32
  pub block_out : (state b : Bytes) → length b ≡ 16 → length ((r.decrypt_block state b).0) ≡ 16
  pub ext_words :
      (block : List ℕ → Bytes → List ℕ)
      → r.sha_ext ≡ some block
      → (s : List ℕ) (m : Bytes) → length (block s m) ≡ 8
