-- ===== src/Pkcs12/Pbes2.antt =====
-- src/pkcs12.rs: `cbc_decrypt` and `pbes2_decrypt`.
pub mod Total
pub mod Unpad
use fastsigner.Base.{
  zero_iterations, ciphertext_length, key_length_mismatch, no_iterations, pbes2_cipher,
  aes_iv_length, encryption_algorithm, key_derivation, pbkdf2_parameters, legacy_pbe, pbkdf2_prf, ℕ,
  zero, suc, ◌-◌, ◌/◌, ◌%◌, Bool, false, Option, some, none, List, [], ◌∷◌, ◌++◌, Bytes, length,
  take, drop, replicate, get_elem?, Outcome, ok, err, codes, slice, index, bytes_eq, ◌>>=◌, ◌>>◌,
  if◌then◌else◌, fail_if, ok_or, ltb, ◌==◌, not, ◌||◌, panic,
}
use fastsigner.Sha256.Derive.{pbkdf2_hmac_sha256}
use fastsigner.Pkcs12.{Tlv, children, child, uint}
use fastsigner.Pkcs12.Oids.{
  oid_legacy_pbe_prefix, oid_pbes2, oid_pbkdf2, oid_hmac_prefix, oid_aes_cbc_prefix, extends,
}
use fastsigner.Pkcs12.Ring.{Ring, Sha, sha1, sha256, sha384, sha512}
use fastsigner.Pkcs12.Text.{as_bytes}

-- The names of the schemes, by the last byte of the identifier.
unfoldable pub pbe_name : ℕ → Bytes
pbe_name b =
    if b == 1
    then codes "pbeWithSHAAnd128BitRC4"
    else if b == 2
    then codes "pbeWithSHAAnd40BitRC4"
    else if b == 3
    then codes "pbeWithSHAAnd3-KeyTripleDES-CBC"
    else if b == 4
    then codes "pbeWithSHAAnd2-KeyTripleDES-CBC"
    else if b == 5
    then codes "pbeWithSHAAnd128BitRC2-CBC"
    else if b == 6
    then codes "pbeWithSHAAnd40BitRC2-CBC"
    else codes "unknown PKCS#12 PBE"

unfoldable pub legacy_pbe_name : Bytes → Outcome (Option Bytes)
legacy_pbe_name oid =
    if not (extends oid oid_legacy_pbe_prefix)
    then ok none
    else (do b ← index oid (length oid_legacy_pbe_prefix); ok (some (pbe_name b)))

-- `run`, over the blocks of `chunks_exact_mut(16)`; what is left stays.
unfoldable pub cbc_loop : Ring → ℕ → Bytes → Bytes → Bytes
cbc_loop r zero state body = body
cbc_loop r (suc n) state body =
    let (plain, state') = r.decrypt_block state (take 16 body) in
    plain ++ cbc_loop r n state' (drop 16 body)

-- The ciphers by the length of the key are one parameter, which has the key.
unfoldable pub cbc_decrypt : Ring → Bytes → Bytes → Bytes → Outcome Bytes
cbc_decrypt r key iv body = do
  state ← ok_or (r.cbc_new key iv) aes_iv_length
  ok (cbc_loop r (length body / 16) state body)

-- What the optional parameters of PBKDF2 set.
pub record KdfParams : Type 0 where
  pub key_length : Option ℕ
  pub prf : Sha
  pub hmac_sha256 : Bool

unfoldable pub prf_of : ℕ → Outcome Sha
prf_of sub =
    if sub == 7
    then ok sha1
    else if sub == 9
    then ok sha256
    else if sub == 10
    then ok sha384
    else if sub == 11
    then ok sha512
    else err pbkdf2_prf

-- The last byte of the identifier of an HMAC, or 0.
unfoldable pub hmac_sub : Bytes → Outcome ℕ
hmac_sub oid = if extends oid oid_hmac_prefix then index oid (length oid_hmac_prefix) else ok 0

-- The body of the loop over the parameters behind the salt and the count.
unfoldable pub kdf_param : Tlv → KdfParams → Outcome KdfParams
kdf_param t k =
    if t.tag == 0x02
    then (do
      l ← uint t (codes "PBKDF2 key length")
      ok (record { key_length = some l; prf = k.prf; hmac_sha256 = k.hmac_sha256 }))
    else if t.tag == 0x30
    then (do
      p ← children t.body
      oid ← child p 0 0x06 (codes "PBKDF2 PRF")
      sub ← hmac_sub oid.body
      prf ← prf_of sub
      ok (record { key_length = k.key_length; prf = prf; hmac_sha256 = sub == 9 }))
    else err pbkdf2_parameters

unfoldable pub kdf_params : List Tlv → KdfParams → Outcome KdfParams
kdf_params [] k = ok k
kdf_params (t ∷ ts) k = do k ← kdf_param t k; kdf_params ts k

-- The length of the key that the cipher takes.
unfoldable pub aes_key_len : Bytes → Outcome ℕ
aes_key_len eoid =
    if extends eoid oid_aes_cbc_prefix
    then (do
      b ← index eoid (length oid_aes_cbc_prefix)
      if b == 2
          then ok 16
          else if b == 22
          then ok 24
          else if b == 42
          then ok 32
          else err pbes2_cipher)
    else err pbes2_cipher

-- `key_length.is_some_and(|l| l != key_len)`.
abbrev pub is_other_length : Option ℕ → ℕ → Bool
is_other_length none key_len = false
is_other_length (some l) key_len = not (l == key_len)

-- The key, with the extension or without.
unfoldable pub derive_with :
    Ring → Option (List ℕ → Bytes → List ℕ) → Sha → List ℕ → Bytes → ℕ → ℕ → Outcome Bytes
derive_with r none prf password salt iterations key_len =
    ok (r.derive prf iterations salt (as_bytes password) key_len)
derive_with r (some block) prf password salt iterations key_len =
    pbkdf2_hmac_sha256 block (as_bytes password) salt iterations key_len

-- `ShaExt::detect().filter(|_| hmac_sha256)`.
unfoldable pub derive_key : Ring → KdfParams → List ℕ → Bytes → ℕ → ℕ → Outcome Bytes
derive_key r k password salt iterations key_len =
    derive_with r (if k.hmac_sha256 then r.sha_ext else none) k.prf password salt iterations key_len

-- `plain` has its padding taken off, or had none.
unfoldable pub unpad : Bytes → Outcome (Option Bytes)
unpad plain = do
  pad ← index plain (length plain - 1)
  if (pad == 0) || ltb 16 pad then ok none else (do
    run ← slice plain (length plain - pad) (length plain)
    if bytes_eq run (replicate (length run) pad)
        then ok (some (take (length plain - pad) plain))
        else ok none)

-- `&kp[2..]`.
abbrev pub behind_two : List Tlv → Outcome (List Tlv)
behind_two (salt ∷ count ∷ more) = ok more
behind_two _ = panic

-- The key derivation that the parameters ask for, by the length of the key.
unfoldable pub kdf_of : Ring → List Tlv → List ℕ → Outcome (KdfParams × (ℕ → Outcome Bytes))
kdf_of r params password = do
  kdf_t ← child params 0 0x30 (codes "PBES2 key derivation")
  kdf ← children kdf_t.body
  oid ← child kdf 0 0x06 (codes "PBES2 key derivation")
  fail_if (not (bytes_eq oid.body oid_pbkdf2)) key_derivation
  kp_t ← child kdf 1 0x30 (codes "PBKDF2 parameters")
  kp ← children kp_t.body
  salt ← child kp 0 0x04 (codes "PBKDF2 salt")
  count ← ok_or (get_elem? kp 1) no_iterations
  iterations ← uint count (codes "PBKDF2 iteration count")
  fail_if (iterations == 0) zero_iterations
  more ← behind_two kp
  k ← kdf_params more (record { key_length = none; prf = sha1; hmac_sha256 = false })
  ok (k, derive_key r k password salt.body iterations)

-- `if let Some(name) = legacy_pbe_name(oid)`.
unfoldable pub refuse_legacy : Option Bytes → Outcome (Unit {0})
refuse_legacy none = ok tt
refuse_legacy (some name) = err (legacy_pbe name)

unfoldable pub pbes2_decrypt : Ring → Tlv → Bytes → List ℕ → Outcome (Option Bytes)
pbes2_decrypt r alg body password = do
  a ← children alg.body
  oid ← child a 0 0x06 (codes "encryption algorithm")
  legacy ← legacy_pbe_name oid.body
  refuse_legacy legacy
  fail_if (not (bytes_eq oid.body oid_pbes2)) encryption_algorithm
  params_t ← child a 1 0x30 (codes "PBES2 parameters")
  params ← children params_t.body
  (k, key_of) ← kdf_of r params password
  enc_t ← child params 1 0x30 (codes "PBES2 encryption scheme")
  enc ← children enc_t.body
  eoid ← child enc 0 0x06 (codes "PBES2 encryption scheme")
  key_len ← aes_key_len eoid.body
  fail_if (is_other_length k.key_length key_len) key_length_mismatch
  iv ← child enc 1 0x04 (codes "AES IV")
  fail_if ((length body == 0) || not (length body % 16 == 0)) ciphertext_length
  key ← key_of key_len
  plain ← cbc_decrypt r key iv.body body
  unpad plain
