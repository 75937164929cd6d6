-- ===== src/Jks.antt =====
-- src/jks.rs: the reader of Java keystores and its key protection. SHA-1, which is ring's, is the
-- parameter `sha1`; a text is its bytes, and a password its UTF-16 units.
pub mod Entries
pub mod EntryLoop
pub mod Integrity
pub mod Recover
use Prim.Native.Nat.{bit_xor}
use fastsigner.Base.{
  ℕ, zero, suc, ◌+◌, ◌-◌, ◌*◌, ◌/◌, ◌%◌, min, List, [], ◌∷◌, ◌++◌, Option, none, Bytes, length,
  take, drop, Bool, true, false, not, ◌&&◌, ltb, leb, ◌==◌, if◌then◌else◌, Outcome, ok, err, panic,
  out_of_fuel, ◌>>=◌, ◌>>◌, fail_if, slice, index, bytes_eq, codes, truncated_keystore,
  jceks_keystore, pkcs12_keystore, not_a_keystore, keystore_version, certificate_type, entry_tag,
  wrong_integrity, not_jks_protected, protected_too_short, wrong_key_password,
}
use fastsigner.Keys.Der.{der_expect}

abbrev pub salt_len : ℕ
salt_len = 20

abbrev pub digest_len : ℕ
digest_len = 20

abbrev pub key_protector_oid : Bytes
key_protector_oid = 0x2b ∷ 0x06 ∷ 0x01 ∷ 0x04 ∷ 0x01 ∷ 0x2a ∷ 0x02 ∷ 0x11 ∷ 0x01 ∷ 0x01 ∷ []

pub data StoreKind : Type 0 where
  jks jceks pkcs12 unknown : StoreKind

-- `from_be_bytes`, after what was read before.
unfoldable pub from_be : ℕ → Bytes → ℕ
from_be acc [] = acc
from_be acc (b ∷ bs) = from_be (acc * 256 + b) bs

unfoldable pub detect : Bytes → StoreKind
detect (b0 ∷ b1 ∷ b2 ∷ b3 ∷ rest) =
    let magic = from_be 0 (b0 ∷ b1 ∷ b2 ∷ b3 ∷ []) in
    if magic == 0xfeedfeed
    then jks
    else if magic == 0xcececece
    then jceks
    else if b0 == 0x30
    then pkcs12
    else unknown
detect _ = unknown

pub record KeyEntry : Type 0 where
  pub alias : Bytes
  pub protected_key : Bytes
  pub chain : List Bytes
  pub recovered : Option (Outcome Bytes)

pub record Jks : Type 0 where
  pub keys : List KeyEntry
  pub trusted_certs : ℕ

pub record Cursor : Type 0 where
  pub b : Bytes
  pub p : ℕ

-- `Cursor::take`. A sum that does not fit 64 bits is past the end too.
unfoldable pub cursor_take : Cursor → ℕ → Outcome (Bytes × Cursor)
cursor_take c n = do
  fail_if (ltb (length c.b) (c.p + n)) truncated_keystore
  s ← slice c.b c.p (c.p + n)
  ok (s, record { b = c.b; p = c.p + n })

unfoldable pub cursor_u32 : Cursor → Outcome (ℕ × Cursor)
cursor_u32 c = do (s, c) ← cursor_take c 4; ok (from_be 0 s, c)

unfoldable pub cursor_u64 : Cursor → Outcome (ℕ × Cursor)
cursor_u64 c = do (s, c) ← cursor_take c 8; ok (from_be 0 s, c)

unfoldable pub cursor_utf : Cursor → Outcome (Bytes × Cursor)
cursor_utf c = do (s, c) ← cursor_take c 2; cursor_take c (from_be 0 s)

unfoldable pub password_bytes : List ℕ → Bytes
password_bytes [] = []
password_bytes (u ∷ pw) = u / 256 ∷ u % 256 ∷ password_bytes pw

-- The type of a certificate, which version 2 names.
unfoldable pub chain_type : ℕ → Cursor → Outcome Cursor
chain_type version c =
    if version == 2
    then (do
      (t, c) ← cursor_utf c
      fail_if (not (bytes_eq t (codes "X.509"))) (certificate_type t)
      ok c)
    else ok c

-- The loop over a chain.
unfoldable pub chain_loop : ℕ → ℕ → Cursor → List Bytes → Outcome (List Bytes × Cursor)
chain_loop version zero c chain = ok (chain, c)
chain_loop version (suc left) c chain = do
  c ← chain_type version c
  (n, c) ← cursor_u32 c
  (cert, c) ← cursor_take c n
  chain_loop version left c (chain ++ cert ∷ [])

-- An entry with a key, behind its alias and its date.
unfoldable pub key_entry : ℕ → Bytes → Cursor → Jks → Outcome (Jks × Cursor)
key_entry version alias c store = do
  (n, c) ← cursor_u32 c
  (protected_key, c) ← cursor_take c n
  (chain_len, c) ← cursor_u32 c
  (chain, c) ← chain_loop version chain_len c []
  let key : KeyEntry = record {
    alias = alias;
    protected_key = protected_key;
    chain = chain;
    recovered = none;
  }
  ok (record { keys = store.keys ++ key ∷ []; trusted_certs = store.trusted_certs }, c)

-- The type of a trusted certificate is read and not looked at.
unfoldable pub cert_type : ℕ → Cursor → Outcome Cursor
cert_type version c = if version == 2 then (do (t, c) ← cursor_utf c; ok c) else ok c

unfoldable pub cert_entry : ℕ → Cursor → Jks → Outcome (Jks × Cursor)
cert_entry version c store = do
  c ← cert_type version c
  (n, c) ← cursor_u32 c
  (cert, c) ← cursor_take c n
  ok (record { keys = store.keys; trusted_certs = store.trusted_certs + 1 }, c)

-- The body of the loop over the entries.
unfoldable pub store_entry : ℕ → Cursor → Jks → Outcome (Jks × Cursor)
store_entry version c store = do
  (tag, c) ← cursor_u32 c
  (alias, c) ← cursor_utf c
  (date_ms, c) ← cursor_u64 c
  if tag == 1
      then key_entry version alias c store
      else if tag == 2
      then cert_entry version c store
      else err (entry_tag tag)

unfoldable pub entry_loop : ℕ → ℕ → Cursor → Jks → Outcome (Jks × Cursor)
entry_loop version zero c store = ok (store, c)
entry_loop version (suc left) c store = do
  (store, c) ← store_entry version c store
  entry_loop version left c store

-- The kinds that `parse` does not read.
unfoldable pub only_jks : StoreKind → Outcome (Unit {0})
only_jks jks = ok tt
only_jks jceks = err jceks_keystore
only_jks pkcs12 = err pkcs12_keystore
only_jks unknown = err not_a_keystore

unfoldable pub parse : (Bytes → Bytes) → Bytes → List ℕ → Outcome Jks
parse sha1 bytes store_password = do
  only_jks (detect bytes)
  (version, c) ← cursor_u32 (record { b = bytes; p = 4 })
  fail_if (not (version == 1) && not (version == 2)) (keystore_version version)
  (count, c) ← cursor_u32 c
  (store, c) ← entry_loop version count c (record { keys = []; trusted_certs = 0 })
  let data_end = c.p
  (stored, c) ← cursor_take c digest_len
  front ← slice bytes 0 data_end
  fail_if
      (not (
        bytes_eq (sha1 (password_bytes store_password ++ codes "Mighty Aphrodite" ++ front))
          stored))
      wrong_integrity
  ok store

-- `iter().zip(..).map(|(a, b)| a ^ b)`, as far as both go.
abbrev pub zip_xor : Bytes → Bytes → Bytes
zip_xor (x ∷ xs) (y ∷ ys) = bit_xor x y ∷ zip_xor xs ys
zip_xor _ _ = []

-- The loop that decrypts; each round takes a byte at least.
unfoldable pub recover_loop : (Bytes → Bytes) → Bytes → ℕ → Bytes → Bytes → Bytes → Outcome Bytes
recover_loop sha1 pw zero encrypted block plain =
    if ltb (length plain) (length encrypted) then out_of_fuel else ok plain
recover_loop sha1 pw (suc fuel) encrypted block plain =
    let next = (do
      let block = sha1 (pw ++ block)
      let off = length plain
      let n = min (length encrypted - off) digest_len
      run ← slice encrypted off (off + n)
      recover_loop sha1 pw fuel encrypted block (plain ++ zip_xor run block)) in
    if ltb (length plain) (length encrypted) then next else ok plain

-- What is done with the encrypted data.
unfoldable pub recover_data : (Bytes → Bytes) → Bytes → Bytes → Outcome Bytes
recover_data sha1 pw body = do
  fail_if (ltb (length body) (salt_len + digest_len + 1)) protected_too_short
  salt ← slice body 0 salt_len
  encrypted ← slice body salt_len (length body - digest_len)
  check ← slice body (length body - digest_len) (length body)
  plain ← recover_loop sha1 pw (length encrypted) encrypted salt []
  fail_if (not (bytes_eq (sha1 (pw ++ plain)) check)) wrong_key_password
  ok plain

unfoldable pub recover_key : (Bytes → Bytes) → Bytes → List ℕ → Outcome Bytes
recover_key sha1 protected key_password = do
  (p, _) ← der_expect protected 0 0x30
  (alg_start, alg_len) ← der_expect protected p 0x30
  (oid_start, oid_len) ← der_expect protected alg_start 0x06
  oid ← slice protected oid_start (oid_start + oid_len)
  fail_if (not (bytes_eq oid key_protector_oid)) not_jks_protected
  (d_start, d_len) ← der_expect protected (alg_start + alg_len) 0x04
  body ← slice protected d_start (d_start + d_len)
  recover_data sha1 (password_bytes key_password) body
