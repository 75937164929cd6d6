-- ===== src/Pkcs12/Mac.antt =====
-- src/pkcs12.rs: `verify_mac`.
pub mod Total
use fastsigner.Base.{
  pkcs12_integrity, mac_algorithm, pbmac1, mac_digest, mac_iterations, ℕ, Option, some, none, List,
  Bytes, length, get_elem?, Outcome, ok, err, codes, index, bytes_eq, ◌>>=◌, ◌>>◌, if◌then◌else◌,
  fail_if, ◌==◌,
}
use fastsigner.Pkcs12.{Tlv, children, child, uint}
use fastsigner.Pkcs12.Oids.{oid_sha1, oid_sha2_prefix, oid_pbmac1, extends}
use fastsigner.Pkcs12.Ring.{Ring, Sha, sha1, sha256, sha384, sha512}
use fastsigner.Pkcs12.Kdf.{bmp_password, pkcs12_kdf}

-- The last byte of the identifier of a SHA-2 hash.
unfoldable pub sha2_of : ℕ → Outcome Sha
sha2_of b =
    if b == 1
    then ok sha256
    else if b == 2
    then ok sha384
    else if b == 3
    then ok sha512
    else err mac_digest

unfoldable pub mac_hash : Bytes → Outcome Sha
mac_hash oid =
    if bytes_eq oid oid_sha1
    then ok sha1
    else if extends oid oid_sha2_prefix
    then (index oid (length oid_sha2_prefix) >>= sha2_of)
    else if bytes_eq oid oid_pbmac1
    then err pbmac1
    else err mac_algorithm

-- `match m.get(2)`: the count of iterations, 1 where there is none.
unfoldable pub mac_count : Option Tlv → Outcome ℕ
mac_count none = ok 1
mac_count (some t) = uint t (codes "MAC iteration count")

unfoldable pub verify_mac : Ring → Tlv → Bytes → List ℕ → Outcome (Unit {0})
verify_mac r mac_data auth_safe password = do
  m ← children mac_data.body
  di_t ← child m 0 0x30 (codes "MacData")
  di ← children di_t.body
  alg_t ← child di 0 0x30 (codes "MAC algorithm")
  alg ← children alg_t.body
  oid ← child alg 0 0x06 (codes "MAC algorithm")
  expected ← child di 1 0x04 (codes "MAC digest")
  salt ← child m 1 0x04 (codes "MAC salt")
  iterations ← mac_count (get_elem? m 2)
  h ← mac_hash oid.body
  fail_if (iterations == 0) mac_iterations
  key ← pkcs12_kdf r h (bmp_password password) salt.body 3 iterations (r.output_len h)
  if r.hmac_verify h key auth_safe expected.body then ok tt else err pkcs12_integrity
