-- ===== src/Pkcs12/Mac/Total.antt =====
-- `verify_mac` ends, whatever the elements of the MacData.
use fastsigner.Base.{
  ℕ, ◌+◌, ◌≡◌, true, Option, some, none, List, Bytes, length, get_elem?, arith, codes, index,
  bytes_eq, ◌==◌,
}
use fastsigner.Base.{Ensures-map, if-Ensures}
use fastsigner.Keys.Der.Bounds.{Ends, >>=-Ends, fail_if-Ends, if-Ends}
use fastsigner.Pkcs12.{Tlv, children, child}
use fastsigner.Pkcs12.Elements.{child-Ends, children-Ends}
use fastsigner.Pkcs12.Uint.{uint-Ends}
use fastsigner.Pkcs12.Oids.{oid_sha1, oid_sha2_prefix, oid_pbmac1, extends}
use fastsigner.Pkcs12.Ring.{Ring, IsRing}
use fastsigner.Pkcs12.Kdf.{bmp_password, pkcs12_kdf}
use fastsigner.Pkcs12.Kdf.Add.{index-get_or}
use fastsigner.Pkcs12.Kdf.Total.{length-pkcs12_kdf}
use fastsigner.Pkcs12.Mac.{sha2_of, mac_hash, mac_count, verify_mac}

-- The byte behind a prefix is there.
pub index-extends :
    (oid prefix : Bytes) → extends oid prefix ≡ true → Ends (index oid (length prefix))
unfolding extends
index-extends oid prefix e =
    let longer : length oid ≡ length prefix + 1 = ground arith in
    rw (index-get_or oid (length prefix) (omega arith)) tt

sha2_of-Ends : (b : ℕ) → Ends (sha2_of b)
unfolding sha2_of
sha2_of-Ends b = if-Ends (b == 1) _ _ tt (if-Ends (b == 2) _ _ tt (if-Ends (b == 3) _ _ tt tt))

mac_hash-Ends : (oid : Bytes) → Ends (mac_hash oid)
unfolding mac_hash
mac_hash-Ends oid = if-Ends (bytes_eq oid oid_sha1) _ _ tt (
    if-Ensures (λ _. Unit) (extends oid oid_sha2_prefix) _ _
      (λ e.
        >>=-Ends (index oid (length oid_sha2_prefix)) sha2_of (index-extends oid oid_sha2_prefix e)
          sha2_of-Ends)
      (λ _. if-Ends (bytes_eq oid oid_pbmac1) _ _ tt tt))

mac_count-Ends : (o : Option Tlv) → Ends (mac_count o)
unfolding mac_count
mac_count-Ends none = tt
mac_count-Ends (some t) = uint-Ends t (codes "MAC iteration count")

pub verify_mac-Ends :
    (r : Ring) (mac_data : Tlv) (auth_safe : Bytes) (password : List ℕ)
    → IsRing r
    → Ends (verify_mac r mac_data auth_safe password)
unfolding verify_mac
verify_mac-Ends r mac_data auth_safe password law =
    >>=-Ends (children mac_data.body) _ (children-Ends mac_data.body) (λ m.
      >>=-Ends (child m 0 0x30 (codes "MacData")) _ (child-Ends m 0 0x30 _) (λ di_t.
        >>=-Ends (children di_t.body) _ (children-Ends di_t.body) (λ di.
          >>=-Ends (child di 0 0x30 (codes "MAC algorithm")) _ (child-Ends di 0 0x30 _) (λ alg_t.
            >>=-Ends (children alg_t.body) _ (children-Ends alg_t.body) (λ alg.
              >>=-Ends (child alg 0 0x06 (codes "MAC algorithm")) _ (child-Ends alg 0 0x06 _)
                (λ oid.
                  >>=-Ends (child di 1 0x04 (codes "MAC digest")) _ (child-Ends di 1 0x04 _)
                    (λ expected.
                      >>=-Ends (child m 1 0x04 (codes "MAC salt")) _ (child-Ends m 1 0x04 _)
                        (λ salt.
                          >>=-Ends (mac_count (get_elem? m 2)) _ (mac_count-Ends (get_elem? m 2))
                            (λ iterations.
                              >>=-Ends (mac_hash oid.body) _ (mac_hash-Ends oid.body) (λ h.
                                fail_if-Ends (iterations == 0) _ _ (
                                  >>=-Ends
                                    (pkcs12_kdf r h (bmp_password password) salt.body 3 iterations
                                      (r.output_len h))
                                    _
                                    (Ensures-map
                                      (pkcs12_kdf r h (bmp_password password) salt.body 3 iterations
                                        (r.output_len h))
                                      (λ a i. tt)
                                      (length-pkcs12_kdf r law h (bmp_password password) salt.body 3
                                        iterations (r.output_len h)))
                                    (λ key.
                                      if-Ends (r.hmac_verify h key auth_safe expected.body) _ _ tt
                                        tt))))))))))))
