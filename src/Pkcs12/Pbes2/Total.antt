-- ===== src/Pkcs12/Pbes2/Total.antt =====
-- `pbes2_decrypt` ends, whatever the algorithm and the data.
use fastsigner.Base.{
  Bool-cases, ℕ, zero, suc, ◌*◌, ◌/◌, ◌%◌, ◌≡◌, refl, inl, inr, Bool, true, false, Option, some,
  none, List, [], ◌∷◌, Bytes, length, take, drop, get_elem?, Outcome, ok, Ensures, arith, codes,
  index, bytes_eq, if◌then◌else◌, ok_or, ◌==◌, not,
}
use fastsigner.Base.{
  if-Ensures, >>=-Ensures, fail_if-Ensures, length-append, length-take, length-drop, no_iterations,
  aes_iv_length, key_derivation, zero_iterations,
}
use fastsigner.Keys.Der.Bounds.{>>=-Then, Ends, >>=-Ends, if-Ends}
use fastsigner.Sha256.Derive.Total.{pbkdf2_hmac_sha256-Yields}
use fastsigner.Pkcs12.{Tlv, children, child, uint}
use fastsigner.Pkcs12.Elements.{child-Ends, children-Ends, ok_or-Ends}
use fastsigner.Pkcs12.Uint.{uint-Ends}
use fastsigner.Pkcs12.Oids.{
  oid_legacy_pbe_prefix, oid_pbkdf2, oid_hmac_prefix, oid_aes_cbc_prefix, extends,
}
use fastsigner.Pkcs12.Ring.{Ring, IsRing, Sha, sha1}
use fastsigner.Pkcs12.Text.{as_bytes}
use fastsigner.Pkcs12.Mac.Total.{index-extends}
use fastsigner.Pkcs12.Pbes2.{
  legacy_pbe_name, cbc_loop, cbc_decrypt, KdfParams, prf_of, hmac_sub, kdf_param, kdf_params,
  aes_key_len, derive_with, derive_key, behind_two, kdf_of, refuse_legacy,
}

pub legacy_pbe_name-Ends : (oid : Bytes) → Ends (legacy_pbe_name oid)
unfolding legacy_pbe_name
legacy_pbe_name-Ends oid = elim (Bool-cases (extends oid oid_legacy_pbe_prefix)) [
  | inr other ↦ rw other tt
  | inl e ↦ rw e (
      >>=-Ends (index oid (length oid_legacy_pbe_prefix)) _
        (index-extends oid oid_legacy_pbe_prefix e) (λ b. tt))
]

pub refuse_legacy-Ends : (o : Option Bytes) → Ends (refuse_legacy o)
unfolding refuse_legacy
refuse_legacy-Ends none = tt
refuse_legacy-Ends (some name) = tt

prf_of-Ends : (sub : ℕ) → Ends (prf_of sub)
unfolding prf_of
prf_of-Ends sub =
    if-Ends (sub == 7) _ _ tt
      (if-Ends (sub == 9) _ _ tt (if-Ends (sub == 10) _ _ tt (if-Ends (sub == 11) _ _ tt tt)))

hmac_sub-Ends : (oid : Bytes) → Ends (hmac_sub oid)
unfolding hmac_sub
hmac_sub-Ends oid =
    if-Ensures (λ _. Unit) (extends oid oid_hmac_prefix) _ _
      (λ e. index-extends oid oid_hmac_prefix e) (λ _. tt)

kdf_param-Ends : (t : Tlv) (k : KdfParams) → Ends (kdf_param t k)
unfolding kdf_param
kdf_param-Ends t k =
    if-Ends (t.tag == 0x02) _ _
      (>>=-Ends (uint t (codes "PBKDF2 key length")) _ (uint-Ends t _) (λ l. tt))
      (if-Ends (t.tag == 0x30) _ _
        (>>=-Ends (children t.body) _ (children-Ends t.body) (λ p.
          >>=-Ends (child p 0 0x06 (codes "PBKDF2 PRF")) _ (child-Ends p 0 0x06 _) (λ oid.
            >>=-Ends (hmac_sub oid.body) _ (hmac_sub-Ends oid.body)
              (λ sub. >>=-Ends (prf_of sub) _ (prf_of-Ends sub) (λ prf. tt)))))
        tt)

kdf_params-Ends : (ts : List Tlv) (k : KdfParams) → Ends (kdf_params ts k)
unfolding kdf_params
kdf_params-Ends [] k = tt
kdf_params-Ends (t ∷ ts) k =
    >>=-Ends (kdf_param t k) _ (kdf_param-Ends t k) (λ k'. kdf_params-Ends ts k')

pub aes_key_len-Ends : (eoid : Bytes) → Ends (aes_key_len eoid)
unfolding aes_key_len
aes_key_len-Ends eoid =
    if-Ensures (λ _. Unit) (extends eoid oid_aes_cbc_prefix) _ _
      (λ e.
        >>=-Ends (index eoid (length oid_aes_cbc_prefix)) _
          (index-extends eoid oid_aes_cbc_prefix e)
          (λ b. if-Ends (b == 2) _ _ tt (if-Ends (b == 22) _ _ tt (if-Ends (b == 42) _ _ tt tt))))
      (λ _. tt)

-- A list with a second element has two.
behind_two-Ends :
    (kp : List Tlv) {count : Tlv}
    → ok_or (get_elem? kp 1) no_iterations ≡ ok count
    → Ends (behind_two kp)
behind_two-Ends [] e = absurd (cc)
behind_two-Ends (salt ∷ []) e = absurd (cc)
behind_two-Ends (salt ∷ count ∷ more) e = tt

module _ (r : Ring) (law : IsRing r) where
  cbc_loop-length :
      (n : ℕ) (state body : Bytes)
      → length body ≡ n * 16
      → length (cbc_loop r n state body) ≡ n * 16
  unfolding cbc_loop
  cbc_loop-length zero state body h = h
  cbc_loop-length (suc n) state body h =
      let first = r.decrypt_block state (take 16 body) in
      let rest = cbc_loop r n (first.1) (drop 16 body) in
      omega (
        arith,
        length-append (first.0) rest,
        law.block_out state (take 16 body) (omega (arith, length-take 16 body)),
        cbc_loop-length n (first.1) (drop 16 body) (omega (arith, length-drop 16 body)),
      )

  pub cbc_decrypt-length :
      (key iv body : Bytes)
      → length body % 16 ≡ 0
      → Ensures (λ text. length text ≡ length body) (cbc_decrypt r key iv body)
  unfolding cbc_decrypt
  cbc_decrypt-length key iv body h =
      >>=-Then (λ text. length text ≡ length body) (ok_or (r.cbc_new key iv) aes_iv_length) _
        (ok_or-Ends (r.cbc_new key iv) aes_iv_length)
        (λ state. omega (arith, cbc_loop-length (length body / 16) state body (omega arith)))

  derive_with-Ends :
      (o : Option (List ℕ → Bytes → List ℕ)) (prf : Sha) (password : List ℕ) (salt : Bytes)
      (iterations n : ℕ)
      → ((block : List ℕ → Bytes → List ℕ) → o ≡ some block → r.sha_ext ≡ some block)
      → Ends (derive_with r o prf password salt iterations n)
  unfolding derive_with
  derive_with-Ends none prf password salt iterations n h = tt
  derive_with-Ends (some block) prf password salt iterations n h =
      let (key, run, size) =
        pbkdf2_hmac_sha256-Yields block (law.ext_words block (h block refl)) (as_bytes password)
          salt iterations n in
      rw run tt

  filtered :
      (t : Bool) (o : Option (List ℕ → Bytes → List ℕ)) (block : List ℕ → Bytes → List ℕ)
      → (if t then o else none) ≡ some block
      → o ≡ some block
  filtered true o block e = e
  filtered false o block e = absurd (cc)

  derive_key-Ends :
      (k : KdfParams) (password : List ℕ) (salt : Bytes) (iterations n : ℕ)
      → Ends (derive_key r k password salt iterations n)
  unfolding derive_key
  derive_key-Ends k password salt iterations n =
      derive_with-Ends (if k.hmac_sha256 then r.sha_ext else none) k.prf password salt iterations n
        (filtered k.hmac_sha256 r.sha_ext)

  -- A key of any length can be derived.
  abbrev pub Derives : KdfParams × (ℕ → Outcome Bytes) → Type 0
  Derives (k, key_of) = (n : ℕ) → Ends (key_of n)

  pub kdf_of-Derives :
      (params : List Tlv) (password : List ℕ) → Ensures Derives (kdf_of r params password)
  unfolding kdf_of
  kdf_of-Derives params password =
      let P : KdfParams × (ℕ → Outcome Bytes) → Type 0 = Derives in
      >>=-Then P (child params 0 0x30 (codes "PBES2 key derivation")) _ (child-Ends params 0 0x30 _)
        (λ kdf_t. >>=-Then P (children kdf_t.body) _ (children-Ends kdf_t.body) (λ kdf.
          >>=-Then P (child kdf 0 0x06 (codes "PBES2 key derivation")) _ (child-Ends kdf 0 0x06 _)
            (λ oid. fail_if-Ensures P (not (bytes_eq oid.body oid_pbkdf2)) key_derivation _ (λ is.
              >>=-Then P (child kdf 1 0x30 (codes "PBKDF2 parameters")) _ (child-Ends kdf 1 0x30 _)
                (λ kp_t. >>=-Then P (children kp_t.body) _ (children-Ends kp_t.body) (λ kp.
                  >>=-Then P (child kp 0 0x04 (codes "PBKDF2 salt")) _ (child-Ends kp 0 0x04 _)
                    (λ salt.
                      >>=-Ensures (λ _. Unit) P (ok_or (get_elem? kp 1) no_iterations) _
                        (ok_or-Ends (get_elem? kp 1) no_iterations)
                        (λ count there u.
                          >>=-Then P (uint count (codes "PBKDF2 iteration count")) _
                            (uint-Ends count _)
                            (λ iterations.
                              fail_if-Ensures P (iterations == 0) zero_iterations _ (λ some_left.
                                >>=-Then P (behind_two kp) _ (behind_two-Ends kp there) (λ more.
                                  >>=-Then P
                                    (kdf_params more (record {
                                      key_length = none;
                                      prf = sha1;
                                      hmac_sha256 = false;
                                    }))
                                    _ (kdf_params-Ends more _)
                                    (λ k n.
                                      derive_key-Ends k password salt.body iterations n))))))))))))
