-- ===== src/Pkcs12/Pbes2/Unpad.antt =====
-- The padding behind a decrypted text, and `pbes2_decrypt` as a whole.
use fastsigner.Base.{
  bytes_eq_refl, get_or, ℕ, zero, suc, ◌+◌, ◌-◌, ◌%◌, ◌≤◌, ◌<◌, ◌≡◌, refl, sym, ap, ◌∙◌, false,
  Option, some, none, List, [], ◌∷◌, ◌++◌, Bytes, length, take, drop, replicate, Outcome, ok,
  Ensures, arith, codes, bytes_eq, ◌>>=◌, ◌>>◌, fail_if, ltb, ◌==◌, not, ◌||◌,
}
use fastsigner.Base.{
  Ensures-map, if-Ensures, >>=-Ensures, fail_if-Ensures, bytes_eq_iff, slice_suffix,
  take-append-drop, length-append, length-drop, length-replicate, take-append_self,
  drop-append_self, encryption_algorithm, key_length_mismatch, ciphertext_length,
}
use fastsigner.Keys.Der.Bounds.{Ends, >>=-Ends, fail_if-Ends}
use fastsigner.Pkcs12.{Tlv, children, child}
use fastsigner.Pkcs12.Elements.{child-Ends, children-Ends}
use fastsigner.Pkcs12.Oids.{oid_pbes2}
use fastsigner.Pkcs12.Ring.{Ring, IsRing}
use fastsigner.Pkcs12.Kdf.Add.{index-get_or}
use fastsigner.Pkcs12.Pbes2.{
  cbc_decrypt, KdfParams, legacy_pbe_name, refuse_legacy, aes_key_len, is_other_length, kdf_of,
  unpad, pbes2_decrypt,
}
use fastsigner.Pkcs12.Pbes2.Total.{
  legacy_pbe_name-Ends, refuse_legacy-Ends, aes_key_len-Ends, kdf_of-Derives, Derives,
  cbc_decrypt-length,
}

-- The text of a padded one: what stands in front of 1 to 16 bytes that all hold their number.
abbrev pub IsPadded : Bytes → Bytes → Type 0
IsPadded text padded = (pad : ℕ) × (0 < pad) × (pad ≤ 16) × (padded ≡ text ++ replicate pad pad)

abbrev pub Unpadded : Bytes → Option Bytes → Type 0
Unpadded padded none = Unit
Unpadded padded (some text) = IsPadded text padded

-- A block or more is looked at with no panic, and what is returned was padded.
pub unpad-Unpadded :
    (padded : Bytes) → 16 ≤ length padded → Ensures (Unpadded padded) (unpad padded)
unfolding unpad
unpad-Unpadded padded h =
    let pad = get_or padded (length padded - 1) 0 in
    let n = length padded in
    rw (index-get_or padded (n - 1) (omega arith)) (
      if-Ensures (Unpadded padded) ((pad == 0) || ltb 16 pad) _ _ (λ wrong. tt)
        (λ fine.
          let some_pad : 0 < pad = ground arith in
          let few : pad ≤ 16 = ground arith in
          rw (slice_suffix padded (n - pad) (omega arith)) (
            if-Ensures (Unpadded padded)
              (bytes_eq (drop (n - pad) padded) (replicate (length (drop (n - pad) padded)) pad)) _
              _
              (λ all.
                let size : length (drop (n - pad) padded) ≡ pad =
                  omega (arith, length-drop (n - pad) padded) in
                (
                  pad,
                  some_pad,
                  few,
                  sym (take-append-drop (n - pad) padded)
                      ∙ ap (λ b. take (n - pad) padded ++ b)
                          ((bytes_eq_iff (drop (n - pad) padded)
                                (replicate (length (drop (n - pad) padded)) pad)).0
                              all
                            ∙ ap (λ k. replicate k pad) size),
                ))
              (λ other. tt))))

get_or-replicate : (n i c : ℕ) → i < n → get_or (replicate n c) i 0 ≡ c
get_or-replicate zero i c h = absurd (omega arith)
get_or-replicate (suc n) zero c h = refl
get_or-replicate (suc n) (suc i) c h = get_or-replicate n i c (omega arith)

get_or-append : (a b : Bytes) (i j : ℕ) → j ≡ length a + i → get_or (a ++ b) j 0 ≡ get_or b i 0
get_or-append [] b i j e = let same : j ≡ i = omega arith in rw same refl
get_or-append (x ∷ a) b i zero e = absurd (omega arith)
get_or-append (x ∷ a) b i (suc j) e = get_or-append a b i j (omega arith)

-- A text that was padded is returned.
pub unpad-IsPadded : (text padded : Bytes) → IsPadded text padded → unpad padded ≡ ok (some text)
unfolding unpad
unpad-IsPadded text padded (pad, some_pad, few, is) =
    let size : length padded ≡ length text + pad =
      ap length is
      ∙ length-append text (replicate pad pad)
      ∙ ap (λ k. length text + k) (length-replicate pad pad) in
    let n = length padded in
    let last : get_or padded (n - 1) 0 ≡ pad =
      ap (λ b. get_or b (n - 1) 0) is
      ∙ get_or-append text (replicate pad pad) (pad - 1) (n - 1) (omega arith)
      ∙ get_or-replicate pad (pad - 1) pad (omega arith) in
    let fine : ((pad == 0) || ltb 16 pad) ≡ false = ground arith in
    let start : n - pad ≡ length text = omega arith in
    let end : drop (length text) padded ≡ replicate pad pad =
      ap (drop (length text)) is ∙ drop-append_self text (replicate pad pad) (length text) refl in
    let front : take (length text) padded ≡ text =
      ap (take (length text)) is ∙ take-append_self text (replicate pad pad) (length text) refl in
    rw
      (
        index-get_or padded (n - 1) (omega arith),
        last,
        fine,
        start,
        slice_suffix padded (length text) (omega arith),
        end,
        length-replicate pad pad,
        bytes_eq_refl (replicate pad pad),
        front,
      )
      refl

-- All behind the key derivation.
decrypt_rest :
    (r : Ring) (law : IsRing r) (params : List Tlv) (body : Bytes)
    (k : KdfParams × (ℕ → Outcome Bytes))
    → Derives r law k
    → Ends (do
      enc_t ← child params 1 0x30 (codes "PBES2 encryption scheme")
      enc ← children enc_t.body
      eoid ← child enc 0 0x06 (codes "PBES2 encryption scheme")
      key_len ← aes_key_len eoid.body
      fail_if (is_other_length ((k.0).key_length) key_len) key_length_mismatch
      iv ← child enc 1 0x04 (codes "AES IV")
      fail_if ((length body == 0) || not (length body % 16 == 0)) ciphertext_length
      key ← k.1 key_len
      plain ← cbc_decrypt r key iv.body body
      unpad plain)
decrypt_rest r law params body k derives =
    >>=-Ends (child params 1 0x30 (codes "PBES2 encryption scheme")) _ (child-Ends params 1 0x30 _)
      (λ enc_t. >>=-Ends (children enc_t.body) _ (children-Ends enc_t.body) (λ enc.
        >>=-Ends (child enc 0 0x06 (codes "PBES2 encryption scheme")) _ (child-Ends enc 0 0x06 _)
          (λ eoid. >>=-Ends (aes_key_len eoid.body) _ (aes_key_len-Ends eoid.body) (λ key_len.
            fail_if-Ends (is_other_length ((k.0).key_length) key_len) key_length_mismatch _ (
              >>=-Ends (child enc 1 0x04 (codes "AES IV")) _ (child-Ends enc 1 0x04 _) (λ iv.
                fail_if-Ensures (λ _. Unit) ((length body == 0) || not (length body % 16 == 0))
                  ciphertext_length _
                  (λ whole.
                    let blocks : length body % 16 ≡ 0 = ground arith in
                    let some_left : ¬ (length body ≡ 0) = ground arith in
                    >>=-Ends (k.1 key_len) _ (derives key_len) (λ key.
                      >>=-Ensures (λ text. length text ≡ length body) (λ _. Unit)
                        (cbc_decrypt r key iv.body body) _
                        (cbc_decrypt-length r law key iv.body body blocks)
                        (λ text e size.
                          Ensures-map (unpad text) (λ o i. tt)
                            (unpad-Unpadded text (omega (arith, size, blocks, some_left))))))))))))

-- `pbes2_decrypt` ends on every algorithm and data, with no panic.
pub pbes2_decrypt-Ends :
    (r : Ring) (alg : Tlv) (body : Bytes) (password : List ℕ)
    → IsRing r
    → Ends (pbes2_decrypt r alg body password)
unfolding pbes2_decrypt
pbes2_decrypt-Ends r alg body password law =
    >>=-Ends (children alg.body) _ (children-Ends alg.body) (λ a.
      >>=-Ends (child a 0 0x06 (codes "encryption algorithm")) _ (child-Ends a 0 0x06 _) (λ oid.
        >>=-Ends (legacy_pbe_name oid.body) _ (legacy_pbe_name-Ends oid.body) (λ legacy.
          >>=-Ends (refuse_legacy legacy) _ (refuse_legacy-Ends legacy) (λ new.
            fail_if-Ends (not (bytes_eq oid.body oid_pbes2)) encryption_algorithm _ (
              >>=-Ends (child a 1 0x30 (codes "PBES2 parameters")) _ (child-Ends a 1 0x30 _)
                (λ params_t.
                  >>=-Ends (children params_t.body) _ (children-Ends params_t.body) (λ params.
                    >>=-Ensures (Derives r law) (λ _. Unit) (kdf_of r params password) _
                      (kdf_of-Derives r law params password)
                      (λ k e derives. decrypt_rest r law params body k derives))))))))
