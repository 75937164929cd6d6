-- ===== src/SigBlock/Signers.antt =====
-- The v2 and v3 signers' blocks, split again as a verifier splits them.
use fastsigner.Base.{
  ◌≤◌, drop-append_self, drop-append_at, field-append_right, sym, field-le_bytes, append-nil,
  length-le_bytes, length-append, subst, append_assoc, ℕ, ◌^◌, ◌<◌, ◌≡◌, ap, ◌∙◌, Bool, some, List,
  [], ◌∷◌, ◌++◌, arith, Bytes, length, Outcome, ok, >>=-eq-ok, le_bytes, field, drop,
}
use fastsigner.SigBlock.{
  put_u32, put_lp, SignerInput, seq_lp, seq_lp_pairs, v2_additional_attributes, v2_signed_data,
  v2_signer, v3_signed_data, v3_signer,
}
use fastsigner.SigBlock.Read.{
  lp, lps, IsShort, length-lp, parts, parts-seq_lp, parts-seq_lp_pairs, pair_part, read_lp,
  read_lp-lp, seq_lp-lps,
}

-- What a verifier reads from a v2 signer's block, for the signature `sig` of its signed data.
pub record ReadsV2 (inp : SignerInput) (v3_enabled : Bool) (sig out : Bytes) : Type 0 where
  pub signer :
      parts out
      ≡ some (v2_signed_data inp v3_enabled ∷ seq_lp_pairs ((inp.alg_id, sig) ∷ []) ∷ inp.spki ∷ [])
  pub signatures :
      parts (seq_lp_pairs ((inp.alg_id, sig) ∷ [])) ≡ some (pair_part (inp.alg_id, sig) ∷ [])
  pub signed :
      parts (v2_signed_data inp v3_enabled)
      ≡ some (
          seq_lp_pairs ((inp.alg_id, inp.digest) ∷ [])
          ∷ seq_lp inp.certs
          ∷ v2_additional_attributes v3_enabled
          ∷ []
          ∷ [])
  pub digests :
      parts (seq_lp_pairs ((inp.alg_id, inp.digest) ∷ []))
      ≡ some (pair_part (inp.alg_id, inp.digest) ∷ [])
  pub certs : parts (seq_lp inp.certs) ≡ some inp.certs

-- A part is no longer than the sequence.
shorter_first : (b : Bytes) (bs : List Bytes) → IsShort (seq_lp (b ∷ bs)) → IsShort b
shorter_first b bs h = let h' = rw (seq_lp-lps (b ∷ bs)) at h in omega (arith, length-lp b (lps bs))

shorter_second : (a b : Bytes) (bs : List Bytes) → IsShort (seq_lp (a ∷ b ∷ bs)) → IsShort b
shorter_second a b bs h =
    let h' = rw (seq_lp-lps (a ∷ b ∷ bs)) at h in
    omega (arith, length-lp a (lps (b ∷ bs)), length-lp b (lps bs))

module _ (inp : SignerInput) (v3_enabled : Bool) (sig : Bytes) where
  abbrev signed_data : Bytes
  signed_data = v2_signed_data inp v3_enabled

  abbrev signatures : Bytes
  signatures = seq_lp_pairs ((inp.alg_id, sig) ∷ [])

  abbrev digests : Bytes
  digests = seq_lp_pairs ((inp.alg_id, inp.digest) ∷ [])

  abbrev v2_out : Bytes
  v2_out = seq_lp (signed_data ∷ signatures ∷ inp.spki ∷ [])

  v2_out-ReadsV2 : IsShort v2_out → ReadsV2 inp v3_enabled sig v2_out
  unfolding v2_signed_data
  v2_out-ReadsV2 h =
      let attrs = v2_additional_attributes v3_enabled in
      let certs = seq_lp inp.certs in
      let signed_short = shorter_first signed_data (signatures ∷ inp.spki ∷ []) h in
      record {
        signer = parts-seq_lp _ h;
        signatures = parts-seq_lp_pairs _ (shorter_second signed_data signatures (inp.spki ∷ []) h);
        signed = parts-seq_lp _ signed_short;
        digests =
            parts-seq_lp_pairs _ (shorter_first digests (certs ∷ attrs ∷ [] ∷ []) signed_short);
        certs = parts-seq_lp _ (shorter_second digests certs (attrs ∷ [] ∷ []) signed_short);
      }

-- A v2 signer's block that was written, and is shorter than 4 GiB, splits into the signed data, the
-- signatures and the public key. The one signature is what `sign` made of exactly the signed data
-- in the block, and the signed data splits into the digest, the certificates in order, the
-- attributes and an empty fourth part.
pub v2_signer-read :
    (inp : SignerInput) (v3_enabled : Bool) (sign : Bytes → Outcome Bytes) (out : Bytes)
    → v2_signer inp v3_enabled sign ≡ ok out
    → IsShort out
    → (sig : Bytes) × (sign (v2_signed_data inp v3_enabled) ≡ ok sig)
      × ReadsV2 inp v3_enabled sig out
unfolding v2_signer
v2_signer-read inp v3_enabled sign out e h =
    let (sig, signs, writes) = >>=-eq-ok (sign (v2_signed_data inp v3_enabled)) _ e in
    let same : v2_out inp v3_enabled sig ≡ out = cc in
    (
      sig,
      signs,
      subst (ReadsV2 inp v3_enabled sig) same
          (v2_out-ReadsV2 inp v3_enabled sig (subst IsShort (sym same) h)),
    )

-- What a verifier reads from a v3 signer's block: the signed data, the SDK range, the signatures
-- and the public key, with nothing behind them.
pub record ReadsV3 (inp : SignerInput) (min_sdk max_sdk : ℕ) (sig out : Bytes) : Type 0 where
  pub after_signed : Bytes
  pub after_signatures : Bytes
  pub signed : read_lp out ≡ some (v3_signed_data inp min_sdk max_sdk, after_signed)
  pub sdk : (field 4 after_signed 0 ≡ min_sdk) × (field 4 after_signed 4 ≡ max_sdk)
  pub signatures :
      read_lp (drop 8 after_signed) ≡ some (seq_lp_pairs ((inp.alg_id, sig) ∷ []), after_signatures)
  pub spki : read_lp after_signatures ≡ some (inp.spki, [])

-- The parts of the signed data, and the same SDK range in it.
pub record SignsV3 (inp : SignerInput) (min_sdk max_sdk : ℕ) (signed : Bytes) : Type 0 where
  pub after_digests : Bytes
  pub after_certs : Bytes
  pub digests : read_lp signed ≡ some (seq_lp_pairs ((inp.alg_id, inp.digest) ∷ []), after_digests)
  pub certs : read_lp after_digests ≡ some (seq_lp inp.certs, after_certs)
  pub sdk : (field 4 after_certs 0 ≡ min_sdk) × (field 4 after_certs 4 ≡ max_sdk)
  pub attrs : read_lp (drop 8 after_certs) ≡ some ([], [])

-- Two words of four bytes in front of `rest`.
two_words :
    (a b : ℕ) (rest : Bytes)
    → a < 2 ^ 32
    → b < 2 ^ 32
    → (field 4 (le_bytes 4 a ++ (le_bytes 4 b ++ rest)) 0 ≡ a)
      × (field 4 (le_bytes 4 a ++ (le_bytes 4 b ++ rest)) 4 ≡ b)
      × (drop 8 (le_bytes 4 a ++ (le_bytes 4 b ++ rest)) ≡ rest)
two_words a b rest ha hb =
    let la = length-le_bytes 4 a in
    (
      field-le_bytes 4 a _ (omega arith),
      field-append_right 4 (le_bytes 4 a) _ 0 4 (omega arith) ∙ field-le_bytes 4 b _ (omega arith),
      drop-append_at (le_bytes 4 a) _ 4 8 (omega arith)
          ∙ drop-append_self (le_bytes 4 b) rest 4 (omega (arith, length-le_bytes 4 b)),
    )

module _ (inp : SignerInput) (min_sdk max_sdk : ℕ) (sig : Bytes) (lo : min_sdk < 2 ^ 32)
    (hi : max_sdk < 2 ^ 32) where
  abbrev v3_rest : Bytes
  v3_rest = lp (seq_lp_pairs ((inp.alg_id, sig) ∷ [])) (lp inp.spki [])

  abbrev v3_out : Bytes
  v3_out =
      lp (v3_signed_data inp min_sdk max_sdk)
        (le_bytes 4 min_sdk ++ (le_bytes 4 max_sdk ++ v3_rest))

  abbrev v3_data : Bytes
  v3_data =
      lp (seq_lp_pairs ((inp.alg_id, inp.digest) ∷ []))
        (lp (seq_lp inp.certs) (le_bytes 4 min_sdk ++ (le_bytes 4 max_sdk ++ lp [] [])))

  v3_signed_data-lp : v3_signed_data inp min_sdk max_sdk ≡ v3_data
  unfolding v3_signed_data
  v3_signed_data-lp = simp (append_assoc, append-nil)

  v3_out-lp :
      put_lp
        (put_lp
          (put_u32 (put_u32 (put_lp [] (v3_signed_data inp min_sdk max_sdk)) min_sdk) max_sdk)
          (seq_lp_pairs ((inp.alg_id, sig) ∷ [])))
        inp.spki
      ≡ v3_out
  unfolding put_lp
  v3_out-lp = simp (append_assoc, append-nil)

  v3_data-SignsV3 : IsShort v3_data → SignsV3 inp min_sdk max_sdk v3_data
  v3_data-SignsV3 h =
      let (a, b, c) = two_words min_sdk max_sdk (lp [] []) lo hi in
      let after = lp (seq_lp inp.certs) (le_bytes 4 min_sdk ++ (le_bytes 4 max_sdk ++ lp [] [])) in
      let digests = seq_lp_pairs ((inp.alg_id, inp.digest) ∷ []) in
      record {
        after_digests = after;
        after_certs = le_bytes 4 min_sdk ++ (le_bytes 4 max_sdk ++ lp [] []);
        digests = read_lp-lp digests after (omega (arith, length-lp digests after));
        certs = read_lp-lp (seq_lp inp.certs) _ (
            omega (
              arith,
              length-lp digests after,
              length-lp (seq_lp inp.certs) (le_bytes 4 min_sdk ++ (le_bytes 4 max_sdk ++ lp [] [])),
            ));
        sdk = (a, b);
        attrs = ap read_lp c ∙ read_lp-lp [] [] (omega arith);
      }

  v3_room :
      (length (v3_signed_data inp min_sdk max_sdk) ≤ length v3_out)
      × (length (seq_lp_pairs ((inp.alg_id, sig) ∷ [])) ≤ length v3_out)
      × (length inp.spki ≤ length v3_out)
  v3_room =
      let sigs = seq_lp_pairs ((inp.alg_id, sig) ∷ []) in
      omega (
        arith,
        length-lp (v3_signed_data inp min_sdk max_sdk)
            (le_bytes 4 min_sdk ++ (le_bytes 4 max_sdk ++ v3_rest)),
        length-append (le_bytes 4 min_sdk) (le_bytes 4 max_sdk ++ v3_rest),
        length-append (le_bytes 4 max_sdk) v3_rest,
        length-lp sigs (lp inp.spki []),
        length-lp inp.spki [],
      )

  v3_out-ReadsV3 : IsShort v3_out → ReadsV3 inp min_sdk max_sdk sig v3_out
  v3_out-ReadsV3 h =
      let (a, b, c) = two_words min_sdk max_sdk v3_rest lo hi in
      let after = le_bytes 4 min_sdk ++ (le_bytes 4 max_sdk ++ v3_rest) in
      let sd = v3_signed_data inp min_sdk max_sdk in
      let sigs = seq_lp_pairs ((inp.alg_id, sig) ∷ []) in
      record {
        after_signed = after;
        after_signatures = lp inp.spki [];
        signed = read_lp-lp sd after (omega (arith, v3_room));
        sdk = (a, b);
        signatures = ap read_lp c ∙ read_lp-lp sigs _ (omega (arith, v3_room));
        spki = read_lp-lp inp.spki [] (omega (arith, v3_room));
      }

-- A v3 signer's block that was written, for an SDK range of two u32, and is shorter than 4 GiB,
-- splits into the signed data, the range, the signatures and the public key. The one signature is
-- what `sign` made of exactly the signed data in the block, and the signed data splits into the
-- digests, the certificates, the same range and no attributes.
pub v3_signer-read :
    (inp : SignerInput) (min_sdk max_sdk : ℕ) (sign : Bytes → Outcome Bytes) (out : Bytes)
    → min_sdk < 2 ^ 32
    → max_sdk < 2 ^ 32
    → v3_signer inp min_sdk max_sdk sign ≡ ok out
    → IsShort out
    → (sig : Bytes) × (sign (v3_signed_data inp min_sdk max_sdk) ≡ ok sig)
      × ReadsV3 inp min_sdk max_sdk sig out
      × SignsV3 inp min_sdk max_sdk (v3_signed_data inp min_sdk max_sdk)
unfolding v3_signer
v3_signer-read inp min_sdk max_sdk sign out lo hi e h =
    let (sig, signs, writes) = >>=-eq-ok (sign (v3_signed_data inp min_sdk max_sdk)) _ e in
    let same : v3_out inp min_sdk max_sdk sig lo hi ≡ out =
      cc (v3_out-lp inp min_sdk max_sdk sig lo hi) in
    let short : IsShort (v3_out inp min_sdk max_sdk sig lo hi) = subst IsShort (sym same) h in
    let sd = v3_signed_data inp min_sdk max_sdk in
    let data_is = v3_signed_data-lp inp min_sdk max_sdk sig lo hi in
    (
      sig,
      signs,
      subst (ReadsV3 inp min_sdk max_sdk sig) same
          (v3_out-ReadsV3 inp min_sdk max_sdk sig lo hi short),
      subst (SignsV3 inp min_sdk max_sdk) (sym data_is) (
          v3_data-SignsV3 inp min_sdk max_sdk sig lo hi (
            subst IsShort data_is (
              omega (
                arith,
                length-lp sd (
                    le_bytes 4 min_sdk
                    ++ (le_bytes 4 max_sdk ++ v3_rest inp min_sdk max_sdk sig lo hi)),
              )))),
    )
