-- ===== src/Tests/KeyTests.antt =====
-- A certificate of one-byte fields and no version.
use fastsigner.Base.{ℕ, ◌≡◌, refl, inl, inr, [], ◌∷◌, ◌++◌, Bytes, ok, arith, slice}
use fastsigner.Keys.Der.{
  der_header, der_expect, der_skip, der_len, der_length_at, tbs_serial, spki_from_cert,
  cert_issuer_subject,
}
use fastsigner.Base.{Ensures}
use fastsigner.Keys.Der.Bounds.{IsPart, spki_from_cert-IsPart}
use fastsigner.Base.{some, replicate}
use fastsigner.Keys.Scalar.{
  ec_private_scalar, scalar_of, ec_scalar, pad_scalar, trim, ec_private_key,
}
use fastsigner.Keys.Scalar.Padded32.{IfSome, IsScalar, ec_private_scalar-IsScalar}
use fastsigner.Keys.Base64.{base64_decode}
use fastsigner.Keys.Base64.RoundTrip.{encode, base64_decode-encode}
use fastsigner.Keys.Der.Reads.{IsTlv}
use fastsigner.Keys.Der.Certificate.{
  Fields, Encoded, IsCertificate, spki_from_cert_finds, cert_issuer_subject_finds,
}

abbrev one_byte : ℕ → ℕ → Bytes
one_byte t b = t ∷ 1 ∷ b ∷ []

abbrev fields : Fields
fields = record {
  version = [];
  serial = one_byte 2 1;
  signature = one_byte 0x30 2;
  issuer = one_byte 0x30 3;
  validity = one_byte 0x30 4;
  subject = one_byte 0x30 5;
  spki = one_byte 0x30 6;
  more = 7 ∷ [];
  tail = 8 ∷ [];
}

abbrev tbs : Bytes
tbs =
    0x30
    ∷ 19
    ∷ (one_byte 2 1
        ++ one_byte 0x30 2
        ++ one_byte 0x30 3
        ++ one_byte 0x30 4
        ++ one_byte 0x30 5
        ++ one_byte 0x30 6
        ++ 7 ∷ [])

-- The length of the whole in its long form.
abbrev cert : Bytes
cert = 0x30 ∷ 0x81 ∷ 22 ∷ (tbs ++ 8 ∷ [])

byte-IsTlv : (b : ℕ) → IsTlv 0x30 (b ∷ []) (one_byte 0x30 b)
byte-IsTlv b = ((λ e. absurd (omega arith)), 1 ∷ [], refl, inl (omega arith, refl))

byte-Encoded : (b : ℕ) → Encoded (one_byte 0x30 b)
byte-Encoded b = (0x30, b ∷ [], byte-IsTlv b)

cert-IsTlv : IsTlv 0x30 (tbs ++ 8 ∷ []) cert
cert-IsTlv = (
  (λ e. absurd (omega arith)),
  0x81 ∷ 22 ∷ [],
  refl,
  inr (22 ∷ [], omega arith, omega arith, refl, refl),
)

cert-IsCertificate : IsCertificate fields cert
cert-IsCertificate = record {
  tbs = tbs;
  outer = cert-IsTlv;
  inner = ((λ e. absurd (omega arith)), 19 ∷ [], refl, inl (omega arith, refl));
  version = inr (
    refl,
    2,
    1 ∷ [],
    (λ e. absurd (omega arith)),
    ((λ e. absurd (omega arith)), 1 ∷ [], refl, inl (omega arith, refl)),
  );
  signature = byte-Encoded 2;
  issuer = byte-Encoded 3;
  validity = byte-Encoded 4;
  subject = byte-Encoded 5;
  key = 6 ∷ [];
  spki = byte-IsTlv 6;
}

spki_example : spki_from_cert cert ≡ ok (one_byte 0x30 6)
spki_example = spki_from_cert_finds fields cert cert-IsCertificate

names_example : cert_issuer_subject cert ≡ ok (one_byte 0x30 3, one_byte 0x30 5)
names_example = cert_issuer_subject_finds fields cert cert-IsCertificate

runs_spki : spki_from_cert cert ≡ ok (one_byte 0x30 6)
unfolding spki_from_cert tbs_serial der_expect der_skip der_header der_length_at der_len slice
runs_spki = refl

cert_slice_example : Ensures (IsPart cert) (spki_from_cert cert)
cert_slice_example = spki_from_cert-IsPart cert

-- A SEC1 key whose scalar is 5.
abbrev sec1 : Bytes
sec1 = 0x30 ∷ 7 ∷ 2 ∷ 1 ∷ 1 ∷ 4 ∷ 2 ∷ 0 ∷ 5 ∷ []

reads_scalar : ec_private_scalar sec1 ≡ ok (some (replicate 31 0 ++ 5 ∷ []))
unfolding ec_private_scalar scalar_of ec_scalar pad_scalar trim ec_private_key der_expect der_header
    der_length_at slice
reads_scalar = refl

sec1_example : Ensures (IfSome (IsScalar sec1)) (ec_private_scalar sec1)
sec1_example = ec_private_scalar-IsScalar sec1

abbrev four_bytes : Bytes
four_bytes = 1 ∷ 2 ∷ 255 ∷ 7 ∷ []

base64_example : base64_decode (encode four_bytes) ≡ ok four_bytes
base64_example =
    base64_decode-encode four_bytes (omega arith, (omega arith, (omega arith, (omega arith, tt))))
