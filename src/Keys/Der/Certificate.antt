-- ===== src/Keys/Der/Certificate.antt =====
-- What `spki_from_cert` and `cert_issuer_subject` find in a certificate.
use fastsigner.Base.{
  slice_run, slice, slice, ℕ, ◌+◌, ◌-◌, ◌<◌, ◌≡◌, refl, sym, ap, ◌∙◌, ◌⊎◌, inl, inr, false, [],
  ◌++◌, append_assoc, append-nil, Bytes, length, drop, take, ok, ◌>>=◌, ◌==◌, arith, if◌then◌else◌,
  take-append_self, length-append, length-drop,
}
use fastsigner.Keys.Der.{
  der_header, der_skip, der_expect, tbs_serial, spki_from_cert, cert_issuer_subject,
}
use fastsigner.Keys.Der.Reads.{
  IsTlv, der_header-reads, der_skip-reads, der_expect-reads, after-drop, content-drop, content_end,
}

-- The fields of a certificate as they are encoded, and what follows them.
pub record Fields : Type 0 where
  pub version : Bytes
  pub serial : Bytes
  pub signature : Bytes
  pub issuer : Bytes
  pub validity : Bytes
  pub subject : Bytes
  pub spki : Bytes
  pub more : Bytes
  pub tail : Bytes

-- Some tag and content that are encoded so.
abbrev pub Encoded : Bytes → Type 0
Encoded e = (t : ℕ) × (c : Bytes) × IsTlv t c e

-- The version is there under its tag 0xa0, or is left out, and then the serial number has another tag.
abbrev pub HasVersion : Fields → Type 0
HasVersion f =
    ((c : Bytes) × IsTlv 0xa0 c f.version × Encoded f.serial)
    ⊎ ((f.version ≡ []) × (t : ℕ) × (c : Bytes) × (¬ (t ≡ 0xa0)) × IsTlv t c f.serial)

abbrev pub from_issuer : Fields → Bytes
from_issuer f = f.issuer ++ (f.validity ++ (f.subject ++ (f.spki ++ f.more)))

abbrev pub tbs_content : Fields → Bytes
tbs_content f = f.version ++ (f.serial ++ (f.signature ++ from_issuer f))

-- A certificate: a sequence of the fields in a sequence, each an encoding, the key a sequence.
pub record IsCertificate (f : Fields) (cert : Bytes) : Type 0 where
  pub tbs : Bytes
  pub outer : IsTlv 0x30 (tbs ++ f.tail) cert
  pub inner : IsTlv 0x30 (tbs_content f) tbs
  pub version : HasVersion f
  pub signature : Encoded f.signature
  pub issuer : Encoded f.issuer
  pub validity : Encoded f.validity
  pub subject : Encoded f.subject
  pub key : Bytes
  pub spki : IsTlv 0x30 key f.spki

der_skip-Encoded :
    (e b : Bytes) (p : ℕ) (rest : Bytes)
    → Encoded e
    → drop p b ≡ e ++ rest
    → der_skip b p ≡ ok (p + length e)
der_skip-Encoded e b p rest (t, c, is) at = der_skip-reads t c e b p rest is at

-- The version is skipped where it is there.
version_skip :
    (f : Fields) (cert : Bytes) (q : ℕ)
    → HasVersion f
    → drop q cert ≡ tbs_content f ++ f.tail
    → (p : ℕ) × ((der_header cert q >>= λ (t, _, _). if t == 0xa0 then der_skip cert q else ok q)
        ≡ ok p)
      × (drop p cert ≡ f.serial ++ ((f.signature ++ from_issuer f) ++ f.tail))
version_skip f cert q (inl (c, is, _)) at =
    let rest = (f.serial ++ (f.signature ++ from_issuer f)) ++ f.tail in
    let at' : drop q cert ≡ f.version ++ rest =
      at ∙ append_assoc f.version (f.serial ++ (f.signature ++ from_issuer f)) f.tail in
    (
      q + length f.version,
      rw (
        der_header-reads 0xa0 c f.version cert q rest is at',
        der_skip-reads 0xa0 c f.version cert q rest is at',
      ),
      after-drop f.version cert rest q at'
          ∙ append_assoc f.serial (f.signature ++ from_issuer f) f.tail,
    )
version_skip f cert q (inr (none, t, c, other, is)) at =
    let rest = (f.signature ++ from_issuer f) ++ f.tail in
    let at' : drop q cert ≡ f.serial ++ rest =
      at
      ∙ ap (λ v. (v ++ (f.serial ++ (f.signature ++ from_issuer f))) ++ f.tail) none
      ∙ append_assoc f.serial (f.signature ++ from_issuer f) f.tail in
    let apart : (t == 0xa0) ≡ false = ground arith in
    (q, rw (der_header-reads t c f.serial cert q rest is at', apart), at')

tbs_serial_run :
    (cert : Bytes) (p1 p2 p n m : ℕ)
    → der_expect cert 0 0x30 ≡ ok (p1, n)
    → der_expect cert p1 0x30 ≡ ok (p2, m)
    → (der_header cert p2 >>= λ (t, _, _). if t == 0xa0 then der_skip cert p2 else ok p2) ≡ ok p
    → tbs_serial cert ≡ ok p
unfolding tbs_serial
tbs_serial_run cert p1 p2 p n m e e' e'' = rw (e, e') e''

-- The serial number begins where `tbs_serial` says.
tbs_serial-reads :
    (f : Fields) (cert : Bytes)
    → IsCertificate f cert
    → (p : ℕ) × (tbs_serial cert ≡ ok p)
      × (drop p cert ≡ f.serial ++ ((f.signature ++ from_issuer f) ++ f.tail))
tbs_serial-reads f cert is =
    let p1 = 0 + (length cert - length (is.tbs ++ f.tail)) in
    let p2 = p1 + (length is.tbs - length (tbs_content f)) in
    let at1 : drop p1 cert ≡ is.tbs ++ f.tail =
      content-drop 0x30 (is.tbs ++ f.tail) cert cert [] 0 is.outer (sym (append-nil cert))
      ∙ append-nil (is.tbs ++ f.tail) in
    let at2 : drop p2 cert ≡ tbs_content f ++ f.tail =
      content-drop 0x30 (tbs_content f) is.tbs cert f.tail p1 is.inner at1 in
    let first =
      der_expect-reads 0x30 (is.tbs ++ f.tail) cert cert 0 [] is.outer (sym (append-nil cert)) in
    let second = der_expect-reads 0x30 (tbs_content f) is.tbs cert p1 f.tail is.inner at1 in
    let (p, run, at) = version_skip f cert p2 is.version at2 in
    (p, tbs_serial_run cert p1 p2 p _ _ first second run, at)

-- A piece of a string, as a slice.
slice-piece :
    (b e rest : Bytes) (p : ℕ)
    → drop p b ≡ e ++ rest
    → 0 < length e
    → slice b p (p + length e) ≡ ok e
slice-piece b e rest p at h =
    let size : length b - p ≡ length e + length rest =
      sym (length-drop p b) ∙ ap length at ∙ length-append e rest in
    slice_run b p (length e) (omega arith)
    ∙ ap (λ x. ok (take (length e) x)) at
    ∙ ap ok (take-append_self e rest (length e) refl)

Encoded-positive : (e : Bytes) → Encoded e → 0 < length e
Encoded-positive e (t, c, (low, h, eq, l)) = omega (arith, ap length eq)

Encoded-serial : (f : Fields) → HasVersion f → Encoded f.serial
Encoded-serial f (inl (c, is, e)) = e
Encoded-serial f (inr (eq, t, c, other, is)) = (t, c, is)

-- The issuer begins here.
to_issuer :
    (f : Fields) (cert : Bytes)
    → IsCertificate f cert
    → (serial : ℕ) × (signature : ℕ) × (p : ℕ) × (tbs_serial cert ≡ ok serial)
      × (der_skip cert serial ≡ ok signature)
      × (der_skip cert signature ≡ ok p)
      × (drop p cert ≡ from_issuer f ++ f.tail)
to_issuer f cert is =
    let (serial, run, at) = tbs_serial-reads f cert is in
    let after = (f.signature ++ from_issuer f) ++ f.tail in
    let at1 : drop (serial + length f.serial) cert ≡ f.signature ++ (from_issuer f ++ f.tail) =
      after-drop f.serial cert after serial at ∙ append_assoc f.signature (from_issuer f) f.tail in
    (
      serial,
      serial + length f.serial,
      serial + length f.serial + length f.signature,
      run,
      der_skip-Encoded f.serial cert serial after (Encoded-serial f is.version) at,
      der_skip-Encoded f.signature cert (serial + length f.serial) (from_issuer f ++ f.tail)
          is.signature at1,
      after-drop f.signature cert (from_issuer f ++ f.tail) (serial + length f.serial) at1,
    )

-- The places of the fields from the issuer on.
abbrev rest_of : Fields → Bytes
rest_of f = f.subject ++ (f.spki ++ (f.more ++ f.tail))

issuer_at :
    (f : Fields) (cert : Bytes) (p : ℕ)
    → drop p cert ≡ from_issuer f ++ f.tail
    → drop p cert ≡ f.issuer ++ (f.validity ++ rest_of f)
issuer_at f cert p at =
    at
    ∙ rw (
      append_assoc f.issuer (f.validity ++ (f.subject ++ (f.spki ++ f.more))) f.tail,
      append_assoc f.validity (f.subject ++ (f.spki ++ f.more)) f.tail,
      append_assoc f.subject (f.spki ++ f.more) f.tail,
      append_assoc f.spki f.more f.tail,
    )

-- Of a certificate, with or without a version, `spki_from_cert` returns the key information byte for
-- byte as it stands there.
pub spki_from_cert_finds :
    (f : Fields) (cert : Bytes) → IsCertificate f cert → spki_from_cert cert ≡ ok f.spki
unfolding spki_from_cert
spki_from_cert_finds f cert is =
    let (serial, signature, p, run, run1, run2, at) = to_issuer f cert is in
    let at1 = issuer_at f cert p at in
    let at2 = after-drop f.issuer cert (f.validity ++ rest_of f) p at1 in
    let q = p + length f.issuer in
    let at3 = after-drop f.validity cert (rest_of f) q at2 in
    let r = q + length f.validity in
    let at4 = after-drop f.subject cert (f.spki ++ (f.more ++ f.tail)) r at3 in
    let k = r + length f.subject in
    rw (
      run,
      run1,
      run2,
      der_skip-Encoded f.issuer cert p (f.validity ++ rest_of f) is.issuer at1,
      der_skip-Encoded f.validity cert q (rest_of f) is.validity at2,
      der_skip-Encoded f.subject cert r (f.spki ++ (f.more ++ f.tail)) is.subject at3,
      der_expect-reads 0x30 is.key f.spki cert k (f.more ++ f.tail) is.spki at4,
      content_end 0x30 is.key f.spki k is.spki,
      slice-piece cert f.spki (f.more ++ f.tail) k at4
          (Encoded-positive f.spki (0x30, is.key, is.spki)),
    )

-- Of a certificate, with or without a version, `cert_issuer_subject` returns the names of the issuer
-- and of the subject byte for byte as they stand there.
pub cert_issuer_subject_finds :
    (f : Fields) (cert : Bytes)
    → IsCertificate f cert
    → cert_issuer_subject cert ≡ ok (f.issuer, f.subject)
unfolding cert_issuer_subject
cert_issuer_subject_finds f cert is =
    let (serial, signature, p, run, run1, run2, at) = to_issuer f cert is in
    let at1 = issuer_at f cert p at in
    let at2 = after-drop f.issuer cert (f.validity ++ rest_of f) p at1 in
    let q = p + length f.issuer in
    let at3 = after-drop f.validity cert (rest_of f) q at2 in
    let r = q + length f.validity in
    rw (
      run,
      run1,
      run2,
      der_skip-Encoded f.issuer cert p (f.validity ++ rest_of f) is.issuer at1,
      der_skip-Encoded f.validity cert q (rest_of f) is.validity at2,
      der_skip-Encoded f.subject cert r (f.spki ++ (f.more ++ f.tail)) is.subject at3,
      slice-piece cert f.issuer (f.validity ++ rest_of f) p at1
          (Encoded-positive f.issuer is.issuer),
      slice-piece cert f.subject (f.spki ++ (f.more ++ f.tail)) r at3
          (Encoded-positive f.subject is.subject),
    )
