-- ===== src/Keys/Der/Bounds.antt =====
-- The DER walk stays inside the string, whatever the string.
use fastsigner.Base.{
  Bool, if◌then◌else◌, ◌>>◌, ◌>>=◌, ℕ, zero, suc, ◌+◌, ◌-◌, ◌*◌, ◌%◌, ◌≤◌, ◌<◌, ◌≡◌, refl, Option,
  some, none, [], ◌∷◌, Bytes, length, take, drop, get_elem?, Outcome, ok, Ensures, arith, slice,
  index,
}
use fastsigner.Base.{
  >>=-Ensures, fail_if-Ensures, if-Ensures, Ensures-map, fail_if, ok_or, ltb, ltb→le, not, ◌==◌,
  ◌||◌, slice_in_range, malformed_der, multi_byte_tag, der_length, der_tag, bit_string_padding,
  Error,
}
use fastsigner.Keys.Der.{
  cert_issuer_subject, der_len, der_length_at, der_header, der_skip, der_expect, tbs_serial,
  spki_from_cert, spki_public_key_bits,
}

-- A content that starts and ends inside.
abbrev pub Within : Bytes → ℕ × ℕ → Type 0
Within b (s, l) = s + l ≤ length b

-- A call that ends, with an error or a value.
abbrev pub Ends : {A : Type 0} → Outcome A → Type 0
Ends m = Ensures (λ _. Unit {0}) m

-- A first call of which only that it ends is asked.
pub >>=-Then :
    {A B : Type 0} (P : B → Type 0) (m : Outcome A) (f : A → Outcome B)
    → Ends m
    → ((a : A) → Ensures P (f a))
    → Ensures P (m >>= f)
>>=-Then P m f h k = >>=-Ensures (λ _. Unit) P m f h (λ a e u. k a)

pub >>=-Ends :
    {A B : Type 0} (m : Outcome A) (f : A → Outcome B)
    → Ends m
    → ((a : A) → Ends (f a))
    → Ends (m >>= f)
>>=-Ends m f h k = >>=-Then (λ _. Unit) m f h k

pub fail_if-Ends :
    {B : Type 0} (c : Bool) (e : Error) (m : Outcome B) → Ends m → Ends (fail_if c e >> m)
fail_if-Ends c e m h = fail_if-Ensures (λ _. Unit) c e m (λ _. h)

pub if-Ends :
    {A : Type 0} (c : Bool) (m k : Outcome A) → Ends m → Ends k → Ends (if c then m else k)
if-Ends c m k h l = if-Ensures (λ _. Unit) c m k (λ _. h) (λ _. l)

ok_or-Ends : {A : Type 0} (o : Option A) (e : Error) → Ends (ok_or o e)
ok_or-Ends none e = tt
ok_or-Ends (some a) e = tt

der_len-Ends : (n : ℕ) (b : Bytes) (q len : ℕ) → Ends (der_len b q n len)
unfolding der_len
der_len-Ends zero b q len = tt
der_len-Ends (suc n) b q len =
    >>=-Ensures (λ _. Unit) (λ _. Unit) (ok_or (get_elem? b q) malformed_der) _
      (ok_or-Ends (get_elem? b q) malformed_der) (λ d e u. der_len-Ends n b (q + 1) (len * 256 + d))

-- The content begins two bytes after the tag, or later.
abbrev After : ℕ × ℕ → Type 0
After (len, hdr) = 2 ≤ hdr

der_length_at-After : (b : Bytes) (p first : ℕ) → Ensures After (der_length_at b p first)
unfolding der_length_at
der_length_at-After b p first =
    if-Ensures After (ltb first 0x80) _ _ (λ short. omega arith)
      (λ long.
        fail_if-Ensures After ((first % 0x80 == 0) || ltb 4 (first % 0x80)) der_length _ (λ few.
          >>=-Ensures (λ _. Unit) After (der_len b (p + 2) (first % 0x80) 0) _
            (der_len-Ends (first % 0x80) b (p + 2) 0) (λ len e u. omega arith)))

-- The content of a header at `p` is inside, behind the header.
abbrev pub Header : Bytes → ℕ → ℕ × ℕ × ℕ → Type 0
Header b p (t, s, l) = (p + 2 ≤ s) × (s + l ≤ length b)

pub der_header-Header : (b : Bytes) (p : ℕ) → Ensures (Header b p) (der_header b p)
unfolding der_header
der_header-Header b p =
    let P : ℕ × ℕ × ℕ → Type 0 = Header b p in
    >>=-Ensures (λ _. Unit) P (ok_or (get_elem? b p) malformed_der) _
      (ok_or-Ends (get_elem? b p) malformed_der)
      (λ tag e u. fail_if-Ensures P (tag % 32 == 31) multi_byte_tag _ (λ low.
        >>=-Ensures (λ _. Unit) P (ok_or (get_elem? b (p + 1)) malformed_der) _
          (ok_or-Ends (get_elem? b (p + 1)) malformed_der)
          (λ first e1 u1.
            >>=-Ensures After P (der_length_at b p first) _ (der_length_at-After b p first)
              (λ r e2 after.
                fail_if-Ensures P (ltb (length b) (p + r.1 + r.0)) malformed_der _
                  (λ fits. (omega (arith, after), ltb→le (length b) (p + r.1 + r.0) fits))))))

pub der_expect-Within : (b : Bytes) (p tag : ℕ) → Ensures (Within b) (der_expect b p tag)
unfolding der_expect
der_expect-Within b p tag =
    >>=-Ensures (Header b p) (Within b) (der_header b p) _ (der_header-Header b p)
      (λ r e i. fail_if-Ensures (Within b) (not (r.0 == tag)) (der_tag tag r.0 p) _ (λ same. i.1))

-- The next element begins after this one, and no further than the end.
abbrev Next : Bytes → ℕ → ℕ → Type 0
Next b p q = (p ≤ q) × (q ≤ length b)

der_skip-Next : (b : Bytes) (p : ℕ) → Ensures (Next b p) (der_skip b p)
unfolding der_skip
der_skip-Next b p =
    >>=-Ensures (Header b p) (Next b p) (der_header b p) _ (der_header-Header b p)
      (λ r e i. (omega (arith, i.0), i.1))

-- The content of the element at `p`, behind its start.
abbrev Behind : Bytes → ℕ → ℕ × ℕ → Type 0
Behind b p (s, l) = (p ≤ s) × (s + l ≤ length b)

der_expect-Behind : (b : Bytes) (p tag : ℕ) → Ensures (Behind b p) (der_expect b p tag)
unfolding der_expect
der_expect-Behind b p tag =
    >>=-Ensures (Header b p) (Behind b p) (der_header b p) _ (der_header-Header b p) (λ r e i.
      fail_if-Ensures (Behind b p) (not (r.0 == tag)) (der_tag tag r.0 p) _
        (λ same. (omega (arith, i.0), i.1)))

-- `serialNumber` begins inside.
tbs_serial-Ends : (cert : Bytes) → Ends (tbs_serial cert)
unfolding tbs_serial
tbs_serial-Ends cert =
    let P : ℕ → Type 0 = λ _. Unit in
    >>=-Ensures (Within cert) P (der_expect cert 0 0x30) _ (der_expect-Within cert 0 0x30)
      (λ r1 e1 i1.
        >>=-Ensures (Within cert) P (der_expect cert r1.0 0x30) _ (der_expect-Within cert r1.0 0x30)
          (λ r2 e2 i2.
            >>=-Ensures (Header cert r2.0) P (der_header cert r2.0) _ (der_header-Header cert r2.0)
              (λ r3 e3 i3.
                if-Ensures P (r3.0 == 0xa0) _ _
                  (λ version.
                    Ensures-map (der_skip cert r2.0) (λ q i. tt) (der_skip-Next cert r2.0))
                  (λ none. tt))))

-- A part of a string.
abbrev pub IsPart : Bytes → Bytes → Type 0
IsPart b s = (p : ℕ) × (n : ℕ) × (p + n ≤ length b) × (s ≡ take n (drop p b))

slice-IsPart : (b : Bytes) (i j : ℕ) → i ≤ j → j ≤ length b → Ensures (IsPart b) (slice b i j)
slice-IsPart b i j h k = rw (slice_in_range b i j h k) (i, j - i, omega arith, refl)

-- On any byte string `spki_from_cert` ends with no panic, and returns a part of the string.
pub spki_from_cert-IsPart : (cert : Bytes) → Ensures (IsPart cert) (spki_from_cert cert)
unfolding spki_from_cert
spki_from_cert-IsPart cert =
    let P : Bytes → Type 0 = IsPart cert in
    >>=-Ensures (λ _. Unit) P (tbs_serial cert) _ (tbs_serial-Ends cert)
      (λ p1 e1 i1.
        >>=-Ensures (Next cert p1) P (der_skip cert p1) _ (der_skip-Next cert p1) (λ p2 e2 i2.
          >>=-Ensures (Next cert p2) P (der_skip cert p2) _ (der_skip-Next cert p2) (λ p3 e3 i3.
            >>=-Ensures (Next cert p3) P (der_skip cert p3) _ (der_skip-Next cert p3) (λ p4 e4 i4.
              >>=-Ensures (Next cert p4) P (der_skip cert p4) _ (der_skip-Next cert p4) (λ p5 e5 i5.
                >>=-Ensures (Next cert p5) P (der_skip cert p5) _ (der_skip-Next cert p5) (λ p e i.
                  >>=-Ensures (Behind cert p) P (der_expect cert p 0x30) _
                    (der_expect-Behind cert p 0x30)
                    (λ r e' b. slice-IsPart cert p (r.0 + r.1) (omega (arith, b.0)) b.1)))))))

index-in_range : (b : Bytes) (i : ℕ) → i < length b → (x : ℕ) × (index b i ≡ ok x)
unfolding index
index-in_range [] i h = absurd (omega arith)
index-in_range (x ∷ b) zero h = (x, refl)
index-in_range (x ∷ b) (suc i) h = index-in_range b i (omega arith)

bits-IsPart :
    (b : Bytes) (s l : ℕ)
    → s + l ≤ length b
    → 0 < l
    → Ensures (IsPart b) (
        index b s >>= λ pad. fail_if (not (pad == 0)) bit_string_padding >> slice b (s + 1) (s + l))
bits-IsPart b s l h some_bits =
    let (x, e) = index-in_range b s (omega arith) in
    rw e (
      fail_if-Ensures (IsPart b) (not (x == 0)) bit_string_padding _
        (λ zero_pad. slice-IsPart b (s + 1) (s + l) (omega arith) h))

-- On any byte string `spki_public_key_bits` ends with no panic, and returns a part of the string.
pub spki_public_key_bits-IsPart : (spki : Bytes) → Ensures (IsPart spki) (spki_public_key_bits spki)
unfolding spki_public_key_bits
spki_public_key_bits-IsPart spki =
    let P : Bytes → Type 0 = IsPart spki in
    >>=-Ensures (Within spki) P (der_expect spki 0 0x30) _ (der_expect-Within spki 0 0x30)
      (λ r1 e1 i1.
        >>=-Ensures (Next spki r1.0) P (der_skip spki r1.0) _ (der_skip-Next spki r1.0) (λ p e2 i2.
          >>=-Ensures (Within spki) P (der_expect spki p 0x03) _ (der_expect-Within spki p 0x03)
            (λ r e3 i3.
              if-Ensures P (r.1 == 0) _ _ (λ empty. tt)
                (λ some_bits. bits-IsPart spki r.0 r.1 i3 (ground arith)))))

-- On any byte string `cert_issuer_subject` ends with no panic.
pub cert_issuer_subject-Ends : (cert : Bytes) → Ends (cert_issuer_subject cert)
unfolding cert_issuer_subject
cert_issuer_subject-Ends cert =
    let P : Bytes × Bytes → Type 0 = λ _. Unit in
    >>=-Ensures (λ _. Unit) P (tbs_serial cert) _ (tbs_serial-Ends cert)
      (λ p1 e1 i1.
        >>=-Ensures (Next cert p1) P (der_skip cert p1) _ (der_skip-Next cert p1) (λ p2 e2 i2.
          >>=-Ensures (Next cert p2) P (der_skip cert p2) _ (der_skip-Next cert p2) (λ p e i.
            >>=-Ensures (Next cert p) P (der_skip cert p) _ (der_skip-Next cert p)
              (λ issuer_end e3 i3.
                >>=-Ensures (Next cert issuer_end) P (der_skip cert issuer_end) _
                  (der_skip-Next cert issuer_end)
                  (λ start e4 i4.
                    >>=-Ensures (Next cert start) P (der_skip cert start) _
                      (der_skip-Next cert start)
                      (λ end e5 i5.
                        >>=-Ensures (IsPart cert) P (slice cert p issuer_end) _
                          (slice-IsPart cert p issuer_end i3.0 i3.1)
                          (λ issuer e6 i6.
                            >>=-Ensures (IsPart cert) P (slice cert start end) _
                              (slice-IsPart cert start end i5.0 i5.1) (λ subject e7 i7. tt))))))))
