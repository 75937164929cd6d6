-- ===== src/Keys/Der.antt =====
-- src/keys.rs: the DER walk that takes a certificate's key and names out of it byte for byte.
-- Offsets are below 2 ^ 64, since a length is below 2 ^ 32 and a file is in memory.
pub mod Reads
pub mod Bounds
pub mod Certificate
use fastsigner.Base.{
  ℕ, zero, suc, ◌+◌, ◌*◌, ◌%◌, List, Bytes, length, Bool, not, ◌||◌, ltb, ◌==◌, if◌then◌else◌,
  Outcome, ok, err, ◌>>=◌, ◌>>◌, fail_if, ok_or, slice, index, get_elem?, malformed_der,
  multi_byte_tag, der_length, bit_string_padding, der_tag,
}

-- The loop over the length's bytes, from `q` on; `(len << 8) | byte`.
unfoldable pub der_len : Bytes → ℕ → ℕ → ℕ → Outcome ℕ
der_len b q zero len = ok len
der_len b q (suc n) len = do
  d ← ok_or (get_elem? b q) malformed_der
  der_len b (q + 1) n (len * 256 + d)

-- The length, and how many bytes come before the content.
unfoldable pub der_length_at : Bytes → ℕ → ℕ → Outcome (ℕ × ℕ)
der_length_at b p first = if ltb first 0x80 then ok (first, 2) else (do
  let n = first % 0x80
  fail_if ((n == 0) || ltb 4 n) der_length
  len ← der_len b (p + 2) n 0
  ok (len, 2 + n))

-- (tag, content_start, content_len)
unfoldable pub der_header : Bytes → ℕ → Outcome (ℕ × ℕ × ℕ)
der_header b p = do
  tag ← ok_or (get_elem? b p) malformed_der
  fail_if (tag % 32 == 31) multi_byte_tag
  first ← ok_or (get_elem? b (p + 1)) malformed_der
  (len, hdr) ← der_length_at b p first
  let start = p + hdr
  fail_if (ltb (length b) (start + len)) malformed_der
  ok (tag, start, len)

unfoldable pub der_skip : Bytes → ℕ → Outcome ℕ
der_skip b p = do (_, s, l) ← der_header b p; ok (s + l)

unfoldable pub der_expect : Bytes → ℕ → ℕ → Outcome (ℕ × ℕ)
der_expect b p tag = do
  (t, s, l) ← der_header b p
  fail_if (not (t == tag)) (der_tag tag t p)
  ok (s, l)

-- The start of `spki_from_cert` and of `cert_issuer_subject`: where the serial number is.
unfoldable pub tbs_serial : Bytes → Outcome ℕ
tbs_serial cert = do
  (tbs_pos, _) ← der_expect cert 0 0x30
  (p, _) ← der_expect cert tbs_pos 0x30
  (t, _, _) ← der_header cert p
  if t == 0xa0 then der_skip cert p else ok p

unfoldable pub spki_from_cert : Bytes → Outcome Bytes
spki_from_cert cert = do
  serial ← tbs_serial cert
  signature ← der_skip cert serial
  issuer ← der_skip cert signature
  validity ← der_skip cert issuer
  subject ← der_skip cert validity
  p ← der_skip cert subject
  (s, l) ← der_expect cert p 0x30
  slice cert p (s + l)

unfoldable pub cert_issuer_subject : Bytes → Outcome (Bytes × Bytes)
cert_issuer_subject cert = do
  serial ← tbs_serial cert
  signature ← der_skip cert serial
  p ← der_skip cert signature
  issuer_end ← der_skip cert p
  subject_start ← der_skip cert issuer_end
  subject_end ← der_skip cert subject_start
  issuer ← slice cert p issuer_end
  subject ← slice cert subject_start subject_end
  ok (issuer, subject)

unfoldable pub spki_public_key_bits : Bytes → Outcome Bytes
spki_public_key_bits spki = do
  (p, _) ← der_expect spki 0 0x30
  p ← der_skip spki p
  (s, l) ← der_expect spki p 0x03
  if l == 0 then err bit_string_padding else (do
    pad ← index spki s
    fail_if (not (pad == 0)) bit_string_padding
    slice spki (s + 1) (s + l))
