-- ===== src/Keys/Scalar.antt =====
-- src/keys.rs: `ec_private_scalar`, the private scalar of a PKCS#8 or SEC1 key on P-256.
pub mod Padded32
use fastsigner.Base.{
  ℕ, zero, suc, ◌+◌, ◌-◌, ◌*◌, ◌/◌, ◌%◌, ◌^◌, ◌≤◌, ◌<◌, ◌≡◌, refl, sym, ap, subst, ◌∙◌, ◌⊎◌, inl,
  inr, Bool, true, false, Option, some, none, List, [], ◌∷◌, ◌++◌, map, Bytes, length, take, drop,
  replicate, All, get_elem?, Outcome, ok, err, Ensures, arith, codes, le_bytes, le_value, word_le,
  slice, put, index, strip_prefix, starts_with, ends_with, contains, bytes_eq,
}
use fastsigner.Base.{◌>>=◌, not, ◌&&◌, ltb, ◌==◌, if◌then◌else◌, panic, out_of_fuel}
use fastsigner.Keys.Der.{der_header, der_expect}

abbrev pub oid_ec_public_key : Bytes
oid_ec_public_key = 0x2a ∷ 0x86 ∷ 0x48 ∷ 0xce ∷ 0x3d ∷ 0x02 ∷ 0x01 ∷ []

abbrev pub oid_prime256v1 : Bytes
oid_prime256v1 = 0x2a ∷ 0x86 ∷ 0x48 ∷ 0xce ∷ 0x3d ∷ 0x03 ∷ 0x01 ∷ 0x07 ∷ []

-- `call.ok()?`, in a function that returns an option.
abbrev pub ok_then : {A B : Type 0} → Outcome A → (A → Outcome (Option B)) → Outcome (Option B)
ok_then (ok a) next = next a
ok_then (err e) next = ok none
ok_then panic next = panic
ok_then out_of_fuel next = out_of_fuel

-- The parameters name a curve, and another one; `none` if there is no element.
unfoldable pub other_curve : Bytes → ℕ → Outcome (Option Bool)
other_curve der p = ok_then (der_header der p) (λ (t, cs, cl).
    if t == 0x06
    then (do curve ← slice der cs (cs + cl); ok (some (not (bytes_eq curve oid_prime256v1))))
    else ok (some false))

abbrev pub is_other : Option Bool → Bool
is_other none = false
is_other (some other) = other

-- The OCTET STRING of a PKCS#8 key whose AlgorithmIdentifier is at `s`.
unfoldable pub pkcs8_key : Bytes → ℕ → ℕ → Outcome (Option Bytes)
pkcs8_key der s l = ok_then (der_expect der s 0x06) (λ (os, ol). do
  oid ← slice der os (os + ol)
  if not (bytes_eq oid oid_ec_public_key) then ok none else (do
    other ← other_curve der (os + ol)
    if is_other other
        then ok none
        else ok_then (der_expect der (s + l) 0x04)
            (λ (ks, kl). do key ← slice der ks (ks + kl); ok (some key))))

unfoldable pub ec_private_key : Bytes → ℕ → ℕ → ℕ → Outcome (Option Bytes)
ec_private_key der tag s l =
    if tag == 0x30 then pkcs8_key der s l else if tag == 0x04 then ok (some der) else ok none

-- `while scalar.len() > 32 && scalar[0] == 0`
unfoldable pub trim : Bytes → Bytes
trim [] = []
trim (b ∷ scalar) =
    let shorter = trim scalar in
    if ltb 32 (length (b ∷ scalar)) && (b == 0) then shorter else b ∷ scalar

unfoldable pub pad_scalar : Bytes → Option Bytes
pad_scalar scalar =
    if ltb 32 (length scalar) then none else some (replicate (32 - length scalar) 0 ++ scalar)

-- The scalar of an ECPrivateKey.
unfoldable pub ec_scalar : Bytes → Outcome (Option Bytes)
ec_scalar key = ok_then (der_expect key 0 0x30) (λ (p, _).
    ok_then (der_header key p) (λ (_, vs, vl).
      ok_then (der_expect key (vs + vl) 0x04)
        (λ (ks, kl). do raw ← slice key ks (ks + kl); ok (pad_scalar (trim raw)))))

unfoldable pub scalar_of : Option Bytes → Outcome (Option Bytes)
scalar_of none = ok none
scalar_of (some key) = ec_scalar key

unfoldable pub ec_private_scalar : Bytes → Outcome (Option Bytes)
ec_private_scalar der = ok_then (der_expect der 0 0x30) (λ (p, _).
    ok_then (der_header der p) (λ (_, vs, vl).
      ok_then (der_header der (vs + vl))
        (λ (tag, s, l). do key ← ec_private_key der tag s l; scalar_of key)))
