-- ===== src/Keys/Scalar/Padded32.antt =====
-- The scalar that is returned has 32 bytes and the value of bytes of the key file.
use fastsigner.Base.{
  ℕ, zero, suc, ◌+◌, ◌-◌, ◌*◌, ◌≤◌, ◌≡◌, refl, sym, ap, ◌∙◌, inl, inr, Option, some, none, [], ◌∷◌,
  ◌++◌, Bytes, length, take, drop, replicate, Outcome, ok, err, Ensures, arith, bytes_eq,
}
use fastsigner.Base.{
  take_all, panic, out_of_fuel, >>=-Ensures, if-Ensures, not, ltb, ltb→le, ◌==◌, ◌&&◌, Bool-cases,
  slice_run, run-take, drop-drop, length-take, length-drop, length-append, length-replicate,
}
use fastsigner.Keys.Der.{der_header, der_expect}
use fastsigner.Keys.Der.Reads.{be_value}
use fastsigner.Keys.Der.Bounds.{Within, Header, IsPart, der_header-Header, der_expect-Within}
use fastsigner.Keys.Scalar.{
  ok_then, other_curve, is_other, pkcs8_key, ec_private_key, trim, pad_scalar, ec_scalar, scalar_of,
  ec_private_scalar, oid_ec_public_key,
}

ok_then-Ensures :
    {A B : Type 0} (Q : A → Type 0) (P : Option B → Type 0) (m : Outcome A)
    (f : A → Outcome (Option B))
    → P none
    → Ensures Q m
    → ((a : A) → Q a → Ensures P (f a))
    → Ensures P (ok_then m f)
ok_then-Ensures Q P (ok a) f n h k = k a h
ok_then-Ensures Q P (err e) f n h k = n
ok_then-Ensures Q P panic f n h k = absurd h
ok_then-Ensures Q P out_of_fuel f n h k = absurd h

-- Some value, if there is one, satisfies `P`.
abbrev pub IfSome : {A : Type 0} → (A → Type 0) → Option A → Type 0
IfSome P none = Unit {0}
IfSome P (some a) = P a

other_curve-Ends : (der : Bytes) (p : ℕ) → Ensures (λ _. Unit {0}) (other_curve der p)
unfolding other_curve
other_curve-Ends der p =
    ok_then-Ensures (Header der p) (λ _. Unit) (der_header der p) _ tt (der_header-Header der p)
      (λ r i.
        if-Ensures (λ _. Unit) (r.0 == 0x06) _ _ (λ oid. rw (slice_run der r.1 r.2 i.1) tt)
          (λ other. tt))

pkcs8_key-IsPart : (der : Bytes) (s l : ℕ) → Ensures (IfSome (IsPart der)) (pkcs8_key der s l)
unfolding pkcs8_key
pkcs8_key-IsPart der s l =
    let P : Option Bytes → Type 0 = IfSome (IsPart der) in
    ok_then-Ensures (Within der) P (der_expect der s 0x06) _ tt (der_expect-Within der s 0x06)
      (λ r i. rw (slice_run der r.0 r.1 i) (
        if-Ensures P (not (bytes_eq (take r.1 (drop r.0 der)) oid_ec_public_key)) _ _ (λ other. tt)
          (λ ec.
            >>=-Ensures (λ _. Unit) P (other_curve der (r.0 + r.1)) _
              (other_curve-Ends der (r.0 + r.1))
              (λ c e u.
                if-Ensures P (is_other c) _ _ (λ other. tt)
                  (λ same.
                    ok_then-Ensures (Within der) P (der_expect der (s + l) 0x04) _ tt
                      (der_expect-Within der (s + l) 0x04)
                      (λ k j. rw (slice_run der k.0 k.1 j) (k.0, k.1, j, refl)))))))

ec_private_key-IsPart :
    (der : Bytes) (tag s l : ℕ) → Ensures (IfSome (IsPart der)) (ec_private_key der tag s l)
unfolding ec_private_key
ec_private_key-IsPart der tag s l =
    if-Ensures (IfSome (IsPart der)) (tag == 0x30) _ _ (λ pkcs8. pkcs8_key-IsPart der s l)
      (λ other.
        if-Ensures (IfSome (IsPart der)) (tag == 0x04) _ _
          (λ sec1. (0, length der, omega arith, sym (take_all der (length der) (omega arith))))
          (λ none. tt))

-- Leading zeros do not count.
trim-be_value : (raw : Bytes) → be_value (trim raw) 0 ≡ be_value raw 0
unfolding trim
trim-be_value [] = refl
trim-be_value (b ∷ raw) = elim (Bool-cases (ltb 32 (length (b ∷ raw)) && (b == 0))) [
  | inl drops ↦
      let zero_byte : 0 * 256 + b ≡ 0 = ground arith in rw (drops, zero_byte) (trim-be_value raw)
  | inr stays ↦ rw stays
]

zeros-be_value : (n : ℕ) (s : Bytes) → be_value (replicate n 0 ++ s) 0 ≡ be_value s 0
zeros-be_value zero s = refl
zeros-be_value (suc n) s = zeros-be_value n s

-- A scalar that was padded.
abbrev pub IsScalar : Bytes → Bytes → Type 0
IsScalar der k = (length k ≡ 32) × (raw : Bytes) × IsPart der raw × (be_value k 0 ≡ be_value raw 0)

IsPart-trans : (der key raw : Bytes) → IsPart der key → IsPart key raw → IsPart der raw
IsPart-trans der key raw (p, n, h, e) (q, m, h', e') =
    let inner : q + m ≤ n = omega (arith, ap length e, length-take n (drop p der)) in
    (
      p + q,
      m,
      omega (arith, ap length e, length-take n (drop p der), length-drop p der),
      e'
          ∙ ap (λ k. take m (drop q k)) e
          ∙ run-take q m n (drop p der) inner
          ∙ ap (take m) (drop-drop p q (p + q) der refl),
    )

pad_scalar-IsScalar :
    (der raw : Bytes) → IsPart der raw → IfSome (IsScalar der) (pad_scalar (trim raw))
unfolding pad_scalar
pad_scalar-IsScalar der raw part = elim (Bool-cases (ltb 32 (length (trim raw)))) [
  | inl long ↦ rw long tt
  | inr fits ↦ rw fits (
    omega (
      arith,
      length-append (replicate (32 - length (trim raw)) 0) (trim raw),
      length-replicate {A = ℕ} (32 - length (trim raw)) 0,
      ltb→le 32 (length (trim raw)) fits,
    ),
    raw,
    part,
    zeros-be_value (32 - length (trim raw)) (trim raw) ∙ trim-be_value raw,
  )
]

scalar_of-IsScalar :
    (der : Bytes) (key : Option Bytes)
    → IfSome (IsPart der) key
    → Ensures (IfSome (IsScalar der)) (scalar_of key)
unfolding scalar_of ec_scalar
scalar_of-IsScalar der none i = tt
scalar_of-IsScalar der (some key) part =
    let P : Option Bytes → Type 0 = IfSome (IsScalar der) in
    ok_then-Ensures (Within key) P (der_expect key 0 0x30) _ tt (der_expect-Within key 0 0x30)
      (λ r i.
        ok_then-Ensures (Header key r.0) P (der_header key r.0) _ tt (der_header-Header key r.0)
          (λ v j.
            ok_then-Ensures (Within key) P (der_expect key (v.1 + v.2) 0x04) _ tt
              (der_expect-Within key (v.1 + v.2) 0x04)
              (λ k h. rw (slice_run key k.0 k.1 h) (
                pad_scalar-IsScalar der (take k.1 (drop k.0 key))
                  (IsPart-trans der key _ part (k.0, k.1, h, refl))))))

-- `ec_private_scalar` ends on every byte string with no panic, and a scalar that it returns has 32
-- bytes and the value, highest byte first, of some part of the string.
pub ec_private_scalar-IsScalar :
    (der : Bytes) → Ensures (IfSome (IsScalar der)) (ec_private_scalar der)
unfolding ec_private_scalar
ec_private_scalar-IsScalar der =
    let P : Option Bytes → Type 0 = IfSome (IsScalar der) in
    ok_then-Ensures (Within der) P (der_expect der 0 0x30) _ tt (der_expect-Within der 0 0x30)
      (λ r i.
        ok_then-Ensures (Header der r.0) P (der_header der r.0) _ tt (der_header-Header der r.0)
          (λ v j.
            ok_then-Ensures (Header der (v.1 + v.2)) P (der_header der (v.1 + v.2)) _ tt
              (der_header-Header der (v.1 + v.2))
              (λ t h.
                >>=-Ensures (IfSome (IsPart der)) P (ec_private_key der t.0 t.1 t.2) _
                  (ec_private_key-IsPart der t.0 t.1 t.2)
                  (λ key e k. scalar_of-IsScalar der key k))))
