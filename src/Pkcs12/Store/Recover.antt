-- ===== src/Pkcs12/Store/Recover.antt =====
-- `recover_key` ends on every byte string, and returns a key that is whole.
use fastsigner.Base.{
  ◌∷◌, ==_iff, true, false, some, none, Option, sym, ℕ, ◌-◌, ◌≡◌, refl, ap, ◌∙◌, ◌⊎◌, inl, inr,
  List, [], Bytes, length, take, Outcome, ok, err, Ensures, arith, codes, ok_or, ◌==◌, not, panic,
  out_of_fuel,
}
use fastsigner.Base.{
  Ensures-map, if-Ensures, >>=-Ensures, take_all, length-take, wrong_key_password,
}
use fastsigner.Pkcs12.{Tlv, tlv, one, expect_tag, children, child}
use fastsigner.Pkcs12.Elements.{At, tlv-At, one-Ends, child-Ends, children-Ends}
use fastsigner.Pkcs12.Ring.{Ring, IsRing}
use fastsigner.Pkcs12.Pbes2.{pbes2_decrypt}
use fastsigner.Pkcs12.Pbes2.Unpad.{pbes2_decrypt-Ends}
use fastsigner.Pkcs12.Store.{settle, is_plain_key, recover_key}

-- The whole string is one SEQUENCE.
abbrev pub IsSequence : Bytes → Type 0
IsSequence text = (t : Tlv) × (one text 0x30 [] ≡ ok t) × (t.tag ≡ 0x30) × (t.raw ≡ text)

-- An element that begins with the string.
abbrev Front : Bytes → ℕ → Tlv → Type 0
Front text tag t = (t.tag ≡ tag) × (t.raw ≡ take (length t.raw) text)

tagged :
    (text : Bytes) (tag : ℕ) (t : Tlv)
    → t.raw ≡ take (length t.raw) text
    → Ensures (Front text tag) (expect_tag t tag [])
unfolding expect_tag
tagged text tag t e =
    if-Ensures (Front text tag) (not (t.tag == tag)) _ _ (λ other. tt) (λ same. (ground arith, e))

one-Front : (text : Bytes) (tag : ℕ) → Ensures (Front text tag) (one text tag [])
unfolding one
one-Front text tag =
    >>=-Ensures (At text 0) (Front text tag) (tlv text 0) _ (tlv-At text 0) (λ r e at.
      let n : r.1 - 0 ≡ length (r.0).raw =
        omega (arith, at.1, ap length at.2, length-take (r.1 - 0) text) in
      tagged text tag (r.0) (at.2 ∙ ap (λ k. take k text) n))

settle-IsSequence :
    (text : Bytes) (m : Outcome Tlv)
    → one text 0x30 [] ≡ m
    → Ensures (Front text 0x30) m
    → Ensures (λ key. IsSequence key × (key ≡ text)) (settle text m)
unfolding settle
settle-IsSequence text (ok t) e front =
    if-Ensures (λ key. IsSequence key × (key ≡ text)) (length t.raw == length text) _ _
      (λ whole.
        let all : length t.raw ≡ length text = ground arith in
        ((t, e, front.0, front.1 ∙ take_all text (length t.raw) (omega arith)), refl))
      (λ short. tt)
settle-IsSequence text (err e) run front = tt
settle-IsSequence text panic run front = front
settle-IsSequence text out_of_fuel run front = front

-- The content of the protected key, whose first element is an INTEGER if it is not encrypted.
abbrev Content : Bytes → List Tlv → Type 0
Content protected_key c =
    (t : Tlv) × (one protected_key 0x30 (codes "key bag") ≡ ok t) × (children t.body ≡ ok c)

abbrev BeginsInteger : List Tlv → Type 0
BeginsInteger [] = ⊥
BeginsInteger (t ∷ c) = t.tag ≡ 0x02

-- The key that PBES2 decrypts, of the algorithm and the string that the content has.
abbrev DecryptsTo : Ring → List Tlv → List ℕ → Bytes → Type 0
DecryptsTo r c password key =
    (alg : Tlv) × (body : Tlv) × (child c 0 0x30 (codes "EncryptedPrivateKeyInfo") ≡ ok alg)
    × (child c 1 0x04 (codes "EncryptedPrivateKeyInfo") ≡ ok body)
    × (pbes2_decrypt r alg body.body password ≡ ok (some key))

-- A key that is not encrypted is returned as it is; another is what is decrypted, one SEQUENCE.
abbrev pub IsKey : Ring → Bytes → List ℕ → Bytes → Type 0
IsKey r protected_key password key =
    (c : List Tlv) × Content protected_key c
    × ((BeginsInteger c × (key ≡ protected_key))
        ⊎ ((¬ BeginsInteger c) × DecryptsTo r c password key × IsSequence key))

plain_key-BeginsInteger : (c : List Tlv) → is_plain_key c ≡ true → BeginsInteger c
plain_key-BeginsInteger [] e = cc
plain_key-BeginsInteger (t ∷ c) e = (==_iff t.tag 0x02).0 e

other_key-BeginsInteger : (c : List Tlv) → is_plain_key c ≡ false → ¬ BeginsInteger c
other_key-BeginsInteger [] e h = h
other_key-BeginsInteger (t ∷ c) e h =
    let same : (t.tag == 0x02) ≡ true = (==_iff t.tag 0x02).1 h in absurd (cc)

some_of : (o : Option Bytes) → Ensures (λ text. o ≡ some text) (ok_or o wrong_key_password)
some_of none = tt
some_of (some text) = refl

-- `recover_key` ends on every byte string with no panic. A key that it returns is the input, where
-- the first element of the input's SEQUENCE is an INTEGER, so that it was not encrypted; otherwise
-- it is what PBES2 decrypts with the password, and one SEQUENCE with nothing behind it.
pub recover_key-IsKey :
    (r : Ring) (protected_key : Bytes) (password : List ℕ)
    → IsRing r
    → Ensures (IsKey r protected_key password) (recover_key r protected_key password)
unfolding recover_key
recover_key-IsKey r protected_key password law =
    let P : Bytes → Type 0 = IsKey r protected_key password in
    >>=-Ensures _ P (one protected_key 0x30 (codes "key bag")) _ (one-Ends protected_key 0x30 _)
      (λ t opened _. >>=-Ensures _ P (children t.body) _ (children-Ends t.body) (λ c split _.
        if-Ensures P (is_plain_key c) _ _
          (λ plain_key. (c, (t, opened, split), inl (plain_key-BeginsInteger c plain_key, refl)))
          (λ encrypted_key.
            >>=-Ensures _ P (child c 0 0x30 (codes "EncryptedPrivateKeyInfo")) _
              (child-Ends c 0 0x30 _)
              (λ alg e1 _.
                >>=-Ensures _ P (child c 1 0x04 (codes "EncryptedPrivateKeyInfo")) _
                  (child-Ends c 1 0x04 _)
                  (λ body e2 _.
                    >>=-Ensures _ P (pbes2_decrypt r alg body.body password) _
                      (pbes2_decrypt-Ends r alg body.body password law)
                      (λ decrypted e3 _.
                        >>=-Ensures (λ text. decrypted ≡ some text) P
                          (ok_or decrypted wrong_key_password) _ (some_of decrypted)
                          (λ text e4 is_some.
                            Ensures-map (settle text (one text 0x30 []))
                              (λ key is.
                                let run : pbes2_decrypt r alg body.body password ≡ ok (some key) =
                                  e3 ∙ ap ok (is_some ∙ ap some (sym is.1)) in
                                (
                                  c,
                                  (t, opened, split),
                                  inr (
                                    other_key-BeginsInteger c encrypted_key,
                                    (alg, body, e1, e2, run),
                                    is.0,
                                  ),
                                ))
                              (settle-IsSequence text (one text 0x30 []) refl
                                (one-Front text 0x30)))))))))
