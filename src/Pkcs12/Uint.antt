-- ===== src/Pkcs12/Uint.antt =====
-- What `uint` returns of any element.
use fastsigner.Base.{
  Bool-cases, ℕ, ◌+◌, ◌*◌, ◌/◌, ◌^◌, ◌≤◌, ◌<◌, ◌≡◌, refl, ◌⊎◌, inl, inr, some, none, [], ◌∷◌, Bytes,
  Outcome, ok, err, Ensures, arith, ◌>>=◌, if◌then◌else◌, ok_or, ltb, ◌==◌, not,
}
use fastsigner.Base.{le→ltb, not_positive, too_large, pkcs12_tag}
use fastsigner.Base.{if-Ensures, Ensures-map, ltb→lt}
use fastsigner.Keys.Der.Bounds.{Ends}
use fastsigner.Keys.Der.Reads.{be_value}
use fastsigner.Pkcs12.{Tlv, uint_fold, try_u32, is_negative, expect_tag, uint}

be_value_grows : (bs : Bytes) (acc : ℕ) → acc ≤ be_value bs acc
be_value_grows [] acc = omega arith
be_value_grows (b ∷ bs) acc = omega (arith, be_value_grows bs (acc * 256 + b))

-- The fold stops in front of a value that 32 bits do not hold.
uint_fold_cases :
    (bs : Bytes) (acc : ℕ)
    → (uint_fold acc bs ≡ some (be_value bs acc))
      ⊎ ((uint_fold acc bs ≡ none) × (2 ^ 32 ≤ be_value bs acc))
unfolding uint_fold
uint_fold_cases [] acc = inl refl
uint_fold_cases (b ∷ bs) acc = elim (Bool-cases (acc / 2 ^ 32 == 0)) [
  | inl e ↦ rw e (uint_fold_cases bs (acc * 256 + b))
  | inr e ↦
      let large : 2 ^ 32 ≤ acc = ground arith in
      rw e (inr (refl, omega (arith, large, be_value_grows bs (acc * 256 + b))))
]

-- The value of the content of an INTEGER, if it is not negative and 32 bits hold it.
abbrev pub uint_result : Tlv → Bytes → Outcome ℕ
uint_result t what =
    if not (t.tag == 0x02)
    then err (pkcs12_tag what 0x02 t.tag)
    else if is_negative t.body
    then err (not_positive what)
    else if ltb (be_value t.body 0) (2 ^ 32)
    then ok (be_value t.body 0)
    else err (too_large what)

folded :
    (bs : Bytes) (what : Bytes)
    → (ok_or (uint_fold 0 bs) (too_large what) >>= λ v. ok_or (try_u32 v) (too_large what))
      ≡ (if ltb (be_value bs 0) (2 ^ 32) then ok (be_value bs 0) else err (too_large what))
unfolding try_u32
folded bs what = elim (uint_fold_cases bs 0) [
  | inl e ↦
      rw e
        (elim (Bool-cases (ltb (be_value bs 0) (2 ^ 32))) [ inl s ↦ rw s refl | inr s ↦ rw s refl ])
  | inr (e, large) ↦ rw (e, le→ltb (be_value bs 0) (2 ^ 32) large) refl
]

-- Of every element `uint` returns the value of its content, highest byte first, or says which of
-- three things is wrong: another tag, no first byte below 128, or a value that 32 bits do not hold.
pub uint_exact : (t : Tlv) (what : Bytes) → uint t what ≡ uint_result t what
unfolding uint expect_tag
uint_exact t what = elim (Bool-cases (t.tag == 0x02)) [
  | inr e ↦ rw e refl
  | inl e ↦ rw e (elim (Bool-cases (is_negative t.body)) [
    | inl n ↦ rw n refl
    | inr n ↦ rw n (folded t.body what)
  ])
]

-- A value that `uint` returns fits 32 bits.
pub uint-Small : (t : Tlv) (what : Bytes) → Ensures (λ v. v < 2 ^ 32) (uint t what)
uint-Small t what =
    let P : ℕ → Type 0 = λ v. v < 2 ^ 32 in
    rw (uint_exact t what) (
      if-Ensures P (not (t.tag == 0x02)) _ _ (λ _. tt)
        (λ _.
          if-Ensures P (is_negative t.body) _ _ (λ _. tt)
            (λ _.
              if-Ensures P (ltb (be_value t.body 0) (2 ^ 32)) _ _
                (λ small. ltb→lt (be_value t.body 0) (2 ^ 32) small) (λ _. tt))))

pub uint-Ends : (t : Tlv) (what : Bytes) → Ends (uint t what)
uint-Ends t what = Ensures-map (uint t what) (λ v i. tt) (uint-Small t what)
