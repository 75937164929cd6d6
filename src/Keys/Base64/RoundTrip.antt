-- ===== src/Keys/Base64/RoundTrip.antt =====
-- What is encoded in base64 is decoded again.
use fastsigner.Base.{
  ℕ, ◌+◌, ◌-◌, ◌*◌, ◌/◌, ◌%◌, ◌<◌, ◌≡◌, refl, sym, ap, ◌∙◌, [], ◌∷◌, ◌++◌, Bytes, All, ok, arith,
}
use fastsigner.Base.{ltb, append_assoc, append-nil, IsByte, if◌then◌else◌}
use fastsigner.Keys.Base64.{absorb, value, symbol, Decoding, push, decode_loop, base64_decode}

-- The alphabet.
abbrev pub letter : ℕ → ℕ
letter v =
    if ltb v 26
    then v + 65
    else if ltb v 52
    then v - 26 + 97
    else if ltb v 62
    then v - 52 + 48
    else if ltb v 63
    then 43
    else 47

-- The encoding, three bytes a group, filled up with `=`.
abbrev pub encode : Bytes → Bytes
encode [] = []
encode (a ∷ []) = letter (a / 4) ∷ letter (a % 4 * 16) ∷ 61 ∷ 61 ∷ []
encode (a ∷ b ∷ []) = letter (a / 4) ∷ letter (a % 4 * 16 + b / 16) ∷ letter (b % 16 * 4) ∷ 61 ∷ []
encode (a ∷ b ∷ c ∷ m) =
    letter (a / 4)
    ∷ letter (a % 4 * 16 + b / 16)
    ∷ letter (b % 16 * 4 + c / 64)
    ∷ letter (c % 64)
    ∷ encode m

symbol-letter : (v : ℕ) → v < 64 → symbol (letter v) ≡ value v
unfolding symbol
symbol-letter v h = ground arith

step_at :
    (c v : ℕ) (s : Bytes) (d : Decoding)
    → symbol c ≡ value v
    → decode_loop (c ∷ s) d ≡ decode_loop s (push d v)
unfolding decode_loop absorb
step_at c v s d e = rw e

step :
    (v : ℕ) (s : Bytes) (d : Decoding)
    → v < 64
    → decode_loop (letter v ∷ s) d ≡ decode_loop s (push d v)
step v s d h = step_at (letter v) v s d (symbol-letter v h)

fill : (s : Bytes) (d : Decoding) → decode_loop (61 ∷ s) d ≡ decode_loop s d
unfolding decode_loop symbol absorb
fill s d = refl

-- Before a group, and after each of its letters.
abbrev state : ℕ → ℕ → Bytes → Decoding
state acc bits out = record { acc = acc; bits = bits; out = out }

push-first : (v : ℕ) (out : Bytes) → v < 64 → push (state 0 0 out) v ≡ state v 6 out
unfolding push
push-first v out h = let e : (0 * 64 + v) % 4294967296 ≡ v = omega arith in rw e

push-second :
    (x v : ℕ) (out : Bytes)
    → x < 64
    → v < 64
    → push (state x 6 out) v ≡ state (v % 16) 4 (out ++ (x * 4 + v / 16) ∷ [])
unfolding push
push-second x v out h k =
    let e : (x * 64 + v) % 4294967296 % 16 ≡ v % 16 = omega arith in
    let e' : (x * 64 + v) % 4294967296 / 16 % 256 ≡ x * 4 + v / 16 = omega arith in rw (e, e')

push-third :
    (x v : ℕ) (out : Bytes)
    → x < 16
    → v < 64
    → push (state x 4 out) v ≡ state (v % 4) 2 (out ++ (x * 16 + v / 4) ∷ [])
unfolding push
push-third x v out h k =
    let e : (x * 64 + v) % 4294967296 % 4 ≡ v % 4 = omega arith in
    let e' : (x * 64 + v) % 4294967296 / 4 % 256 ≡ x * 16 + v / 4 = omega arith in rw (e, e')

push-fourth :
    (x v : ℕ) (out : Bytes)
    → x < 4
    → v < 64
    → push (state x 2 out) v ≡ state 0 0 (out ++ (x * 64 + v) ∷ [])
unfolding push
push-fourth x v out h k =
    let e : (x * 64 + v) % 4294967296 % 1 ≡ 0 = omega arith in
    let e' : (x * 64 + v) % 4294967296 / 1 % 256 ≡ x * 64 + v = omega arith in rw (e, e')

-- Two letters that begin with the byte `a`.
two_letters :
    (a w : ℕ) (s out : Bytes)
    → a < 256
    → w < 16
    → decode_loop (letter (a / 4) ∷ letter (a % 4 * 16 + w) ∷ s) (state 0 0 out)
      ≡ decode_loop s (state w 4 (out ++ a ∷ []))
two_letters a w s out h k =
    let first : a / 4 * 4 + (a % 4 * 16 + w) / 16 ≡ a = omega arith in
    let left : (a % 4 * 16 + w) % 16 ≡ w = omega arith in
    step (a / 4) (letter (a % 4 * 16 + w) ∷ s) (state 0 0 out) (omega arith)
    ∙ ap (decode_loop (letter (a % 4 * 16 + w) ∷ s)) (push-first (a / 4) out (omega arith))
    ∙ step (a % 4 * 16 + w) s (state (a / 4) 6 out) (omega arith)
    ∙ ap (decode_loop s)
        (push-second (a / 4) (a % 4 * 16 + w) out (omega arith) (omega arith) ∙ rw (first, left))

-- A letter more, for the byte `b`.
third_letter :
    (b w : ℕ) (s out : Bytes)
    → b < 256
    → w < 4
    → decode_loop (letter (b % 16 * 4 + w) ∷ s) (state (b / 16) 4 out)
      ≡ decode_loop s (state w 2 (out ++ b ∷ []))
third_letter b w s out h k =
    let byte : b / 16 * 16 + (b % 16 * 4 + w) / 4 ≡ b = omega arith in
    let left : (b % 16 * 4 + w) % 4 ≡ w = omega arith in
    step (b % 16 * 4 + w) s (state (b / 16) 4 out) (omega arith)
    ∙ ap (decode_loop s)
        (push-third (b / 16) (b % 16 * 4 + w) out (omega arith) (omega arith) ∙ rw (byte, left))

fourth_letter :
    (c : ℕ) (s out : Bytes)
    → c < 256
    → decode_loop (letter (c % 64) ∷ s) (state (c / 64) 2 out)
      ≡ decode_loop s (state 0 0 (out ++ c ∷ []))
fourth_letter c s out h =
    let byte : c / 64 * 64 + c % 64 ≡ c = omega arith in
    step (c % 64) s (state (c / 64) 2 out) (omega arith)
    ∙ ap (decode_loop s) (push-fourth (c / 64) (c % 64) out (omega arith) (omega arith) ∙ rw byte)

decode_loop-encode :
    (m out : Bytes) → All IsByte m → decode_loop (encode m) (state 0 0 out) ≡ ok (out ++ m)
unfolding decode_loop symbol absorb
decode_loop-encode [] out h = ap ok (sym (append-nil out))
decode_loop-encode (a ∷ []) out (h, _) =
    let same : a % 4 * 16 + 0 ≡ a % 4 * 16 = omega arith in
    rw same at (two_letters a 0 (61 ∷ 61 ∷ []) out h (omega arith))
decode_loop-encode (a ∷ b ∷ []) out (h, (k, _)) =
    let same : b % 16 * 4 + 0 ≡ b % 16 * 4 = omega arith in
    two_letters a (b / 16) (letter (b % 16 * 4) ∷ 61 ∷ []) out h (omega arith)
    ∙ rw same at (third_letter b 0 (61 ∷ []) (out ++ a ∷ []) k (omega arith))
    ∙ ap ok (append_assoc out (a ∷ []) (b ∷ []))
decode_loop-encode (a ∷ b ∷ c ∷ m) out (h, (k, (l, r))) =
    two_letters a (b / 16) (letter (b % 16 * 4 + c / 64) ∷ letter (c % 64) ∷ encode m) out h
      (omega arith)
    ∙ third_letter b (c / 64) (letter (c % 64) ∷ encode m) (out ++ a ∷ []) k (omega arith)
    ∙ fourth_letter c (encode m) ((out ++ a ∷ []) ++ b ∷ []) l
    ∙ decode_loop-encode m (((out ++ a ∷ []) ++ b ∷ []) ++ c ∷ []) r
    ∙ ap ok (
        rw (
          append_assoc ((out ++ a ∷ []) ++ b ∷ []) (c ∷ []) m,
          append_assoc (out ++ a ∷ []) (b ∷ []) (c ∷ m),
          append_assoc out (a ∷ []) (b ∷ c ∷ m),
        ))

-- Bytes that are encoded in base64, with or without a last group that is filled up, are decoded again.
pub base64_decode-encode : (m : Bytes) → All IsByte m → base64_decode (encode m) ≡ ok m
unfolding base64_decode
base64_decode-encode m h = decode_loop-encode m [] h
