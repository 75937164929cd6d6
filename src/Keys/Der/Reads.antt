-- ===== src/Keys/Der/Reads.antt =====
-- `der_header` reads a tag, a length in either form and a content.
use fastsigner.Base.{
  ℕ, ◌+◌, ◌-◌, ◌*◌, ◌%◌, ◌≤◌, ◌<◌, ◌≡◌, refl, sym, ap, ◌∙◌, ◌⊎◌, inl, inr, [], ◌∷◌, ◌++◌,
  append_assoc, Bytes, length, drop, some, true, false, ltb, ◌==◌, ◌||◌, ok, arith, get_elem?,
  get_elem?-drop, lt→ltb, le→ltb, length-append, length-drop, drop-drop, drop-append_at,
}
use fastsigner.Keys.Der.{der_len, der_length_at, der_header, der_skip, der_expect}

-- The value of a length's bytes, the first the highest.
abbrev pub be_value : Bytes → ℕ → ℕ
be_value [] len = len
be_value (d ∷ ds) len = be_value ds (len * 256 + d)

-- The bytes of a length: one below 128, or a count from 1 to 4 and as many.
abbrev pub IsLength : Bytes → ℕ → Type 0
IsLength h n =
    ((n < 128) × (h ≡ n ∷ []))
    ⊎ ((ds : Bytes) × (0 < length ds)
        × (length ds ≤ 4)
        × (h ≡ (128 + length ds) ∷ ds)
        × (be_value ds 0 ≡ n))

-- `e` encodes the content `c` under the tag `t`.
abbrev pub IsTlv : ℕ → Bytes → Bytes → Type 0
IsTlv t c e = (¬ (t % 32 ≡ 31)) × (h : Bytes) × (e ≡ t ∷ (h ++ c)) × IsLength h (length c)

next-drop : (b rest : Bytes) (q d : ℕ) → drop q b ≡ d ∷ rest → drop (q + 1) b ≡ rest
next-drop b rest q d e = sym (drop-drop q 1 (q + 1) b refl) ∙ ap (drop 1) e

der_len-reads :
    (ds : Bytes) (b : Bytes) (q len : ℕ) (rest : Bytes)
    → drop q b ≡ ds ++ rest
    → der_len b q (length ds) len ≡ ok (be_value ds len)
unfolding der_len
der_len-reads [] b q len rest e = refl
der_len-reads (d ∷ ds) b q len rest e =
    rw (get_elem?-drop b q e)
      (der_len-reads ds b (q + 1) (len * 256 + d) rest (next-drop b (ds ++ rest) q d e))

der_length_at-reads :
    (h : Bytes) (n : ℕ) (b : Bytes) (p : ℕ) (rest : Bytes)
    → IsLength h n
    → drop (p + 1) b ≡ h ++ rest
    → (first : ℕ) × (get_elem? b (p + 1) ≡ some first)
      × (der_length_at b p first ≡ ok (n, 1 + length h))
unfolding der_length_at
der_length_at-reads h n b p rest (inl (small, eq)) e =
    let at : drop (p + 1) b ≡ n ∷ rest = e ∙ ap (λ x. x ++ rest) eq in
    (n, get_elem?-drop b (p + 1) at, rw (lt→ltb n 128 small, eq))
der_length_at-reads h n b p rest (inr (ds, some_bytes, few, eq, val)) e =
    let at : drop (p + 1) b ≡ (128 + length ds) ∷ (ds ++ rest) = e ∙ ap (λ x. x ++ rest) eq in
    let at' : drop (p + 2) b ≡ ds ++ rest =
      ap (λ i. drop i b) (omega arith) ∙ next-drop b (ds ++ rest) (p + 1) (128 + length ds) at in
    let count : (128 + length ds) % 128 ≡ length ds = omega arith in
    let fine : ((length ds == 0) || ltb 4 (length ds)) ≡ false = ground arith in
    let size : 1 + length h ≡ 2 + length ds = omega (arith, ap length eq) in
    (
      128 + length ds,
      get_elem?-drop b (p + 1) at,
      rw (
        le→ltb (128 + length ds) 128 (omega arith),
        count,
        fine,
        der_len-reads ds b (p + 2) 0 rest at',
        val,
        size,
      ),
    )

-- Of an encoding that stands at `p`, with its length in the short form or in 1 to 4 bytes,
-- `der_header` returns the tag, where the content begins and how long it is.
pub der_header-reads :
    (t : ℕ) (c e : Bytes) (b : Bytes) (p : ℕ) (rest : Bytes)
    → IsTlv t c e
    → drop p b ≡ e ++ rest
    → der_header b p ≡ ok (t, p + (length e - length c), length c)
unfolding der_header
der_header-reads t c e b p rest (low, h, eq, l) at =
    let whole : drop p b ≡ t ∷ (h ++ (c ++ rest)) =
      at ∙ ap (λ x. x ++ rest) eq ∙ ap (λ x. t ∷ x) (append_assoc h c rest) in
    let (first, got, run) =
      der_length_at-reads h (length c) b p (c ++ rest) l
        (next-drop b (h ++ (c ++ rest)) p t whole) in
    let low' : (t % 32 == 31) ≡ false = ground arith in
    let hdr : length e - length c ≡ 1 + length h = omega (arith, ap length eq, length-append h c) in
    let size : length b - p ≡ 1 + (length h + (length c + length rest)) = omega (
      arith,
      length-drop p b,
      ap length whole,
      length-append h (c ++ rest),
      length-append c rest,
    ) in
    rw (
      get_elem?-drop b p whole,
      low',
      got,
      run,
      le→ltb (length b) (p + (1 + length h) + length c) (omega arith),
      hdr,
    )

-- What follows an encoding.
pub after-drop : (e b rest : Bytes) (p : ℕ) → drop p b ≡ e ++ rest → drop (p + length e) b ≡ rest
after-drop e b rest p at =
    sym (drop-drop p (length e) (p + length e) b refl)
    ∙ ap (drop (length e)) at
    ∙ drop-append_at e rest 0 (length e) (omega arith)

pub content-drop :
    (t : ℕ) (c e b rest : Bytes) (p : ℕ)
    → IsTlv t c e
    → drop p b ≡ e ++ rest
    → drop (p + (length e - length c)) b ≡ c ++ rest
content-drop t c e b rest p (low, h, eq, l) at =
    let hdr : length e - length c ≡ length (t ∷ h) =
      omega (arith, ap length eq, length-append h c) in
    let whole : drop p b ≡ (t ∷ h) ++ (c ++ rest) =
      at ∙ ap (λ x. x ++ rest) eq ∙ ap (λ x. t ∷ x) (append_assoc h c rest) in
    ap (λ n. drop (p + n) b) hdr ∙ after-drop (t ∷ h) b (c ++ rest) p whole

pub content_end :
    (t : ℕ) (c e : Bytes) (p : ℕ)
    → IsTlv t c e
    → p + (length e - length c) + length c ≡ p + length e
content_end t c e p (low, h, eq, l) = omega (arith, ap length eq, length-append h c)

pub der_skip-reads :
    (t : ℕ) (c e : Bytes) (b : Bytes) (p : ℕ) (rest : Bytes)
    → IsTlv t c e
    → drop p b ≡ e ++ rest
    → der_skip b p ≡ ok (p + length e)
unfolding der_skip
der_skip-reads t c e b p rest is at =
    rw (der_header-reads t c e b p rest is at, content_end t c e p is)

pub der_expect-reads :
    (t : ℕ) (c e : Bytes) (b : Bytes) (p : ℕ) (rest : Bytes)
    → IsTlv t c e
    → drop p b ≡ e ++ rest
    → der_expect b p t ≡ ok (p + (length e - length c), length c)
unfolding der_expect
der_expect-reads t c e b p rest is at =
    let same : (t == t) ≡ true = ground arith in rw (der_header-reads t c e b p rest is at, same)
