-- ===== src/Jks/Entries.antt =====
-- The entries of a Java keystore as a grammar, and what the reads of its cursor say of it.
use fastsigner.Base.{
  ℕ, suc, ◌+◌, ◌≤◌, ◌≡◌, refl, sym, ap, subst, ◌∙◌, ◌⊎◌, inl, inr, true, false, none, List, [], ◌∷◌,
  ◌++◌, Bytes, length, take, drop, ok, Ensures, arith, codes, bytes_eq, ltb, ◌==◌, not,
}
use fastsigner.Base.{
  Ensures-map, >>=-Ensures, fail_if-Ensures, if-Ensures, certificate_type, truncated_keystore,
  slice_run, bytes_eq_iff, ==_iff, Bool-cases, take-append-drop, drop-drop, length-take,
  length-drop, ltb→le,
}
use fastsigner.Jks.{
  KeyEntry, Cursor, cursor_take, cursor_u32, cursor_u64, cursor_utf, from_be, chain_type,
}

-- A number of `k` bytes in big-endian order stands between the string `s` and what follows, `s'`.
abbrev pub Num : ℕ → ℕ → Bytes → Bytes → Type 0
Num k n s s' = (b : Bytes) × (s ≡ b ++ s') × (length b ≡ k) × (n ≡ from_be 0 b)

-- A string with its length in front, a number of `k` bytes.
abbrev pub Str : ℕ → Bytes → Bytes → Bytes → Type 0
Str k w s s' = (m : Bytes) × Num k (length w) s m × (m ≡ w ++ s')

-- The type of a certificate, which only version 2 has.
abbrev pub Typed : ℕ → Bytes → Bytes → Bytes → Type 0
Typed version t s s' = ((version ≡ 2) × Str 2 t s s') ⊎ ((¬ (version ≡ 2)) × (s ≡ s'))

pub data Chain : ℕ → ℕ → Bytes → Bytes → List Bytes → Type 0 where
  no_certs : {version : ℕ} {s : Bytes} → Chain version 0 s s []
  next_cert :
      {version n : ℕ} {s1 s2 s3 s4 : Bytes} {certs : List Bytes} (cert : Bytes)
      → Typed version (codes "X.509") s1 s2
      → Str 4 cert s2 s3
      → Chain version n s3 s4 certs
      → Chain version (suc n) s1 s4 (cert ∷ certs)

-- An alias and a date of 8 bytes behind the number `tag`.
abbrev pub Head : ℕ → Bytes → Bytes → Bytes → Type 0
Head tag alias s s' =
    (s1 : Bytes) × (s2 : Bytes) × (date : ℕ) × Num 4 tag s s1 × Str 2 alias s1 s2 × Num 8 date s2 s'

-- A key with its chain, and a trusted certificate, whose type may be any.
abbrev pub KeyOf : ℕ → KeyEntry → Bytes → Bytes → Type 0
KeyOf version k s s' =
    (s1 : Bytes) × (s2 : Bytes) × (n : ℕ) × Str 4 k.protected_key s s1
    × Num 4 n s1 s2
    × Chain version n s2 s' k.chain
    × (k.recovered ≡ none)

abbrev pub CertOf : ℕ → Bytes → Bytes → Type 0
CertOf version s s' =
    (s1 : Bytes) × (t : Bytes) × (cert : Bytes) × Typed version t s s1 × Str 4 cert s1 s'

-- As many entries as there are, their keys, and how many of them are trusted certificates.
pub data Entries : ℕ → ℕ → Bytes → Bytes → List KeyEntry → ℕ → Type 0 where
  no_entries : {version : ℕ} {s : Bytes} → Entries version 0 s s [] 0
  key_next :
      {version n trusted : ℕ} {s1 s2 s3 s4 : Bytes} {keys : List KeyEntry} (k : KeyEntry)
      → Head 1 k.alias s1 s2
      → KeyOf version k s2 s3
      → Entries version n s3 s4 keys trusted
      → Entries version (suc n) s1 s4 (k ∷ keys) trusted
  cert_next :
      {version n trusted : ℕ} {s1 s2 s3 s4 : Bytes} {keys : List KeyEntry} (alias : Bytes)
      → Head 2 alias s1 s2
      → CertOf version s2 s3
      → Entries version n s3 s4 keys trusted
      → Entries version (suc n) s1 s4 keys (trusted + 1)

-- A cursor on the string that it was made for, no further than its end.
abbrev pub In : Bytes → Cursor → Type 0
In bytes c = (c.b ≡ bytes) × (c.p ≤ length bytes)

true_is_not_false : true ≡ false → ⊥
true_is_not_false e = cc

pub same_bytes : (a b : Bytes) → not (bytes_eq a b) ≡ false → a ≡ b
same_bytes a b e = elim (Bool-cases (bytes_eq a b)) [
  | inl same ↦ (bytes_eq_iff a b).0 same
  | inr apart ↦ absurd (true_is_not_false (subst (λ t. not t ≡ false) apart e))
]

pub not_two : (n : ℕ) → (n == 2) ≡ false → ¬ (n ≡ 2)
not_two n e h = let two = (==_iff n 2).1 h in absurd (cc)

module _ (bytes : Bytes) where
  abbrev pub Takes : Cursor → ℕ → Bytes × Cursor → Type 0
  Takes c n (w, c') = In bytes c' × (drop c.p bytes ≡ w ++ drop c'.p bytes) × (length w ≡ n)

  pub cursor_take-Takes : (c : Cursor) (n : ℕ) → In bytes c → Ensures (Takes c n) (cursor_take c n)
  unfolding cursor_take
  cursor_take-Takes c n (same, le) =
      fail_if-Ensures (Takes c n) (ltb (length c.b) (c.p + n)) truncated_keystore _ (λ fits.
        let room = ltb→le (length c.b) (c.p + n) fits in
        let room' : c.p + n ≤ length bytes = subst (λ x. c.p + n ≤ length x) same room in
        let w = take n (drop c.p bytes) in
        rw (slice_run c.b c.p n room) (
          (same, room'),
          sym (take-append-drop n (drop c.p bytes))
              ∙ ap (λ r. w ++ r) (drop-drop c.p n (c.p + n) bytes refl)
              ∙ ap (λ x. take n (drop c.p x) ++ drop (c.p + n) bytes) (sym same),
          ap (λ x. length (take n (drop c.p x))) same
              ∙ omega (arith, length-take n (drop c.p bytes), length-drop c.p bytes, room'),
        ))

  abbrev pub Reads : ℕ → Cursor → ℕ × Cursor → Type 0
  Reads k c (n, c') = In bytes c' × Num k n (drop c.p bytes) (drop c'.p bytes)

  pub cursor_u32-Reads : (c : Cursor) → In bytes c → Ensures (Reads 4 c) (cursor_u32 c)
  unfolding cursor_u32
  cursor_u32-Reads c is =
      >>=-Ensures (Takes c 4) (Reads 4 c) (cursor_take c 4) _ (cursor_take-Takes c 4 is)
        (λ r e (is', at, size). (is', (r.0, at, size, refl)))

  pub cursor_u64-Reads : (c : Cursor) → In bytes c → Ensures (Reads 8 c) (cursor_u64 c)
  unfolding cursor_u64
  cursor_u64-Reads c is =
      >>=-Ensures (Takes c 8) (Reads 8 c) (cursor_take c 8) _ (cursor_take-Takes c 8 is)
        (λ r e (is', at, size). (is', (r.0, at, size, refl)))

  abbrev pub Texts : ℕ → Cursor → Bytes × Cursor → Type 0
  Texts k c (w, c') = In bytes c' × Str k w (drop c.p bytes) (drop c'.p bytes)

  pub cursor_utf-Texts : (c : Cursor) → In bytes c → Ensures (Texts 2 c) (cursor_utf c)
  unfolding cursor_utf
  cursor_utf-Texts c is =
      >>=-Ensures (Takes c 2) (Texts 2 c) (cursor_take c 2) _ (cursor_take-Takes c 2 is)
        (λ r e (is', at, size).
          Ensures-map (cursor_take r.1 (from_be 0 r.0))
            (λ t (is'', at', size'). (is'', (drop (r.1).p bytes, (r.0, at, size, size'), at')))
            (cursor_take-Takes r.1 (from_be 0 r.0) is'))

  -- A text behind its length in four bytes.
  pub sized :
      (n : ℕ) (c c' : Cursor)
      → Num 4 n (drop c.p bytes) (drop c'.p bytes)
      → In bytes c'
      → Ensures (Texts 4 c) (cursor_take c' n)
  sized n c c' num is =
      Ensures-map (cursor_take c' n)
        (λ t (is', at, size). (is', (drop c'.p bytes, (num.0, num.1, num.2, size ∙ num.3), at)))
        (cursor_take-Takes c' n is)

  abbrev pub Types : ℕ → Bytes → Cursor → Cursor → Type 0
  Types version t c c' = In bytes c' × Typed version t (drop c.p bytes) (drop c'.p bytes)

  pub chain_type-Types :
      (version : ℕ) (c : Cursor)
      → In bytes c
      → Ensures (Types version (codes "X.509") c) (chain_type version c)
  unfolding chain_type
  chain_type-Types version c is =
      let P : Cursor → Type 0 = Types version (codes "X.509") c in
      if-Ensures P (version == 2) _ _
        (λ two.
          >>=-Ensures (Texts 2 c) P (cursor_utf c) _ (cursor_utf-Texts c is) (λ r e (is', text).
            fail_if-Ensures P (not (bytes_eq r.0 (codes "X.509"))) (certificate_type r.0) (ok r.1)
              (λ known.
                let same : r.0 ≡ codes "X.509" = same_bytes r.0 (codes "X.509") known in
                (
                  is',
                  inl (
                    (==_iff version 2).0 two,
                    subst (λ w. Str 2 w (drop c.p bytes) (drop (r.1).p bytes)) same text,
                  ),
                ))))
        (λ other. (is, inr (not_two version other, refl)))
