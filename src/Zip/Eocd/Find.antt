-- ===== src/Zip/Eocd/Find.antt =====
-- What `find_eocd` finds: the candidate with the shortest comment, if there is one.
use fastsigner.Base.{
  ℕ, zero, suc, ◌+◌, ◌-◌, ◌≤◌, ◌<◌, min, ◌≡◌, refl, ◌⊎◌, inl, inr, Option, none, some, arith, Bytes,
  length, take, drop, ltb, ◌==◌, bytes_eq, bytes_eq_iff, ==_iff, Bool-cases, Outcome, ok, ◌>>=◌,
  slice, slice_run, field, word_le_in_range, if◌then◌else◌, ltb→lt, ltb→le,
}
use fastsigner.Zip.Eocd.{u16le, eocd_sig, eocd_min_len, find_eocd_loop, find_eocd}

-- A record with a comment of `c` bytes ends the string: its signature, and its comment length.
abbrev pub IsEocdAt : Bytes → ℕ → Type 0
IsEocdAt tail c =
    (c + 22 ≤ length tail)
    × (take 4 (drop (length tail - 22 - c) tail) ≡ eocd_sig)
    × (field 2 tail (length tail - 22 - c + 20) ≡ c)

-- The answer for the comment lengths from `lo` up to `hi`, which is not among them.
abbrev pub Finds : Bytes → ℕ → ℕ → Option ℕ → Type 0
Finds tail lo hi none = (d : ℕ) → lo ≤ d → d < hi → ¬ (IsEocdAt tail d)
Finds tail lo hi (some i) =
    (c : ℕ) × (lo ≤ c)
    × (c < hi)
    × (i + 22 + c ≡ length tail)
    × IsEocdAt tail c
    × ((d : ℕ) → lo ≤ d → d < c → ¬ (IsEocdAt tail d))

Finds-later :
    (tail : Bytes) (lo lo' hi : ℕ) (o : Option ℕ)
    → lo' ≡ lo + 1
    → ¬ (IsEocdAt tail lo)
    → Finds tail lo' hi o
    → Finds tail lo hi o
Finds-later tail lo lo' hi none e bad f = λ d p q. elim (Bool-cases (d == lo)) [
  | inl same ↦ let at : d ≡ lo = (==_iff d lo).0 same in rw at bad
  | inr other ↦ f d (ground arith) q
]
Finds-later tail lo lo' hi (some i) e bad (c, p, q, r, s, t) = (
  c,
  omega arith,
  q,
  r,
  s,
  λ d u v. elim (Bool-cases (d == lo)) [
    | inl same ↦ let at : d ≡ lo = (==_iff d lo).0 same in rw at bad
    | inr other ↦ t d (ground arith) v
  ],
)

-- No string holds a longer comment than its length allows.
Finds-widen :
    (tail : Bytes) (hi : ℕ) (o : Option ℕ)
    → hi ≤ 65536
    → ((d : ℕ) → hi ≤ d → (length tail < d + 22) ⊎ (65536 ≤ d))
    → Finds tail 0 hi o
    → Finds tail 0 65536 o
Finds-widen tail hi none h k f = λ d p q at. elim (Bool-cases (ltb d hi)) [
  | inl low ↦ f d p (ltb→lt d hi low) at
  | inr high ↦ absurd (omega (arith, k d (ltb→le d hi high)))
]
Finds-widen tail hi (some i) h k (c, p, q, r, s, t) = (c, p, omega arith, r, s, t)

module _ (tail : Bytes) (lo hi : ℕ) (rest : Outcome (Option ℕ)) where
  -- One round, on the rest of the loop.
  abbrev round : Outcome (Option ℕ)
  round =
      let i = length tail - eocd_min_len - lo in
      do
        head ← slice tail i (i + 4)
        if bytes_eq head eocd_sig
            then (do c ← u16le tail (i + 20); if c == lo then ok (some i) else rest)
            else rest

  round_lem :
      (o : Option ℕ)
      → lo < hi
      → hi + 22 ≤ length tail + 1
      → rest ≡ ok o
      → Finds tail (lo + 1) hi o
      → (o' : Option ℕ) × (round ≡ ok o') × Finds tail lo hi o'
  round_lem o h k e f =
      let i : ℕ = length tail - eocd_min_len - lo in
      let later = λ (bad : ¬ (IsEocdAt tail lo)). Finds-later tail lo (lo + 1) hi o refl bad f in
      rw (slice_run tail i 4 (omega arith))
        (elim (Bool-cases (bytes_eq (take 4 (drop i tail)) eocd_sig)) [
          | inl same ↦
              rw (same, word_le_in_range 2 tail (i + 20) (omega arith))
                (elim (Bool-cases (field 2 tail (i + 20) == lo)) [
                  | inl fits ↦ rw fits (
                    some i,
                    refl,
                    (
                      lo,
                      omega arith,
                      h,
                      omega arith,
                      (omega arith, (bytes_eq_iff _ eocd_sig).0 same, (==_iff _ lo).0 fits),
                      λ d u v. absurd (omega arith),
                    ),
                  )
                  | inr other ↦ rw other (o, e, later (λ at. ground arith))
                ])
          | inr other ↦ rw other (o, e, later (λ at. cc ((bytes_eq_iff _ eocd_sig).1 at.1)))
        ])

find_eocd_loop_lem :
    (tail : Bytes) (rounds lo hi : ℕ)
    → lo + rounds ≡ hi
    → hi + 22 ≤ length tail + 1
    → (o : Option ℕ) × (find_eocd_loop tail rounds lo ≡ ok o) × Finds tail lo hi o
unfolding find_eocd_loop
find_eocd_loop_lem tail zero lo hi e h = (none, refl, λ d p q. absurd (omega arith))
find_eocd_loop_lem tail (suc rounds) lo hi e h =
    let (o, r, f) = find_eocd_loop_lem tail rounds (lo + 1) hi (omega arith) h in
    round_lem tail lo hi (find_eocd_loop tail rounds (lo + 1)) o (omega arith) h r f

-- The search of the source is total and exact: on every string it returns the record with the
-- shortest comment of at most 65535 bytes that ends the string, and `none` only if there is none.
pub find_eocd_exact :
    (tail : Bytes) → (o : Option ℕ) × (find_eocd tail ≡ ok o) × Finds tail 0 65536 o
unfolding find_eocd
find_eocd_exact tail = elim (Bool-cases (ltb (length tail) 22)) [
  | inl small ↦
      rw small (none, refl, λ d p q at. absurd (omega (arith, ltb→lt (length tail) 22 small)))
  | inr large ↦ rw large (
      let n : ℕ = min (length tail - 22) 65535 + 1 in
      let le : 22 ≤ length tail = ltb→le (length tail) 22 large in
      let (o, e, f) = find_eocd_loop_lem tail n 0 n (omega arith) (omega arith) in
      (o, e, Finds-widen tail n o (omega arith) (λ d p. omega arith) f))
]
