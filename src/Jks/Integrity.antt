-- ===== src/Jks/Integrity.antt =====
-- No byte string makes the reader of keystores panic, and a keystore that it returns is whole.
use fastsigner.Base.{
  ℕ, ◌+◌, ◌≤◌, ◌≡◌, refl, sym, ap, subst, ◌∙◌, ◌⊎◌, inl, inr, false, List, [], ◌∷◌, ◌++◌, Bytes,
  length, take, drop, ok, Ensures, arith, codes, slice, bytes_eq, ◌>>=◌, ◌>>◌, if◌then◌else◌,
  fail_if, ltb, ◌==◌, not, ◌&&◌,
}
use fastsigner.Base.{
  >>=-Ensures, fail_if-Ensures, fail_if, keystore_version, wrong_integrity, Bool-cases, slice_run,
  slice_prefix, ltb→le, ==_iff,
}
use fastsigner.Jks.{
  jks, jceks, pkcs12, unknown, Jks, Cursor, cursor_take, cursor_u32, from_be, entry_loop, only_jks,
  detect, parse, password_bytes,
}
use fastsigner.Jks.Entries.{Entries, In, same_bytes}
use fastsigner.Jks.EntryLoop.{AllRead, entry_loop-AllRead}

-- A store with no entries so far.
abbrev empty_store : Jks
empty_store = record { keys = []; trusted_certs = 0 }

-- The magic number, the version and the count of the header, and as many entries from byte 12 on to
-- `p`, whose keys and trusted certificates are those of the store.
abbrev IsBody : Bytes → Jks → ℕ → Type 0
IsBody bytes store p =
    (version : ℕ) × (count : ℕ) × (from_be 0 (take 4 bytes) ≡ 0xfeedfeed)
    × ((version ≡ 1) ⊎ (version ≡ 2))
    × (version ≡ from_be 0 (take 4 (drop 4 bytes)))
    × (count ≡ from_be 0 (take 4 (drop 8 bytes)))
    × Entries version count (drop 12 bytes) (drop p bytes) store.keys store.trusted_certs

-- The 20 bytes behind the last entry are the hash of the password, the phrase and what comes before.
abbrev pub IsWhole : (Bytes → Bytes) → Bytes → List ℕ → Jks → Type 0
IsWhole sha1 bytes pw store =
    (p : ℕ) × IsBody bytes store p
    × (p + 20 ≤ length bytes)
    × (sha1 (password_bytes pw ++ codes "Mighty Aphrodite" ++ take p bytes)
        ≡ take 20 (drop p bytes))

abbrev IsJks : Bytes → Type 0
IsJks bytes = from_be 0 (take 4 bytes) ≡ 0xfeedfeed

jks_or_not :
    (magic b0 : ℕ)
    → Ensures
        (λ _. magic ≡ 0xfeedfeed)
        (only_jks (
          if magic == 0xfeedfeed
          then jks
          else if magic == 0xcececece
          then jceks
          else if b0 == 0x30
          then pkcs12
          else unknown))
unfolding only_jks
jks_or_not magic b0 = elim (Bool-cases (magic == 0xfeedfeed)) [
  | inl same ↦ rw same ((==_iff magic 0xfeedfeed).0 same)
  | inr other ↦ elim (Bool-cases (magic == 0xcececece)) [
    | inl ce ↦ rw (other, ce) tt
    | inr more ↦ elim (Bool-cases (b0 == 0x30)) [
      | inl p ↦ rw (other, more, p) tt
      | inr u ↦ rw (other, more, u) tt
    ]
  ]
]

only_jks-IsJks : (bytes : Bytes) → Ensures (λ _. IsJks bytes) (only_jks (detect bytes))
unfolding detect
only_jks-IsJks [] = unfold only_jks in tt
only_jks-IsJks (x ∷ []) = unfold only_jks in tt
only_jks-IsJks (x ∷ y ∷ []) = unfold only_jks in tt
only_jks-IsJks (x ∷ y ∷ z ∷ []) = unfold only_jks in tt
only_jks-IsJks (x ∷ y ∷ z ∷ w ∷ bytes) = jks_or_not (from_be 0 (x ∷ y ∷ z ∷ w ∷ [])) x

-- A number of 4 bytes is read and left behind.
abbrev Reads32 : Bytes → ℕ → ℕ × Cursor → Type 0
Reads32 bytes p (n, c) =
    (n ≡ from_be 0 (take 4 (drop p bytes)))
    × (c ≡ record { b = bytes; p = p + 4 })
    × (p + 4 ≤ length bytes)

cursor_u32-Reads32 :
    (bytes : Bytes) (p : ℕ) → Ensures (Reads32 bytes p) (cursor_u32 (record { b = bytes; p = p }))
unfolding cursor_u32 cursor_take
cursor_u32-Reads32 bytes p = elim (Bool-cases (ltb (length bytes) (p + 4))) [
  | inl short ↦ rw short tt
  | inr fits ↦
      let room = ltb→le (length bytes) (p + 4) fits in
      rw (fits, slice_run bytes p 4 room) (refl, refl, room)
]

known_version : (n : ℕ) → (not (n == 1) && not (n == 2)) ≡ false → (n ≡ 1) ⊎ (n ≡ 2)
known_version n e = ground arith

-- The end of `parse`.
parse_end :
    (sha1 : Bytes → Bytes) (bytes : Bytes) (pw : List ℕ) (store : Jks) (c : Cursor)
    → In bytes c
    → IsBody bytes store c.p
    → Ensures (IsWhole sha1 bytes pw) (
        cursor_take c 20 >>= λ r. slice bytes 0 c.p >>= λ front.
        fail_if
          (not (bytes_eq (sha1 (password_bytes pw ++ codes "Mighty Aphrodite" ++ front)) r.0))
          wrong_integrity
        >> ok store)
unfolding cursor_take
parse_end sha1 bytes pw store c (same, le) body =
    let P : Jks → Type 0 = IsWhole sha1 bytes pw in
    elim (Bool-cases (ltb (length c.b) (c.p + 20))) [
      | inl short ↦ rw short tt
      | inr fits ↦
          let room = ltb→le (length c.b) (c.p + 20) fits in
          rw (fits, slice_run c.b c.p 20 room, slice_prefix bytes c.p le)
            (fail_if-Ensures P
              (not (
                bytes_eq (sha1 (password_bytes pw ++ codes "Mighty Aphrodite" ++ take c.p bytes))
                  (take 20 (drop c.p c.b))))
              wrong_integrity (ok store)
              (λ equal. (
                c.p,
                body,
                subst (λ x. c.p + 20 ≤ length x) same room,
                same_bytes _ _ equal ∙ ap (λ x. take 20 (drop c.p x)) same,
              )))
    ]

-- `parse` ends on every byte string and password with no panic. A store that it returns is that of the
-- whole entries, in order and with nothing between them, that stand from byte 12 on, as many
-- as the header counts, behind the magic number and a version of 1 or 2. The 20 bytes behind the last
-- entry are the hash of the password, the phrase and all bytes before them.
pub parse-IsWhole :
    (sha1 : Bytes → Bytes) (bytes : Bytes) (pw : List ℕ)
    → Ensures (IsWhole sha1 bytes pw) (parse sha1 bytes pw)
unfolding parse
parse-IsWhole sha1 bytes pw =
    let P : Jks → Type 0 = IsWhole sha1 bytes pw in
    >>=-Ensures (λ _. IsJks bytes) P (only_jks (detect bytes)) _ (only_jks-IsJks bytes)
      (λ u e magic.
        >>=-Ensures (Reads32 bytes 4) P (cursor_u32 (record { b = bytes; p = 4 })) _
          (cursor_u32-Reads32 bytes 4)
          (λ r1 e1 i1.
            fail_if-Ensures P (not (r1.0 == 1) && not (r1.0 == 2)) (keystore_version r1.0) _
              (λ known. rw i1.1 (
                >>=-Ensures (Reads32 bytes 8) P (cursor_u32 (record { b = bytes; p = 8 })) _
                  (cursor_u32-Reads32 bytes 8)
                  (λ r2 e2 i2. rw i2.1 (
                    let start : Cursor = record { b = bytes; p = 12 } in
                    >>=-Ensures (AllRead bytes r1.0 r2.0 empty_store (drop 12 bytes)) P
                      (entry_loop r1.0 r2.0 start empty_store) _
                      (entry_loop-AllRead bytes r1.0 r2.0 start empty_store (refl, i2.2))
                      (λ r3 e3 (i3, (keys, trusted, entries, keys_are, trusted_are)).
                        let all : Entries r1.0 r2.0 (drop 12 bytes) (drop (r3.1).p bytes)
                            (r3.0).keys (r3.0).trusted_certs =
                          let count : (r3.0).trusted_certs ≡ trusted = omega (arith, trusted_are) in
                          subst
                            (λ t.
                              Entries r1.0 r2.0 (drop 12 bytes) (drop (r3.1).p bytes) (r3.0).keys t)
                            (sym count)
                            (subst
                              (λ l.
                                Entries r1.0 r2.0 (drop 12 bytes) (drop (r3.1).p bytes) l trusted)
                              (sym keys_are) entries) in
                        parse_end sha1 bytes pw r3.0 r3.1 i3
                          (r1.0, r2.0, magic, known_version r1.0 known, i1.0, i2.0, all))))))))
