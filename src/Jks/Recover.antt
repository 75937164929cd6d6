-- ===== src/Jks/Recover.antt =====
-- What the key protection recovers.
use fastsigner.Base.{
  Ensures-map, not_jks_protected, ℕ, zero, suc, ◌+◌, ◌-◌, ◌≤◌, ◌≡◌, sym, ap, ◌∙◌, inl, inr, true,
  List, [], ◌∷◌, ◌++◌, Bytes, length, take, drop, ok, Ensures, arith, bytes_eq,
}
use Prim.Native.Nat.{bit_xor}
use fastsigner.Base.{
  >>=-Ensures, fail_if-Ensures, slice_run, slice_prefix, slice_suffix, slice_in_range, length-take,
  length-drop, length-append, append_assoc, append-nil, drop-drop, ltb, min, not, Bool-cases,
  ltb→lt, ltb→le, le→ltb, drop_all, protected_too_short, wrong_key_password,
}
use fastsigner.Keys.Der.{der_expect}
use fastsigner.Keys.Der.Bounds.{Within, der_expect-Within}
use fastsigner.Jks.{
  key_protector_oid, password_bytes, zip_xor, recover_loop, recover_data, recover_key,
}
use fastsigner.Jks.Entries.{same_bytes}

-- The key stream: each block is the hash of the password and the block before.
abbrev pub key_stream : (Bytes → Bytes) → Bytes → ℕ → Bytes → Bytes
key_stream sha1 pw zero block = []
key_stream sha1 pw (suc n) block = sha1 (pw ++ block) ++ key_stream sha1 pw n (sha1 (pw ++ block))

zip_xor-append :
    (m : ℕ) (xs d ks : Bytes)
    → m ≡ min (length xs) (length d)
    → zip_xor xs (d ++ ks) ≡ zip_xor (take m xs) d ++ zip_xor (drop m xs) ks
zip_xor-append m [] d ks e = let empty : m ≡ 0 = omega arith in rw empty
zip_xor-append m (x ∷ xs) [] ks e = let empty : m ≡ 0 = omega arith in rw empty
zip_xor-append zero (x ∷ xs) (y ∷ d) ks e = absurd (omega arith)
zip_xor-append (suc m) (x ∷ xs) (y ∷ d) ks e =
    ap (λ l. bit_xor x y ∷ l) (zip_xor-append m xs d ks (omega arith))

length-zip_xor : (xs ys : Bytes) → length (zip_xor xs ys) ≡ min (length xs) (length ys)
length-zip_xor [] ys = omega arith
length-zip_xor (x ∷ xs) [] = omega arith
length-zip_xor (x ∷ xs) (y ∷ ys) = omega (arith, length-zip_xor xs ys)

recover_loop-round :
    (sha1 : Bytes → Bytes) (pw : Bytes) (fuel : ℕ) (encrypted block plain : Bytes)
    → length plain ≤ length encrypted
    → ltb (length plain) (length encrypted) ≡ true
    → recover_loop sha1 pw (suc fuel) encrypted block plain
      ≡ recover_loop sha1 pw fuel encrypted (sha1 (pw ++ block)) (
          plain
          ++ zip_xor
              (take (min (length encrypted - length plain) 20) (drop (length plain) encrypted))
              (sha1 (pw ++ block)))
unfolding recover_loop
recover_loop-round sha1 pw fuel encrypted block plain le more = rw (
  more,
  slice_run encrypted (length plain) (min (length encrypted - length plain) 20) (omega arith),
)

-- One round's bytes, and those of the rounds after it.
next_run :
    (plain encrypted d ks : Bytes) (off n next : ℕ)
    → next ≡ off + n
    → n ≡ min (length (drop off encrypted)) (length d)
    → (plain ++ zip_xor (take n (drop off encrypted)) d) ++ zip_xor (drop next encrypted) ks
      ≡ plain ++ zip_xor (drop off encrypted) (d ++ ks)
next_run plain encrypted d ks off n next e m =
    append_assoc plain (zip_xor (take n (drop off encrypted)) d) (zip_xor (drop next encrypted) ks)
    ∙ ap (λ l. plain ++ l)
        (ap (λ l. zip_xor (take n (drop off encrypted)) d ++ zip_xor l ks)
            (sym (drop-drop off n next encrypted e))
          ∙ sym (zip_xor-append n (drop off encrypted) d ks m))

recover_loop-key_stream :
    (fuel : ℕ) (sha1 : Bytes → Bytes) (pw encrypted block plain : Bytes)
    → ((m : Bytes) → length (sha1 m) ≡ 20)
    → length plain ≤ length encrypted
    → length encrypted ≤ length plain + fuel
    → recover_loop sha1 pw fuel encrypted block plain
      ≡ ok (plain ++ zip_xor (drop (length plain) encrypted) (key_stream sha1 pw fuel block))
unfolding recover_loop
recover_loop-key_stream zero sha1 pw encrypted block plain hash le full = rw (
  le→ltb (length plain) (length encrypted) (omega arith),
  drop_all encrypted (length plain) (omega arith),
  append-nil plain,
)
recover_loop-key_stream (suc fuel) sha1 pw encrypted block plain hash le full =
    elim (Bool-cases (ltb (length plain) (length encrypted))) [
      | inl more ↦
          let off = length plain in
          let left = drop off encrypted in
          let n = min (length encrypted - off) 20 in
          let d = sha1 (pw ++ block) in
          let plain' = plain ++ zip_xor (take n left) d in
          let size : length plain' ≡ off + n = omega (
            arith,
            length-append plain (zip_xor (take n left) d),
            length-zip_xor (take n left) d,
            length-take n left,
            length-drop off encrypted,
            hash (pw ++ block),
          ) in
          recover_loop-round sha1 pw fuel encrypted block plain le more
          ∙ recover_loop-key_stream fuel sha1 pw encrypted d plain' hash (omega arith)
              (omega (arith, ltb→lt off (length encrypted) more))
          ∙ ap ok (
              next_run plain encrypted d (key_stream sha1 pw fuel d) off n (length plain') size
                (omega (arith, length-drop off encrypted, hash (pw ++ block))))
      | inr full' ↦ rw (
        full',
        drop_all encrypted (length plain) (ltb→le (length plain) (length encrypted) full'),
        append-nil plain,
      )
    ]

-- The parts of the encrypted data: the salt, the key under the key stream, and the hash of the
-- password and the key.
abbrev pub Unlocks : (Bytes → Bytes) → Bytes → Bytes → Bytes → Type 0
Unlocks sha1 pw body plain =
    (41 ≤ length body)
    × (plain
        ≡ zip_xor (take (length body - 40) (drop 20 body))
            (key_stream sha1 pw (length body - 40) (take 20 body)))
    × (sha1 (pw ++ plain) ≡ drop (length body - 20) body)

same_sizes :
    (sha1 : Bytes → Bytes) (pw rest salt : Bytes) (m k n : ℕ)
    → m ≡ n
    → k ≡ n
    → zip_xor (take m rest) (key_stream sha1 pw k salt)
      ≡ zip_xor (take n rest) (key_stream sha1 pw n salt)
same_sizes sha1 pw rest salt m k n e e' = rw (e, e')

-- Of a hash of 20 bytes, `recover_data` ends with no panic and with no round too few, and what it
-- returns is the encrypted part under the key stream, whose hash with the password is the one that
-- the data ends with.
pub recover_data-Unlocks :
    (sha1 : Bytes → Bytes) (pw body : Bytes)
    → ((m : Bytes) → length (sha1 m) ≡ 20)
    → Ensures (Unlocks sha1 pw body) (recover_data sha1 pw body)
unfolding recover_data
recover_data-Unlocks sha1 pw body hash =
    fail_if-Ensures (Unlocks sha1 pw body) (ltb (length body) 41) protected_too_short _ (λ long.
      let le : 41 ≤ length body = ltb→le (length body) 41 long in
      let mid : length body - 20 - 20 ≡ length body - 40 = omega arith in
      let enc = take (length body - 20 - 20) (drop 20 body) in
      let plain = zip_xor enc (key_stream sha1 pw (length enc) (take 20 body)) in
      rw
        (
          slice_prefix body 20 (omega arith),
          slice_in_range body 20 (length body - 20) (omega arith) (omega arith),
          slice_suffix body (length body - 20) (omega arith),
          recover_loop-key_stream (length enc) sha1 pw enc (take 20 body) [] hash (omega arith)
              (omega arith),
        )
        (fail_if-Ensures (Unlocks sha1 pw body)
          (not (bytes_eq (sha1 (pw ++ plain)) (drop (length body - 20) body))) wrong_key_password
          (ok plain)
          (λ same. (
            le,
            same_sizes sha1 pw (drop 20 body) (take 20 body) (length body - 20 - 20) (length enc)
                (length body - 40) mid
                (omega
                  (arith, length-take (length body - 20 - 20) (drop 20 body), length-drop 20 body)),
            same_bytes (sha1 (pw ++ plain)) (drop (length body - 20) body) same,
          ))))

-- The key's encrypted data is a part of what is given.
abbrev pub Recovers : (Bytes → Bytes) → Bytes → List ℕ → Bytes → Type 0
Recovers sha1 protected pw plain =
    (p : ℕ) × (n : ℕ) × (p + n ≤ length protected)
    × Unlocks sha1 (password_bytes pw) (take n (drop p protected)) plain

-- Of a hash of 20 bytes, `recover_key` ends on every byte string with no panic, and a key that it
-- returns is the encrypted part of some data in the string under the key stream of the password,
-- and hashes, with the password, to what the data ends with.
pub recover_key-Recovers :
    (sha1 : Bytes → Bytes) (protected : Bytes) (pw : List ℕ)
    → ((m : Bytes) → length (sha1 m) ≡ 20)
    → Ensures (Recovers sha1 protected pw) (recover_key sha1 protected pw)
unfolding recover_key
recover_key-Recovers sha1 protected pw hash =
    let P : Bytes → Type 0 = Recovers sha1 protected pw in
    let W : ℕ × ℕ → Type 0 = Within protected in
    >>=-Ensures W P (der_expect protected 0 0x30) _ (der_expect-Within protected 0 0x30)
      (λ r1 e1 i1.
        >>=-Ensures W P (der_expect protected r1.0 0x30) _ (der_expect-Within protected r1.0 0x30)
          (λ r2 e2 i2.
            >>=-Ensures W P (der_expect protected r2.0 0x06) _
              (der_expect-Within protected r2.0 0x06)
              (λ r3 e3 i3. rw (slice_run protected r3.0 r3.1 i3) (
                fail_if-Ensures P
                  (not (bytes_eq (take r3.1 (drop r3.0 protected)) key_protector_oid))
                  not_jks_protected _
                  (λ oid.
                    >>=-Ensures W P (der_expect protected (r2.0 + r2.1) 0x04) _
                      (der_expect-Within protected (r2.0 + r2.1) 0x04)
                      (λ r4 e4 i4. rw (slice_run protected r4.0 r4.1 i4) (
                        Ensures-map
                          (recover_data sha1 (password_bytes pw) (take r4.1 (drop r4.0 protected)))
                          (λ plain u. (r4.0, r4.1, i4, u))
                          (recover_data-Unlocks sha1 (password_bytes pw)
                            (take r4.1 (drop r4.0 protected)) hash))))))))
