-- ===== src/Pkcs12/Kdf/Total.antt =====
-- `pkcs12_kdf` ends with as many bytes as it was asked for.
use fastsigner.Base.{
  Option-cases, ==_iff, Bool-cases, ℕ, zero, suc, ◌+◌, ◌-◌, ◌*◌, ◌/◌, ◌%◌, ◌^◌, ◌≤◌, ◌<◌, ◌≡◌, refl,
  sym, ◌∙◌, inl, inr, true, [], ◌∷◌, ◌++◌, Bytes, length, take, drop, replicate, Ensures, arith,
  ◌==◌, min,
}
use fastsigner.Base.{>>=-Ensures, if-Ensures, slice_prefix, length-take, length-append}
use fastsigner.Sha256.Derive.Total.{iterate-Yields}
use fastsigner.Pkcs12.Ring.{Ring, IsRing, Sha, sha1, sha256, sha384, sha512}
use fastsigner.Pkcs12.Kdf.{
  add_block, add_blocks, fill_loop, fill, digest_loop, is_sha256, stretch_with, stretch, kdf_loop,
  pkcs12_kdf,
}
use fastsigner.Pkcs12.Kdf.Add.{Sum, add_block-Sum, index-get_or}
use fastsigner.Keys.Der.Bounds.{Ends}

fill_loop-Ends : (n : ℕ) (s : Bytes) (i : ℕ) → 0 < length s → Ends (fill_loop n s i)
unfolding fill_loop
fill_loop-Ends zero s i h = tt
fill_loop-Ends (suc n) s i h = rw (index-get_or s (i % length s) (omega arith)) (
    >>=-Ensures (λ _. Unit) (λ _. Unit) (fill_loop n s (i + 1)) _ (fill_loop-Ends n s (i + 1) h)
      (λ xs e u. tt))

quotient_zero : (u q : ℕ) → u * q < u → q ≡ 0
quotient_zero u zero h = refl
quotient_zero u (suc q) h = absurd (omega arith)

fill-Ends : (v : ℕ) (s : Bytes) → 0 < v → Ends (fill v s)
unfolding fill fill_loop
fill-Ends v [] h =
    let none_left : (0 + v - 1) / v ≡ 0 = quotient_zero v ((0 + v - 1) / v) (omega arith) in
    let none_needed : v * 0 ≡ 0 = omega arith in rw (none_left, none_needed) tt
fill-Ends v (x ∷ s) h = fill_loop-Ends (v * ((length (x ∷ s) + v - 1) / v)) (x ∷ s) 0 (omega arith)

add_blocks-Ends :
    (n : ℕ) (a : Bytes) (u v : ℕ) (i_buf : Bytes)
    → 0 < u
    → length a ≡ u
    → Ends (add_blocks n a u v i_buf)
unfolding add_blocks
add_blocks-Ends zero a u v i_buf h size = tt
add_blocks-Ends (suc n) a u v i_buf h size =
    >>=-Ensures (Sum a u 0 (take v i_buf)) (λ _. Unit) (add_block a u 0 (take v i_buf)) _
      (add_block-Sum a u (take v i_buf) 0 h size)
      (λ r e sum.
        >>=-Ensures (λ _. Unit) (λ _. Unit) (add_blocks n a u v (drop v i_buf)) _
          (add_blocks-Ends n a u v (drop v i_buf) h size) (λ rest e' i. tt))

abbrev pub HasLength : ℕ → Bytes → Type 0
HasLength n b = length b ≡ n

module _ (r : Ring) (law : IsRing r) where
  length-digest_loop :
      (n : ℕ) (alg : Sha) (a : Bytes)
      → length a ≡ r.output_len alg
      → length (digest_loop n (r.digest alg) a) ≡ r.output_len alg
  unfolding digest_loop
  length-digest_loop zero alg a h = h
  length-digest_loop (suc n) alg a h =
      length-digest_loop n alg (r.digest alg a) (law.digest_len alg a)

  is_sha256-eq : (alg : Sha) → is_sha256 alg ≡ true → r.output_len alg ≡ 32
  unfolding is_sha256
  is_sha256-eq sha1 e = absurd (cc)
  is_sha256-eq sha256 e = law.sha256_len
  is_sha256-eq sha384 e = absurd (cc)
  is_sha256-eq sha512 e = absurd (cc)

  length-stretch :
      (alg : Sha) (first : Bytes) (iterations : ℕ)
      → length first ≡ r.output_len alg
      → Ensures (HasLength (r.output_len alg)) (stretch r alg first iterations)
  unfolding stretch stretch_with
  length-stretch alg first iterations h = elim (Bool-cases (is_sha256 alg)) [
    | inr other ↦ rw other (length-digest_loop (iterations - 1) alg first h)
    | inl same ↦ elim (Option-cases r.sha_ext) [
      | inl nowhere ↦ rw (same, nowhere) (length-digest_loop (iterations - 1) alg first h)
      | inr (block, there) ↦
          let size : length first ≡ 32 = h ∙ is_sha256-eq alg same in
          let fits : (length first == 32) ≡ true = ground arith in
          let (a, run, size') =
            iterate-Yields block (law.ext_words block there) first
              ((iterations + 2 ^ 32 - 1) % 2 ^ 32) size in
          rw (same, there, fits, run) (size' ∙ sym (is_sha256-eq alg same))
    ]
  ]

  kdf_loop-HasLength :
      (fuel : ℕ) (alg : Sha) (d : Bytes) (iterations n : ℕ) (i_buf out : Bytes)
      → length out ≤ n
      → n < length out + fuel
      → Ensures (HasLength n) (kdf_loop r fuel alg d iterations n i_buf out)
  unfolding kdf_loop
  kdf_loop-HasLength zero alg d iterations n i_buf out h k = absurd (omega arith)
  kdf_loop-HasLength (suc fuel) alg d iterations n i_buf out h k =
      let u = r.output_len alg in
      let v = r.block_len alg in
      let u_some = law.output_positive alg in
      >>=-Ensures (HasLength u) (HasLength n) (stretch r alg (r.digest alg (d ++ i_buf)) iterations)
        _
        (length-stretch alg (r.digest alg (d ++ i_buf)) iterations
          (law.digest_len alg (d ++ i_buf)))
        (λ a e size.
          let m = min u (n - length out) in
          let run = take m a in
          let longer : length (out ++ run) ≡ length out + m =
            omega (arith, length-append out run, length-take m a, size) in
          rw (slice_prefix a m (omega (arith, size))) (
            if-Ensures (HasLength n) (length (out ++ run) == n) _ _
              (λ done. (==_iff (length (out ++ run)) n).0 done)
              (λ more.
                let short : ¬ (length (out ++ run) ≡ n) = ground arith in
                >>=-Ensures (λ _. Unit) (HasLength n) (add_blocks (length i_buf / v) a u v i_buf) _
                  (add_blocks-Ends (length i_buf / v) a u v i_buf u_some size)
                  (λ i_buf' e' w.
                    kdf_loop-HasLength fuel alg d iterations n i_buf' (out ++ run)
                      (omega (arith, longer)) (omega (arith, longer, short, u_some))))))

  -- `pkcs12_kdf` ends with no panic, with as many bytes as it was asked for.
  pub length-pkcs12_kdf :
      (alg : Sha) (pass salt : Bytes) (id iterations n : ℕ)
      → Ensures (HasLength n) (pkcs12_kdf r alg pass salt id iterations n)
  unfolding pkcs12_kdf
  length-pkcs12_kdf alg pass salt id iterations n =
      let v = r.block_len alg in
      >>=-Ensures (λ _. Unit) (HasLength n) (fill v salt) _
        (fill-Ends v salt (law.block_positive alg))
        (λ x e i.
          >>=-Ensures (λ _. Unit) (HasLength n) (fill v pass) _
            (fill-Ends v pass (law.block_positive alg))
            (λ y e' i'.
              kdf_loop-HasLength (suc n) alg (replicate v id) iterations n (x ++ y) [] (omega arith)
                (omega arith)))
