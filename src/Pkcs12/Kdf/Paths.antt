-- ===== src/Pkcs12/Kdf/Paths.antt =====
-- The key derivation with the SHA instructions and without them.
use fastsigner.Base.{
  Option-cases, ℕ, zero, suc, ◌+◌, ◌-◌, ◌/◌, ◌%◌, ◌^◌, ◌<◌, ◌≡◌, refl, ap, ◌∙◌, inl, inr, Bool,
  true, false, some, none, List, [], ◌++◌, Bytes, length, replicate, ok, arith, slice,
  if◌then◌else◌, ◌==◌, min,
}
use fastsigner.Base.{>>=-same}
use fastsigner.Sha256.Derive.Iterate.{times, iterate-times}
use fastsigner.Pkcs12.Ring.{Ring, IsRing, Sha, sha1, sha256, sha384, sha512}
use fastsigner.Pkcs12.Kdf.{
  fill, add_blocks, digest_loop, is_sha256, stretch_with, stretch, kdf_loop, pkcs12_kdf,
}

-- The machine without the instructions.
abbrev pub without_ext : Ring → Ring
without_ext r = record r { sha_ext = none }

-- Both hashes are SHA-256.
abbrev pub SameHash : Ring → Type 0
SameHash r =
    (block : List ℕ → Bytes → List ℕ)
    → r.sha_ext ≡ some block
    → (m : Bytes) → length m < 2 ^ 61
    → fastsigner.Sha256.digest block m ≡ ok (r.digest sha256 m)

module _ (r : Ring) (law : IsRing r) (hash : SameHash r) where
  times-digest_loop :
      (block : List ℕ → Bytes → List ℕ) (n : ℕ) (x : Bytes)
      → r.sha_ext ≡ some block
      → length x ≡ 32
      → times n (fastsigner.Sha256.digest block) x ≡ ok (digest_loop n (r.digest sha256) x)
  unfolding digest_loop
  times-digest_loop block zero x there h = refl
  times-digest_loop block (suc n) x there h = rw (hash block there x (omega arith)) (
      times-digest_loop block n (r.digest sha256 x) there
        (law.digest_len sha256 x ∙ law.sha256_len))

  on_instructions :
      (block : List ℕ → Bytes → List ℕ) (first : Bytes) (iterations : ℕ)
      → r.sha_ext ≡ some block
      → length first ≡ 32
      → 0 < iterations
      → iterations < 2 ^ 32
      → stretch_with r (some block) sha256 first iterations
        ≡ ok (digest_loop (iterations - 1) (r.digest sha256) first)
  unfolding stretch_with
  on_instructions block first iterations there h some_left few =
      let fits : (length first == 32) ≡ true = ground arith in
      let count : (iterations + 2 ^ 32 - 1) % 2 ^ 32 ≡ iterations - 1 = omega arith in
      rw (fits, count, iterate-times block first (iterations - 1) (law.ext_words block there) h)
        (times-digest_loop block (iterations - 1) first there h)

  stretch_lem :
      (alg : Sha) (first : Bytes) (iterations : ℕ)
      → length first ≡ r.output_len alg
      → 0 < iterations
      → iterations < 2 ^ 32
      → stretch r alg first iterations ≡ ok (digest_loop (iterations - 1) (r.digest alg) first)
  unfolding stretch stretch_with is_sha256
  stretch_lem sha1 first iterations h some_left few = refl
  stretch_lem sha384 first iterations h some_left few = refl
  stretch_lem sha512 first iterations h some_left few = refl
  stretch_lem sha256 first iterations h some_left few = elim (Option-cases r.sha_ext) [
    | inl nowhere ↦ rw nowhere refl
    | inr (block, there) ↦
        ap (λ o. stretch_with r o sha256 first iterations) there
        ∙ on_instructions block first iterations there (h ∙ law.sha256_len) some_left few
  ]

  stretch-without :
      (alg : Sha) (first : Bytes) (iterations : ℕ)
      → stretch (without_ext r) alg first iterations
        ≡ ok (digest_loop (iterations - 1) (r.digest alg) first)
  unfolding stretch stretch_with is_sha256
  stretch-without sha1 first iterations = refl
  stretch-without sha256 first iterations = refl
  stretch-without sha384 first iterations = refl
  stretch-without sha512 first iterations = refl

  if_same :
      {A : Type 0} (t : Bool) (x y z : A) → y ≡ z → (if t then x else y) ≡ (if t then x else z)
  if_same true x y z e = refl
  if_same false x y z e = e

  kdf_loop-without :
      (fuel : ℕ) (alg : Sha) (d : Bytes) (iterations n : ℕ) (i_buf out : Bytes)
      → 0 < iterations
      → iterations < 2 ^ 32
      → kdf_loop r fuel alg d iterations n i_buf out
        ≡ kdf_loop (without_ext r) fuel alg d iterations n i_buf out
  unfolding kdf_loop
  kdf_loop-without zero alg d iterations n i_buf out some_left few = refl
  kdf_loop-without (suc fuel) alg d iterations n i_buf out some_left few =
      let first = r.digest alg (d ++ i_buf) in
      let a = digest_loop (iterations - 1) (r.digest alg) first in
      let u = r.output_len alg in
      let v = r.block_len alg in
      rw
        (
          stretch_lem alg first iterations (law.digest_len alg (d ++ i_buf)) some_left few,
          stretch-without alg first iterations,
        )
        (>>=-same (slice a 0 (min u (n - length out))) _ _ (λ run.
          if_same (length (out ++ run) == n) (ok (out ++ run)) _ _ (
            >>=-same (add_blocks (length i_buf / v) a u v i_buf) _ _ (λ i_buf'.
              kdf_loop-without fuel alg d iterations n i_buf' (out ++ run) some_left few))))

  -- `pkcs12_kdf` derives the same key with the SHA instructions and without them, for a count of
  -- iterations of 1 or more that 32 bits hold, if the two hashes are the same.
  pub pkcs12_kdf-without_ext :
      (alg : Sha) (pass salt : Bytes) (id iterations n : ℕ)
      → 0 < iterations
      → iterations < 2 ^ 32
      → pkcs12_kdf r alg pass salt id iterations n
        ≡ pkcs12_kdf (without_ext r) alg pass salt id iterations n
  unfolding pkcs12_kdf
  pkcs12_kdf-without_ext alg pass salt id iterations n some_left few =
      let v = r.block_len alg in
      >>=-same (fill v salt) _ _ (λ x.
        >>=-same (fill v pass) _ _ (λ y.
          kdf_loop-without (suc n) alg (replicate v id) iterations n (x ++ y) [] some_left few))
