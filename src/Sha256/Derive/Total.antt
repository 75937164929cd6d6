-- ===== src/Sha256/Derive/Total.antt =====
-- The key derivations always return, with as many bytes as they were asked for.
use fastsigner.Base.{
  ℕ, zero, suc, ◌+◌, ◌-◌, ◌≤◌, ◌≡◌, refl, ◌∙◌, false, List, [], ◌++◌, Bytes, length, take, Outcome,
  ok, arith, ◌==◌, min,
}
use fastsigner.Base.{length-append, length-take, slice_prefix}
use fastsigner.Sha256.{digest, be_bytes}
use fastsigner.Sha256.Derive.{xor_bytes, pbkdf2_blocks, pbkdf2_hmac_sha256, iterate}
use fastsigner.Sha256.Derive.Iterate.{Words8, times, iterate-times}
use fastsigner.Sha256.Derive.Pbkdf2.{
  ipad, opad, length-xor_bytes, hmac, xor_rounds, hmac_block, digest-run, pad_key-run,
  pbkdf2_by_hmac,
}

-- The call returns `n` bytes.
abbrev pub Yields : ℕ → Outcome Bytes → Type 0
Yields n call = (b : Bytes) × (call ≡ ok b) × (length b ≡ n)

blocks-Yields :
    (fuel : ℕ) (f : ℕ → Outcome Bytes) (i n : ℕ)
    → n ≤ fuel
    → ((k : ℕ) → Yields 32 (f k))
    → Yields n (pbkdf2_blocks fuel f i n)
unfolding pbkdf2_blocks
blocks-Yields zero f i n h k = let same : n ≡ 0 = omega arith in rw same ([], refl, refl)
blocks-Yields (suc fuel) f i zero h k = ([], refl, refl)
blocks-Yields (suc fuel) f i (suc n) h k =
    let (t, run, size) = k i in
    let (out, run', size') = blocks-Yields fuel f (i + 1) (suc n - 32) (omega arith) k in
    let some_left : (suc n == 0) ≡ false = ground arith in
    (
      take (min 32 (suc n)) t ++ out,
      rw (some_left, run, slice_prefix t (min 32 (suc n)) (omega arith), run') refl,
      omega (arith, length-append (take (min 32 (suc n)) t) out, length-take (min 32 (suc n)) t),
    )

module _ (block : List ℕ → Bytes → List ℕ) (words : Words8 block) where
  times-Yields : (n : ℕ) (x : Bytes) → length x ≡ 32 → Yields 32 (times n (digest block) x)
  times-Yields zero x h = (x, refl, h)
  times-Yields (suc n) x h =
      let (d, run, size) = digest-run block x words in rw run (times-Yields n d size)

  pub iterate-Yields : (x : Bytes) (n : ℕ) → length x ≡ 32 → Yields 32 (iterate block x n)
  iterate-Yields x n h = rw (iterate-times block x n words h) (times-Yields n x h)

  pub hmac-Yields : (key m : Bytes) → length key ≡ 64 → Yields 32 (hmac block key m)
  hmac-Yields key m hk =
      let (d, run, size) = digest-run block (ipad key ++ m) words in
      rw run (digest-run block (opad key ++ d) words)

  xor_rounds-Yields :
      (n : ℕ) (key u t : Bytes)
      → length key ≡ 64
      → length u ≡ 32
      → length t ≡ 32
      → Yields 32 (xor_rounds block n key u t)
  xor_rounds-Yields zero key u t hk hu ht = (t, refl, ht)
  xor_rounds-Yields (suc n) key u t hk hu ht =
      let (u', run, size) = hmac-Yields key u hk in
      rw run (xor_rounds-Yields n key u' (xor_bytes t u') hk size (length-xor_bytes t u' ∙ ht))

  pub hmac_block-Yields :
      (key salt : Bytes) (iterations i : ℕ)
      → length key ≡ 64
      → Yields 32 (hmac_block block key salt iterations i)
  hmac_block-Yields key salt iterations i hk =
      let (u, run, size) = hmac-Yields key (salt ++ be_bytes 4 (i + 1)) hk in
      rw run (xor_rounds-Yields (iterations - 1) key u u hk size size)

  pub pbkdf2_hmac_sha256-Yields :
      (password salt : Bytes) (iterations n : ℕ)
      → Yields n (pbkdf2_hmac_sha256 block password salt iterations n)
  pbkdf2_hmac_sha256-Yields password salt iterations n =
      let (key, run, size) = pad_key-run block password words in
      rw (pbkdf2_by_hmac block password salt iterations n words, run)
        (blocks-Yields n (hmac_block block key salt iterations) 0 n (omega arith)
          (λ k. hmac_block-Yields key salt iterations k size))
