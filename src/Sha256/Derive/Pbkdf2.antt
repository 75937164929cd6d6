-- ===== src/Sha256/Derive/Pbkdf2.antt =====
-- `pbkdf2_hmac_sha256` by HMAC: its two compressions for each iteration are one HMAC.
use fastsigner.Base.{
  append_assoc, ltb→le, length-put, append-nil, Bool-cases, ℕ, zero, suc, ◌+◌, ◌-◌, ◌/◌, ◌≤◌, ◌≡◌,
  refl, sym, ap, ◌∙◌, inl, inr, List, [], ◌∷◌, ◌++◌, map, Bytes, length, take, drop, replicate,
  Outcome, ok, arith, ◌>>=◌, ltb,
}
use Prim.Native.Nat.{bit_xor}
use fastsigner.Base.{length-append, take_all, put_in_range}
use fastsigner.Sha256.{h0, be_bytes, state_bytes, compress, compress_blocks, digest, new}
use fastsigner.Sha256.Absorb.{compress_run, update-Absorbed, Absorbed}
use fastsigner.Sha256.Finish.{finish-Wrapped, new-Holds}
use fastsigner.Sha256.Derive.{
  xor_bytes, pad_key, after_pad, pbkdf2_rounds, pbkdf2_block, pbkdf2_blocks, pbkdf2_hmac_sha256,
}
use fastsigner.Sha256.Derive.Iterate.{
  rest_of, Words8, put-front, digest_short, finish-digest, short_block_pbkdf2, length-state_bytes,
  length-rest_of,
}

abbrev pub ipad : Bytes → Bytes
ipad key = map (λ b. bit_xor b 0x36) key

abbrev pub opad : Bytes → Bytes
opad key = map (λ b. bit_xor b 0x5c) key

pub length-map : (f : ℕ → ℕ) (b : Bytes) → length (map f b) ≡ length b
length-map f [] = refl
length-map f (x ∷ b) = ap suc (length-map f b)

pub length-xor_bytes : (t u : Bytes) → length (xor_bytes t u) ≡ length t
length-xor_bytes [] u = refl
length-xor_bytes (x ∷ t) [] = refl
length-xor_bytes (x ∷ t) (y ∷ u) = ap suc (length-xor_bytes t u)

module _ (block : List ℕ → Bytes → List ℕ) where
  -- H((K xor opad) || H((K xor ipad) || m)), for a key of one block.
  abbrev pub hmac : Bytes → Bytes → Outcome Bytes
  hmac key m = digest block (ipad key ++ m) >>= λ d. digest block (opad key ++ d)

  -- U_2 xor U_3 xor ..., onto what is there, with U_j = HMAC(P, U_{j-1}).
  abbrev pub xor_rounds : ℕ → Bytes → Bytes → Bytes → Outcome Bytes
  xor_rounds zero key u t = ok t
  xor_rounds (suc n) key u t = hmac key u >>= λ u'. xor_rounds n key u' (xor_bytes t u')

  -- F(P, S, c, i), with U_1 = HMAC(P, S || INT(i)).
  abbrev pub hmac_block : Bytes → Bytes → ℕ → ℕ → Outcome Bytes
  hmac_block key salt iterations i =
      hmac key (salt ++ be_bytes 4 (i + 1)) >>= λ u. xor_rounds (iterations - 1) key u u

  -- The same blocks, each by HMAC.
  abbrev pub by_hmac : Bytes → Bytes → ℕ → ℕ → Outcome Bytes
  by_hmac password salt iterations n =
      pad_key block password >>= λ key. pbkdf2_blocks n (hmac_block key salt iterations) 0 n

  words-compress_blocks :
      (n : ℕ) (s : List ℕ) (b : Bytes)
      → Words8 block
      → length s ≡ 8
      → length (compress_blocks block n s b) ≡ 8
  words-compress_blocks zero s b words h = h
  words-compress_blocks (suc n) s b words h =
      words-compress_blocks n (block s (take 64 b)) (drop 64 b) words (words s (take 64 b))

  -- The hash returns 32 bytes.
  pub digest-run :
      (m : Bytes) → Words8 block → (d : Bytes) × (digest block m ≡ ok d) × (length d ≡ 32)
  unfolding digest
  digest-run m words =
      let (h, run, took) = update-Absorbed block new [] m (new-Holds block) in
      let (p, padded, is) = finish-Wrapped block h m took in
      let s = compress_blocks block (length p / 64) h0 p in
      (
        state_bytes s,
        rw run is,
        omega (arith, length-state_bytes s, words-compress_blocks (length p / 64) h0 p words refl),
      )

  -- The key of a password has one block.
  pub pad_key-run :
      (password : Bytes)
      → Words8 block
      → (key : Bytes) × (pad_key block password ≡ ok key) × (length key ≡ 64)
  unfolding pad_key
  pad_key-run password words = elim (Bool-cases (ltb 64 (length password))) [
    | inl long ↦
        let (d, run, size) = digest-run password words in
        let fits : 0 + length d ≤ 64 = omega (arith, size) in
        (
          take 0 (replicate 64 0) ++ (d ++ drop (0 + length d) (replicate 64 0)),
          rw (long, run) (put_in_range (replicate 64 0) 0 d fits),
          length-put (replicate 64 0) 0 d fits,
        )
    | inr fits ↦
        let room : 0 + length password ≤ 64 = omega (arith, ltb→le 64 (length password) fits) in
        (
          take 0 (replicate 64 0) ++ (password ++ drop (0 + length password) (replicate 64 0)),
          rw fits (put_in_range (replicate 64 0) 0 password room),
          length-put (replicate 64 0) 0 password room,
        )
  ]

  -- The state after the block of a pad.
  abbrev after : Bytes → List ℕ
  after pad = compress_blocks block 1 h0 pad

  after_pad-Absorbed : (pad : Bytes) → length pad ≡ 64 → Absorbed block (after_pad (after pad)) pad
  after_pad-Absorbed pad size = (
    record {
      n = 1;
      whole = pad;
      rest = [];
      split = sym (append-nil pad);
      whole_len = size;
      rest_len = omega arith;
      buf_len = refl;
      buf_is = refl;
      buf_size = refl;
      state_is = refl;
    },
    omega (arith, size),
  )

  -- A message of 32 bytes takes one compression more on either pad.
  hmac_short :
      (key u : Bytes)
      → Words8 block
      → length key ≡ 64
      → length u ≡ 32
      → hmac key u
        ≡ ok (
            state_bytes (
              block
                (after (opad key))
                (state_bytes (block (after (ipad key)) (u ++ rest_of 768)) ++ rest_of 768)))
  hmac_short key u words hk hu =
      let s = block (after (ipad key)) (u ++ rest_of 768) in
      rw (digest_short block 1 (ipad key) u (length-map _ key ∙ hk) hu (omega arith)) (
        digest_short block 1 (opad key) (state_bytes s) (length-map _ key ∙ hk)
          (omega (arith, length-state_bytes s, words (after (ipad key)) (u ++ rest_of 768)))
          (omega arith))

  one_block : (s : List ℕ) (b : Bytes) → length b ≡ 64 → compress block s b ≡ ok (block s b)
  one_block s b size =
      compress_run block 1 s b size ∙ ap (λ c. ok (block s c)) (take_all b 64 (omega arith))

  rounds_lem :
      (n : ℕ) (key y u t : Bytes)
      → Words8 block
      → length key ≡ 64
      → length y ≡ 32
      → length u ≡ 32
      → pbkdf2_rounds block n (after (ipad key)) (after (opad key)) (y ++ rest_of 768) u t
        ≡ xor_rounds n key u t
  unfolding pbkdf2_rounds
  rounds_lem zero key y u t words hk hy hu = refl
  rounds_lem (suc n) key y u t words hk hy hu =
      let s = block (after (ipad key)) (u ++ rest_of 768) in
      let d = state_bytes s in
      let hd : length d ≡ 32 =
        omega (arith, length-state_bytes s, words (after (ipad key)) (u ++ rest_of 768)) in
      let s' = block (after (opad key)) (d ++ rest_of 768) in
      let hu' : length (state_bytes s') ≡ 32 =
        omega (arith, length-state_bytes s', words (after (opad key)) (d ++ rest_of 768)) in
      let tail = length-rest_of 768 in
      rw
        (
          put-front y u (rest_of 768) (omega arith),
          one_block (after (ipad key)) (u ++ rest_of 768)
              (omega (arith, tail, length-append u (rest_of 768))),
          put-front u d (rest_of 768) (omega arith),
          one_block (after (opad key)) (d ++ rest_of 768)
              (omega (arith, tail, length-append d (rest_of 768))),
          hmac_short key u words hk hu,
        )
        (rounds_lem n key d (state_bytes s') (xor_bytes t (state_bytes s')) words hk hd hu')

  -- A block of the output.
  block_lem :
      (key salt y : Bytes) (iterations i : ℕ)
      → Words8 block
      → length key ≡ 64
      → length y ≡ 32
      → pbkdf2_block block
          (after (ipad key))
          (after (opad key))
          (y ++ rest_of 768)
          salt
          iterations
          i
        ≡ hmac_block key salt iterations i
  unfolding pbkdf2_block
  block_lem key salt y iterations i words hk hy =
      let num = be_bytes 4 (i + 1) in
      let hi = length-map (λ b. bit_xor b 0x36) key ∙ hk in
      let ho = length-map (λ b. bit_xor b 0x5c) key ∙ hk in
      let (h1, run1, took1) =
        update-Absorbed block (after_pad (after (ipad key))) (ipad key) salt
          (after_pad-Absorbed (ipad key) hi) in
      let (h2, run2, took2) = update-Absorbed block h1 (ipad key ++ salt) num took1 in
      let (d, run3, size) = digest-run ((ipad key ++ salt) ++ num) words in
      let run4 = finish-digest block h2 ((ipad key ++ salt) ++ num) took2 in
      let (h3, run5, took5) =
        update-Absorbed block (after_pad (after (opad key))) (opad key) d
          (after_pad-Absorbed (opad key) ho) in
      let (u, run6, size') = digest-run (opad key ++ d) words in
      let run7 = finish-digest block h3 (opad key ++ d) took5 in
      rw
        (
          run1,
          run2,
          run4,
          run3,
          run5,
          run7,
          run6,
          sym (append_assoc (ipad key) salt num),
          run3,
          run6,
        )
        (rounds_lem (iterations - 1) key y u u words hk hy size')

  blocks_same :
      (fuel : ℕ) (f g : ℕ → Outcome Bytes) (i n : ℕ)
      → ((k : ℕ) → f k ≡ g k)
      → pbkdf2_blocks fuel f i n ≡ pbkdf2_blocks fuel g i n
  unfolding pbkdf2_blocks
  blocks_same zero f g i n same = refl
  blocks_same (suc fuel) f g i n same = rw (same i, blocks_same fuel f g (i + 1) (n - 32) same)

  pub pbkdf2_by_hmac :
      (password salt : Bytes) (iterations n : ℕ)
      → Words8 block
      → pbkdf2_hmac_sha256 block password salt iterations n ≡ by_hmac password salt iterations n
  unfolding pbkdf2_hmac_sha256
  pbkdf2_by_hmac password salt iterations n words =
      let (key, run, size) = pad_key-run password words in
      let hi = length-map (λ b. bit_xor b 0x36) key ∙ size in
      let ho = length-map (λ b. bit_xor b 0x5c) key ∙ size in
      rw
        (
          run,
          compress_run block 1 h0 (ipad key) hi,
          compress_run block 1 h0 (opad key) ho,
          short_block_pbkdf2,
        )
        (blocks_same n
          (pbkdf2_block block (after (ipad key)) (after (opad key)) (replicate 32 0 ++ rest_of 768)
            salt iterations)
          (hmac_block key salt iterations) 0 n
          (λ k. block_lem key salt (replicate 32 0) iterations k words size refl))
