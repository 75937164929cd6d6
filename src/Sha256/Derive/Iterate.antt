-- ===== src/Sha256/Derive/Iterate.antt =====
-- `iterate` is the hash taken so many times.
use fastsigner.Base.{
  append_assoc, ℕ, zero, suc, ◌+◌, ◌*◌, ◌/◌, ◌^◌, ◌<◌, ◌≡◌, refl, sym, ap, ◌∙◌, List, [], ◌∷◌, ◌++◌,
  Bytes, length, replicate, Outcome, ok, arith, put, ◌>>=◌,
}
use fastsigner.Base.{put_in_range, length-append, drop-append_self}
use fastsigner.Base.{take_all}
use fastsigner.Sha256.{
  Sha256, h0, be_bytes, state_bytes, compress, compress_blocks, digest, finish, new,
}
use fastsigner.Sha256.Absorb.{compress_blocks-append, compress_run, update-Absorbed, Absorbed}
use fastsigner.Sha256.Finish.{
  Wrapped, Wrapped-unique, bits_of, finish-Wrapped, new-Holds, length-be_bytes,
}
use fastsigner.Sha256.Derive.{short_block, iterate_loop, iterate}

pub length-state_bytes : (s : List ℕ) → length (state_bytes s) ≡ length s * 4
unfolding state_bytes
length-state_bytes [] = refl
length-state_bytes (w ∷ s) =
    omega (
      arith,
      length-append (be_bytes 4 w) (state_bytes s),
      length-be_bytes 4 w,
      length-state_bytes s,
    )

-- What stands behind the 32 bytes of a message in the block, for `bits` bits.
abbrev pub rest_of : ℕ → Bytes
rest_of bits = 0x80 ∷ (replicate 23 0 ++ be_bytes 8 bits)

-- `hash` taken `n` times.
abbrev pub times : ℕ → (Bytes → Outcome Bytes) → Bytes → Outcome Bytes
times zero hash x = ok x
times (suc n) hash x = hash x >>= times n hash

pub short_block_iterate : short_block 256 ≡ ok (replicate 32 0 ++ rest_of 256)
unfolding short_block put be_bytes
short_block_iterate = refl

pub short_block_pbkdf2 : short_block 768 ≡ ok (replicate 32 0 ++ rest_of 768)
unfolding short_block put be_bytes
short_block_pbkdf2 = refl

-- The message in the block is replaced.
pub put-front : (y x rest : Bytes) → length y ≡ length x → put (y ++ rest) 0 x ≡ ok (x ++ rest)
put-front y x rest e =
    put_in_range (y ++ rest) 0 x (omega (arith, length-append y rest))
    ∙ ap (λ b. ok (x ++ b)) (drop-append_self y rest (0 + length x) (omega arith))

pub length-rest_of : (bits : ℕ) → length (rest_of bits) ≡ 32
length-rest_of bits =
    omega (arith, length-append (replicate 23 0) (be_bytes 8 bits), length-be_bytes 8 bits)

module _ (block : List ℕ → Bytes → List ℕ) where
  -- A hasher's digest is that of the bytes that it took.
  pub finish-digest :
      (h : Sha256) (m : Bytes) → Absorbed block h m → finish block h ≡ digest block m
  unfolding digest
  finish-digest h m took =
      let (h', run, took') = update-Absorbed block new [] m (new-Holds block) in
      let (p, padded, is) = finish-Wrapped block h m took in
      let (q, padded', is') = finish-Wrapped block h' m took' in
      rw run (
        is
        ∙ ap (λ x. ok (state_bytes (compress_blocks block (length x / 64) h0 x)))
            (Wrapped-unique m p q padded padded')
        ∙ sym is')

  -- The digest of 32 bytes behind `n` blocks is one more block.
  pub digest_short :
      (n : ℕ) (w x : Bytes)
      → length w ≡ n * 64
      → length x ≡ 32
      → n < 2 ^ 32
      → digest block (w ++ x)
        ≡ ok (state_bytes (block (compress_blocks block n h0 w) (x ++ rest_of ((n * 64 + 32) * 8))))
  unfolding digest
  digest_short n w x whole size few =
      let m = w ++ x in
      let total : length m ≡ n * 64 + 32 = omega (arith, length-append w x) in
      let (h, run, took) = update-Absorbed block new [] m (new-Holds block) in
      let (p, padded, is) = finish-Wrapped block h m took in
      let rest = rest_of ((n * 64 + 32) * 8) in
      let exact : bits_of m ≡ (n * 64 + 32) * 8 = omega arith in
      let padded' : Wrapped m (m ++ rest) = (
        23,
        omega arith,
        omega arith,
        ap (λ l. m ++ 0x80 ∷ (replicate 23 0 ++ be_bytes 8 l)) (sym exact),
      ) in
      let same : p ≡ w ++ (x ++ rest) =
        Wrapped-unique m p (m ++ rest) padded padded' ∙ append_assoc w x rest in
      let last : length (x ++ rest) ≡ 64 =
        omega (arith, length-append x rest, length-rest_of ((n * 64 + 32) * 8)) in
      let count : length (w ++ (x ++ rest)) / 64 ≡ n + 1 =
        omega (arith, length-append w (x ++ rest)) in
      rw run (
        is
        ∙ ap (λ q. ok (state_bytes (compress_blocks block (length q / 64) h0 q))) same
        ∙ ap (λ k. ok (state_bytes (compress_blocks block k h0 (w ++ (x ++ rest))))) count
        ∙ ap (λ s. ok (state_bytes s))
            (compress_blocks-append block n 1 (n + 1) h0 w (x ++ rest) refl whole
              ∙ ap (block (compress_blocks block n h0 w)) (take_all (x ++ rest) 64 (omega arith))))

  -- A block function whose states have eight words.
  abbrev pub Words8 : Type 0
  Words8 = (s : List ℕ) (m : Bytes) → length (block s m) ≡ 8

  iterate_loop-times :
      (n : ℕ) (y x : Bytes)
      → Words8
      → length y ≡ 32
      → length x ≡ 32
      → iterate_loop block n (y ++ rest_of 256) x ≡ times n (digest block) x
  unfolding iterate_loop
  iterate_loop-times zero y x words hy hx = refl
  iterate_loop-times (suc n) y x words hy hx =
      let b = x ++ rest_of 256 in
      let size : length b ≡ 1 * 64 =
        omega (arith, length-append x (rest_of 256), length-rest_of 256) in
      let s = block h0 b in
      let state : compress block h0 b ≡ ok s =
        compress_run block 1 h0 b size ∙ ap (λ c. ok (block h0 c)) (take_all b 64 (omega arith)) in
      let next : length (state_bytes s) ≡ 32 = omega (arith, length-state_bytes s, words h0 b) in
      rw
        (
          put-front y x (rest_of 256) (omega arith),
          state,
          digest_short 0 [] x refl hx (omega arith),
        )
        (iterate_loop-times n x (state_bytes s) words hx next)

  -- `iterate` on 32 bytes is the digest of the digest and so on, `n` times, of a compression whose
  -- states have eight words.
  pub iterate-times :
      (x : Bytes) (n : ℕ) → Words8 → length x ≡ 32 → iterate block x n ≡ times n (digest block) x
  unfolding iterate
  iterate-times x n words h =
      rw short_block_iterate (iterate_loop-times n (replicate 32 0) x words refl h)
