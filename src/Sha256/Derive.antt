-- ===== src/Sha256/Derive.antt =====
-- src/sha256.rs: `iterate` and `pbkdf2_hmac_sha256`, the key derivations on the SHA instructions.
pub mod Iterate
pub mod Pbkdf2
pub mod Total
pub mod Rfc8018
use fastsigner.Base.{
  ℕ, zero, suc, ◌+◌, ◌-◌, List, [], ◌∷◌, ◌++◌, map, Bytes, length, replicate, Outcome, ok, slice,
  put, ◌>>=◌, if◌then◌else◌, ltb, ◌==◌, out_of_fuel, min,
}
use Prim.Native.Nat.{bit_xor}
use fastsigner.Sha256.{Sha256, h0, be_bytes, state_bytes, compress, digest, update, finish}

-- `for (t, u) in t.iter_mut().zip(u) { *t ^= u }`.
abbrev pub xor_bytes : Bytes → Bytes → Bytes
xor_bytes (x ∷ t) (y ∷ u) = bit_xor x y ∷ xor_bytes t u
xor_bytes t u = t

-- The block of a message of 32 bytes, of which `bits` bits are hashed in all.
unfoldable pub short_block : ℕ → Outcome Bytes
short_block bits = put (replicate 32 0 ++ 0x80 ∷ replicate 31 0) 62 (be_bytes 2 bits)

-- A hasher that has taken the block of a pad.
abbrev pub after_pad : List ℕ → Sha256
after_pad state = record { state = state; buf = replicate 64 0; buf_len = 0; len = 64 }

-- `out.chunks_mut(32).enumerate()`, over the length that is left.
unfoldable pub pbkdf2_blocks : ℕ → (ℕ → Outcome Bytes) → ℕ → ℕ → Outcome Bytes
pbkdf2_blocks zero t_of i n = if n == 0 then ok [] else out_of_fuel
pbkdf2_blocks (suc fuel) t_of i n = if n == 0 then ok [] else (do
  t ← t_of i
  t_out ← slice t 0 (min 32 n)
  out ← pbkdf2_blocks fuel t_of (i + 1) (n - 32)
  ok (t_out ++ out))

module _ (block : List ℕ → Bytes → List ℕ) where
  unfoldable pub iterate_loop : ℕ → Bytes → Bytes → Outcome Bytes
  iterate_loop zero buf x = ok x
  iterate_loop (suc n) buf x = do
    buf ← put buf 0 x
    s ← compress block h0 buf
    iterate_loop n buf (state_bytes s)

  unfoldable pub iterate : Bytes → ℕ → Outcome Bytes
  iterate x n = do buf ← short_block 256; iterate_loop n buf x

  -- `key`: the password, or its digest, and zeros behind it.
  unfoldable pub pad_key : Bytes → Outcome Bytes
  pad_key password =
      if ltb 64 (length password)
      then (do d ← digest block password; put (replicate 64 0) 0 d)
      else put (replicate 64 0) 0 password

  -- The loop over the iterations after the first, on the states of the two pads.
  unfoldable pub pbkdf2_rounds : ℕ → List ℕ → List ℕ → Bytes → Bytes → Bytes → Outcome Bytes
  pbkdf2_rounds zero inner outer buf u t = ok t
  pbkdf2_rounds (suc n) inner outer buf u t = do
    buf ← put buf 0 u
    s ← compress block inner buf
    buf ← put buf 0 (state_bytes s)
    s ← compress block outer buf
    let u = state_bytes s
    pbkdf2_rounds n inner outer buf u (xor_bytes t u)

  -- The block `i` of the output.
  unfoldable pub pbkdf2_block : List ℕ → List ℕ → Bytes → Bytes → ℕ → ℕ → Outcome Bytes
  pbkdf2_block inner outer buf salt iterations i = do
    h ← update block (after_pad inner) salt
    h ← update block h (be_bytes 4 (i + 1))
    d ← finish block h
    h2 ← update block (after_pad outer) d
    u ← finish block h2
    pbkdf2_rounds (iterations - 1) inner outer buf u u

  unfoldable pub pbkdf2_hmac_sha256 : Bytes → Bytes → ℕ → ℕ → Outcome Bytes
  pbkdf2_hmac_sha256 password salt iterations n = do
    key ← pad_key password
    inner ← compress block h0 (map (λ b. bit_xor b 0x36) key)
    outer ← compress block h0 (map (λ b. bit_xor b 0x5c) key)
    buf ← short_block 768
    pbkdf2_blocks n (pbkdf2_block inner outer buf salt iterations) 0 n
