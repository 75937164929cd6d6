-- ===== src/Sha256.antt =====
-- src/sha256.rs: the streaming hash over a compression function, which the source builds from the
-- SHA instructions of the CPU: it is the parameter `block`, from a state and 64 bytes to a state.
pub mod Absorb
pub mod Finish
pub mod Derive
use fastsigner.Base.{
  ℕ, zero, suc, ◌+◌, ◌-◌, ◌*◌, ◌/◌, ◌%◌, ◌^◌, min, List, [], ◌∷◌, ◌++◌, Bytes, length, take, drop,
  replicate, Bool, true, false, not, ◌&&◌, ltb, leb, ◌==◌, if◌then◌else◌, Outcome, ok, panic, ◌>>=◌,
  slice, put, map,
}

-- `to_be_bytes` of an integer of `n` bytes.
unfoldable pub be_bytes : ℕ → ℕ → Bytes
be_bytes zero x = []
be_bytes (suc n) x = be_bytes n (x / 256) ++ x % 256 ∷ []

abbrev pub h0 : List ℕ
h0 =
    0x6a09e667 ∷ 0xbb67ae85 ∷ 0x3c6ef372 ∷ 0xa54ff53a ∷ 0x510e527f ∷ 0x9b05688c ∷ 0x1f83d9ab
    ∷ 0x5be0cd19 ∷ []

unfoldable pub state_bytes : List ℕ → Bytes
state_bytes [] = []
state_bytes (w ∷ s) = be_bytes 4 w ++ state_bytes s

-- `ext` is the parameter `block`.
pub record Sha256 : Type 0 where
  pub state : List ℕ
  pub buf : Bytes
  pub buf_len : ℕ
  pub len : ℕ

-- `Sha256::new`.
abbrev pub new : Sha256
new = record { state = h0; buf = replicate 64 0; buf_len = 0; len = 0 }

unfoldable pub gap : Sha256 → ℕ
gap h = (64 - h.buf_len) % 64

-- `55usize.wrapping_sub(self.buf_len) % 64`.
unfoldable pub zeros : Sha256 → ℕ
zeros h = (55 + 2 ^ 64 - h.buf_len) % 2 ^ 64 % 64

module _ (block : List ℕ → Bytes → List ℕ) where
  -- `n` blocks of 64 bytes, one after the other.
  abbrev pub compress_blocks : ℕ → List ℕ → Bytes → List ℕ
  compress_blocks zero state blocks = state
  compress_blocks (suc n) state blocks =
      compress_blocks n (block state (take 64 blocks)) (drop 64 blocks)

  -- The assertion is a panic.
  unfoldable pub compress : List ℕ → Bytes → Outcome (List ℕ)
  compress state blocks =
      if length blocks % 64 == 0
      then ok (compress_blocks (length blocks / 64) state blocks)
      else panic

  unfoldable pub compress2 : List ℕ → List ℕ → Bytes → Bytes → Outcome (List ℕ × List ℕ)
  compress2 a b da db =
      if (length da == length db) && (length da % 64 == 0)
      then ok (compress_blocks (length da / 64) a da, compress_blocks (length da / 64) b db)
      else panic

  -- The end of `update`, from an empty buffer.
  unfoldable pub update_whole : Sha256 → Bytes → Outcome Sha256
  update_whole h input = do
    let whole = length input / 64 * 64
    run ← slice input 0 whole
    state ← compress h.state run
    rest ← slice input whole (length input)
    buf ← put h.buf 0 rest
    ok (record { state = state; buf = buf; buf_len = length input - whole; len = h.len })

  unfoldable pub update : Sha256 → Bytes → Outcome Sha256
  update h input = do
    let len = (h.len + length input) % 2 ^ 64
    if ltb 0 h.buf_len
        then (do
          let n = min (64 - h.buf_len) (length input)
          run ← slice input 0 n
          buf ← put h.buf h.buf_len run
          let buf_len = h.buf_len + n
          rest ← slice input n (length input)
          if ltb buf_len 64
              then ok (record { state = h.state; buf = buf; buf_len = buf_len; len = len })
              else (do
                state ← compress h.state buf
                update_whole (record { state = state; buf = buf; buf_len = 0; len = len }) rest))
        else update_whole (record { state = h.state; buf = h.buf; buf_len = h.buf_len; len = len })
            input

  -- `len * 8` on 64 bits.
  unfoldable pub finish : Sha256 → Outcome Bytes
  finish h = do
    let bits = h.len * 8 % 2 ^ 64
    pad ← put (0x80 ∷ replicate 71 0) (1 + zeros h) (be_bytes 8 bits)
    run ← slice pad 0 (9 + zeros h)
    h' ← update h run
    ok (state_bytes h'.state)

  unfoldable pub digest : Bytes → Outcome Bytes
  digest input = do h ← update new input; finish h

  unfoldable pub update2 : Sha256 → Sha256 → Bytes → Bytes → Outcome (Sha256 × Sha256)
  update2 a b da db = do
    (sa, sb) ← compress2 a.state b.state da db
    ok (
      record { state = sa; buf = a.buf; buf_len = a.buf_len; len = (a.len + length da) % 2 ^ 64 },
      record { state = sb; buf = b.buf; buf_len = b.buf_len; len = (b.len + length db) % 2 ^ 64 },
    )
