-- ===== src/Pkcs12/Kdf.antt =====
-- src/pkcs12.rs: `bmp_password` and `pkcs12_kdf`. A password is a list of characters.
pub mod Add
pub mod Total
pub mod Paths
use fastsigner.Base.{
  Option, ℕ, zero, suc, ◌+◌, ◌-◌, ◌*◌, ◌/◌, ◌%◌, ◌^◌, Bool, true, false, some, none, List, [], ◌∷◌,
  ◌++◌, Bytes, length, take, drop, replicate, Outcome, ok, slice, index, ◌>>=◌, if◌then◌else◌, ltb,
  ◌==◌, panic, out_of_fuel, min,
}
use fastsigner.Sha256.Derive.{iterate}
use fastsigner.Pkcs12.Ring.{Ring, Sha, sha256}

-- `encode_utf16`: a character beyond 16 bits is two units.
unfoldable pub encode_utf16 : List ℕ → List ℕ
encode_utf16 [] = []
encode_utf16 (c ∷ cs) =
    if ltb c 0x10000
    then c ∷ encode_utf16 cs
    else (0xd800 + (c - 0x10000) / 1024) ∷ (0xdc00 + (c - 0x10000) % 1024) ∷ encode_utf16 cs

-- `flat_map(|u| u.to_be_bytes())`.
unfoldable pub units_bytes : List ℕ → Bytes
units_bytes [] = []
units_bytes (u ∷ us) = u / 256 ∷ u % 256 ∷ units_bytes us

unfoldable pub bmp_password : List ℕ → Bytes
bmp_password pw = units_bytes (encode_utf16 pw ++ 0 ∷ [])

-- `n` bytes of `s` from the place `i` on, round and round.
unfoldable pub fill_loop : ℕ → Bytes → ℕ → Outcome Bytes
fill_loop zero s i = ok []
fill_loop (suc n) s i = do x ← index s (i % length s); xs ← fill_loop n s (i + 1); ok (x ∷ xs)

-- `v * s.len().div_ceil(v)` bytes.
unfoldable pub fill : ℕ → Bytes → Outcome Bytes
fill v s = fill_loop (v * ((length s + v - 1) / v)) s 0

-- `I_j + B + 1` on a block, from its last byte to its first; the carry goes out.
unfoldable pub add_block : Bytes → ℕ → ℕ → Bytes → Outcome (Bytes × ℕ)
add_block a u k [] = ok ([], 1)
add_block a u k (x ∷ xs) = do
  (ys, carry) ← add_block a u (k + 1) xs
  y ← index a (k % u)
  let s = x + y + carry
  ok (s % 256 ∷ ys, s / 256)

-- The blocks of `chunks_exact_mut(v)`, as many as there are whole ones; what is left stays.
unfoldable pub add_blocks : ℕ → Bytes → ℕ → ℕ → Bytes → Outcome Bytes
add_blocks zero a u v i_buf = ok i_buf
add_blocks (suc n) a u v i_buf = do
  (block, _) ← add_block a u 0 (take v i_buf)
  rest ← add_blocks n a u v (drop v i_buf)
  ok (block ++ rest)

-- `for _ in 1..iterations { a = digest(a) }`.
unfoldable pub digest_loop : ℕ → (Bytes → Bytes) → Bytes → Bytes
digest_loop zero digest a = a
digest_loop (suc n) digest a = digest_loop n digest (digest a)

unfoldable pub is_sha256 : Sha → Bool
is_sha256 sha256 = true
is_sha256 _ = false

module _ (r : Ring) where
  -- The iterations after the first, with the extension or without; `iterations - 1` is on 32 bits.
  unfoldable pub stretch_with : Option (List ℕ → Bytes → List ℕ) → Sha → Bytes → ℕ → Outcome Bytes
  stretch_with none alg first iterations = ok (digest_loop (iterations - 1) (r.digest alg) first)
  stretch_with (some block) alg first iterations =
      if length first == 32 then iterate block first ((iterations + 2 ^ 32 - 1) % 2 ^ 32) else panic

  -- `ShaExt::detect().filter(|_| *alg == digest::SHA256)`.
  unfoldable pub stretch : Sha → Bytes → ℕ → Outcome Bytes
  stretch alg first iterations =
      stretch_with (if is_sha256 alg then r.sha_ext else none) alg first iterations

  -- The loop; `out` is what was derived before.
  unfoldable pub kdf_loop : ℕ → Sha → Bytes → ℕ → ℕ → Bytes → Bytes → Outcome Bytes
  kdf_loop zero alg d iterations n i_buf out = out_of_fuel
  kdf_loop (suc fuel) alg d iterations n i_buf out = do
    a ← stretch alg (r.digest alg (d ++ i_buf)) iterations
    run ← slice a 0 (min (r.output_len alg) (n - length out))
    let out' = out ++ run
    if length out' == n then ok out' else (do
      i_buf ←
          add_blocks (length i_buf / r.block_len alg) a (r.output_len alg) (r.block_len alg) i_buf
      kdf_loop fuel alg d iterations n i_buf out')

  -- Each round derives a byte at least.
  unfoldable pub pkcs12_kdf : Sha → Bytes → Bytes → ℕ → ℕ → ℕ → Outcome Bytes
  pkcs12_kdf alg pass salt id iterations n = do
    salt_fill ← fill (r.block_len alg) salt
    pass_fill ← fill (r.block_len alg) pass
    kdf_loop (suc n) alg (replicate (r.block_len alg) id) iterations n (salt_fill ++ pass_fill) []
