-- ===== src/SigBlock/Pairs.antt =====
-- The pairs read back out of a signing block, as a verifier walks them.
use fastsigner.Base.{
  length-replicate, All-append, inl, inr, ltb, Bool-cases, take-append_self, drop-append_self,
  length-le_bytes, drop-append_at, ◌∙◌, le_bytes, ap, length-append, field-le_bytes,
  field-append_right, ◌&&◌, ℕ, zero, suc, ◌+◌, ◌-◌, ◌^◌, ◌≤◌, ◌<◌, ◌≡◌, refl, Option, none, some,
  List, [], ◌∷◌, ◌++◌, arith, Bytes, length, take, drop, All, field, leb, if◌then◌else◌,
}
use fastsigner.SigBlock.{padded_size, pairs_size, apk_signing_block, signing_block_size}
use fastsigner.SigBlock.Size.{
  padded_size_lem, padding_pair, length-block_pairs, length-apk_signing_block, pairs_bytes,
  block_pairs, size_field, apk_signing_block_shape,
}

-- { u64 len, u32 id, value of len - 4 bytes }..., to the end of the string.
abbrev cons_pair : ℕ × Bytes → Option (List (ℕ × Bytes)) → Option (List (ℕ × Bytes))
cons_pair p none = none
cons_pair p (some ps) = some (p ∷ ps)

pub walk : ℕ → Bytes → Option (List (ℕ × Bytes))
walk zero l = if leb (length l) 0 then some [] else none
walk (suc fuel) l =
    let len = field 8 l 0 in
    let rest = cons_pair (field 4 l 8, take (len - 4) (drop 12 l)) (walk fuel (drop (8 + len) l)) in
    if leb (length l) 0
    then some []
    else if leb 12 (length l) && leb 4 len && leb (8 + len) (length l)
    then rest
    else none

-- An id of four bytes, and a length that fits eight.
abbrev pub Fits : ℕ × Bytes → Type 0
Fits (id, val) = (id < 2 ^ 32) × (4 + length val < 2 ^ 64)

module _ (id : ℕ) (val tail : Bytes) (fits : Fits (id, val)) where
  abbrev n : ℕ
  n = 4 + length val

  abbrev l : Bytes
  l = le_bytes 8 n ++ (le_bytes 4 id ++ (val ++ tail))

  read_len : field 8 l 0 ≡ n
  read_len = field-le_bytes 8 n _ (omega arith)

  read_id : field 4 l 8 ≡ id
  read_id =
      field-append_right 4 (le_bytes 8 n) _ 0 8 (omega (arith, length-le_bytes 8 n))
      ∙ field-le_bytes 4 id _ (omega arith)

  read_val : take (n - 4) (drop 12 l) ≡ val
  read_val =
      ap (take (n - 4)) (
        drop-append_at (le_bytes 8 n) _ 4 12 (omega (arith, length-le_bytes 8 n))
        ∙ drop-append_self (le_bytes 4 id) _ 4 (omega (arith, length-le_bytes 4 id)))
      ∙ take-append_self val tail (n - 4) (omega arith)

  read_rest : drop (8 + n) l ≡ tail
  read_rest =
      drop-append_at (le_bytes 8 n) _ n (8 + n) (omega (arith, length-le_bytes 8 n))
      ∙ drop-append_at (le_bytes 4 id) _ (length val) n (omega (arith, length-le_bytes 4 id))
      ∙ drop-append_self val tail (length val) refl

  length-l : length l ≡ 12 + length val + length tail
  length-l = omega (
    arith,
    length-append (le_bytes 8 n) (le_bytes 4 id ++ (val ++ tail)),
    length-append (le_bytes 4 id) (val ++ tail),
    length-append val tail,
    length-le_bytes 8 n,
    length-le_bytes 4 id,
  )

  walk_step : (fuel : ℕ) → walk (suc fuel) l ≡ cons_pair (id, val) (walk fuel tail)
  unfolding walk
  walk_step fuel = rw (read_len, read_id, read_val, read_rest) (ground (arith, length-l))

walk-pairs_bytes :
    (pairs : List (ℕ × Bytes)) (fuel : ℕ)
    → All Fits pairs
    → length (pairs_bytes pairs) ≤ fuel
    → walk fuel (pairs_bytes pairs) ≡ some pairs
walk-pairs_bytes [] zero fits h = unfold walk in refl
walk-pairs_bytes [] (suc fuel) fits h = unfold walk in refl
walk-pairs_bytes ((id, val) ∷ pairs) zero (f, fits) h =
    absurd (omega (arith, length-l id val (pairs_bytes pairs) f))
walk-pairs_bytes ((id, val) ∷ pairs) (suc fuel) (f, fits) h =
    let len = length-l id val (pairs_bytes pairs) f in
    walk_step id val (pairs_bytes pairs) f fuel
    ∙ ap (cons_pair (id, val)) (walk-pairs_bytes pairs fuel fits (omega arith))

-- What stands between the size fields of a block.
abbrev pub payload : Bytes → Bytes
payload block = take (length block - 32) (drop 8 block)

block_pairs-Fits : (pairs : List (ℕ × Bytes)) → All Fits pairs → All Fits (block_pairs pairs)
block_pairs-Fits pairs fits =
    let size : ℕ = pairs_size 32 pairs in
    let pad : ℕ = padded_size size - size in
    elim (Bool-cases (ltb size (padded_size size))) [
      | inr full ↦ rw full fits
      | inl padded ↦ rw padded (
          All-append Fits pairs (padding_pair pad ∷ []) fits (
            (
              omega arith,
              omega (arith, padded_size_lem size, length-replicate {A = ℕ} (pad - 12) 0),
            ),
            tt,
          ))
    ]

module _ (pairs : List (ℕ × Bytes)) where
  abbrev block : Bytes
  block = apk_signing_block pairs

  payload-block : payload block ≡ pairs_bytes (block_pairs pairs)
  payload-block =
      let sizes = length-le_bytes 8 (signing_block_size pairs - 8) in
      ap (λ (b : Bytes). take (length block - 32) (drop 8 b)) (apk_signing_block_shape pairs)
      ∙ ap (take (length block - 32)) (drop-append_self (size_field pairs) _ 8 (omega arith))
      ∙ take-append_self (pairs_bytes (block_pairs pairs)) _ (length block - 32)
          (omega (arith, length-apk_signing_block pairs, length-block_pairs pairs))

  -- A walk over the block that is written finds the pairs that it was made of, in order, and behind
  -- them at most the verity padding pair; ids and lengths are taken to fit their fields.
  pub walk-apk_signing_block :
      All Fits pairs → walk (length block) (payload block) ≡ some (block_pairs pairs)
  walk-apk_signing_block fits =
      ap (walk (length block)) payload-block
      ∙ walk-pairs_bytes (block_pairs pairs) (length block) (block_pairs-Fits pairs fits)
          (omega (arith, length-apk_signing_block pairs, length-block_pairs pairs))
