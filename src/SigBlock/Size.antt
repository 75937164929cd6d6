-- ===== src/SigBlock/Size.antt =====
-- The size of the signing block, promised and written.
use fastsigner.Base.{
  ltb→le, inr, ltb→lt, ◌∙◌, append-nil, refl, inl, Bool-cases, sym, append_assoc, ℕ, ◌+◌, ◌-◌, ◌%◌,
  ◌≤◌, ◌<◌, ◌≡◌, List, [], ◌∷◌, ◌++◌, arith, Bytes, length, replicate, ltb, length-append,
  length-replicate, le_bytes, length-le_bytes, if◌then◌else◌,
}
use fastsigner.SigBlock.{
  pairs_size, padded_size, signing_block_size, put_pairs, put_padding, verity_padding_block_id,
  apk_signing_block_magic, apk_signing_block, padding_before_block,
}

-- The padded size is the next multiple of the page size that leaves no room, or room for a pair.
pub padded_size_lem :
    (size : ℕ)
    → (padded_size size % 4096 ≡ 0)
      × (size ≤ padded_size size)
      × (padded_size size < size + 4096 + 12)
      × (size < padded_size size → size + 12 ≤ padded_size size)
unfolding padded_size
padded_size_lem size = ground arith

-- Padding before the block brings it to the next page boundary, and no further.
pub padding_before_block_lem :
    (entries_end : ℕ)
    → ((entries_end + padding_before_block entries_end) % 4096 ≡ 0)
      × (padding_before_block entries_end < 4096)
unfolding padding_before_block
padding_before_block_lem entries_end = omega arith

-- The bytes of a row of pairs, and the row that a block holds: the padding pair comes last.
abbrev pub pairs_bytes : List (ℕ × Bytes) → Bytes
pairs_bytes [] = []
pairs_bytes ((id, val) ∷ pairs) =
    le_bytes 8 (4 + length val) ++ (le_bytes 4 id ++ (val ++ pairs_bytes pairs))

abbrev pub padding_pair : ℕ → ℕ × Bytes
padding_pair pad = (verity_padding_block_id, replicate (pad - 12) 0)

abbrev pub block_pairs : List (ℕ × Bytes) → List (ℕ × Bytes)
block_pairs pairs =
    let size = pairs_size 32 pairs in
    if ltb size (padded_size size)
    then pairs ++ padding_pair (padded_size size - size) ∷ []
    else pairs

abbrev pub size_field : List (ℕ × Bytes) → Bytes
size_field pairs = le_bytes 8 (signing_block_size pairs - 8)

pub pairs_bytes-append :
    (ps qs : List (ℕ × Bytes)) → pairs_bytes (ps ++ qs) ≡ pairs_bytes ps ++ pairs_bytes qs
pairs_bytes-append [] qs = refl
pairs_bytes-append ((id, val) ∷ ps) qs = simp (pairs_bytes-append ps qs, append_assoc)

put_pairs-append :
    (pairs : List (ℕ × Bytes)) (v : Bytes) → put_pairs v pairs ≡ v ++ pairs_bytes pairs
unfolding put_pairs
put_pairs-append [] v = sym (append-nil v)
put_pairs-append ((id, val) ∷ pairs) v = put_pairs-append pairs _ ∙ simp (append_assoc)

pairs_size-length :
    (pairs : List (ℕ × Bytes)) (size : ℕ)
    → pairs_size size pairs ≡ size + length (pairs_bytes pairs)
unfolding pairs_size
pairs_size-length [] size = omega arith
pairs_size-length ((id, val) ∷ pairs) size = omega (
  arith,
  pairs_size-length pairs (size + 8 + 4 + length val),
  length-append (le_bytes 8 (4 + length val)) (le_bytes 4 id ++ (val ++ pairs_bytes pairs)),
  length-append (le_bytes 4 id) (val ++ pairs_bytes pairs),
  length-append val (pairs_bytes pairs),
  length-le_bytes 8 (4 + length val),
  length-le_bytes 4 id,
)

put_padding-append :
    (v : Bytes) (pad : ℕ) → 12 ≤ pad → put_padding v pad ≡ v ++ pairs_bytes (padding_pair pad ∷ [])
unfolding put_padding
put_padding-append v pad h =
    let zeros : Bytes = replicate (pad - 12) 0 in
    let len : 4 + length zeros ≡ pad - 8 = omega (arith, length-replicate {A = ℕ} (pad - 12) 0) in
    rw (← len) (simp (append_assoc, append-nil))

module _ (pairs : List (ℕ × Bytes)) where
  length-front : length (size_field pairs ++ pairs_bytes pairs) + 8 + 16 ≡ pairs_size 32 pairs
  length-front = omega (
    arith,
    length-append (size_field pairs) (pairs_bytes pairs),
    length-le_bytes 8 (signing_block_size pairs - 8),
    pairs_size-length pairs 32,
  )

  -- The block: its size, its pairs with the padding last, the size again, and the magic.
  pub apk_signing_block_shape :
      apk_signing_block pairs
      ≡ size_field pairs
        ++ (pairs_bytes (block_pairs pairs) ++ (size_field pairs ++ apk_signing_block_magic))
  unfolding apk_signing_block signing_block_size
  apk_signing_block_shape =
      let size : ℕ = pairs_size 32 pairs in
      elim (Bool-cases (ltb size (padded_size size))) [
        | inl padded ↦
            let room = (padded_size_lem size).3 (ltb→lt size (padded_size size) padded) in
            rw
              (
                put_pairs-append pairs (size_field pairs),
                length-front,
                padded,
                put_padding-append (size_field pairs ++ pairs_bytes pairs) (padded_size size - size)
                    (omega arith),
                pairs_bytes-append,
              )
              (simp (append_assoc))
        | inr full ↦
            rw (put_pairs-append pairs (size_field pairs), length-front, full) (simp (append_assoc))
      ]

  pub length-block_pairs : length (pairs_bytes (block_pairs pairs)) + 32 ≡ signing_block_size pairs
  unfolding signing_block_size pairs_size
  length-block_pairs =
      let size : ℕ = pairs_size 32 pairs in
      let plain = pairs_size-length pairs 32 in
      let bounds = padded_size_lem size in
      elim (Bool-cases (ltb size (padded_size size))) [
        | inr full ↦ rw full (omega (arith, plain, bounds.1, ltb→le size (padded_size size) full))
        | inl padded ↦
            let pad : ℕ = padded_size size - size in
            let room = bounds.3 (ltb→lt size (padded_size size) padded) in
            rw (padded, pairs_bytes-append)
              (omega (
                arith,
                plain,
                length-append (pairs_bytes pairs) (pairs_bytes (padding_pair pad ∷ [])),
                pairs_size-length (padding_pair pad ∷ []) 0,
                length-replicate {A = ℕ} (pad - 12) 0,
              ))
      ]

  -- The block that is written has the size that `signing_block_size` promises, a multiple of 4096.
  pub length-apk_signing_block :
      (length (apk_signing_block pairs) ≡ signing_block_size pairs)
      × (signing_block_size pairs % 4096 ≡ 0)
  unfolding signing_block_size
  length-apk_signing_block = (
    rw apk_signing_block_shape (
        omega (
          arith,
          length-block_pairs,
          length-append (size_field pairs)
              (pairs_bytes (block_pairs pairs) ++ (size_field pairs ++ apk_signing_block_magic)),
          length-append (pairs_bytes (block_pairs pairs))
              (size_field pairs ++ apk_signing_block_magic),
          length-append (size_field pairs) apk_signing_block_magic,
          length-le_bytes 8 (signing_block_size pairs - 8),
        )),
    (padded_size_lem (pairs_size 32 pairs)).0,
  )
