-- ===== src/Tests/LayoutTests.antt =====
-- The layout of an archive of one byte of entries, on both paths.
use fastsigner.Base.{
  ℕ, ◌+◌, ◌%◌, ◌≡◌, refl, [], ◌∷◌, ◌++◌, Bytes, length, take, replicate, ok, arith,
}
use fastsigner.Base.{field}
use fastsigner.SigBlock.{padding_before_block}
use fastsigner.Digest.{Algorithm, chunk_digests_of}
use fastsigner.Digest.Schedule.{IsHash, reference}
use fastsigner.Main.{layout, digest_layout, finish_rewritten_digest, Rewritten, sections_of}
use fastsigner.Main.Layout.{Counts, digest_eocd_of, layout-Counts}
use fastsigner.Main.Paths.{IsRewrite, paths_agree}

abbrev empty_eocd : Bytes
empty_eocd = 0x50 ∷ 0x4b ∷ 5 ∷ 6 ∷ replicate 18 0

layout_example :
    (eocd : Bytes) × (digested : Bytes) × (pad : ℕ) × (layout 100 46 empty_eocd 1
      ≡ ok (eocd, digested, pad, 100 + pad))
    × Counts empty_eocd 1 46 eocd
    × Counts empty_eocd 1 46 digested
    × (field 4 digested 16 ≡ 100 + pad)
    × ((100 + pad) % 4096 ≡ 0)
layout_example =
    layout-Counts 100 46 empty_eocd 1 (omega arith) (omega arith) (omega arith) (omega arith)

abbrev byte_hash : Algorithm
byte_hash = record { output_len = 1; digest = λ m. length m % 256 ∷ [] }

byte_hash-IsHash : IsHash byte_hash
byte_hash-IsHash = (λ m. refl, omega arith)

abbrev entries_digested : ℕ × Bytes
entries_digested = chunk_digests_of byte_hash ((1 ∷ []) ++ replicate (padding_before_block 1) 0)

abbrev written : Rewritten
written = record {
  cd = 3 ∷ [];
  entries_end = 1;
  entries = 1;
  dropped = 0;
  pad = padding_before_block 1;
  chunk_count = entries_digested.0;
  chunk_digests = entries_digested.1;
}

written-IsRewrite : IsRewrite byte_hash (1 ∷ 2 ∷ []) 1 (3 ∷ []) 1 (padding_before_block 1) written
written-IsRewrite = (refl, refl, refl, refl)

paths_example :
    (laid : Bytes × Bytes × ℕ × ℕ) × (digest_layout byte_hash (1 ∷ 2 ∷ []) 1 (3 ∷ []) empty_eocd 1
      ≡ ok laid)
    × (finish_rewritten_digest byte_hash written empty_eocd ≡ ok laid)
    × (laid.0
        ≡ reference byte_hash (
            sections_of
              (take 1 (1 ∷ 2 ∷ []))
              (padding_before_block 1)
              (3 ∷ [])
              (digest_eocd_of empty_eocd 1 (length {A = ℕ} (3 ∷ [])) (1 + padding_before_block 1))))
paths_example =
    paths_agree byte_hash (1 ∷ 2 ∷ []) 1 (3 ∷ []) empty_eocd 1 written byte_hash-IsHash
      (omega arith) (omega arith) written-IsRewrite
