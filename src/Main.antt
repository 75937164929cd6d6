-- ===== src/Main.antt =====
-- src/main.rs: the layout of the signed archive, and the digest of it on either path: from the mapped
-- input, or of an archive that was rewritten, whose entries were digested while they were written.
pub mod Layout
pub mod Paths
use fastsigner.Base.{
  ◌>>=◌, ℕ, zero, suc, ◌+◌, ◌-◌, ◌*◌, ◌/◌, ◌%◌, ◌^◌, ◌≤◌, ◌<◌, ◌≡◌, refl, sym, ap, subst, ◌∙◌, ◌⊎◌,
  inl, inr, Bool, true, false, Option, some, none, List, [], ◌∷◌, ◌++◌, map, Bytes, length, take,
  drop, replicate, All, get_elem?, Outcome, ok, err, Ensures, arith, codes, le_bytes, le_value,
  word_le, slice, put, index, strip_prefix, starts_with, ends_with, contains, bytes_eq,
}
use fastsigner.SigBlock.{padding_before_block}
use fastsigner.Zip.Eocd.{set_eocd_cd_offset, set_eocd_cd_size, set_eocd_entry_count}
use fastsigner.Digest.{
  Algorithm, Source, source_file, source_bytes, content_digest, chunk_digests_of, top_digest,
}

-- (EOCD, EOCD for digesting, padding, block start)
abbrev pub Laid : Type 0
Laid = Bytes × Bytes × ℕ × ℕ

unfoldable pub layout : ℕ → ℕ → Bytes → ℕ → Outcome Laid
layout entries_end cd_len eocd_template entry_count = do
  let pad = padding_before_block entries_end
  let block_start = entries_end + pad
  counted ← set_eocd_entry_count eocd_template entry_count
  eocd ← set_eocd_cd_size counted cd_len
  eocd_for_digest ← set_eocd_cd_offset eocd block_start
  ok (eocd, eocd_for_digest, pad, block_start)

-- The sections that are digested: the entries and their padding, the directory and the end record.
abbrev pub sections_of : Bytes → ℕ → Bytes → Bytes → List Source
sections_of entries pad cd eocd =
    source_file 0 entries (replicate pad 0) ∷ source_bytes cd ∷ source_bytes eocd ∷ []

-- On one thread.
unfoldable pub digest_layout :
    Algorithm → Bytes → ℕ → Bytes → Bytes → ℕ → Outcome (Bytes × Bytes × ℕ × ℕ)
digest_layout alg apk entries_end cd eocd_template entry_count = do
  (eocd, eocd_for_digest, pad, block_start) ←
      layout entries_end (length cd) eocd_template entry_count
  entries ← slice apk 0 entries_end
  d ← content_digest alg (sections_of entries pad cd eocd_for_digest)
  ok (d, eocd, pad, block_start)

-- `align::Rewritten`, less what only reports use.
pub record Rewritten : Type 0 where
  pub cd : Bytes
  pub entries_end : ℕ
  pub entries : ℕ
  pub dropped : ℕ
  pub pad : ℕ
  pub chunk_count : ℕ
  pub chunk_digests : Bytes

unfoldable pub finish_rewritten_digest :
    Algorithm → Rewritten → Bytes → Outcome (Bytes × Bytes × ℕ × ℕ)
finish_rewritten_digest alg rewritten eocd_template = do
  (eocd, eocd_for_digest, pad, block_start) ←
      layout rewritten.entries_end (length rewritten.cd) eocd_template rewritten.entries
  let (n_cd, d_cd) = chunk_digests_of alg rewritten.cd
  let (n_eocd, d_eocd) = chunk_digests_of alg eocd_for_digest
  let d =
      top_digest alg (rewritten.chunk_count + n_cd + n_eocd)
        (rewritten.chunk_digests ∷ d_cd ∷ d_eocd ∷ [])
  ok (d, eocd, pad, block_start)
