-- ===== src/SigBlock/Detect.antt =====
-- A signing block that was written in front of a Central Directory is found there again.
use fastsigner.Base.{
  ==_iff, field-le_bytes, word_le_in_range, bytes_eq_refl, slice_run, le→leb, le_value-le_bytes,
  take_all, le_value, take-append_self, sym, drop-append_self, length-le_bytes, append_assoc,
  length-append, ℕ, ◌+◌, ◌-◌, ◌%◌, ◌^◌, ◌≤◌, ◌<◌, ◌≡◌, refl, ap, ◌∙◌, some, List, ◌++◌, arith,
  Bytes, length, take, drop, ok, field,
}
use fastsigner.Zip.Sections.{sig_block_magic, sig_block_head, find_sig_block}
use fastsigner.Zip.Sections.Found.{read_exact_at_in_range}
use fastsigner.SigBlock.{apk_signing_block, signing_block_size, apk_signing_block_magic}
use fastsigner.SigBlock.Size.{
  pairs_bytes, block_pairs, size_field, apk_signing_block_shape, length-apk_signing_block,
  length-block_pairs,
}

module _ (pairs : List (ℕ × Bytes)) (entries rest : Bytes) where
  abbrev pub block : Bytes
  block = apk_signing_block pairs

  abbrev pub file : Bytes
  file = entries ++ (block ++ rest)

  abbrev pub cd_off : ℕ
  cd_off = length entries + length block

  abbrev size : ℕ
  size = signing_block_size pairs - 8

  abbrev front : Bytes
  front = size_field pairs ++ pairs_bytes (block_pairs pairs)

  file-shape : file ≡ (entries ++ front) ++ (size_field pairs ++ (apk_signing_block_magic ++ rest))
  file-shape = rw (apk_signing_block_shape pairs) (simp (append_assoc))

  length-file : length file ≡ cd_off + length rest
  length-file = omega (arith, length-append entries (block ++ rest), length-append block rest)

  length-front : length (entries ++ front) + 24 ≡ cd_off
  length-front = omega (
    arith,
    length-append entries front,
    length-append (size_field pairs) (pairs_bytes (block_pairs pairs)),
    length-le_bytes 8 size,
    length-block_pairs pairs,
    length-apk_signing_block pairs,
  )

  -- The 24 bytes before the directory.
  footer-is : take 24 (drop (cd_off - 24) file) ≡ size_field pairs ++ apk_signing_block_magic
  footer-is =
      let footer : Bytes = size_field pairs ++ apk_signing_block_magic in
      let len : length footer ≡ 24 =
        omega (
          arith,
          length-append (size_field pairs) apk_signing_block_magic,
          length-le_bytes 8 size,
        ) in
      ap (λ (b : Bytes). take 24 (drop (cd_off - 24) b)) file-shape
      ∙ ap (take 24)
          (drop-append_self (entries ++ front) _ (cd_off - 24) (omega (arith, length-front)))
      ∙ ap (take 24) (sym (append_assoc (size_field pairs) apk_signing_block_magic rest))
      ∙ take-append_self footer rest 24 (omega arith)

  head-is : take 8 (drop (length entries) file) ≡ size_field pairs
  head-is =
      ap (take 8) (drop-append_self entries (block ++ rest) (length entries) refl)
      ∙ ap (λ (b : Bytes). take 8 (b ++ rest)) (apk_signing_block_shape pairs)
      ∙ ap (take 8) (append_assoc (size_field pairs) _ rest)
      ∙ take-append_self (size_field pairs) _ 8 (omega (arith, length-le_bytes 8 size))

  -- `find_sig_block` reports a block written by `apk_signing_block` between the entries and the
  -- Central Directory: its start is the end of the entries, and its length its whole length.
  pub find_sig_block-apk_signing_block :
      length file < 2 ^ 64 → find_sig_block file cd_off ≡ ok (some (length entries, length block))
  unfolding find_sig_block sig_block_head
  find_sig_block-apk_signing_block k =
      let footer : Bytes = size_field pairs ++ apk_signing_block_magic in
      let len8 = length-le_bytes 8 size in
      let len : length footer ≡ 24 =
        omega (arith, length-append (size_field pairs) apk_signing_block_magic) in
      let big : length block ≡ size + 8 =
        omega (arith, length-apk_signing_block pairs, length-block_pairs pairs) in
      let large : 32 ≤ length block =
        omega (arith, length-apk_signing_block pairs, length-block_pairs pairs) in
      let inside = length-file in
      let magic : take 16 (drop 8 footer) ≡ apk_signing_block_magic =
        ap (take 16)
          (drop-append_self (size_field pairs) apk_signing_block_magic 8 (omega arith)) in
      let total : (size + 8) % 2 ^ 64 ≡ length block = omega arith in
      let start : (cd_off + 2 ^ 64 - length block) % 2 ^ 64 ≡ length entries = omega arith in
      let read : field 8 (size_field pairs) 0 ≡ size =
        ap le_value (take_all (size_field pairs) 8 (omega arith))
        ∙ le_value-le_bytes 8 size (omega arith) in
      rw (
        le→leb 32 cd_off (omega arith),
        read_exact_at_in_range file 24 (cd_off - 24) (omega arith) k,
        footer-is,
        slice_run footer 8 16 (omega arith),
        magic,
        bytes_eq_refl sig_block_magic,
        word_le_in_range 8 footer 0 (omega arith),
        field-le_bytes 8 size apk_signing_block_magic (omega arith),
        total,
        start,
        le→leb 24 size (omega arith),
        le→leb (length block) cd_off (omega arith),
        read_exact_at_in_range file 8 (length entries) (omega arith) k,
        head-is,
        word_le_in_range 8 (size_field pairs) 0 (omega arith),
        read,
        (==_iff size size).1 refl,
      )
