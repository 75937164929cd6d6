-- ===== src/Zip/Sections.antt =====
-- src/zip.rs: positioned reads of a byte string, and `parse`, which finds the sections of a file.
pub mod Found
use fastsigner.Base.{
  ℕ, ◌+◌, ◌-◌, ◌%◌, ◌^◌, ◌≡◌, min, Bool, true, false, not, ◌&&◌, ◌||◌, Option, none, some, [], ◌∷◌,
  Bytes, length, leb, ltb, ◌==◌, if◌then◌else◌, bytes_eq, Outcome, ok, err, panic, ◌>>=◌, ◌>>◌,
  fail_if, ok_or, slice, Error,
}
use fastsigner.Base.{
  eof, file_too_small, eocd_not_found, multi_disk, zip64, zip64_locator, cd_not_before_eocd,
}
use fastsigner.Zip.Eocd.{eocd_min_len, max_comment_len, u16le, u32le, u64le, find_eocd}

-- "APK Sig Block 42"
abbrev pub sig_block_magic : Bytes
sig_block_magic =
    0x41 ∷ 0x50 ∷ 0x4b ∷ 0x20 ∷ 0x53 ∷ 0x69 ∷ 0x67 ∷ 0x20 ∷ 0x42 ∷ 0x6c ∷ 0x6f ∷ 0x63 ∷ 0x6b ∷ 0x20
    ∷ 0x34 ∷ 0x32 ∷ []

abbrev pub zip64_locator_sig : Bytes
zip64_locator_sig = 0x50 ∷ 0x4b ∷ 0x06 ∷ 0x07 ∷ []

-- `read_exact_at` of `[u8]`, into a buffer of `len` bytes. `start + len` saturates, and the copy
-- panics if the lengths differ.
unfoldable pub read_exact_at : Bytes → ℕ → ℕ → Outcome Bytes
read_exact_at file len off =
    let stop = min (off + len) (2 ^ 64 - 1) in
    if ltb (length file) stop
    then err eof
    else (do part ← slice file off stop; if length part == len then ok part else panic)

pub record ZipSections : Type 0 where
  pub file_len : ℕ
  pub entries_end : ℕ
  pub sig_block : Option (ℕ × ℕ)
  pub cd_off : ℕ
  pub cd_size : ℕ
  pub eocd_off : ℕ
  pub eocd : Bytes

-- `rel >= 20 && tail[rel - 20..rel - 16] == ZIP64_LOCATOR_SIG`
unfoldable pub has_zip64_locator : Bytes → ℕ → Outcome Bool
has_zip64_locator tail rel =
    if leb 20 rel
    then (do loc ← slice tail (rel - 20) (rel - 16); ok (bytes_eq loc zip64_locator_sig))
    else ok false

-- The arithmetic on `size`, a u64 read from the file, wraps.
unfoldable pub sig_block_head : Bytes → ℕ → ℕ → Outcome (Option (ℕ × ℕ))
sig_block_head file cd_off size =
    let total = (size + 8) % 2 ^ 64 in
    let start = (cd_off + 2 ^ 64 - total) % 2 ^ 64 in
    if leb 24 size && leb total cd_off
    then (do
      head ← read_exact_at file 8 start
      head_size ← u64le head 0
      ok (if head_size == size then some (start, total) else none))
    else ok none

-- The existing APK Signing Block, immediately before the Central Directory.
unfoldable pub find_sig_block : Bytes → ℕ → Outcome (Option (ℕ × ℕ))
find_sig_block file cd_off =
    if leb 32 cd_off
    then (do
      footer ← read_exact_at file 24 (cd_off - 24)
      magic ← slice footer 8 24
      if bytes_eq magic sig_block_magic
          then (do size ← u64le footer 0; sig_block_head file cd_off size)
          else ok none)
    else ok none

-- `entries_end`: the block's start, or the Central Directory's offset if there is no block.
unfoldable pub entries_end_of : ℕ → Option (ℕ × ℕ) → ℕ
entries_end_of cd_off none = cd_off
entries_end_of cd_off (some (start, len)) = start

-- What `parse` does with the EOCD record that it found at `rel` in `tail`.
unfoldable pub parse_at : Bytes → Bytes → ℕ → Outcome ZipSections
parse_at file tail rel = do
  eocd ← slice tail rel (length tail)
  let eocd_off = length file - length tail + rel
  disk ← u16le eocd 4
  cd_disk ← u16le eocd 6
  entries_disk ← u16le eocd 8
  entries_total ← u16le eocd 10
  cd_size ← u32le eocd 12
  cd_off ← u32le eocd 16
  fail_if (not (disk == 0) || not (cd_disk == 0) || not (entries_disk == entries_total)) multi_disk
  fail_if (entries_total == 0xffff || cd_size == 0xffff_ffff || cd_off == 0xffff_ffff) zip64
  locator ← has_zip64_locator tail rel
  fail_if locator zip64_locator
  fail_if (not (cd_off + cd_size == eocd_off)) (cd_not_before_eocd cd_off cd_size eocd_off)
  sig_block ← find_sig_block file cd_off
  ok (record {
    file_len = length file;
    entries_end = entries_end_of cd_off sig_block;
    sig_block = sig_block;
    cd_off = cd_off;
    cd_size = cd_size;
    eocd_off = eocd_off;
    eocd = eocd;
  })

unfoldable pub parse : Bytes → Outcome ZipSections
parse file = do
  let file_len = length file
  fail_if (ltb file_len eocd_min_len) file_too_small
  let tail_len = min file_len (eocd_min_len + max_comment_len)
  tail ← read_exact_at file tail_len (file_len - tail_len)
  found ← find_eocd tail
  rel ← ok_or found eocd_not_found
  parse_at file tail rel
