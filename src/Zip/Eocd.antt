-- ===== src/Zip/Eocd.antt =====
-- src/zip.rs: the End of Central Directory record, found from the end of the file and patched.
pub mod Find
use fastsigner.Base.{
  ℕ, zero, suc, ◌+◌, ◌-◌, min, Bool, Option, none, some, [], ◌∷◌, Bytes, length, ltb, ◌==◌,
  if◌then◌else◌, bytes_eq, Outcome, ok, ◌>>=◌, word_le, slice, put, le_bytes,
}

abbrev pub eocd_sig : Bytes
eocd_sig = 0x50 ∷ 0x4b ∷ 0x05 ∷ 0x06 ∷ []

abbrev pub eocd_min_len : ℕ
eocd_min_len = 22

abbrev pub max_comment_len : ℕ
max_comment_len = 0xffff

abbrev pub u16le : Bytes → ℕ → Outcome ℕ
u16le = word_le 2

abbrev pub u32le : Bytes → ℕ → Outcome ℕ
u32le = word_le 4

abbrev pub u64le : Bytes → ℕ → Outcome ℕ
u64le = word_le 8

-- The rounds `comment_len`, `comment_len + 1`, … of the loop, as many as the second argument says.
unfoldable pub find_eocd_loop : Bytes → ℕ → ℕ → Outcome (Option ℕ)
find_eocd_loop tail zero comment_len = ok none
find_eocd_loop tail (suc rounds) comment_len =
    let i = length tail - eocd_min_len - comment_len in
    let next = find_eocd_loop tail rounds (comment_len + 1) in
    do
      head ← slice tail i (i + 4)
      if bytes_eq head eocd_sig
          then (do c ← u16le tail (i + 20); if c == comment_len then ok (some i) else next)
          else next

unfoldable pub find_eocd : Bytes → Outcome (Option ℕ)
unfolding find_eocd_loop
find_eocd tail =
    if ltb (length tail) eocd_min_len
    then ok none
    else find_eocd_loop tail (min (length tail - eocd_min_len) max_comment_len + 1) 0

unfoldable pub set_eocd_cd_offset : Bytes → ℕ → Outcome Bytes
set_eocd_cd_offset eocd off = put eocd 16 (le_bytes 4 off)

unfoldable pub set_eocd_cd_size : Bytes → ℕ → Outcome Bytes
set_eocd_cd_size eocd size = put eocd 12 (le_bytes 4 size)

unfoldable pub set_eocd_entry_count : Bytes → ℕ → Outcome Bytes
set_eocd_entry_count eocd n = do eocd' ← put eocd 8 (le_bytes 2 n); put eocd' 10 (le_bytes 2 n)
