-- ===== src/Align/Extra.antt =====
-- src/align.rs: the extra fields of a local header. `declared_alignment` reads the alignment that a
-- 0xd935 field declares, and `aligning_extra` builds the extra fields that align the entry's data.
pub mod Fields
pub mod Aligned
use fastsigner.Base.{
  ℕ, zero, suc, ◌+◌, ◌-◌, ◌%◌, Bool, true, false, not, ◌&&◌, ◌||◌, Option, none, some, ◌++◌, [],
  Bytes, length, replicate, leb, ltb, ◌==◌, if◌then◌else◌, le_bytes, Outcome, ok, panic,
  out_of_fuel, ◌>>=◌, slice,
}
use fastsigner.Zip.Eocd.{u16le}

abbrev pub alignment_extra_id : ℕ
alignment_extra_id = 0xd935

-- `while extra.len() - p >= 4`; a round takes four bytes at least.
unfoldable pub declared_loop : ℕ → Bytes → ℕ → Outcome (Option ℕ)
declared_loop zero extra p = if leb 4 (length extra - p) then out_of_fuel else ok none
declared_loop (suc fuel) extra p =
    let round = (do
      id ← u16le extra p
      size ← u16le extra (p + 2)
      let next = declared_loop fuel extra (p + (4 + size))
      if ltb (length extra - p - 4) size
          then ok none
          else if id == alignment_extra_id && leb 2 size
          then (do align ← u16le extra (p + 4); ok (some align))
          else next) in
    if leb 4 (length extra - p) then round else ok none

unfoldable pub declared_alignment : Bytes → Outcome (Option ℕ)
declared_alignment extra = declared_loop (length extra) extra 0

-- zipalign's raw zero padding, or an earlier alignment field.
abbrev pub is_dropped_field : ℕ → ℕ → Bool
is_dropped_field id size = (id == 0 && size == 0) || id == alignment_extra_id

-- The loop of `aligning_extra`, with what it has kept so far.
unfoldable pub keep_loop : ℕ → Bytes → ℕ → Bytes → Outcome Bytes
keep_loop zero original p out = if leb 4 (length original - p) then out_of_fuel else ok out
keep_loop (suc fuel) original p out =
    let round = (do
      id ← u16le original p
      size ← u16le original (p + 2)
      let skip = keep_loop fuel original (p + (4 + size)) out
      let keep = (do
        part ← slice original p (p + (4 + size))
        keep_loop fuel original (p + (4 + size)) (out ++ part))
      if ltb (length original - p - 4) size
          then ok out
          else if is_dropped_field id size
          then skip
          else keep) in
    if leb 4 (length original - p) then round else ok out

-- `(align - data_min_start % align) % align`
abbrev pub pad_to : ℕ → ℕ → ℕ
pad_to data_min_start align = (align - data_min_start % align) % align

-- The alignment field that goes behind `out`. A remainder by zero panics.
unfoldable pub alignment_field : ℕ → ℕ → Bytes
alignment_field pad align =
    le_bytes 2 alignment_extra_id ++ (le_bytes 2 (2 + pad) ++ (le_bytes 2 align ++ replicate pad 0))

unfoldable pub aligning_extra : Bytes → ℕ → ℕ → Outcome Bytes
aligning_extra original extra_start_off align = do
  out ← keep_loop (length original) original 0 []
  let data_min_start = extra_start_off + length out + 6
  if align == 0 then panic else ok (out ++ alignment_field (pad_to data_min_start align) align)
