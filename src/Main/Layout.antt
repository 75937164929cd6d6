-- ===== src/Main/Layout.antt =====
-- The end records of a layout.
use fastsigner.Base.{
  drop-patched, field-patched_before, ℕ, ◌+◌, ◌%◌, ◌^◌, ◌≤◌, ◌<◌, ◌≡◌, ◌∙◌, Bytes, length, take,
  drop, ok, arith, le_bytes,
}
use fastsigner.Base.{
  patched, field, field-patched, put_in_range, length-put, put-before, length-le_bytes,
}
use fastsigner.SigBlock.{padding_before_block}
use fastsigner.SigBlock.Size.{padding_before_block_lem}
use fastsigner.Zip.Eocd.{set_eocd_cd_offset, set_eocd_cd_size, set_eocd_entry_count}
use fastsigner.Main.{layout}

-- A record that is the template in all but the counts and the size of the directory.
abbrev pub Counts : Bytes → ℕ → ℕ → Bytes → Type 0
Counts template count size eocd =
    (length eocd ≡ length template)
    × (field 2 eocd 8 ≡ count)
    × (field 2 eocd 10 ≡ count)
    × (field 4 eocd 12 ≡ size)
    × (take 8 eocd ≡ take 8 template)
    × (drop 20 eocd ≡ drop 20 template)

module _ (template : Bytes) (count size start : ℕ) where
  abbrev one : Bytes
  one = patched template 8 (le_bytes 2 count)

  abbrev two : Bytes
  two = patched one 10 (le_bytes 2 count)

  -- The end record, and that for digesting.
  abbrev pub eocd_of : Bytes
  eocd_of = patched two 12 (le_bytes 4 size)

  abbrev pub digest_eocd_of : Bytes
  digest_eocd_of = patched eocd_of 16 (le_bytes 4 start)

  length-one : 22 ≤ length template → length one ≡ length template
  length-one long =
      length-put template 8 (le_bytes 2 count) (omega (arith, length-le_bytes 2 count))

  length-two : 22 ≤ length template → length two ≡ length template
  length-two long =
      length-put one 10 (le_bytes 2 count) (omega (arith, length-one long, length-le_bytes 2 count))
      ∙ length-one long

  pub length-eocd_of : 22 ≤ length template → length eocd_of ≡ length template
  length-eocd_of long =
      length-put two 12 (le_bytes 4 size) (omega (arith, length-two long, length-le_bytes 4 size))
      ∙ length-two long

  setters_run :
      22 ≤ length template
      → (set_eocd_entry_count template count ≡ ok two)
        × (set_eocd_cd_size two size ≡ ok eocd_of)
        × (set_eocd_cd_offset eocd_of start ≡ ok digest_eocd_of)
  unfolding set_eocd_entry_count set_eocd_cd_size set_eocd_cd_offset
  setters_run long = (
    rw (
      put_in_range template 8 (le_bytes 2 count) (omega (arith, length-le_bytes 2 count)),
      put_in_range one 10 (le_bytes 2 count)
          (omega (arith, length-one long, length-le_bytes 2 count)),
    ),
    put_in_range two 12 (le_bytes 4 size) (omega (arith, length-two long, length-le_bytes 4 size)),
    put_in_range eocd_of 16 (le_bytes 4 start)
        (omega (arith, length-eocd_of long, length-le_bytes 4 start)),
  )

-- The bytes before and after the run that is replaced.
keeps :
    (b src : Bytes) (i : ℕ)
    → i + length src ≤ length b
    → 8 ≤ i
    → i + length src ≤ 20
    → (take 8 (patched b i src) ≡ take 8 b) × (drop 20 (patched b i src) ≡ drop 20 b)
keeps b src i h low high = (put-before b i src 0 8 h low, drop-patched b i src 20 h high)

eocd_of-Counts :
    (template : Bytes) (count size start : ℕ)
    → 22 ≤ length template
    → count < 2 ^ 16
    → size < 2 ^ 32
    → Counts template count size (eocd_of template count size start)
eocd_of-Counts template count size start long c s =
    let w1 = length-le_bytes 2 count in
    let w2 = length-le_bytes 4 size in
    let l1 = length-one template count size start long in
    let l2 = length-two template count size start long in
    let a = patched template 8 (le_bytes 2 count) in
    let b = patched a 10 (le_bytes 2 count) in
    let (t1, d1) =
      keeps template (le_bytes 2 count) 8 (omega (arith, w1)) (omega arith) (omega (arith, w1)) in
    let (t2, d2) =
      keeps a (le_bytes 2 count) 10 (omega (arith, w1, l1)) (omega arith) (omega (arith, w1)) in
    let (t3, d3) =
      keeps b (le_bytes 4 size) 12 (omega (arith, w2, l2)) (omega arith) (omega (arith, w2)) in
    (
      length-eocd_of template count size start long,
      field-patched_before 2 b 12 (le_bytes 4 size) 8 (omega (arith, w2, l2)) (omega arith)
          ∙ field-patched_before 2 a 10 (le_bytes 2 count) 8 (omega (arith, w1, l1)) (omega arith)
          ∙ field-patched 2 count template 8 (omega arith) c,
      field-patched_before 2 b 12 (le_bytes 4 size) 10 (omega (arith, w2, l2)) (omega arith)
          ∙ field-patched 2 count a 10 (omega (arith, l1)) c,
      field-patched 4 size b 12 (omega (arith, l2)) s,
      t3 ∙ t2 ∙ t1,
      d3 ∙ d2 ∙ d1,
    )

-- Setting the offset changes nothing of that.
offset-Counts :
    (template eocd : Bytes) (count size start : ℕ)
    → 22 ≤ length template
    → Counts template count size eocd
    → Counts template count size (patched eocd 16 (le_bytes 4 start))
offset-Counts template eocd count size start long (l, c1, c2, s, t, d) =
    let w = length-le_bytes 4 start in
    let h : 16 + length (le_bytes 4 start) ≤ length eocd = omega (arith, w, l) in
    let (t', d') = keeps eocd (le_bytes 4 start) 16 h (omega arith) (omega (arith, w)) in
    (
      length-put eocd 16 (le_bytes 4 start) h ∙ l,
      field-patched_before 2 eocd 16 (le_bytes 4 start) 8 h (omega arith) ∙ c1,
      field-patched_before 2 eocd 16 (le_bytes 4 start) 10 h (omega arith) ∙ c2,
      field-patched_before 4 eocd 16 (le_bytes 4 start) 12 h (omega arith) ∙ s,
      t' ∙ t,
      d' ∙ d,
    )

pub layout_run :
    (entries_end cd_len : ℕ) (template : Bytes) (count : ℕ)
    → 22 ≤ length template
    → layout entries_end cd_len template count
      ≡ ok (
        eocd_of template count cd_len (entries_end + padding_before_block entries_end),
        digest_eocd_of template count cd_len (entries_end + padding_before_block entries_end),
        padding_before_block entries_end,
        entries_end + padding_before_block entries_end,
      )
unfolding layout
layout_run entries_end cd_len template count long =
    let start = entries_end + padding_before_block entries_end in
    let (a, b, c) = setters_run template count cd_len start long in rw (a, b, c)

-- A layout's end records: both keep the template's length, its first eight bytes and all from byte 20
-- on, hold the count twice and the size of the directory, and the one for digesting holds the start
-- of the block, which is on a page; counts, sizes and offsets are taken to fit their fields.
pub layout-Counts :
    (entries_end cd_len : ℕ) (template : Bytes) (count : ℕ)
    → 22 ≤ length template
    → count < 2 ^ 16
    → cd_len < 2 ^ 32
    → entries_end + 4096 < 2 ^ 32
    → (eocd : Bytes) × (digested : Bytes) × (pad : ℕ) × (layout entries_end cd_len template count
        ≡ ok (eocd, digested, pad, entries_end + pad))
      × Counts template count cd_len eocd
      × Counts template count cd_len digested
      × (field 4 digested 16 ≡ entries_end + pad)
      × ((entries_end + pad) % 4096 ≡ 0)
layout-Counts entries_end cd_len template count long c s o =
    let pad = padding_before_block entries_end in
    let start = entries_end + pad in
    let (page, small) = padding_before_block_lem entries_end in
    let eocd = eocd_of template count cd_len start in
    let counts = eocd_of-Counts template count cd_len start long c s in
    (
      eocd,
      digest_eocd_of template count cd_len start,
      pad,
      layout_run entries_end cd_len template count long,
      counts,
      offset-Counts template eocd count cd_len start long counts,
      field-patched 4 start eocd 16 (omega (arith, counts.0)) (omega (arith, small)),
      page,
    )
