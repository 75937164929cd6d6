-- ===== src/Zip/Sections/Found.antt =====
-- What `parse` reports of a file, and that it ends on every file.
use fastsigner.Base.{
  ◌>>=◌, eocd_not_found, ok_or, ltb→le, field-drop, ltb, false, Bool, slice_in_range, take_all,
  Ensures, ℕ, ◌+◌, ◌-◌, ◌%◌, ◌^◌, ◌≤◌, ◌<◌, ◌≡◌, min, refl, Option, none, some, arith, Bytes,
  length, take, drop, Outcome, ok, bytes_eq, bytes_eq_iff, ap, le_value, word_le_in_range, ◌==◌,
  field, take-take, run-take, drop-drop, length-take, length-drop, slice_run, ◌∙◌, ==_iff, leb,
  ◌&&◌, leb→le, inl, inr, le→ltb, Bool-cases,
}
use fastsigner.Zip.Eocd.{eocd_sig}
use fastsigner.Zip.Eocd.Find.{find_eocd_exact, Finds, IsEocdAt}
use fastsigner.Zip.Sections.{
  parse_at, parse, has_zip64_locator, ZipSections, sig_block_magic, read_exact_at, sig_block_head,
  find_sig_block, entries_end_of,
}

-- A block fills the bytes from its start to the Central Directory, ends in the magic, and has its
-- length, less the first field's, in both its size fields.
abbrev pub IsBlockAt : Bytes → ℕ → ℕ → Option (ℕ × ℕ) → Type 0
IsBlockAt file cd_off entries_end none = entries_end ≡ cd_off
IsBlockAt file cd_off entries_end (some (start, len)) =
    (entries_end ≡ start)
    × (start + len ≡ cd_off)
    × (take 16 (drop (cd_off - 16) file) ≡ sig_block_magic)
    × (field 8 file start ≡ field 8 file (cd_off - 24))
    × (len ≡ (field 8 file start + 8) % 2 ^ 64)

pub record IsSections (file : Bytes) (s : ZipSections) : Type 0 where
  pub whole : s.file_len ≡ length file
  pub eocd_is : s.eocd ≡ drop s.eocd_off file
  pub eocd_len : s.eocd_off + length s.eocd ≡ length file
  pub signature : take 4 s.eocd ≡ eocd_sig
  pub comment : field 2 s.eocd 20 + 22 ≡ length s.eocd
  pub cd_off_is : s.cd_off ≡ field 4 s.eocd 16
  pub cd_size_is : s.cd_size ≡ field 4 s.eocd 12
  pub cd_adjacent : s.cd_off + s.cd_size ≡ s.eocd_off
  pub block : IsBlockAt file s.cd_off s.entries_end s.sig_block

-- A read inside the file returns the bytes there.
pub read_exact_at_in_range :
    (file : Bytes) (len off : ℕ)
    → off + len ≤ length file
    → length file < 2 ^ 64
    → read_exact_at file len off ≡ ok (take len (drop off file))
unfolding read_exact_at
read_exact_at_in_range file len off h k =
    let stop : min (off + len) (2 ^ 64 - 1) ≡ off + len = omega arith in
    let full : length (take len (drop off file)) ≡ len =
      omega (arith, length-take len (drop off file), length-drop off file) in
    rw (
      stop,
      le→ltb (length file) (off + len) h,
      slice_run file off len h,
      full,
      (==_iff len len).1 refl,
    )

-- The bytes from `k` to `k + n` of the 24 that a read at `off` returned.
pub run-read :
    (file : Bytes) (off m k n at : ℕ)
    → k + n ≤ m
    → at ≡ off + k
    → take n (drop k (take m (drop off file))) ≡ take n (drop at file)
run-read file off m k n at h e = run-take k n m (drop off file) h ∙ rw (drop-drop off k at file e)

module _ (file : Bytes) (cd_off : ℕ) (h : cd_off + 22 ≤ length file)
    (k : length file < 2 ^ 64) where
  abbrev Answers : Outcome (Option (ℕ × ℕ)) → Type 0
  Answers r = (o : Option (ℕ × ℕ)) × (r ≡ ok o) × IsBlockAt file cd_off (entries_end_of cd_off o) o

  sig_block_head_lem :
      (size : ℕ)
      → 24 ≤ cd_off
      → size ≡ field 8 file (cd_off - 24)
      → take 16 (drop (cd_off - 16) file) ≡ sig_block_magic
      → Answers (sig_block_head file cd_off size)
  unfolding sig_block_head entries_end_of
  sig_block_head_lem size low e magic =
      elim (Bool-cases (leb 24 size && leb ((size + 8) % 2 ^ 64) cd_off)) [
        | inr small ↦ rw small (none, refl, refl)
        | inl fits ↦
            let total : ℕ = (size + 8) % 2 ^ 64 in
            let start : ℕ = (cd_off + 2 ^ 64 - total) % 2 ^ 64 in
            let below : total ≤ cd_off = ground arith in
            let where_it_is : start + total ≡ cd_off = omega arith in
            let head : Bytes = take 8 (drop start file) in
            let full : length head ≡ 8 =
              omega (arith, length-take 8 (drop start file), length-drop start file) in
            let same : take 8 head ≡ head = take-take 8 8 (drop start file) (omega arith) in
            rw
              (
                fits,
                read_exact_at_in_range file 8 start (omega arith) k,
                word_le_in_range 8 head 0 (omega arith),
                same,
              )
              (elim (Bool-cases (le_value head == size)) [
                | inr other ↦ rw other (none, refl, refl)
                | inl twice ↦
                    let agree : le_value head ≡ size = (==_iff _ size).0 twice in
                    rw twice (
                      some (start, total),
                      refl,
                      (refl, where_it_is, magic, agree ∙ e, rw agree refl),
                    )
              ])
      ]

  pub find_sig_block_lem : Answers (find_sig_block file cd_off)
  unfolding find_sig_block entries_end_of
  find_sig_block_lem = elim (Bool-cases (leb 32 cd_off)) [
    | inr small ↦ rw small (none, refl, refl)
    | inl large ↦
        let low : 32 ≤ cd_off = leb→le 32 cd_off large in
        let footer : Bytes = take 24 (drop (cd_off - 24) file) in
        let full : length footer ≡ 24 =
          omega (arith, length-take 24 (drop (cd_off - 24) file), length-drop (cd_off - 24) file) in
        rw
          (
            large,
            read_exact_at_in_range file 24 (cd_off - 24) (omega arith) k,
            slice_run footer 8 16 (omega arith),
            word_le_in_range 8 footer 0 (omega arith),
            run-read file (cd_off - 24) 24 8 16 (cd_off - 16) (omega arith) (omega arith),
          )
          (elim (Bool-cases (bytes_eq (take 16 (drop (cd_off - 16) file)) sig_block_magic)) [
            | inr other ↦ rw other (none, refl, refl)
            | inl same ↦ rw same (
                sig_block_head_lem _ (omega arith)
                  (ap le_value (take-take 8 24 (drop (cd_off - 24) file) (omega arith)))
                  ((bytes_eq_iff _ sig_block_magic).0 same))
          ])
  ]

has_zip64_locator_total :
    (tail : Bytes) (rel : ℕ) → rel ≤ length tail → (b : Bool) × (has_zip64_locator tail rel ≡ ok b)
unfolding has_zip64_locator
has_zip64_locator_total tail rel h = elim (Bool-cases (leb 20 rel)) [
  | inr small ↦ rw small (false, refl)
  | inl large ↦ rw large (
      let low : 20 ≤ rel = leb→le 20 rel large in
      rw (slice_in_range tail (rel - 20) (rel - 16) (omega arith) (omega arith)) (_, refl))
]

module _ (file tail : Bytes) (rel c : ℕ) (at : tail ≡ drop (length file - length tail) file)
    (le : length tail ≤ length file) (k : length file < 2 ^ 64) (place : rel + 22 + c ≡ length tail)
    (found : IsEocdAt tail c) where
  abbrev eocd : Bytes
  eocd = drop rel tail

  abbrev eocd_off : ℕ
  eocd_off = length file - length tail + rel

  length-eocd : length eocd ≡ c + 22
  length-eocd = omega (arith, length-drop rel tail)

  -- The report, from the block that was found.
  abbrev sections : Option (ℕ × ℕ) → ZipSections
  sections o = record {
    file_len = length file;
    entries_end = entries_end_of (field 4 eocd 16) o;
    sig_block = o;
    cd_off = field 4 eocd 16;
    cd_size = field 4 eocd 12;
    eocd_off = eocd_off;
    eocd = eocd;
  }

  sections-IsSections :
      (o : Option (ℕ × ℕ))
      → field 4 eocd 16 + field 4 eocd 12 ≡ eocd_off
      → IsBlockAt file (field 4 eocd 16) (entries_end_of (field 4 eocd 16) o) o
      → IsSections file (sections o)
  sections-IsSections o adjacent block =
      let place' : length tail - 22 - c ≡ rel = omega arith in
      record {
        whole = refl;
        eocd_is = ap (drop rel) at ∙ drop-drop (length file - length tail) rel eocd_off file refl;
        eocd_len = omega (arith, length-eocd);
        signature = rw place' at (found.1);
        comment = omega (arith, length-eocd, field-drop 2 rel tail 20, rw place' at (found.2));
        cd_off_is = refl;
        cd_size_is = refl;
        cd_adjacent = adjacent;
        block = block;
      }

  parse_at_lem : Ensures (IsSections file) (parse_at file tail rel)
  unfolding parse_at
  parse_at_lem =
      let whole : take (length tail - rel) eocd ≡ eocd =
        take_all eocd (length tail - rel) (omega (arith, length-drop rel tail)) in
      let (loc, has_loc) = has_zip64_locator_total tail rel (omega arith) in
      rw
        (
          slice_in_range tail rel (length tail) (omega arith) (omega arith),
          whole,
          word_le_in_range 2 eocd 4 (omega (arith, length-eocd)),
          word_le_in_range 2 eocd 6 (omega (arith, length-eocd)),
          word_le_in_range 2 eocd 8 (omega (arith, length-eocd)),
          word_le_in_range 2 eocd 10 (omega (arith, length-eocd)),
          word_le_in_range 4 eocd 12 (omega (arith, length-eocd)),
          word_le_in_range 4 eocd 16 (omega (arith, length-eocd)),
          has_loc,
        )
        (elim (Bool-cases (field 4 eocd 16 + field 4 eocd 12 == eocd_off)) [
          | inr apart ↦ ground arith
          | inl adjacent ↦
              let sum = (==_iff (field 4 eocd 16 + field 4 eocd 12) eocd_off).0 adjacent in
              let (o, e, b) = find_sig_block_lem file (field 4 eocd 16) (omega arith) k in
              let good = sections-IsSections o sum b in rw e (ground arith)
        ])

parse_found :
    (file tail : Bytes) (o : Option ℕ)
    → tail ≡ drop (length file - length tail) file
    → length tail ≤ length file
    → length file < 2 ^ 64
    → Finds tail 0 65536 o
    → Ensures (IsSections file) (ok_or o eocd_not_found >>= parse_at file tail)
parse_found file tail none at le k f = tt
parse_found file tail (some rel) at le k (c, p, q, place, found, first) =
    parse_at_lem file tail rel c at le k place found

-- On every file that a 64-bit machine can hold `parse` ends with no panic, and what it returns
-- describes the file: the EOCD record is the file's end, carries its signature and the length of
-- the comment behind it, the Central Directory ends where the record begins, and a signing block
-- that is reported fills the bytes before the directory, with its magic and its two size fields.
pub parse_sound : (file : Bytes) → length file < 2 ^ 64 → Ensures (IsSections file) (parse file)
unfolding parse
parse_sound file k = elim (Bool-cases (ltb (length file) 22)) [
  | inl small ↦ rw small tt
  | inr large ↦
      let n : ℕ = min (length file) 65557 in
      let le : 22 ≤ length file = ltb→le (length file) 22 large in
      let off : ℕ = length file - n in
      let tail : Bytes = drop off file in
      let full : length tail ≡ n = omega (arith, length-drop off file) in
      let all : take n tail ≡ tail = take_all tail n (omega arith) in
      let same_off : off ≡ length file - length tail = omega arith in
      let (o, e, f) = find_eocd_exact tail in
      rw (large, read_exact_at_in_range file n off (omega arith) k, all, e)
        (parse_found file tail o (ap (λ (i : ℕ). drop i file) same_off) (omega arith) k f)
]
