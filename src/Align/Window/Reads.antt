-- ===== src/Align/Window/Reads.antt =====
-- What comes out of the window is the file's.
use fastsigner.Base.{
  ℕ, ◌+◌, ◌-◌, ◌%◌, ◌^◌, ◌≤◌, ◌<◌, ◌≡◌, refl, sym, ap, ◌∙◌, Bytes, length, take, drop, ok, Ensures,
  arith, slice, bytes_eq, ◌>>=◌, ltb, not, ◌||◌,
}
use fastsigner.Base.{
  >>=-Ensures, if-Ensures, fail_if-Ensures, slice_run, slice_prefix, put_in_range, length-put,
  length-take, length-drop, take-append_self, run-take, drop-drop, word_le_in_range, field,
  field-drop, field-take, ltb→le, header_overruns, no_local_header,
}
use fastsigner.Zip.Sections.Found.{read_exact_at_in_range}
use fastsigner.Align.Order.{lfh_len}
use fastsigner.Align.Check.{lfh_sig}
use fastsigner.Align.Window.{window_size, HeaderReader, room, refill, ensure, prefix_len, prefix}

-- The window holds the file's bytes from `win_off` on, none of them behind the entries section.
pub record IsWindow (file : Bytes) (w : HeaderReader) : Type 0 where
  pub size : length w.window ≡ window_size
  pub small : w.win_len ≤ window_size
  pub inside : w.win_off + w.win_len ≤ w.entries_end
  pub entries : w.entries_end ≤ length file
  pub short : length file < 2 ^ 63
  pub same : take w.win_len w.window ≡ take w.win_len (drop w.win_off file)

-- Where the window is, and that `need` bytes of the file from `off` on are there.
abbrev Ready : Bytes → ℕ → ℕ → ℕ → ℕ × HeaderReader → Type 0
Ready file entries_end off need (rel, w) =
    IsWindow file w
    × (w.entries_end ≡ entries_end)
    × (w.win_off + rel ≡ off)
    × (rel + need ≤ w.win_len)

refill-Ready :
    (file : Bytes) (w : HeaderReader) (off need : ℕ)
    → IsWindow file w
    → off ≤ w.entries_end
    → Ensures (Ready file w.entries_end off need) (refill file w off need)
unfolding refill
refill-Ready file w off need is h =
    let n = room w.entries_end off in
    let far : (w.entries_end + 2 ^ 64 - off) % 2 ^ 64 ≡ w.entries_end - off =
      omega (arith, is.short, is.entries) in
    let near : off + n ≤ w.entries_end = omega (arith, far) in
    let b = take n (drop off file) in
    let size : length b ≡ n =
      omega (arith, length-take n (drop off file), length-drop off file, near, is.entries) in
    let fits : 0 + length b ≤ length w.window = omega (arith, size, is.size) in
    fail_if-Ensures (Ready file w.entries_end off need) (ltb n need) (header_overruns off) _
      (λ enough.
        rw
          (
            read_exact_at_in_range file n off (omega (arith, near, is.entries))
                (omega (arith, is.short)),
            put_in_range w.window 0 b fits,
          )
          (
            record {
              size = length-put w.window 0 b fits ∙ is.size;
              small = omega arith;
              inside = near;
              entries = is.entries;
              short = is.short;
              same = take-append_self b (drop (0 + length b) w.window) n (sym size);
            },
            refl,
            omega arith,
            omega (arith, ltb→le n need enough),
          ))

ensure-Ready :
    (file : Bytes) (w : HeaderReader) (off need : ℕ)
    → IsWindow file w
    → off ≤ w.entries_end
    → Ensures (Ready file w.entries_end off need) (ensure file w off need)
unfolding ensure
ensure-Ready file w off need is h =
    if-Ensures (Ready file w.entries_end off need)
      (ltb off w.win_off || ltb (w.win_off + w.win_len) (off + need)) _ _
      (λ away. refill-Ready file w off need is h)
      (λ there.
        let behind : w.win_off ≤ off = ground arith in
        let before : off + need ≤ w.win_off + w.win_len = ground arith in
        (is, refl, omega arith, omega arith))

-- A run of the window is the file's.
window_run :
    (file : Bytes) (w : HeaderReader) (off rel need : ℕ)
    → IsWindow file w
    → w.win_off + rel ≡ off
    → rel + need ≤ w.win_len
    → slice w.window rel (rel + need) ≡ ok (take need (drop off file))
window_run file w off rel need is at h =
    slice_run w.window rel need (omega (arith, is.size, is.small))
    ∙ ap ok (
        sym (run-take rel need w.win_len w.window h)
        ∙ ap (λ b. take need (drop rel b)) is.same
        ∙ run-take rel need w.win_len (drop w.win_off file) h
        ∙ ap (take need) (drop-drop w.win_off rel off file (sym at)))

-- The local header at `off`, as it stands in the file: its length is what its fields say.
abbrev pub IsPrefix : Bytes → ℕ → ℕ → Bytes × HeaderReader → Type 0
IsPrefix file entries_end off (p, w) =
    IsWindow file w
    × (w.entries_end ≡ entries_end)
    × (p ≡ take (length p) (drop off file))
    × (length p ≡ lfh_len + field 2 file (off + 26) + field 2 file (off + 28))
    × (off + length p ≤ entries_end)

prefix_len-field :
    (file : Bytes) (off : ℕ)
    → off + lfh_len ≤ length file
    → prefix_len (take lfh_len (drop off file))
      ≡ ok (lfh_len + field 2 file (off + 26) + field 2 file (off + 28))
unfolding prefix_len
prefix_len-field file off h =
    let b = take lfh_len (drop off file) in
    let size : length b ≡ lfh_len =
      omega (arith, length-take lfh_len (drop off file), length-drop off file) in
    rw
      (
        word_le_in_range 2 b 26 (omega (arith, size)),
        word_le_in_range 2 b 28 (omega (arith, size)),
        field-take 2 lfh_len (drop off file) 26 (omega arith),
        field-take 2 lfh_len (drop off file) 28 (omega arith),
        field-drop 2 off file 26,
        field-drop 2 off file 28,
      )
      refl

whole_prefix :
    (file : Bytes) (entries_end off : ℕ) (w : HeaderReader)
    → IsWindow file w
    → w.entries_end ≡ entries_end
    → off ≤ entries_end
    → Ensures (IsPrefix file entries_end off) (
        ensure file w off (lfh_len + field 2 file (off + 26) + field 2 file (off + 28))
        >>= λ (rel, w').
            slice w'.window rel
              (rel + (lfh_len + field 2 file (off + 26) + field 2 file (off + 28)))
            >>= λ p. ok (p, w'))
whole_prefix file entries_end off w is end h =
    let need = lfh_len + field 2 file (off + 26) + field 2 file (off + 28) in
    let P : Bytes × HeaderReader → Type 0 = IsPrefix file entries_end off in
    >>=-Ensures (Ready file w.entries_end off need) P (ensure file w off need) _
      (ensure-Ready file w off need is (omega arith))
      (λ r e ready.
        let b = take need (drop off file) in
        let size : length b ≡ need = omega (
          arith,
          length-take need (drop off file),
          length-drop off file,
          ready.2,
          ready.3,
          (ready.0).inside,
          (ready.0).entries,
        ) in
        rw (window_run file r.1 off r.0 need ready.0 ready.2 ready.3) (
          ready.0,
          ready.1 ∙ end,
          ap (λ n. take n (drop off file)) (sym size),
          size,
          omega (arith, size, ready.2, ready.3, (ready.0).inside, ready.1),
        ))

-- Of a header that begins 30 bytes or more before the end of the entries section, `prefix` ends with
-- no panic, and what it returns through its window is the header, its name and its extra fields as
-- they stand in the file, none of it behind the entries section.
pub prefix-IsPrefix :
    (file : Bytes) (w : HeaderReader) (off : ℕ)
    → IsWindow file w
    → off + lfh_len ≤ w.entries_end
    → Ensures (IsPrefix file w.entries_end off) (prefix file w off)
unfolding prefix
prefix-IsPrefix file w off is h =
    let P : Bytes × HeaderReader → Type 0 = IsPrefix file w.entries_end off in
    >>=-Ensures (Ready file w.entries_end off lfh_len) P (ensure file w off lfh_len) _
      (ensure-Ready file w off lfh_len is (omega arith))
      (λ r e ready.
        let b = take lfh_len (drop off file) in
        let size : length b ≡ lfh_len =
          omega (arith, length-take lfh_len (drop off file), length-drop off file, is.entries) in
        rw
          (
            window_run file r.1 off r.0 lfh_len ready.0 ready.2 ready.3,
            slice_prefix b 4 (omega (arith, size)),
          )
          (fail_if-Ensures P (not (bytes_eq (take 4 b) lfh_sig)) (no_local_header off) _ (λ signed.
            rw (prefix_len-field file off (omega (arith, is.entries)))
              (whole_prefix file w.entries_end off r.1 ready.0 ready.1 (omega arith)))))
