-- ===== src/Align/Inspect/Collected.antt =====
-- What the inspector collects of the chunks, and what it returns.
use fastsigner.Base.{
  Error, word_le_in_range, fail_if-Ensures, slice_prefix, length-drop, length-take, ℕ, zero, suc,
  ◌+◌, ◌^◌, ◌≤◌, ◌<◌, ◌≡◌, refl, subst, ◌∙◌, Option, some, none, List, [], ◌∷◌, Bytes, length, take,
  drop, replicate, All, get_elem?, ok, Ensures, arith, index, bytes_eq, not,
}
use fastsigner.Base.{
  set, get_elem?-drop, drop-suc, index-drop, length-set, length-replicate, lt→ltb, >>=-Ensures,
  known_value,
}
use fastsigner.Base.{
  length-take, length-drop, slice_prefix, fail_if-Ensures, no_local_header, word_le_in_range,
}
use fastsigner.Align.Check.{lfh_sig}
use fastsigner.Zip.Sections.Found.{read_exact_at_in_range}
use fastsigner.Zip.Directory.{CdEntry}
use fastsigner.Align.Order.{lfh_len}
use fastsigner.Align.Check.{lfh_sig, LfhLens, read_lfh_lens}
use fastsigner.Align.Inspect.{
  no_local_header, LfhInspector, set_lens, put_found, put_straddlers, collect_lens, finish_unless,
  finish,
}
use fastsigner.Align.Inspect.Reference.{read_all, LensAt, IsInspected}

read_lfh_lens-Ends :
    (file : Bytes) (off : ℕ)
    → off + lfh_len ≤ length file
    → length file < 2 ^ 63
    → Ensures (λ _. Unit {0}) (read_lfh_lens file off)
unfolding read_lfh_lens
read_lfh_lens-Ends file off room short =
    let h = take lfh_len (drop off file) in
    let full : length h ≡ lfh_len =
      omega (arith, length-take lfh_len (drop off file), length-drop off file) in
    rw
      (
        read_exact_at_in_range file lfh_len off room (omega (arith, short)),
        slice_prefix h 4 (omega (arith, full)),
      )
      (fail_if-Ensures (λ _. Unit) (not (bytes_eq (take 4 h) lfh_sig)) (no_local_header off) _
        (λ signed.
          rw
            (
              word_le_in_range 2 h 26 (omega (arith, full)),
              word_le_in_range 2 h 28 (omega (arith, full)),
            )
            tt))

-- Headers end in the file.
abbrev pub Inside : Bytes → CdEntry → Type 0
Inside file e = e.lfh_off + lfh_len ≤ length file

module _ (file : Bytes) (entries : List CdEntry) where
  -- The lengths that are there, from the entry with the index `i` on.
  abbrev Known : ℕ → Option LfhLens → Type 0
  Known i none = Unit
  Known i (some l) = LensAt file entries i l

  abbrev KnownFrom : ℕ → List (Option LfhLens) → Type 0
  KnownFrom i [] = Unit
  KnownFrom i (o ∷ lens) = Known i o × KnownFrom (suc i) lens

  KnownFrom-set :
      (i k : ℕ) (lens : List (Option LfhLens)) (l : LfhLens)
      → KnownFrom i lens
      → LensAt file entries (i + k) l
      → KnownFrom i (set lens k (some l))
  KnownFrom-set i k [] l known at = tt
  KnownFrom-set i zero (o ∷ lens) l (here, known) at =
      let same : i + 0 ≡ i = omega arith in (rw same at at, known)
  KnownFrom-set i (suc k) (o ∷ lens) l (here, known) at =
      let same : i + suc k ≡ suc i + k = omega arith in
      (here, KnownFrom-set (suc i) k lens l known (rw same at at))

  nothing_known : (i n : ℕ) → KnownFrom i (replicate n none)
  nothing_known i zero = tt
  nothing_known i (suc n) = (tt, nothing_known (suc i) n)

  -- As many as the entries, and right.
  abbrev Filled : List (Option LfhLens) → Type 0
  Filled lens = (length lens ≡ length entries) × KnownFrom 0 lens

  set_lens-Filled :
      (lens : List (Option LfhLens)) (i : ℕ) (l : LfhLens)
      → Filled lens
      → LensAt file entries i l
      → i < length entries
      → Ensures Filled (set_lens lens i l)
  unfolding set_lens
  set_lens-Filled lens i l (size, known) at within =
      let same : 0 + i ≡ i = omega arith in
      rw (lt→ltb i (length lens) (omega (arith, size, within)))
        (length-set lens i (some l) ∙ size, KnownFrom-set 0 i lens l known (rw same at))

  pub at_within :
      (es : List CdEntry) (i : ℕ) (e : CdEntry) → get_elem? es i ≡ some e → i < length es
  at_within [] i e at = absurd (cc)
  at_within (x ∷ es) zero e at = omega arith
  at_within (x ∷ es) (suc i) e at = omega (arith, at_within es i e at)

  put_found-Filled :
      (found : List (ℕ × LfhLens)) (lens : List (Option LfhLens))
      → Filled lens
      → All (λ (i, l). LensAt file entries i l) found
      → Ensures Filled (put_found found lens)
  unfolding put_found
  put_found-Filled [] lens filled all = filled
  put_found-Filled ((i, l) ∷ found) lens filled (at, all) =
      >>=-Ensures Filled Filled (set_lens lens i l) _
        (set_lens-Filled lens i l filled at (at_within entries i at.0 at.1))
        (λ lens' e filled'. put_found-Filled found lens' filled' all)

  pub entry_of_index :
      (es : List CdEntry) (i : ℕ)
      → i < length es
      → (e : CdEntry) × (get_elem? es i ≡ some e) × (index es i ≡ ok e)
  unfolding index
  entry_of_index [] i h = absurd (omega arith)
  entry_of_index (x ∷ es) zero h = (x, refl, refl)
  entry_of_index (x ∷ es) (suc i) h = entry_of_index es i (omega arith)

  pub All-at :
      (P : CdEntry → Type 0) (es : List CdEntry) (i : ℕ) (e : CdEntry)
      → All P es
      → get_elem? es i ≡ some e
      → P e
  All-at P [] i e all at = absurd (cc)
  All-at P (x ∷ es) zero e (h, all) at = subst P (cc) h
  All-at P (x ∷ es) (suc i) e (h, all) at = All-at P es i e all at

  put_straddlers-Filled :
      (straddlers : List ℕ) (lens : List (Option LfhLens))
      → length file < 2 ^ 63
      → All (Inside file) entries
      → Filled lens
      → All (λ i. i < length entries) straddlers
      → Ensures Filled (put_straddlers file entries straddlers lens)
  unfolding put_straddlers
  put_straddlers-Filled [] lens short inside filled all = filled
  put_straddlers-Filled (i ∷ straddlers) lens short inside filled (within, all) =
      let (e, at, run) = entry_of_index entries i within in
      rw run (
        >>=-Ensures (λ l. Unit × (read_lfh_lens file e.lfh_off ≡ ok l)) Filled
          (read_lfh_lens file e.lfh_off) _
          (known_value (λ _. Unit) (read_lfh_lens file e.lfh_off)
            (read_lfh_lens-Ends file e.lfh_off (All-at (Inside file) entries i e inside at) short))
          (λ l e1 read.
            >>=-Ensures Filled Filled (set_lens lens i l) _
              (set_lens-Filled lens i l filled (e, at, e1) within)
              (λ lens' e2 filled'.
                put_straddlers-Filled straddlers lens' short inside filled' all)))

  collect_lens-read_all :
      (i : ℕ) (es : List CdEntry) (lens : List (Option LfhLens))
      → drop i entries ≡ es
      → length lens ≡ length es
      → KnownFrom i lens
      → Ensures (λ ls. read_all file es ≡ ok ls) (collect_lens entries i lens)
  unfolding collect_lens
  collect_lens-read_all i [] [] rest size known = refl
  collect_lens-read_all i [] (o ∷ lens) rest size known = absurd (omega (arith, size))
  collect_lens-read_all i (e ∷ es) [] rest size known = absurd (omega (arith, size))
  collect_lens-read_all i (e ∷ es) (none ∷ lens) rest size known = rw (index-drop entries i rest) tt
  collect_lens-read_all i (e ∷ es) (some l ∷ lens) rest size ((e', at, read), known) =
      let at' : get_elem? entries i ≡ some e = get_elem?-drop entries i rest in
      let same : e' ≡ e = cc in
      let here : read_lfh_lens file e.lfh_off ≡ ok l = rw same at read in
      >>=-Ensures (λ ls. read_all file es ≡ ok ls) (λ ls. read_all file (e ∷ es) ≡ ok ls)
        (collect_lens entries (suc i) lens) _
        (collect_lens-read_all (suc i) es lens (drop-suc entries i rest) (omega (arith, size))
          known)
        (λ ls e1 more. rw (here, more) refl)

  unless-read_all :
      (error : Option Error) (found : List (ℕ × LfhLens)) (straddlers : List ℕ)
      → length file < 2 ^ 63
      → All (Inside file) entries
      → All (λ (i, l). LensAt file entries i l) found
      → All (λ i. i < length entries) straddlers
      → Ensures
          (λ ls. read_all file entries ≡ ok ls)
          (finish_unless error found straddlers file entries)
  unfolding finish_unless
  unless-read_all (some e) found straddlers short inside lens within = tt
  unless-read_all none found straddlers short inside at within =
      let P : List LfhLens → Type 0 = λ ls. read_all file entries ≡ ok ls in
      let start : Filled (replicate (length entries) none) = (
        length-replicate {A = Option LfhLens} (length entries) none,
        nothing_known 0 (length entries),
      ) in
      >>=-Ensures Filled P (put_found found (replicate (length entries) none)) _
        (put_found-Filled found (replicate (length entries) none) start at)
        (λ lens e1 filled.
          >>=-Ensures Filled P (put_straddlers file entries straddlers lens) _
            (put_straddlers-Filled straddlers lens short inside filled within)
            (λ lens' e2 filled'. collect_lens-read_all 0 entries lens' refl filled'.0 filled'.1))

  pub finish-read_all :
      (order : List (ℕ × CdEntry)) (s : LfhInspector)
      → length file < 2 ^ 63
      → All (Inside file) entries
      → IsInspected file entries order s
      → Ensures (λ ls. read_all file entries ≡ ok ls) (finish s file entries)
  finish-read_all order s short inside is =
      unless-read_all s.error s.found s.straddlers short inside is.lens is.within
