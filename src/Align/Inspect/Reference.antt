-- ===== src/Align/Inspect/Reference.antt =====
-- The inspector against the reading of each header.
use fastsigner.Base.{
  ℕ, ◌+◌, ◌-◌, ◌%◌, ◌^◌, ◌≤◌, ◌<◌, ◌≡◌, refl, ap, ◌∙◌, inl, inr, some, List, [], ◌∷◌, ◌++◌, Bytes,
  length, take, drop, All, get_elem?, Outcome, ok, Ensures, arith, bytes_eq, ◌>>=◌, leb,
}
use fastsigner.Base.{
  Bool-cases, run-take, drop-drop, slice_run, slice_prefix, length-take, length-drop,
  word_le_in_range, leb→le, >>=-Ensures, if-Ensures, All-append,
}
use fastsigner.Zip.Sections.Found.{read_exact_at_in_range}
use fastsigner.Zip.Directory.{CdEntry}
use fastsigner.Align.Order.{lfh_len}
use fastsigner.Align.Check.{lfh_sig, LfhLens, read_lfh_lens}
use fastsigner.Align.Inspect.{
  LfhInspector, Looked, bad_header, header, straddles, look, look_loop, gather, is_bad, inspect,
}

-- The lengths of every header, read one after the other.
abbrev pub read_all : Bytes → List CdEntry → Outcome (List LfhLens)
read_all file [] = ok []
read_all file (e ∷ es) =
    read_lfh_lens file e.lfh_off >>= λ l. read_all file es >>= λ ls. ok (l ∷ ls)

-- The chunks are runs of the file, from an offset on, in the order in which they are looked at.
abbrev pub inspect_all : Bytes → List (ℕ × ℕ) → LfhInspector → Outcome LfhInspector
inspect_all file [] s = ok s
inspect_all file ((off, n) ∷ chunks) s =
    inspect s off (take n (drop off file)) >>= λ s'. inspect_all file chunks s'

module _ (file : Bytes) (entries : List CdEntry) where
  abbrev pub LensAt : ℕ → LfhLens → Type 0
  LensAt i l =
      (e : CdEntry) × (get_elem? entries i ≡ some e) × (read_lfh_lens file e.lfh_off ≡ ok l)

  abbrev pub IsLooked : Looked → Type 0
  IsLooked (bad_header off) = Unit
  IsLooked (header i l) = LensAt i l
  IsLooked (straddles i) = i < length entries

  -- An entry whose header begins in the chunk or behind it, and ends in the file.
  abbrev pub Ahead : ℕ → ℕ × CdEntry → Type 0
  Ahead file_off (i, e) =
      (get_elem? entries i ≡ some e)
      × (i < length entries)
      × (file_off ≤ e.lfh_off)
      × (e.lfh_off + lfh_len ≤ length file)

  look-IsLooked :
      (file_off n : ℕ) (x : ℕ × CdEntry)
      → file_off + n ≤ length file
      → length file < 2 ^ 63
      → Ahead file_off x
      → Ensures IsLooked (look file_off (take n (drop file_off file)) x)
  unfolding look read_lfh_lens
  look-IsLooked file_off n (i, e) inside short (at, within, ahead, room) =
      let rel = (e.lfh_off + 2 ^ 64 - file_off) % 2 ^ 64 in
      let buf = take n (drop file_off file) in
      let h = take lfh_len (drop e.lfh_off file) in
      let far : rel ≡ e.lfh_off - file_off = omega arith in
      let size : length buf ≡ n =
        omega (arith, length-take n (drop file_off file), length-drop file_off file) in
      let full : length h ≡ lfh_len =
        omega (arith, length-take lfh_len (drop e.lfh_off file), length-drop e.lfh_off file) in
      if-Ensures IsLooked (leb (rel + lfh_len) (length buf)) _ _
        (λ there.
          let here : rel + lfh_len ≤ length buf = leb→le (rel + lfh_len) (length buf) there in
          let same : take lfh_len (drop rel buf) ≡ h =
            run-take rel lfh_len n (drop file_off file) (omega (arith, here, size))
            ∙ ap (take lfh_len) (drop-drop file_off rel e.lfh_off file (omega (arith, far))) in
          rw (slice_run buf rel lfh_len here, same, slice_prefix h 4 (omega (arith, full)))
            (elim (Bool-cases (bytes_eq (take 4 h) lfh_sig)) [
              | inl signed ↦
                  rw
                    (
                      signed,
                      word_le_in_range 2 h 26 (omega (arith, full)),
                      word_le_in_range 2 h 28 (omega (arith, full)),
                    )
                    (
                      e,
                      at,
                      rw
                          (
                            read_exact_at_in_range file lfh_len e.lfh_off room
                                (omega (arith, short)),
                            slice_prefix h 4 (omega (arith, full)),
                            signed,
                            word_le_in_range 2 h 26 (omega (arith, full)),
                            word_le_in_range 2 h 28 (omega (arith, full)),
                          )
                          refl,
                    )
              | inr other ↦ rw other tt
            ]))
        (λ beyond. within)

  pub look_loop-IsLooked :
      (file_off n : ℕ) (xs : List (ℕ × CdEntry))
      → file_off + n ≤ length file
      → length file < 2 ^ 63
      → All (Ahead file_off) xs
      → Ensures (All IsLooked) (look_loop file_off (take n (drop file_off file)) xs)
  unfolding look_loop
  look_loop-IsLooked file_off n [] inside short ahead = tt
  look_loop-IsLooked file_off n (x ∷ xs) inside short (here, ahead) =
      let buf = take n (drop file_off file) in
      >>=-Ensures IsLooked (All IsLooked) (look file_off buf x) _
        (look-IsLooked file_off n x inside short here)
        (λ l e1 looked.
          if-Ensures (All IsLooked) (is_bad l) _ _ (λ bad. (looked, tt))
            (λ good.
              >>=-Ensures (All IsLooked) (All IsLooked) (look_loop file_off buf xs) _
                (look_loop-IsLooked file_off n xs inside short ahead) (λ ls e2 all. (looked, all))))

  -- What is known of the state between two chunks.
  pub record IsInspected (order : List (ℕ × CdEntry)) (s : LfhInspector) : Type 0 where
    pub same : s.order ≡ order
    pub lens : All (λ (i, l). LensAt i l) s.found
    pub within : All (λ i. i < length entries) s.straddlers

  pub gather-IsInspected :
      (order : List (ℕ × CdEntry)) (s : LfhInspector) (ls : List Looked)
      (found : List (ℕ × LfhLens)) (straddlers : List ℕ)
      → IsInspected order s
      → All IsLooked ls
      → All (λ (i, l). LensAt i l) found
      → All (λ i. i < length entries) straddlers
      → IsInspected order (gather s ls found straddlers)
  unfolding gather
  gather-IsInspected order s [] found straddlers is all lens within = record {
    same = is.same;
    lens = All-append (λ (i, l). LensAt i l) s.found found is.lens lens;
    within = All-append (λ i. i < length entries) s.straddlers straddlers is.within within;
  }
  gather-IsInspected order s (bad_header off ∷ ls) found straddlers is all lens within = record {
    same = is.same;
    lens = is.lens;
    within = is.within;
  }
  gather-IsInspected order s (header i l ∷ ls) found straddlers is (at, all) lens within =
      gather-IsInspected order s ls (found ++ (i, l) ∷ []) straddlers is all
        (All-append (λ (i, l). LensAt i l) found ((i, l) ∷ []) lens (at, tt)) within
  gather-IsInspected order s (straddles i ∷ ls) found straddlers is (at, all) lens within =
      gather-IsInspected order s ls found (straddlers ++ i ∷ []) is all lens
        (All-append (λ i. i < length entries) straddlers (i ∷ []) within (at, tt))
