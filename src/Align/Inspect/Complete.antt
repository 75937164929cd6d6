-- ===== src/Align/Inspect/Complete.antt =====
-- The inspector returns where every header can be read and begins in a chunk.
use fastsigner.Base.{
  ℕ, zero, suc, ◌+◌, ◌-◌, ◌^◌, ◌≤◌, ◌<◌, ◌≡◌, refl, ◌∙◌, ◌⊎◌, inl, inr, some, none, List, [], ◌∷◌,
  Bytes, length, take, drop, All, get_elem?, ok, arith, ◌==◌,
}
use fastsigner.Base.{Bool-cases, ==_iff, length-take, length-drop}
use fastsigner.Zip.Directory.{CdEntry}
use fastsigner.Align.Order.Sorted.{Rises}
use fastsigner.Align.Inspect.{LfhInspector, partition_point, gather, inspect}
use fastsigner.Align.Inspect.Reference.{inspect_all, Ahead}
use fastsigner.Align.Inspect.Run.{IsChunk, All-take, partition_point-Ahead}
use fastsigner.Align.Inspect.Seen.{
  Seen, Holds, Readable, look_loop-Sees, gather-Seen, gather_fine, slice_part,
}

-- A chunk in which the offset lies.
abbrev pub Covers : List (ℕ × ℕ) → ℕ → Type 0
Covers [] o = ⊥
Covers ((off, n) ∷ chunks) o = ((off ≤ o) × (o < off + n)) ⊎ Covers chunks o

All-drop :
    (P : ℕ × CdEntry → Type 0) (n : ℕ) (xs : List (ℕ × CdEntry)) → All P xs → All P (drop n xs)
All-drop P zero xs all = all
All-drop P (suc n) [] all = tt
All-drop P (suc n) (x ∷ xs) (h, all) = All-drop P n xs all

module _ (file : Bytes) (entries : List CdEntry) (entries_end : ℕ)
    (ends : entries_end ≤ length file) (short : length file < 2 ^ 63) (order : List (ℕ × CdEntry))
    (rises : Rises entries_end 0 order)
    (indexed : All (λ (i, e). get_elem? entries i ≡ some e) order)
    (readable : All (Readable file) order) where
  -- No error, and what has been seen.
  abbrev Fine : LfhInspector → Type 0
  Fine s = (s.error ≡ none) × (s.order ≡ order)

  inspect-Seen :
      (s : LfhInspector) (off n : ℕ)
      → off + n ≤ length file
      → Fine s
      → (s' : LfhInspector) × (inspect s off (take n (drop off file)) ≡ ok s')
        × Fine s'
        × ((i o : ℕ) → Holds i o order → ((off ≤ o) × (o < off + n)) ⊎ Seen i s → Seen i s')
  unfolding inspect
  inspect-Seen s off n inside (fine, same) =
      let buf = take n (drop off file) in
      let size : length buf ≡ n =
        omega (arith, length-take n (drop off file), length-drop off file) in
      let lo = partition_point off order in
      let hi = partition_point (off + n) order in
      let part = λ (i o : ℕ) (holds : Holds i o order) (h : off ≤ o) (k : o < off + n).
        slice_part entries_end 0 i o off (off + n) order rises holds h k in
      elim (Bool-cases (lo == hi)) [
        | inl empty ↦
            let none_there : hi - lo ≡ 0 = omega (arith, (==_iff lo hi).0 empty) in
            (
              s,
              rw (same, size, empty) refl,
              (fine, same),
              λ i o holds h. elim h [
                | inl (a, b) ↦ absurd (rw none_there at (part i o holds a b))
                | inr before ↦ before
              ],
            )
        | inr some_there ↦
            let xs = take (hi - lo) (drop lo order) in
            let ahead =
              All-take (Ahead file entries off) (hi - lo) (drop lo order)
                (partition_point-Ahead file entries entries_end ends 0 off order rises indexed) in
            let read =
              All-take (Readable file) (hi - lo) (drop lo order)
                (All-drop (Readable file) lo order readable) in
            let (ls, run, good, named) =
              look_loop-Sees file entries short off n xs inside ahead read in
            let (no_error, kept) = gather_fine s ls [] [] good in
            (
              gather s ls [] [],
              rw (same, size, some_there, run) refl,
              (no_error ∙ fine, kept ∙ same),
              λ i o holds h. gather-Seen i s ls [] [] good (elim h [
                | inl (a, b) ↦ inr (inr (rw named (part i o holds a b)))
                | inr before ↦ inl before
              ]),
            )
      ]

  pub inspect_all-Seen :
      (chunks : List (ℕ × ℕ)) (s : LfhInspector)
      → All (IsChunk file) chunks
      → Fine s
      → (s' : LfhInspector) × (inspect_all file chunks s ≡ ok s')
        × Fine s'
        × ((i o : ℕ) → Holds i o order → Covers chunks o ⊎ Seen i s → Seen i s')
  inspect_all-Seen [] s are fine = (
    s,
    refl,
    fine,
    λ i o holds h. elim h [ inl none_there ↦ absurd none_there | inr before ↦ before ],
  )
  inspect_all-Seen ((off, n) ∷ chunks) s (inside, are) fine =
      let (mid, run, fine', seen) = inspect-Seen s off n inside fine in
      let (s', more, fine'', seen') = inspect_all-Seen chunks mid are fine' in
      (
        s',
        rw (run, more) refl,
        fine'',
        λ i o holds h. seen' i o holds (elim h [
          | inl (inl here) ↦ inr (seen i o holds (inl here))
          | inl (inr later) ↦ inl later
          | inr before ↦ inr (seen i o holds (inr before))
        ]),
      )
