-- ===== src/Align/Plan/Rewritten.antt =====
-- The entries of the Central Directory of a rewritten archive.
use fastsigner.Base.{
  take, le_bytes, take-append_self, ℕ, zero, suc, ◌+◌, ◌-◌, ◌%◌, ◌^◌, ◌≤◌, ◌<◌, ◌≡◌, refl, sym, ap,
  ◌∙◌, Option, some, none, List, [], ◌∷◌, ◌++◌, Bytes, length, drop, replicate, All, get_elem?, ok,
  arith,
}
use fastsigner.Base.{field, drop-append_self, length-append, length-drop, append_assoc, append-nil}
use fastsigner.Base.{drop-drop, length-replicate}
use fastsigner.Zip.Directory.{CdEntry, parse_cd_entries}
use fastsigner.Zip.Directory.Grammar.{
  IsRecord, entry_of, parse_cd_entries_sound, parse_cd_entries-Tiles,
}
use fastsigner.Zip.Filter.Rows.{concat, entries_from, Tiles-rows, rows-Tiles}
use fastsigner.Align.Plan.{Plan, new_records, new_directory}
use fastsigner.Align.Plan.Directory.{
  Placed, place, moved_row, moved_onto, moved_rows, added, new_offsets_lem, new_record_lem,
  moved_row-IsRecord, field-moved_row, length-moved_row, moved_off,
}

-- Of the offsets, each is where the plans put its entry, the first of which has the index `i`.
abbrev AtPlaces : List Plan → ℕ → List (Option ℕ) → Type 0
AtPlaces plans i offs =
    (k : ℕ) → k < length offs → get_elem? offs k ≡ some (place (i + k) plans none)

next_places :
    (plans : List Plan) (i : ℕ) (o : Option ℕ) (offs : List (Option ℕ))
    → AtPlaces plans i (o ∷ offs)
    → AtPlaces plans (suc i) offs
next_places plans i o offs at k h =
    let same : i + suc k ≡ suc i + k = omega arith in
    at (suc k) (omega arith) ∙ ap (λ j. some (place j plans none)) same

onto_append :
    (o : Option ℕ) (r : Bytes) (rows : List Bytes)
    → (concat (moved_onto o r []) ++ concat rows ≡ concat (moved_onto o r rows))
      × (length (moved_onto o r rows) ≡ added o 0 + length rows)
onto_append none r rows = (refl, omega arith)
onto_append (some off) r rows =
    (ap (λ b. b ++ concat rows) (append-nil (moved_row r off)), omega arith)

added_lem : (o : Option ℕ) (count : ℕ) → added o count ≡ count + added o 0
added_lem none count = omega arith
added_lem (some off) count = omega arith

new_records_lem :
    (cd : Bytes) (plans : List Plan) (rs : List Bytes) (i p : ℕ) (offs : List (Option ℕ))
    (out : Bytes) (count : ℕ)
    → All IsRecord rs
    → p ≤ length cd
    → drop p cd ≡ concat rs
    → length offs ≡ length rs
    → AtPlaces plans i offs
    → new_records cd (entries_from p rs) offs out count
      ≡ ok (out ++ concat (moved_rows plans i rs), count + length (moved_rows plans i rs))
unfolding new_records
new_records_lem cd plans [] i p offs out count all inside at size places =
    let same : count + 0 ≡ count = omega arith in rw (append-nil out, same) refl
new_records_lem cd plans (r ∷ rs) i p [] out count all inside at size places =
    absurd (omega (arith, size))
new_records_lem cd plans (r ∷ rs) i p (o ∷ offs) out count (is, all) inside at size places =
    let first : i + 0 ≡ i = omega arith in
    let at_first : some o ≡ some (place i plans none) =
      places 0 (omega arith) ∙ ap (λ j. some (place j plans none)) first in
    let here : o ≡ place i plans none = cc in
    let rows = moved_rows plans (suc i) rs in
    let (same, count_is) = onto_append o r rows in
    let room : p + length r ≤ length cd =
      omega (arith, length-drop p cd, ap length at, length-append r (concat rs)) in
    let next : drop (p + length r) cd ≡ concat rs =
      sym (drop-drop p (length r) (p + length r) cd refl)
      ∙ ap (drop (length r)) at
      ∙ drop-append_self r (concat rs) (length r) refl in
    let total : added o count + length rows ≡ count + length (moved_onto o r rows) =
      omega (arith, added_lem o count, count_is) in
    rw (new_record_lem cd r (concat rs) p o out count inside at is) (
      new_records_lem cd plans rs (suc i) (p + length r) offs (out ++ concat (moved_onto o r []))
        (added o count) all room next (omega (arith, size)) (next_places plans i o offs places)
      ∙ rw (append_assoc out (concat (moved_onto o r [])) (concat rows), same, total, sym here)
          refl)

-- The entry whose record is moved to `p` of the directory, with the offset `off`.
abbrev pub relocated_entry : ℕ → ℕ → CdEntry → CdEntry
relocated_entry p off e = record {
  range = record { start = p; end = p + (e.range.end - e.range.start) };
  name = record { start = p + 46; end = p + 46 + (e.name.end - e.name.start) };
  lfh_off = off % 2 ^ 32;
  method = e.method;
  flags = e.flags;
  compressed_size = e.compressed_size;
}

-- An entry that is put somewhere, and what comes behind it.
abbrev pub relocated_onto : Option ℕ → ℕ → CdEntry → (ℕ → List CdEntry) → List CdEntry
relocated_onto none p e next = next p
relocated_onto (some off) p e next =
    relocated_entry p off e ∷ next (p + (e.range.end - e.range.start))

-- The entries that the plans put somewhere, in order; the first has the index `i`, and `p` is where
-- the new directory goes on.
abbrev pub relocated : List Plan → ℕ → ℕ → List CdEntry → List CdEntry
relocated plans i p [] = []
relocated plans i p (e ∷ es) =
    relocated_onto (place i plans none) p e (λ p'. relocated plans (suc i) p' es)

moved_entry :
    (r : Bytes) (off p q : ℕ)
    → IsRecord r
    → entry_of p (moved_row r off) ≡ relocated_entry p off (entry_of q r)
moved_entry r off p q is =
    let h : 46 ≤ length r = is.header in
    let size : q + length r - q ≡ length r = omega arith in
    let named : q + 46 + field 2 r 28 - (q + 46) ≡ field 2 r 28 = omega arith in
    rw
      (
        size,
        named,
        length-moved_row r off h,
        field-moved_row 2 28 r off h (omega arith),
        field-moved_row 2 10 r off h (omega arith),
        field-moved_row 2 8 r off h (omega arith),
        field-moved_row 4 20 r off h (omega arith),
        moved_off r off h,
      )
      refl

relocated_step :
    (o : Option ℕ) (p q : ℕ) (r : Bytes) (rows : List Bytes) (next : ℕ → List CdEntry)
    → IsRecord r
    → All IsRecord rows
    → ((p' : ℕ) → entries_from p' rows ≡ next p')
    → All IsRecord (moved_onto o r rows)
      × (entries_from p (moved_onto o r rows) ≡ relocated_onto o p (entry_of q r) next)
relocated_step none p q r rows next is all same = (all, same p)
relocated_step (some off) p q r rows next is all same =
    let size : q + length r - q ≡ length r = omega arith in
    (
      (moved_row-IsRecord r off is, all),
      rw (moved_entry r off p q is, length-moved_row r off is.header, size, same (p + length r))
          refl,
    )

relocated_lem :
    (plans : List Plan) (i q : ℕ) (rs : List Bytes)
    → All IsRecord rs
    → All IsRecord (moved_rows plans i rs)
      × ((p : ℕ) → entries_from p (moved_rows plans i rs) ≡ relocated plans i p (entries_from q rs))
relocated_lem plans i q [] all = (tt, λ p. refl)
relocated_lem plans i q (r ∷ rs) (is, all) =
    let (alls, same) = relocated_lem plans (suc i) (q + length r) rs all in
    let step = λ (p : ℕ).
      relocated_step (place i plans none) p q r (moved_rows plans (suc i) rs)
        (λ p'. relocated plans (suc i) p' (entries_from (q + length r) rs)) is alls same in
    ((step 0).0, λ p. (step p).1)

length-entries_from : (p : ℕ) (rs : List Bytes) → length (entries_from p rs) ≡ length rs
length-entries_from p [] = refl
length-entries_from p (r ∷ rs) = ap suc (length-entries_from (p + length r) rs)

-- The bytes of an entry's record, and those of the records that the plans put somewhere: the 4 bytes
-- of the offset are new, and all the others are the old ones.
abbrev pub row_of : Bytes → CdEntry → Bytes
row_of cd e = take (e.range.end - e.range.start) (drop e.range.start cd)

abbrev pub row_onto : Option ℕ → Bytes → Bytes → Bytes
row_onto none r rest = rest
row_onto (some off) r rest = (take 42 r ++ (le_bytes 4 off ++ drop 46 r)) ++ rest

abbrev pub relocated_rows : Bytes → List Plan → ℕ → List CdEntry → Bytes
relocated_rows cd plans i [] = []
relocated_rows cd plans i (e ∷ es) =
    row_onto (place i plans none) (row_of cd e) (relocated_rows cd plans (suc i) es)

onto-concat :
    (o : Option ℕ) (r : Bytes) (rows : List Bytes)
    → row_onto o r (concat rows) ≡ concat (moved_onto o r rows)
onto-concat none r rows = refl
onto-concat (some off) r rows = refl

relocated_rows_lem :
    (cd : Bytes) (plans : List Plan) (i p : ℕ) (rs : List Bytes)
    → drop p cd ≡ concat rs
    → relocated_rows cd plans i (entries_from p rs) ≡ concat (moved_rows plans i rs)
relocated_rows_lem cd plans i p [] at = refl
relocated_rows_lem cd plans i p (r ∷ rs) at =
    let size : p + length r - p ≡ length r = omega arith in
    let next : drop (p + length r) cd ≡ concat rs =
      sym (drop-drop p (length r) (p + length r) cd refl)
      ∙ ap (drop (length r)) at
      ∙ drop-append_self r (concat rs) (length r) refl in
    rw
      (
        size,
        at,
        take-append_self r (concat rs) (length r) refl,
        relocated_rows_lem cd plans (suc i) (p + length r) rs next,
      )
      (onto-concat (place i plans none) r (moved_rows plans (suc i) rs))

-- The directory that is returned with the plans and its count, and what a parse of it finds.
abbrev pub ReadsBack : Bytes → List CdEntry → List Plan → Type 0
ReadsBack cd entries plans =
    (new_directory cd entries plans
      ≡ ok (relocated_rows cd plans 0 entries, length (relocated plans 0 0 entries)))
    × (parse_cd_entries (relocated_rows cd plans 0 entries) ≡ ok (relocated plans 0 0 entries))

places-replicate :
    (plans : List Plan) (n k : ℕ)
    → k < n
    → get_elem? {A = Option ℕ} (replicate n none) k ≡ some none
places-replicate plans zero k h = absurd (omega arith)
places-replicate plans (suc n) zero h = refl
places-replicate plans (suc n) (suc k) h = places-replicate plans n k (omega arith)

new_directory_rows :
    (plans : List Plan) (rs : List Bytes)
    → All IsRecord rs
    → All (Placed (length (entries_from 0 rs))) plans
    → ReadsBack (concat rs) (entries_from 0 rs) plans
unfolding new_directory
new_directory_rows plans rs all placed =
    let n = length (entries_from 0 rs) in
    let (offs, run, size, places) =
      new_offsets_lem plans (replicate n none) n (length-replicate {A = Option ℕ} n none) placed in
    let rows = moved_rows plans 0 rs in
    let (alls, es) = relocated_lem plans 0 0 rs all in
    let found =
      parse_cd_entries-Tiles (concat rows) (entries_from 0 rows) (rows-Tiles 0 rows alls) in
    let at : AtPlaces plans 0 offs = λ k h.
      let zero_less : 0 + k ≡ k = omega arith in
      rw zero_less (places k none (places-replicate plans n k (omega (arith, size)))) in
    let count : 0 + length rows ≡ length (relocated plans 0 0 (entries_from 0 rs)) =
      omega (arith, sym (length-entries_from 0 rows) ∙ ap length (es 0)) in
    let rows_are = relocated_rows_lem (concat rs) plans 0 0 rs refl in
    (
      rw run (
          new_records_lem (concat rs) plans rs 0 0 offs [] 0 all (omega arith) refl
            (size ∙ length-entries_from 0 rs) at
          ∙ rw (count, rows_are) refl),
      rw rows_are found ∙ ap ok (es 0),
    )

pub new_directory-ReadsBack :
    (cd : Bytes) (entries : List CdEntry) (plans : List Plan)
    → parse_cd_entries cd ≡ ok entries
    → All (Placed (length entries)) plans
    → ReadsBack cd entries plans
new_directory-ReadsBack cd entries plans parsed placed =
    let (rs, all, whole, same) = Tiles-rows (rw parsed at (parse_cd_entries_sound cd)) in
    rw (whole, same) (new_directory_rows plans rs all (rw same at placed))
