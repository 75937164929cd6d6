-- ===== src/Zip/Filter/Again.antt =====
-- `filter_cd` on any byte string, and the second pass over what it returns.
use fastsigner.Base.{
  ◌≡◌, refl, true, List, [], ◌∷◌, map, Bytes, All, Bool-cases, inl, inr, Outcome, ok, err, panic,
  out_of_fuel, Ensures,
}
use fastsigner.Zip.Directory.{CdEntry, parse_cd_entries}
use fastsigner.Zip.Directory.Grammar.{
  IsRecord, Tiles, parse_cd_entries_sound, parse_cd_entries-Tiles,
}
use fastsigner.Zip.Filter.{
  is_output, borrowed, cow_bytes, FilteredCd, all_output, filter_cd, classify,
}
use fastsigner.Base.{Ensures-map}
use fastsigner.Zip.Filter.Kept.{LeftOut, entry_policy-LeftOut}
use fastsigner.Zip.Filter.Rows.{concat, entries_from, Tiles-rows, rows-Tiles}
use fastsigner.Zip.Filter.Survivors.{
  record_name, record_policy, survivors, dropped, classify-rows, filter_cd_rows,
}

-- The records of a row that are kept, and those that are left out for their names, in order.
pub data Splits : List Bytes → List Bytes → List Bytes → Type 0 where
  no_records : Splits [] [] []
  keep_row :
      {rs ks ds : List Bytes} (r : Bytes)
      → ¬ LeftOut (record_name r)
      → Splits rs ks ds
      → Splits (r ∷ rs) (r ∷ ks) ds
  leave_row :
      {rs ks ds : List Bytes} (r : Bytes)
      → LeftOut (record_name r)
      → Splits rs ks ds
      → Splits (r ∷ rs) ks (r ∷ ds)

survivors-Splits : (rs : List Bytes) → Splits rs (survivors rs) (dropped rs)
survivors-Splits [] = no_records
survivors-Splits (r ∷ rs) = elim (entry_policy-LeftOut (record_name r)) [
  | inl (drops, out) ↦ rw drops (leave_row r out (survivors-Splits rs))
  | inr (stays, inside) ↦ rw stays (keep_row r inside (survivors-Splits rs))
]

-- What `filter_cd` makes of a directory that is a row of the records `rs`.
abbrev pub Filtered : Bytes → FilteredCd → Type 0
Filtered cd f =
    (rs : List Bytes) × (ks : List Bytes) × (ds : List Bytes) × All IsRecord rs
    × (cd ≡ concat rs)
    × Splits rs ks ds
    × (cow_bytes f.bytes ≡ concat ks)
    × (f.kept ≡ entries_from 0 ks)
    × (f.removed ≡ map record_name ds)

-- The same by the policies of the code.
abbrev BySurvivors : Bytes → FilteredCd → Type 0
BySurvivors cd f =
    (rs : List Bytes) × All IsRecord rs
    × (cd ≡ concat rs)
    × (cow_bytes f.bytes ≡ concat (survivors rs))
    × (f.kept ≡ entries_from 0 (survivors rs))
    × (f.removed ≡ map record_name (dropped rs))

filter_cd_on :
    (cd : Bytes) (r : Outcome (List CdEntry))
    → parse_cd_entries cd ≡ r
    → Ensures (Tiles 0 cd) r
    → Ensures (BySurvivors cd) (filter_cd cd)
filter_cd_on cd (ok es) e t =
    let (rs, all, whole, same) = Tiles-rows t in
    let (f, run, b, k, d) = filter_cd_rows rs all in rw (whole, run) (rs, all, refl, b, k, d)
filter_cd_on cd (err x) e t = unfold filter_cd classify in rw e tt
filter_cd_on cd panic e t = absurd t
filter_cd_on cd out_of_fuel e t = absurd t

filter_cd-BySurvivors : (cd : Bytes) → Ensures (BySurvivors cd) (filter_cd cd)
filter_cd-BySurvivors cd = filter_cd_on cd (parse_cd_entries cd) refl (parse_cd_entries_sound cd)

-- On every byte string `filter_cd` ends with no panic, and what it accepts is a row of whole
-- records, of which it leaves out those whose name is "stamp-cert-sha256", "pinlist.meta", one that
-- ends in "/", or that of a v1 signature file: "META-INF/" and, with no other "/" and in either case,
-- "manifest.mf", a name that ends in ".sf", ".rsa", ".dsa" or ".ec", or one that starts with "sig-".
-- It keeps the others in order: the bytes are theirs, the entries are those of the new directory,
-- and the names of the ones left out are reported.
pub filter_cd_exact : (cd : Bytes) → Ensures (Filtered cd) (filter_cd cd)
filter_cd_exact cd =
    Ensures-map (filter_cd cd)
      (λ f (rs, all, whole, b, k, d).
        (rs, survivors rs, dropped rs, all, whole, survivors-Splits rs, b, k, d))
      (filter_cd-BySurvivors cd)

survivors-IsRecord : (rs : List Bytes) → All IsRecord rs → All IsRecord (survivors rs)
survivors-IsRecord [] all = tt
survivors-IsRecord (r ∷ rs) (is, all) = elim (Bool-cases (is_output (record_policy r))) [
  | inl keeps ↦ rw keeps (is, survivors-IsRecord rs all)
  | inr drops ↦ rw drops (survivors-IsRecord rs all)
]

survivors-all_output : (rs : List Bytes) → all_output (map record_policy (survivors rs)) ≡ true
unfolding all_output
survivors-all_output [] = refl
survivors-all_output (r ∷ rs) = elim (Bool-cases (is_output (record_policy r))) [
  | inl keeps ↦ rw keeps (rw keeps (survivors-all_output rs))
  | inr drops ↦ rw drops (survivors-all_output rs)
]

-- The entries that `filter_cd` keeps are those that a fresh parse of the filtered directory
-- returns, and filtering that directory again keeps it whole and drops nothing.
pub filter_cd_again :
    (cd : Bytes) (f : FilteredCd)
    → filter_cd cd ≡ ok f
    → (parse_cd_entries (cow_bytes f.bytes) ≡ ok f.kept)
      × (filter_cd (cow_bytes f.bytes)
          ≡ ok (record { bytes = borrowed (cow_bytes f.bytes); kept = f.kept; removed = [] }))
filter_cd_again cd f e =
    let (rs, all, whole, b, k, d) = rw e at (filter_cd-BySurvivors cd) in
    let ss = survivors rs in
    let all' = survivors-IsRecord rs all in
    rw (b, k)
      (
        parse_cd_entries-Tiles (concat ss) (entries_from 0 ss) (rows-Tiles 0 ss all'),
        unfold filter_cd in rw (classify-rows ss all', survivors-all_output rs),
      )
