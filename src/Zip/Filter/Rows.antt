-- ===== src/Zip/Filter/Rows.antt =====
-- A Central Directory as the list of its records' bytes.
use fastsigner.Base.{ℕ, ◌+◌, ◌≡◌, refl, List, [], ◌∷◌, ◌++◌, Bytes, length, All}
use fastsigner.Zip.Directory.{CdEntry}
use fastsigner.Zip.Directory.Grammar.{IsRecord, entry_of, Tiles, nil, cons}

abbrev pub concat : List Bytes → Bytes
concat [] = []
concat (r ∷ rs) = r ++ concat rs

-- The entries of records that stand one after the other from offset `p` on.
abbrev pub entries_from : ℕ → List Bytes → List CdEntry
entries_from p [] = []
entries_from p (r ∷ rs) = entry_of p r ∷ entries_from (p + length r) rs

pub Tiles-rows :
    {p : ℕ} {l : Bytes} {es : List CdEntry}
    → Tiles p l es
    → (rs : List Bytes) × All IsRecord rs × (l ≡ concat rs) × (es ≡ entries_from p rs)
Tiles-rows nil = ([], tt, refl, refl)
Tiles-rows (cons r rest at is same t) =
    let (rs, all, e, f) = Tiles-rows t in (r ∷ rs, (is, all), cc, cc)

pub rows-Tiles :
    (p : ℕ) (rs : List Bytes) → All IsRecord rs → Tiles p (concat rs) (entries_from p rs)
rows-Tiles p [] all = nil
rows-Tiles p (r ∷ rs) (is, all) = cons r (concat rs) refl is refl (rows-Tiles (p + length r) rs all)
