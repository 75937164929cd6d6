-- ===== src/Align/Order.antt =====
-- src/align.rs: `file_order`, the entries sorted by the offset of their local headers. An index
-- of `entries` travels with the entry that it names.
pub mod Sorted
pub mod Indexed
use fastsigner.Base.{
  ℕ, suc, ◌+◌, Option, none, some, List, [], ◌∷◌, ltb, leb, ◌==◌, if◌then◌else◌, Outcome, ok, ◌>>=◌,
  ◌>>◌, fail_if, header_outside, shared_header, Bool, false,
}
use fastsigner.Zip.Directory.{CdEntry}

abbrev pub lfh_len : ℕ
lfh_len = 30

-- `(0..entries.len())`, each index with its entry.
unfoldable pub enumerate : ℕ → List CdEntry → List (ℕ × CdEntry)
enumerate i [] = []
enumerate i (e ∷ es) = (i, e) ∷ enumerate (suc i) es

-- The stable sort by `lfh_off`.
unfoldable pub insert_by_off : ℕ × CdEntry → List (ℕ × CdEntry) → List (ℕ × CdEntry)
insert_by_off x [] = x ∷ []
insert_by_off x (y ∷ ys) =
    if leb x.1.lfh_off y.1.lfh_off then x ∷ y ∷ ys else y ∷ insert_by_off x ys

unfoldable pub sort_by_off : List (ℕ × CdEntry) → List (ℕ × CdEntry)
sort_by_off [] = []
sort_by_off (x ∷ xs) = insert_by_off x (sort_by_off xs)

abbrev pub is_same : Option ℕ → ℕ → Bool
is_same none off = false
is_same (some o) off = o == off

-- The loop over the order; `prev` is the offset of the entry before, if there is one.
unfoldable pub check_order : ℕ → Option ℕ → List (ℕ × CdEntry) → Outcome (Unit {0})
check_order entries_end prev [] = ok tt
check_order entries_end prev ((i, e) ∷ order) = do
  fail_if (ltb entries_end (e.lfh_off + lfh_len)) (header_outside e.lfh_off)
  fail_if (is_same prev e.lfh_off) (shared_header e.lfh_off)
  check_order entries_end (some e.lfh_off) order

unfoldable pub file_order : List CdEntry → ℕ → Outcome (List (ℕ × CdEntry))
file_order entries entries_end = do
  let order = sort_by_off (enumerate 0 entries)
  check_order entries_end none order
  ok order
