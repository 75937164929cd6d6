-- ===== src/Align/Check.antt =====
-- src/align.rs: local headers read from the file, the early test on a sample of them, and `check`.
-- Reports hold the names' bytes, which the source turns to text.
pub mod Finds
use fastsigner.Base.{
  ℕ, zero, suc, ◌+◌, ◌%◌, Bool, true, false, not, ◌&&◌, List, [], ◌∷◌, ◌++◌, Bytes, ltb, leb, ◌==◌,
  if◌then◌else◌, bytes_eq, Outcome, ok, ◌>>=◌, ◌>>◌, err, fail_if, slice, index, no_local_header,
  header_outside, overruns_next,
}
use fastsigner.Zip.Eocd.{u16le}
use fastsigner.Zip.Sections.{read_exact_at}
use fastsigner.Zip.Directory.{CdEntry}
use fastsigner.Zip.Policy.{entry_name, required_alignment}
use fastsigner.Align.Order.{lfh_len, file_order}

abbrev pub lfh_sig : Bytes
lfh_sig = 0x50 ∷ 0x4b ∷ 0x03 ∷ 0x04 ∷ []

pub record Policy : Type 0 where
  pub lib_page_size : ℕ

-- (name_len, extra_len)
abbrev pub LfhLens : Type 0
LfhLens = ℕ × ℕ

unfoldable pub read_lfh_lens : Bytes → ℕ → Outcome LfhLens
read_lfh_lens file off = do
  h ← read_exact_at file lfh_len off
  sig ← slice h 0 4
  fail_if (not (bytes_eq sig lfh_sig)) (no_local_header off)
  nl ← u16le h 26
  el ← u16le h 28
  ok (nl, el)

-- The loop over the entries that have not been looked at; `sample` is never 0 in the source's call.
unfoldable pub quick_loop : Bytes → Bytes → ℕ → Policy → ℕ → ℕ → List CdEntry → Outcome Bool
quick_loop file cd entries_end policy sample seen [] = ok false
quick_loop file cd entries_end policy sample seen (e ∷ es) = do
  req ← required_alignment cd e policy.lib_page_size
  let skip = quick_loop file cd entries_end policy sample seen es
  let next = quick_loop file cd entries_end policy sample (seen + 1) es
  if leb req 1 then skip else (do
    fail_if (ltb entries_end (e.lfh_off + lfh_len)) (header_outside e.lfh_off)
    (nl, el) ← read_lfh_lens file e.lfh_off
    let data_off = e.lfh_off + (lfh_len + nl + el)
    if not (data_off % req == 0) then ok true else if leb sample (seen + 1) then ok false else next)

unfoldable pub quick_misaligned : Bytes → Bytes → List CdEntry → ℕ → Policy → ℕ → Outcome Bool
quick_misaligned file cd entries entries_end policy sample =
    quick_loop file cd entries_end policy sample 0 entries

pub record Misaligned : Type 0 where
  pub name : Bytes
  pub data_off : ℕ
  pub required : ℕ

-- Where the header after this one begins, or the entries section ends.
abbrev pub limit_of : ℕ → List (ℕ × CdEntry) → ℕ
limit_of entries_end [] = entries_end
limit_of entries_end (x ∷ xs) = x.1.lfh_off

-- The body of the loop: what it adds to `bad`.
unfoldable pub check_entry :
    Bytes → List LfhLens → ℕ → Policy → ℕ → CdEntry → Outcome (List Misaligned)
check_entry cd lens limit policy i e = do
  (nl, el) ← index lens i
  let data_off = e.lfh_off + (lfh_len + nl + el)
  if ltb limit data_off then (do name ← entry_name e cd; err (overruns_next name)) else (do
    req ← required_alignment cd e policy.lib_page_size
    if ltb 1 req && not (data_off % req == 0)
        then (do
          name ← entry_name e cd
          ok (record { name = name; data_off = data_off; required = req } ∷ []))
        else ok [])

unfoldable pub check_loop :
    Bytes
    → List LfhLens
    → ℕ
    → Policy
    → List Misaligned
    → List (ℕ × CdEntry)
    → Outcome (List Misaligned)
check_loop cd lens entries_end policy bad [] = ok bad
check_loop cd lens entries_end policy bad ((i, e) ∷ order) = do
  found ← check_entry cd lens (limit_of entries_end order) policy i e
  check_loop cd lens entries_end policy (bad ++ found) order

unfoldable pub check : Bytes → List CdEntry → List LfhLens → ℕ → Policy → Outcome (List Misaligned)
check cd entries lens entries_end policy = do
  order ← file_order entries entries_end
  check_loop cd lens entries_end policy [] order
