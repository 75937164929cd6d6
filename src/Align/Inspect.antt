-- ===== src/Align/Inspect.antt =====
-- src/align.rs: `LfhInspector`, which picks the local headers out of the chunks of a digest. An index of
-- `entries` travels with the entry that it names, whose offset is the one of `offsets`.
pub mod Reference
pub mod Collected
pub mod Run
pub mod Seen
pub mod Complete
pub mod Total
use fastsigner.Base.{
  ℕ, suc, ◌+◌, ◌-◌, ◌%◌, ◌^◌, Bool, true, false, Option, some, none, List, [], ◌∷◌, ◌++◌, Bytes,
  length, take, drop, replicate, Outcome, ok, err, slice, index, bytes_eq, ◌>>=◌, if◌then◌else◌,
  ltb, leb, ◌==◌, not, panic,
}
use fastsigner.Base.{set, Error, header_not_seen, no_local_header}
use fastsigner.Zip.Eocd.{u16le}
use fastsigner.Zip.Directory.{CdEntry}
use fastsigner.Align.Order.{lfh_len, file_order}
use fastsigner.Align.Check.{lfh_sig, LfhLens, read_lfh_lens}

pub record LfhInspector : Type 0 where
  pub order : List (ℕ × CdEntry)
  pub found : List (ℕ × LfhLens)
  pub straddlers : List ℕ
  pub error : Option Error

-- `LfhInspector::new`.
unfoldable pub inspector : List CdEntry → ℕ → Outcome LfhInspector
inspector entries entries_end = do
  order ← file_order entries entries_end
  ok (record { order = order; found = []; straddlers = []; error = none })

-- `partition_point(|&o| o < limit)`, on offsets that rise.
abbrev pub partition_point : ℕ → List (ℕ × CdEntry) → ℕ
partition_point limit [] = 0
partition_point limit (x ∷ xs) = if ltb x.1.lfh_off limit then suc (partition_point limit xs) else 0

-- What a round of the loop comes to: an error ends it.
pub data Looked : Type 0 where
  bad_header : (offset : ℕ) → Looked
  header : (i : ℕ) → (lens : LfhLens) → Looked
  straddles : (i : ℕ) → Looked

-- The body of the loop, on 64 bits.
unfoldable pub look : ℕ → Bytes → ℕ × CdEntry → Outcome Looked
look file_off buf (i, e) =
    let rel = (e.lfh_off + 2 ^ 64 - file_off) % 2 ^ 64 in
    if leb (rel + lfh_len) (length buf)
    then (do
      h ← slice buf rel (rel + lfh_len)
      sig ← slice h 0 4
      if not (bytes_eq sig lfh_sig)
          then ok (bad_header e.lfh_off)
          else (do nl ← u16le h 26; el ← u16le h 28; ok (header i (nl, el))))
    else ok (straddles i)

-- The rounds of the loop, up to a bad header.
abbrev pub is_bad : Looked → Bool
is_bad (bad_header off) = true
is_bad (header i lens) = false
is_bad (straddles i) = false

unfoldable pub look_loop : ℕ → Bytes → List (ℕ × CdEntry) → Outcome (List Looked)
look_loop file_off buf [] = ok []
look_loop file_off buf (x ∷ xs) =
    let rest = look_loop file_off buf xs in
    look file_off buf x >>= λ l. if is_bad l then ok (l ∷ []) else (rest >>= λ ls. ok (l ∷ ls))

-- What the rounds do to the state; a bad header drops what the chunk had before it.
unfoldable pub gather : LfhInspector → List Looked → List (ℕ × LfhLens) → List ℕ → LfhInspector
gather s [] found straddlers = record s {
  found = s.found ++ found;
  straddlers = s.straddlers ++ straddlers;
}
gather s (bad_header off ∷ ls) found straddlers = record s { error = some (no_local_header off) }
gather s (header i lens ∷ ls) found straddlers = gather s ls (found ++ (i, lens) ∷ []) straddlers
gather s (straddles i ∷ ls) found straddlers = gather s ls found (straddlers ++ i ∷ [])

unfoldable pub inspect : LfhInspector → ℕ → Bytes → Outcome LfhInspector
inspect s file_off buf =
    let lo = partition_point file_off s.order in
    let hi = partition_point (file_off + length buf) s.order in
    if lo == hi
    then ok s
    else (do ls ← look_loop file_off buf (take (hi - lo) (drop lo s.order)); ok (gather s ls [] []))

-- `lens[i] = Some(l)`.
unfoldable pub set_lens : List (Option LfhLens) → ℕ → LfhLens → Outcome (List (Option LfhLens))
set_lens lens i l = if ltb i (length lens) then ok (set lens i (some l)) else panic

unfoldable pub put_found :
    List (ℕ × LfhLens) → List (Option LfhLens) → Outcome (List (Option LfhLens))
put_found [] lens = ok lens
put_found ((i, l) ∷ found) lens = do lens ← set_lens lens i l; put_found found lens

unfoldable pub put_straddlers :
    Bytes → List CdEntry → List ℕ → List (Option LfhLens) → Outcome (List (Option LfhLens))
put_straddlers file entries [] lens = ok lens
put_straddlers file entries (i ∷ straddlers) lens = do
  e ← index entries i
  l ← read_lfh_lens file e.lfh_off
  lens ← set_lens lens i l
  put_straddlers file entries straddlers lens

-- The `map` and `collect` at the end; the first index is `i`.
unfoldable pub collect_lens : List CdEntry → ℕ → List (Option LfhLens) → Outcome (List LfhLens)
collect_lens entries i [] = ok []
collect_lens entries i (some l ∷ lens) = do rest ← collect_lens entries (suc i) lens; ok (l ∷ rest)
collect_lens entries i (none ∷ lens) = do e ← index entries i; err (header_not_seen e.lfh_off)

-- `finish`, of the error if there is one, what was found and the straddlers.
unfoldable pub finish_unless :
    Option Error → List (ℕ × LfhLens) → List ℕ → Bytes → List CdEntry → Outcome (List LfhLens)
finish_unless (some e) found straddlers file entries = err e
finish_unless none found straddlers file entries = do
  lens ← put_found found (replicate (length entries) none)
  lens ← put_straddlers file entries straddlers lens
  collect_lens entries 0 lens

abbrev pub finish : LfhInspector → Bytes → List CdEntry → Outcome (List LfhLens)
finish s file entries = finish_unless s.error s.found s.straddlers file entries
