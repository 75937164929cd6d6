-- ===== src/Zip/Filter.antt =====
-- src/zip.rs: the Central Directory with the dropped entries taken out. `removed` holds the names'
-- bytes, which the source turns to text for its report.
pub mod Rows
pub mod Kept
pub mod Survivors
pub mod Again
use fastsigner.Base.{
  ℕ, suc, ◌+◌, ◌-◌, Bool, true, false, ◌&&◌, List, [], ◌∷◌, ◌++◌, Bytes, length, take, set, ltb,
  if◌then◌else◌, index, Outcome, ok, panic, ◌>>=◌, slice,
}
use fastsigner.Zip.Directory.{Range, CdEntry, parse_cd_entries}
use fastsigner.Zip.Policy.{EntryPolicy, output, skip, gap, entry_policy, entry_name}

abbrev pub is_output : EntryPolicy → Bool
is_output output = true
is_output skip = false
is_output gap = false

-- Every record of a Central Directory, with its policy.
unfoldable pub policies_of : Bytes → List CdEntry → Outcome (List EntryPolicy)
policies_of cd [] = ok []
policies_of cd (e ∷ es) = do
  name ← entry_name e cd
  rest ← policies_of cd es
  ok (entry_policy name ∷ rest)

unfoldable pub classify : Bytes → Outcome (List CdEntry × List EntryPolicy)
classify cd = do all ← parse_cd_entries cd; policies ← policies_of cd all; ok (all, policies)

pub data Cow : Type 0 where
  borrowed owned : Bytes → Cow

abbrev pub cow_bytes : Cow → Bytes
cow_bytes (borrowed b) = b
cow_bytes (owned b) = b

pub record FilteredCd : Type 0 where
  pub bytes : Cow
  pub kept : List CdEntry
  pub removed : List Bytes

-- The variables of the loop. `kept` is compacted in place.
pub record Filtering : Type 0 where
  pub kept : List CdEntry
  pub out : Bytes
  pub removed : List Bytes
  pub n : ℕ

unfoldable pub moved : CdEntry → ℕ → CdEntry
moved e shift = record e {
  range = record { start = e.range.start - shift; end = e.range.end - shift };
  name = record { start = e.name.start - shift; end = e.name.end - shift };
}

-- Round `i` of the loop.
unfoldable pub filter_step : Bytes → ℕ → EntryPolicy → Filtering → Outcome Filtering
filter_step cd i policy s = do
  e ← index s.kept i
  if is_output policy
      then (do
        let shift = e.range.start - length s.out
        part ← slice cd e.range.start e.range.end
        if ltb s.n (length s.kept)
            then ok (record s {
              kept = set s.kept s.n (moved e shift);
              out = s.out ++ part;
              n = suc s.n;
            })
            else panic)
      else (do name ← entry_name e cd; ok (record s { removed = s.removed ++ name ∷ [] }))

unfoldable pub filter_loop : Bytes → ℕ → List EntryPolicy → Filtering → Outcome Filtering
filter_loop cd i [] s = ok s
filter_loop cd i (policy ∷ policies) s = do
  s' ← filter_step cd i policy s
  filter_loop cd (suc i) policies s'

unfoldable pub all_output : List EntryPolicy → Bool
all_output [] = true
all_output (p ∷ ps) = is_output p && all_output ps

unfoldable pub filter_cd : Bytes → Outcome FilteredCd
filter_cd cd = do
  (kept, policies) ← classify cd
  if all_output policies
      then ok (record { bytes = borrowed cd; kept = kept; removed = [] })
      else (do
        s ← filter_loop cd 0 policies (record { kept = kept; out = []; removed = []; n = 0 })
        ok (record { bytes = owned s.out; kept = take s.n s.kept; removed = s.removed }))
