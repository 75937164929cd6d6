-- ===== src/Align/Plan.antt =====
-- src/align.rs: how `rewrite` plans the new entries section, and the Central Directory that it returns.
-- An index of `entries` travels with the entry that it names, as in `file_order`.
pub mod Headers
pub mod Tiles
pub mod Whole
pub mod Loop
pub mod Directory
pub mod Rewritten
pub mod Composed
use fastsigner.Base.{
  ℕ, ◌+◌, ◌-◌, Bool, true, false, Option, some, none, List, [], ◌∷◌, ◌++◌, Bytes, length, replicate,
  Outcome, ok, err, le_bytes, le_value, slice, put, index, ◌>>=◌, if◌then◌else◌, ltb, leb, ◌==◌,
  not, ◌&&◌, panic,
}
use fastsigner.Base.{set, overlaps_previous, extra_too_long, overruns_entries, max}
use fastsigner.Zip.Eocd.{u16le}
use fastsigner.Zip.Sections.{read_exact_at}
use fastsigner.Zip.Directory.{CdEntry}
use fastsigner.Zip.Policy.{
  EntryPolicy, output, skip, gap, entry_name, has_data_descriptor, required_alignment,
}
use fastsigner.Align.Order.{lfh_len, file_order}
use fastsigner.Align.Check.{Policy}
use fastsigner.Align.Extra.{declared_alignment, aligning_extra}
use fastsigner.Align.Window.{HeaderReader, window_size, prefix}

abbrev pub data_descriptor_sig : ℕ
data_descriptor_sig = 0x08074b50

-- `idx` is none for a gap that is copied as it is.
pub record Plan : Type 0 where
  pub idx : Option ℕ
  pub src_off : ℕ
  pub src_len : ℕ
  pub new_off : ℕ
  pub hdr : Bytes

abbrev pub out_len : Plan → ℕ
out_len p = length p.hdr + p.src_len

abbrev pub out_end : Plan → ℕ
out_end p = p.new_off + out_len p

-- The variables of the loop.
pub record Planning : Type 0 where
  pub plans : List Plan
  pub cursor : ℕ
  pub consumed : ℕ
  pub dropped : ℕ
  pub hdrs : HeaderReader

-- The gap in front of `off`, if there is one.
unfoldable pub with_gap : Planning → ℕ → Planning
with_gap s off =
    let len = off - s.consumed in
    let p : Plan = record {
      idx = none;
      src_off = s.consumed;
      src_len = len;
      new_off = s.cursor;
      hdr = [];
    } in
    if ltb s.consumed off
    then record s { plans = s.plans ++ p ∷ []; cursor = s.cursor + len }
    else s

-- `is_ok() && u32::from_le_bytes(sig) == DATA_DESCRIPTOR_SIG`.
unfoldable pub is_descriptor_sig : Outcome Bytes → Bool
is_descriptor_sig (ok sig) = le_value sig == data_descriptor_sig
is_descriptor_sig _ = false

-- The length of a data descriptor at `at`, with its signature or without.
unfoldable pub descriptor_len : Bytes → ℕ → CdEntry → ℕ → ℕ
descriptor_len file entries_end e at =
    if not (has_data_descriptor e)
    then 0
    else if leb (at + 4) entries_end && is_descriptor_sig (read_exact_at file 4 at)
    then 16
    else 12

-- `rule.max(declared_alignment(old_extra).unwrap_or(0))`.
abbrev pub align_of : ℕ → Option ℕ → ℕ
align_of rule none = max rule 0
align_of rule (some declared) = max rule declared

-- The name and what is in front of it, and then new extra fields.
unfoldable pub aligned_hdr : Bytes → CdEntry → Bytes → ℕ → Bytes → ℕ → ℕ → Outcome Bytes
aligned_hdr cd e front nl old_extra cursor rule = do
  declared ← declared_alignment old_extra
  extra ← aligning_extra old_extra (cursor + (lfh_len + nl)) (align_of rule declared)
  if ltb 65535 (length extra)
      then (do name ← entry_name e cd; err (extra_too_long name))
      else (do hdr ← put front 28 (le_bytes 2 (length extra)); ok (hdr ++ extra))

-- The header that is written.
unfoldable pub new_hdr : Bytes → CdEntry → Bytes → ℕ → ℕ → Outcome Bytes
new_hdr cd e p cursor rule = do
  nl ← u16le p 26
  old_extra ← slice p (lfh_len + nl) (length p)
  front ← slice p 0 (lfh_len + nl)
  if ltb 1 rule then aligned_hdr cd e front nl old_extra cursor rule else ok (front ++ old_extra)

-- The end of the loop's body, for an entry that is kept: its data is `src_len` bytes from `src_off` on.
unfoldable pub plan_output :
    Bytes → Policy → ℕ → CdEntry → Bytes → ℕ → ℕ → Planning → Outcome Planning
plan_output cd policy i e p src_off src_len s = do
  rule ← required_alignment cd e policy.lib_page_size
  hdr ← new_hdr cd e p s.cursor rule
  let plan : Plan = record {
    idx = some i;
    src_off = src_off;
    src_len = src_len;
    new_off = s.cursor;
    hdr = hdr;
  }
  ok (record s { plans = s.plans ++ plan ∷ []; cursor = s.cursor + (length hdr + src_len) })

-- `if policies[i] == EntryPolicy::Skip`, and what comes behind it.
unfoldable pub plan_kept :
    Bytes → Policy → EntryPolicy → ℕ → CdEntry → Bytes → ℕ → ℕ → Planning → Outcome Planning
plan_kept cd policy skip i e p src_off src_len s = ok (record s { dropped = s.dropped + 1 })
plan_kept cd policy _ i e p src_off src_len s = plan_output cd policy i e p src_off src_len s

-- The body of the loop behind the gap; the policy is not `gap`.
unfoldable pub plan_record :
    Bytes → Bytes → ℕ → Policy → EntryPolicy → ℕ → CdEntry → Planning → Outcome Planning
plan_record file cd entries_end policy what i e s = do
  (p, hdrs) ← prefix file s.hdrs e.lfh_off
  let src_off = e.lfh_off + length p
  let src_len = e.compressed_size + descriptor_len file entries_end e (src_off + e.compressed_size)
  if ltb entries_end (src_off + src_len)
      then (do name ← entry_name e cd; err (overruns_entries name))
      else plan_kept cd policy what i e p src_off src_len
          (record s { consumed = src_off + src_len; hdrs = hdrs })

abbrev pub is_gap : EntryPolicy → Bool
is_gap gap = true
is_gap output = false
is_gap skip = false

-- The body of the loop.
unfoldable pub plan_entry :
    Bytes → Bytes → List EntryPolicy → ℕ → Policy → ℕ × CdEntry → Planning → Outcome Planning
plan_entry file cd policies entries_end policy (i, e) s = do
  what ← index policies i
  if is_gap what
      then ok (record s { dropped = s.dropped + 1 })
      else if ltb e.lfh_off s.consumed
      then (do name ← entry_name e cd; err (overlaps_previous name))
      else plan_record file cd entries_end policy what i e (with_gap s e.lfh_off)

unfoldable pub plan_loop :
    Bytes → Bytes → List EntryPolicy → ℕ → Policy → List (ℕ × CdEntry) → Planning → Outcome Planning
plan_loop file cd policies entries_end policy [] s = ok s
plan_loop file cd policies entries_end policy (x ∷ order) s = do
  s ← plan_entry file cd policies entries_end policy x s
  plan_loop file cd policies entries_end policy order s

-- Before the first entry.
abbrev pub planning : ℕ → Planning
planning entries_end = record {
  plans = [];
  cursor = 0;
  consumed = 0;
  dropped = 0;
  hdrs = record {
    entries_end = entries_end;
    window = replicate window_size 0;
    win_off = 0;
    win_len = 0;
  };
}

-- The first part of `rewrite`: the plans, and the gap behind the last entry.
unfoldable pub plan_all :
    Bytes → Bytes → List CdEntry → List EntryPolicy → ℕ → Policy → Outcome Planning
plan_all file cd entries policies entries_end policy = do
  order ← file_order entries entries_end
  s ← plan_loop file cd policies entries_end policy order (planning entries_end)
  ok (with_gap s entries_end)

-- `new_off[i] = Some(p.new_off)`.
unfoldable pub set_offset : Option ℕ → ℕ → List (Option ℕ) → Outcome (List (Option ℕ))
set_offset none off offs = ok offs
set_offset (some i) off offs = if ltb i (length offs) then ok (set offs i (some off)) else panic

-- `new_off`: where the record of each entry is written.
unfoldable pub new_offsets : List Plan → List (Option ℕ) → Outcome (List (Option ℕ))
new_offsets [] offs = ok offs
new_offsets (p ∷ plans) offs = do offs ← set_offset p.idx p.new_off offs; new_offsets plans offs

-- The body of the loop over the entries; `off as u32` cuts off what does not fit.
unfoldable pub new_record : Bytes → CdEntry → Option ℕ → Bytes → ℕ → Outcome (Bytes × ℕ)
new_record cd e none new_cd count = ok (new_cd, count)
new_record cd e (some off) new_cd count = do
  r ← slice cd e.range.start e.range.end
  new_cd' ← put (new_cd ++ r) (length new_cd + 42) (le_bytes 4 off)
  ok (new_cd', count + 1)

-- The records of the entries that are written, each with its new offset.
unfoldable pub new_records :
    Bytes → List CdEntry → List (Option ℕ) → Bytes → ℕ → Outcome (Bytes × ℕ)
new_records cd [] offs new_cd count = ok (new_cd, count)
new_records cd (e ∷ entries) [] new_cd count = panic
new_records cd (e ∷ entries) (off ∷ offs) new_cd count = do
  (new_cd, count) ← new_record cd e off new_cd count
  new_records cd entries offs new_cd count

-- The end of `rewrite`.
unfoldable pub new_directory : Bytes → List CdEntry → List Plan → Outcome (Bytes × ℕ)
new_directory cd entries plans = do
  offs ← new_offsets plans (replicate (length entries) none)
  new_records cd entries offs [] 0
