-- ===== src/Zip/Directory.antt =====
-- src/zip.rs: the records of a Central Directory.
pub mod Grammar
use fastsigner.Base.{
  ℕ, zero, suc, ◌+◌, not, ◌||◌, Bool, List, [], ◌∷◌, Bytes, length, ltb, if◌then◌else◌, bytes_eq,
  Outcome, ok, out_of_fuel, ◌>>=◌, ◌>>◌, fail_if, slice,
}
use fastsigner.Base.{malformed_cd_entry, overrunning_cd_entry}
use fastsigner.Zip.Eocd.{u16le, u32le}

abbrev pub cd_entry_sig : Bytes
cd_entry_sig = 0x50 ∷ 0x4b ∷ 0x01 ∷ 0x02 ∷ []

pub record Range : Type 0 where
  pub start : ℕ
  pub end : ℕ

pub record CdEntry : Type 0 where
  pub range : Range
  pub name : Range
  pub lfh_off : ℕ
  pub method : ℕ
  pub flags : ℕ
  pub compressed_size : ℕ

-- The body of the loop, at offset `p`. (`record` is a keyword: the field is `range` here.)
unfoldable pub read_cd_entry : Bytes → ℕ → Outcome CdEntry
read_cd_entry cd p = do
  fail_if (ltb (length cd) (p + 46)) (malformed_cd_entry p)
  sig ← slice cd p (p + 4)
  fail_if (not (bytes_eq sig cd_entry_sig)) (malformed_cd_entry p)
  name_len ← u16le cd (p + 28)
  extra_len ← u16le cd (p + 30)
  comment_len ← u16le cd (p + 32)
  let total = 46 + name_len + extra_len + comment_len
  fail_if (ltb (length cd) (p + total)) (overrunning_cd_entry p)
  lfh_off ← u32le cd (p + 42)
  method ← u16le cd (p + 10)
  flags ← u16le cd (p + 8)
  compressed_size ← u32le cd (p + 20)
  ok (record {
    range = record { start = p; end = p + total };
    name = record { start = p + 46; end = p + 46 + name_len };
    lfh_off = lfh_off;
    method = method;
    flags = flags;
    compressed_size = compressed_size;
  })

-- `while p < cd.len()`
unfoldable pub parse_cd_loop : ℕ → Bytes → ℕ → Outcome (List CdEntry)
parse_cd_loop zero cd p = if ltb p (length cd) then out_of_fuel else ok []
parse_cd_loop (suc fuel) cd p =
    let rest = (do e ← read_cd_entry cd p; es ← parse_cd_loop fuel cd e.range.end; ok (e ∷ es)) in
    if ltb p (length cd) then rest else ok []

-- Each record takes a byte at least, so `cd.len()` rounds are enough.
unfoldable pub parse_cd_entries : Bytes → Outcome (List CdEntry)
parse_cd_entries cd = parse_cd_loop (length cd) cd 0
