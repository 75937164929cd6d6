-- ===== src/Align/Window.antt =====
-- src/align.rs: `HeaderReader`, which reads local headers through a window on the file.
pub mod Reads
use fastsigner.Base.{
  ℕ, zero, suc, ◌+◌, ◌-◌, ◌*◌, ◌/◌, ◌%◌, ◌^◌, ◌≤◌, ◌<◌, ◌≡◌, refl, sym, ap, subst, ◌∙◌, ◌⊎◌, inl,
  inr, Bool, true, false, Option, some, none, List, [], ◌∷◌, ◌++◌, map, Bytes, length, take, drop,
  replicate, All, get_elem?, Outcome, ok, err, Ensures, arith, codes, le_bytes, le_value, word_le,
  slice, put, index, strip_prefix, starts_with, ends_with, contains, bytes_eq, ◌>>=◌, ◌>>◌,
  if◌then◌else◌, fail_if, ok_or, ltb, leb, ◌==◌, not, ◌&&◌, ◌||◌, panic, out_of_fuel, min,
}
use fastsigner.Base.{header_overruns, no_local_header}
use fastsigner.Zip.Eocd.{u16le}
use fastsigner.Zip.Sections.{read_exact_at}
use fastsigner.Align.Order.{lfh_len}
use fastsigner.Align.Check.{lfh_sig}

abbrev pub window_size : ℕ
window_size = 262144

-- `input` is an argument of the operations.
pub record HeaderReader : Type 0 where
  pub entries_end : ℕ
  pub window : Bytes
  pub win_off : ℕ
  pub win_len : ℕ

-- `(self.entries_end - off).min(WINDOW_SIZE)`, on 64 bits.
abbrev pub room : ℕ → ℕ → ℕ
room entries_end off = min ((entries_end + 2 ^ 64 - off) % 2 ^ 64) window_size

-- The window is moved to `off`.
unfoldable pub refill : Bytes → HeaderReader → ℕ → ℕ → Outcome (ℕ × HeaderReader)
refill file w off need = do
  let n = room w.entries_end off
  fail_if (ltb n need) (header_overruns off)
  b ← read_exact_at file n off
  window ← put w.window 0 b
  ok (0, record { entries_end = w.entries_end; window = window; win_off = off; win_len = n })

-- Where `off` is in the window, which is moved if `need` bytes from there are not in it.
unfoldable pub ensure : Bytes → HeaderReader → ℕ → ℕ → Outcome (ℕ × HeaderReader)
ensure file w off need =
    if ltb off w.win_off || ltb (w.win_off + w.win_len) (off + need)
    then refill file w off need
    else ok (off - w.win_off, w)

-- 30 bytes, the name and the extra fields.
unfoldable pub prefix_len : Bytes → Outcome ℕ
prefix_len h = do nl ← u16le h 26; el ← u16le h 28; ok (lfh_len + nl + el)

unfoldable pub prefix : Bytes → HeaderReader → ℕ → Outcome (Bytes × HeaderReader)
prefix file w off = do
  (rel, w) ← ensure file w off lfh_len
  h ← slice w.window rel (rel + lfh_len)
  sig ← slice h 0 4
  fail_if (not (bytes_eq sig lfh_sig)) (no_local_header off)
  need ← prefix_len h
  (rel, w) ← ensure file w off need
  p ← slice w.window rel (rel + need)
  ok (p, w)
