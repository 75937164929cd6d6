-- ===== src/Zip/Policy.antt =====
-- src/zip.rs: what signing does with an entry, by its name, and the alignment that it needs.
pub mod Names
use Prim.Native.Nat.{bit_and}
use fastsigner.Base.{
  ℕ, ◌+◌, ◌-◌, Bool, true, false, not, ◌&&◌, ◌||◌, none, some, map, Bytes, codes, leb, ltb, ◌==◌,
  if◌then◌else◌, bytes_eq, strip_prefix, starts_with, ends_with, contains, Outcome, ok, ◌>>=◌,
  slice,
}
use fastsigner.Zip.Directory.{CdEntry}

unfoldable pub to_ascii_lowercase : ℕ → ℕ
to_ascii_lowercase b = if leb b'A' b && leb b b'Z' then b + 32 else b

-- The tests of `is_v1_signature_entry` on what follows "META-INF/".
unfoldable pub is_v1_signature_file : Bytes → Bool
unfolding to_ascii_lowercase
is_v1_signature_file rest =
    let lower = map to_ascii_lowercase rest in
    if contains rest b'/'
    then false
    else bytes_eq lower (codes "manifest.mf")
      || ends_with lower (codes ".sf")
      || ends_with lower (codes ".rsa")
      || ends_with lower (codes ".dsa")
      || ends_with lower (codes ".ec")
      || starts_with lower (codes "sig-")

unfoldable pub is_v1_signature_entry : Bytes → Bool
is_v1_signature_entry name = elim (strip_prefix (codes "META-INF/") name) [
  | none ↦ false
  | some rest ↦ is_v1_signature_file rest
]

pub data EntryPolicy : Type 0 where
  output skip gap : EntryPolicy

unfoldable pub entry_policy : Bytes → EntryPolicy
entry_policy name =
    if bytes_eq name (codes "stamp-cert-sha256") || bytes_eq name (codes "pinlist.meta")
    then gap
    else if ends_with name (codes "/") || is_v1_signature_entry name
    then skip
    else output

-- `CdEntry::name`
unfoldable pub entry_name : CdEntry → Bytes → Outcome Bytes
entry_name e cd = slice cd e.name.start e.name.end

unfoldable pub is_dir : CdEntry → Bytes → Outcome Bool
is_dir e cd = do name ← entry_name e cd; ok (ends_with name (codes "/"))

abbrev pub method_stored : ℕ
method_stored = 0

unfoldable pub is_stored : CdEntry → Bool
is_stored e = e.method == method_stored

abbrev pub flag_data_descriptor : ℕ
flag_data_descriptor = 8

unfoldable pub has_data_descriptor : CdEntry → Bool
has_data_descriptor e = not (bit_and e.flags flag_data_descriptor == 0)

unfoldable pub required_alignment : Bytes → CdEntry → ℕ → Outcome ℕ
required_alignment cd e lib_page_size = if not (is_stored e) then ok 1 else (do
  dir ← is_dir e cd
  if dir then ok 1 else (do
    name ← entry_name e cd
    ok (if ltb 4 lib_page_size && ends_with name (codes ".so") then lib_page_size else 4)))
