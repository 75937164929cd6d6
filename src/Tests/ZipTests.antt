-- ===== src/Tests/ZipTests.antt =====
-- A directory of two entries, one of them a v1 signature, and the archive of one.
use fastsigner.Base.{
  ℕ, ◌+◌, ◌≡◌, refl, subst, Option, List, [], ◌∷◌, ◌++◌, map, Bytes, length, replicate, ok, Ensures,
  arith, codes, le_value, word_le, slice, put, index, strip_prefix, starts_with, ends_with,
  contains, bytes_eq,
}
use mathlib.Core.List.{Perm}
use fastsigner.Zip.Eocd.{find_eocd}
use fastsigner.Zip.Eocd.Find.{Finds, find_eocd_exact}
use fastsigner.Zip.Sections.{parse}
use fastsigner.Zip.Sections.Found.{IsSections, parse_sound}
use fastsigner.Zip.Directory.{CdEntry, read_cd_entry, parse_cd_loop, parse_cd_entries}
use fastsigner.Zip.Directory.Grammar.{Tiles, parse_cd_entries_sound, parse_cd_entries-Tiles}
use fastsigner.Zip.Policy.{
  to_ascii_lowercase, is_v1_signature_file, is_v1_signature_entry, entry_policy, entry_name,
  required_alignment, is_dir, is_stored,
}
use fastsigner.Zip.Filter.{
  FilteredCd, owned, cow_bytes, policies_of, classify, moved, filter_step, filter_loop, all_output,
  filter_cd, borrowed,
}
use fastsigner.Zip.Filter.Again.{Filtered, filter_cd_exact, filter_cd_again}
use fastsigner.Align.Order.{enumerate, insert_by_off, sort_by_off, check_order, file_order}
use fastsigner.Align.Order.Sorted.{Rises, Decides, file_order_exact}
use fastsigner.Align.Check.{Policy, Misaligned, check_entry, check_loop, check}
use fastsigner.Align.Check.Finds.{Reports, check-Reports}

-- A record of a stored, empty file.
abbrev row : Bytes → ℕ → Bytes
row name off =
    0x50
    ∷ 0x4b
    ∷ 1
    ∷ 2
    ∷ (replicate 24 0
        ++ length name ∷ 0 ∷ 0 ∷ 0 ∷ 0 ∷ 0 ∷ 0 ∷ 0 ∷ 0 ∷ 0 ∷ 0 ∷ 0 ∷ 0 ∷ 0 ∷ off ∷ 0 ∷ 0 ∷ 0 ∷ name)

abbrev two_rows : Bytes
two_rows = row (codes "META-INF/CERT.RSA") 0 ++ row (codes "a") 47

abbrev one_row : Bytes
one_row = row (codes "a") 47

-- No archive: an end record alone, whose directory is empty.
abbrev empty_zip : Bytes
empty_zip = 0x50 ∷ 0x4b ∷ 5 ∷ 6 ∷ replicate 18 0

abbrev entry_at : ℕ → ℕ → ℕ → CdEntry
entry_at p n off = record {
  range = record { start = p; end = p + (46 + n) };
  name = record { start = p + 46; end = p + (46 + n) };
  lfh_off = off;
  method = 0;
  flags = 0;
  compressed_size = 0;
}

abbrev filtered : FilteredCd
filtered = record {
  bytes = owned one_row;
  kept = entry_at 0 1 47 ∷ [];
  removed = codes "META-INF/CERT.RSA" ∷ [];
}

reads_two : parse_cd_entries two_rows ≡ ok (entry_at 0 17 0 ∷ entry_at 63 1 47 ∷ [])
unfolding parse_cd_entries parse_cd_loop read_cd_entry slice bytes_eq word_le le_value
reads_two = refl

filters_two : filter_cd two_rows ≡ ok filtered
unfolding filter_cd filter_loop filter_step moved classify policies_of all_output entry_policy
    entry_name is_v1_signature_entry is_v1_signature_file strip_prefix starts_with ends_with
    contains to_ascii_lowercase parse_cd_entries parse_cd_loop read_cd_entry slice bytes_eq word_le
    le_value put index
filters_two = refl

find_eocd_example : (o : Option ℕ) × (find_eocd empty_zip ≡ ok o) × Finds empty_zip 0 65536 o
find_eocd_example = find_eocd_exact empty_zip

parse_example : Ensures (IsSections empty_zip) (parse empty_zip)
parse_example = parse_sound empty_zip (omega arith)

parse_cd_entries_example : Ensures (Tiles 0 two_rows) (parse_cd_entries two_rows)
parse_cd_entries_example = parse_cd_entries_sound two_rows

two_rows-Tiles : Tiles 0 two_rows (entry_at 0 17 0 ∷ entry_at 63 1 47 ∷ [])
two_rows-Tiles = subst (Ensures (Tiles 0 two_rows)) reads_two (parse_cd_entries_sound two_rows)

Tiles_example : parse_cd_entries two_rows ≡ ok (entry_at 0 17 0 ∷ entry_at 63 1 47 ∷ [])
Tiles_example =
    parse_cd_entries-Tiles two_rows (entry_at 0 17 0 ∷ entry_at 63 1 47 ∷ []) two_rows-Tiles

same_letters : map to_ascii_lowercase (codes "CERT.RSA") ≡ map to_ascii_lowercase (codes "cert.Rsa")
unfolding to_ascii_lowercase
same_letters = refl

filter_cd_example : Ensures (Filtered two_rows) (filter_cd two_rows)
filter_cd_example = filter_cd_exact two_rows

filter_again_example :
    (parse_cd_entries (cow_bytes filtered.bytes) ≡ ok filtered.kept)
    × (filter_cd (cow_bytes filtered.bytes)
        ≡ ok (record {
          bytes = borrowed (cow_bytes filtered.bytes);
          kept = filtered.kept;
          removed = [];
        }))
filter_again_example = filter_cd_again two_rows filtered filters_two

abbrev two_entries : List CdEntry
two_entries = entry_at 0 1 47 ∷ entry_at 47 1 0 ∷ []

file_order_example :
    Perm (sort_by_off (enumerate 0 two_entries)) (enumerate 0 two_entries)
    × Decides
        (sort_by_off (enumerate 0 two_entries))
        (Rises 100 0 (sort_by_off (enumerate 0 two_entries)))
        (file_order two_entries 100)
file_order_example = file_order_exact two_entries 100

abbrev page : Policy
page = record { lib_page_size = 16384 }

-- The data of the entry at 47 begins at 78, which is no multiple of 4.
abbrev off_by_two : List Misaligned
off_by_two = record { name = codes "a"; data_off = 78; required = 4 } ∷ []

checks_one : check one_row (entry_at 0 1 47 ∷ []) ((1, 0) ∷ []) 100 page ≡ ok off_by_two
unfolding check check_loop check_entry bytes_eq file_order check_order sort_by_off insert_by_off
    enumerate index entry_name required_alignment slice is_dir is_stored ends_with starts_with
checks_one = refl

check_example :
    Perm (sort_by_off (enumerate 0 (entry_at 0 1 47 ∷ []))) (enumerate 0 (entry_at 0 1 47 ∷ []))
    × Rises 100 0 (sort_by_off (enumerate 0 (entry_at 0 1 47 ∷ [])))
    × Reports one_row page
        ((1, 0) ∷ [])
        100
        (sort_by_off (enumerate 0 (entry_at 0 1 47 ∷ [])))
        off_by_two
check_example =
    check-Reports one_row (entry_at 0 1 47 ∷ []) ((1, 0) ∷ []) 100 page off_by_two checks_one
