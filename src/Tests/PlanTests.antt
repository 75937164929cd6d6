-- ===== src/Tests/PlanTests.antt =====
-- An archive of one stored file, whose rewrite is planned: the file's data, and two bytes behind it.
use fastsigner.Base.{
  ◌≡◌, refl, some, none, List, [], ◌∷◌, ◌++◌, Bytes, take, replicate, All, arith, codes, le_bytes,
  le_value, word_le, slice, put, index, bytes_eq, ends_with,
}
use fastsigner.Zip.Sections.{read_exact_at}
use fastsigner.Base.{ok}
use fastsigner.Zip.Directory.{CdEntry, read_cd_entry, parse_cd_loop, parse_cd_entries}
use fastsigner.Align.Plan.Rewritten.{ReadsBack}
use fastsigner.Align.Plan.Composed.{plan_all-ReadsBack}
use fastsigner.Zip.Policy.{
  output, has_data_descriptor, entry_name, required_alignment, is_dir, is_stored,
}
use fastsigner.Align.Order.{enumerate, insert_by_off, sort_by_off, check_order, file_order}
use fastsigner.Align.Check.{Policy}
use fastsigner.Align.Extra.{
  declared_alignment, declared_loop, aligning_extra, keep_loop, alignment_field,
}
use fastsigner.Align.Window.{refill, ensure, prefix_len, prefix}
use fastsigner.Align.Check.{read_lfh_lens}
use fastsigner.Align.Inspect.{
  inspector, look, look_loop, gather, inspect, set_lens, put_found, put_straddlers, collect_lens,
  finish_unless,
}
use fastsigner.Align.Inspect.Reference.{read_all, inspect_all}
use fastsigner.Align.Inspect.Total.{inspector_complete}
use fastsigner.Align.Inspect.{finish}
use fastsigner.Base.{inl, inr, ◌>>=◌}
use fastsigner.Align.Inspect.Run.{inspector-read_all}
use fastsigner.Align.Plan.{
  Plan, with_gap, descriptor_len, aligned_hdr, new_hdr, plan_output, plan_kept, plan_record,
  plan_entry, plan_loop, plan_all,
}
use fastsigner.Align.Plan.Tiles.{Tiles, Rising, indexes, IsPlan}
use fastsigner.Align.Plan.Loop.{plan_all-IsWhole}

abbrev local_header : Bytes
local_header = 0x50 ∷ 0x4b ∷ 3 ∷ 4 ∷ (replicate 22 0 ++ 1 ∷ 0 ∷ 0 ∷ 0 ∷ codes "a")

abbrev archive : Bytes
archive = local_header ++ codes "hi" ++ 0 ∷ 0 ∷ []

abbrev archive_cd : Bytes
archive_cd =
    0x50
    ∷ 0x4b
    ∷ 1
    ∷ 2
    ∷ (replicate 16 0 ++ 2 ∷ (replicate 7 0 ++ 1 ∷ (replicate 17 0 ++ codes "a")))

abbrev archive_entry : CdEntry
archive_entry = record {
  range = record { start = 0; end = 47 };
  name = record { start = 46; end = 47 };
  lfh_off = 0;
  method = 0;
  flags = 0;
  compressed_size = 2;
}

abbrev pages : Policy
pages = record { lib_page_size = 4096 }

abbrev the_plans : List Plan
the_plans =
    record {
      idx = some 0;
      src_off = 31;
      src_len = 2;
      new_off = 0;
      hdr =
          take 28 local_header ++ 9 ∷ 0 ∷ codes "a" ++ 0x35 ∷ 0xd9 ∷ 5 ∷ 0 ∷ 4 ∷ 0 ∷ 0 ∷ 0 ∷ 0 ∷ [];
    }
    ∷ record { idx = none; src_off = 33; src_len = 2; new_off = 42; hdr = [] }
    ∷ []

plan_all_example :
    Tiles 0 the_plans 44
    × Rising 0 the_plans 35
    × All (IsPlan archive archive_cd (archive_entry ∷ []) pages 35) the_plans
    × (indexes the_plans ≡ 0 ∷ [])
unfolding plan_all plan_loop plan_entry plan_record plan_kept plan_output new_hdr aligned_hdr
    descriptor_len with_gap prefix ensure refill prefix_len file_order check_order sort_by_off
    insert_by_off enumerate read_exact_at declared_alignment declared_loop aligning_extra keep_loop
    alignment_field required_alignment is_dir is_stored entry_name le_bytes le_value word_le slice
    put index bytes_eq has_data_descriptor ends_with
plan_all_example =
    plan_all-IsWhole archive archive_cd (archive_entry ∷ []) (output ∷ []) 35 pages
      ((omega arith, omega arith), tt) refl (omega arith) (omega arith)

archive_cd-parsed : parse_cd_entries archive_cd ≡ ok (archive_entry ∷ [])
unfolding parse_cd_entries parse_cd_loop read_cd_entry le_value word_le slice bytes_eq
archive_cd-parsed = refl

directory_example : ReadsBack archive_cd (archive_entry ∷ []) the_plans
unfolding plan_all plan_loop plan_entry plan_record plan_kept plan_output new_hdr aligned_hdr
    descriptor_len with_gap prefix ensure refill prefix_len file_order check_order sort_by_off
    insert_by_off enumerate read_exact_at declared_alignment declared_loop aligning_extra keep_loop
    alignment_field required_alignment is_dir is_stored entry_name le_bytes le_value word_le slice
    put index bytes_eq has_data_descriptor ends_with
directory_example =
    plan_all-ReadsBack archive archive_cd (archive_entry ∷ []) (output ∷ []) 35 pages
      archive_cd-parsed refl (omega arith) (omega arith)

-- The header lies across two chunks, and the second is looked at first.
lens_example : read_all archive (archive_entry ∷ []) ≡ ok ((1, 0) ∷ [])
unfolding inspector inspect look_loop look gather finish_unless set_lens put_found put_straddlers
    collect_lens read_lfh_lens read_exact_at file_order check_order sort_by_off insert_by_off
    enumerate le_value word_le slice index bytes_eq
lens_example =
    inspector-read_all archive (archive_entry ∷ []) 35 ((20, 15) ∷ (0, 20) ∷ []) (omega arith)
      (omega arith) (omega arith, (omega arith, tt))

archive_order : file_order (archive_entry ∷ []) 35 ≡ ok ((0, archive_entry) ∷ [])
unfolding file_order check_order sort_by_off insert_by_off enumerate
archive_order = refl

archive_lens : read_all archive (archive_entry ∷ []) ≡ ok ((1, 0) ∷ [])
unfolding read_lfh_lens read_exact_at le_value word_le slice bytes_eq
archive_lens = refl

complete_example :
    (inspector (archive_entry ∷ []) 35 >>= λ s.
    inspect_all archive ((20, 15) ∷ (0, 20) ∷ []) s >>= λ s'.
    finish s' archive (archive_entry ∷ []))
    ≡ ok ((1, 0) ∷ [])
complete_example =
    inspector_complete archive (archive_entry ∷ []) 35 ((20, 15) ∷ (0, 20) ∷ [])
      ((0, archive_entry) ∷ []) ((1, 0) ∷ []) (omega arith) (omega arith)
      (omega arith, (omega arith, tt)) (inr (inl (omega arith, omega arith)), tt) archive_order
      archive_lens
