-- ===== src/Align/Plan/Composed.antt =====
-- The plans of a rewrite together with the directory that is returned with them.
use fastsigner.Base.{
  ℕ, zero, suc, ◌+◌, ◌^◌, ◌≤◌, ◌<◌, ◌≡◌, refl, sym, ap, ◌∙◌, Option, some, none, List, [], ◌∷◌,
  Bytes, length, drop, All, get_elem?, ok, Ensures, arith,
}
use fastsigner.Base.{drop-append_self, length-append, length-drop}
use fastsigner.Base.{drop-drop, Ensures-map}
use fastsigner.Zip.Directory.{CdEntry, parse_cd_entries}
use fastsigner.Zip.Directory.Grammar.{IsRecord, parse_cd_entries_sound}
use fastsigner.Zip.Filter.Rows.{concat, entries_from, Tiles-rows}
use fastsigner.Zip.Policy.{EntryPolicy}
use fastsigner.Align.Check.{Policy}
use fastsigner.Align.Plan.Headers.{IsNamed}
use fastsigner.Align.Plan.Tiles.{PlanOf, IsPlan}
use fastsigner.Align.Plan.Loop.{plan_all-IsWhole}
use fastsigner.Align.Plan.{Plan, plan_all}
use fastsigner.Align.Plan.Directory.{Within, Placed}
use fastsigner.Align.Plan.Rewritten.{ReadsBack, new_directory-ReadsBack}

entries-IsNamed :
    (cd : Bytes) (p : ℕ) (rs : List Bytes)
    → p ≤ length cd
    → drop p cd ≡ concat rs
    → All IsRecord rs
    → All (IsNamed cd) (entries_from p rs)
entries-IsNamed cd p [] inside at all = tt
entries-IsNamed cd p (r ∷ rs) inside at (is, all) =
    let room : p + length r ≤ length cd =
      omega (arith, length-drop p cd, ap length at, length-append r (concat rs)) in
    let next : drop (p + length r) cd ≡ concat rs =
      sym (drop-drop p (length r) (p + length r) cd refl)
      ∙ ap (drop (length r)) at
      ∙ drop-append_self r (concat rs) (length r) refl in
    (
      (omega arith, omega (arith, room, is.fills)),
      entries-IsNamed cd (p + length r) rs room next all,
    )

parsed-IsNamed :
    (cd : Bytes) (entries : List CdEntry)
    → parse_cd_entries cd ≡ ok entries
    → All (IsNamed cd) entries
parsed-IsNamed cd entries parsed =
    let (rs, all, whole, same) = Tiles-rows (rw parsed at (parse_cd_entries_sound cd)) in
    rw same (entries-IsNamed cd 0 rs (omega arith) whole all)

entry_within :
    (entries : List CdEntry) (i : ℕ) (e : CdEntry)
    → get_elem? entries i ≡ some e
    → i < length entries
entry_within [] i e at = absurd (cc)
entry_within (x ∷ entries) zero e at = omega arith
entry_within (x ∷ entries) (suc i) e at = omega (arith, entry_within entries i e at)

module _ (file cd : Bytes) (entries : List CdEntry) (policy : Policy) (entries_end : ℕ) where
  plan-Within :
      (p : Plan) (idx : Option ℕ)
      → PlanOf file cd entries policy entries_end p idx
      → Within (length entries) idx
  plan-Within p none is = tt
  plan-Within p (some i) is = entry_within entries i is.0 is.3

  plans-Placed :
      (plans : List Plan)
      → All (IsPlan file cd entries policy entries_end) plans
      → All (Placed (length entries)) plans
  plans-Placed [] all = tt
  plans-Placed (p ∷ plans) (is, all) = (plan-Within p p.idx is, plans-Placed plans all)

-- With the entries of a directory, the directory that is returned with the plans has a record for
-- each entry that has a plan, in the order of the old directory. All bytes of it are those of the old
-- record, its name with them, but for the four of the offset, which are of the plan's offset modulo
-- 2^32. The count that is returned is the number of these records, and a parse of the new directory
-- finds them: entries with the ranges of the new places, the new offset, and the old flags, method
-- and compressed size.
pub plan_all-ReadsBack :
    (file cd : Bytes) (entries : List CdEntry) (policies : List EntryPolicy) (entries_end : ℕ)
    (policy : Policy)
    → parse_cd_entries cd ≡ ok entries
    → length policies ≡ length entries
    → entries_end ≤ length file
    → length file < 2 ^ 63
    → Ensures
        (λ s. ReadsBack cd entries s.plans)
        (plan_all file cd entries policies entries_end policy)
plan_all-ReadsBack file cd entries policies entries_end policy parsed size inside short =
    Ensures-map (plan_all file cd entries policies entries_end policy)
      (λ s whole.
        new_directory-ReadsBack cd entries s.plans parsed
          (plans-Placed file cd entries policy entries_end s.plans whole.2))
      (plan_all-IsWhole file cd entries policies entries_end policy
        (parsed-IsNamed cd entries parsed) size inside short)
