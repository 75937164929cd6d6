-- ===== src/Align/Plan/Loop.antt =====
-- The loop that plans a rewrite, and the plans that it comes to.
use fastsigner.Base.{
  append_assoc, append-nil, ℕ, zero, suc, ◌+◌, ◌^◌, ◌≤◌, ◌<◌, ◌≡◌, refl, sym, ap, subst, ◌∙◌, inl,
  inr, true, some, none, List, [], ◌∷◌, ◌++◌, Bytes, length, All, get_elem?, ok, Ensures, arith,
  index, ◌>>=◌, ltb,
}
use fastsigner.Base.{>>=-Ensures, if-Ensures, ltb→le, length-replicate}
use fastsigner.Keys.Der.Bounds.{>>=-Then}
use fastsigner.Zip.Directory.{CdEntry}
use fastsigner.Zip.Policy.{EntryPolicy, output, skip, gap, entry_name}
use fastsigner.Align.Order.{lfh_len, enumerate, sort_by_off}
use fastsigner.Align.Order.Indexed.{file_order_indexed}
use fastsigner.Align.Order.Sorted.{Rises, file_order_exact}
use fastsigner.Align.Check.{Policy}
use fastsigner.Align.Window.{window_size}
use fastsigner.Align.Plan.{Planning, with_gap, is_gap, plan_entry, plan_loop, planning, plan_all}
use fastsigner.Align.Plan.Headers.{IsNamed, entry_name-Ends}
use fastsigner.Align.Plan.Tiles.{Tiles, Rising, indexes, IsPlan, with_gap-IsPlanned}
use fastsigner.Align.Plan.Whole.{written, Planned, skipped, plan_record-Planned}

-- An entry at its index, with a policy, a name in the directory and a header in the entries section.
abbrev Fits : Bytes → List CdEntry → List EntryPolicy → ℕ → ℕ × CdEntry → Type 0
Fits cd entries policies entries_end (i, e) =
    (get_elem? entries i ≡ some e)
    × (i < length policies)
    × IsNamed cd e
    × (e.lfh_off + lfh_len ≤ entries_end)

-- The entries of a list that are written, in its order.
abbrev pub all_written : List EntryPolicy → List (ℕ × CdEntry) → List ℕ
all_written policies [] = []
all_written policies ((i, e) ∷ order) =
    elim (get_elem? policies i) [ none ↦ [] | some what ↦ written what i ]
    ++ all_written policies order

policy_at :
    (policies : List EntryPolicy) (i : ℕ)
    → i < length policies
    → (what : EntryPolicy) × (get_elem? policies i ≡ some what) × (index policies i ≡ ok what)
unfolding index
policy_at [] i h = absurd (omega arith)
policy_at (w ∷ policies) zero h = (w, refl, refl)
policy_at (w ∷ policies) (suc i) h = policy_at policies i (omega arith)

nothing_written : (what : EntryPolicy) (i : ℕ) → is_gap what ≡ true → written what i ≡ []
nothing_written output i e = absurd (cc)
nothing_written skip i e = refl
nothing_written gap i e = refl

module _ (file cd : Bytes) (entries : List CdEntry) (policy : Policy) (entries_end : ℕ)
    (policies : List EntryPolicy) where
  plan_entry-Planned :
      (i : ℕ) (e : CdEntry) (s : Planning) (is : List ℕ) (what : EntryPolicy)
      → get_elem? policies i ≡ some what
      → index policies i ≡ ok what
      → Fits cd entries policies entries_end (i, e)
      → Planned file cd entries policy entries_end is s
      → Ensures
          (Planned file cd entries policy entries_end (is ++ written what i))
          (plan_entry file cd policies entries_end policy (i, e) s)
  unfolding plan_entry
  plan_entry-Planned i e s is what at run fits planned =
      let P : Planning → Type 0 =
        Planned file cd entries policy entries_end (is ++ written what i) in
      rw run (
        if-Ensures P (is_gap what) _ _
          (λ gaps.
            subst
              (λ l.
                Planned file cd entries policy entries_end (is ++ l)
                  (record s { dropped = s.dropped + 1 }))
              (sym (nothing_written what i gaps))
              (skipped file cd entries policy entries_end s s.consumed (s.dropped + 1) is planned
                (omega arith) planned.within))
          (λ no_gap.
            if-Ensures P (ltb e.lfh_off s.consumed) _ _
              (λ over. >>=-Then P (entry_name e cd) _ (entry_name-Ends cd e fits.2) (λ name. tt))
              (λ behind.
                plan_record-Planned file cd entries policy entries_end what i e
                  (with_gap s e.lfh_off) is no_gap
                  (with_gap-IsPlanned file cd entries policy entries_end s e.lfh_off is planned
                    (ltb→le e.lfh_off s.consumed behind) (omega (arith, fits.3)))
                  fits.0 fits.2 fits.3)))

  plan_loop-Planned :
      (order : List (ℕ × CdEntry)) (s : Planning) (is : List ℕ)
      → All (Fits cd entries policies entries_end) order
      → Planned file cd entries policy entries_end is s
      → Ensures
          (Planned file cd entries policy entries_end (is ++ all_written policies order))
          (plan_loop file cd policies entries_end policy order s)
  unfolding plan_loop
  plan_loop-Planned [] s is fits planned =
      subst (λ l. Planned file cd entries policy entries_end l s) (sym (append-nil is)) planned
  plan_loop-Planned ((i, e) ∷ order) s is (fit, fits) planned =
      let (what, at, run) = policy_at policies i fit.1 in
      let P : Planning → Type 0 =
        Planned file cd entries policy entries_end
          (is ++ (written what i ++ all_written policies order)) in
      rw at (
        >>=-Ensures (Planned file cd entries policy entries_end (is ++ written what i)) P
          (plan_entry file cd policies entries_end policy (i, e) s) _
          (plan_entry-Planned i e s is what at run fit planned)
          (λ s' e1 planned'.
            subst
              (λ l.
                Ensures (Planned file cd entries policy entries_end l)
                  (plan_loop file cd policies entries_end policy order s'))
              (append_assoc is (written what i) (all_written policies order))
              (plan_loop-Planned order s' (is ++ written what i) fits planned')))

  -- The plans of a rewrite: they fill the new section from 0 to `cursor` with nothing between them,
  -- take the input in order and none of it twice, and the records are those of the entries that are
  -- written, in file order.
  abbrev pub IsWhole : Planning → Type 0
  IsWhole s =
      Tiles 0 s.plans s.cursor
      × Rising 0 s.plans entries_end
      × All (IsPlan file cd entries policy entries_end) s.plans
      × (indexes s.plans ≡ all_written policies (sort_by_off (enumerate 0 entries)))

  from_start :
      (order : List (ℕ × CdEntry))
      → All (Fits cd entries policies entries_end) order
      → order ≡ sort_by_off (enumerate 0 entries)
      → entries_end ≤ length file
      → length file < 2 ^ 63
      → Ensures IsWhole (
          plan_loop file cd policies entries_end policy order (planning entries_end) >>= λ s.
          ok (with_gap s entries_end))
  from_start order fits same inside short =
      let start = planning entries_end in
      let planned : Planned file cd entries policy entries_end [] start = record {
        window = record {
          size = length-replicate {A = ℕ} window_size 0;
          small = omega arith;
          inside = omega arith;
          entries = inside;
          short = short;
          same = refl;
        };
        end_is = refl;
        within = omega arith;
        tiles = refl;
        rising = omega arith;
        each = tt;
        names = refl;
      } in
      let is = all_written policies order in
      >>=-Ensures (Planned file cd entries policy entries_end is) IsWhole
        (plan_loop file cd policies entries_end policy order start) _
        (plan_loop-Planned order start [] fits planned)
        (λ s e done.
          let last =
            with_gap-IsPlanned file cd entries policy entries_end s entries_end is done done.within
              (omega arith) in
          (last.tiles, last.rising, last.each, last.names ∙ ap (all_written policies) same))

entry_kept :
    (P : CdEntry → Type 0) (es : List CdEntry) (i : ℕ) (e : CdEntry)
    → All P es
    → get_elem? es i ≡ some e
    → P e × (i < length es)
entry_kept P [] i e h at = absurd (cc)
entry_kept P (x ∷ es) zero e (h, hs) at = (subst P (cc) h, omega arith)
entry_kept P (x ∷ es) (suc i) e (h, hs) at =
    let (p, l) = entry_kept P es i e hs at in (p, omega (arith, l))

order_kept :
    (cd : Bytes) (entries : List CdEntry) (policies : List EntryPolicy) (entries_end lo : ℕ)
    (order : List (ℕ × CdEntry))
    → All (IsNamed cd) entries
    → length policies ≡ length entries
    → Rises entries_end lo order
    → All (λ (j, e). get_elem? entries j ≡ some e) order
    → All (Fits cd entries policies entries_end) order
order_kept cd entries policies entries_end lo [] named size rises at = tt
order_kept cd entries policies entries_end lo ((i, e) ∷ order) named size (above, room, rises)
      (at, ats) =
    let (name, l) = entry_kept (IsNamed cd) entries i e named at in
    (
      (at, omega (arith, l, size), name, room),
      order_kept cd entries policies entries_end (e.lfh_off + 1) order named size rises ats,
    )

-- `plan_all` ends with no panic on any file and entries whose names lie in the directory, with a
-- policy for each, where the entries section lies in a file shorter than 2^63. The plans that it
-- returns fill the new section with nothing between them, and take the input in order and none of it
-- twice. They have a record for exactly the entries whose policy is `output`, in file order. Each
-- record takes the input from the end of the entry's header on, its compressed size or more; its own
-- header has the first 28 bytes and the name of that header, and says itself how long it is. It is
-- that header where no alignment is needed; where one is, the data lands on a multiple of the larger
-- one of this and of what the old extra fields declare.
pub plan_all-IsWhole :
    (file cd : Bytes) (entries : List CdEntry) (policies : List EntryPolicy) (entries_end : ℕ)
    (policy : Policy)
    → All (IsNamed cd) entries
    → length policies ≡ length entries
    → entries_end ≤ length file
    → length file < 2 ^ 63
    → Ensures
        (IsWhole file cd entries policy entries_end policies)
        (plan_all file cd entries policies entries_end policy)
unfolding plan_all
plan_all-IsWhole file cd entries policies entries_end policy named size inside short =
    let order = sort_by_off (enumerate 0 entries) in
    let at = file_order_indexed entries in
    elim ((file_order_exact entries entries_end).1) [
      | inl (run, rises) ↦ rw run (
          from_start file cd entries policy entries_end policies order
            (order_kept cd entries policies entries_end 0 order named size rises at) refl inside
            short)
      | inr (x, run, bad) ↦ rw run tt
    ]
