-- ===== src/Zip/Filter/Survivors.antt =====
-- `filter_cd` against its specification on the list of records, and what a second pass finds.
use fastsigner.Base.{
  lt→ltb, drop-set, take-set, index-drop, drop-suc, set, take-append_le, drop-append_le,
  drop-append_self, length-append, take-append_self, slice, slice_run, length-drop, drop-drop, ℕ,
  suc, ◌+◌, ◌-◌, ◌≤◌, ◌<◌, ◌≡◌, refl, sym, ap, ◌∙◌, true, false, List, [], ◌∷◌, ◌++◌, map,
  append-nil, append_assoc, inl, inr, arith, Bytes, length, take, drop, All, field, if◌then◌else◌,
  Bool-cases, ok,
}
use fastsigner.Zip.Directory.{CdEntry}
use fastsigner.Zip.Directory.Grammar.{IsRecord, record_len, entry_of, parse_cd_entries-Tiles}
use fastsigner.Zip.Policy.{EntryPolicy, entry_policy, entry_name}
use fastsigner.Zip.Filter.{
  is_output, policies_of, classify, cow_bytes, FilteredCd, Filtering, moved, filter_step,
  filter_loop, all_output, filter_cd,
}
use fastsigner.Zip.Filter.Rows.{concat, entries_from, rows-Tiles}

abbrev pub record_name : Bytes → Bytes
record_name r = take (field 2 r 28) (drop 46 r)

abbrev pub record_policy : Bytes → EntryPolicy
record_policy r = entry_policy (record_name r)

-- The records that are kept, and those that are dropped.
abbrev pub survivors : List Bytes → List Bytes
survivors [] = []
survivors (r ∷ rs) = if is_output (record_policy r) then r ∷ survivors rs else survivors rs

abbrev pub dropped : List Bytes → List Bytes
dropped [] = []
dropped (r ∷ rs) = if is_output (record_policy r) then dropped rs else r ∷ dropped rs

module _ (cd : Bytes) (p : ℕ) (r rest : Bytes) (at : drop p cd ≡ r ++ rest) (is : IsRecord r) where
  inside : p + length r ≤ length cd
  inside = omega (arith, length-drop p cd, ap length at, length-append r rest, is.header)

  slice_record : slice cd p (p + length r) ≡ ok r
  slice_record =
      slice_run cd p (length r) inside
      ∙ ap ok (ap (take (length r)) at ∙ take-append_self r rest (length r) refl)

  entry_name-record : entry_name (entry_of p r) cd ≡ ok (record_name r)
  unfolding entry_name
  entry_name-record =
      let fills : record_len r ≡ length r = is.fills in
      slice_run cd (p + 46) (field 2 r 28) (omega (arith, inside))
      ∙ ap (λ (b : Bytes). ok (take (field 2 r 28) b))
          (sym (drop-drop p 46 (p + 46) cd refl)
            ∙ ap (drop 46) at
            ∙ drop-append_le r rest 46 is.header)
      ∙ ap ok (take-append_le (drop 46 r) rest (field 2 r 28) (omega (arith, length-drop 46 r)))

  next-record : drop (p + length r) cd ≡ rest
  next-record =
      sym (drop-drop p (length r) (p + length r) cd refl)
      ∙ ap (drop (length r)) at
      ∙ drop-append_self r rest (length r) refl

policies_of-rows :
    (cd : Bytes) (p : ℕ) (rs : List Bytes)
    → drop p cd ≡ concat rs
    → All IsRecord rs
    → policies_of cd (entries_from p rs) ≡ ok (map record_policy rs)
unfolding policies_of
policies_of-rows cd p [] at all = refl
policies_of-rows cd p (r ∷ rs) at (is, all) = rw (
  entry_name-record cd p r (concat rs) at is,
  policies_of-rows cd (p + length r) rs (next-record cd p r (concat rs) at is) all,
)

-- An entry moved to offset `q` is the entry of its record there.
moved-entry_of : (p q : ℕ) (r : Bytes) → q ≤ p → moved (entry_of p r) (p - q) ≡ entry_of q r
unfolding moved
moved-entry_of p q r h = ground arith

module _ (cd : Bytes) (i : ℕ) (policy : EntryPolicy) (s : Filtering) {e : CdEntry}
    {es : List CdEntry} (left : drop i s.kept ≡ e ∷ es) where
  filter_step_drops :
      {name : Bytes}
      → is_output policy ≡ false
      → entry_name e cd ≡ ok name
      → filter_step cd i policy s ≡ ok (record s { removed = s.removed ++ name ∷ [] })
  unfolding filter_step
  filter_step_drops d n = rw (index-drop s.kept i left, d, n)

  filter_step_keeps :
      {part : Bytes}
      → is_output policy ≡ true
      → slice cd e.range.start e.range.end ≡ ok part
      → s.n ≤ i
      → filter_step cd i policy s
        ≡ ok (record s {
          kept = set s.kept s.n (moved e (e.range.start - length s.out));
          out = s.out ++ part;
          n = suc s.n;
        })
  unfolding filter_step
  filter_step_keeps k part h =
      let room : s.n < length s.kept = omega (arith, length-drop i s.kept, ap length left) in
      rw (index-drop s.kept i left, k, part, lt→ltb s.n (length s.kept) room)

  -- The compaction writes one entry behind those that are kept, and none that is still to be read.
  kept_after :
      (v : CdEntry)
      → s.n ≤ i
      → (take (suc s.n) (set s.kept s.n v) ≡ take s.n s.kept ++ v ∷ [])
        × (drop (suc i) (set s.kept s.n v) ≡ es)
  kept_after v h =
      let room : s.n < length s.kept = omega (arith, length-drop i s.kept, ap length left) in
      (
        take-set s.kept s.n v room,
        drop-set s.kept s.n (suc i) v (omega arith) ∙ drop-suc s.kept i left,
      )

abbrev Filters : Bytes → ℕ → List Bytes → Filtering → Type 0
Filters cd i rs s =
    (s' : Filtering) × (filter_loop cd i (map record_policy rs) s ≡ ok s')
    × (take s'.n s'.kept ≡ take s.n s.kept ++ entries_from (length s.out) (survivors rs))
    × (s'.out ≡ s.out ++ concat (survivors rs))
    × (s'.removed ≡ s.removed ++ map record_name (dropped rs))

filter_loop_lem :
    (rs : List Bytes) (cd : Bytes) (i p : ℕ) (s : Filtering)
    → drop p cd ≡ concat rs
    → All IsRecord rs
    → drop i s.kept ≡ entries_from p rs
    → s.n ≤ i
    → length s.out ≤ p
    → Filters cd i rs s
unfolding filter_loop
filter_loop_lem [] cd i p s at all left n out =
    (s, refl, sym (append-nil _), sym (append-nil _), sym (append-nil _))
filter_loop_lem (r ∷ rs) cd i p s at (is, all) left n out =
    let next = next-record cd p r (concat rs) at is in
    let q = length s.out in
    elim (Bool-cases (is_output (record_policy r))) [
      | inr drops ↦
          let step =
            filter_step_drops cd i (record_policy r) s left drops
              (entry_name-record cd p r (concat rs) at is) in
          let (s', run, kept, o, gone) =
            filter_loop_lem rs cd (suc i) (p + length r)
              (record s { removed = s.removed ++ record_name r ∷ [] }) next all
              (drop-suc s.kept i left) (omega arith) (omega arith) in
          rw (drops, step) (s', run, kept, o, gone ∙ append_assoc s.removed (record_name r ∷ []) _)
      | inl keeps ↦
          let step =
            filter_step_keeps cd i (record_policy r) s left keeps
              (slice_record cd p r (concat rs) at is) n in
          let v = moved (entry_of p r) (p - q) in
          let (written, unread) = kept_after cd i (record_policy r) s left v n in
          let (s', run, kept, o, gone) =
            filter_loop_lem rs cd (suc i) (p + length r)
              (record s { kept = set s.kept s.n v; out = s.out ++ r; n = suc s.n }) next all unread
              (omega arith) (omega (arith, length-append s.out r)) in
          rw (keeps, step)
            (
              s',
              run,
              kept ∙ rw (written, moved-entry_of p q r out, length-append s.out r, append_assoc),
              o ∙ append_assoc s.out r _,
              gone,
            )
    ]

module _ (rs : List Bytes) (all : All IsRecord rs) where
  abbrev cd : Bytes
  cd = concat rs

  all_output-survivors :
      (xs : List Bytes)
      → all_output (map record_policy xs) ≡ true
      → (survivors xs ≡ xs) × (dropped xs ≡ [])
  unfolding all_output
  all_output-survivors [] e = (refl, refl)
  all_output-survivors (r ∷ xs) e = ground (arith, all_output-survivors xs)

  pub classify-rows : classify cd ≡ ok (entries_from 0 rs, map record_policy rs)
  unfolding classify
  classify-rows = rw (
    parse_cd_entries-Tiles cd (entries_from 0 rs) (rows-Tiles 0 rs all),
    policies_of-rows cd 0 rs refl all,
  )

  -- On a row of whole records `filter_cd` keeps exactly those whose policy is `output`, in order:
  -- the bytes are theirs, the entries are those of the new directory, and the names of the others
  -- are reported.
  pub filter_cd_rows :
      (f : FilteredCd) × (filter_cd cd ≡ ok f)
      × (cow_bytes f.bytes ≡ concat (survivors rs))
      × (f.kept ≡ entries_from 0 (survivors rs))
      × (f.removed ≡ map record_name (dropped rs))
  unfolding filter_cd
  filter_cd_rows = elim (Bool-cases (all_output (map record_policy rs))) [
    | inl every ↦
        let (same, nothing) = all_output-survivors rs every in
        rw (classify-rows, every) (_, refl, rw same, rw same, rw nothing)
    | inr some_drop ↦
        let start : Filtering = record {
          kept = entries_from 0 rs;
          out = [];
          removed = [];
          n = 0;
        } in
        let (s', run, kept, o, gone) =
          filter_loop_lem rs cd 0 0 start refl all refl (omega arith) (omega arith) in
        rw (classify-rows, some_drop, run) (_, refl, o, kept, gone)
  ]
