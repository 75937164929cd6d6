-- ===== src/Align/Inspect/Total.antt =====
-- The inspector against the reading of each header, where that does not fail.
use fastsigner.Base.{
  ℕ, zero, suc, ◌+◌, ◌^◌, ◌≤◌, ◌<◌, ◌≡◌, refl, sym, ap, subst, ◌∙◌, ◌⊎◌, inl, inr, true, Option,
  some, none, List, [], ◌∷◌, Bytes, length, replicate, All, get_elem?, ok, arith, ◌>>=◌, leb, ◌==◌,
}
use fastsigner.Base.{Bool-cases, ==_iff, set, length-set, length-replicate, lt→ltb, >>=-eq-ok}
use fastsigner.Zip.Directory.{CdEntry}
use fastsigner.Align.Order.{enumerate, insert_by_off, sort_by_off, file_order}
use fastsigner.Align.Order.Indexed.{file_order_indexed}
use fastsigner.Align.Order.Sorted.{file_order_exact}
use fastsigner.Align.Check.{LfhLens, read_lfh_lens}
use fastsigner.Align.Plan.Directory.{get_elem?-set}
use fastsigner.Align.Inspect.{
  LfhInspector, inspector, set_lens, put_found, put_straddlers, collect_lens, finish_unless, finish,
}
use fastsigner.Align.Inspect.Reference.{read_all, inspect_all, LensAt, IsInspected}
use fastsigner.Align.Inspect.Collected.{at_within, entry_of_index, All-at}
use fastsigner.Align.Inspect.Run.{IsChunk, inspect_all-IsInspected, inspector-read_all}
use fastsigner.Align.Inspect.Seen.{Names, firsts, Seen, Holds, Readable}
use fastsigner.Align.Inspect.Complete.{Covers, inspect_all-Seen}

-- The lengths of the entry with the index `k` are there.
abbrev Given : ℕ → List (Option LfhLens) → Type 0
Given k lens = (l : LfhLens) × (get_elem? lens k ≡ some (some l))

elem_within {ℓ} :
    {A : Type ℓ} (xs : List A) (k : ℕ) → k < length xs → (x : A) × (get_elem? xs k ≡ some x)
elem_within [] k h = absurd (omega arith)
elem_within (x ∷ xs) zero h = (x, refl)
elem_within (x ∷ xs) (suc k) h = elem_within xs k (omega arith)

set_lens-Given :
    (lens : List (Option LfhLens)) (i : ℕ) (l : LfhLens)
    → i < length lens
    → (lens' : List (Option LfhLens)) × (set_lens lens i l ≡ ok lens')
      × (length lens' ≡ length lens)
      × ((k : ℕ) → (Given k lens ⊎ (i ≡ k)) → Given k lens')
unfolding set_lens
set_lens-Given lens i l h = (
  set lens i (some l),
  rw (lt→ltb i (length lens) h) refl,
  length-set lens i (some l),
  λ k given. elim (Bool-cases (i == k)) [
    | inl here ↦
        let k_is : i ≡ k = (==_iff i k).0 here in
        let (o, at) = elem_within lens k (omega (arith, h, k_is)) in
        (l, get_elem?-set lens i k (some l) o at ∙ rw here refl)
    | inr other ↦ elim given [
      | inl (l', at) ↦ (l', get_elem?-set lens i k (some l) (some l') at ∙ rw other refl)
      | inr k_is ↦ let here : (i == k) ≡ true = (==_iff i k).1 k_is in absurd (cc)
    ]
  ],
)

module _ (file : Bytes) (entries : List CdEntry) where
  put_found-Given :
      (found : List (ℕ × LfhLens)) (lens : List (Option LfhLens))
      → length lens ≡ length entries
      → All (λ (i, l). LensAt file entries i l) found
      → (lens' : List (Option LfhLens)) × (put_found found lens ≡ ok lens')
        × (length lens' ≡ length entries)
        × ((k : ℕ) → (Given k lens ⊎ Names k (firsts found)) → Given k lens')
  unfolding put_found
  put_found-Given [] lens size all =
      (lens, refl, size, λ k h. elim h [ inl given ↦ given | inr no_name ↦ absurd no_name ])
  put_found-Given ((i, l) ∷ found) lens size (at, all) =
      let (mid, run, same, given) =
        set_lens-Given lens i l (omega (arith, size, at_within file entries entries i at.0 at.1)) in
      let (lens', more, size', given') = put_found-Given found mid (same ∙ size) all in
      (
        lens',
        rw (run, more) refl,
        size',
        λ k h. given' k (elim h [
          | inl before ↦ inl (given k (inl before))
          | inr (inl here) ↦ inl (given k (inr here))
          | inr (inr later) ↦ inr later
        ]),
      )

  put_straddlers-Given :
      (straddlers : List ℕ) (lens : List (Option LfhLens))
      → length lens ≡ length entries
      → All (λ e. (l : LfhLens) × (read_lfh_lens file e.lfh_off ≡ ok l)) entries
      → All (λ i. i < length entries) straddlers
      → (lens' : List (Option LfhLens)) × (put_straddlers file entries straddlers lens ≡ ok lens')
        × (length lens' ≡ length entries)
        × ((k : ℕ) → (Given k lens ⊎ Names k straddlers) → Given k lens')
  unfolding put_straddlers
  put_straddlers-Given [] lens size reads all =
      (lens, refl, size, λ k h. elim h [ inl given ↦ given | inr no_name ↦ absurd no_name ])
  put_straddlers-Given (i ∷ straddlers) lens size reads (within, all) =
      let (e, at, found) = entry_of_index file entries entries i within in
      let (l, read) =
        All-at file entries (λ e. (l : LfhLens) × (read_lfh_lens file e.lfh_off ≡ ok l)) entries i e
          reads at in
      let (mid, run, same, given) = set_lens-Given lens i l (omega (arith, size, within)) in
      let (lens', more, size', given') =
        put_straddlers-Given straddlers mid (same ∙ size) reads all in
      (
        lens',
        rw (found, read, run, more) refl,
        size',
        λ k h. given' k (elim h [
          | inl before ↦ inl (given k (inl before))
          | inr (inl here) ↦ inl (given k (inr here))
          | inr (inr later) ↦ inr later
        ]),
      )

  collect_lens-Given :
      (i : ℕ) (lens : List (Option LfhLens))
      → ((k : ℕ) → k < length lens → Given k lens)
      → (ls : List LfhLens) × (collect_lens entries i lens ≡ ok ls)
  unfolding collect_lens
  collect_lens-Given i [] given = ([], refl)
  collect_lens-Given i (none ∷ lens) given = let (l, at) = given 0 (omega arith) in absurd (cc)
  collect_lens-Given i (some l ∷ lens) given =
      let (ls, run) = collect_lens-Given (suc i) lens (λ k h. given (suc k) (omega arith)) in
      (l ∷ ls, rw run refl)

  finish-Given :
      (s : LfhInspector) (order : List (ℕ × CdEntry))
      → s.error ≡ none
      → IsInspected file entries order s
      → All (λ e. (l : LfhLens) × (read_lfh_lens file e.lfh_off ≡ ok l)) entries
      → ((i : ℕ) → i < length entries → Seen i s)
      → (ls : List LfhLens) × (finish s file entries ≡ ok ls)
  unfolding finish_unless
  finish-Given s order fine is reads seen =
      let (mid, run, size, given) =
        put_found-Given s.found (replicate (length entries) none)
          (length-replicate {A = Option LfhLens} (length entries) none) is.lens in
      let (lens, more, size', given') =
        put_straddlers-Given s.straddlers mid size reads is.within in
      let (ls, last) = collect_lens-Given 0 lens (λ k h.
        given' k (elim (seen k (omega (arith, size', h))) [
          | inl found ↦ inl (given k (inr found))
          | inr straddler ↦ inr straddler
        ])) in
      (ls, rw (fine, run, more, last) refl)

read_each :
    (file : Bytes) (es : List CdEntry) (ls : List LfhLens)
    → read_all file es ≡ ok ls
    → All (λ e. (l : LfhLens) × (read_lfh_lens file e.lfh_off ≡ ok l)) es
read_each file [] ls read = tt
read_each file (e ∷ es) ls read =
    let (l, here, rest) = >>=-eq-ok (read_lfh_lens file e.lfh_off) _ read in
    let (more, later, same) = >>=-eq-ok (read_all file es) _ rest in
    ((l, here), read_each file es more later)

inserted-Holds :
    (i off : ℕ) (x : ℕ × CdEntry) (xs : List (ℕ × CdEntry))
    → Holds i off (x ∷ xs)
    → Holds i off (insert_by_off x xs)
unfolding insert_by_off
inserted-Holds i off x [] h = h
inserted-Holds i off x (y ∷ ys) h = elim (Bool-cases (leb x.1.lfh_off y.1.lfh_off)) [
  | inl first ↦ rw first h
  | inr later ↦ rw later (elim h [
    | inl here ↦ inr (inserted-Holds i off x ys (inl here))
    | inr (inl there) ↦ inl there
    | inr (inr behind) ↦ inr (inserted-Holds i off x ys (inr behind))
  ])
]

sorted-Holds : (i off : ℕ) (xs : List (ℕ × CdEntry)) → Holds i off xs → Holds i off (sort_by_off xs)
unfolding sort_by_off
sorted-Holds i off [] h = h
sorted-Holds i off (x ∷ xs) (inl here) = inserted-Holds i off x (sort_by_off xs) (inl here)
sorted-Holds i off (x ∷ xs) (inr later) =
    inserted-Holds i off x (sort_by_off xs) (inr (sorted-Holds i off xs later))

enumerated-Holds :
    (j k : ℕ) (es : List CdEntry) (e : CdEntry)
    → get_elem? es k ≡ some e
    → Holds (j + k) e.lfh_off (enumerate j es)
unfolding enumerate
enumerated-Holds j k [] e at = absurd (cc)
enumerated-Holds j zero (x ∷ es) e at =
    inl (omega arith, (let same : x ≡ e = cc in ap (λ (y : CdEntry). y.lfh_off) same))
enumerated-Holds j (suc k) (x ∷ es) e at =
    let same : j + suc k ≡ suc j + k = omega arith in
    inr (
      subst (λ m. Holds m e.lfh_off (enumerate (suc j) es)) (sym same)
        (enumerated-Holds (suc j) k es e at))

order_reads :
    (file : Bytes) (entries : List CdEntry) (order : List (ℕ × CdEntry))
    → All (λ e. (l : LfhLens) × (read_lfh_lens file e.lfh_off ≡ ok l)) entries
    → All (λ (i, e). get_elem? entries i ≡ some e) order
    → All (Readable file) order
order_reads file entries [] reads all = tt
order_reads file entries ((i, e) ∷ order) reads (at, all) = (
  All-at file entries (λ e. (l : LfhLens) × (read_lfh_lens file e.lfh_off ≡ ok l)) entries i e reads
      at,
  order_reads file entries order reads all,
)

-- Where the entries have a file order, every header can be read and begins in one of the chunks, the
-- inspector returns the lengths that are read, in whatever order it sees the chunks.
pub inspector_complete :
    (file : Bytes) (entries : List CdEntry) (entries_end : ℕ) (chunks : List (ℕ × ℕ))
    (order : List (ℕ × CdEntry)) (ls : List LfhLens)
    → entries_end ≤ length file
    → length file < 2 ^ 63
    → All (IsChunk file) chunks
    → All (λ e. Covers chunks e.lfh_off) entries
    → file_order entries entries_end ≡ ok order
    → read_all file entries ≡ ok ls
    → (inspector entries entries_end >>= λ s.
        inspect_all file chunks s >>= λ s'. finish s' file entries)
      ≡ ok ls
inspector_complete file entries entries_end chunks order ls ends short are covered ordered read =
    elim ((file_order_exact entries entries_end).1) [
      | inr (x, run, bad) ↦ absurd (cc)
      | inl (run, rises) ↦
          let sorted = sort_by_off (enumerate 0 entries) in
          let start : LfhInspector = record {
            order = sorted;
            found = [];
            straddlers = [];
            error = none;
          } in
          let started : inspector entries entries_end ≡ ok start =
            unfold inspector in rw run refl in
          let indexed = file_order_indexed entries in
          let reads = read_each file entries ls read in
          let (s, seen_all, (fine, same), seen) =
            inspect_all-Seen file entries entries_end ends short sorted rises indexed
              (order_reads file entries sorted reads indexed) chunks start are (refl, refl) in
          let is = rw seen_all at (
            inspect_all-IsInspected file entries entries_end ends sorted chunks start short rises
              indexed are (record { same = refl; lens = tt; within = tt })) in
          let (ls', last) = finish-Given file entries s sorted fine is reads (λ i h.
            let (e, at, found) = entry_of_index file entries entries i h in
            seen i e.lfh_off
              (sorted-Holds i e.lfh_off (enumerate 0 entries) (
                let same : 0 + i ≡ i = omega arith in
                subst (λ m. Holds m e.lfh_off (enumerate 0 entries)) same
                  (enumerated-Holds 0 i entries e at)))
              (inl (All-at file entries (λ e. Covers chunks e.lfh_off) entries i e covered at))) in
          let whole : (inspector entries entries_end >>= λ s.
          inspect_all file chunks s >>= λ s'. finish s' file entries)
              ≡ ok ls' =
            rw (started, seen_all, last) refl in
          let same_read : read_all file entries ≡ ok ls' =
            rw whole at (inspector-read_all file entries entries_end chunks ends short are) in
          let same_ls : ls' ≡ ls = cc in whole ∙ ap ok same_ls
    ]
