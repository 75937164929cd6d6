-- ===== src/Align/Inspect/Seen.antt =====
-- The inspector sees every header that begins in a chunk.
use fastsigner.Base.{
  ℕ, suc, ◌+◌, ◌-◌, ◌%◌, ◌^◌, ◌≤◌, ◌<◌, ◌≡◌, refl, ap, ◌∙◌, ◌⊎◌, inl, inr, true, false, List, [],
  ◌∷◌, ◌++◌, Bytes, length, take, drop, All, ok, arith, bytes_eq, ltb, leb,
}
use fastsigner.Base.{
  Bool-cases, run-take, drop-drop, slice_run, slice_prefix, length-take, length-drop,
  word_le_in_range, field, lt→ltb, ltb→lt, leb→le,
}
use fastsigner.Zip.Sections.Found.{read_exact_at_in_range}
use fastsigner.Zip.Directory.{CdEntry}
use fastsigner.Align.Order.{lfh_len}
use fastsigner.Align.Order.Sorted.{Rises}
use fastsigner.Align.Check.{lfh_sig, LfhLens, read_lfh_lens}
use fastsigner.Align.Inspect.{
  LfhInspector, partition_point, Looked, bad_header, header, straddles, is_bad, look, look_loop,
  gather,
}
use fastsigner.Align.Inspect.Reference.{Ahead}

abbrev pub Names : ℕ → List ℕ → Type 0
Names i [] = ⊥
Names i (j ∷ js) = (j ≡ i) ⊎ Names i js

pub Names-left : (i : ℕ) (js ks : List ℕ) → Names i js → Names i (js ++ ks)
Names-left i [] ks h = absurd h
Names-left i (j ∷ js) ks (inl e) = inl e
Names-left i (j ∷ js) ks (inr h) = inr (Names-left i js ks h)

pub Names-right : (i : ℕ) (js ks : List ℕ) → Names i ks → Names i (js ++ ks)
Names-right i [] ks h = h
Names-right i (j ∷ js) ks h = inr (Names-right i js ks h)

abbrev pub firsts {ℓ} : {A : Type ℓ} → List (ℕ × A) → List ℕ
firsts [] = []
firsts (x ∷ xs) = x.0 ∷ firsts xs

pub firsts-append {ℓ} :
    {A : Type ℓ} (xs ys : List (ℕ × A)) → firsts (xs ++ ys) ≡ firsts xs ++ firsts ys
firsts-append [] ys = refl
firsts-append (x ∷ xs) ys = ap (◌∷◌ x.0) (firsts-append xs ys)

-- The entry of a round that found no bad header.
abbrev index_of : Looked → ℕ
index_of (bad_header off) = 0
index_of (header i l) = i
index_of (straddles i) = i

abbrev pub indexes : List Looked → List ℕ
indexes [] = []
indexes (l ∷ ls) = index_of l ∷ indexes ls

abbrev pub Good : Looked → Type 0
Good l = is_bad l ≡ false

abbrev pub Readable : Bytes → ℕ × CdEntry → Type 0
Readable file (i, e) = (l : LfhLens) × (read_lfh_lens file e.lfh_off ≡ ok l)

-- A header that can be read is signed.
readable_signed :
    (file : Bytes) (off : ℕ) (l : LfhLens)
    → off + lfh_len ≤ length file
    → length file < 2 ^ 63
    → read_lfh_lens file off ≡ ok l
    → bytes_eq (take 4 (take lfh_len (drop off file))) lfh_sig ≡ true
unfolding read_lfh_lens
readable_signed file off l room short read =
    let h = take lfh_len (drop off file) in
    let full : length h ≡ lfh_len =
      omega (arith, length-take lfh_len (drop off file), length-drop off file) in
    elim (Bool-cases (bytes_eq (take 4 h) lfh_sig)) [
      | inl signed ↦ signed
      | inr other ↦
          let run =
            rw
              (
                read_exact_at_in_range file lfh_len off room (omega (arith, short)),
                slice_prefix h 4 (omega (arith, full)),
                other,
              )
              at read in
          absurd (cc)
    ]

module _ (file : Bytes) (entries : List CdEntry) (short : length file < 2 ^ 63) where
  abbrev Sees : ℕ → ℕ → ℕ → CdEntry → Type 0
  Sees file_off n i e =
      (k : Looked) × (look file_off (take n (drop file_off file)) (i, e) ≡ ok k)
      × Good k
      × (index_of k ≡ i)

  look-Sees :
      (file_off n i : ℕ) (e : CdEntry)
      → file_off + n ≤ length file
      → Ahead file entries file_off (i, e)
      → Readable file (i, e)
      → Sees file_off n i e
  unfolding look
  look-Sees file_off n i e inside (at, within, ahead, room) (l, read) =
      let rel = (e.lfh_off + 2 ^ 64 - file_off) % 2 ^ 64 in
      let buf = take n (drop file_off file) in
      let h = take lfh_len (drop e.lfh_off file) in
      let far : rel ≡ e.lfh_off - file_off = omega arith in
      let size : length buf ≡ n =
        omega (arith, length-take n (drop file_off file), length-drop file_off file) in
      let full : length h ≡ lfh_len =
        omega (arith, length-take lfh_len (drop e.lfh_off file), length-drop e.lfh_off file) in
      let signed = readable_signed file e.lfh_off l room short read in
      elim (Bool-cases (leb (rel + lfh_len) (length buf))) [
        | inl there ↦
            let here : rel + lfh_len ≤ length buf = leb→le (rel + lfh_len) (length buf) there in
            let same : take lfh_len (drop rel buf) ≡ h =
              run-take rel lfh_len n (drop file_off file) (omega (arith, here, size))
              ∙ ap (take lfh_len) (drop-drop file_off rel e.lfh_off file (omega (arith, far))) in
            (
              header i (field 2 h 26, field 2 h 28),
              rw
                  (
                    there,
                    slice_run buf rel lfh_len here,
                    same,
                    slice_prefix h 4 (omega (arith, full)),
                    signed,
                    word_le_in_range 2 h 26 (omega (arith, full)),
                    word_le_in_range 2 h 28 (omega (arith, full)),
                  )
                  refl,
              refl,
              refl,
            )
        | inr beyond ↦ (straddles i, rw beyond refl, refl, refl)
      ]

  pub look_loop-Sees :
      (file_off n : ℕ) (xs : List (ℕ × CdEntry))
      → file_off + n ≤ length file
      → All (Ahead file entries file_off) xs
      → All (Readable file) xs
      → (ls : List Looked) × (look_loop file_off (take n (drop file_off file)) xs ≡ ok ls)
        × All Good ls
        × (indexes ls ≡ firsts xs)
  unfolding look_loop
  look_loop-Sees file_off n [] inside ahead readable = ([], refl, tt, refl)
  look_loop-Sees file_off n ((i, e) ∷ xs) inside (here, ahead) (r, readable) =
      let (k, run, good, at) = look-Sees file_off n i e inside here r in
      let (ls, more, all, same) = look_loop-Sees file_off n xs inside ahead readable in
      (k ∷ ls, rw (run, good, more) refl, (good, all), rw (at, same) refl)

abbrev pub Listed : ℕ → List (ℕ × LfhLens) → List ℕ → Type 0
Listed i found straddlers = Names i (firsts found) ⊎ Names i straddlers

abbrev pub Seen : ℕ → LfhInspector → Type 0
Seen i s = Listed i s.found s.straddlers

found_more :
    (i j : ℕ) (l : LfhLens) (found : List (ℕ × LfhLens))
    → (Names i (firsts found) ⊎ (j ≡ i))
    → Names i (firsts (found ++ (j, l) ∷ []))
found_more i j l found h = rw (firsts-append found ((j, l) ∷ [])) (elim h [
  | inl before ↦ Names-left i (firsts found) (j ∷ []) before
  | inr here ↦ Names-right i (firsts found) (j ∷ []) (inl here)
])

pub gather-Seen :
    (i : ℕ) (s : LfhInspector) (ls : List Looked) (found : List (ℕ × LfhLens)) (straddlers : List ℕ)
    → All Good ls
    → (Seen i s ⊎ (Listed i found straddlers ⊎ Names i (indexes ls)))
    → Seen i (gather s ls found straddlers)
unfolding gather
gather-Seen i s [] found straddlers good (inl (inl h)) =
    inl (rw (firsts-append s.found found) (Names-left i (firsts s.found) (firsts found) h))
gather-Seen i s [] found straddlers good (inl (inr h)) =
    inr (Names-left i s.straddlers straddlers h)
gather-Seen i s [] found straddlers good (inr (inl (inl h))) =
    inl (rw (firsts-append s.found found) (Names-right i (firsts s.found) (firsts found) h))
gather-Seen i s [] found straddlers good (inr (inl (inr h))) =
    inr (Names-right i s.straddlers straddlers h)
gather-Seen i s [] found straddlers good (inr (inr h)) = absurd h
gather-Seen i s (bad_header off ∷ ls) found straddlers (good, all) h = absurd (cc)
gather-Seen i s (header j l ∷ ls) found straddlers (good, all) h =
    let next = gather-Seen i s ls (found ++ (j, l) ∷ []) straddlers all in
    elim h [
      | inl before ↦ next (inl before)
      | inr (inl (inl there)) ↦ next (inr (inl (inl (found_more i j l found (inl there)))))
      | inr (inl (inr there)) ↦ next (inr (inl (inr there)))
      | inr (inr (inl here)) ↦ next (inr (inl (inl (found_more i j l found (inr here)))))
      | inr (inr (inr later)) ↦ next (inr (inr later))
    ]
gather-Seen i s (straddles j ∷ ls) found straddlers (good, all) h =
    let next = gather-Seen i s ls found (straddlers ++ j ∷ []) all in
    elim h [
      | inl before ↦ next (inl before)
      | inr (inl (inl there)) ↦ next (inr (inl (inl there)))
      | inr (inl (inr there)) ↦ next (inr (inl (inr (Names-left i straddlers (j ∷ []) there))))
      | inr (inr (inl here)) ↦ next (inr (inl (inr (Names-right i straddlers (j ∷ []) (inl here)))))
      | inr (inr (inr later)) ↦ next (inr (inr later))
    ]

pub gather_fine :
    (s : LfhInspector) (ls : List Looked) (found : List (ℕ × LfhLens)) (straddlers : List ℕ)
    → All Good ls
    → ((gather s ls found straddlers).error ≡ s.error)
      × ((gather s ls found straddlers).order ≡ s.order)
unfolding gather
gather_fine s [] found straddlers good = (refl, refl)
gather_fine s (bad_header off ∷ ls) found straddlers (good, all) = absurd (cc)
gather_fine s (header j l ∷ ls) found straddlers (good, all) =
    gather_fine s ls (found ++ (j, l) ∷ []) straddlers all
gather_fine s (straddles j ∷ ls) found straddlers (good, all) =
    gather_fine s ls found (straddlers ++ j ∷ []) all

-- The slice of the order that a chunk looks at has the headers that begin in it.
abbrev pub Holds : ℕ → ℕ → List (ℕ × CdEntry) → Type 0
Holds i off [] = ⊥
Holds i off ((j, e) ∷ xs) = ((j ≡ i) × (e.lfh_off ≡ off)) ⊎ Holds i off xs

first_part :
    (entries_end lo i off limit : ℕ) (xs : List (ℕ × CdEntry))
    → Rises entries_end lo xs
    → Holds i off xs
    → off < limit
    → (lo ≤ off) × Names i (firsts (take (partition_point limit xs) xs))
first_part entries_end lo i off limit [] rises holds h = absurd holds
first_part entries_end lo i off limit ((j, e) ∷ xs) (above, room, rises) (inl (here, at)) h =
    rw (lt→ltb e.lfh_off limit (omega (arith, at))) (omega (arith, at), inl here)
first_part entries_end lo i off limit ((j, e) ∷ xs) (above, room, rises) (inr later) h =
    let (low, more) = first_part entries_end (e.lfh_off + 1) i off limit xs rises later h in
    rw (lt→ltb e.lfh_off limit (omega (arith, low))) (omega (arith, low), inr more)

pub slice_part :
    (entries_end lo i off start limit : ℕ) (xs : List (ℕ × CdEntry))
    → Rises entries_end lo xs
    → Holds i off xs
    → start ≤ off
    → off < limit
    → Names i (
        firsts (
          take
            (partition_point limit xs - partition_point start xs)
            (drop (partition_point start xs) xs)))
slice_part entries_end lo i off start limit [] rises holds h k = absurd holds
slice_part entries_end lo i off start limit ((j, e) ∷ xs) (above, room, rises) holds h k =
    elim (Bool-cases (ltb e.lfh_off start)) [
      | inr behind ↦
          let all =
            (first_part entries_end lo i off limit ((j, e) ∷ xs) (above, room, rises) holds k).1 in
          let same : partition_point limit ((j, e) ∷ xs) - 0 ≡ partition_point limit ((j, e) ∷ xs) =
            omega arith in
          rw (behind, same) all
      | inl before ↦ elim holds [
        | inl (here, at) ↦ absurd (omega (arith, at, ltb→lt e.lfh_off start before, h))
        | inr later ↦
            let b = partition_point limit xs in
            let a = partition_point start xs in
            let same : suc b - suc a ≡ b - a = omega arith in
            rw (before, lt→ltb e.lfh_off limit (omega (arith, ltb→lt e.lfh_off start before)), same)
              (slice_part entries_end (e.lfh_off + 1) i off start limit xs rises later h k)
      ]
    ]
