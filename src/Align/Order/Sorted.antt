-- ===== src/Align/Order/Sorted.antt =====
-- What `file_order` returns, and when it fails.
use fastsigner.Base.{
  ltb→le, ltb→lt, true, Error, leb→le, ℕ, ◌+◌, ◌≤◌, ◌<◌, ◌≡◌, refl, ◌⊎◌, inl, inr, Option, none,
  some, List, [], ◌∷◌, arith, leb, Bool-cases, Outcome, ok, err,
}
use mathlib.Core.List.{Perm}
use mathlib.Core.List.Perm
use fastsigner.Zip.Directory.{CdEntry}
use fastsigner.Align.Order.{
  shared_header, header_outside, lfh_len, false, ltb, is_same, enumerate, insert_by_off,
  sort_by_off, check_order, file_order,
}

-- Offsets rise, each by more than nothing, from one that is at least `lo`; every header of 30 bytes
-- lies before `entries_end`.
abbrev pub Rises : ℕ → ℕ → List (ℕ × CdEntry) → Type 0
Rises entries_end lo [] = Unit {0}
Rises entries_end lo (x ∷ xs) =
    (lo ≤ x.1.lfh_off) × (x.1.lfh_off + 30 ≤ entries_end) × Rises entries_end (x.1.lfh_off + 1) xs

-- Sorted, with repetitions.
abbrev Sorts : ℕ → List (ℕ × CdEntry) → Type 0
Sorts lo [] = Unit {0}
Sorts lo (x ∷ xs) = (lo ≤ x.1.lfh_off) × Sorts x.1.lfh_off xs

insert_by_off-perm :
    (x : ℕ × CdEntry) (xs : List (ℕ × CdEntry)) → Perm (insert_by_off x xs) (x ∷ xs)
unfolding insert_by_off
insert_by_off-perm x [] = Perm.refl (x ∷ [])
insert_by_off-perm x (y ∷ ys) = elim (Bool-cases (leb x.1.lfh_off y.1.lfh_off)) [
  | inl first ↦ rw first (Perm.refl (x ∷ y ∷ ys))
  | inr later ↦ rw later (Perm.trans (Perm.cons y (insert_by_off-perm x ys)) (Perm.swap x y ys))
]

pub sort_by_off-perm : (xs : List (ℕ × CdEntry)) → Perm (sort_by_off xs) xs
unfolding sort_by_off
sort_by_off-perm [] = Perm.refl []
sort_by_off-perm (x ∷ xs) =
    Perm.trans (insert_by_off-perm x (sort_by_off xs)) (Perm.cons x (sort_by_off-perm xs))

insert_by_off-Sorts :
    (lo : ℕ) (x : ℕ × CdEntry) (xs : List (ℕ × CdEntry))
    → lo ≤ x.1.lfh_off
    → Sorts lo xs
    → Sorts lo (insert_by_off x xs)
unfolding insert_by_off
insert_by_off-Sorts lo x [] h s = (h, tt)
insert_by_off-Sorts lo x (y ∷ ys) h (p, s) = elim (Bool-cases (leb x.1.lfh_off y.1.lfh_off)) [
  | inl first ↦ rw first (h, (leb→le _ _ first, s))
  | inr later ↦ rw later (p, insert_by_off-Sorts y.1.lfh_off x ys (ground arith) s)
]

sort_by_off-Sorts : (xs : List (ℕ × CdEntry)) → Sorts 0 (sort_by_off xs)
unfolding sort_by_off
sort_by_off-Sorts [] = tt
sort_by_off-Sorts (x ∷ xs) =
    insert_by_off-Sorts 0 x (sort_by_off xs) (omega arith) (sort_by_off-Sorts xs)

-- The least offset after `prev`, and the least in sorted order.
abbrev floor : Option ℕ → ℕ
floor none = 0
floor (some o) = o + 1

abbrev base : Option ℕ → ℕ
base none = 0
base (some o) = o

-- A list passes, or fails with a message because it does not rise.
abbrev pub Decides : {A : Type 0} → A → Type 0 → Outcome A → Type 0
Decides a P r = ((r ≡ ok a) × P) ⊎ ((x : Error) × (r ≡ err x) × (¬ P))

not_same : (prev : Option ℕ) (o : ℕ) → base prev ≤ o → is_same prev o ≡ false → floor prev ≤ o
not_same none o h e = omega arith
not_same (some k) o h e = ground arith

same_below : (prev : Option ℕ) (o : ℕ) → is_same prev o ≡ true → o < floor prev
same_below none o e = cc
same_below (some k) o e = ground arith

check_order-Rises :
    (xs : List (ℕ × CdEntry)) (entries_end : ℕ) (prev : Option ℕ)
    → Sorts (base prev) xs
    → Decides tt (Rises entries_end (floor prev) xs) (check_order entries_end prev xs)
unfolding check_order
check_order-Rises [] entries_end prev s = inl (refl, tt)
check_order-Rises ((i, e) ∷ xs) entries_end prev (p, s) =
    elim (Bool-cases (ltb entries_end (e.lfh_off + lfh_len))) [
      | inl outside ↦ rw outside (
          inr (
            header_outside e.lfh_off,
            refl,
            λ r. absurd (omega (arith, r.1, ltb→lt entries_end (e.lfh_off + 30) outside)),
          ))
      | inr within ↦
          let room : e.lfh_off + 30 ≤ entries_end = ltb→le entries_end (e.lfh_off + 30) within in
          elim (Bool-cases (is_same prev e.lfh_off)) [
            | inl shared ↦
                rw (within, shared)
                  (inr (
                    shared_header e.lfh_off,
                    refl,
                    λ r. absurd (omega (arith, r.0, same_below prev e.lfh_off shared)),
                  ))
            | inr apart ↦
                rw (within, apart)
                  (elim (check_order-Rises xs entries_end (some e.lfh_off) s) [
                    | inl (run, r) ↦ inl (run, (not_same prev e.lfh_off p apart, room, r))
                    | inr (x, run, bad) ↦ inr (x, run, λ r. bad r.2)
                  ])
          ]
    ]

-- `file_order` sorts the entries by the offset of their local headers: it returns all of them,
-- each once, exactly when in that order the offsets are distinct and every header lies inside the
-- entries section, and fails with a message otherwise.
pub file_order_exact :
    (entries : List CdEntry) (entries_end : ℕ)
    → Perm (sort_by_off (enumerate 0 entries)) (enumerate 0 entries)
      × Decides
          (sort_by_off (enumerate 0 entries))
          (Rises entries_end 0 (sort_by_off (enumerate 0 entries)))
          (file_order entries entries_end)
unfolding file_order
file_order_exact entries entries_end =
    let order = sort_by_off (enumerate 0 entries) in
    (
      sort_by_off-perm (enumerate 0 entries),
      elim (check_order-Rises order entries_end none (sort_by_off-Sorts (enumerate 0 entries))) [
        | inl (run, r) ↦ rw run (inl (refl, r))
        | inr (x, run, bad) ↦ rw run (inr (x, refl, bad))
      ],
    )
