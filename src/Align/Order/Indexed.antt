-- ===== src/Align/Order/Indexed.antt =====
-- The entries of a file order are those of the list, at their indexes.
use fastsigner.Base.{ℕ, suc, ◌≡◌, refl, inl, inr, some, List, [], ◌∷◌, drop, All, get_elem?, leb}
use fastsigner.Base.{Bool-cases, drop-suc, get_elem?-drop}
use fastsigner.Zip.Directory.{CdEntry}
use fastsigner.Align.Order.{enumerate, insert_by_off, sort_by_off}

enumerate-All :
    (all es : List CdEntry) (i : ℕ)
    → drop i all ≡ es
    → All (λ (j, e). get_elem? all j ≡ some e) (enumerate i es)
unfolding enumerate
enumerate-All all [] i at = tt
enumerate-All all (e ∷ es) i at =
    (get_elem?-drop all i at, enumerate-All all es (suc i) (drop-suc all i at))

insert_by_off-All :
    (P : ℕ × CdEntry → Type 0) (x : ℕ × CdEntry) (xs : List (ℕ × CdEntry))
    → P x
    → All P xs
    → All P (insert_by_off x xs)
unfolding insert_by_off
insert_by_off-All P x [] h hs = (h, tt)
insert_by_off-All P x (y ∷ ys) h (k, ks) = elim (Bool-cases (leb x.1.lfh_off y.1.lfh_off)) [
  | inl first ↦ rw first (h, (k, ks))
  | inr later ↦ rw later (k, insert_by_off-All P x ys h ks)
]

sort_by_off-All :
    (P : ℕ × CdEntry → Type 0) (xs : List (ℕ × CdEntry)) → All P xs → All P (sort_by_off xs)
unfolding sort_by_off
sort_by_off-All P [] h = tt
sort_by_off-All P (x ∷ xs) (h, hs) =
    insert_by_off-All P x (sort_by_off xs) h (sort_by_off-All P xs hs)

pub file_order_indexed :
    (entries : List CdEntry)
    → All (λ (j, e). get_elem? entries j ≡ some e) (sort_by_off (enumerate 0 entries))
file_order_indexed entries =
    sort_by_off-All (λ (j, e). get_elem? entries j ≡ some e) (enumerate 0 entries)
      (enumerate-All entries entries 0 refl)
