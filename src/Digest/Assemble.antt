-- ===== src/Digest/Assemble.antt =====
-- The digests of the chunks, copied to their places in any order, are the digests in order.
use fastsigner.Base.{
  put-run, put-before, put-after, length-put, put_in_range, ap, length-replicate, take-append-drop,
  ◌==◌, ◌∙◌, Bool-cases, inl, inr, ltb, ltb→lt, sym, subst, ◌⊎◌, get_elem?, some, length-drop,
  drop-drop, length-take, ℕ, zero, suc, ◌+◌, ◌-◌, ◌*◌, ◌≤◌, ◌<◌, ◌≡◌, refl, List, [], ◌∷◌, ◌++◌,
  Bytes, length, take, drop, replicate, ok, arith, All, slice_in_range,
}
use fastsigner.Digest.{place, join}

step_le : (k n ol : ℕ) → k < n → k * ol + ol ≤ n * ol
step_le k zero ol h = absurd (omega arith)
step_le zero (suc n) ol h = omega arith
step_le (suc k) (suc n) ol h = omega (arith, step_le k n ol (omega arith))

some_injective : {x y : Bytes} → some x ≡ some y → x ≡ y
some_injective e = cc

-- A record of the digest `ds` has at its index, in an array that may be longer.
abbrev pub IsRecord : List Bytes → ℕ → ℕ × Bytes → Type 0
IsRecord ds ol (k, a) = (d : Bytes) × (get_elem? ds k ≡ some d) × (ol ≤ length a) × (take ol a ≡ d)

abbrev pub Has : ℕ → List (ℕ × Bytes) → Type 0
Has j [] = ⊥
Has j ((k, a) ∷ all) = (k ≡ j) ⊎ Has j all

get_elem?-in_range : (ds : List Bytes) (k : ℕ) {d : Bytes} → get_elem? ds k ≡ some d → k < length ds
get_elem?-in_range [] k e = cc
get_elem?-in_range (x ∷ ds) zero e = omega arith
get_elem?-in_range (x ∷ ds) (suc k) e = omega (arith, get_elem?-in_range ds k e)

-- Digest `j` stands in its place.
abbrev At : List Bytes → ℕ → Bytes → ℕ → Type 0
At ds ol buf j = (d : Bytes) → get_elem? ds j ≡ some d → take ol (drop (j * ol) buf) ≡ d

put-At_same :
    (ds : List Bytes) (ol : ℕ) (buf src : Bytes) (k : ℕ)
    → length src ≡ ol
    → k * ol + ol ≤ length buf
    → get_elem? ds k ≡ some src
    → At ds ol (take (k * ol) buf ++ (src ++ drop (k * ol + length src) buf)) k
put-At_same ds ol buf src k l h e d e' =
    let same : src ≡ d = some_injective (sym e ∙ e') in
    subst
      (λ n.
        take n (drop (k * ol) (take (k * ol) buf ++ (src ++ drop (k * ol + length src) buf))) ≡ d)
      l (put-run buf (k * ol) src (omega arith) ∙ same)

put-At_other :
    (ds : List Bytes) (ol : ℕ) (buf src : Bytes) (k j : ℕ)
    → length src ≡ ol
    → k * ol + ol ≤ length buf
    → ¬ (k ≡ j)
    → At ds ol buf j
    → At ds ol (take (k * ol) buf ++ (src ++ drop (k * ol + length src) buf)) j
put-At_other ds ol buf src k j l h apart at d e = elim (Bool-cases (ltb j k)) [
  | inl below ↦
      put-before buf (k * ol) src (j * ol) ol (omega arith) (step_le j k ol (ltb→lt j k below))
      ∙ at d e
  | inr above ↦
      put-after buf (k * ol) src (j * ol) ol (omega arith)
        (omega (arith, l, step_le k j ol (ground (arith, apart))))
      ∙ at d e
]

place_next :
    (ol : ℕ) (buf : Bytes) (k : ℕ) (a d : Bytes) (all : List (ℕ × Bytes))
    → ol ≤ length a
    → take ol a ≡ d
    → k * ol + length d ≤ length buf
    → place ol buf ((k, a) ∷ all)
      ≡ place ol (take (k * ol) buf ++ (d ++ drop (k * ol + length d) buf)) all
unfolding place
place_next ol buf k a d all long eq room =
    let from_start : ol - 0 ≡ ol = omega arith in
    rw (slice_in_range a 0 ol (omega arith) long, from_start, eq, put_in_range buf (k * ol) d room)

-- What holds after one copy.
next-At :
    (ds : List Bytes) (ol : ℕ) (buf src : Bytes) (k j : ℕ) (all : List (ℕ × Bytes))
    → length src ≡ ol
    → k * ol + ol ≤ length buf
    → get_elem? ds k ≡ some src
    → At ds ol buf j ⊎ (k ≡ j ⊎ Has j all)
    → At ds ol (take (k * ol) buf ++ (src ++ drop (k * ol + length src) buf)) j ⊎ Has j all
next-At ds ol buf src k j all l h e (inr (inr has)) = inr has
next-At ds ol buf src k j all l h e (inr (inl same)) = inl (
    subst (At ds ol (take (k * ol) buf ++ (src ++ drop (k * ol + length src) buf))) same
      (put-At_same ds ol buf src k l h e))
next-At ds ol buf src k j all l h e (inl at) = elim (Bool-cases (k == j)) [
  | inl same ↦ inl (
      subst (At ds ol (take (k * ol) buf ++ (src ++ drop (k * ol + length src) buf))) (ground arith)
        (put-At_same ds ol buf src k l h e))
  | inr apart ↦ inl (put-At_other ds ol buf src k j l h (ground arith) at)
]

place-At :
    (ds : List Bytes) (ol : ℕ) (all : List (ℕ × Bytes)) (buf : Bytes)
    → length buf ≡ length ds * ol
    → All (IsRecord ds ol) all
    → (out : Bytes) × (place ol buf all ≡ ok out)
      × (length out ≡ length ds * ol)
      × ((j : ℕ) → At ds ol buf j ⊎ Has j all → At ds ol out j)
unfolding place
place-At ds ol [] buf l rs = (buf, refl, l, λ j h. elim h [ inl at ↦ at | inr has ↦ absurd has ])
place-At ds ol ((k, a) ∷ all) buf l ((d, e, long, eq), rs) =
    let whole : length (take ol a) ≡ ol = omega (arith, length-take ol a) in
    let src : length d ≡ ol = subst (λ x. length x ≡ ol) eq whole in
    let room : k * ol + ol ≤ length buf =
      omega (arith, l, step_le k (length ds) ol (get_elem?-in_range ds k e)) in
    let buf' = take (k * ol) buf ++ (d ++ drop (k * ol + length d) buf) in
    let (out, run, l', at) =
      place-At ds ol all buf' (length-put buf (k * ol) d (omega arith) ∙ l) rs in
    (
      out,
      place_next ol buf k a d all long eq (omega arith) ∙ run,
      l',
      λ j h. at j (next-At ds ol buf d k j all src room e h),
    )

-- A string whose runs of `ol` bytes are the members of a list is the list joined.
runs-join :
    (ds : List Bytes) (ol : ℕ) (out : Bytes)
    → length out ≡ length ds * ol
    → ((j : ℕ) → At ds ol out j)
    → out ≡ join ds
runs-join [] ol [] l at = refl
runs-join [] ol (b ∷ out) l at = absurd (omega arith)
runs-join (d ∷ ds) ol out l at =
    let start : 0 * ol ≡ 0 = omega arith in
    let first : take ol out ≡ d = subst (λ i. take ol (drop i out) ≡ d) start (at zero d refl) in
    let rest : drop ol out ≡ join ds =
      runs-join ds ol (drop ol out) (omega (arith, length-drop ol out))
        (λ j x e. rw (drop-drop ol (j * ol) (suc j * ol) out (omega arith)) (at (suc j) x e)) in
    sym (take-append-drop ol out) ∙ rw (first, rest)

-- Every digest has a record, and every record is of a digest: the copies are the digests in order.
pub place-join :
    (ds : List Bytes) (ol : ℕ) (all : List (ℕ × Bytes))
    → All (IsRecord ds ol) all
    → ((j : ℕ) → j < length ds → Has j all)
    → place ol (replicate (length ds * ol) 0) all ≡ ok (join ds)
place-join ds ol all rs has =
    let (out, run, l, at) =
      place-At ds ol all (replicate (length ds * ol) 0) (length-replicate (length ds * ol) 0) rs in
    run
    ∙ ap ok (runs-join ds ol out l (λ j d e. at j (inr (has j (get_elem?-in_range ds j e))) d e))

pub Has-append_left : (j : ℕ) (a b : List (ℕ × Bytes)) → Has j a → Has j (a ++ b)
Has-append_left j [] b h = absurd h
Has-append_left j ((k, d) ∷ a) b (inl same) = inl same
Has-append_left j ((k, d) ∷ a) b (inr h) = inr (Has-append_left j a b h)

pub Has-append_right : (j : ℕ) (a b : List (ℕ × Bytes)) → Has j b → Has j (a ++ b)
Has-append_right j [] b h = h
Has-append_right j (x ∷ a) b h = inr (Has-append_right j a b h)
