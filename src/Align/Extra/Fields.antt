-- ===== src/Align/Extra/Fields.antt =====
-- Extra fields as a list, and what the two loops make of them.
use fastsigner.Base.{
  append_assoc, leb→le, subst, word_le, append-nil, take-append_self, field-take, slice_run,
  take-append-drop, le→ltb, length-append, length-take, field-append_left, word_le_in_range,
  drop-append_self, length-drop, le→leb, drop-drop, field-drop, ℕ, zero, suc, ◌+◌, ◌-◌, ◌≤◌, ◌<◌,
  ◌≡◌, refl, sym, ap, ◌∙◌, ◌⊎◌, inl, inr, Bool, ◌&&◌, Option, none, some, List, [], ◌∷◌, ◌++◌,
  arith, Bytes, length, take, drop, All, leb, ◌==◌, if◌then◌else◌, field, Bool-cases, ok,
}
use fastsigner.Align.Extra.{
  declared_alignment, alignment_extra_id, declared_loop, is_dropped_field, keep_loop,
}

-- A whole field: { u16 id, u16 size, size bytes }.
abbrev pub IsField : Bytes → Type 0
IsField f = (4 ≤ length f) × (4 + field 2 f 2 ≡ length f)

-- No whole field begins the string.
abbrev pub NoField : Bytes → Type 0
NoField l = (4 ≤ length l) → length l < 4 + field 2 l 2

abbrev pub join : List Bytes → Bytes → Bytes
join [] tail = tail
join (f ∷ fs) tail = f ++ join fs tail

abbrev pub is_dropped : Bytes → Bool
is_dropped f = is_dropped_field (field 2 f 0) (field 2 f 2)

-- The fields that `aligning_extra` keeps.
abbrev pub foreign : List Bytes → List Bytes
foreign [] = []
foreign (f ∷ fs) = if is_dropped f then foreign fs else f ∷ foreign fs

-- The first alignment that is declared.
abbrev pub declared_in : List Bytes → Option ℕ
declared_in [] = none
declared_in (f ∷ fs) =
    if field 2 f 0 == alignment_extra_id && leb 2 (field 2 f 2)
    then some (field 2 f 4)
    else declared_in fs

pub split_fields :
    (fuel : ℕ) (l : Bytes)
    → length l ≤ fuel
    → (fs : List Bytes) × (tail : Bytes) × (l ≡ join fs tail) × All IsField fs × NoField tail
split_fields zero l h = ([], l, refl, tt, λ k. absurd (omega arith))
split_fields (suc fuel) l h =
    let n : ℕ = 4 + field 2 l 2 in
    elim (Bool-cases (leb 4 (length l) && leb n (length l))) [
      | inr none_here ↦ ([], l, refl, tt, λ k. ground arith)
      | inl whole ↦
          let room : n ≤ length l = ground arith in
          let (fs, tail, e, all, over) =
            split_fields fuel (drop n l) (omega (arith, length-drop n l)) in
          let len : length (take n l) ≡ n = omega (arith, length-take n l) in
          (
            take n l ∷ fs,
            tail,
            sym (take-append-drop n l) ∙ ap (λ (b : Bytes). take n l ++ b) e,
            ((omega arith, omega (arith, field-take 2 n l 2 (omega arith))), all),
            over,
          )
    ]

module _ (b : Bytes) (p : ℕ) (f rest : Bytes) (at : drop p b ≡ f ++ rest) (is : IsField f) where
  room : p + length f ≤ length b
  room = omega (arith, length-drop p b, ap length at, length-append f rest)

  field-at : (k q : ℕ) → q ≡ p + k → k + 2 ≤ length f → field 2 b q ≡ field 2 f k
  field-at k q e h =
      rw e (sym (field-drop 2 p b k))
      ∙ ap (λ (l : Bytes). field 2 l k) at
      ∙ field-append_left 2 f rest k h

  next-field : drop (p + length f) b ≡ rest
  next-field =
      sym (drop-drop p (length f) (p + length f) b refl)
      ∙ ap (drop (length f)) at
      ∙ drop-append_self f rest (length f) refl

  keep_step :
      (fuel : ℕ) (out : Bytes)
      → keep_loop (suc fuel) b p out
        ≡ keep_loop fuel b (p + length f) (if is_dropped f then out else out ++ f)
  unfolding keep_loop
  keep_step fuel out =
      rw
        (
          le→leb 4 (length b - p) (omega (arith, room)),
          word_le_in_range 2 b p (omega (arith, room)),
          word_le_in_range 2 b (p + 2) (omega (arith, room)),
          field-at 0 p (omega arith) (omega arith),
          field-at 2 (p + 2) refl (omega arith),
          le→ltb (length b - p - 4) (field 2 f 2) (omega (arith, room)),
          is.1,
          slice_run b p (length f) room,
          at,
          take-append_self f rest (length f) refl,
        )
        (elim (Bool-cases (is_dropped f)) [ inl drops ↦ rw drops | inr keeps ↦ rw keeps ])

  declared_step :
      (fuel : ℕ)
      → declared_loop (suc fuel) b p ≡ (
          if field 2 f 0 == alignment_extra_id && leb 2 (field 2 f 2)
          then ok (some (field 2 f 4))
          else declared_loop fuel b (p + length f))
  unfolding declared_loop
  declared_step fuel =
      rw
        (
          le→leb 4 (length b - p) (omega (arith, room)),
          word_le_in_range 2 b p (omega (arith, room)),
          word_le_in_range 2 b (p + 2) (omega (arith, room)),
          field-at 0 p (omega arith) (omega arith),
          field-at 2 (p + 2) refl (omega arith),
          le→ltb (length b - p - 4) (field 2 f 2) (omega (arith, room)),
          is.1,
        )
        (elim (Bool-cases (field 2 f 0 == alignment_extra_id && leb 2 (field 2 f 2))) [
          | inr other ↦ rw other
          | inl here ↦
              let size : 2 ≤ field 2 f 2 = ground arith in
              rw (
                here,
                word_le_in_range 2 b (p + 4) (omega (arith, room)),
                field-at 4 (p + 4) refl (omega arith),
              )
        ])

module _ (b : Bytes) (p : ℕ) (over : NoField (drop p b)) where
  no_field : (length b < p + 4) ⊎ (length b < p + (4 + field 2 b (p + 2)))
  no_field = elim (Bool-cases (leb 4 (length (drop p b)))) [
    | inr short ↦ inl (ground (arith, length-drop p b))
    | inl long ↦ inr (omega (arith, over (leb→le 4 _ long), length-drop p b, field-drop 2 p b 2))
  ]

  keep_stop : (fuel : ℕ) (out : Bytes) → length b ≤ p + fuel → keep_loop fuel b p out ≡ ok out
  unfolding keep_loop word_le
  keep_stop zero out h = ground arith
  keep_stop (suc fuel) out h = ground (arith, no_field)

  declared_stop : (fuel : ℕ) → length b ≤ p + fuel → declared_loop fuel b p ≡ ok none
  unfolding declared_loop word_le
  declared_stop zero h = ground arith
  declared_stop (suc fuel) h = ground (arith, no_field)

keep_loop-join :
    (fs : List Bytes) (tail : Bytes) (fuel : ℕ) (b : Bytes) (p : ℕ) (out : Bytes)
    → drop p b ≡ join fs tail
    → All IsField fs
    → NoField tail
    → length b ≤ p + fuel
    → keep_loop fuel b p out ≡ ok (out ++ join (foreign fs) [])
keep_loop-join [] tail fuel b p out at all over h =
    rw append-nil (keep_stop b p (subst NoField (sym at) over) fuel out h)
keep_loop-join (f ∷ fs) tail zero b p out at (is, all) over h =
    absurd (omega (arith, room b p f (join fs tail) at is))
keep_loop-join (f ∷ fs) tail (suc fuel) b p out at (is, all) over h =
    keep_step b p f (join fs tail) at is fuel out
    ∙ keep_loop-join fs tail fuel b (p + length f) _ (next-field b p f (join fs tail) at is) all
        over (omega (arith, is.0))
    ∙ (elim (Bool-cases (is_dropped f)) [
      | inl drops ↦ rw drops
      | inr keeps ↦ rw keeps (rw append_assoc)
    ])

-- The loop of `aligning_extra` keeps the foreign fields, in order, and what follows the last whole
-- field is dropped.
pub keep_loop_lem :
    (fs : List Bytes) (tail : Bytes)
    → All IsField fs
    → NoField tail
    → keep_loop (length (join fs tail)) (join fs tail) 0 [] ≡ ok (join (foreign fs) [])
keep_loop_lem fs tail all over =
    keep_loop-join fs tail (length (join fs tail)) (join fs tail) 0 [] refl all over (omega arith)

declared_loop-join :
    (fs : List Bytes) (tail : Bytes) (fuel : ℕ) (b : Bytes) (p : ℕ)
    → drop p b ≡ join fs tail
    → All IsField fs
    → NoField tail
    → length b ≤ p + fuel
    → declared_loop fuel b p ≡ ok (declared_in fs)
declared_loop-join [] tail fuel b p at all over h =
    declared_stop b p (subst NoField (sym at) over) fuel h
declared_loop-join (f ∷ fs) tail zero b p at (is, all) over h =
    absurd (omega (arith, room b p f (join fs tail) at is))
declared_loop-join (f ∷ fs) tail (suc fuel) b p at (is, all) over h =
    declared_step b p f (join fs tail) at is fuel
    ∙ (elim (Bool-cases (field 2 f 0 == alignment_extra_id && leb 2 (field 2 f 2))) [
      | inl here ↦ rw here
      | inr other ↦ rw other (
          declared_loop-join fs tail fuel b (p + length f) (next-field b p f (join fs tail) at is)
            all over (omega (arith, is.0)))
    ])

-- `declared_alignment` is the first alignment that a whole field declares.
pub declared_alignment-join :
    (fs : List Bytes) (tail : Bytes)
    → All IsField fs
    → NoField tail
    → declared_alignment (join fs tail) ≡ ok (declared_in fs)
unfolding declared_alignment
declared_alignment-join fs tail all over =
    declared_loop-join fs tail (length (join fs tail)) (join fs tail) 0 refl all over (omega arith)
