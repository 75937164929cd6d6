-- ===== src/Align/Extra/Aligned.antt =====
-- `aligning_extra` aligns, declares what it aligned to, and does not change its own output.
use fastsigner.Base.{
  length-replicate, append_assoc, length-le_bytes, field-le_bytes, append-nil, ==_iff,
  field-append_right, ℕ, ◌+◌, ◌-◌, ◌*◌, ◌/◌, ◌%◌, ◌<◌, ◌≡◌, sym, ap, ◌∙◌, inl, inr, false, some,
  List, [], ◌∷◌, ◌++◌, arith, Bytes, length, All, All-append, le_bytes, field, ◌==◌, Bool-cases, ok,
  replicate, length-append,
}
use native.Mathlib.Nat.{add-zero, div-add-mod, mul-mod_right, mod-eq_of_lt, mod-lt}
use fastsigner.Align.Extra.{
  alignment_extra_id, declared_alignment, pad_to, alignment_field, aligning_extra,
}
use fastsigner.Align.Extra.Fields.{
  IsField, NoField, join, is_dropped, foreign, declared_in, split_fields, keep_loop_lem,
  declared_alignment-join,
}

-- The padding that `pad_to` computes reaches the next multiple, and is shorter than the alignment.
pub pad_to_lem : (x a : ℕ) → 0 < a → ((x + pad_to x a) % a ≡ 0) × (pad_to x a < a)
pad_to_lem x a h = elim (Bool-cases (x % a == 0)) [
  | inl even ↦
      let r : x % a ≡ 0 = (==_iff (x % a) 0).0 even in
      let p : pad_to x a ≡ 0 =
        let whole : a - 0 ≡ a * 1 = omega arith in rw (r, whole) (mul-mod_right a 1) in
      rw p (rw add-zero r, h)
  | inr odd ↦
      let lt : x % a < a = mod-lt x h in
      let pos : 0 < x % a = ground arith in
      let p : pad_to x a ≡ a - x % a = mod-eq_of_lt (omega arith) in
      let sum : x + (a - x % a) ≡ a * (x / a + 1) = omega (arith, div-add-mod x a) in
      rw p (rw sum (mul-mod_right a (x / a + 1)), omega arith)
]

module _ (pad align : ℕ) (small : 2 + pad < 65536) (fits : align < 65536) where
  abbrev own : Bytes
  own = alignment_field pad align

  own-length : length own ≡ 6 + pad
  unfolding alignment_field
  own-length = omega (
    arith,
    length-append (le_bytes 2 alignment_extra_id)
        (le_bytes 2 (2 + pad) ++ (le_bytes 2 align ++ replicate pad 0)),
    length-append (le_bytes 2 (2 + pad)) (le_bytes 2 align ++ replicate pad 0),
    length-append (le_bytes 2 align) (replicate pad 0),
    length-le_bytes 2 alignment_extra_id,
    length-le_bytes 2 (2 + pad),
    length-le_bytes 2 align,
    length-replicate {A = ℕ} pad 0,
  )

  own-id : field 2 own 0 ≡ alignment_extra_id
  unfolding alignment_field
  own-id = field-le_bytes 2 alignment_extra_id _ (omega arith)

  own-size : field 2 own 2 ≡ 2 + pad
  unfolding alignment_field
  own-size =
      field-append_right 2 (le_bytes 2 alignment_extra_id) _ 0 2
        (omega (arith, length-le_bytes 2 alignment_extra_id))
      ∙ field-le_bytes 2 (2 + pad) _ (omega arith)

  own-align : field 2 own 4 ≡ align
  unfolding alignment_field
  own-align =
      field-append_right 2 (le_bytes 2 alignment_extra_id) _ 2 4
        (omega (arith, length-le_bytes 2 alignment_extra_id))
      ∙ field-append_right 2 (le_bytes 2 (2 + pad)) _ 0 2
          (omega (arith, length-le_bytes 2 (2 + pad)))
      ∙ field-le_bytes 2 align _ (omega arith)

  own-IsField : IsField own
  own-IsField = (omega (arith, own-length), omega (arith, own-length, own-size))

  foreign-own : (fs : List Bytes) → foreign (foreign fs ++ own ∷ []) ≡ foreign fs
  foreign-own [] = rw own-id (ground arith)
  foreign-own (f ∷ fs) = elim (Bool-cases (is_dropped f)) [
    | inl drops ↦ rw drops (foreign-own fs)
    | inr keeps ↦ rw keeps (rw keeps (ap (◌∷◌ f) (foreign-own fs)))
  ]

  declared_in-own : (fs : List Bytes) → declared_in (foreign fs ++ own ∷ []) ≡ some align
  declared_in-own [] = rw (own-id, own-size, own-align) (ground arith)
  declared_in-own (f ∷ fs) = elim (Bool-cases (is_dropped f)) [
    | inl drops ↦ rw drops (declared_in-own fs)
    | inr keeps ↦ rw keeps (ground (arith, declared_in-own fs))
  ]

foreign-IsField : (fs : List Bytes) → All IsField fs → All IsField (foreign fs)
foreign-IsField [] all = tt
foreign-IsField (f ∷ fs) (is, all) = elim (Bool-cases (is_dropped f)) [
  | inl drops ↦ rw drops (foreign-IsField fs all)
  | inr keeps ↦ rw keeps (is, foreign-IsField fs all)
]

join-append : (fs : List Bytes) (f : Bytes) → join fs [] ++ f ≡ join (fs ++ f ∷ []) []
join-append [] f = sym (append-nil f)
join-append (g ∷ fs) f =
    append_assoc g (join fs []) f ∙ ap (λ (b : Bytes). g ++ b) (join-append fs f)

module _ (original : Bytes) (off align : ℕ) (pos : 0 < align) (fits : align < 65535) where
  abbrev pub Aligns : Bytes → Type 0
  Aligns out =
      (aligning_extra original off align ≡ ok out)
      × ((off + length out) % align ≡ 0)
      × (declared_alignment out ≡ ok (some align))
      × (aligning_extra out off align ≡ ok out)

  Aligns-fields :
      (fs : List Bytes) (tail : Bytes)
      → original ≡ join fs tail
      → All IsField fs
      → NoField tail
      → (out : Bytes) × Aligns out
  unfolding aligning_extra
  Aligns-fields fs tail e all over =
      let kept : Bytes = join (foreign fs) [] in
      let start : ℕ = off + length kept + 6 in
      let pad : ℕ = pad_to start align in
      let (even, less) = pad_to_lem start align pos in
      let small : 2 + pad < 65536 = omega arith in
      let fits' : align < 65536 = omega arith in
      let f : Bytes = alignment_field pad align in
      let fields : List Bytes = foreign fs ++ f ∷ [] in
      let out : Bytes = kept ++ f in
      let whole : out ≡ join fields [] = join-append (foreign fs) f in
      let all' =
        All-append IsField (foreign fs) (f ∷ []) (foreign-IsField fs all)
          (own-IsField pad align small fits', tt) in
      let nothing : NoField [] = λ k. absurd (omega arith) in
      let nonzero : align == 0 ≡ false = ground arith in
      let len : off + length out ≡ start + pad =
        omega (arith, length-append kept f, own-length pad align small fits') in
      (
        out,
        (
          rw (e, keep_loop_lem fs tail all over, nonzero),
          rw len even,
          rw whole (
              declared_alignment-join fields [] all' nothing
              ∙ ap ok (declared_in-own pad align small fits' fs)),
          rw
              (
                whole,
                keep_loop_lem fields [] all' nothing,
                foreign-own pad align small fits' fs,
                nonzero,
              )
              (ap ok whole),
        ),
      )

  -- For an alignment from 1 to 65534 `aligning_extra` always returns: what follows the extra fields
  -- lands on a multiple of the alignment, the alignment can be read back by `declared_alignment`,
  -- and aligning the result again, at the same offset, changes nothing.
  pub aligning_extra-Aligns : (out : Bytes) × Aligns out
  aligning_extra-Aligns =
      let (fs, tail, e, all, over) = split_fields (length original) original (omega arith) in
      Aligns-fields fs tail e all over
