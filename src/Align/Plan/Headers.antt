-- ===== src/Align/Plan/Headers.antt =====
-- The local headers that a rewrite puts in the place of the old ones.
use fastsigner.Base.{
  take-append-drop, put-after, ℕ, ◌+◌, ◌%◌, ◌≤◌, ◌<◌, ◌≡◌, refl, sym, ap, ◌∙◌, inl, inr, false,
  Option, some, none, [], ◌++◌, Bytes, length, take, drop, ok, Ensures, arith, le_bytes, slice, ltb,
  ◌==◌,
}
use fastsigner.Base.{
  if-Ensures, slice_prefix, slice_suffix, put_in_range, length-put, length-take, length-drop,
  length-append, length-le_bytes, take-append_le, drop-append_le, take-take, run-take, put-before,
  word_le_in_range, field, field-append_left, field-patched, patched, le→leb, ltb→lt, ltb→le,
}
use fastsigner.Zip.Directory.{CdEntry}
use fastsigner.Zip.Policy.{entry_name}
use fastsigner.Keys.Der.Bounds.{Ends, >>=-Then}
use fastsigner.Align.Order.{lfh_len}
use fastsigner.Base.{◌⊎◌, max, subst, length-replicate, replicate, refl}
use fastsigner.Align.Extra.{
  alignment_extra_id, keep_loop, declared_alignment, aligning_extra, pad_to, alignment_field,
}
use fastsigner.Align.Extra.Fields.{
  split_fields, keep_loop_lem, declared_alignment-join, foreign, join, declared_in,
}
use fastsigner.Align.Extra.Aligned.{pad_to_lem}
use fastsigner.Align.Plan.{align_of, aligned_hdr, new_hdr}

-- The name of an entry lies in the directory.
abbrev pub IsNamed : Bytes → CdEntry → Type 0
IsNamed cd e = (e.name.start ≤ e.name.end) × (e.name.end ≤ length cd)

pub entry_name-Ends : (cd : Bytes) (e : CdEntry) → IsNamed cd e → Ends (entry_name e cd)
unfolding entry_name slice
entry_name-Ends cd e (h, k) = rw (le→leb _ _ h, le→leb _ _ k) tt

kept_of :
    (original : Bytes) → (kept : Bytes) × (keep_loop (length original) original 0 [] ≡ ok kept)
kept_of original =
    let (fs, tail, e, all, over) = split_fields (length original) original (omega arith) in
    (join (foreign fs) [], ap (λ b. keep_loop (length b) b 0 []) e ∙ keep_loop_lem fs tail all over)

extra_of_kept :
    (original : Bytes) (off align : ℕ) (kept : Bytes)
    → keep_loop (length original) original 0 [] ≡ ok kept
    → 0 < align
    → aligning_extra original off align
      ≡ ok (kept ++ alignment_field (pad_to (off + length kept + 6) align) align)
unfolding aligning_extra
extra_of_kept original off align kept run pos =
    let nonzero : (align == 0) ≡ false = ground arith in rw (run, nonzero) refl

length-alignment_field : (pad align : ℕ) → length (alignment_field pad align) ≡ 6 + pad
unfolding alignment_field
length-alignment_field pad align = omega (
  arith,
  length-append (le_bytes 2 alignment_extra_id)
      (le_bytes 2 (2 + pad) ++ (le_bytes 2 align ++ replicate pad 0)),
  length-append (le_bytes 2 (2 + pad)) (le_bytes 2 align ++ replicate pad 0),
  length-append (le_bytes 2 align) (replicate pad 0),
  length-le_bytes 2 alignment_extra_id,
  length-le_bytes 2 (2 + pad),
  length-le_bytes 2 align,
  length-replicate {A = ℕ} pad 0,
)

-- New extra fields for any alignment that is not 0: they align what follows them.
extra_of :
    (original : Bytes) (off align : ℕ)
    → 0 < align
    → (out : Bytes) × (aligning_extra original off align ≡ ok out)
      × ((off + length out) % align ≡ 0)
extra_of original off align pos =
    let (kept, run) = kept_of original in
    let pad = pad_to (off + length kept + 6) align in
    let at : off + length (kept ++ alignment_field pad align) ≡ off + length kept + 6 + pad =
      omega
        (arith, length-append kept (alignment_field pad align), length-alignment_field pad align) in
    (
      kept ++ alignment_field pad align,
      extra_of_kept original off align kept run pos,
      ap (λ n. n % align) at ∙ (pad_to_lem (off + length kept + 6) align pos).0,
    )

declared_of : (extra : Bytes) → (o : Option ℕ) × (declared_alignment extra ≡ ok o)
declared_of extra =
    let (fs, tail, e, all, over) = split_fields (length extra) extra (omega arith) in
    (declared_in fs, ap declared_alignment e ∙ declared_alignment-join fs tail all over)

-- The larger one of the alignment that is needed and the one that old extra fields declare.
abbrev pub Wants : ℕ → Bytes → ℕ → Type 0
Wants rule old_extra align =
    ((declared_alignment old_extra ≡ ok none) × (align ≡ rule))
    ⊎ ((declared : ℕ) × (declared_alignment old_extra ≡ ok (some declared))
        × (align ≡ max rule declared))

align_of-Wants :
    (rule : ℕ) (old_extra : Bytes) (o : Option ℕ)
    → declared_alignment old_extra ≡ ok o
    → Wants rule old_extra (align_of rule o) × (rule ≤ align_of rule o)
align_of-Wants rule old_extra none run = (inl (run, omega arith), omega arith)
align_of-Wants rule old_extra (some declared) run = (inr (declared, run, refl), omega arith)

-- What a header that is written has of the old one, and how long its own fields say that it is.
abbrev pub Rewrites : Bytes → Bytes → Type 0
Rewrites p hdr =
    (take 28 hdr ≡ take 28 p)
    × (take (field 2 p 26) (drop lfh_len hdr) ≡ take (field 2 p 26) (drop lfh_len p))
    × (length hdr ≡ lfh_len + field 2 p 26 + field 2 hdr 28)

-- What is behind the header lands on a multiple of the alignment that is wanted.
abbrev pub LandsOn : Bytes → ℕ → ℕ → Bytes → Type 0
LandsOn p rule cursor hdr =
    (align : ℕ) × Wants rule (drop (lfh_len + field 2 p 26) p) align
    × ((cursor + length hdr) % align ≡ 0)

abbrev pub IsHeader : Bytes → ℕ → ℕ → Bytes → Type 0
IsHeader p cursor rule hdr =
    Rewrites p hdr × (rule ≤ 1 → hdr ≡ p) × (1 < rule → LandsOn p rule cursor hdr)

with_extra :
    (p extra : Bytes) (nl : ℕ)
    → nl ≡ field 2 p 26
    → lfh_len + nl ≤ length p
    → length extra < 65536
    → Rewrites p (patched (take (lfh_len + nl) p) 28 (le_bytes 2 (length extra)) ++ extra)
      × (length (patched (take (lfh_len + nl) p) 28 (le_bytes 2 (length extra)) ++ extra)
          ≡ lfh_len + nl + length extra)
with_extra p extra nl is h few =
    let front = take (lfh_len + nl) p in
    let len = le_bytes 2 (length extra) in
    let two = length-le_bytes 2 (length extra) in
    let size : length front ≡ lfh_len + nl = omega (arith, length-take (lfh_len + nl) p) in
    let fits : 28 + length len ≤ length front = omega (arith, two, size) in
    let hdr = patched front 28 len in
    let size' : length hdr ≡ lfh_len + nl = length-put front 28 len fits ∙ size in
    let whole : length (hdr ++ extra) ≡ lfh_len + nl + length extra =
      omega (arith, length-append hdr extra, size') in
    let el : field 2 (hdr ++ extra) 28 ≡ length extra =
      field-append_left 2 hdr extra 28 (omega (arith, size'))
      ∙ field-patched 2 (length extra) front 28 (omega (arith, size)) few in
    (
      (
        take-append_le hdr extra 28 (omega (arith, size'))
            ∙ put-before front 28 len 0 28 fits (omega arith)
            ∙ take-take 28 (lfh_len + nl) p (omega arith),
        ap (λ n. take n (drop lfh_len (hdr ++ extra))) (sym is)
            ∙ ap (take nl) (drop-append_le hdr extra lfh_len (omega (arith, size')))
            ∙ take-append_le (drop lfh_len hdr) extra nl
                (omega (arith, size', length-drop lfh_len hdr))
            ∙ put-after front 28 len lfh_len nl fits (omega (arith, two))
            ∙ run-take lfh_len nl (lfh_len + nl) p (omega arith)
            ∙ ap (λ n. take n (drop lfh_len p)) is,
        omega (arith, whole, el, is),
      ),
      whole,
    )

aligned_hdr-IsHeader :
    (cd : Bytes) (e : CdEntry) (p : Bytes) (nl : ℕ) (cursor rule : ℕ)
    → IsNamed cd e
    → nl ≡ field 2 p 26
    → lfh_len + nl ≤ length p
    → 1 < rule
    → Ensures
        (IsHeader p cursor rule)
        (aligned_hdr cd e (take (lfh_len + nl) p) nl (drop (lfh_len + nl) p) cursor rule)
unfolding aligned_hdr
aligned_hdr-IsHeader cd e p nl cursor rule named is h some_rule =
    let old_extra = drop (lfh_len + nl) p in
    let (declared, run) = declared_of old_extra in
    let align = align_of rule declared in
    let (wants, above) = align_of-Wants rule old_extra declared run in
    let (extra, run', lands) =
      extra_of old_extra (cursor + (lfh_len + nl)) align (omega (arith, above)) in
    let front = take (lfh_len + nl) p in
    let len = le_bytes 2 (length extra) in
    let size : length front ≡ lfh_len + nl = omega (arith, length-take (lfh_len + nl) p) in
    let P : Bytes → Type 0 = IsHeader p cursor rule in
    rw (run, run')
      (if-Ensures P (ltb 65535 (length extra)) _ _
        (λ long. >>=-Then P (entry_name e cd) _ (entry_name-Ends cd e named) (λ name. tt))
        (λ short.
          let few : length extra < 65536 = omega (arith, ltb→le 65535 (length extra) short) in
          let (same, whole) = with_extra p extra nl is h few in
          let at : cursor + length (patched front 28 len ++ extra)
              ≡ cursor + (lfh_len + nl) + length extra =
            omega (arith, whole) in
          rw (put_in_range front 28 len (omega (arith, size, length-le_bytes 2 (length extra)))) (
            same,
            (λ none. absurd (omega arith)),
            (λ r. (
              align,
              subst (λ n. Wants rule (drop (lfh_len + n) p) align) is wants,
              ap (λ n. n % align) at ∙ lands,
            )),
          )))

unchanged :
    (p hdr : Bytes) (cursor rule : ℕ)
    → hdr ≡ p
    → length p ≡ lfh_len + field 2 p 26 + field 2 p 28
    → rule ≤ 1
    → IsHeader p cursor rule hdr
unchanged p hdr cursor rule same whole no_rule = (
  (
    ap (take 28) same,
    ap (λ b. take (field 2 p 26) (drop lfh_len b)) same,
    ap length same ∙ whole ∙ ap (λ b. lfh_len + field 2 p 26 + field 2 b 28) (sym same),
  ),
  (λ low. same),
  (λ high. absurd (omega arith)),
)

-- A header that is written has the old one's fields and name, and says itself how long it is; where the
-- entry needs an alignment, its data lands on a multiple of that or of a larger one that the old extra
-- fields declare.
pub new_hdr-IsHeader :
    (cd : Bytes) (e : CdEntry) (p : Bytes) (cursor rule : ℕ)
    → IsNamed cd e
    → length p ≡ lfh_len + field 2 p 26 + field 2 p 28
    → Ensures (IsHeader p cursor rule) (new_hdr cd e p cursor rule)
unfolding new_hdr
new_hdr-IsHeader cd e p cursor rule named whole =
    let nl = field 2 p 26 in
    rw
      (
        word_le_in_range 2 p 26 (omega (arith, whole)),
        slice_suffix p (lfh_len + nl) (omega (arith, whole)),
        slice_prefix p (lfh_len + nl) (omega (arith, whole)),
      )
      (if-Ensures (IsHeader p cursor rule) (ltb 1 rule) _ _
        (λ some_rule.
          aligned_hdr-IsHeader cd e p nl cursor rule named refl (omega (arith, whole))
            (ltb→lt 1 rule some_rule))
        (λ no_rule.
          unchanged p (take (lfh_len + nl) p ++ drop (lfh_len + nl) p) cursor rule
            (take-append-drop (lfh_len + nl) p) whole (ltb→le 1 rule no_rule)))
