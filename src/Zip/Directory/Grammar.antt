-- ===== src/Zip/Directory/Grammar.antt =====
-- The Central Directory as a grammar: `parse_cd_entries` accepts exactly what `Tiles` describes.
use fastsigner.Base.{
  refl, lt→ltb, zero, suc, subst, bytes_eq_iff, take-take, take-append-drop, field-take,
  length-take, false, >>=-Ensures, drop-append_self, true, bytes_eq, ltb→le, drop-drop, drop_all,
  word_le_in_range, bytes_eq_refl, inr, length-append, inl, slice_run, field-append_left, ◌∙◌, ltb,
  ap, le→ltb, Bool-cases, take-append_le, length-drop, suc, field-drop, ok, Ensures, arith, sym,
  drop, ℕ, ◌+◌, ◌≤◌, ◌≡◌, List, [], ◌∷◌, ◌++◌, Bytes, length, take, field,
}
use fastsigner.Zip.Directory.{parse_cd_entries, read_cd_entry, parse_cd_loop, cd_entry_sig, CdEntry}

abbrev pub record_len : Bytes → ℕ
record_len r = 46 + field 2 r 28 + field 2 r 30 + field 2 r 32

-- The bytes of one whole record.
pub record IsRecord (r : Bytes) : Type 0 where
  pub header : 46 ≤ length r
  pub signature : take 4 r ≡ cd_entry_sig
  pub fills : record_len r ≡ length r

-- The entry of a record that begins at offset `p` of the directory.
abbrev pub entry_of : ℕ → Bytes → CdEntry
entry_of p r = record {
  range = record { start = p; end = p + length r };
  name = record { start = p + 46; end = p + 46 + field 2 r 28 };
  lfh_off = field 4 r 42;
  method = field 2 r 10;
  flags = field 2 r 8;
  compressed_size = field 4 r 20;
}

-- A directory that begins at offset `p` is a row of records.
pub data Tiles : ℕ → Bytes → List CdEntry → Type 0 where
  nil : {p : ℕ} → Tiles p [] []
  cons :
      {p : ℕ} {l : Bytes} {e : CdEntry} {es : List CdEntry} (r rest : Bytes)
      → l ≡ r ++ rest
      → IsRecord r
      → e ≡ entry_of p r
      → Tiles (p + length r) rest es
      → Tiles p l (e ∷ es)

module _ (cd : Bytes) (p : ℕ) (r rest : Bytes) (le : p ≤ length cd) (at : drop p cd ≡ r ++ rest)
    (is : IsRecord r) where
  room : p + length r ≤ length cd
  room = omega (arith, length-drop p cd, ap length at, length-append r rest)

  in_record : (n k : ℕ) → k + n ≤ 46 → field n cd (p + k) ≡ field n r k
  in_record n k h =
      sym (field-drop n p cd k)
      ∙ ap (λ (b : Bytes). field n b k) at
      ∙ field-append_left n r rest k (omega (arith, is.header))

  -- The body of the loop reads a whole record that stands at `p`.
  pub read_cd_entry-IsRecord : read_cd_entry cd p ≡ ok (entry_of p r)
  unfolding read_cd_entry
  read_cd_entry-IsRecord =
      let header : 46 ≤ length r = is.header in
      let here : p + 46 ≤ length cd = omega (arith, room) in
      let sig : take 4 (drop p cd) ≡ cd_entry_sig =
        rw (at, take-append_le r rest 4 (omega arith)) is.signature in
      rw (
        le→ltb (length cd) (p + 46) here,
        slice_run cd p 4 (omega arith),
        sig,
        bytes_eq_refl cd_entry_sig,
        word_le_in_range 2 cd (p + 28) (omega arith),
        word_le_in_range 2 cd (p + 30) (omega arith),
        word_le_in_range 2 cd (p + 32) (omega arith),
        word_le_in_range 4 cd (p + 42) (omega arith),
        word_le_in_range 2 cd (p + 10) (omega arith),
        word_le_in_range 2 cd (p + 8) (omega arith),
        word_le_in_range 4 cd (p + 20) (omega arith),
        in_record 2 28 (omega arith),
        in_record 2 30 (omega arith),
        in_record 2 32 (omega arith),
        in_record 4 42 (omega arith),
        in_record 2 10 (omega arith),
        in_record 2 8 (omega arith),
        in_record 4 20 (omega arith),
        is.fills,
        le→ltb (length cd) (p + length r) room,
      )

-- The entry that a successful round returns is that of a whole record.
abbrev ReadsAt : Bytes → ℕ → CdEntry → Type 0
ReadsAt cd p e =
    (r : Bytes) × (rest : Bytes) × (drop p cd ≡ r ++ rest) × IsRecord r × (e ≡ entry_of p r)

whole-IsRecord :
    (cd : Bytes) (p : ℕ)
    → p + 46 ≤ length cd
    → bytes_eq (take 4 (drop p cd)) cd_entry_sig ≡ true
    → ltb (length cd) (p + (46 + field 2 cd (p + 28) + field 2 cd (p + 30) + field 2 cd (p + 32)))
      ≡ false
    → (r : Bytes) × (rest : Bytes) × (drop p cd ≡ r ++ rest) × IsRecord r
whole-IsRecord cd p here same fits =
    let total : ℕ = 46 + field 2 cd (p + 28) + field 2 cd (p + 30) + field 2 cd (p + 32) in
    let b : Bytes = drop p cd in
    let r : Bytes = take total b in
    let le : p + total ≤ length cd = ltb→le (length cd) (p + total) fits in
    let full : length r ≡ total = omega (arith, length-take total b, length-drop p cd) in
    let len : (k : ℕ) → k + 2 ≤ 46 → field 2 r k ≡ field 2 cd (p + k) =
      λ k h. field-take 2 total b k (omega arith) ∙ field-drop 2 p cd k in
    (
      r,
      drop total b,
      sym (take-append-drop total b),
      record {
        header = omega arith;
        signature = take-take 4 total b (omega arith) ∙ (bytes_eq_iff _ cd_entry_sig).0 same;
        fills = omega (arith, len 28 (omega arith), len 30 (omega arith), len 32 (omega arith));
      },
    )

read_cd_entry_sound :
    (cd : Bytes) (p : ℕ) → p ≤ length cd → Ensures (ReadsAt cd p) (read_cd_entry cd p)
unfolding read_cd_entry
read_cd_entry_sound cd p le = elim (Bool-cases (ltb (length cd) (p + 46))) [
  | inl short ↦ rw short tt
  | inr long ↦
      let here : p + 46 ≤ length cd = ltb→le (length cd) (p + 46) long in
      let total : ℕ = 46 + field 2 cd (p + 28) + field 2 cd (p + 30) + field 2 cd (p + 32) in
      elim (Bool-cases (bytes_eq (take 4 (drop p cd)) cd_entry_sig)) [
        | inr other ↦ rw (long, slice_run cd p 4 (omega arith), other) tt
        | inl same ↦ elim (Bool-cases (ltb (length cd) (p + total))) [
          | inl over ↦
              rw
                (
                  long,
                  slice_run cd p 4 (omega arith),
                  same,
                  word_le_in_range 2 cd (p + 28) (omega arith),
                  word_le_in_range 2 cd (p + 30) (omega arith),
                  word_le_in_range 2 cd (p + 32) (omega arith),
                  over,
                )
                tt
          | inr fits ↦
              let (r, rest, at, is) = whole-IsRecord cd p here same fits in
              subst (Ensures (ReadsAt cd p)) (sym (read_cd_entry-IsRecord cd p r rest le at is))
                (r, rest, at, is, refl)
        ]
      ]
]

-- What a round leaves for the next one.
rest-drop :
    (cd : Bytes) (p : ℕ) (r rest : Bytes) → drop p cd ≡ r ++ rest → drop (p + length r) cd ≡ rest
rest-drop cd p r rest at =
    sym (drop-drop p (length r) (p + length r) cd refl)
    ∙ ap (drop (length r)) at
    ∙ drop-append_self r rest (length r) refl

parse_cd_loop_sound :
    (fuel : ℕ) (cd : Bytes) (p : ℕ)
    → p ≤ length cd
    → length cd ≤ p + fuel
    → Ensures (Tiles p (drop p cd)) (parse_cd_loop fuel cd p)
unfolding parse_cd_loop
parse_cd_loop_sound zero cd p le f =
    rw (le→ltb p (length cd) (omega arith), drop_all cd p (omega arith)) nil
parse_cd_loop_sound (suc fuel) cd p le f = elim (Bool-cases (ltb p (length cd))) [
  | inr done ↦ rw (done, drop_all cd p (ltb→le p (length cd) done)) nil
  | inl more ↦ rw more (
      >>=-Ensures (ReadsAt cd p) _ (read_cd_entry cd p) _ (read_cd_entry_sound cd p le)
        λ e _ (r, rest, at, is, same).
          let next : e.range.end ≡ p + length r = ap (λ (x : CdEntry). x.range.end) same in
          let header : 46 ≤ length r = is.header in
          let inside : p + length r ≤ length cd = room cd p r rest le at is in
          >>=-Ensures (Tiles e.range.end (drop e.range.end cd)) _
            (parse_cd_loop fuel cd e.range.end) _
            (parse_cd_loop_sound fuel cd e.range.end (omega arith) (omega arith))
            λ es _ t. cons r rest at is same (rw (next, rest-drop cd p r rest at) at t))
]

-- `parse_cd_entries` ends on every byte string, with no panic, and what it accepts is a row of
-- whole records, one for each entry that it returns, in order and with no byte between them.
pub parse_cd_entries_sound : (cd : Bytes) → Ensures (Tiles 0 cd) (parse_cd_entries cd)
unfolding parse_cd_entries
parse_cd_entries_sound cd = parse_cd_loop_sound (length cd) cd 0 (omega arith) (omega arith)

parse_cd_loop-Tiles :
    (fuel : ℕ) (cd : Bytes) (p : ℕ) {l : Bytes} {es : List CdEntry}
    → p ≤ length cd
    → length cd ≤ p + fuel
    → drop p cd ≡ l
    → Tiles p l es
    → parse_cd_loop fuel cd p ≡ ok es
unfolding parse_cd_loop
parse_cd_loop-Tiles zero cd p le f e nil =
    rw (le→ltb p (length cd) (omega (arith, length-drop p cd, ap length e)))
parse_cd_loop-Tiles (suc fuel) cd p le f e nil =
    rw (le→ltb p (length cd) (omega (arith, length-drop p cd, ap length e)))
parse_cd_loop-Tiles zero cd p le f e (cons r rest at is same t) =
    absurd (omega (arith, is.header, room cd p r rest le (e ∙ at) is))
parse_cd_loop-Tiles (suc fuel) cd p le f e (cons r rest at is same t) =
    let header : 46 ≤ length r = is.header in
    let inside : p + length r ≤ length cd = room cd p r rest le (e ∙ at) is in
    rw (
      lt→ltb p (length cd) (omega arith),
      read_cd_entry-IsRecord cd p r rest le (e ∙ at) is,
      parse_cd_loop-Tiles fuel cd (p + length r) inside (omega arith)
          (rest-drop cd p r rest (e ∙ at)) t,
      same,
    )

-- Every row of whole records is accepted, with its entries in order.
pub parse_cd_entries-Tiles :
    (cd : Bytes) (es : List CdEntry) → Tiles 0 cd es → parse_cd_entries cd ≡ ok es
unfolding parse_cd_entries
parse_cd_entries-Tiles cd es t =
    parse_cd_loop-Tiles (length cd) cd 0 (omega arith) (omega arith) refl t
