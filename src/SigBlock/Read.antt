-- ===== src/SigBlock/Read.antt =====
-- Length-prefixed parts, read as a verifier reads them, and the encoders of src/sigblock.rs read back.
use fastsigner.Base.{
  le→leb, take-append_self, drop-append_at, length-le_bytes, drop-append_self, append_assoc,
  field-le_bytes, false, append-nil, length-append, ℕ, zero, suc, ◌+◌, ◌^◌, ◌<◌, ◌≤◌, ◌≡◌, refl,
  sym, ◌∙◌, Option, none, some, List, [], ◌∷◌, ◌++◌, map, arith, Bytes, length, take, drop, All,
  field, leb, if◌then◌else◌, ◌&&◌, le_bytes,
}
use fastsigner.SigBlock.{seq_lp_onto, seq_lp, seq_lp_pairs_onto, seq_lp_pairs}

-- { u32 len, part of len bytes }, and what follows.
pub read_lp : Bytes → Option (Bytes × Bytes)
read_lp l =
    let len = field 4 l 0 in
    if leb 4 (length l) && leb (4 + len) (length l)
    then some (take len (drop 4 l), drop (4 + len) l)
    else none

-- Parts to the end of the string.
abbrev cons_part : Bytes → Option (List Bytes) → Option (List Bytes)
cons_part b none = none
cons_part b (some bs) = some (b ∷ bs)

pub read_lps : ℕ → Bytes → Option (List Bytes)
read_lps zero l = if leb (length l) 0 then some [] else none
read_lps (suc fuel) l =
    let more : Option (List Bytes) = elim (read_lp l) [
      | none ↦ none
      | some (part, rest) ↦ cons_part part (read_lps fuel rest)
    ] in
    if leb (length l) 0 then some [] else more

abbrev pub lp : Bytes → Bytes → Bytes
lp b rest = le_bytes 4 (length b) ++ (b ++ rest)

abbrev pub lps : List Bytes → Bytes
lps [] = []
lps (b ∷ bs) = lp b (lps bs)

abbrev pub IsShort : Bytes → Type 0
IsShort b = length b < 2 ^ 32

pub length-lp : (b rest : Bytes) → length (lp b rest) ≡ 4 + length b + length rest
length-lp b rest = omega (
  arith,
  length-append (le_bytes 4 (length b)) (b ++ rest),
  length-append b rest,
  length-le_bytes 4 (length b),
)

pub read_lp-lp : (b rest : Bytes) → IsShort b → read_lp (lp b rest) ≡ some (b, rest)
unfolding read_lp
read_lp-lp b rest h =
    let len : field 4 (lp b rest) 0 ≡ length b = field-le_bytes 4 (length b) _ (omega arith) in
    let from : drop 4 (lp b rest) ≡ b ++ rest =
      drop-append_self (le_bytes 4 (length b)) _ 4 (omega (arith, length-le_bytes 4 (length b))) in
    let behind : drop (4 + length b) (lp b rest) ≡ rest =
      drop-append_at (le_bytes 4 (length b)) _ (length b) (4 + length b)
        (omega (arith, length-le_bytes 4 (length b)))
      ∙ drop-append_self b rest (length b) refl in
    rw (
      len,
      from,
      behind,
      take-append_self b rest (length b) refl,
      le→leb 4 (length (lp b rest)) (omega (arith, length-lp b rest)),
      le→leb (4 + length b) (length (lp b rest)) (omega (arith, length-lp b rest)),
    )

read_lps-lps :
    (items : List Bytes) (fuel : ℕ)
    → All IsShort items
    → length (lps items) ≤ fuel
    → read_lps fuel (lps items) ≡ some items
unfolding read_lps
read_lps-lps [] zero short h = refl
read_lps-lps [] (suc fuel) short h = refl
read_lps-lps (b ∷ bs) zero short h = absurd (omega (arith, length-lp b (lps bs)))
read_lps-lps (b ∷ bs) (suc fuel) (s, short) h =
    let more : leb (length (lp b (lps bs))) 0 ≡ false = ground (arith, length-lp b (lps bs)) in
    rw (
      more,
      read_lp-lp b (lps bs) s,
      read_lps-lps bs fuel short (omega (arith, length-lp b (lps bs))),
    )

seq_lp_onto-lps : (items : List Bytes) (v : Bytes) → seq_lp_onto v items ≡ v ++ lps items
unfolding seq_lp_onto
seq_lp_onto-lps [] v = sym (append-nil v)
seq_lp_onto-lps (b ∷ bs) v = seq_lp_onto-lps bs _ ∙ simp append_assoc

-- The parts of an encoded sequence.
pub parts : Bytes → Option (List Bytes)
parts l = read_lps (length l) l

-- The parts of a sequence shorter than 4 GiB are themselves so.
lps-IsShort : (items : List Bytes) → IsShort (lps items) → All IsShort items
lps-IsShort [] h = tt
lps-IsShort (b ∷ bs) h =
    (omega (arith, length-lp b (lps bs)), lps-IsShort bs (omega (arith, length-lp b (lps bs))))

pub seq_lp-lps : (items : List Bytes) → seq_lp items ≡ lps items
unfolding seq_lp
seq_lp-lps items = seq_lp_onto-lps items []

-- A sequence shorter than 4 GiB is read back as the items that it was encoded from.
pub parts-seq_lp : (items : List Bytes) → IsShort (seq_lp items) → parts (seq_lp items) ≡ some items
unfolding parts
parts-seq_lp items h = rw (seq_lp-lps items) (
    read_lps-lps items (length (lps items)) (lps-IsShort items (rw (seq_lp-lps items) at h))
      (omega arith))

-- A pair is the part { u32 id, u32 len, value }.
abbrev pub pair_part : ℕ × Bytes → Bytes
pair_part (id, b) = le_bytes 4 id ++ lp b []

seq_lp_pairs_onto-lps :
    (pairs : List (ℕ × Bytes)) (v : Bytes)
    → seq_lp_pairs_onto v pairs ≡ v ++ lps (map pair_part pairs)
unfolding seq_lp_pairs_onto
seq_lp_pairs_onto-lps [] v = sym (append-nil v)
seq_lp_pairs_onto-lps ((id, b) ∷ pairs) v =
    let len : length (pair_part (id, b)) ≡ 8 + length b =
      omega
        (arith, length-append (le_bytes 4 id) (lp b []), length-lp b [], length-le_bytes 4 id) in
    seq_lp_pairs_onto-lps pairs _ ∙ rw len (simp (append_assoc, append-nil))

-- A sequence of pairs shorter than 4 GiB is read back as the parts of its pairs, in order.
pub parts-seq_lp_pairs :
    (pairs : List (ℕ × Bytes))
    → IsShort (seq_lp_pairs pairs)
    → parts (seq_lp_pairs pairs) ≡ some (map pair_part pairs)
unfolding seq_lp_pairs parts
parts-seq_lp_pairs pairs h =
    let same = seq_lp_pairs_onto-lps pairs [] in
    rw same (
      read_lps-lps (map pair_part pairs) (length (lps (map pair_part pairs)))
        (lps-IsShort (map pair_part pairs) (rw same at h)) (omega arith))
