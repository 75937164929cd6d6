-- ===== src/Align/Plan/Directory.antt =====
-- The Central Directory of a rewritten archive.
use fastsigner.Base.{
  ℕ, zero, suc, ◌+◌, ◌%◌, ◌^◌, ◌≤◌, ◌<◌, ◌≡◌, refl, sym, ap, ◌∙◌, false, Option, some, none, List,
  [], ◌∷◌, ◌++◌, Bytes, length, take, drop, All, get_elem?, ok, arith, le_bytes, le_value, put,
  if◌then◌else◌, ◌==◌, set,
}
use fastsigner.Base.{
  length-set, lt→ltb, field, field-append_left, field-append_right, field-take, slice_run,
  put_in_range, take-append_self, take-append_le, drop-append_at, take-append_at, length-append,
  length-take, length-drop, length-le_bytes, append_assoc, append-nil, take-take,
}
use fastsigner.Zip.Directory.Grammar.{IsRecord, entry_of}
use fastsigner.Zip.Filter.Rows.{concat}
use fastsigner.Align.Plan.{Plan, set_offset, new_offsets, new_record}

-- The entry of a plan is one of the `n`.
abbrev pub Within : ℕ → Option ℕ → Type 0
Within n none = Unit
Within n (some i) = i < n

abbrev pub Placed : ℕ → Plan → Type 0
Placed n p = Within n p.idx

-- Where the plans put the entry with the index `i`.
abbrev pub place_by : Option ℕ → ℕ → ℕ → Option ℕ → Option ℕ
place_by none off i o = o
place_by (some j) off i o = if j == i then some off else o

abbrev pub place : ℕ → List Plan → Option ℕ → Option ℕ
place i [] o = o
place i (p ∷ ps) o = place i ps (place_by p.idx p.new_off i o)

==_suc : (i k : ℕ) → (suc i == suc k) ≡ (i == k)
==_suc i k = ground arith

pub get_elem?-set {ℓ} :
    {A : Type ℓ} (xs : List A) (i k : ℕ) (v x : A)
    → get_elem? xs k ≡ some x
    → get_elem? (set xs i v) k ≡ some (if i == k then v else x)
get_elem?-set [] i k v x h = absurd (cc)
get_elem?-set (y ∷ xs) zero zero v x h = refl
get_elem?-set (y ∷ xs) zero (suc k) v x h =
    let other : (0 == suc k) ≡ false = ground arith in rw other h
get_elem?-set (y ∷ xs) (suc i) zero v x h =
    let other : (suc i == 0) ≡ false = ground arith in rw other h
get_elem?-set (y ∷ xs) (suc i) (suc k) v x h = rw (==_suc i k) (get_elem?-set xs i k v x h)

-- A list of offsets with one plan's more.
abbrev Offset : List (Option ℕ) → Option ℕ → ℕ → List (Option ℕ) → Type 0
Offset offs idx off offs' =
    (set_offset idx off offs ≡ ok offs')
    × (length offs' ≡ length offs)
    × ((k : ℕ) (o : Option ℕ)
        → get_elem? offs k ≡ some o
        → get_elem? offs' k ≡ some (place_by idx off k o))

set_offset_lem :
    (offs : List (Option ℕ)) (idx : Option ℕ) (off : ℕ)
    → Within (length offs) idx
    → (offs' : List (Option ℕ)) × Offset offs idx off offs'
unfolding set_offset
set_offset_lem offs none off h = (offs, (refl, refl, λ k o at. at))
set_offset_lem offs (some i) off h = (
  set offs i (some off),
  (
    rw (lt→ltb i (length offs) h) refl,
    length-set offs i (some off),
    λ k o at. get_elem?-set offs i k (some off) o at,
  ),
)

pub new_offsets_lem :
    (plans : List Plan) (offs : List (Option ℕ)) (n : ℕ)
    → length offs ≡ n
    → All (Placed n) plans
    → (offs' : List (Option ℕ)) × (new_offsets plans offs ≡ ok offs')
      × (length offs' ≡ n)
      × ((k : ℕ) (o : Option ℕ)
          → get_elem? offs k ≡ some o
          → get_elem? offs' k ≡ some (place k plans o))
unfolding new_offsets
new_offsets_lem [] offs n size placed = (offs, refl, size, λ k o at. at)
new_offsets_lem (p ∷ plans) offs n size (here, placed) =
    let (mid, (run, same, ats)) = set_offset_lem offs p.idx p.new_off (rw size here) in
    let (offs', run', size', ats') = new_offsets_lem plans mid n (same ∙ size) placed in
    (offs', rw (run, run'), size', λ k o at. ats' k (place_by p.idx p.new_off k o) (ats k o at))

-- A record with its offset replaced.
abbrev pub moved_row : Bytes → ℕ → Bytes
moved_row r off = take 42 r ++ (le_bytes 4 off ++ drop 46 r)

abbrev pub moved_onto : Option ℕ → Bytes → List Bytes → List Bytes
moved_onto none r rows = rows
moved_onto (some off) r rows = moved_row r off ∷ rows

abbrev pub moved_rows : List Plan → ℕ → List Bytes → List Bytes
moved_rows plans i [] = []
moved_rows plans i (r ∷ rs) = moved_onto (place i plans none) r (moved_rows plans (suc i) rs)

patched :
    (out r : Bytes) (off : ℕ)
    → 46 ≤ length r
    → put (out ++ r) (length out + 42) (le_bytes 4 off) ≡ ok (out ++ moved_row r off)
patched out r off h =
    let four = length-le_bytes 4 off in
    put_in_range (out ++ r) (length out + 42) (le_bytes 4 off)
      (omega (arith, four, length-append out r))
    ∙ ap ok (
        rw
          (
            drop-append_at out r 46 (length out + 42 + length (le_bytes 4 off))
                (omega (arith, four)),
            take-append_at out r 42 (length out + 42) refl,
            append_assoc out (take 42 r) (le_bytes 4 off ++ drop 46 r),
          )
          refl)

abbrev pub added : Option ℕ → ℕ → ℕ
added none count = count
added (some off) count = count + 1

pub new_record_lem :
    (cd r rest : Bytes) (p : ℕ) (place : Option ℕ) (out : Bytes) (count : ℕ)
    → p ≤ length cd
    → drop p cd ≡ r ++ rest
    → IsRecord r
    → new_record cd (entry_of p r) place out count
      ≡ ok (out ++ concat (moved_onto place r []), added place count)
unfolding new_record
new_record_lem cd r rest p none out count inside at is = rw (append-nil out) refl
new_record_lem cd r rest p (some off) out count inside at is =
    let room : p + length r ≤ length cd =
      omega (arith, length-drop p cd, ap length at, length-append r rest) in
    rw
      (
        slice_run cd p (length r) room,
        at,
        take-append_self r rest (length r) refl,
        patched out r off is.header,
        append-nil (moved_row r off),
      )
      refl

-- A record with another offset is a whole record.
pub field-moved_row :
    (n k : ℕ) (r : Bytes) (off : ℕ)
    → 46 ≤ length r
    → k + n ≤ 42
    → field n (moved_row r off) k ≡ field n r k
field-moved_row n k r off h j =
    field-append_left n (take 42 r) (le_bytes 4 off ++ drop 46 r) k
      (omega (arith, length-take 42 r))
    ∙ field-take n 42 r k j

pub length-moved_row : (r : Bytes) (off : ℕ) → 46 ≤ length r → length (moved_row r off) ≡ length r
length-moved_row r off h = omega (
  arith,
  length-append (take 42 r) (le_bytes 4 off ++ drop 46 r),
  length-append (le_bytes 4 off) (drop 46 r),
  length-take 42 r,
  length-drop 46 r,
  length-le_bytes 4 off,
)

low_bytes : (off : ℕ) → le_value (le_bytes 4 off) ≡ off % 2 ^ 32
unfolding le_value le_bytes
low_bytes off = omega arith

pub moved_off : (r : Bytes) (off : ℕ) → 46 ≤ length r → field 4 (moved_row r off) 42 ≡ off % 2 ^ 32
moved_off r off h =
    field-append_right 4 (take 42 r) (le_bytes 4 off ++ drop 46 r) 0 42
      (omega (arith, length-take 42 r))
    ∙ ap le_value (take-append_self (le_bytes 4 off) (drop 46 r) 4 (sym (length-le_bytes 4 off)))
    ∙ low_bytes off

pub moved_row-IsRecord : (r : Bytes) (off : ℕ) → IsRecord r → IsRecord (moved_row r off)
moved_row-IsRecord r off is =
    let h : 46 ≤ length r = is.header in
    record {
      header = omega (arith, length-moved_row r off h);
      signature =
          take-append_le (take 42 r) (le_bytes 4 off ++ drop 46 r) 4
            (omega (arith, length-take 42 r))
          ∙ take-take 4 42 r (omega arith)
          ∙ is.signature;
      fills = omega (
        arith,
        is.fills,
        length-moved_row r off h,
        field-moved_row 2 28 r off h (omega arith),
        field-moved_row 2 30 r off h (omega arith),
        field-moved_row 2 32 r off h (omega arith),
      );
    }
