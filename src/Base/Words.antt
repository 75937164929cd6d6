-- ===== src/Base/Words.antt =====
-- Byte strings read and written as little-endian and big-endian words, and Rust's slices of them.
-- A byte is a number; `IsByte` states its range where a theorem needs it.
use Prim.Native.Char.{code}
use Prim.Native.String.{String}
use Prim.Native.Nat.{ℕ, zero, suc, ◌+◌, ◌-◌, ◌*◌, ◌/◌, ◌%◌, ◌^◌, ◌≤◌, ◌<◌}
use mathlib.Core.Path.{◌≡◌, refl, sym, ap, ◌∙◌}
use mathlib.Core.List.{List, [], ◌∷◌, ◌++◌}
use mathlib.Core.Bool.{Bool, false, ◌&&◌, ◌||◌}
use mathlib.Core.Option.{Option, none, some}
use native.Mathlib.Omega.{arith}
use fastsigner.Base.Test.{leb, ◌==◌, bytes_eq, if◌then◌else◌, le→leb}
use fastsigner.Base.Lists.{
  length-append, length-take, take_all, get_elem?, get_elem?-drop, Bytes, length, take, drop, All,
  drop-append_le, take-append_le, drop-append_at, drop-drop, length-drop, take-append_self,
  run-take,
}
use fastsigner.Base.Errors.{Outcome, ok, panic}

abbrev pub IsByte : ℕ → Type 0
IsByte b = b < 256

-- `x.to_le_bytes()` of an integer of `n` bytes; what does not fit is cut off, as by `as u32`.
unfoldable pub le_bytes : ℕ → ℕ → Bytes
le_bytes zero x = []
le_bytes (suc n) x = x % 256 ∷ le_bytes n (x / 256)

-- `from_le_bytes`.
unfoldable pub le_value : Bytes → ℕ
le_value [] = 0
le_value (x ∷ xs) = x + 256 * le_value xs

-- The word of `n` bytes at offset `i`, with no check of the range.
abbrev pub field : ℕ → Bytes → ℕ → ℕ
field n b i = le_value (take n (drop i b))

-- Indexing past the end panics.
unfoldable pub word_le : ℕ → Bytes → ℕ → Outcome ℕ
word_le n b i = if leb (i + n) (length b) then ok (field n b i) else panic

-- `&b[i..j]`.
unfoldable pub slice : Bytes → ℕ → ℕ → Outcome Bytes
slice b i j = if leb i j && leb j (length b) then ok (take (j - i) (drop i b)) else panic

pub length-le_bytes : (n x : ℕ) → length (le_bytes n x) ≡ n
unfolding le_bytes
length-le_bytes zero x = refl
length-le_bytes (suc n) x = ap suc (length-le_bytes n (x / 256))

pub le_bytes-IsByte : (n x : ℕ) → All IsByte (le_bytes n x)
unfolding le_bytes
le_bytes-IsByte zero x = tt
le_bytes-IsByte (suc n) x = (omega arith, le_bytes-IsByte n (x / 256))

pub le_value-le_bytes : (n x : ℕ) → x < 256 ^ n → le_value (le_bytes n x) ≡ x
unfolding le_value le_bytes
le_value-le_bytes zero x h = omega arith
le_value-le_bytes (suc n) x h = omega (arith, le_value-le_bytes n (x / 256) (omega arith))

-- `b[i..i + src.len()].copy_from_slice(src)`.
unfoldable pub put : Bytes → ℕ → Bytes → Outcome Bytes
put b i src =
    if leb (i + length src) (length b)
    then ok (take i b ++ (src ++ drop (i + length src) b))
    else panic

pub word_le_in_range :
    (n : ℕ) (b : Bytes) (i : ℕ) → i + n ≤ length b → word_le n b i ≡ ok (field n b i)
unfolding word_le
word_le_in_range n b i h = rw (le→leb _ _ h)

pub slice_in_range :
    (b : Bytes) (i j : ℕ) → i ≤ j → j ≤ length b → slice b i j ≡ ok (take (j - i) (drop i b))
unfolding slice
slice_in_range b i j h k = rw (le→leb _ _ h, le→leb _ _ k)

-- `&b[i..i + n]`.
pub slice_run :
    (b : Bytes) (i n : ℕ) → i + n ≤ length b → slice b i (i + n) ≡ ok (take n (drop i b))
slice_run b i n h =
    let same : i + n - i ≡ n = omega arith in rw (slice_in_range b i (i + n) (omega arith) h, same)

-- A field that lies in the first part of a string, and one that lies in the second.
pub field-append_left :
    (n : ℕ) (a b : Bytes) (i : ℕ) → i + n ≤ length a → field n (a ++ b) i ≡ field n a i
field-append_left n a b i h = rw (
  drop-append_le a b i (omega arith),
  take-append_le (drop i a) b n (omega (arith, length-drop i a)),
)

pub field-append_right :
    (n : ℕ) (a b : Bytes) (i j : ℕ) → j ≡ length a + i → field n (a ++ b) j ≡ field n b i
field-append_right n a b i j e = rw (drop-append_at a b i j e)

pub field-drop : (n : ℕ) (p : ℕ) (b : Bytes) (i : ℕ) → field n (drop p b) i ≡ field n b (p + i)
field-drop n p b i = rw (drop-drop p i (p + i) b refl)

pub field-take : (n m : ℕ) (b : Bytes) (i : ℕ) → i + n ≤ m → field n (take m b) i ≡ field n b i
field-take n m b i h = ap le_value (run-take i n m b h)

pub field-le_bytes :
    (n : ℕ) (x : ℕ) (rest : Bytes) → x < 256 ^ n → field n (le_bytes n x ++ rest) 0 ≡ x
field-le_bytes n x rest h = rw (
  take-append_self (le_bytes n x) rest n (omega (arith, length-le_bytes n x)),
  le_value-le_bytes n x h,
)

-- The code points of a text: its bytes, for the ASCII texts of the source.
abbrev pub codes : String → Bytes
codes String.[] = []
codes (String.◌∷◌ c s) = code c ∷ codes s

-- `starts_with` and `strip_prefix`, `ends_with`, `contains`.
unfoldable pub strip_prefix : Bytes → Bytes → Option Bytes
strip_prefix [] s = some s
strip_prefix (c ∷ p) [] = none
strip_prefix (c ∷ p) (d ∷ s) = if c == d then strip_prefix p s else none

unfoldable pub starts_with : Bytes → Bytes → Bool
starts_with s p = bytes_eq (take (length p) s) p

unfoldable pub ends_with : Bytes → Bytes → Bool
ends_with s p = leb (length p) (length s) && bytes_eq (drop (length s - length p) s) p

unfoldable pub contains : Bytes → ℕ → Bool
contains [] c = false
contains (d ∷ s) c = (d == c) || contains s c

unfoldable pub index {ℓ} : {A : Type ℓ} → List A → ℕ → Outcome A
index xs i = elim (get_elem? xs i) [ none ↦ panic | some x ↦ ok x ]

pub index-drop {ℓ} :
    {A : Type ℓ} (xs : List A) (i : ℕ) {x : A} {rest : List A}
    → drop i xs ≡ x ∷ rest
    → index xs i ≡ ok x
unfolding index
index-drop xs i e = rw (get_elem?-drop xs i e, index)

-- `put` in range: what it returns, and its length.
pub put_in_range :
    (b : Bytes) (i : ℕ) (src : Bytes)
    → i + length src ≤ length b
    → put b i src ≡ ok (take i b ++ (src ++ drop (i + length src) b))
unfolding put
put_in_range b i src h = rw (le→leb _ _ h)

pub length-put :
    (b : Bytes) (i : ℕ) (src : Bytes)
    → i + length src ≤ length b
    → length (take i b ++ (src ++ drop (i + length src) b)) ≡ length b
length-put b i src h = omega (
  arith,
  length-append (take i b) (src ++ drop (i + length src) b),
  length-append src (drop (i + length src) b),
  length-take i b,
  length-drop (i + length src) b,
)

-- A prefix and a suffix as slices.
pub slice_prefix : (b : Bytes) (n : ℕ) → n ≤ length b → slice b 0 n ≡ ok (take n b)
slice_prefix b n h =
    let same : n - 0 ≡ n = omega arith in rw (slice_in_range b 0 n (omega arith) h, same)

pub slice_suffix : (b : Bytes) (n : ℕ) → n ≤ length b → slice b n (length b) ≡ ok (drop n b)
slice_suffix b n h = rw (
  slice_in_range b n (length b) h (omega arith),
  take_all (drop n b) (length b - n) (omega (arith, length-drop n b)),
)

-- The new run of a string after `put`, and the runs that it leaves.
pub put-run :
    (b : Bytes) (i : ℕ) (src : Bytes)
    → i + length src ≤ length b
    → take (length src) (drop i (take i b ++ (src ++ drop (i + length src) b))) ≡ src
put-run b i src h = rw (
  drop-append_at (take i b) (src ++ drop (i + length src) b) 0 i (omega (arith, length-take i b)),
  take-append_self src (drop (i + length src) b) (length src) refl,
)

pub put-before :
    (b : Bytes) (i : ℕ) (src : Bytes) (j n : ℕ)
    → i + length src ≤ length b
    → j + n ≤ i
    → take n (drop j (take i b ++ (src ++ drop (i + length src) b))) ≡ take n (drop j b)
put-before b i src j n h k = rw (
  drop-append_le (take i b) (src ++ drop (i + length src) b) j (omega (arith, length-take i b)),
  take-append_le (drop j (take i b)) (src ++ drop (i + length src) b) n
      (omega (arith, length-take i b, length-drop j (take i b))),
  run-take j n i b k,
)

pub put-after :
    (b : Bytes) (i : ℕ) (src : Bytes) (j n : ℕ)
    → i + length src ≤ length b
    → i + length src ≤ j
    → take n (drop j (take i b ++ (src ++ drop (i + length src) b))) ≡ take n (drop j b)
put-after b i src j n h k = rw (
  drop-append_at (take i b) (src ++ drop (i + length src) b) (j - i) j
      (omega (arith, length-take i b)),
  drop-append_at src (drop (i + length src) b) (j - (i + length src)) (j - i) (omega arith),
  drop-drop (i + length src) (j - (i + length src)) j b (omega arith),
)

-- A string with a run of it replaced, as `put` returns it, and the fields that it has then.
abbrev pub patched : Bytes → ℕ → Bytes → Bytes
patched b i src = take i b ++ (src ++ drop (i + length src) b)

pub field-patched :
    (n x : ℕ) (b : Bytes) (i : ℕ)
    → i + n ≤ length b
    → x < 256 ^ n
    → field n (patched b i (le_bytes n x)) i ≡ x
field-patched n x b i h k =
    let size = length-le_bytes n x in
    ap (λ m. le_value (take m (drop i (patched b i (le_bytes n x))))) (sym size)
    ∙ ap le_value (put-run b i (le_bytes n x) (omega (arith, size)))
    ∙ le_value-le_bytes n x k

pub drop-patched :
    (b : Bytes) (i : ℕ) (src : Bytes) (j : ℕ)
    → i + length src ≤ length b
    → i + length src ≤ j
    → drop j (patched b i src) ≡ drop j b
drop-patched b i src j h k = rw (
  drop-append_at (take i b) (src ++ drop (i + length src) b) (j - i) j
      (omega (arith, length-take i b)),
  drop-append_at src (drop (i + length src) b) (j - (i + length src)) (j - i) (omega arith),
  drop-drop (i + length src) (j - (i + length src)) j b (omega arith),
)

-- A field before the run that is replaced.
pub field-patched_before :
    (n : ℕ) (b : Bytes) (i : ℕ) (src : Bytes) (j : ℕ)
    → i + length src ≤ length b
    → j + n ≤ i
    → field n (patched b i src) j ≡ field n b j
field-patched_before n b i src j h k = ap le_value (put-before b i src j n h k)
