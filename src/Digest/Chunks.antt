-- ===== src/Digest/Chunks.antt =====
-- The chunks of a source are the runs of 1 MiB of its bytes.
use fastsigner.Base.{
  ◌∙◌, length-append, length-drop, drop-drop, slice_in_range, ℕ, zero, suc, ◌+◌, ◌-◌, ◌*◌, ◌/◌, ◌≤◌,
  ◌<◌, ◌≡◌, refl, min, List, [], ◌∷◌, ◌++◌, some, Bytes, length, take, drop, leb, ok, arith,
  get_elem?, Bool-cases, inl, inr,
}
use fastsigner.Digest.{Source, len, chunk_count, chunk, chunks, chunks_loop, total_chunks, locate}

-- The bytes of a source.
abbrev pub bytes_of : Source → Bytes
bytes_of s = s.body ++ s.tail

-- A run that crosses from one string to the next.
take-append : (n : ℕ) (a b : Bytes) → take n (a ++ b) ≡ take n a ++ take (n - length a) b
take-append zero [] b = refl
take-append (suc n) [] b = let all_left : suc n - 0 ≡ suc n = omega arith in rw all_left
take-append zero (x ∷ a) b = let none_left : 0 - length (x ∷ a) ≡ 0 = omega arith in rw none_left
take-append (suc n) (x ∷ a) b =
    let same : suc n - length (x ∷ a) ≡ n - length a = omega arith in rw (same, take-append n a b)

drop-append : (n : ℕ) (a b : Bytes) → drop n (a ++ b) ≡ drop n a ++ drop (n - length a) b
drop-append zero [] b = refl
drop-append (suc n) [] b = let all_left : suc n - 0 ≡ suc n = omega arith in rw all_left
drop-append zero (x ∷ a) b = let none_left : 0 - length (x ∷ a) ≡ 0 = omega arith in rw none_left
drop-append (suc n) (x ∷ a) b =
    let same : suc n - length (x ∷ a) ≡ n - length a = omega arith in rw (same, drop-append n a b)

-- Taking more than there is.
take_cap : (n m : ℕ) (b : Bytes) → min n (length b) ≡ min m (length b) → take n b ≡ take m b
take_cap zero zero b e = refl
take_cap zero (suc m) [] e = refl
take_cap zero (suc m) (x ∷ b) e = absurd (omega arith)
take_cap (suc n) zero [] e = refl
take_cap (suc n) zero (x ∷ b) e = absurd (omega arith)
take_cap (suc n) (suc m) [] e = refl
take_cap (suc n) (suc m) (x ∷ b) e = rw (take_cap n m b (omega arith))

drop_cap : (n m : ℕ) (b : Bytes) → min n (length b) ≡ min m (length b) → drop n b ≡ drop m b
drop_cap zero zero b e = refl
drop_cap zero (suc m) [] e = refl
drop_cap zero (suc m) (x ∷ b) e = absurd (omega arith)
drop_cap (suc n) zero [] e = refl
drop_cap (suc n) zero (x ∷ b) e = absurd (omega arith)
drop_cap (suc n) (suc m) [] e = refl
drop_cap (suc n) (suc m) (x ∷ b) e = drop_cap n m b (omega arith)

pub chunks-count :
    (fuel : ℕ) (b : Bytes)
    → length b ≤ fuel
    → length (chunks_loop fuel b) ≡ (length b + 1048575) / 1048576
chunks-count zero [] h = omega arith
chunks-count zero (x ∷ b) h = absurd (omega arith)
chunks-count (suc fuel) [] h = omega arith
chunks-count (suc fuel) (x ∷ b) h = omega (
  arith,
  length-drop 1048576 (x ∷ b),
  chunks-count fuel (drop 1048576 (x ∷ b)) (omega (arith, length-drop 1048576 (x ∷ b))),
)

pub chunks-at :
    (fuel : ℕ) (b : Bytes) (k : ℕ)
    → length b ≤ fuel
    → k * 1048576 < length b
    → get_elem? (chunks_loop fuel b) k ≡ some (take 1048576 (drop (k * 1048576) b))
chunks-at zero b k h l = absurd (omega arith)
chunks-at (suc fuel) [] k h l = absurd (omega arith)
chunks-at (suc fuel) (x ∷ b) zero h l = refl
chunks-at (suc fuel) (x ∷ b) (suc k) h l = rw (
  chunks-at fuel (drop 1048576 (x ∷ b)) k (omega (arith, length-drop 1048576 (x ∷ b)))
      (omega (arith, length-drop 1048576 (x ∷ b))),
  drop-drop 1048576 (k * 1048576) (suc k * 1048576) (x ∷ b) (omega arith),
)

-- The parts of the run from `i` up to `j` of two strings one after the other.
run_parts :
    (body tail : Bytes) (i j n : ℕ)
    → j ≡ min (i + n) (length body + length tail)
    → i ≤ j
    → take (min j (length body) - min i (length body)) (drop (min i (length body)) body)
        ++ take ((j - length body) - (i - length body)) (drop (i - length body) tail)
      ≡ take n (drop i (body ++ tail))
run_parts body tail i j n e h = rw (
  drop-append i body tail,
  take-append n (drop i body) (drop (i - length body) tail),
  drop_cap (min i (length body)) i body (omega arith),
  take_cap (min j (length body) - min i (length body)) n (drop i body)
      (omega (arith, length-drop i body)),
  take_cap ((j - length body) - (i - length body)) (n - length (drop i body))
      (drop (i - length body) tail)
      (omega (arith, length-drop i body, length-drop (i - length body) tail)),
)

-- Chunk `k` of a source is in range and its parts together are the run of bytes there.
pub chunk-run :
    (s : Source) (k : ℕ)
    → k < chunk_count s
    → (body : Bytes) × (tail : Bytes) × (chunk s k ≡ ok (body, tail))
      × (body ++ tail ≡ take 1048576 (drop (k * 1048576) (bytes_of s)))
unfolding chunk chunk_count len
chunk-run s k h =
    let d = length s.body in
    let i = k * 1048576 in
    let j = min (i + 1048576) (d + length s.tail) in
    let ij : i ≤ j = omega arith in
    (
      take (min j d - min i d) (drop (min i d) s.body),
      take (j - d - (i - d)) (drop (i - d) s.tail),
      rw (
        slice_in_range s.body (min i d) (min j d) (omega arith) (omega arith),
        slice_in_range s.tail (i - d) (j - d) (omega arith) (omega arith),
      ),
      run_parts s.body s.tail i j 1048576 refl ij,
    )

-- The chunks of all sources, in order.
abbrev pub all_chunks : List Source → List Bytes
all_chunks [] = []
all_chunks (s ∷ sources) = chunks (bytes_of s) ++ all_chunks sources

chunk_count-chunks : (s : Source) → length (chunks (bytes_of s)) ≡ chunk_count s
unfolding chunk_count len
chunk_count-chunks s =
    rw (chunks-count (length (bytes_of s)) (bytes_of s) (omega arith), length-append s.body s.tail)
      (omega arith)

pub length-all_chunks : (sources : List Source) → length (all_chunks sources) ≡ total_chunks sources
unfolding total_chunks
length-all_chunks [] = refl
length-all_chunks (s ∷ sources) = rw (
  length-append (chunks (bytes_of s)) (all_chunks sources),
  chunk_count-chunks s,
  length-all_chunks sources,
)

get_elem?-append_left :
    (xs ys : List Bytes) (k : ℕ) → k < length xs → get_elem? (xs ++ ys) k ≡ get_elem? xs k
get_elem?-append_left [] ys k h = absurd (omega arith)
get_elem?-append_left (x ∷ xs) ys zero h = refl
get_elem?-append_left (x ∷ xs) ys (suc k) h = get_elem?-append_left xs ys k (omega arith)

get_elem?-append_right :
    (xs ys : List Bytes) (k i : ℕ) → i ≡ length xs + k → get_elem? (xs ++ ys) i ≡ get_elem? ys k
get_elem?-append_right [] ys k i e = let same : i ≡ k = omega arith in rw same
get_elem?-append_right (x ∷ xs) ys k zero e = absurd (omega arith)
get_elem?-append_right (x ∷ xs) ys k (suc i) e = get_elem?-append_right xs ys k i (omega arith)

chunk_starts : (s : Source) (k : ℕ) → k < chunk_count s → k * 1048576 < length (bytes_of s)
unfolding chunk_count len
chunk_starts s k h = omega (arith, length-append s.body s.tail)

-- Global chunk `k` is found, and is the `k`-th chunk.
pub locate-chunk :
    (sources : List Source) (k : ℕ)
    → k < total_chunks sources
    → (s : Source) × (i : ℕ) × (body : Bytes) × (tail : Bytes) × (locate sources k ≡ ok (s, i))
      × (chunk s i ≡ ok (body, tail))
      × (get_elem? (all_chunks sources) k ≡ some (body ++ tail))
unfolding total_chunks locate
locate-chunk [] k h = absurd (omega arith)
locate-chunk (s ∷ sources) k h = elim (Bool-cases (leb (chunk_count s) k)) [
  | inl later ↦
      let (s', i, body, tail, found, run, at) =
        locate-chunk sources (k - chunk_count s) (ground arith) in
      (
        s',
        i,
        body,
        tail,
        rw later found,
        run,
        get_elem?-append_right (chunks (bytes_of s)) (all_chunks sources) (k - chunk_count s) k
              (ground (arith, chunk_count-chunks s))
            ∙ at,
      )
  | inr here ↦
      let (body, tail, run, eq) = chunk-run s k (ground arith) in
      (
        s,
        k,
        body,
        tail,
        rw here,
        run,
        (rw eq (
            get_elem?-append_left (chunks (bytes_of s)) (all_chunks sources) k
              (ground (arith, chunk_count-chunks s))
            ∙ chunks-at (length (bytes_of s)) (bytes_of s) k (omega arith)
                (chunk_starts s k (ground arith)))),
      )
]
