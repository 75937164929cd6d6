-- ===== src/Digest/Schedule.antt =====
-- `content_digest` on any number of threads: how the workers interleave does not show.
pub mod Alone
pub mod Threads
use fastsigner.Base.{
  put_in_range, false, ==_iff, All-append, ◌==◌, ℕ, zero, suc, ◌+◌, ◌-◌, ◌*◌, ◌≤◌, ◌<◌, ◌≡◌, refl,
  List, [], ◌∷◌, ◌++◌, map, Bytes, length, take, drop, replicate, Outcome, ok, arith, All, ◌⊎◌, inl,
  inr, Option, some, none, get_elem?, le_bytes, Returns, Returns-ok, >>=-Returns, if-Returns, ap,
  sym, subst, ◌∙◌, append_assoc, append-nil, leb, Bool-cases, leb→le, ltb→lt, le→leb,
  length-replicate, length-drop, length-append, take-append_self, put,
}
use fastsigner.Digest.{
  place, Algorithm, Source, Claimed, claim, record_digest, hash_chunk, total_chunks, finish_digest,
  join, top_digest, locate, chunk, file_part_of, inspected,
}
use fastsigner.Digest.Chunks.{all_chunks, length-all_chunks, locate-chunk}
use fastsigner.Digest.Assemble.{IsRecord, Has, place-join}

-- The scheme: H(0xa5, length, chunk) of every chunk, and H(0x5a, count, those) of them all.
abbrev pub chunk_digest : Algorithm → Bytes → Bytes
chunk_digest alg c = alg.digest (0xa5 ∷ le_bytes 4 (length c) ++ c)

abbrev pub digests : Algorithm → List Source → List Bytes
digests alg sources = map (chunk_digest alg) (all_chunks sources)

abbrev pub reference : Algorithm → List Source → Bytes
reference alg sources =
    alg.digest (0x5a ∷ le_bytes 4 (length (all_chunks sources)) ++ join (digests alg sources))

-- What ring states of its digests.
abbrev pub IsHash : Algorithm → Type 0
IsHash alg = ((m : Bytes) → length (alg.digest m) ≡ alg.output_len) × (alg.output_len ≤ 64)

-- The counter, the chunks that are claimed and not recorded, and what each worker has recorded.
pub record State : Type 0 where
  pub next : ℕ
  pub in_flight : List Claimed
  pub outs : List (List (ℕ × Bytes))

abbrev pub start : ℕ → State
start workers = record { next = 0; in_flight = []; outs = replicate workers [] }

-- The workers' results, one after the other.
abbrev pub all_of : List (List (ℕ × Bytes)) → List (ℕ × Bytes)
all_of [] = []
all_of (out ∷ outs) = out ++ all_of outs

-- A step of some worker: the counter is read and raised as one, a claim that finds no chunk left
-- only raises it, and a chunk in flight is hashed and recorded.
pub data Step (alg : Algorithm) (sources : List Source) : State → State → Type 0 where
  claims :
      (next : ℕ) (in_flight : List Claimed) (outs : List (List (ℕ × Bytes))) (c : Claimed)
      (seen : List (ℕ × Bytes))
      → claim sources next ≡ ok (some (c, seen))
      → Step alg sources
          (record { next = next; in_flight = in_flight; outs = outs })
          (record { next = next + 1; in_flight = c ∷ in_flight; outs = outs })
  ends :
      (next : ℕ) (in_flight : List Claimed) (outs : List (List (ℕ × Bytes)))
      → claim sources next ≡ ok none
      → Step alg sources
          (record { next = next; in_flight = in_flight; outs = outs })
          (record { next = next + 1; in_flight = in_flight; outs = outs })
  records :
      (next : ℕ) (before after : List Claimed) (left right : List (List (ℕ × Bytes))) (c : Claimed)
      (out : List (ℕ × Bytes)) (r : ℕ × Bytes)
      → record_digest c.k (hash_chunk alg (c.parts.0 ∷ c.parts.1 ∷ [])) ≡ ok r
      → Step alg sources
          (record { next = next; in_flight = before ++ c ∷ after; outs = left ++ out ∷ right })
          (record {
            next = next;
            in_flight = before ++ after;
            outs = left ++ (out ++ r ∷ []) ∷ right;
          })

pub data Reaches (alg : Algorithm) (sources : List Source) : State → State → Type 0 where
  here : (s : State) → Reaches alg sources s s
  there : (s t u : State) → Reaches alg sources s t → Step alg sources t u → Reaches alg sources s u

-- A claimed chunk holds the bytes of the chunk of its index.
abbrev pub Holds : List Source → Claimed → Type 0
Holds sources c = get_elem? (all_chunks sources) c.k ≡ some (c.parts.0 ++ c.parts.1)

abbrev pub Claims : List Source → ℕ → Option (Claimed × List (ℕ × Bytes)) → Type 0
Claims sources k none = total_chunks sources ≤ k
Claims sources k (some (c, seen)) = Holds sources c × (c.k ≡ k)

pub claim-Claims : (sources : List Source) (k : ℕ) → Returns (Claims sources k) (claim sources k)
unfolding claim
claim-Claims sources k = elim (Bool-cases (leb (total_chunks sources) k)) [
  | inl over ↦ rw over (leb→le (total_chunks sources) k over)
  | inr within ↦
      let (s, i, body, tail, found, run, at) = locate-chunk sources k (ground arith) in
      rw (within, found, run) (at, refl)
]

pub claim-some :
    (sources : List Source) (k : ℕ)
    → k < total_chunks sources
    → (c : Claimed) × (seen : List (ℕ × Bytes)) × (claim sources k ≡ ok (some (c, seen)))
      × Holds sources c
      × (c.k ≡ k)
unfolding claim
claim-some sources k h =
    let within : leb (total_chunks sources) k ≡ false = ground arith in
    let (s, i, body, tail, found, run, at) = locate-chunk sources k h in
    (
      record { k = k; parts = (body, tail); file_part = file_part_of s.file_off body },
      inspected s.file_off i body,
      rw (within, found, run),
      at,
      refl,
    )

pub claim-none :
    (sources : List Source) (k : ℕ) → total_chunks sources ≤ k → claim sources k ≡ ok none
unfolding claim
claim-none sources k h = rw (le→leb (total_chunks sources) k h)

hash_parts :
    (alg : Algorithm) (a b : Bytes) → hash_chunk alg (a ∷ b ∷ []) ≡ chunk_digest alg (a ++ b)
unfolding hash_chunk
hash_parts alg a b = ap (λ c. chunk_digest alg (a ++ c)) (append-nil b)

get_elem?-map :
    (f : Bytes → Bytes) (xs : List Bytes) (k : ℕ) {x : Bytes}
    → get_elem? xs k ≡ some x
    → get_elem? (map f xs) k ≡ some (f x)
get_elem?-map f [] k e = cc
get_elem?-map f (y ∷ xs) zero e = cc
get_elem?-map f (y ∷ xs) (suc k) e = get_elem?-map f xs k e

record_lem :
    (k : ℕ) (d : Bytes) → length d ≤ 64 → (rest : Bytes) × (record_digest k d ≡ ok (k, d ++ rest))
unfolding record_digest
record_lem k d h = (
  drop (0 + length d) (replicate 64 0),
  rw (put_in_range (replicate 64 0) 0 d (omega arith)) refl,
)

-- The record of a claimed chunk is that of its digest.
pub record_digest-IsRecord :
    (alg : Algorithm) (sources : List Source) (c : Claimed)
    → IsHash alg
    → Holds sources c
    → (a : Bytes) × (record_digest c.k (hash_chunk alg (c.parts.0 ∷ c.parts.1 ∷ [])) ≡ ok (c.k, a))
      × IsRecord (digests alg sources) alg.output_len (c.k, a)
record_digest-IsRecord alg sources c (len, fits) holds =
    let whole = c.parts.0 ++ c.parts.1 in
    let d = chunk_digest alg whole in
    let size : length d ≡ alg.output_len = len (0xa5 ∷ le_bytes 4 (length whole) ++ whole) in
    let (rest, run) = record_lem c.k d (omega arith) in
    (
      d ++ rest,
      ap (record_digest c.k) (hash_parts alg c.parts.0 c.parts.1) ∙ run,
      (
        d,
        get_elem?-map (chunk_digest alg) (all_chunks sources) c.k holds,
        omega (arith, length-append d rest),
        take-append_self d rest alg.output_len (sym size),
      ),
    )

length-map : (f : Bytes → Bytes) (xs : List Bytes) → length (map f xs) ≡ length xs
length-map f [] = refl
length-map f (x ∷ xs) = ap suc (length-map f xs)

pub length-digests :
    (alg : Algorithm) (sources : List Source) → length (digests alg sources) ≡ total_chunks sources
length-digests alg sources =
    length-map (chunk_digest alg) (all_chunks sources) ∙ length-all_chunks sources

pub top_digest-reference :
    (alg : Algorithm) (sources : List Source)
    → top_digest alg (total_chunks sources) (join (digests alg sources) ∷ [])
      ≡ reference alg sources
unfolding top_digest
top_digest-reference alg sources =
    ap (λ d. alg.digest (0x5a ∷ le_bytes 4 (total_chunks sources) ++ d))
      (append-nil (join (digests alg sources)))
    ∙ ap (λ n. alg.digest (0x5a ∷ le_bytes 4 n ++ join (digests alg sources)))
        (sym (length-all_chunks sources))

pub finish_digest-reference :
    (alg : Algorithm) (sources : List Source) (all : List (ℕ × Bytes))
    → All (IsRecord (digests alg sources) alg.output_len) all
    → ((j : ℕ) → j < total_chunks sources → Has j all)
    → finish_digest alg sources all ≡ ok (reference alg sources)
unfolding finish_digest
finish_digest-reference alg sources all rs has =
    let n = length-digests alg sources in
    let placed : place alg.output_len (replicate (total_chunks sources * alg.output_len) 0) all
        ≡ ok (join (digests alg sources)) =
      subst
        (λ t.
          place alg.output_len (replicate (t * alg.output_len) 0) all
          ≡ ok (join (digests alg sources)))
        n
        (place-join (digests alg sources) alg.output_len all rs
          (λ j h. has j (omega (arith, n)))) in
    rw (placed, top_digest-reference alg sources)
