-- ===== src/Digest/Schedule/Alone.antt =====
-- The worker that is alone, and the digests of sections taken apart.
use fastsigner.Base.{
  le_bytes, length-append, ℕ, zero, suc, ◌+◌, ◌≤◌, ◌<◌, ◌≡◌, refl, List, [], ◌∷◌, ◌++◌, map, Bytes,
  length, ok, arith, All, inl, inr, some, none, sym, ◌∙◌, ap, append_assoc, append-nil, ltb,
  Bool-cases, ltb→lt, ltb→le, ==_iff, ◌==◌, All-append,
}
use fastsigner.Digest.{
  Algorithm, Source, Claimed, claim, record_digest, hash_chunk, total_chunks, join, worker,
  content_digest, chunk_digests_loop, chunk_digests_of, chunks, top_digest,
}
use fastsigner.Digest.Chunks.{all_chunks, bytes_of}
use fastsigner.Digest.Assemble.{IsRecord, Has, Has-append_left, Has-append_right}
use fastsigner.Digest.Schedule.{
  digests, chunk_digest, reference, IsHash, claim-some, claim-none, record_digest-IsRecord,
  finish_digest-reference,
}

worker-next :
    (alg : Algorithm) (sources : List Source) (fuel next : ℕ) (out seen : List (ℕ × Bytes))
    (c : Claimed) (r : ℕ × Bytes)
    → claim sources next ≡ ok (some (c, seen))
    → record_digest c.k (hash_chunk alg (c.parts.0 ∷ c.parts.1 ∷ [])) ≡ ok r
    → worker alg sources (suc fuel) next out ≡ worker alg sources fuel (next + 1) (out ++ r ∷ [])
unfolding worker
worker-next alg sources fuel next out seen c r e e' = rw (e, e')

worker-end :
    (alg : Algorithm) (sources : List Source) (fuel next : ℕ) (out : List (ℕ × Bytes))
    → claim sources next ≡ ok none
    → worker alg sources (suc fuel) next out ≡ ok out
unfolding worker
worker-end alg sources fuel next out e = rw e

worker-records :
    (fuel : ℕ) (alg : Algorithm) (sources : List Source) (next : ℕ) (out : List (ℕ × Bytes))
    → IsHash alg
    → next ≤ total_chunks sources
    → total_chunks sources + 1 ≤ next + fuel
    → All (IsRecord (digests alg sources) alg.output_len) out
    → ((j : ℕ) → j < next → Has j out)
    → (all : List (ℕ × Bytes)) × (worker alg sources fuel next out ≡ ok all)
      × All (IsRecord (digests alg sources) alg.output_len) all
      × ((j : ℕ) → j < total_chunks sources → Has j all)
worker-records zero alg sources next out hash low high rs has = absurd (omega arith)
worker-records (suc fuel) alg sources next out hash low high rs has =
    elim (Bool-cases (ltb next (total_chunks sources))) [
      | inl more ↦
          let (c, seen, claimed, holds, same) =
            claim-some sources next (ltb→lt next (total_chunks sources) more) in
          let (a, run, is) = record_digest-IsRecord alg sources c hash holds in
          let (all, runs, rs', has') =
            worker-records fuel alg sources (next + 1) (out ++ (c.k, a) ∷ []) hash
              (omega (arith, ltb→lt next (total_chunks sources) more)) (omega arith)
              (All-append (IsRecord (digests alg sources) alg.output_len) out ((c.k, a) ∷ []) rs
                (is, tt))
              (λ j h. elim (Bool-cases (j == next)) [
                | inl now ↦
                    Has-append_right j out ((c.k, a) ∷ [])
                      (inl (omega (arith, same, (==_iff j next).0 now)))
                | inr before ↦ Has-append_left j out ((c.k, a) ∷ []) (has j (ground arith))
              ]) in
          (all, worker-next alg sources fuel next out seen c (c.k, a) claimed run ∙ runs, rs', has')
      | inr over ↦
          let full = ltb→le next (total_chunks sources) over in
          (
            out,
            worker-end alg sources fuel next out (claim-none sources next full),
            rs,
            λ j h. has j (omega arith),
          )
    ]

-- On one thread `content_digest` returns, with no panic, the digest of the scheme, of a hash whose
-- digests have a fixed length of at most 64 bytes.
pub content_digest_alone :
    (alg : Algorithm) (sources : List Source)
    → IsHash alg
    → content_digest alg sources ≡ ok (reference alg sources)
unfolding content_digest
content_digest_alone alg sources hash =
    let (all, run, rs, has) =
      worker-records (total_chunks sources + 1) alg sources 0 [] hash (omega arith) (omega arith) tt
        (λ j h. absurd (omega arith)) in
    rw run (finish_digest-reference alg sources all rs has)

join-append : (a b : List Bytes) → join (a ++ b) ≡ join a ++ join b
join-append [] b = refl
join-append (x ∷ a) b = rw (join-append a b) (sym (append_assoc x (join a) (join b)))

map-append : (f : Bytes → Bytes) (a b : List Bytes) → map f (a ++ b) ≡ map f a ++ map f b
map-append f [] b = refl
map-append f (x ∷ a) b = ap (λ l. f x ∷ l) (map-append f a b)

hash_one : (alg : Algorithm) (c : Bytes) → hash_chunk alg (c ∷ []) ≡ chunk_digest alg c
unfolding hash_chunk
hash_one alg c = ap (chunk_digest alg) (append-nil c)

chunk_digests_loop-all :
    (cs : List Bytes) (alg : Algorithm) (n : ℕ) (out : Bytes)
    → chunk_digests_loop alg n out cs ≡ (n + length cs, out ++ join (map (chunk_digest alg) cs))
unfolding chunk_digests_loop
chunk_digests_loop-all [] alg n out =
    let same : n + 0 ≡ n = omega arith in rw (same, append-nil out)
chunk_digests_loop-all (c ∷ cs) alg n out =
    let count : n + 1 + length cs ≡ n + suc (length cs) = omega arith in
    rw (
      hash_one alg c,
      chunk_digests_loop-all cs alg (n + 1) (out ++ chunk_digest alg c),
      count,
      append_assoc out (chunk_digest alg c) (join (map (chunk_digest alg) cs)),
    )

-- `chunk_digests_of` each section, with the numbers added and the runs passed in order.
abbrev pub counts : Algorithm → List Source → ℕ
counts alg [] = 0
counts alg (s ∷ sources) = (chunk_digests_of alg (bytes_of s)).0 + counts alg sources

abbrev pub runs_of : Algorithm → List Source → List Bytes
runs_of alg [] = []
runs_of alg (s ∷ sources) = (chunk_digests_of alg (bytes_of s)).1 ∷ runs_of alg sources

chunk_digests_of_lem :
    (alg : Algorithm) (b : Bytes)
    → chunk_digests_of alg b ≡ (length (chunks b), join (map (chunk_digest alg) (chunks b)))
unfolding chunk_digests_of
chunk_digests_of_lem alg b =
    let count : 0 + length (chunks b) ≡ length (chunks b) = omega arith in
    chunk_digests_loop-all (chunks b) alg 0 [] ∙ rw count

counts_lem :
    (alg : Algorithm) (sources : List Source) → counts alg sources ≡ length (all_chunks sources)
counts_lem alg [] = refl
counts_lem alg (s ∷ sources) = omega (
  arith,
  ap (λ x. x.0) (chunk_digests_of_lem alg (bytes_of s)),
  counts_lem alg sources,
  length-append (chunks (bytes_of s)) (all_chunks sources),
)

runs_of_lem :
    (alg : Algorithm) (sources : List Source)
    → join (runs_of alg sources) ≡ join (digests alg sources)
runs_of_lem alg [] = refl
runs_of_lem alg (s ∷ sources) = rw (
  chunk_digests_of_lem alg (bytes_of s),
  map-append (chunk_digest alg) (chunks (bytes_of s)) (all_chunks sources),
  join-append (map (chunk_digest alg) (chunks (bytes_of s))) (digests alg sources),
  runs_of_lem alg sources,
)

-- Sections digested apart with `chunk_digests_of` and put together with `top_digest` give the digest
-- of the scheme over all of them.
pub top_digest_of_sections :
    (alg : Algorithm) (sources : List Source)
    → top_digest alg (counts alg sources) (runs_of alg sources) ≡ reference alg sources
unfolding top_digest
top_digest_of_sections alg sources =
    ap (λ d. alg.digest (0x5a ∷ le_bytes 4 (counts alg sources) ++ d)) (runs_of_lem alg sources)
    ∙ ap (λ n. alg.digest (0x5a ∷ le_bytes 4 n ++ join (digests alg sources)))
        (counts_lem alg sources)
