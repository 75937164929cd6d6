-- ===== src/Digest/Schedule/Threads.antt =====
-- The invariant of the workers' steps, and what they come to.
use fastsigner.Base.{
  ==_iff, All-append, ◌==◌, ℕ, zero, suc, ◌≤◌, ◌<◌, ◌≡◌, List, [], ◌∷◌, ◌++◌, Bytes, replicate, ok,
  arith, All, ◌⊎◌, inl, inr, some, none, Returns-ok, ap, sym, subst, ◌∙◌, append_assoc, Bool-cases,
}
use fastsigner.Digest.{Algorithm, Source, Claimed, claim, total_chunks, finish_digest}
use fastsigner.Digest.Assemble.{Has-append_left, Has-append_right, IsRecord, Has}
use fastsigner.Digest.Schedule.{
  digests, reference, IsHash, State, start, all_of, Step, claims, ends, records, Reaches, here,
  there, Holds, Claims, claim-Claims, record_digest-IsRecord, finish_digest-reference,
}

-- Chunk `j` is claimed and not recorded.
abbrev Held : ℕ → List Claimed → Type 0
Held j [] = ⊥
Held j (c ∷ cs) = (c.k ≡ j) ⊎ Held j cs

-- Every chunk that the counter has passed is in flight or recorded, in flight are chunks of the
-- sources, and records are of their digests.
abbrev Inv : Algorithm → List Source → State → Type 0
Inv alg sources s =
    ((j : ℕ) → j < s.next → j < total_chunks sources → Held j s.in_flight ⊎ Has j (all_of s.outs))
    × All (Holds sources) s.in_flight
    × All (IsRecord (digests alg sources) alg.output_len) (all_of s.outs)

Held-mid :
    (j : ℕ) (before after : List Claimed) (c : Claimed)
    → Held j (before ++ c ∷ after)
    → (c.k ≡ j) ⊎ Held j (before ++ after)
Held-mid j [] after c h = h
Held-mid j (b ∷ before) after c (inl same) = inr (inl same)
Held-mid j (b ∷ before) after c (inr h) = elim (Held-mid j before after c h) [
  | inl same ↦ inl same
  | inr held ↦ inr (inr held)
]

All-mid :
    (P : Claimed → Type 0) (before after : List Claimed) (c : Claimed)
    → All P (before ++ c ∷ after)
    → P c × All P (before ++ after)
All-mid P [] after c h = h
All-mid P (b ∷ before) after c (p, h) = let (q, r) = All-mid P before after c h in (q, (p, r))

Has-split : (j : ℕ) (a b : List (ℕ × Bytes)) → Has j (a ++ b) → Has j a ⊎ Has j b
Has-split j [] b h = inr h
Has-split j (x ∷ a) b (inl same) = inl (inl same)
Has-split j (x ∷ a) b (inr h) = elim (Has-split j a b h) [ inl p ↦ inl (inr p) | inr q ↦ inr q ]

All-split : (P : ℕ × Bytes → Type 0) (a b : List (ℕ × Bytes)) → All P (a ++ b) → All P a × All P b
All-split P [] b h = (tt, h)
All-split P (x ∷ a) b (p, h) = let (q, r) = All-split P a b h in ((p, q), r)

-- A record more of one worker.
Has-more :
    (j : ℕ) (left right : List (List (ℕ × Bytes))) (out : List (ℕ × Bytes)) (r : ℕ × Bytes)
    → (r.0 ≡ j) ⊎ Has j (all_of (left ++ out ∷ right))
    → Has j (all_of (left ++ (out ++ r ∷ []) ∷ right))
Has-more j [] right out r h = rw (append_assoc out (r ∷ []) (all_of right)) (elim h [
  | inl same ↦ Has-append_right j out (r ∷ all_of right) (inl same)
  | inr has ↦ elim (Has-split j out (all_of right) has) [
    | inl p ↦ Has-append_left j out (r ∷ all_of right) p
    | inr q ↦ Has-append_right j out (r ∷ all_of right) (inr q)
  ]
])
Has-more j (l ∷ left) right out r h =
    let rest = all_of (left ++ (out ++ r ∷ []) ∷ right) in
    elim h [
      | inl same ↦ Has-append_right j l rest (Has-more j left right out r (inl same))
      | inr has ↦ elim (Has-split j l (all_of (left ++ out ∷ right)) has) [
        | inl p ↦ Has-append_left j l rest p
        | inr q ↦ Has-append_right j l rest (Has-more j left right out r (inr q))
      ]
    ]

All-more :
    (P : ℕ × Bytes → Type 0) (left right : List (List (ℕ × Bytes))) (out : List (ℕ × Bytes))
    (r : ℕ × Bytes)
    → P r
    → All P (all_of (left ++ out ∷ right))
    → All P (all_of (left ++ (out ++ r ∷ []) ∷ right))
All-more P [] right out r p h =
    let (q, t) = All-split P out (all_of right) h in
    rw (append_assoc out (r ∷ []) (all_of right)) (All-append P out (r ∷ all_of right) q (p, t))
All-more P (l ∷ left) right out r p h =
    let (q, t) = All-split P l (all_of (left ++ out ∷ right)) h in
    All-append P l (all_of (left ++ (out ++ r ∷ []) ∷ right)) q (All-more P left right out r p t)

ok_injective : {A : Type 0} {x y : A} → ok x ≡ ok y → x ≡ y
ok_injective e = cc

Step-Inv :
    (alg : Algorithm) (sources : List Source) (s t : State)
    → IsHash alg
    → Step alg sources s t
    → Inv alg sources s
    → Inv alg sources t
Step-Inv alg sources s t hash (claims next in_flight outs c seen run) (passed, holds, rs) =
    let (held, same) =
      Returns-ok (Claims sources next) (claim sources next) (some (c, seen))
        (claim-Claims sources next) run in
    (
      λ j h l. elim (Bool-cases (j == next)) [
        | inl now ↦ inl (inl (omega (arith, same, (==_iff j next).0 now)))
        | inr before ↦ elim (passed j (ground arith) l) [
          | inl flying ↦ inl (inr flying)
          | inr has ↦ inr has
        ]
      ],
      (held, holds),
      rs,
    )
Step-Inv alg sources s t hash (ends next in_flight outs run) (passed, holds, rs) =
    let over =
      Returns-ok (Claims sources next) (claim sources next) none (claim-Claims sources next) run in
    (λ j h l. passed j (omega arith) l, holds, rs)
Step-Inv alg sources s t hash (records next before after left right c out r run)
      (passed, holds, rs) =
    let (held, rest) = All-mid (Holds sources) before after c holds in
    let (a, run', is) = record_digest-IsRecord alg sources c hash held in
    let same : r ≡ (c.k, a) = ok_injective (sym run ∙ run') in
    let mine : r.0 ≡ c.k = ap (λ x. x.0) same in
    (
      λ j h l. elim (passed j h l) [
        | inl flying ↦ elim (Held-mid j before after c flying) [
          | inl now ↦ inr (Has-more j left right out r (inl (mine ∙ now)))
          | inr held ↦ inl held
        ]
        | inr has ↦ inr (Has-more j left right out r (inr has))
      ],
      rest,
      All-more (IsRecord (digests alg sources) alg.output_len) left right out r
          (subst (IsRecord (digests alg sources) alg.output_len) (sym same) is) rs,
    )

Reaches-Inv :
    (alg : Algorithm) (sources : List Source) (s t : State)
    → IsHash alg
    → Reaches alg sources s t
    → Inv alg sources s
    → Inv alg sources t
Reaches-Inv alg sources s t hash (here u) inv = inv
Reaches-Inv alg sources s t hash (there u v w r step) inv =
    Step-Inv alg sources v w hash step (Reaches-Inv alg sources u v hash r inv)

no_records : (P : ℕ × Bytes → Type 0) (workers : ℕ) → All P (all_of (replicate workers []))
no_records P zero = tt
no_records P (suc workers) = no_records P workers

start-Inv :
    (alg : Algorithm) (sources : List Source) (workers : ℕ) → Inv alg sources (start workers)
start-Inv alg sources workers = (
  λ j h l. absurd (omega arith),
  tt,
  no_records (IsRecord (digests alg sources) alg.output_len) workers,
)

-- Whatever steps the workers take, once the counter has passed every chunk and none is in flight,
-- `content_digest` returns the digest of the scheme, of a hash whose digests have a fixed length of
-- at most 64 bytes.
pub content_digest_any_schedule :
    (alg : Algorithm) (sources : List Source) (workers : ℕ) (s : State)
    → IsHash alg
    → Reaches alg sources (start workers) s
    → total_chunks sources ≤ s.next
    → s.in_flight ≡ []
    → finish_digest alg sources (all_of s.outs) ≡ ok (reference alg sources)
content_digest_any_schedule alg sources workers s hash r over landed =
    let (passed, _, rs) =
      Reaches-Inv alg sources (start workers) s hash r (start-Inv alg sources workers) in
    finish_digest-reference alg sources (all_of s.outs) rs (λ j h. elim (passed j (omega arith) h) [
      | inl flying ↦ absurd (subst (Held j) landed flying)
      | inr has ↦ has
    ])
