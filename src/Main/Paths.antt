-- ===== src/Main/Paths.antt =====
-- Both paths come to the same digest.
use fastsigner.Base.{
  append-nil, slice_prefix, ℕ, ◌+◌, ◌≤◌, ◌≡◌, refl, ap, ◌∙◌, [], ◌∷◌, ◌++◌, Bytes, length, take,
  replicate, ok, arith,
}
use fastsigner.Digest.{Algorithm, chunk_digests_of, top_digest}
use fastsigner.Digest.Schedule.{IsHash, reference}
use fastsigner.Digest.Schedule.Alone.{content_digest_alone, top_digest_of_sections, counts, runs_of}
use fastsigner.SigBlock.{padding_before_block}
use fastsigner.Main.Layout.{eocd_of, digest_eocd_of, layout_run}
use fastsigner.Main.{digest_layout, Rewritten, finish_rewritten_digest, sections_of}

-- The archive that was rewritten has this entries section and this directory.
abbrev pub IsRewrite : Algorithm → Bytes → ℕ → Bytes → ℕ → ℕ → Rewritten → Type 0
IsRewrite alg apk entries_end cd entry_count pad rewritten =
    (rewritten.entries_end ≡ entries_end)
    × (rewritten.cd ≡ cd)
    × (rewritten.entries ≡ entry_count)
    × ((rewritten.chunk_count, rewritten.chunk_digests)
        ≡ chunk_digests_of alg (take entries_end apk ++ replicate pad 0))

sections_digest :
    (alg : Algorithm) (entries cd eocd : Bytes) (pad k : ℕ) (ks : Bytes)
    → (k, ks) ≡ chunk_digests_of alg (entries ++ replicate pad 0)
    → top_digest alg
        (k + (chunk_digests_of alg cd).0 + (chunk_digests_of alg eocd).0)
        (ks ∷ (chunk_digests_of alg cd).1 ∷ (chunk_digests_of alg eocd).1 ∷ [])
      ≡ reference alg (sections_of entries pad cd eocd)
sections_digest alg entries cd eocd pad k ks e =
    let count : k + (chunk_digests_of alg cd).0 + (chunk_digests_of alg eocd).0
        ≡ counts alg (sections_of entries pad cd eocd) =
      omega (
        arith,
        ap (λ x. x.0) e,
        ap (λ x. (chunk_digests_of alg x).0) (append-nil cd),
        ap (λ x. (chunk_digests_of alg x).0) (append-nil eocd),
      ) in
    let runs : ks ∷ (chunk_digests_of alg cd).1 ∷ (chunk_digests_of alg eocd).1 ∷ []
        ≡ runs_of alg (sections_of entries pad cd eocd) =
      rw (append-nil cd, append-nil eocd)
        (ap (λ x. x.1 ∷ (chunk_digests_of alg cd).1 ∷ (chunk_digests_of alg eocd).1 ∷ []) e) in
    ap
      (λ n.
        top_digest alg n (ks ∷ (chunk_digests_of alg cd).1 ∷ (chunk_digests_of alg eocd).1 ∷ []))
      count
    ∙ ap (λ l. top_digest alg (counts alg (sections_of entries pad cd eocd)) l) runs
    ∙ top_digest_of_sections alg (sections_of entries pad cd eocd)

-- An archive signed from the mapped input and the same archive rewritten, whose entries section with
-- its padding was digested while it was written, come to the same: the digest of the scheme over
-- entries, directory and end record, the same end record, padding and start of the block. Neither
-- path fails on an end record of 22 bytes or more.
pub paths_agree :
    (alg : Algorithm) (apk : Bytes) (entries_end : ℕ) (cd template : Bytes) (count : ℕ)
    (rewritten : Rewritten)
    → IsHash alg
    → 22 ≤ length template
    → entries_end ≤ length apk
    → IsRewrite alg apk entries_end cd count (padding_before_block entries_end) rewritten
    → (laid : Bytes × Bytes × ℕ × ℕ) × (digest_layout alg apk entries_end cd template count
        ≡ ok laid)
      × (finish_rewritten_digest alg rewritten template ≡ ok laid)
      × (laid.0
          ≡ reference alg (
              sections_of (take entries_end apk) (padding_before_block entries_end) cd (
                digest_eocd_of template count
                  (length cd)
                  (entries_end + padding_before_block entries_end))))
unfolding digest_layout finish_rewritten_digest
paths_agree alg apk entries_end cd template count rewritten hash long inside (e, c, n, k) =
    let pad = padding_before_block entries_end in
    let start = entries_end + pad in
    let eocd = eocd_of template count (length cd) start in
    let digested = digest_eocd_of template count (length cd) start in
    let ss = sections_of (take entries_end apk) pad cd digested in
    (
      (reference alg ss, eocd, pad, start),
      rw (
        layout_run entries_end (length cd) template count long,
        slice_prefix apk entries_end inside,
        content_digest_alone alg ss hash,
      ),
      rw (
        e,
        c,
        n,
        layout_run entries_end (length cd) template count long,
        sections_digest alg (take entries_end apk) cd digested pad rewritten.chunk_count
            rewritten.chunk_digests k,
      ),
      refl,
    )
