-- ===== src/Pkcs12/Chain/Links.antt =====
-- `build_chain` goes from the leaf to the issuer of each certificate, and stops.
use fastsigner.Base.{
  known_value, All-append, ℕ, zero, suc, ◌+◌, ◌≤◌, ◌<◌, ◌≡◌, refl, ap, subst, ◌∙◌, ◌⊎◌, inl, inr,
  Bool, true, false, Option, some, none, List, [], ◌∷◌, ◌++◌, Bytes, length, drop, All, get_elem?,
  Outcome, ok, Ensures, arith, index, contains, bytes_eq, if◌then◌else◌, ltb, not, ◌&&◌,
}
use fastsigner.Base.{
  Ensures-map, if-Ensures, >>=-Ensures, length-append, get_elem?-drop, drop-suc, bytes_eq_iff,
}
use fastsigner.Keys.Der.{cert_issuer_subject}
use fastsigner.Keys.Der.Bounds.{Ends, >>=-Ends, >>=-Then, cert_issuer_subject-Ends}
use fastsigner.Pkcs12.Safe.{CertBag}
use fastsigner.Pkcs12.Chain.{
  Names, names_of, find_issuer, next_issuer, follow, chain_loop, certs_at, build_chain,
}

-- The steps of the walk: from a certificate that did not issue itself to one that is not used yet, and
-- whose subject is its issuer.
pub data Walk (names : List Names) (leaf : ℕ) : List ℕ → ℕ → Type 0 where
  at_leaf : Walk names leaf (leaf ∷ []) leaf
  to_issuer :
      {used : List ℕ} {cur : ℕ}
      → Walk names leaf used cur
      → (i : ℕ) (n m : Names) → get_elem? names cur ≡ some n
      → get_elem? names i ≡ some m
      → bytes_eq (n.0) (n.1) ≡ false
      → m.1 ≡ n.0
      → contains used i ≡ false
      → Walk names leaf (used ++ i ∷ []) i

-- Where the walk ends: all certificates are used, or the last one issued itself, or none of the
-- others issued it.
abbrev pub IsEnd : List Names → List ℕ → ℕ → Type 0
IsEnd names used cur =
    (length names ≤ length used)
    ⊎ ((n : Names) × (get_elem? names cur ≡ some n)
        × ((n.0 ≡ n.1) ⊎ (find_issuer names 0 used (n.0) ≡ none)))

abbrev Issues : List Names → List ℕ → Bytes → ℕ → Type 0
Issues names used issuer i =
    (i < length names)
    × (contains used i ≡ false)
    × ((m : Names) × (get_elem? names i ≡ some m) × (m.1 ≡ issuer))

in_range : (names : List Names) (i : ℕ) (m : Names) → get_elem? names i ≡ some m → i < length names
in_range [] i m e = absurd (cc)
in_range (n ∷ names) zero m e = omega arith
in_range (n ∷ names) (suc i) m e = omega (arith, in_range names i m e)

-- An option that one test gives, or another call.
pub if_some :
    {A : Type 0} (t : Bool) (i : A) (r : Option A) {j : A}
    → (if t then some i else r) ≡ some j
    → ((t ≡ true) × (i ≡ j)) ⊎ (r ≡ some j)
if_some true i r e = inl (refl, cc)
if_some false i r e = inr e

find_issuer-Issues :
    (all rest : List Names) (i j : ℕ) (used : List ℕ) (issuer : Bytes)
    → drop i all ≡ rest
    → find_issuer rest i used issuer ≡ some j
    → Issues all used issuer j
unfolding find_issuer
find_issuer-Issues all [] i j used issuer at e = absurd (cc)
find_issuer-Issues all (n ∷ rest) i j used issuer at e =
    elim (if_some (not (contains used i) && bytes_eq (n.1) issuer) i
      (find_issuer rest (i + 1) used issuer) e) [
        | inl (test, same) ↦
            let there : get_elem? all i ≡ some n = get_elem?-drop all i at in
            let free : contains used i ≡ false = ground arith in
            let is : bytes_eq (n.1) issuer ≡ true = ground arith in
            subst (Issues all used issuer) same
              (in_range all i n there, free, (n, there, (bytes_eq_iff (n.1) issuer).0 is))
        | inr later ↦
            let step : i + 1 ≡ suc i = omega arith in
            let next : drop (i + 1) all ≡ rest = ap (λ k. drop k all) step ∙ drop-suc all i at in
            find_issuer-Issues all rest (i + 1) j used issuer next later
      ]

-- A state of the loop.
abbrev Reached : List Names → ℕ → List ℕ → Type 0
Reached names leaf used =
    (cur : ℕ) × Walk names leaf used cur × IsEnd names used cur × All (λ i. i < length names) used

index-some :
    (names : List Names) (i : ℕ)
    → i < length names
    → (n : Names) × (get_elem? names i ≡ some n) × (index names i ≡ ok n)
unfolding index
index-some [] i h = absurd (omega arith)
index-some (n ∷ names) zero h = (n, refl, refl)
index-some (n ∷ names) (suc i) h = index-some names i (omega arith)

-- What the loop's condition and its body find.
abbrev Found : List Names → List ℕ → ℕ → Option ℕ → Type 0
Found names used cur none = IsEnd names used cur
Found names used cur (some i) =
    (n : Names) × (get_elem? names cur ≡ some n)
    × (bytes_eq (n.0) (n.1) ≡ false)
    × (length used < length names)
    × Issues names used (n.0) i

searched :
    (names : List Names) (used : List ℕ) (cur : ℕ) (n : Names) (o : Option ℕ)
    → find_issuer names 0 used (n.0) ≡ o
    → get_elem? names cur ≡ some n
    → bytes_eq (n.0) (n.1) ≡ false
    → length used < length names
    → Found names used cur o
searched names used cur n none e there other more = inr (n, there, inr e)
searched names used cur n (some i) e there other more =
    (n, there, other, more, find_issuer-Issues names names 0 i used (n.0) refl e)

next_issuer-Found :
    (names : List Names) (used : List ℕ) (cur : ℕ)
    → cur < length names
    → Ensures (Found names used cur) (next_issuer names used cur)
unfolding next_issuer
next_issuer-Found names used cur h =
    let (n, there, run) = index-some names cur h in
    let P : Option ℕ → Type 0 = Found names used cur in
    if-Ensures P (not (ltb (length used) (length names))) _ _ (λ full. inl (ground arith))
      (λ more. rw run (
        if-Ensures P (bytes_eq (n.0) (n.1)) _ _
          (λ own. inr (n, there, inl ((bytes_eq_iff (n.0) (n.1)).0 own)))
          (λ other.
            searched names used cur n (find_issuer names 0 used (n.0)) refl there other
              (ground arith))))

followed :
    (again : List ℕ → ℕ → Outcome (List ℕ)) (names : List Names) (leaf : ℕ) (used : List ℕ)
    (cur : ℕ) (o : Option ℕ)
    → Walk names leaf used cur
    → All (λ i. i < length names) used
    → Found names used cur o
    → ((i : ℕ)
        → Walk names leaf (used ++ i ∷ []) i
        → i < length names
        → All (λ i. i < length names) (used ++ i ∷ [])
        → length used < length names
        → Ensures (Reached names leaf) (again (used ++ i ∷ []) i))
    → Ensures (Reached names leaf) (follow again used o)
unfolding follow
followed again names leaf used cur none walk all end next = (cur, walk, end, all)
followed again names leaf used cur (some i) walk all
      (n, there, other, more, (inside, free, (m, is, issuer))) next =
    next i (to_issuer walk i n m there is other issuer free) inside
      (All-append (λ k. k < length names) used (i ∷ []) all (inside, tt)) more

chain_loop-Reached :
    (fuel : ℕ) (names : List Names) (leaf : ℕ) (used : List ℕ) (cur : ℕ)
    → Walk names leaf used cur
    → cur < length names
    → All (λ i. i < length names) used
    → length used ≤ length names
    → length names < length used + fuel
    → Ensures (Reached names leaf) (chain_loop fuel names used cur)
unfolding chain_loop
chain_loop-Reached zero names leaf used cur walk h all few enough = absurd (omega arith)
chain_loop-Reached (suc fuel) names leaf used cur walk h all few enough =
    >>=-Ensures (Found names used cur) (Reached names leaf) (next_issuer names used cur) _
      (next_issuer-Found names used cur h)
      (λ o e found.
        followed (chain_loop fuel names) names leaf used cur o walk all found
          (λ i walk' inside all' more.
            let longer : length (used ++ i ∷ []) ≡ length used + 1 = length-append used (i ∷ []) in
            chain_loop-Reached fuel names leaf (used ++ i ∷ []) i walk' inside all' (omega arith)
              (omega arith)))

-- The names are as many as the certificates, and those of each of them.
length-names_of :
    (certs : List CertBag) → Ensures (λ names. length names ≡ length certs) (names_of certs)
unfolding names_of
length-names_of [] = refl
length-names_of (c ∷ certs) =
    let P : List Names → Type 0 = λ names. length names ≡ suc (length certs) in
    >>=-Then P (cert_issuer_subject c.der) _ (cert_issuer_subject-Ends c.der) (λ n.
      >>=-Ensures (λ names. length names ≡ length certs) P (names_of certs) _
        (length-names_of certs) (λ names e same. ap suc same))

index-Ends : (certs : List CertBag) (i : ℕ) → i < length certs → Ends (index certs i)
unfolding index
index-Ends [] i h = absurd (omega arith)
index-Ends (c ∷ certs) zero h = tt
index-Ends (c ∷ certs) (suc i) h = index-Ends certs i (omega arith)

certs_at-Ends :
    (certs : List CertBag) (used : List ℕ)
    → All (λ i. i < length certs) used
    → Ends (certs_at certs used)
unfolding certs_at
certs_at-Ends certs [] h = tt
certs_at-Ends certs (i ∷ used) (h, hs) =
    >>=-Ends (index certs i) _ (index-Ends certs i h)
      (λ c. >>=-Ends (certs_at certs used) _ (certs_at-Ends certs used hs) (λ ders. tt))

-- The chain of a leaf: the certificates on a walk that starts there and has come to its end.
abbrev pub IsChain : List CertBag → ℕ → List Bytes → Type 0
IsChain certs leaf chain =
    (names : List Names) × (names_of certs ≡ ok names)
    × ((used : List ℕ) × (last : ℕ) × Walk names leaf used last
        × IsEnd names used last
        × (certs_at certs used ≡ ok chain))

-- `build_chain` ends with no panic, and a chain that it returns begins at the leaf, goes on with an
-- unused certificate whose subject is the issuer of the one before, as long as there is one and the
-- one before did not issue itself, and has the certificates in that order.
pub build_chain-IsChain :
    (certs : List CertBag) (leaf : ℕ)
    → leaf < length certs
    → Ensures (IsChain certs leaf) (build_chain certs leaf)
unfolding build_chain
build_chain-IsChain certs leaf h =
    let P : List Bytes → Type 0 = IsChain certs leaf in
    >>=-Ensures (λ names. length names ≡ length certs) P (names_of certs) _ (length-names_of certs)
      (λ names e same.
        >>=-Ensures (Reached names leaf) P (chain_loop (length certs) names (leaf ∷ []) leaf) _
          (chain_loop-Reached (length certs) names leaf (leaf ∷ []) leaf at_leaf (omega arith)
            (omega arith, tt) (omega arith) (omega arith))
          (λ used e' reached.
            Ensures-map (certs_at certs used)
              (λ chain is. (names, e, (used, reached.0, reached.1, reached.2, is.1)))
              (known_value (λ _. Unit) (certs_at certs used)
                (certs_at-Ends certs used (subst (λ k. All (λ i. i < k) used) same reached.3)))))
