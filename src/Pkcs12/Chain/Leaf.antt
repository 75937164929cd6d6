-- ===== src/Pkcs12/Chain/Leaf.antt =====
-- The leaf that `parse` takes for a key is one of the certificates.
use fastsigner.Base.{
  ℕ, suc, ◌+◌, ◌≤◌, ◌<◌, ◌≡◌, Bool, true, false, Option, some, none, List, [], ◌∷◌, Bytes, length,
  All, Outcome, ok, err, Ensures, arith, if◌then◌else◌, not, panic, out_of_fuel,
}
use fastsigner.Base.{if-Ensures, >>=-Ensures}
use fastsigner.Keys.Der.{cert_issuer_subject}
use fastsigner.Keys.Der.Bounds.{Ends, cert_issuer_subject-Ends}
use fastsigner.Keys.Scalar.{ok_then}
use fastsigner.Pkcs12.Safe.{CertBag}
use fastsigner.Pkcs12.Chain.{
  Names, position_by_id, subjects_of, is_issuer, leaves, only, leaf_by_id, lone_leaf, leaf_of,
}

-- A place, if there is one, that is below `n`.
abbrev pub Below : ℕ → Option ℕ → Type 0
Below n none = Unit
Below n (some i) = i < n

wider : (n m : ℕ) (o : Option ℕ) → n ≤ m → Below n o → Below m o
wider n m none h b = tt
wider n m (some i) h b = omega arith

if_small :
    (t : Bool) (i n : ℕ) (r : Option ℕ) → i < n → Below n r → Below n (if t then some i else r)
if_small true i n r h b = h
if_small false i n r h b = b

position_by_id-Below :
    (certs : List CertBag) (i : ℕ) (id : Bytes)
    → Below (i + length certs) (position_by_id certs i id)
unfolding position_by_id
position_by_id-Below [] i id = tt
position_by_id-Below (c ∷ certs) i id =
    if_small _ i (i + suc (length certs)) (position_by_id certs (i + 1) id) (omega arith) (
      wider (i + 1 + length certs) (i + suc (length certs)) (position_by_id certs (i + 1) id)
        (omega arith) (position_by_id-Below certs (i + 1) id))

ok_then-Ends : {A : Type 0} (m : Outcome A) → Ends m → Ends (ok_then m (λ a. ok (some a)))
ok_then-Ends (ok a) h = tt
ok_then-Ends (err e) h = tt
ok_then-Ends panic h = h
ok_then-Ends out_of_fuel h = h

abbrev Few : ℕ → List Names → Type 0
Few n names = length names ≤ n

more_names :
    (n : Option Names) (more : List Names) (k : ℕ)
    → Few k more
    → Few (suc k) (elim n [ none ↦ more | some names ↦ names ∷ more ])
more_names none more k h = omega arith
more_names (some names) more k h = omega arith

subjects_of-Few : (certs : List CertBag) → Ensures (Few (length certs)) (subjects_of certs)
unfolding subjects_of
subjects_of-Few [] = omega arith
subjects_of-Few (c ∷ certs) =
    let P : List Names → Type 0 = Few (suc (length certs)) in
    >>=-Ensures (λ _. Unit) P (ok_then (cert_issuer_subject c.der) (λ names. ok (some names))) _
      (ok_then-Ends (cert_issuer_subject c.der) (cert_issuer_subject-Ends c.der))
      (λ n e u.
        >>=-Ensures (Few (length certs)) P (subjects_of certs) _ (subjects_of-Few certs)
          (λ more e' few. more_names n more (length certs) few))

if_kept :
    (t : Bool) (i n : ℕ) (r : List ℕ)
    → i < n
    → All (λ j. j < n) r
    → All (λ j. j < n) (if t then r else i ∷ r)
if_kept true i n r h a = a
if_kept false i n r h a = (h, a)

leaves-All :
    (all names : List Names) (i n : ℕ)
    → n ≡ i + length names
    → All (λ j. j < n) (leaves all i names)
unfolding leaves
leaves-All all [] i n e = tt
leaves-All all (s ∷ names) i n e =
    if_kept (is_issuer (s.1) i all 0) i n (leaves all (i + 1) names) (omega arith)
      (leaves-All all names (i + 1) n (omega arith))

only-Below : (found : List ℕ) (n : ℕ) → All (λ j. j < n) found → Below n (only found)
only-Below [] n h = tt
only-Below (i ∷ []) n h = h.0
only-Below (i ∷ j ∷ found) n h = tt

lone_leaf-Below :
    (single_key : Bool) (certs : List CertBag)
    → Ensures (Below (length certs)) (lone_leaf single_key certs)
unfolding lone_leaf
lone_leaf-Below single_key certs =
    let P : Option ℕ → Type 0 = Below (length certs) in
    if-Ensures P (not single_key) _ _ (λ _. tt)
      (λ _.
        >>=-Ensures (Few (length certs)) P (subjects_of certs) _ (subjects_of-Few certs)
          (λ subjects e few.
            wider (length subjects) (length certs) (only (leaves subjects 0 subjects)) few (
              only-Below (leaves subjects 0 subjects) (length subjects)
                (leaves-All subjects subjects 0 (length subjects) (omega arith)))))

leaf_by_id-Below :
    (certs : List CertBag) (id : Option Bytes) → Below (length certs) (leaf_by_id certs id)
unfolding leaf_by_id
leaf_by_id-Below certs none = tt
leaf_by_id-Below certs (some id) =
    wider (0 + length certs) (length certs) (position_by_id certs 0 id) (omega arith)
      (position_by_id-Below certs 0 id)

or_lone :
    (o : Option ℕ) (single_key : Bool) (certs : List CertBag)
    → Below (length certs) o
    → Ensures
        (Below (length certs))
        (elim o [ some i ↦ ok (some i) | none ↦ lone_leaf single_key certs ])
or_lone none single_key certs h = lone_leaf-Below single_key certs
or_lone (some i) single_key certs h = h

pub leaf_of-Below :
    (single_key : Bool) (certs : List CertBag) (id : Option Bytes)
    → Ensures (Below (length certs)) (leaf_of single_key certs id)
unfolding leaf_of
leaf_of-Below single_key certs id =
    or_lone (leaf_by_id certs id) single_key certs (leaf_by_id-Below certs id)
