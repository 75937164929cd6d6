-- ===== src/Pkcs12/Chain.antt =====
-- src/pkcs12.rs: `build_chain`, and the choice of the leaf in `parse`.
pub mod Links
pub mod Leaf
use fastsigner.Base.{
  ℕ, zero, suc, ◌+◌, Bool, false, Option, some, none, List, [], ◌∷◌, ◌++◌, Bytes, length, Outcome,
  ok, index, contains, bytes_eq, ◌>>=◌, if◌then◌else◌, ltb, ◌==◌, not, ◌&&◌, ◌||◌, out_of_fuel,
}
use fastsigner.Keys.Scalar.{ok_then}
use fastsigner.Keys.Der.{cert_issuer_subject}
use fastsigner.Pkcs12.Safe.{CertBag}

-- The issuer and the subject of a certificate.
abbrev pub Names : Type 0
Names = Bytes × Bytes

unfoldable pub names_of : List CertBag → Outcome (List Names)
names_of [] = ok []
names_of (c ∷ certs) = do n ← cert_issuer_subject c.der; names ← names_of certs; ok (n ∷ names)

-- `(i..).find(|i| !used.contains(i) && names[*i].1 == issuer)` over the names from `i` on.
unfoldable pub find_issuer : List Names → ℕ → List ℕ → Bytes → Option ℕ
find_issuer [] i used issuer = none
find_issuer (n ∷ names) i used issuer =
    let rest = find_issuer names (i + 1) used issuer in
    if not (contains used i) && bytes_eq (n.1) issuer then some i else rest

-- `used.len() < certs.len() && names[cur].0 != names[cur].1`, and then the next certificate.
unfoldable pub next_issuer : List Names → List ℕ → ℕ → Outcome (Option ℕ)
next_issuer names used cur = if not (ltb (length used) (length names)) then ok none else (do
  n ← index names cur
  if bytes_eq (n.0) (n.1) then ok none else ok (find_issuer names 0 used (n.0)))

-- The rest of the loop's body and the loop behind it, by `again`.
unfoldable pub follow : (List ℕ → ℕ → Outcome (List ℕ)) → List ℕ → Option ℕ → Outcome (List ℕ)
follow again used none = ok used
follow again used (some i) = again (used ++ i ∷ []) i

-- Each round uses one more of the certificates, so that their number is fuel enough.
unfoldable pub chain_loop : ℕ → List Names → List ℕ → ℕ → Outcome (List ℕ)
chain_loop zero names used cur = out_of_fuel
chain_loop (suc fuel) names used cur = do
  found ← next_issuer names used cur
  follow (chain_loop fuel names) used found

unfoldable pub certs_at : List CertBag → List ℕ → Outcome (List Bytes)
certs_at certs [] = ok []
certs_at certs (i ∷ used) = do c ← index certs i; ders ← certs_at certs used; ok (c.der ∷ ders)

unfoldable pub build_chain : List CertBag → ℕ → Outcome (List Bytes)
build_chain certs leaf = do
  names ← names_of certs
  used ← chain_loop (length certs) names (leaf ∷ []) leaf
  certs_at certs used

-- `bags.certs.iter().position(|c| c.local_id.as_ref() == Some(id))`, from `i` on.
unfoldable pub position_by_id : List CertBag → ℕ → Bytes → Option ℕ
position_by_id [] i id = none
position_by_id (c ∷ certs) i id =
    let rest = position_by_id certs (i + 1) id in
    if elim c.local_id [ none ↦ false | some other ↦ bytes_eq other id ] then some i else rest

-- `filter_map(|c| cert_issuer_subject(&c.der).ok())`.
unfoldable pub subjects_of : List CertBag → Outcome (List Names)
subjects_of [] = ok []
subjects_of (c ∷ certs) = do
  n ← ok_then (cert_issuer_subject c.der) (λ names. ok (some names))
  more ← subjects_of certs
  ok (elim n [ none ↦ more | some names ↦ names ∷ more ])

-- Whether the certificate `i` issued another one: the names are those from `j` on.
unfoldable pub is_issuer : Bytes → ℕ → List Names → ℕ → Bool
is_issuer subject i [] j = false
is_issuer subject i (s ∷ names) j =
    (not (j == i) && bytes_eq (s.0) subject && not (bytes_eq (s.0) (s.1)))
    || is_issuer subject i names (j + 1)

-- The certificates that issued no other, of those from `i` on.
unfoldable pub leaves : List Names → ℕ → List Names → List ℕ
leaves all i [] = []
leaves all i (s ∷ names) =
    let rest = leaves all (i + 1) names in if is_issuer (s.1) i all 0 then rest else i ∷ rest

-- `(leaves.len() == 1).then(|| leaves[0])`.
abbrev pub only : List ℕ → Option ℕ
only (i ∷ []) = some i
only _ = none

-- The leaf of a key: by its `localKeyId`, or the one that can be meant.
unfoldable pub leaf_by_id : List CertBag → Option Bytes → Option ℕ
leaf_by_id certs none = none
leaf_by_id certs (some id) = position_by_id certs 0 id

unfoldable pub lone_leaf : Bool → List CertBag → Outcome (Option ℕ)
lone_leaf single_key certs =
    if not single_key
    then ok none
    else (do subjects ← subjects_of certs; ok (only (leaves subjects 0 subjects)))

unfoldable pub leaf_of : Bool → List CertBag → Option Bytes → Outcome (Option ℕ)
leaf_of single_key certs local_id = elim (leaf_by_id certs local_id) [
  | some i ↦ ok (some i)
  | none ↦ lone_leaf single_key certs
]
