-- ===== src/Zip/Filter/Kept.antt =====
-- What the names of the entries that are left out look like, and that `entry_policy` decides it.
use fastsigner.Base.{
  ◌↔◌, ◌-◌, ◌≤◌, ◌≡◌, refl, sym, ap, subst, ◌∙◌, ◌⊎◌, inl, inr, Bool, true, false, some, none, [],
  ◌∷◌, ◌++◌, map, Bytes, length, take, drop, All, arith, codes, strip_prefix, starts_with,
  ends_with, contains, bytes_eq, leb, ◌==◌, not, ◌||◌,
}
use fastsigner.Base.{
  Bool-cases, bytes_eq_iff, ==_iff, take-append-drop, drop-append_self, take-append_self,
  length-append, leb→le, le→leb, contains, starts_with, ends_with, strip_prefix,
}
use fastsigner.Zip.Policy.{
  to_ascii_lowercase, is_v1_signature_file, is_v1_signature_entry, entry_policy,
}
use fastsigner.Zip.Filter.{is_output}

abbrev pub EndsIn : Bytes → Bytes → Type 0
EndsIn p s = (front : Bytes) × (s ≡ front ++ p)

abbrev pub StartsIn : Bytes → Bytes → Type 0
StartsIn p s = (rest : Bytes) × (s ≡ p ++ rest)

abbrev pub NoSlash : Bytes → Type 0
NoSlash s = All (λ c. ¬ (c ≡ b'/')) s

-- A v1 signature file, by its name behind "META-INF/" in lower case; none is in a directory of its own.
abbrev pub V1File : Bytes → Type 0
V1File rest =
    let lower = map to_ascii_lowercase rest in
    NoSlash rest
    × ((((((lower ≡ codes "manifest.mf") ⊎ EndsIn (codes ".sf") lower)
              ⊎ EndsIn (codes ".rsa") lower)
            ⊎ EndsIn (codes ".dsa") lower)
          ⊎ EndsIn (codes ".ec") lower)
        ⊎ StartsIn (codes "sig-") lower)

-- A stamp, the list of pins, a directory, or a v1 signature file.
abbrev pub LeftOut : Bytes → Type 0
LeftOut name =
    ((name ≡ codes "stamp-cert-sha256") ⊎ (name ≡ codes "pinlist.meta"))
    ⊎ (EndsIn (codes "/") name
        ⊎ ((rest : Bytes) × (name ≡ codes "META-INF/" ++ rest) × V1File rest))

-- A test that tells whether a property holds.
abbrev pub Tells : Bool → Type 0 → Type 0
Tells t P = ((t ≡ true) × P) ⊎ ((t ≡ false) × (¬ P))

Tells-iff : (t : Bool) {P : Type 0} → ((t ≡ true) ↔ P) → Tells t P
Tells-iff true h = inl (refl, h.0 refl)
Tells-iff false h = inr (refl, λ p. let e = h.1 p in absurd (cc))

Tells-or : (s t : Bool) {P Q : Type 0} → Tells s P → Tells t Q → Tells (s || t) (P ⊎ Q)
Tells-or s t (inl (e, p)) k = inl (rw e refl, inl p)
Tells-or s t (inr (e, np)) (inl (e', q)) = inl (rw (e, e') refl, inr q)
Tells-or s t (inr (e, np)) (inr (e', nq)) =
    inr (rw (e, e') refl, λ h. elim h [ inl p ↦ np p | inr q ↦ nq q ])

bytes_eq-Tells : (a b : Bytes) → Tells (bytes_eq a b) (a ≡ b)
bytes_eq-Tells a b = Tells-iff (bytes_eq a b) (bytes_eq_iff a b)

ends_with-EndsIn : (s p : Bytes) → Tells (ends_with s p) (EndsIn p s)
unfolding ends_with
ends_with-EndsIn s p = elim (Bool-cases (leb (length p) (length s))) [
  | inr long ↦ inr (
    rw long refl,
    λ (front, e).
        let room : length p ≤ length s = omega (arith, ap length e, length-append front p) in
        let fits = le→leb (length p) (length s) room in absurd (cc),
  )
  | inl fits ↦
      let room = leb→le (length p) (length s) fits in
      let k = length s - length p in
      elim (bytes_eq-Tells (drop k s) p) [
        | inl (e, same) ↦ inl (
          rw (fits, e) refl,
          (take k s, sym (take-append-drop k s) ∙ ap (λ b. take k s ++ b) same),
        )
        | inr (e, apart) ↦ inr (
          rw (fits, e) refl,
          λ (front, whole). apart (
              ap (drop k) whole
              ∙ drop-append_self front p k
                  (omega (arith, room, ap length whole, length-append front p))),
        )
      ]
]

starts_with-StartsIn : (s p : Bytes) → Tells (starts_with s p) (StartsIn p s)
unfolding starts_with
starts_with-StartsIn s p = elim (bytes_eq-Tells (take (length p) s) p) [
  | inl (e, same) ↦ inl (
    e,
    (
      drop (length p) s,
      sym (take-append-drop (length p) s) ∙ ap (λ b. b ++ drop (length p) s) same,
    ),
  )
  | inr (e, apart) ↦ inr (
    e,
    λ (rest, whole). apart (ap (take (length p)) whole ∙ take-append_self p rest (length p) refl),
  )
]

contains-NoSlash : (s : Bytes) → Tells (not (contains s b'/')) (NoSlash s)
unfolding contains
contains-NoSlash [] = inl (refl, tt)
contains-NoSlash (c ∷ s) = elim (Bool-cases (c == b'/')) [
  | inl slash ↦ inr (rw slash refl, λ all. all.0 ((==_iff c b'/').0 slash))
  | inr other ↦
      let apart : ¬ (c ≡ b'/') = λ same. let slash = (==_iff c b'/').1 same in absurd (cc) in
      elim (contains-NoSlash s) [
        | inl (e, all) ↦ inl (rw other e, (apart, all))
        | inr (e, some_slash) ↦ inr (rw other e, λ all. some_slash all.1)
      ]
]

is_v1_signature_file-V1File : (rest : Bytes) → Tells (is_v1_signature_file rest) (V1File rest)
unfolding is_v1_signature_file
is_v1_signature_file-V1File rest =
    let lower = map to_ascii_lowercase rest in
    let names =
      Tells-or _ (starts_with lower (codes "sig-"))
        (Tells-or _ (ends_with lower (codes ".ec"))
          (Tells-or _ (ends_with lower (codes ".dsa"))
            (Tells-or _ (ends_with lower (codes ".rsa"))
              (Tells-or (bytes_eq lower (codes "manifest.mf")) (ends_with lower (codes ".sf"))
                (bytes_eq-Tells lower (codes "manifest.mf")) (ends_with-EndsIn lower (codes ".sf")))
              (ends_with-EndsIn lower (codes ".rsa")))
            (ends_with-EndsIn lower (codes ".dsa")))
          (ends_with-EndsIn lower (codes ".ec")))
        (starts_with-StartsIn lower (codes "sig-")) in
    elim (contains-NoSlash rest) [
      | inl (e, all) ↦
          let no : contains rest b'/' ≡ false = elim (Bool-cases (contains rest b'/')) [
            | inl yes_there ↦ absurd (cc)
            | inr none_there ↦ none_there
          ] in
          elim names [
            | inl (n, is) ↦ inl (rw no n, (all, is))
            | inr (n, other) ↦ inr (rw no n, λ v. other v.1)
          ]
      | inr (e, some_slash) ↦
          let there : contains rest b'/' ≡ true = elim (Bool-cases (contains rest b'/')) [
            | inl yes_there ↦ yes_there
            | inr none_there ↦ absurd (cc)
          ] in
          inr (rw there refl, λ v. some_slash v.0)
    ]

strip_cases :
    (p s : Bytes)
    → ((rest : Bytes) × (strip_prefix p s ≡ some rest) × (s ≡ p ++ rest))
      ⊎ ((strip_prefix p s ≡ none) × ((rest : Bytes) → ¬ (s ≡ p ++ rest)))
unfolding strip_prefix
strip_cases [] s = inl (s, refl, refl)
strip_cases (c ∷ p) [] = inr (refl, λ rest e. absurd (cc))
strip_cases (c ∷ p) (d ∷ s) = elim (Bool-cases (c == d)) [
  | inr apart ↦ inr (
    rw apart refl,
    λ rest e. let same : d ≡ c = cc in let eq = (==_iff c d).1 (sym same) in absurd (cc),
  )
  | inl same ↦
      let is : c ≡ d = (==_iff c d).0 same in
      elim (strip_cases p s) [
        | inl (rest, e, whole) ↦ inl (rest, rw same e, rw (whole, is) refl)
        | inr (e, none_there) ↦ inr (rw same e, λ rest whole. none_there rest (cc))
      ]
]

abbrev InMetaInf : Bytes → Type 0
InMetaInf name = (rest : Bytes) × (name ≡ codes "META-INF/" ++ rest) × V1File rest

is_v1_signature_entry-InMetaInf :
    (name : Bytes) → Tells (is_v1_signature_entry name) (InMetaInf name)
unfolding is_v1_signature_entry strip_prefix
is_v1_signature_entry-InMetaInf name = elim (strip_cases (codes "META-INF/") name) [
  | inr (e, none_there) ↦ inr (rw e refl, λ (rest, whole, v). none_there rest whole)
  | inl (rest, e, whole) ↦ elim (is_v1_signature_file-V1File rest) [
    | inl (yes_v1, v) ↦ inl (rw e yes_v1, (rest, whole, v))
    | inr (no_v1, other) ↦ inr (
      rw e no_v1,
      λ (rest', whole', v).
          let same : rest' ≡ rest = ap (drop 9) (sym whole' ∙ whole) in other (subst V1File same v),
    )
  ]
]

-- An entry is kept unless its name is one of those that are left out.
pub entry_policy-LeftOut :
    (name : Bytes)
    → ((is_output (entry_policy name) ≡ false) × LeftOut name)
      ⊎ ((is_output (entry_policy name) ≡ true) × (¬ LeftOut name))
unfolding entry_policy
entry_policy-LeftOut name =
    let gaps =
      Tells-or (bytes_eq name (codes "stamp-cert-sha256")) (bytes_eq name (codes "pinlist.meta"))
        (bytes_eq-Tells name (codes "stamp-cert-sha256"))
        (bytes_eq-Tells name (codes "pinlist.meta")) in
    let skips =
      Tells-or (ends_with name (codes "/")) (is_v1_signature_entry name)
        (ends_with-EndsIn name (codes "/")) (is_v1_signature_entry-InMetaInf name) in
    elim gaps [
      | inl (e, is) ↦ inl (rw e refl, inl is)
      | inr (e, no_gap) ↦ elim skips [
        | inl (e', is) ↦ inl (rw (e, e') refl, inr is)
        | inr (e', no_skip) ↦
            inr (rw (e, e') refl, λ h. elim h [ inl g ↦ no_gap g | inr k ↦ no_skip k ])
      ]
    ]
