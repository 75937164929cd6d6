-- ===== src/Pkcs12/Store/Asked.antt =====
-- Which keys of a file `parse` recovers for a request, and what it finds of them.
use fastsigner.Base.{
  ◌≡◌, ◌↔◌, refl, ap, ◌∙◌, ◌⊎◌, inl, inr, Bool, true, false, Option, some, none, List, [], ◌∷◌,
  ◌++◌, Bytes, Outcome, Ensures, bytes_eq, if◌then◌else◌, not,
}
use fastsigner.Base.{Ensures-map, if-Ensures, >>=-Ensures, bytes_eq_iff}
use fastsigner.Pkcs12.Ring.{Ring, IsRing}
use fastsigner.Pkcs12.Safe.{KeyBag, Part, plain, encrypted}
use fastsigner.Pkcs12.Store.{
  recover_key, KeyRequest, join, plain_keys, is_wanted, recovered_keys, recovered_of,
  find_recovered,
}
use fastsigner.Pkcs12.Store.Recover.{recover_key-IsKey}
use fastsigner.Pkcs12.Store.Total.{join-Same}

contrary : (t : Bool) → not t ≡ true → t ≡ true → ⊥
contrary true e h = cc
contrary false e h = cc

negated_test : (t : Bool) → not t ≡ false → t ≡ true
negated_test true e = refl
negated_test false e = cc

module _ (r : Ring) where
  -- A request without an alias wants every key, one with an alias the keys of that name, in any case.
  abbrev pub Wants : Option Bytes → Option Bytes → Type 0
  Wants none name = Unit
  Wants (some a) none = ⊥
  Wants (some a) (some n) = r.to_lowercase n ≡ r.to_lowercase a

  by_name : Bytes → Option Bytes → Bool
  by_name a n = elim n [ none ↦ false | some n ↦ bytes_eq (r.to_lowercase n) (r.to_lowercase a) ]

  is_by_name : (a : Bytes) (n : Option Bytes) → (by_name a n ≡ true) ↔ Wants (some a) n
  unfolding by_name
  is_by_name a none = (λ e. cc, λ h. absurd h)
  is_by_name a (some n) = bytes_eq_iff (r.to_lowercase n) (r.to_lowercase a)

  is_wanted-Wants : (a : Option Bytes) (kb : KeyBag) → (is_wanted r a kb ≡ true) ↔ Wants a kb.name
  unfolding is_wanted
  is_wanted-Wants none kb = (λ e. tt, λ h. refl)
  is_wanted-Wants (some a) kb = unfold by_name in is_by_name a kb.name

  -- A wanted key has these bytes.
  abbrev pub Asked : KeyRequest → List KeyBag → Bytes → Type 0
  Asked k [] der = ⊥
  Asked k (kb ∷ bags) der = (Wants k.alias kb.name × (kb.der ≡ der)) ⊎ Asked k bags der

  Asked-append :
      (k : KeyRequest) (a b : List KeyBag) (der : Bytes)
      → Asked k (a ++ b) der ↔ (Asked k a der ⊎ Asked k b der)
  Asked-append k [] b der = (λ h. inr h, λ h. elim h [ inl h ↦ absurd h | inr h ↦ h ])
  Asked-append k (kb ∷ a) b der =
      let (to, from) = Asked-append k a b der in
      (
        λ h. elim h [
          | inl is ↦ inl (inl is)
          | inr h ↦ elim (to h) [ inl h ↦ inl (inr h) | inr h ↦ inr h ]
        ],
        λ h. elim h [
          | inl h ↦ elim h [ inl is ↦ inl is | inr h ↦ inr (from (inl h)) ]
          | inr h ↦ inr (from (inr h))
        ],
      )

  -- A wanted key of the parts that are not encrypted has these bytes.
  abbrev pub AskedIn : KeyRequest → List Part → Bytes → Type 0
  AskedIn k [] der = ⊥
  AskedIn k (plain b ∷ parts) der = Asked k b.keys der ⊎ AskedIn k parts der
  AskedIn k (encrypted alg body ∷ parts) der = AskedIn k parts der

  plain_keys-Asked :
      (k : KeyRequest) (parts : List Part) (der : Bytes)
      → Asked k (plain_keys parts) der ↔ AskedIn k parts der
  unfolding plain_keys
  plain_keys-Asked k [] der = (λ h. h, λ h. h)
  plain_keys-Asked k (encrypted alg body ∷ parts) der = plain_keys-Asked k parts der
  plain_keys-Asked k (plain b ∷ parts) der =
      let (to, from) = plain_keys-Asked k parts der in
      let (split, join) = Asked-append k b.keys (plain_keys parts) der in
      (
        λ h. elim (split h) [ inl h ↦ inl h | inr h ↦ inr (to h) ],
        λ h. elim h [ inl h ↦ join (inl h) | inr h ↦ join (inr (from h)) ],
      )

  -- The answer `recover_key` where there is a cause `P` for it, and none elsewhere.
  abbrev pub Answer : Type 0 → Outcome Bytes → Option (Outcome Bytes) → Type 0
  Answer P d o = (P × (o ≡ some d)) ⊎ ((¬ P) × (o ≡ none))

  Answer-iff :
      {P Q : Type 0} (d : Outcome Bytes) (o : Option (Outcome Bytes))
      → (P ↔ Q)
      → Answer P d o
      → Answer Q d o
  Answer-iff d o (to, from) (inl (p, e)) = inl (to p, e)
  Answer-iff d o (to, from) (inr (never, e)) = inr (λ q. never (from q), e)

  -- What is found of the keys with these bytes.
  abbrev Finds : KeyRequest → List KeyBag → List (Bytes × Outcome Bytes) → Type 0
  Finds k bags found =
      (der : Bytes)
      → Answer (Asked k bags der) (recover_key r der k.password) (find_recovered found der)

  first_or_rest :
      (k : KeyRequest) (kb : KeyBag) (bags : List KeyBag) (der : Bytes) (t : Bool)
      (d : Outcome Bytes) (o : Option (Outcome Bytes))
      → (t ≡ true) ↔ (kb.der ≡ der)
      → d ≡ recover_key r kb.der k.password
      → Wants k.alias kb.name
      → Answer (Asked k bags der) (recover_key r der k.password) o
      → Answer (Asked k (kb ∷ bags) der) (recover_key r der k.password) (if t then some d else o)
  first_or_rest k kb bags der true d o (same, _) is wants answer =
      inl (inl (wants, same refl), ap some (is ∙ ap (λ x. recover_key r x k.password) (same refl)))
  first_or_rest k kb bags der false d o (_, back) is wants answer =
      Answer-iff (recover_key r der k.password) o
        (λ h. inr h, λ h. elim h [ inl (w, e) ↦ (let t = back e in absurd (cc)) | inr h ↦ h ])
        answer

  find_first :
      (k : KeyRequest) (kb : KeyBag) (bags : List KeyBag) (rest : List (Bytes × Outcome Bytes))
      (d : Outcome Bytes)
      → d ≡ recover_key r kb.der k.password
      → Wants k.alias kb.name
      → Finds k bags rest
      → Finds k (kb ∷ bags) ((kb.der, d) ∷ rest)
  unfolding find_recovered
  find_first k kb bags rest d is wants finds der =
      first_or_rest k kb bags der (bytes_eq kb.der der) d (find_recovered rest der)
        (bytes_eq_iff kb.der der) is wants (finds der)

  skip :
      (k : KeyRequest) (kb : KeyBag) (bags : List KeyBag) (rest : List (Bytes × Outcome Bytes))
      → ¬ (Wants k.alias kb.name)
      → Finds k bags rest
      → Finds k (kb ∷ bags) rest
  skip k kb bags rest never finds der =
      Answer-iff (recover_key r der k.password) (find_recovered rest der)
        (λ h. inr h, λ h. elim h [ inl (w, e) ↦ absurd (never w) | inr h ↦ h ]) (finds der)

  recovered_keys-Finds :
      (k : KeyRequest) (bags : List KeyBag)
      → IsRing r
      → Ensures (Finds k bags) (recovered_keys r k bags)
  unfolding recovered_keys
  recovered_keys-Finds k [] law = unfold find_recovered in λ der. inr (λ h. h, refl)
  recovered_keys-Finds k (kb ∷ bags) law =
      let P : List (Bytes × Outcome Bytes) → Type 0 = Finds k (kb ∷ bags) in
      let m = recover_key r kb.der k.password in
      let (to, from) = is_wanted-Wants k.alias kb in
      >>=-Ensures (Finds k bags) P (recovered_keys r k bags) _ (recovered_keys-Finds k bags law)
        (λ rest e finds.
          if-Ensures P (not (is_wanted r k.alias kb)) _ _
            (λ other.
              skip k kb bags rest (λ w. let t = from w in contrary (is_wanted r k.alias kb) other t)
                finds)
            (λ chosen.
              >>=-Ensures (λ d. d ≡ m) P (join m) _
                (join-Same m
                  (Ensures-map m (λ key is. tt) (recover_key-IsKey r kb.der k.password law)))
                (λ d e' same.
                  find_first k kb bags rest d same
                    (to (negated_test (is_wanted r k.alias kb) chosen)) finds)))

  -- What is recovered of a key with these bytes.
  abbrev pub IsRecovered : Option KeyRequest → List Part → Bytes → Option (Outcome Bytes) → Type 0
  IsRecovered none parts der o = o ≡ none
  IsRecovered (some k) parts der o = Answer (AskedIn k parts der) (recover_key r der k.password) o

  pub find_recovered-IsRecovered :
      (key : Option KeyRequest) (parts : List Part)
      → IsRing r
      → Ensures
          (λ found. (der : Bytes) → IsRecovered key parts der (find_recovered found der))
          (recovered_of r key parts)
  unfolding recovered_of
  find_recovered-IsRecovered none parts law = unfold find_recovered in λ der. refl
  find_recovered-IsRecovered (some k) parts law =
      Ensures-map (recovered_keys r k (plain_keys parts))
        (λ found finds der.
          Answer-iff (recover_key r der k.password) (find_recovered found der)
            (plain_keys-Asked k parts der) (finds der))
        (recovered_keys-Finds k (plain_keys parts) law)
