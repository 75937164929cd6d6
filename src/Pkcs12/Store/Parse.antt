-- ===== src/Pkcs12/Store/Parse.antt =====
-- What `parse` returns: the verdict on the MAC first, and then keys with chains of their own.
use fastsigner.Base.{
  ℕ, ◌<◌, ◌≡◌, refl, ap, ◌∙◌, Bool, Option, some, none, List, [], ◌∷◌, Bytes, length, Outcome, ok,
  Ensures, ◌==◌,
}
use fastsigner.Base.{◌+◌, ◌++◌, sym, subst, append-nil, append_assoc, ok_or, certificates_password}
use fastsigner.Base.{Ensures-map, >>=-Ensures}
use fastsigner.Jks.{KeyEntry}
use fastsigner.Keys.Der.Bounds.{Ends}
use fastsigner.Pkcs12.{Tlv}
use fastsigner.Pkcs12.Ring.{Ring, IsRing}
use fastsigner.Pkcs12.Safe.{
  KeyBag, CertBag, Bags, no_bags, Part, plain, encrypted, parse_safe_contents, safe_contents,
}
use fastsigner.Pkcs12.Text.{to_string}
use fastsigner.Pkcs12.Pbes2.{pbes2_decrypt}
use fastsigner.Pkcs12.Pbes2.Unpad.{pbes2_decrypt-Ends}
use fastsigner.Pkcs12.Safe.Total.{parse_safe_contents-Ends, safe_contents-Ends}
use fastsigner.Pkcs12.Chain.{build_chain, leaf_of}
use fastsigner.Pkcs12.Chain.Links.{IsChain, build_chain-IsChain}
use fastsigner.Pkcs12.Chain.Leaf.{Below, leaf_of-Below}
use fastsigner.Pkcs12.Store.{
  KeyRequest, Pkcs12, mac_ok, Scoped, scoped, extend, collect, chain_of, find_recovered, alias_of,
  key_entries, open_pfx, keys_of, parse,
}
use fastsigner.Pkcs12.Store.Asked.{IsRecovered, find_recovered-IsRecovered}
use fastsigner.Pkcs12.Store.Total.{open_pfx-Ends, mac_ok-Ends, Decrypts, IsScoped, scoped-IsScoped}

-- The chain from a leaf, or none.
abbrev pub ChainFrom : List CertBag → Option ℕ → List Bytes → Type 0
ChainFrom certs none chain = chain ≡ []
ChainFrom certs (some leaf) chain = (leaf < length certs) × IsChain certs leaf chain

chain_of-ChainFrom :
    (certs : List CertBag) (leaf : Option ℕ)
    → Below (length certs) leaf
    → Ensures (ChainFrom certs leaf) (chain_of certs leaf)
unfolding chain_of
chain_of-ChainFrom certs none h = refl
chain_of-ChainFrom certs (some leaf) h =
    Ensures-map (build_chain certs leaf) (λ chain is. (h, is)) (build_chain-IsChain certs leaf h)

-- How many keys had no name, with this one.
abbrev pub unnamed_with : Option Bytes → ℕ → ℕ
unnamed_with none n = n + 1
unnamed_with (some name) n = n

module _ (r : Ring) (law : IsRing r) where
  -- The name of a key in lower case, or a number for a key without one.
  abbrev pub Alias : Option Bytes → ℕ → Bytes → Type 0
  Alias none n alias = alias ≡ to_string (n + 1)
  Alias (some name) n alias = alias ≡ r.to_lowercase name

  alias_of-Alias :
      (name : Option Bytes) (n : ℕ)
      → Alias name n (alias_of r name n).0 × ((alias_of r name n).1 ≡ unnamed_with name n)
  unfolding alias_of
  alias_of-Alias none n = (refl, refl)
  alias_of-Alias (some name) n = (refl, refl)

  -- The entry of a key bag, where `n` keys before it had no name.
  abbrev pub EntryOf :
      Option KeyRequest → List Part → Bool → List CertBag → KeyBag → ℕ → KeyEntry → Type 0
  EntryOf key parts single_key certs kb n k =
      Alias kb.name n k.alias
      × (k.protected_key ≡ kb.der)
      × ((leaf : Option ℕ) × (leaf_of single_key certs kb.local_id ≡ ok leaf)
          × ChainFrom certs leaf k.chain)
      × IsRecovered r key parts kb.der k.recovered

  -- One entry for each key bag, in order.
  abbrev pub EntriesOf :
      Option KeyRequest → List Part → Bool → List CertBag → List KeyBag → ℕ → List KeyEntry → Type 0
  EntriesOf key parts single_key certs [] n [] = Unit
  EntriesOf key parts single_key certs [] n (k ∷ keys) = ⊥
  EntriesOf key parts single_key certs (kb ∷ more) n [] = ⊥
  EntriesOf key parts single_key certs (kb ∷ more) n (k ∷ keys) =
      EntryOf key parts single_key certs kb n k
      × EntriesOf key parts single_key certs more (unnamed_with kb.name n) keys

  -- What was found of the keys that the request wants.
  abbrev Answers : Option KeyRequest → List Part → List (Bytes × Outcome Bytes) → Type 0
  Answers key parts found = (der : Bytes) → IsRecovered r key parts der (find_recovered found der)

  key_entries-EntriesOf :
      (key : Option KeyRequest) (parts : List Part) (single_key : Bool) (certs : List CertBag)
      (found : List (Bytes × Outcome Bytes)) (bags : List KeyBag) (unnamed : ℕ)
      → Answers key parts found
      → Ensures
          (EntriesOf key parts single_key certs bags unnamed)
          (key_entries r single_key certs found bags unnamed)
  unfolding key_entries
  key_entries-EntriesOf key parts single_key certs found [] unnamed h = tt
  key_entries-EntriesOf key parts single_key certs found (k ∷ more) unnamed h =
      let P : List KeyEntry → Type 0 = EntriesOf key parts single_key certs (k ∷ more) unnamed in
      let n = (alias_of r k.name unnamed).1 in
      let (alias_is, next) = alias_of-Alias k.name unnamed in
      >>=-Ensures (Below (length certs)) P (leaf_of single_key certs k.local_id) _
        (leaf_of-Below single_key certs k.local_id)
        (λ leaf e below.
          >>=-Ensures (ChainFrom certs leaf) P (chain_of certs leaf) _
            (chain_of-ChainFrom certs leaf below)
            (λ chain e' has.
              >>=-Ensures (EntriesOf key parts single_key certs more n) P
                (key_entries r single_key certs found more n) _
                (key_entries-EntriesOf key parts single_key certs found more n h)
                (λ keys e'' entries. (
                  (alias_is, refl, (leaf, e, has), h k.der),
                  subst (λ m. EntriesOf key parts single_key certs more m keys) next entries,
                ))))

  -- All bags of the parts, in order; those of an encrypted part are in what PBES2 decrypts of it with
  -- the password.
  abbrev pub Gathers : List ℕ → List Part → Bags → Type 0
  Gathers password [] bags = (bags.keys ≡ []) × (bags.certs ≡ [])
  Gathers password (plain b ∷ parts) bags =
      (rest : Bags) × Gathers password parts rest
      × (bags.keys ≡ b.keys ++ rest.keys)
      × (bags.certs ≡ b.certs ++ rest.certs)
  Gathers password (encrypted alg body ∷ parts) bags =
      (text : Bytes) × (b : Bags) × (rest : Bags) × (pbes2_decrypt r alg body password
        ≡ ok (some text))
      × (parse_safe_contents text no_bags ≡ ok b)
      × Gathers password parts rest
      × (bags.keys ≡ b.keys ++ rest.keys)
      × (bags.certs ≡ b.certs ++ rest.certs)

  -- The bags behind those that are there.
  abbrev More : List ℕ → List Part → Bags → Bags → Type 0
  More password parts bags all =
      (more : Bags) × Gathers password parts more
      × (all.keys ≡ bags.keys ++ more.keys)
      × (all.certs ≡ bags.certs ++ more.certs)

  some_of : (o : Option Bytes) → Ensures (λ text. o ≡ some text) (ok_or o certificates_password)
  some_of none = tt
  some_of (some text) = refl

  collect-More :
      (password : List ℕ) (parts : List Part) (ds : List (Outcome (Option Bytes))) (bags : Bags)
      → Decrypts r law password parts ds
      → Ensures (More password parts bags) (collect parts ds bags)
  unfolding collect
  collect-More password [] ds bags h =
      (no_bags, (refl, refl), sym (append-nil bags.keys), sym (append-nil bags.certs))
  collect-More password (plain b ∷ parts) ds bags h =
      Ensures-map (collect parts ds (extend bags b))
        (λ all (more, gathers, keys, certs). (
          extend b more,
          (more, gathers, refl, refl),
          keys ∙ append_assoc bags.keys b.keys more.keys,
          certs ∙ append_assoc bags.certs b.certs more.certs,
        ))
        (collect-More password parts ds (extend bags b) h)
  collect-More password (encrypted alg body ∷ parts) [] bags h = absurd h
  collect-More password (encrypted alg body ∷ parts) (d ∷ ds) bags (same, h) =
      let P : Bags → Type 0 = More password (encrypted alg body ∷ parts) bags in
      >>=-Ensures (λ _. Unit) P d _
        (subst Ends (sym same) (pbes2_decrypt-Ends r alg body password law))
        (λ decrypted e u.
          >>=-Ensures (λ text. decrypted ≡ some text) P (ok_or decrypted certificates_password) _
            (some_of decrypted)
            (λ text e' is_some.
              >>=-Ensures (λ _. Unit) P (parse_safe_contents text no_bags) _
                (parse_safe_contents-Ends text no_bags)
                (λ b e'' u'.
                  Ensures-map (collect parts ds (extend bags b))
                    (λ all (more, gathers, keys, certs). (
                      extend b more,
                      (text, b, more, sym same ∙ e ∙ ap ok is_some, e'', gathers, refl, refl),
                      keys ∙ append_assoc bags.keys b.keys more.keys,
                      certs ∙ append_assoc bags.certs b.certs more.certs,
                    ))
                    (collect-More password parts ds (extend bags b) h))))

  -- The store of a file: its MAC, if it has one, agrees with the password, and its keys are the
  -- entries of the file's key bags, with chains of the file's certificates.
  abbrev pub IsStore : Bytes → List ℕ → Option KeyRequest → Pkcs12 → Type 0
  IsStore bytes password key store =
      (auth_safe : Bytes) × (mac : Option Tlv) × (parts : List Part) × (bags : Bags) × (open_pfx
          bytes
        ≡ ok (auth_safe, mac))
      × (mac_ok r mac auth_safe password ≡ ok tt)
      × (safe_contents auth_safe ≡ ok parts)
      × Gathers password parts bags
      × EntriesOf key parts (length bags.keys == 1) bags.certs bags.keys 0 store.keys

  keys_of-EntriesOf :
      (password : List ℕ) (key : Option KeyRequest) (s : Scoped)
      → Decrypts r law password s.parts s.decrypted
      → Answers key s.parts s.recovered
      → Ensures
          (λ store.
            (bags : Bags) × Gathers password s.parts bags
            × EntriesOf key s.parts (length bags.keys == 1) bags.certs bags.keys 0 store.keys)
          (keys_of r s)
  unfolding keys_of
  keys_of-EntriesOf password key s decrypts found =
      let P : Pkcs12 → Type 0 = λ store.
        (bags : Bags) × Gathers password s.parts bags
        × EntriesOf key s.parts (length bags.keys == 1) bags.certs bags.keys 0 store.keys in
      >>=-Ensures (More password s.parts no_bags) P (collect s.parts s.decrypted no_bags) _
        (collect-More password s.parts s.decrypted no_bags decrypts)
        (λ bags e (more, gathers, keys_are, certs_are).
          rw (keys_are, certs_are)
            (>>=-Ensures (EntriesOf key s.parts (length more.keys == 1) more.certs more.keys 0) P
              (key_entries r (length more.keys == 1) more.certs s.recovered more.keys 0) _
              (key_entries-EntriesOf key s.parts (length more.keys == 1) more.certs s.recovered
                more.keys 0 found)
              (λ keys e' entries. (more, gathers, entries))))

  -- `parse` ends on every byte string, passwords and request with no panic. Of a store that it
  -- returns, the MAC of the file, if it has one, agrees with the store password. The file's bags are
  -- those of its parts in order, an encrypted part decrypted with that password; the store has one key
  -- for each key bag, in order, with the bag's bytes. Its alias is the bag's name in lower case or the
  -- next number; its chain is empty, or the one from the leaf that `leaf_of` finds among the file's
  -- certificates. What is recovered of it is what `recover_key` makes of its bytes and the password of
  -- the request, where a key of these bytes stands in a part that is not encrypted and has the name that
  -- the request asks for, in any case, or the request asks for none; nothing is recovered elsewhere.
  pub parse-IsStore :
      (bytes : Bytes) (password : List ℕ) (key : Option KeyRequest)
      → Ensures (IsStore bytes password key) (parse r bytes password key)
  unfolding parse
  parse-IsStore bytes password key =
      let P : Pkcs12 → Type 0 = IsStore bytes password key in
      >>=-Ensures (λ _. Unit) P (open_pfx bytes) _ (open_pfx-Ends bytes)
        (λ f e u.
          let verdict = mac_ok r (f.1) (f.0) password in
          >>=-Ensures (IsScoped r law verdict password key (safe_contents (f.0))) P
            (scoped r verdict password key (safe_contents (f.0))) _
            (scoped-IsScoped r law verdict password key (safe_contents (f.0))
              (mac_ok-Ends r law (f.1) (f.0) password) (safe_contents-Ends (f.0)))
            (λ s e' (passed, contents, decrypts, run, found).
              let answers = rw run at (find_recovered-IsRecovered r key s.parts law) in
              Ensures-map (keys_of r s)
                (λ store (bags, gathers, entries).
                  (f.0, f.1, s.parts, bags, e, passed, contents, gathers, entries))
                (keys_of-EntriesOf password key s decrypts answers)))
