-- ===== src/Pkcs12/Store/Total.antt =====
-- `parse` ends on every byte string, and a store that it returns has passed its MAC.
use fastsigner.Base.{
  ℕ, ◌+◌, ◌≡◌, refl, sym, subst, Option, some, none, List, [], ◌∷◌, Bytes, length, All, get_elem?,
  Outcome, ok, err, Ensures, codes, bytes_eq, ok_or, ◌==◌, not, panic, out_of_fuel,
}
use fastsigner.Base.{
  Ensures-map, if-Ensures, >>=-Ensures, certificates_password, pfx_trailing, pfx_version,
  signed_auth_safe,
}
use fastsigner.Keys.Der.Bounds.{Ends, >>=-Ends, >>=-Then, fail_if-Ends}
use fastsigner.Pkcs12.{Tlv, one, expect_tag, children, child, octets, uint, constructed}
use fastsigner.Pkcs12.Elements.{
  one-Ends, expect_tag-Ends, child-Ends, children-Ends, octets-Ends, ok_or-Ends,
}
use fastsigner.Pkcs12.Uint.{uint-Ends}
use fastsigner.Pkcs12.Oids.{oid_data}
use fastsigner.Pkcs12.Ring.{Ring, IsRing}
use fastsigner.Pkcs12.Mac.Total.{verify_mac-Ends}
use fastsigner.Pkcs12.Pbes2.{pbes2_decrypt}
use fastsigner.Pkcs12.Pbes2.Unpad.{pbes2_decrypt-Ends}
use fastsigner.Pkcs12.Safe.{
  KeyBag, Bags, no_bags, Part, plain, encrypted, content_info, parse_safe_contents,
}
use fastsigner.Pkcs12.Safe.Total.{content_info-Ends, parse_safe_contents-Ends}
use fastsigner.Pkcs12.Store.{
  recover_key, KeyRequest, join, joins, mac_ok, containers, plain_keys, is_wanted, recovered_keys,
  recovered_of, Scoped, scoped, extend, collect, mac_field, open_pfx,
}
use fastsigner.Pkcs12.Store.Recover.{recover_key-IsKey}

mac_field-Ends : (o : Option Tlv) → Ends (mac_field o)
unfolding mac_field
mac_field-Ends none = tt
mac_field-Ends (some m) =
    >>=-Ends (expect_tag m 0x30 (codes "MacData")) _ (expect_tag-Ends m 0x30 _) (λ m'. tt)

pub open_pfx-Ends : (bytes : Bytes) → Ends (open_pfx bytes)
unfolding open_pfx
open_pfx-Ends bytes = >>=-Ends (one bytes 0x30 (codes "PFX")) _ (one-Ends bytes 0x30 _) (λ pfx.
    fail_if-Ends (not (length pfx.raw == length bytes)) pfx_trailing _ (
      >>=-Ends (children pfx.body) _ (children-Ends pfx.body) (λ f.
        >>=-Ends (child f 0 0x02 (codes "PFX version")) _ (child-Ends f 0 0x02 _) (λ version_t.
          >>=-Ends (uint version_t (codes "PFX version")) _ (uint-Ends version_t _) (λ version.
            fail_if-Ends (not (version == 3)) pfx_version _ (
              >>=-Ends (child f 1 0x30 (codes "authSafe")) _ (child-Ends f 1 0x30 _) (λ safe_t.
                >>=-Ends (content_info safe_t) _ (content_info-Ends safe_t) (λ c.
                  fail_if-Ends (not (bytes_eq (c.0) oid_data)) signed_auth_safe _ (
                    >>=-Ends (expect_tag (c.1) (constructed (c.1).tag + 0x04) (codes "authSafe")) _
                      (expect_tag-Ends (c.1) (constructed (c.1).tag + 0x04) _)
                      (λ content. >>=-Ends (octets content) _ (octets-Ends content) (λ auth_safe.
                        >>=-Ends (mac_field (get_elem? f 2)) _ (mac_field-Ends (get_elem? f 2))
                          (λ mac. tt))))))))))))

-- What a thread that ends returns when it is joined.
pub join-Same : {A : Type 0} (m : Outcome A) → Ends m → Ensures (λ d. d ≡ m) (join m)
unfolding join
join-Same (ok a) h = refl
join-Same (err e) h = refl
join-Same panic h = absurd h
join-Same out_of_fuel h = absurd h

-- A result for each container.
abbrev pub Matches : List Part → List (Outcome (Option Bytes)) → Type 0
Matches [] ds = Unit
Matches (plain b ∷ parts) ds = Matches parts ds
Matches (encrypted alg body ∷ parts) [] = ⊥
Matches (encrypted alg body ∷ parts) (d ∷ ds) = Ends d × Matches parts ds

pub collect-Ends :
    (parts : List Part) (ds : List (Outcome (Option Bytes))) (bags : Bags)
    → Matches parts ds
    → Ends (collect parts ds bags)
unfolding collect
collect-Ends [] ds bags h = tt
collect-Ends (plain b ∷ parts) ds bags h = collect-Ends parts ds (extend bags b) h
collect-Ends (encrypted alg body ∷ parts) [] bags h = absurd h
collect-Ends (encrypted alg body ∷ parts) (d ∷ ds) bags (h, hs) = >>=-Ends d _ h (λ decrypted.
    >>=-Ends (ok_or decrypted certificates_password) _ (ok_or-Ends decrypted certificates_password)
      (λ text.
        >>=-Ends (parse_safe_contents text no_bags) _ (parse_safe_contents-Ends text no_bags)
          (λ b. collect-Ends parts ds (extend bags b) hs)))

module _ (r : Ring) (law : IsRing r) where
  pub mac_ok-Ends :
      (mac : Option Tlv) (auth_safe : Bytes) (password : List ℕ)
      → Ends (mac_ok r mac auth_safe password)
  unfolding mac_ok
  mac_ok-Ends none auth_safe password = tt
  mac_ok-Ends (some m) auth_safe password = verify_mac-Ends r m auth_safe password law

  -- The result for each container is that of its decryption with the store password.
  abbrev pub Decrypts : List ℕ → List Part → List (Outcome (Option Bytes)) → Type 0
  Decrypts password [] ds = ds ≡ []
  Decrypts password (plain b ∷ parts) ds = Decrypts password parts ds
  Decrypts password (encrypted alg body ∷ parts) [] = ⊥
  Decrypts password (encrypted alg body ∷ parts) (d ∷ ds) =
      (d ≡ pbes2_decrypt r alg body password) × Decrypts password parts ds

  pub Decrypts-Matches :
      (password : List ℕ) (parts : List Part) (ds : List (Outcome (Option Bytes)))
      → Decrypts password parts ds
      → Matches parts ds
  Decrypts-Matches password [] ds h = tt
  Decrypts-Matches password (plain b ∷ parts) ds h = Decrypts-Matches password parts ds h
  Decrypts-Matches password (encrypted alg body ∷ parts) [] h = absurd h
  Decrypts-Matches password (encrypted alg body ∷ parts) (d ∷ ds) (same, h) = (
    subst Ends (sym same) (pbes2_decrypt-Ends r alg body password law),
    Decrypts-Matches password parts ds h,
  )

  pub joins-Decrypts :
      (parts : List Part) (password : List ℕ)
      → Ensures (Decrypts password parts) (joins (containers r parts password))
  unfolding joins containers
  joins-Decrypts [] password = refl
  joins-Decrypts (plain b ∷ parts) password = joins-Decrypts parts password
  joins-Decrypts (encrypted alg body ∷ parts) password =
      let m = pbes2_decrypt r alg body password in
      let ends = pbes2_decrypt-Ends r alg body password law in
      let P : List (Outcome (Option Bytes)) → Type 0 =
        Decrypts password (encrypted alg body ∷ parts) in
      >>=-Ensures (λ d. d ≡ m) P (join m) _ (join-Same m ends)
        (λ d e same.
          >>=-Ensures (Decrypts password parts) P (joins (containers r parts password)) _
            (joins-Decrypts parts password) (λ ds e' matches. (same, matches)))

  -- Each recovered key is that of `recover_key` with the password of the request.
  abbrev pub Recovered : Option KeyRequest → List (Bytes × Outcome Bytes) → Type 0
  Recovered key found =
      All (λ (der, d). (k : KeyRequest) × (key ≡ some k) × (d ≡ recover_key r der k.password)) found

  recovered_keys-Recovered :
      (k : KeyRequest) (bags : List KeyBag) → Ensures (Recovered (some k)) (recovered_keys r k bags)
  unfolding recovered_keys
  recovered_keys-Recovered k [] = tt
  recovered_keys-Recovered k (kb ∷ more) =
      let m = recover_key r kb.der k.password in
      let P : List (Bytes × Outcome Bytes) → Type 0 = Recovered (some k) in
      >>=-Ensures P P (recovered_keys r k more) _ (recovered_keys-Recovered k more) (λ rest e found.
        if-Ensures P (not (is_wanted r k.alias kb)) _ _ (λ other. found)
          (λ wanted.
            >>=-Ensures (λ d. d ≡ m) P (join m) _
              (join-Same m
                (Ensures-map m (λ key is. tt) (recover_key-IsKey r kb.der k.password law)))
              (λ d e' same. ((k, refl, same), found))))

  pub recovered_of-Recovered :
      (key : Option KeyRequest) (parts : List Part)
      → Ensures (Recovered key) (recovered_of r key parts)
  unfolding recovered_of
  recovered_of-Recovered none parts = tt
  recovered_of-Recovered (some k) parts = recovered_keys-Recovered k (plain_keys parts)

  -- The scope of the threads returns only if the verdict on the MAC is good, and then its parts are
  -- those that were given to it.
  abbrev pub IsScoped :
      Outcome (Unit {0}) → List ℕ → Option KeyRequest → Outcome (List Part) → Scoped → Type 0
  IsScoped verdict password key m s =
      (verdict ≡ ok tt)
      × (m ≡ ok s.parts)
      × Decrypts password s.parts s.decrypted
      × (recovered_of r key s.parts ≡ ok s.recovered)
      × Recovered key s.recovered

  pub scoped-IsScoped :
      (verdict : Outcome (Unit {0})) (password : List ℕ) (key : Option KeyRequest)
      (m : Outcome (List Part))
      → Ends verdict
      → Ends m
      → Ensures (IsScoped verdict password key m) (scoped r verdict password key m)
  unfolding scoped
  scoped-IsScoped verdict password key (ok parts) hv hm =
      let P : Scoped → Type 0 = IsScoped verdict password key (ok parts) in
      >>=-Ensures (Decrypts password parts) P (joins (containers r parts password)) _
        (joins-Decrypts parts password)
        (λ ds e matches.
          >>=-Ensures (Recovered key) P (recovered_of r key parts) _
            (recovered_of-Recovered key parts)
            (λ found e' recovered.
              >>=-Ensures (λ _. Unit) P verdict _ hv
                (λ u e'' w. (e'', refl, matches, e', recovered))))
  scoped-IsScoped verdict password key (err e) hv hm = >>=-Then _ verdict _ hv (λ u. tt)
  scoped-IsScoped verdict password key panic hv hm = absurd hm
  scoped-IsScoped verdict password key out_of_fuel hv hm = absurd hm
