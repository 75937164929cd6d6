-- ===== src/Pkcs12/Store/Verdict.antt =====
-- A MAC that does not agree is what `parse` reports, whatever else is wrong.
use fastsigner.Base.{
  ℕ, ◌≡◌, refl, Bool, true, false, Option, some, none, List, [], ◌∷◌, Bytes, Outcome, ok, err,
  ◌>>=◌, if◌then◌else◌, not, panic, out_of_fuel,
}
use fastsigner.Base.{Error, Ensures-map}
use fastsigner.Keys.Der.Bounds.{Ends}
use fastsigner.Pkcs12.{Tlv}
use fastsigner.Pkcs12.Ring.{Ring, IsRing}
use fastsigner.Pkcs12.Mac.{verify_mac}
use fastsigner.Pkcs12.Pbes2.{pbes2_decrypt}
use fastsigner.Pkcs12.Pbes2.Unpad.{pbes2_decrypt-Ends}
use fastsigner.Pkcs12.Safe.{KeyBag, Part, plain, encrypted, safe_contents}
use fastsigner.Pkcs12.Safe.Total.{safe_contents-Ends}
use fastsigner.Pkcs12.Store.{
  recover_key, KeyRequest, join, joins, mac_ok, containers, plain_keys, is_wanted, recovered_keys,
  recovered_of, scoped, open_pfx, parse,
}
use fastsigner.Pkcs12.Store.Recover.{recover_key-IsKey}

join-run : {A : Type 0} (m : Outcome A) → Ends m → join m ≡ ok m
unfolding join
join-run (ok a) h = refl
join-run (err e) h = refl
join-run panic h = absurd h
join-run out_of_fuel h = absurd h

module _ (r : Ring) (law : IsRing r) where
  joins-run :
      (parts : List Part) (password : List ℕ)
      → joins (containers r parts password) ≡ ok (containers r parts password)
  unfolding joins containers
  joins-run [] password = refl
  joins-run (plain b ∷ parts) password = joins-run parts password
  joins-run (encrypted alg body ∷ parts) password =
      let m = pbes2_decrypt r alg body password in
      rw (join-run m (pbes2_decrypt-Ends r alg body password law), joins-run parts password) refl

  recover-Ends : (der : Bytes) (password : List ℕ) → Ends (recover_key r der password)
  recover-Ends der password =
      Ensures-map (recover_key r der password) (λ key is. tt) (recover_key-IsKey r der password law)

  -- One more key in front of those that were recovered.
  one_more :
      (wanted : Bool) (kb : KeyBag) (m : Outcome Bytes) (rest : List (Bytes × Outcome Bytes))
      → Ends m
      → (found : List (Bytes × Outcome Bytes)) × ((if not wanted
            then ok rest
            else (join m >>= λ d. ok ((kb.der, d) ∷ rest)))
          ≡ ok found)
  one_more false kb m rest h = (rest, refl)
  one_more true kb m rest h = ((kb.der, m) ∷ rest, rw (join-run m h) refl)

  recovered_keys-run :
      (k : KeyRequest) (bags : List KeyBag)
      → (found : List (Bytes × Outcome Bytes)) × (recovered_keys r k bags ≡ ok found)
  unfolding recovered_keys
  recovered_keys-run k [] = ([], refl)
  recovered_keys-run k (kb ∷ more) =
      let (rest, run) = recovered_keys-run k more in
      rw run (
        one_more (is_wanted r k.alias kb) kb (recover_key r kb.der k.password) rest
          (recover-Ends kb.der k.password))

  recovered_of-run :
      (key : Option KeyRequest) (parts : List Part)
      → (found : List (Bytes × Outcome Bytes)) × (recovered_of r key parts ≡ ok found)
  unfolding recovered_of
  recovered_of-run none parts = ([], refl)
  recovered_of-run (some k) parts = recovered_keys-run k (plain_keys parts)

  scoped_fails :
      (verdict : Outcome (Unit {0})) (password : List ℕ) (key : Option KeyRequest)
      (m : Outcome (List Part)) (e : Error)
      → verdict ≡ err e
      → Ends m
      → scoped r verdict password key m ≡ err e
  unfolding scoped
  scoped_fails verdict password key (ok parts) e bad h =
      let (found, run) = recovered_of-run key parts in rw (joins-run parts password, run, bad) refl
  scoped_fails verdict password key (err other) e bad h = rw bad refl
  scoped_fails verdict password key panic e bad h = absurd h
  scoped_fails verdict password key out_of_fuel e bad h = absurd h

  -- Where a file has a MAC that `verify_mac` does not accept, `parse` fails with its error, whatever is
  -- in the file's bags and whether or not they can be decrypted.
  pub parse-verify_mac :
      (bytes : Bytes) (password : List ℕ) (key : Option KeyRequest) (auth_safe : Bytes) (m : Tlv)
      (e : Error)
      → open_pfx bytes ≡ ok (auth_safe, some m)
      → verify_mac r m auth_safe password ≡ err e
      → parse r bytes password key ≡ err e
  unfolding parse mac_ok
  parse-verify_mac bytes password key auth_safe m e opened bad =
      rw
        (
          opened,
          scoped_fails (verify_mac r m auth_safe password) password key (safe_contents auth_safe) e
              bad (safe_contents-Ends auth_safe),
        )
        refl
