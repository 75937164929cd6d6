-- ===== src/Pkcs12/Store.antt =====
-- src/pkcs12.rs: `parse` and `recover_key`. A thread is the call that it runs: what it returns is there
-- when it is joined, and its panic is one of the thread that joins it.
pub mod Recover
pub mod Total
pub mod Asked
pub mod Parse
pub mod Verdict
use fastsigner.Base.{
  signed_auth_safe, pfx_version, certificates_password, pfx_trailing, wrong_key_password, ℕ, ◌+◌,
  Bool, true, false, Option, some, none, List, [], ◌∷◌, ◌++◌, Bytes, length, get_elem?, Outcome, ok,
  err, codes, bytes_eq, ◌>>=◌, ◌>>◌, if◌then◌else◌, fail_if, ok_or, ◌==◌, not, panic, out_of_fuel,
}
use fastsigner.Jks.{KeyEntry}
use fastsigner.Pkcs12.{Tlv, one, expect_tag, children, child, octets, uint, constructed}
use fastsigner.Pkcs12.Oids.{oid_data}
use fastsigner.Pkcs12.Ring.{Ring}
use fastsigner.Pkcs12.Mac.{verify_mac}
use fastsigner.Pkcs12.Pbes2.{pbes2_decrypt}
use fastsigner.Pkcs12.Text.{to_string}
use fastsigner.Pkcs12.Safe.{
  KeyBag, CertBag, Bags, no_bags, Part, plain, encrypted, content_info, parse_safe_contents,
  safe_contents,
}
use fastsigner.Pkcs12.Chain.{build_chain, leaf_of}

-- A decrypted key that is one SEQUENCE and nothing else.
unfoldable pub settle : Bytes → Outcome Tlv → Outcome Bytes
settle text (ok t) = if length t.raw == length text then ok text else err wrong_key_password
settle text (err e) = err wrong_key_password
settle text panic = panic
settle text out_of_fuel = out_of_fuel

-- `c.first().is_some_and(|t| t.tag == 0x02)`.
abbrev pub is_plain_key : List Tlv → Bool
is_plain_key [] = false
is_plain_key (t ∷ c) = t.tag == 0x02

unfoldable pub recover_key : Ring → Bytes → List ℕ → Outcome Bytes
recover_key r protected_key key_password = do
  t ← one protected_key 0x30 (codes "key bag")
  c ← children t.body
  if is_plain_key c then ok protected_key else (do
    alg ← child c 0 0x30 (codes "EncryptedPrivateKeyInfo")
    body ← child c 1 0x04 (codes "EncryptedPrivateKeyInfo")
    decrypted ← pbes2_decrypt r alg body.body key_password
    text ← ok_or decrypted wrong_key_password
    settle text (one text 0x30 []))

pub record KeyRequest : Type 0 where
  pub alias : Option Bytes
  pub password : List ℕ

pub record Pkcs12 : Type 0 where
  pub keys : List KeyEntry

-- `join`, and `join` of a row of threads.
unfoldable pub join : {A : Type 0} → Outcome A → Outcome (Outcome A)
join (ok a) = ok (ok a)
join (err e) = ok (err e)
join panic = panic
join out_of_fuel = out_of_fuel

unfoldable pub joins : {A : Type 0} → List (Outcome A) → Outcome (List (Outcome A))
joins [] = ok []
joins (h ∷ hs) = do d ← join h; ds ← joins hs; ok (d ∷ ds)

-- `mac_ok`: the verdict on the MAC, where there is one.
unfoldable pub mac_ok : Ring → Option Tlv → Bytes → List ℕ → Outcome (Unit {0})
mac_ok r none auth_safe password = ok tt
mac_ok r (some m) auth_safe password = verify_mac r m auth_safe password

-- The threads that decrypt the containers.
unfoldable pub containers : Ring → List Part → List ℕ → List (Outcome (Option Bytes))
containers r [] password = []
containers r (plain b ∷ parts) password = containers r parts password
containers r (encrypted alg body ∷ parts) password =
    pbes2_decrypt r alg body password ∷ containers r parts password

-- The keys that are there without decryption.
unfoldable pub plain_keys : List Part → List KeyBag
plain_keys [] = []
plain_keys (plain b ∷ parts) = b.keys ++ plain_keys parts
plain_keys (encrypted alg body ∷ parts) = plain_keys parts

unfoldable pub is_wanted : Ring → Option Bytes → KeyBag → Bool
is_wanted r none kb = true
is_wanted r (some a) kb = elim kb.name [
  | none ↦ false
  | some n ↦ bytes_eq (r.to_lowercase n) (r.to_lowercase a)
]

-- The wanted keys, each joined with its encrypted form.
unfoldable pub recovered_keys :
    Ring → KeyRequest → List KeyBag → Outcome (List (Bytes × Outcome Bytes))
recovered_keys r k [] = ok []
recovered_keys r k (kb ∷ more) = do
  rest ← recovered_keys r k more
  if not (is_wanted r k.alias kb)
      then ok rest
      else (do d ← join (recover_key r kb.der k.password); ok ((kb.der, d) ∷ rest))

unfoldable pub recovered_of :
    Ring → Option KeyRequest → List Part → Outcome (List (Bytes × Outcome Bytes))
recovered_of r none parts = ok []
recovered_of r (some k) parts = recovered_keys r k (plain_keys parts)

-- What the scope of the threads returns.
pub record Scoped : Type 0 where
  pub parts : List Part
  pub decrypted : List (Outcome (Option Bytes))
  pub recovered : List (Bytes × Outcome Bytes)

unfoldable pub scoped :
    Ring → Outcome (Unit {0}) → List ℕ → Option KeyRequest → Outcome (List Part) → Outcome Scoped
scoped r verdict password key (ok parts) = do
  decrypted ← joins (containers r parts password)
  recovered ← recovered_of r key parts
  verdict
  ok (record { parts = parts; decrypted = decrypted; recovered = recovered })
scoped r verdict password key (err e) = do verdict; err e
scoped r verdict password key panic = panic
scoped r verdict password key out_of_fuel = out_of_fuel

abbrev pub extend : Bags → Bags → Bags
extend bags more = record { keys = bags.keys ++ more.keys; certs = bags.certs ++ more.certs }

-- Bags in document order.
unfoldable pub collect : List Part → List (Outcome (Option Bytes)) → Bags → Outcome Bags
collect [] ds bags = ok bags
collect (plain b ∷ parts) ds bags = collect parts ds (extend bags b)
collect (encrypted alg body ∷ parts) [] bags = panic
collect (encrypted alg body ∷ parts) (d ∷ ds) bags = do
  decrypted ← d
  text ← ok_or decrypted certificates_password
  b ← parse_safe_contents text no_bags
  collect parts ds (extend bags b)

unfoldable pub chain_of : List CertBag → Option ℕ → Outcome (List Bytes)
chain_of certs none = ok []
chain_of certs (some leaf) = build_chain certs leaf

-- `recovered.iter().find(|(der, _)| *der == k.der)`.
unfoldable pub find_recovered : List (Bytes × Outcome Bytes) → Bytes → Option (Outcome Bytes)
find_recovered [] der = none
find_recovered ((der', d) ∷ more) der =
    let rest = find_recovered more der in if bytes_eq der' der then some d else rest

-- The alias of a key, and how many had no name so far.
unfoldable pub alias_of : Ring → Option Bytes → ℕ → Bytes × ℕ
alias_of r none unnamed = (to_string (unnamed + 1), unnamed + 1)
alias_of r (some n) unnamed = (r.to_lowercase n, unnamed)

unfoldable pub key_entries :
    Ring
    → Bool
    → List CertBag
    → List (Bytes × Outcome Bytes)
    → List KeyBag
    → ℕ
    → Outcome (List KeyEntry)
key_entries r single_key certs recovered [] unnamed = ok []
key_entries r single_key certs recovered (k ∷ more) unnamed = do
  leaf ← leaf_of single_key certs k.local_id
  chain ← chain_of certs leaf
  let (alias, unnamed') = alias_of r k.name unnamed
  let entry : KeyEntry = record {
    alias = alias;
    protected_key = k.der;
    chain = chain;
    recovered = find_recovered recovered k.der;
  }
  keys ← key_entries r single_key certs recovered more unnamed'
  ok (entry ∷ keys)

-- `f.get(2).map(..).transpose()`.
unfoldable pub mac_field : Option Tlv → Outcome (Option Tlv)
mac_field none = ok none
mac_field (some m) = do m ← expect_tag m 0x30 (codes "MacData"); ok (some m)

-- The authSafe of a PFX, and its MacData.
unfoldable pub open_pfx : Bytes → Outcome (Bytes × Option Tlv)
open_pfx bytes = do
  pfx ← one bytes 0x30 (codes "PFX")
  fail_if (not (length pfx.raw == length bytes)) pfx_trailing
  f ← children pfx.body
  version_t ← child f 0 0x02 (codes "PFX version")
  version ← uint version_t (codes "PFX version")
  fail_if (not (version == 3)) pfx_version
  safe_t ← child f 1 0x30 (codes "authSafe")
  (oid, content) ← content_info safe_t
  fail_if (not (bytes_eq oid oid_data)) signed_auth_safe
  content ← expect_tag content (constructed content.tag + 0x04) (codes "authSafe")
  auth_safe ← octets content
  mac ← mac_field (get_elem? f 2)
  ok (auth_safe, mac)

-- All behind the scope.
unfoldable pub keys_of : Ring → Scoped → Outcome Pkcs12
keys_of r s = do
  bags ← collect s.parts s.decrypted no_bags
  keys ← key_entries r (length bags.keys == 1) bags.certs s.recovered bags.keys 0
  ok (record { keys = keys })

unfoldable pub parse : Ring → Bytes → List ℕ → Option KeyRequest → Outcome Pkcs12
parse r bytes store_password key = do
  (auth_safe, mac) ← open_pfx bytes
  s ← scoped r (mac_ok r mac auth_safe store_password) store_password key (safe_contents auth_safe)
  keys_of r s
