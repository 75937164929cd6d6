-- ===== src/Pkcs12/Safe.antt =====
-- src/pkcs12.rs: the bags of a store, from `content_info` to `safe_contents`.
pub mod Total
use fastsigner.Base.{
  encrypted_content, nested_too_deeply, enveloped_data, ℕ, zero, suc, ◌+◌, ◌-◌, Option, some, none,
  List, [], ◌∷◌, ◌++◌, Bytes, length, get_elem?, Outcome, ok, err, codes, index, bytes_eq, ◌>>=◌,
  ◌>>◌, if◌then◌else◌, fail_if, ltb, ◌==◌, not, ◌&&◌, ◌||◌, out_of_fuel,
}
use fastsigner.Pkcs12.{Tlv, tlv, one, expect_tag, children, child, octets, constructed}
use fastsigner.Pkcs12.Oids.{
  oid_data, oid_encrypted_data, oid_bag_prefix, oid_x509_cert, oid_friendly_name, oid_local_key_id,
  bag_key, bag_shrouded_key, bag_cert, bag_safe_contents, max_nesting, extends,
}
use fastsigner.Pkcs12.Text.{from_utf16_lossy, be_units}

unfoldable pub content_info : Tlv → Outcome (Bytes × Tlv)
content_info t = do
  t ← expect_tag t 0x30 (codes "ContentInfo")
  c ← children t.body
  oid ← child c 0 0x06 (codes "ContentInfo")
  content ← child c 1 0xa0 (codes "ContentInfo")
  (inner, _) ← tlv content.body 0
  ok (oid.body, inner)

pub record KeyBag : Type 0 where
  pub der : Bytes
  pub name : Option Bytes
  pub local_id : Option Bytes

pub record CertBag : Type 0 where
  pub der : Bytes
  pub local_id : Option Bytes

pub record Bags : Type 0 where
  pub keys : List KeyBag
  pub certs : List CertBag

-- `Bags::default()`.
abbrev pub no_bags : Bags
no_bags = record { keys = []; certs = [] }

-- The two attributes of a bag that are looked at: its `friendlyName` and its `localKeyId`.
abbrev pub Attributes : Type 0
Attributes = Option Bytes × Option Bytes

-- An attribute with a value changes what was found before it.
unfoldable pub attr_value : Bytes → Tlv → Attributes → Attributes
attr_value aoid v (name, local_id) =
    if bytes_eq aoid oid_friendly_name && (v.tag == 0x1e)
    then (some (from_utf16_lossy (be_units v.body)), local_id)
    else if bytes_eq aoid oid_local_key_id && (v.tag == 0x04)
    then (name, some v.body)
    else (name, local_id)

-- The body of the loop over the attributes; `continue` where there is no value.
unfoldable pub bag_attr : Tlv → Attributes → Outcome Attributes
bag_attr attr found = do
  attr ← expect_tag attr 0x30 (codes "bag attribute")
  a ← children attr.body
  aoid ← child a 0 0x06 (codes "bag attribute")
  values_t ← child a 1 0x31 (codes "bag attribute")
  values ← children values_t.body
  elim (get_elem? values 0) [ none ↦ ok found | some v ↦ ok (attr_value aoid.body v found) ]

unfoldable pub attrs_loop : List Tlv → Attributes → Outcome Attributes
attrs_loop [] found = ok found
attrs_loop (attr ∷ attrs) found = do found ← bag_attr attr found; attrs_loop attrs found

unfoldable pub bag_attrs : Option Tlv → Outcome Attributes
bag_attrs none = ok (none, none)
bag_attrs (some attrs) = do
  attrs ← expect_tag attrs 0x31 (codes "bag attributes")
  c ← children attrs.body
  attrs_loop c (none, none)

unfoldable pub cert_bag : Tlv → Option Bytes → Bags → Outcome Bags
cert_bag value local_id bags = do
  value ← expect_tag value 0x30 (codes "CertBag")
  c ← children value.body
  oid ← child c 0 0x06 (codes "CertBag")
  if not (bytes_eq oid.body oid_x509_cert) then ok bags else (do
    content ← child c 1 0xa0 (codes "CertBag")
    (inner, _) ← tlv content.body 0
    der ← octets inner
    let cert : CertBag = record { der = der; local_id = local_id }
    ok (record { keys = bags.keys; certs = bags.certs ++ cert ∷ [] }))

unfoldable pub key_bag : Tlv → Attributes → Bags → Outcome Bags
key_bag value (name, local_id) bags = do
  value ← expect_tag value 0x30 (codes "key bag")
  let key : KeyBag = record { der = value.raw; name = name; local_id = local_id }
  ok (record { keys = bags.keys ++ key ∷ []; certs = bags.certs })

-- A bag by the last byte of its type; `nested` parses the SafeContents in it.
unfoldable pub typed_bag :
    (Bytes → Bags → Outcome Bags) → ℕ → Tlv → Attributes → Bags → Outcome Bags
typed_bag nested type value found bags =
    if (type == bag_key) || (type == bag_shrouded_key)
    then key_bag value found bags
    else if type == bag_cert
    then cert_bag value (found.1) bags
    else if type == bag_safe_contents
    then nested value.raw bags
    else ok bags

-- The body of the loop over the bags.
unfoldable pub safe_bag : (Bytes → Bags → Outcome Bags) → Tlv → Bags → Outcome Bags
safe_bag nested bag bags = do
  bag ← expect_tag bag 0x30 (codes "SafeBag")
  f ← children bag.body
  oid ← child f 0 0x06 (codes "SafeBag")
  content ← child f 1 0xa0 (codes "SafeBag")
  (value, _) ← tlv content.body 0
  found ← bag_attrs (get_elem? f 2)
  if not (extends oid.body oid_bag_prefix) then ok bags else (do
    type ← index oid.body (length oid_bag_prefix)
    typed_bag nested type value found bags)

unfoldable pub bags_loop : (Bytes → Bags → Outcome Bags) → List Tlv → Bags → Outcome Bags
bags_loop nested [] bags = ok bags
bags_loop nested (bag ∷ more) bags = do bags ← safe_bag nested bag bags; bags_loop nested more bags

-- One call of `parse_safe_contents`, the calls in it by `nested`.
unfoldable pub safe_level : (Bytes → Bags → Outcome Bags) → Bytes → Bags → ℕ → Outcome Bags
safe_level nested b bags depth = do
  fail_if (ltb max_nesting depth) nested_too_deeply
  t ← one b 0x30 (codes "SafeContents")
  c ← children t.body
  bags_loop nested c bags

unfoldable pub safe_contents_loop : ℕ → Bytes → Bags → ℕ → Outcome Bags
safe_contents_loop zero b bags depth = out_of_fuel
safe_contents_loop (suc fuel) b bags depth =
    safe_level (λ b' bags'. safe_contents_loop fuel b' bags' (depth + 1)) b bags depth

-- From depth 0; the fuel is one more than the depths that are allowed and the one that is refused.
unfoldable pub parse_safe_contents : Bytes → Bags → Outcome Bags
parse_safe_contents b bags = safe_contents_loop (max_nesting + 2) b bags 0

pub data Part : Type 0 where
  plain : Bags → Part
  encrypted : Tlv → Bytes → Part

-- The encrypted content; `continue` where there is none.
unfoldable pub enc_content : Tlv → Option Tlv → List Part → Outcome (List Part)
enc_content alg none parts = ok parts
enc_content alg (some enc) parts = do
  fail_if (not (enc.tag - constructed enc.tag == 0x80)) encrypted_content
  body ← octets enc
  ok (parts ++ encrypted alg body ∷ [])

-- An `EncryptedData`.
unfoldable pub encrypted_part : Tlv → List Part → Outcome (List Part)
encrypted_part content parts = do
  content ← expect_tag content 0x30 (codes "EncryptedData")
  ed ← children content.body
  eci_t ← child ed 1 0x30 (codes "EncryptedContentInfo")
  eci ← children eci_t.body
  alg ← child eci 1 0x30 (codes "EncryptedContentInfo")
  enc_content alg (get_elem? eci 2) parts

-- The body of the loop over the AuthenticatedSafe.
unfoldable pub safe_part : Tlv → List Part → Outcome (List Part)
safe_part ci parts = do
  (oid, content) ← content_info ci
  if bytes_eq oid oid_data
      then (do
        content ← expect_tag content (constructed content.tag + 0x04) (codes "data")
        b ← octets content
        bags ← parse_safe_contents b no_bags
        ok (parts ++ plain bags ∷ []))
      else if bytes_eq oid oid_encrypted_data
      then encrypted_part content parts
      else err enveloped_data

unfoldable pub parts_loop : List Tlv → List Part → Outcome (List Part)
parts_loop [] parts = ok parts
parts_loop (ci ∷ more) parts = do parts ← safe_part ci parts; parts_loop more parts

unfoldable pub safe_contents : Bytes → Outcome (List Part)
safe_contents auth_safe = do
  t ← one auth_safe 0x30 (codes "AuthenticatedSafe")
  c ← children t.body
  parts_loop c []
