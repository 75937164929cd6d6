-- ===== src/Pkcs12/Safe/Total.antt =====
-- The walk over the bags of a store ends, however they are nested.
use fastsigner.Base.{
  ℕ, zero, suc, ◌+◌, ◌-◌, ◌≤◌, ◌≡◌, true, Option, some, none, List, [], ◌∷◌, Bytes, length,
  get_elem?, Outcome, ok, arith, codes, index, bytes_eq, ltb, ◌==◌, not, ◌||◌,
}
use fastsigner.Base.{if-Ensures, fail_if-Ensures, ltb→le, nested_too_deeply, encrypted_content}
use fastsigner.Keys.Der.Bounds.{Ends, >>=-Ends, fail_if-Ends, if-Ends}
use fastsigner.Pkcs12.{Tlv, tlv, one, expect_tag, children, child, octets, constructed}
use fastsigner.Pkcs12.Elements.{
  tlv-Ends, one-Ends, expect_tag-Ends, child-Ends, children-Ends, octets-Ends,
}
use fastsigner.Pkcs12.Oids.{
  oid_data, oid_encrypted_data, oid_bag_prefix, oid_x509_cert, bag_key, bag_shrouded_key, bag_cert,
  bag_safe_contents, max_nesting, extends,
}
use fastsigner.Pkcs12.Mac.Total.{index-extends}
use fastsigner.Pkcs12.Safe.{
  content_info, Bags, no_bags, Attributes, attr_value, bag_attr, attrs_loop, bag_attrs, cert_bag,
  key_bag, typed_bag, safe_bag, bags_loop, safe_level, safe_contents_loop, parse_safe_contents,
  Part, enc_content, encrypted_part, safe_part, parts_loop, safe_contents,
}

pub content_info-Ends : (t : Tlv) → Ends (content_info t)
unfolding content_info
content_info-Ends t =
    >>=-Ends (expect_tag t 0x30 (codes "ContentInfo")) _ (expect_tag-Ends t 0x30 _) (λ t'.
      >>=-Ends (children t'.body) _ (children-Ends t'.body) (λ c.
        >>=-Ends (child c 0 0x06 (codes "ContentInfo")) _ (child-Ends c 0 0x06 _) (λ oid.
          >>=-Ends (child c 1 0xa0 (codes "ContentInfo")) _ (child-Ends c 1 0xa0 _)
            (λ content. >>=-Ends (tlv content.body 0) _ (tlv-Ends content.body 0) (λ inner. tt)))))

first_value-Ends :
    (aoid : Bytes) (o : Option Tlv) (found : Attributes)
    → Ends (elim o [ none ↦ ok found | some v ↦ ok (attr_value aoid v found) ])
first_value-Ends aoid none found = tt
first_value-Ends aoid (some v) found = tt

bag_attr-Ends : (attr : Tlv) (found : Attributes) → Ends (bag_attr attr found)
unfolding bag_attr
bag_attr-Ends attr found =
    >>=-Ends (expect_tag attr 0x30 (codes "bag attribute")) _ (expect_tag-Ends attr 0x30 _)
      (λ attr'. >>=-Ends (children attr'.body) _ (children-Ends attr'.body) (λ a.
        >>=-Ends (child a 0 0x06 (codes "bag attribute")) _ (child-Ends a 0 0x06 _) (λ aoid.
          >>=-Ends (child a 1 0x31 (codes "bag attribute")) _ (child-Ends a 1 0x31 _) (λ values_t.
            >>=-Ends (children values_t.body) _ (children-Ends values_t.body)
              (λ values. first_value-Ends aoid.body (get_elem? values 0) found)))))

attrs_loop-Ends : (attrs : List Tlv) (found : Attributes) → Ends (attrs_loop attrs found)
unfolding attrs_loop
attrs_loop-Ends [] found = tt
attrs_loop-Ends (attr ∷ attrs) found =
    >>=-Ends (bag_attr attr found) _ (bag_attr-Ends attr found)
      (λ found'. attrs_loop-Ends attrs found')

bag_attrs-Ends : (o : Option Tlv) → Ends (bag_attrs o)
unfolding bag_attrs
bag_attrs-Ends none = tt
bag_attrs-Ends (some attrs) =
    >>=-Ends (expect_tag attrs 0x31 (codes "bag attributes")) _ (expect_tag-Ends attrs 0x31 _)
      (λ attrs'.
        >>=-Ends (children attrs'.body) _ (children-Ends attrs'.body)
          (λ c. attrs_loop-Ends c (none, none)))

cert_bag-Ends : (value : Tlv) (id : Option Bytes) (bags : Bags) → Ends (cert_bag value id bags)
unfolding cert_bag
cert_bag-Ends value id bags =
    >>=-Ends (expect_tag value 0x30 (codes "CertBag")) _ (expect_tag-Ends value 0x30 _) (λ value'.
      >>=-Ends (children value'.body) _ (children-Ends value'.body) (λ c.
        >>=-Ends (child c 0 0x06 (codes "CertBag")) _ (child-Ends c 0 0x06 _) (λ oid.
          if-Ends (not (bytes_eq oid.body oid_x509_cert)) _ _ tt (
            >>=-Ends (child c 1 0xa0 (codes "CertBag")) _ (child-Ends c 1 0xa0 _) (λ content.
              >>=-Ends (tlv content.body 0) _ (tlv-Ends content.body 0)
                (λ inner. >>=-Ends (octets (inner.0)) _ (octets-Ends (inner.0)) (λ der. tt)))))))

key_bag-Ends : (value : Tlv) (found : Attributes) (bags : Bags) → Ends (key_bag value found bags)
unfolding key_bag
key_bag-Ends value found bags =
    >>=-Ends (expect_tag value 0x30 (codes "key bag")) _ (expect_tag-Ends value 0x30 _)
      (λ value'. tt)

-- A nested call that ends.
abbrev NestedEnds : (Bytes → Bags → Outcome Bags) → Type 0
NestedEnds nested = (b : Bytes) (bags : Bags) → Ends (nested b bags)

typed_bag-Ends :
    (nested : Bytes → Bags → Outcome Bags) (type : ℕ) (value : Tlv) (found : Attributes)
    (bags : Bags)
    → NestedEnds nested
    → Ends (typed_bag nested type value found bags)
unfolding typed_bag
typed_bag-Ends nested type value found bags h =
    if-Ends ((type == bag_key) || (type == bag_shrouded_key)) _ _ (key_bag-Ends value found bags) (
      if-Ends (type == bag_cert) _ _ (cert_bag-Ends value (found.1) bags)
        (if-Ends (type == bag_safe_contents) _ _ (h value.raw bags) tt))

safe_bag-Ends :
    (nested : Bytes → Bags → Outcome Bags) (bag : Tlv) (bags : Bags)
    → NestedEnds nested
    → Ends (safe_bag nested bag bags)
unfolding safe_bag
safe_bag-Ends nested bag bags h =
    >>=-Ends (expect_tag bag 0x30 (codes "SafeBag")) _ (expect_tag-Ends bag 0x30 _) (λ bag'.
      >>=-Ends (children bag'.body) _ (children-Ends bag'.body) (λ f.
        >>=-Ends (child f 0 0x06 (codes "SafeBag")) _ (child-Ends f 0 0x06 _) (λ oid.
          >>=-Ends (child f 1 0xa0 (codes "SafeBag")) _ (child-Ends f 1 0xa0 _) (λ content.
            >>=-Ends (tlv content.body 0) _ (tlv-Ends content.body 0) (λ value.
              >>=-Ends (bag_attrs (get_elem? f 2)) _ (bag_attrs-Ends (get_elem? f 2)) (λ found.
                if-Ensures (λ _. Unit) (not (extends oid.body oid_bag_prefix)) _ _ (λ _. tt)
                  (λ known.
                    let is : extends oid.body oid_bag_prefix ≡ true = ground arith in
                    >>=-Ends (index oid.body (length oid_bag_prefix)) _
                      (index-extends oid.body oid_bag_prefix is)
                      (λ type. typed_bag-Ends nested type (value.0) found bags h))))))))

bags_loop-Ends :
    (nested : Bytes → Bags → Outcome Bags) (more : List Tlv) (bags : Bags)
    → NestedEnds nested
    → Ends (bags_loop nested more bags)
unfolding bags_loop
bags_loop-Ends nested [] bags h = tt
bags_loop-Ends nested (bag ∷ more) bags h =
    >>=-Ends (safe_bag nested bag bags) _ (safe_bag-Ends nested bag bags h)
      (λ bags'. bags_loop-Ends nested more bags' h)

safe_level-Ends :
    (nested : Bytes → Bags → Outcome Bags) (b : Bytes) (bags : Bags) (depth : ℕ)
    → (depth ≤ max_nesting → NestedEnds nested)
    → Ends (safe_level nested b bags depth)
unfolding safe_level
safe_level-Ends nested b bags depth h =
    fail_if-Ensures (λ _. Unit) (ltb max_nesting depth) nested_too_deeply _
      (λ few. >>=-Ends (one b 0x30 (codes "SafeContents")) _ (one-Ends b 0x30 _) (λ t.
        >>=-Ends (children t.body) _ (children-Ends t.body)
          (λ c. bags_loop-Ends nested c bags (h (ltb→le max_nesting depth few)))))

safe_contents_loop-Ends :
    (fuel : ℕ) (b : Bytes) (bags : Bags) (depth : ℕ)
    → max_nesting + 2 ≤ depth + fuel
    → depth ≤ max_nesting + 1
    → Ends (safe_contents_loop fuel b bags depth)
unfolding safe_contents_loop
safe_contents_loop-Ends zero b bags depth h k = absurd (omega arith)
safe_contents_loop-Ends (suc fuel) b bags depth h k =
    safe_level-Ends (λ b' bags'. safe_contents_loop fuel b' bags' (depth + 1)) b bags depth
      (λ few b' bags'.
        safe_contents_loop-Ends fuel b' bags' (depth + 1) (omega arith) (omega arith))

pub parse_safe_contents-Ends : (b : Bytes) (bags : Bags) → Ends (parse_safe_contents b bags)
unfolding parse_safe_contents
parse_safe_contents-Ends b bags =
    safe_contents_loop-Ends (max_nesting + 2) b bags 0 (omega arith) (omega arith)

enc_content-Ends : (alg : Tlv) (o : Option Tlv) (parts : List Part) → Ends (enc_content alg o parts)
unfolding enc_content
enc_content-Ends alg none parts = tt
enc_content-Ends alg (some enc) parts =
    fail_if-Ends (not (enc.tag - constructed enc.tag == 0x80)) encrypted_content _
      (>>=-Ends (octets enc) _ (octets-Ends enc) (λ body. tt))

encrypted_part-Ends : (content : Tlv) (parts : List Part) → Ends (encrypted_part content parts)
unfolding encrypted_part
encrypted_part-Ends content parts =
    >>=-Ends (expect_tag content 0x30 (codes "EncryptedData")) _ (expect_tag-Ends content 0x30 _)
      (λ content'. >>=-Ends (children content'.body) _ (children-Ends content'.body) (λ ed.
        >>=-Ends (child ed 1 0x30 (codes "EncryptedContentInfo")) _ (child-Ends ed 1 0x30 _)
          (λ eci_t. >>=-Ends (children eci_t.body) _ (children-Ends eci_t.body) (λ eci.
            >>=-Ends (child eci 1 0x30 (codes "EncryptedContentInfo")) _ (child-Ends eci 1 0x30 _)
              (λ alg. enc_content-Ends alg (get_elem? eci 2) parts)))))

safe_part-Ends : (ci : Tlv) (parts : List Part) → Ends (safe_part ci parts)
unfolding safe_part
safe_part-Ends ci parts = >>=-Ends (content_info ci) _ (content_info-Ends ci) (λ r.
    if-Ends (bytes_eq (r.0) oid_data) _ _
      (>>=-Ends (expect_tag (r.1) (constructed (r.1).tag + 0x04) (codes "data")) _
        (expect_tag-Ends (r.1) (constructed (r.1).tag + 0x04) _)
        (λ content. >>=-Ends (octets content) _ (octets-Ends content) (λ b.
          >>=-Ends (parse_safe_contents b no_bags) _ (parse_safe_contents-Ends b no_bags)
            (λ bags. tt))))
      (if-Ends (bytes_eq (r.0) oid_encrypted_data) _ _ (encrypted_part-Ends (r.1) parts) tt))

parts_loop-Ends : (cis : List Tlv) (parts : List Part) → Ends (parts_loop cis parts)
unfolding parts_loop
parts_loop-Ends [] parts = tt
parts_loop-Ends (ci ∷ more) parts =
    >>=-Ends (safe_part ci parts) _ (safe_part-Ends ci parts)
      (λ parts'. parts_loop-Ends more parts')

pub safe_contents-Ends : (auth_safe : Bytes) → Ends (safe_contents auth_safe)
unfolding safe_contents
safe_contents-Ends auth_safe =
    >>=-Ends (one auth_safe 0x30 (codes "AuthenticatedSafe")) _ (one-Ends auth_safe 0x30 _)
      (λ t. >>=-Ends (children t.body) _ (children-Ends t.body) (λ c. parts_loop-Ends c []))
