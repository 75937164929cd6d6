-- ===== src/Tests/Pkcs12Tests.antt =====
-- src/pkcs12.rs and src/sha256.rs: a PKCS#12 store with a key and a certificate that issued itself, and hashes that are always zeros.
use fastsigner.Base.{
  length-append, ℕ, zero, suc, ◌+◌, ◌/◌, ◌^◌, ◌<◌, ◌≡◌, refl, sym, ap, ◌∙◌, some, none, List, [],
  ◌∷◌, ◌++◌, Bytes, length, drop, replicate, ok, err, Ensures, arith, slice, index, starts_with,
  contains, bytes_eq, if◌then◌else◌, ◌==◌,
}
use fastsigner.Base.{length-replicate, pkcs12_integrity, Ensures}
use fastsigner.Pkcs12.{
  tlv, expect_tag, one, children_loop, children, child, octets_all, octets_level, octets_loop,
  octets, uint_fold, try_u32,
}
use fastsigner.Pkcs12.Oids.{extends}
use fastsigner.Pkcs12.Text.{utf8, as_bytes, from_utf16_lossy, be_units, decimal_loop, to_string}
use fastsigner.Pkcs12.Kdf.{
  encode_utf16, units_bytes, bmp_password, fill_loop, fill, add_blocks, digest_loop, is_sha256,
  stretch_with, stretch, kdf_loop,
}
use fastsigner.Pkcs12.Mac.{sha2_of, mac_hash, mac_count}
use fastsigner.Pkcs12.Safe.{
  content_info, attr_value, bag_attr, attrs_loop, bag_attrs, cert_bag, key_bag, typed_bag, safe_bag,
  bags_loop, safe_level, safe_contents_loop, parse_safe_contents, enc_content, encrypted_part,
  safe_part, parts_loop, safe_contents,
}
use fastsigner.Pkcs12.Chain.{
  names_of, find_issuer, next_issuer, follow, chain_loop, certs_at, position_by_id, subjects_of,
  is_issuer, leaves, leaf_by_id, lone_leaf, leaf_of,
}
use fastsigner.Pkcs12.Store.{
  settle, join, joins, mac_ok, containers, plain_keys, is_wanted, recovered_keys, recovered_of,
  scoped, collect, chain_of, find_recovered, alias_of, key_entries, mac_field, keys_of,
}
use fastsigner.Keys.Der.{
  der_header, der_length_at, der_len, der_expect, der_skip, tbs_serial, cert_issuer_subject,
}
use fastsigner.Sha256.{new, h0, state_bytes, be_bytes}
use fastsigner.Sha256.Absorb.{update-Absorbed}
use fastsigner.Sha256.Finish.{new-Holds, finish-Wrapped}
use fastsigner.Pkcs12.{Tlv}
use fastsigner.Pkcs12.Ring.{Ring, IsRing, Sha, sha1, sha256, sha384, sha512}
use fastsigner.Pkcs12.Store.{KeyRequest, open_pfx, parse, recover_key}
use fastsigner.Pkcs12.Mac.{verify_mac}
use fastsigner.Pkcs12.{uint}
use fastsigner.Pkcs12.Uint.{uint_result, uint_exact}
use fastsigner.Pkcs12.Store.Recover.{IsKey, recover_key-IsKey}
use fastsigner.Pkcs12.Safe.{CertBag}
use fastsigner.Pkcs12.Chain.{build_chain}
use fastsigner.Pkcs12.Chain.Links.{IsChain, build_chain-IsChain}
use fastsigner.Sha256.{compress_blocks}
use fastsigner.Sha256.Derive.{pbkdf2_hmac_sha256}
use fastsigner.Sha256.Derive.Rfc8018.{rfc8018, pbkdf2_hmac_sha256-rfc8018}
use fastsigner.Pkcs12.Kdf.{add_block, pkcs12_kdf}
use fastsigner.Pkcs12.Kdf.Add.{Sum, add_block-Sum}
use fastsigner.Pkcs12.Kdf.Paths.{without_ext, SameHash, pkcs12_kdf-without_ext}
use fastsigner.Pkcs12.Store.Parse.{IsStore, parse-IsStore}
use fastsigner.Pkcs12.Store.Verdict.{parse-verify_mac}

-- SHA-1 is as long as it is, and the others have 32 bytes.
abbrev toy_output : Sha → ℕ
toy_output sha1 = 20
toy_output _ = 32

abbrev zero_block : List ℕ → Bytes → List ℕ
zero_block s m = replicate 8 0

abbrev toy_ring : Ring
toy_ring = record {
  output_len = toy_output;
  block_len = λ a. 64;
  digest = λ a m. replicate (toy_output a) 0;
  hmac_verify = λ a key m tag. bytes_eq tag key;
  derive = λ a iterations salt secret n. replicate n 7;
  cbc_new = λ key iv. if length iv == 16 then some iv else none;
  decrypt_block = λ state b. (b, state);
  to_lowercase = λ n. n;
  sha_ext = some zero_block;
}

positive : (a : Sha) → 0 < toy_output a
positive sha1 = omega arith
positive sha256 = omega arith
positive sha384 = omega arith
positive sha512 = omega arith

-- The function in an option.
taken : (f g : List ℕ → Bytes → List ℕ) → some f ≡ some g → f ≡ g
taken f g e = ap (λ o. elim o [ none ↦ f | some h ↦ h ]) e

toy_ring-IsRing : IsRing toy_ring
toy_ring-IsRing = record {
  output_positive = positive;
  block_positive = λ a. omega arith;
  digest_len = λ a m. length-replicate (toy_output a) 0;
  sha256_len = refl;
  block_out = λ state b h. h;
  ext_words = λ block e s m. ap (λ f. length (f s m)) (sym (taken zero_block block e));
}

abbrev auth_safe : Bytes
auth_safe =
    48 ∷ 93 ∷ 48 ∷ 91 ∷ 6 ∷ 9 ∷ 42 ∷ 134 ∷ 72 ∷ 134 ∷ 247 ∷ 13 ∷ 1 ∷ 7 ∷ 1 ∷ 160 ∷ 78 ∷ 4 ∷ 76 ∷ 48
    ∷ 74 ∷ 48 ∷ 20 ∷ 6 ∷ 11 ∷ 42 ∷ 134 ∷ 72 ∷ 134 ∷ 247 ∷ 13 ∷ 1 ∷ 12 ∷ 10 ∷ 1 ∷ 1 ∷ 160 ∷ 5 ∷ 48
    ∷ 3 ∷ 2 ∷ 1 ∷ 0 ∷ 48 ∷ 50 ∷ 6 ∷ 11 ∷ 42 ∷ 134 ∷ 72 ∷ 134 ∷ 247 ∷ 13 ∷ 1 ∷ 12 ∷ 10 ∷ 1 ∷ 3 ∷ 160
    ∷ 35 ∷ 48 ∷ 33 ∷ 6 ∷ 10 ∷ 42 ∷ 134 ∷ 72 ∷ 134 ∷ 247 ∷ 13 ∷ 1 ∷ 9 ∷ 22 ∷ 1 ∷ 160 ∷ 19 ∷ 4 ∷ 17
    ∷ 48 ∷ 15 ∷ 48 ∷ 13 ∷ 2 ∷ 1 ∷ 5 ∷ 48 ∷ 0 ∷ 48 ∷ 0 ∷ 48 ∷ 0 ∷ 48 ∷ 0 ∷ 48 ∷ 0 ∷ []

abbrev pfx_head : Bytes
pfx_head =
    48 ∷ 129 ∷ 153 ∷ 2 ∷ 1 ∷ 3 ∷ 48 ∷ 110 ∷ 6 ∷ 9 ∷ 42 ∷ 134 ∷ 72 ∷ 134 ∷ 247 ∷ 13 ∷ 1 ∷ 7 ∷ 1 ∷ 160
    ∷ 97 ∷ 4 ∷ 95 ∷ []

-- A MacData with 20 bytes of the digest.
abbrev mac_body : ℕ → Bytes
mac_body c =
    (48 ∷ 31 ∷ 48 ∷ 7 ∷ 6 ∷ 5 ∷ 43 ∷ 14 ∷ 3 ∷ 2 ∷ 26 ∷ 4 ∷ 20 ∷ replicate 20 c) ++ 4 ∷ 1 ∷ 1 ∷ []

abbrev pfx : ℕ → Bytes
pfx c = pfx_head ++ (auth_safe ++ 0x30 ∷ 36 ∷ mac_body c)

abbrev self_issued : Bytes
self_issued =
    0x30 ∷ 15 ∷ 0x30 ∷ 13 ∷ 2 ∷ 1 ∷ 5 ∷ 0x30 ∷ 0 ∷ 0x30 ∷ 0 ∷ 0x30 ∷ 0 ∷ 0x30 ∷ 0 ∷ 0x30 ∷ 0 ∷ []

-- Its subject is another one.
abbrev issued : Bytes
issued =
    0x30 ∷ 17 ∷ 0x30 ∷ 15 ∷ 2 ∷ 1 ∷ 5 ∷ 0x30 ∷ 0 ∷ 0x30 ∷ 0 ∷ 0x30 ∷ 0 ∷ 0x30 ∷ 2 ∷ 5 ∷ 0 ∷ 0x30 ∷ 0
    ∷ []

abbrev request : KeyRequest
request = record { alias = none; password = 0x61 ∷ [] }

reads_pkcs12 :
    parse toy_ring (pfx 0) (0x61 ∷ []) (some request)
    ≡ ok (record {
      keys =
          record {
            alias = 0x31 ∷ [];
            protected_key = 0x30 ∷ 3 ∷ 2 ∷ 1 ∷ 0 ∷ [];
            chain = self_issued ∷ [];
            recovered = some (ok (0x30 ∷ 3 ∷ 2 ∷ 1 ∷ 0 ∷ []));
          }
          ∷ [];
    })
unfolding tlv expect_tag one children_loop children child octets_all octets_level octets_loop octets
    uint_fold try_u32 uint extends utf8 as_bytes from_utf16_lossy be_units decimal_loop to_string
    encode_utf16 units_bytes bmp_password fill_loop fill add_block add_blocks digest_loop is_sha256
    stretch_with stretch kdf_loop pkcs12_kdf sha2_of mac_hash mac_count verify_mac content_info
    attr_value bag_attr attrs_loop bag_attrs cert_bag key_bag typed_bag safe_bag bags_loop
    safe_level safe_contents_loop parse_safe_contents enc_content encrypted_part safe_part
    parts_loop safe_contents names_of find_issuer next_issuer follow chain_loop certs_at build_chain
    position_by_id subjects_of is_issuer leaves leaf_by_id lone_leaf leaf_of settle recover_key join
    joins mac_ok containers plain_keys is_wanted recovered_keys recovered_of scoped collect chain_of
    find_recovered alias_of key_entries mac_field open_pfx keys_of parse der_header der_length_at
    der_len der_expect der_skip tbs_serial cert_issuer_subject slice index bytes_eq starts_with
    contains
reads_pkcs12 = refl

pkcs12_example :
    Ensures
      (IsStore toy_ring toy_ring-IsRing (pfx 0) (0x61 ∷ []) (some request))
      (parse toy_ring (pfx 0) (0x61 ∷ []) (some request))
pkcs12_example = parse-IsStore toy_ring toy_ring-IsRing (pfx 0) (0x61 ∷ []) (some request)

abbrev other_mac : Tlv
other_mac = record { tag = 0x30; body = mac_body 7; raw = 0x30 ∷ 36 ∷ mac_body 7 }

opened : open_pfx (pfx 7) ≡ ok (auth_safe, some other_mac)
unfolding tlv expect_tag one children_loop children child octets_all octets_level octets_loop octets
    uint_fold try_u32 uint content_info open_pfx mac_field der_header der_length_at der_len slice
    index bytes_eq
opened = refl

refused : verify_mac toy_ring other_mac auth_safe (0x61 ∷ []) ≡ err pkcs12_integrity
unfolding tlv expect_tag one children_loop children child octets_all octets_level octets_loop octets
    uint_fold try_u32 uint extends encode_utf16 units_bytes bmp_password fill_loop fill add_block
    add_blocks digest_loop is_sha256 stretch_with stretch kdf_loop pkcs12_kdf sha2_of mac_hash
    mac_count verify_mac der_header der_length_at der_len slice index bytes_eq starts_with
refused = refl

verdict_example : parse toy_ring (pfx 7) (0x61 ∷ []) (some request) ≡ err pkcs12_integrity
verdict_example =
    parse-verify_mac toy_ring toy_ring-IsRing (pfx 7) (0x61 ∷ []) (some request) auth_safe other_mac
      pkcs12_integrity opened refused

unencrypted_example :
    Ensures
      (IsKey toy_ring (0x30 ∷ 3 ∷ 2 ∷ 1 ∷ 0 ∷ []) (0x61 ∷ []))
      (recover_key toy_ring (0x30 ∷ 3 ∷ 2 ∷ 1 ∷ 0 ∷ []) (0x61 ∷ []))
unencrypted_example =
    recover_key-IsKey toy_ring (0x30 ∷ 3 ∷ 2 ∷ 1 ∷ 0 ∷ []) (0x61 ∷ []) toy_ring-IsRing

abbrev two_certs : List CertBag
two_certs =
    record { der = self_issued; local_id = none } ∷ record { der = issued; local_id = none } ∷ []

chain_example : Ensures (IsChain two_certs 1) (build_chain two_certs 1)
chain_example = build_chain-IsChain two_certs 1 (omega arith)

pbkdf2_example :
    pbkdf2_hmac_sha256 zero_block (1 ∷ []) (2 ∷ []) 3 40 ≡ rfc8018 zero_block (1 ∷ []) (2 ∷ []) 3 40
pbkdf2_example = pbkdf2_hmac_sha256-rfc8018 zero_block (1 ∷ []) (2 ∷ []) 3 40 (λ s m. refl)

carry_example :
    Ensures
      (Sum (255 ∷ 1 ∷ []) 2 0 (1 ∷ 255 ∷ 255 ∷ []))
      (add_block (255 ∷ 1 ∷ []) 2 0 (1 ∷ 255 ∷ 255 ∷ []))
carry_example = add_block-Sum (255 ∷ 1 ∷ []) 2 (1 ∷ 255 ∷ 255 ∷ []) 0 (omega arith) refl

abbrev large_int : Tlv
large_int = record { tag = 2; body = 1 ∷ 0 ∷ 0 ∷ 0 ∷ 0 ∷ []; raw = 2 ∷ 5 ∷ 1 ∷ 0 ∷ 0 ∷ 0 ∷ 0 ∷ [] }

uint_example : uint large_int [] ≡ uint_result large_int []
uint_example = uint_exact large_int []

zero_blocks :
    (n : ℕ) (s : List ℕ) (b : Bytes) → 0 < n → compress_blocks zero_block n s b ≡ replicate 8 0
zero_blocks zero s b h = absurd (omega arith)
zero_blocks (suc zero) s b h = refl
zero_blocks (suc (suc n)) s b h = zero_blocks (suc n) (replicate 8 0) (drop 64 b) (omega arith)

-- The digest over blocks that are always zeros.
zero_digest :
    (m : Bytes) → length m < 2 ^ 61 → fastsigner.Sha256.digest zero_block m ≡ ok (replicate 32 0)
unfolding fastsigner.Sha256.digest state_bytes be_bytes
zero_digest m short =
    let (h, run, took) = update-Absorbed zero_block new [] m (new-Holds zero_block) in
    let (p, (z, small, fits, is), whole) = finish-Wrapped zero_block h m took in
    let size : length p ≡ length m + suc (z + 8) =
      ap length is
      ∙ length-append m _
      ∙ ap (λ k. length m + suc k)
          (length-append (replicate z 0) _ ∙ ap (λ k. k + 8) (length-replicate z 0)) in
    rw run (
      whole
      ∙ ap (λ t. ok (state_bytes t)) (zero_blocks (length p / 64) h0 p (omega (arith, size, fits))))

toy_ring-SameHash : SameHash toy_ring
toy_ring-SameHash block e m short =
    ap (λ f. fastsigner.Sha256.digest f m) (sym (taken zero_block block e)) ∙ zero_digest m short

kdf_example :
    pkcs12_kdf toy_ring sha256 (0 ∷ 0 ∷ []) (1 ∷ []) 3 2 40
    ≡ pkcs12_kdf (without_ext toy_ring) sha256 (0 ∷ 0 ∷ []) (1 ∷ []) 3 2 40
kdf_example =
    pkcs12_kdf-without_ext toy_ring toy_ring-IsRing toy_ring-SameHash sha256 (0 ∷ 0 ∷ []) (1 ∷ []) 3
      2 40 (omega arith) (omega arith)
