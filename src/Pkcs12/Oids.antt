-- ===== src/Pkcs12/Oids.antt =====
-- src/pkcs12.rs: the object identifiers, the types of bags and the limit on their nesting.
use fastsigner.Base.{ℕ, ◌+◌, Bool, [], ◌∷◌, Bytes, length, starts_with, ◌==◌, ◌&&◌}

abbrev pub oid_data : Bytes
oid_data = 0x2a ∷ 0x86 ∷ 0x48 ∷ 0x86 ∷ 0xf7 ∷ 0x0d ∷ 0x01 ∷ 0x07 ∷ 0x01 ∷ []

abbrev pub oid_encrypted_data : Bytes
oid_encrypted_data = 0x2a ∷ 0x86 ∷ 0x48 ∷ 0x86 ∷ 0xf7 ∷ 0x0d ∷ 0x01 ∷ 0x07 ∷ 0x06 ∷ []

abbrev pub oid_bag_prefix : Bytes
oid_bag_prefix = 0x2a ∷ 0x86 ∷ 0x48 ∷ 0x86 ∷ 0xf7 ∷ 0x0d ∷ 0x01 ∷ 0x0c ∷ 0x0a ∷ 0x01 ∷ []

abbrev pub bag_key : ℕ
bag_key = 1

abbrev pub bag_shrouded_key : ℕ
bag_shrouded_key = 2

abbrev pub bag_cert : ℕ
bag_cert = 3

abbrev pub bag_safe_contents : ℕ
bag_safe_contents = 6

abbrev pub oid_legacy_pbe_prefix : Bytes
oid_legacy_pbe_prefix = 0x2a ∷ 0x86 ∷ 0x48 ∷ 0x86 ∷ 0xf7 ∷ 0x0d ∷ 0x01 ∷ 0x0c ∷ 0x01 ∷ []

abbrev pub oid_x509_cert : Bytes
oid_x509_cert = 0x2a ∷ 0x86 ∷ 0x48 ∷ 0x86 ∷ 0xf7 ∷ 0x0d ∷ 0x01 ∷ 0x09 ∷ 0x16 ∷ 0x01 ∷ []

abbrev pub oid_friendly_name : Bytes
oid_friendly_name = 0x2a ∷ 0x86 ∷ 0x48 ∷ 0x86 ∷ 0xf7 ∷ 0x0d ∷ 0x01 ∷ 0x09 ∷ 0x14 ∷ []

abbrev pub oid_local_key_id : Bytes
oid_local_key_id = 0x2a ∷ 0x86 ∷ 0x48 ∷ 0x86 ∷ 0xf7 ∷ 0x0d ∷ 0x01 ∷ 0x09 ∷ 0x15 ∷ []

abbrev pub oid_pbes2 : Bytes
oid_pbes2 = 0x2a ∷ 0x86 ∷ 0x48 ∷ 0x86 ∷ 0xf7 ∷ 0x0d ∷ 0x01 ∷ 0x05 ∷ 0x0d ∷ []

abbrev pub oid_pbkdf2 : Bytes
oid_pbkdf2 = 0x2a ∷ 0x86 ∷ 0x48 ∷ 0x86 ∷ 0xf7 ∷ 0x0d ∷ 0x01 ∷ 0x05 ∷ 0x0c ∷ []

abbrev pub oid_pbmac1 : Bytes
oid_pbmac1 = 0x2a ∷ 0x86 ∷ 0x48 ∷ 0x86 ∷ 0xf7 ∷ 0x0d ∷ 0x01 ∷ 0x05 ∷ 0x0e ∷ []

abbrev pub oid_hmac_prefix : Bytes
oid_hmac_prefix = 0x2a ∷ 0x86 ∷ 0x48 ∷ 0x86 ∷ 0xf7 ∷ 0x0d ∷ 0x02 ∷ []

abbrev pub oid_aes_cbc_prefix : Bytes
oid_aes_cbc_prefix = 0x60 ∷ 0x86 ∷ 0x48 ∷ 0x01 ∷ 0x65 ∷ 0x03 ∷ 0x04 ∷ 0x01 ∷ []

abbrev pub oid_sha1 : Bytes
oid_sha1 = 0x2b ∷ 0x0e ∷ 0x03 ∷ 0x02 ∷ 0x1a ∷ []

abbrev pub oid_sha2_prefix : Bytes
oid_sha2_prefix = 0x60 ∷ 0x86 ∷ 0x48 ∷ 0x01 ∷ 0x65 ∷ 0x03 ∷ 0x04 ∷ 0x02 ∷ []

abbrev pub max_nesting : ℕ
max_nesting = 4

-- `oid.len() == prefix.len() + 1 && oid.starts_with(prefix)`.
unfoldable pub extends : Bytes → Bytes → Bool
extends oid prefix = (length oid == length prefix + 1) && starts_with oid prefix
