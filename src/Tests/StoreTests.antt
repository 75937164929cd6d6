-- ===== src/Tests/StoreTests.antt =====
-- A keystore with no entries and a protected key of one byte.
use fastsigner.Base.{
  ◌%◌, ◌≡◌, refl, [], ◌∷◌, ◌++◌, Bytes, length, replicate, ok, Ensures, slice, bytes_eq, none,
}
use fastsigner.Keys.Der.{der_expect, der_header, der_length_at, der_len}
use fastsigner.Jks.{
  detect, from_be, only_jks, cursor_take, cursor_u32, cursor_u64, cursor_utf, entry_loop,
  store_entry, key_entry, chain_loop, chain_type, password_bytes, parse, recover_key, recover_data,
  recover_loop,
}
use fastsigner.Jks.Integrity.{IsWhole, parse-IsWhole}
use fastsigner.Jks.Recover.{Recovers, recover_key-Recovers}

-- The length of the message, in twenty bytes.
abbrev toy_sha1 : Bytes → Bytes
toy_sha1 m = length m % 256 ∷ replicate 19 0

-- A keystore of version 2 whose one entry is a key of two bytes with one certificate.
abbrev one_key : Bytes
one_key =
    0xfe
    ∷ 0xed
    ∷ 0xfe
    ∷ 0xed
    ∷ 0
    ∷ 0
    ∷ 0
    ∷ 2
    ∷ 0
    ∷ 0
    ∷ 0
    ∷ 1
    ∷ 0
    ∷ 0
    ∷ 0
    ∷ 1
    ∷ 0
    ∷ 1
    ∷ 0x61
    ∷ 0
    ∷ 0
    ∷ 0
    ∷ 0
    ∷ 0
    ∷ 0
    ∷ 0
    ∷ 0
    ∷ 0
    ∷ 0
    ∷ 0
    ∷ 2
    ∷ 5
    ∷ 6
    ∷ 0
    ∷ 0
    ∷ 0
    ∷ 1
    ∷ 0
    ∷ 5
    ∷ 0x58
    ∷ 0x2e
    ∷ 0x35
    ∷ 0x30
    ∷ 0x39
    ∷ 0
    ∷ 0
    ∷ 0
    ∷ 1
    ∷ 0x30
    ∷ 67
    ∷ replicate 19 0

reads_store :
    parse toy_sha1 one_key (0x61 ∷ [])
    ≡ ok (record {
      keys =
          record {
            alias = 0x61 ∷ [];
            protected_key = 5 ∷ 6 ∷ [];
            chain = (0x30 ∷ []) ∷ [];
            recovered = none;
          }
          ∷ [];
      trusted_certs = 0;
    })
unfolding parse detect from_be only_jks cursor_take cursor_u32 cursor_u64 cursor_utf entry_loop
    store_entry key_entry chain_loop chain_type password_bytes slice bytes_eq
reads_store = refl

store_example : Ensures (IsWhole toy_sha1 one_key (0x61 ∷ [])) (parse toy_sha1 one_key (0x61 ∷ []))
store_example = parse-IsWhole toy_sha1 one_key (0x61 ∷ [])

-- Salt, one byte 7 under the key stream, which begins with 22, and the hash of 3 bytes.
abbrev key_data : Bytes
key_data = replicate 20 9 ++ 17 ∷ 3 ∷ replicate 19 0

abbrev protected : Bytes
protected =
    0x30 ∷ 57 ∷ 0x30 ∷ 12 ∷ 0x06 ∷ 10 ∷ 0x2b ∷ 0x06 ∷ 0x01 ∷ 0x04 ∷ 0x01 ∷ 0x2a ∷ 0x02 ∷ 0x11 ∷ 0x01
    ∷ 0x01 ∷ 0x04 ∷ 41 ∷ key_data

recovers : recover_key toy_sha1 protected (0x61 ∷ []) ≡ ok (7 ∷ [])
unfolding recover_key recover_data recover_loop password_bytes der_expect der_header der_length_at
    der_len slice bytes_eq
recovers = refl

recover_example :
    Ensures (Recovers toy_sha1 protected (0x61 ∷ [])) (recover_key toy_sha1 protected (0x61 ∷ []))
recover_example = recover_key-Recovers toy_sha1 protected (0x61 ∷ []) (λ m. refl)
