-- ===== src/Lib.antt =====
-- fastsigner signs Android APKs with the v2 and v3 signature schemes. An archive comes in, its v1
-- signature files are dropped from the Central Directory, entries are aligned if they have to be,
-- the content is digested in chunks of 1 MiB, the digest is signed, and a signing block is put
-- between the entries and the Central Directory.
--
-- The parts, and the files that model them:
--
-- - src/zip.rs: `Zip`. `Zip/Eocd` is `find_eocd` and the setters of the end record, `Zip/Sections`
--   is `parse` (split into `parse_at` and `find_sig_block`), `Zip/Directory` is
--   `parse_cd_entries`, `Zip/Policy` the tests on an entry, `Zip/Filter` is `classify` and
--   `filter_cd`. Modules below these hold what is proved of them.
-- - src/sigblock.rs: `SigBlock`, the encoders. `SigBlock/Pairs` and `SigBlock/Read` describe
--   readers of what is written, `SigBlock/Detect` is about `find_sig_block` of src/zip.rs on it.
-- - src/align.rs: `Align`. `Align/Extra` is `declared_alignment` and `aligning_extra`,
--   `Align/Order` is `file_order`, `Align/Check` is `read_lfh_lens`, `quick_misaligned` and
--   `check`, `Align/Inspect` is `LfhInspector` (`finish_unless` is its `finish`), `Align/Window`
--   is `HeaderReader`, and `Align/Plan` the planning of `rewrite` with the Central Directory that
--   it returns.
-- - src/digest.rs: `Digest`. `Digest/Chunks` is about the chunks of a source, `Digest/Assemble`
--   about the copying of digests to their places, `Digest/Schedule` about the workers: `Step` is
--   one step of any of them, and `worker` the one that is alone.
-- - src/sha256.rs: `Sha256`, the streaming hasher, and `Sha256/Derive`, the key derivations
--   `iterate` and `pbkdf2_hmac_sha256`.
-- - src/keys.rs: `Keys/Der`, the walk over DER, `Keys/Scalar`, the scalar of an EC key, and
--   `Keys/Base64`, `base64_decode`.
-- - src/jks.rs: `Jks`, the reader of Java keystores (`Jks/Integrity`, with the grammar of the
--   entries in `Jks/Entries`), and `recover_key` (`Jks/Recover`).
-- - src/pkcs12.rs: `Pkcs12`, the DER elements. `Pkcs12/Kdf` is `pkcs12_kdf`, `Pkcs12/Mac` is
--   `verify_mac`, `Pkcs12/Pbes2` is `pbes2_decrypt`, `Pkcs12/Safe` the bags up to `safe_contents`,
--   `Pkcs12/Chain` is `build_chain` and the choice of a leaf, `Pkcs12/Store` is `parse` and
--   `recover_key`, `Pkcs12/Text` the conversions of texts, and `Pkcs12/Ring` what is called of
--   other crates. Modules below these hold what is proved of them.
-- - src/main.rs: `Main`, with `layout` and the digest on both paths (`Main/Layout`, `Main/Paths`).
-- - `Base` holds what these share: Boolean tests, lists over the native numbers, words read and
--   written as bytes, and `Outcome`, the result of a fallible call, in which a panic is a value.
-- - `Tests` runs the code on small inputs and applies the theorems there.
--
-- How code and model correspond: a byte is a natural number, a byte string or a slice of one is a
-- list, and a range keeps its two ends. What the source computes on u16, u32 or u64 and may wrap
-- is written with the wrap. Every index and slice is checked, and out of range is a panic, so that
-- a theorem that says what a call returns says that it does not panic. A file is its bytes. An
-- error message is a constructor of `Error`.
--
-- Loops: a `for` is a recursion on the list. A `while` over a byte string has fuel: the length of
-- the string in `parse_cd_entries`, `declared_alignment`, `aligning_extra` and `recover_key`,
-- where each round takes a byte at least, and in `chunks` and `children`; one more than the chunks
-- in `worker`, which claims one a round. In src/pkcs12.rs, `octets` has the length of its content
-- and one more, since an element is longer than its content, `parse_safe_contents` one more than
-- the depths up to the one that is refused, `build_chain` the number of certificates, each of
-- which it uses once, and the key derivations the bytes to derive, of which each round gives one
-- at least. The theorems say that these are enough: `out_of_fuel` is not returned.
--
-- Parameters: the hashes of ring (`Algorithm`, with the length of their digests as `IsHash`),
-- SHA-1 (`sha1`), the signature (`sign`), and the compression function of SHA-256, which the
-- source builds from instructions of the CPU (`block`). The hashes, HMAC, PBKDF2 and AES-CBC that
-- src/pkcs12.rs calls are the fields of `Ring`, and `IsRing` says how long their results are; the
-- tables of `to_lowercase` are one too, and so is whether the CPU has the instructions
-- (`sha_ext`). The threads of `parse` are calls whose results are there when they are joined.
--
-- Not modelled: the operating system (src/mmap.rs, files and threads in src/main.rs), the
-- producers and the writer that carry out a rewrite's plans in src/align.rs, the two lanes on the
-- SHA instructions in src/digest.rs, PEM in src/keys.rs, and the command line. What the parameters
-- stand for is third-party code or instructions of the CPU.
pub mod Base
pub mod Zip
pub mod SigBlock
pub mod Align
pub mod Digest
pub mod Sha256
pub mod Keys
pub mod Jks
pub mod Pkcs12
pub mod Main
pub mod Tests
