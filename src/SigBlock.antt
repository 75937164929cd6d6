-- ===== src/SigBlock.antt =====
-- src/sigblock.rs: the encoders of the v2 and v3 scheme blocks and of the APK Signing Block.
-- Lengths are those of strings in memory, so sums of them do not reach 2^64; what is written in four
-- bytes is cut off to four bytes, as by `as u32`.
pub mod Size
pub mod Pairs
pub mod Detect
pub mod Read
pub mod Signers
use fastsigner.Base.{
  ℕ, ◌+◌, ◌-◌, ◌%◌, Bool, List, [], ◌∷◌, ◌++◌, Bytes, length, replicate, ltb, ◌==◌, if◌then◌else◌,
  le_bytes, Outcome, ok, ◌>>=◌,
}

abbrev pub v2_block_id : ℕ
v2_block_id = 0x7109871a

abbrev pub v3_block_id : ℕ
v3_block_id = 0xf05368c0

abbrev pub verity_padding_block_id : ℕ
verity_padding_block_id = 0x42726577

abbrev pub stripping_protection_attr_id : ℕ
stripping_protection_attr_id = 0xbeeff00d

abbrev pub scheme_v3_version : ℕ
scheme_v3_version = 3

abbrev pub page_alignment : ℕ
page_alignment = 4096

-- "APK Sig Block 42"
abbrev pub apk_signing_block_magic : Bytes
apk_signing_block_magic =
    0x41 ∷ 0x50 ∷ 0x4b ∷ 0x20 ∷ 0x53 ∷ 0x69 ∷ 0x67 ∷ 0x20 ∷ 0x42 ∷ 0x6c ∷ 0x6f ∷ 0x63 ∷ 0x6b ∷ 0x20
    ∷ 0x34 ∷ 0x32 ∷ []

pub record SignerInput : Type 0 where
  pub alg_id : ℕ
  pub digest : Bytes
  pub certs : List Bytes
  pub spki : Bytes

unfoldable pub put_u32 : Bytes → ℕ → Bytes
put_u32 v x = v ++ le_bytes 4 x

unfoldable pub put_lp : Bytes → Bytes → Bytes
unfolding put_u32
put_lp v b = put_u32 v (length b) ++ b

-- `seq_lp`, with the string written so far.
unfoldable pub seq_lp_onto : Bytes → List Bytes → Bytes
unfolding put_lp
seq_lp_onto v [] = v
seq_lp_onto v (it ∷ items) = seq_lp_onto (put_lp v it) items

unfoldable pub seq_lp : List Bytes → Bytes
unfolding seq_lp_onto
seq_lp items = seq_lp_onto [] items

unfoldable pub seq_lp_pairs_onto : Bytes → List (ℕ × Bytes) → Bytes
unfolding put_lp
seq_lp_pairs_onto v [] = v
seq_lp_pairs_onto v ((id, b) ∷ pairs) =
    seq_lp_pairs_onto (put_lp (put_u32 (put_u32 v (8 + length b)) id) b) pairs

unfoldable pub seq_lp_pairs : List (ℕ × Bytes) → Bytes
unfolding seq_lp_pairs_onto
seq_lp_pairs pairs = seq_lp_pairs_onto [] pairs

unfoldable pub v2_additional_attributes : Bool → Bytes
unfolding put_u32
v2_additional_attributes v3_enabled =
    if v3_enabled
    then put_u32 (put_u32 (put_u32 [] 8) stripping_protection_attr_id) scheme_v3_version
    else []

-- The bytes that a v2 signer signs.
unfoldable pub v2_signed_data : SignerInput → Bool → Bytes
v2_signed_data inp v3_enabled =
    let digests = seq_lp_pairs ((inp.alg_id, inp.digest) ∷ []) in
    let certs = seq_lp inp.certs in
    let attrs = v2_additional_attributes v3_enabled in seq_lp (digests ∷ certs ∷ attrs ∷ [] ∷ [])

-- `sign` is the caller's.
unfoldable pub v2_signer : SignerInput → Bool → (Bytes → Outcome Bytes) → Outcome Bytes
v2_signer inp v3_enabled sign = do
  let signed_data = v2_signed_data inp v3_enabled
  signature ← sign signed_data
  let signatures = seq_lp_pairs ((inp.alg_id, signature) ∷ [])
  ok (seq_lp (signed_data ∷ signatures ∷ inp.spki ∷ []))

unfoldable pub v3_signed_data : SignerInput → ℕ → ℕ → Bytes
unfolding put_lp
v3_signed_data inp min_sdk max_sdk =
    let digests = seq_lp_pairs ((inp.alg_id, inp.digest) ∷ []) in
    let certs = seq_lp inp.certs in
    put_lp (put_u32 (put_u32 (put_lp (put_lp [] digests) certs) min_sdk) max_sdk) []

unfoldable pub v3_signer : SignerInput → ℕ → ℕ → (Bytes → Outcome Bytes) → Outcome Bytes
v3_signer inp min_sdk max_sdk sign = do
  let signed_data = v3_signed_data inp min_sdk max_sdk
  signature ← sign signed_data
  let signatures = seq_lp_pairs ((inp.alg_id, signature) ∷ [])
  ok (
      put_lp (put_lp (put_u32 (put_u32 (put_lp [] signed_data) min_sdk) max_sdk) signatures)
        inp.spki)

unfoldable pub scheme_block : List Bytes → Bytes
scheme_block signers = seq_lp (seq_lp signers ∷ [])

-- The size before the padding pair, on what was counted so far.
unfoldable pub pairs_size : ℕ → List (ℕ × Bytes) → ℕ
pairs_size size [] = size
pairs_size size ((id, v) ∷ pairs) = pairs_size (size + 8 + 4 + length v) pairs

unfoldable pub padded_size : ℕ → ℕ
padded_size size =
    if size % page_alignment == 0
    then size
    else let pad = page_alignment - size % page_alignment in
      size + (if ltb pad 12 then pad + page_alignment else pad)

unfoldable pub signing_block_size : List (ℕ × Bytes) → ℕ
signing_block_size pairs = padded_size (pairs_size (8 + 8 + 16) pairs)

-- The loop over the pairs, with the string written so far.
unfoldable pub put_pairs : Bytes → List (ℕ × Bytes) → Bytes
unfolding put_u32
put_pairs v [] = v
put_pairs v ((id, val) ∷ pairs) =
    put_pairs (put_u32 (v ++ le_bytes 8 (4 + length val)) id ++ val) pairs

-- The verity padding pair.
unfoldable pub put_padding : Bytes → ℕ → Bytes
unfolding put_u32
put_padding v pad =
    put_u32 (v ++ le_bytes 8 (pad - 8)) verity_padding_block_id ++ replicate (pad - 12) 0

unfoldable pub apk_signing_block : List (ℕ × Bytes) → Bytes
apk_signing_block pairs =
    let total = signing_block_size pairs in
    let size_field = le_bytes 8 (total - 8) in
    let v = put_pairs size_field pairs in
    let used = length v + 8 + 16 in
    let padded = if ltb used total then put_padding v (total - used) else v in
    padded ++ size_field ++ apk_signing_block_magic

unfoldable pub padding_before_block : ℕ → ℕ
padding_before_block entries_end = (page_alignment - entries_end % page_alignment) % page_alignment
