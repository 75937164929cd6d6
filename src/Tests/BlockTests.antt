-- ===== src/Tests/BlockTests.antt =====
-- A signing block of two pairs, a signer and an extra field.
use fastsigner.Base.{
  length-append, ℕ, ◌%◌, ◌^◌, ◌<◌, ◌≡◌, refl, true, some, List, [], ◌∷◌, ◌++◌, Bytes, length, All,
  Outcome, ok, arith, le_bytes,
}
use fastsigner.Zip.Sections.{find_sig_block}
use fastsigner.SigBlock.{
  pairs_size, SignerInput, put_u32, put_lp, seq_lp_onto, seq_lp, seq_lp_pairs_onto, seq_lp_pairs,
  v2_additional_attributes, v2_signed_data, v2_signer, v3_signed_data, v3_signer, padded_size,
  apk_signing_block, signing_block_size,
}
use fastsigner.SigBlock.Size.{block_pairs, length-apk_signing_block}
use fastsigner.SigBlock.Pairs.{Fits, walk, payload, walk-apk_signing_block}
use fastsigner.SigBlock.Detect.{find_sig_block-apk_signing_block, file, cd_off, block}
use fastsigner.SigBlock.Read.{IsShort}
use fastsigner.SigBlock.Signers.{ReadsV2, ReadsV3, SignsV3, v2_signer-read, v3_signer-read}
use fastsigner.Align.Extra.Aligned.{Aligns, aligning_extra-Aligns}

abbrev two_pairs : List (ℕ × Bytes)
two_pairs = (0x7109871a, 1 ∷ 2 ∷ 3 ∷ []) ∷ (0xf05368c0, 4 ∷ []) ∷ []

two_pairs-Fits : All Fits two_pairs
two_pairs-Fits = ((omega arith, omega arith), ((omega arith, omega arith), tt))

block_length_example :
    (length (apk_signing_block two_pairs) ≡ signing_block_size two_pairs)
    × (signing_block_size two_pairs % 4096 ≡ 0)
block_length_example = length-apk_signing_block two_pairs

walk_example :
    walk (length (apk_signing_block two_pairs)) (payload (apk_signing_block two_pairs))
    ≡ some (block_pairs two_pairs)
walk_example = walk-apk_signing_block two_pairs two_pairs-Fits

abbrev two_items : List Bytes
two_items = (1 ∷ 2 ∷ []) ∷ [] ∷ (3 ∷ []) ∷ []

two_items-IsShort : IsShort (seq_lp two_items)
unfolding seq_lp seq_lp_onto put_lp put_u32 le_bytes
two_items-IsShort = omega arith

two_pairs-IsShort : IsShort (seq_lp_pairs two_pairs)
unfolding seq_lp_pairs seq_lp_pairs_onto put_lp put_u32 le_bytes
two_pairs-IsShort = omega arith

abbrev input : SignerInput
input = record { alg_id = 0x0103; digest = 1 ∷ 2 ∷ []; certs = (3 ∷ 4 ∷ []) ∷ []; spki = 5 ∷ [] }

-- A signature of one byte.
abbrev sign_one : Bytes → Outcome Bytes
sign_one m = ok (length m ∷ [])

abbrev returned : Outcome Bytes → Bytes
returned (ok b) = b
returned _ = []

abbrev v2_out : Bytes
v2_out = returned (v2_signer input true sign_one)

v2_runs : v2_signer input true sign_one ≡ ok v2_out
unfolding v2_signer
v2_runs = refl

v2-IsShort : IsShort v2_out
unfolding v2_signer v2_signed_data v2_additional_attributes seq_lp_pairs seq_lp_pairs_onto seq_lp
    seq_lp_onto put_lp put_u32 le_bytes
v2-IsShort = omega arith

v2_example :
    (sig : Bytes) × (sign_one (v2_signed_data input true) ≡ ok sig) × ReadsV2 input true sig v2_out
v2_example = v2_signer-read input true sign_one v2_out v2_runs v2-IsShort

abbrev v3_out : Bytes
v3_out = returned (v3_signer input 28 33 sign_one)

v3_runs : v3_signer input 28 33 sign_one ≡ ok v3_out
unfolding v3_signer
v3_runs = refl

v3-IsShort : IsShort v3_out
unfolding v3_signer v3_signed_data seq_lp_pairs seq_lp_pairs_onto seq_lp seq_lp_onto put_lp put_u32
    le_bytes
v3-IsShort = omega arith

v3_example :
    (sig : Bytes) × (sign_one (v3_signed_data input 28 33) ≡ ok sig)
    × ReadsV3 input 28 33 sig v3_out
    × SignsV3 input 28 33 (v3_signed_data input 28 33)
v3_example =
    v3_signer-read input 28 33 sign_one v3_out (omega arith) (omega arith) v3_runs v3-IsShort

-- An unknown field, an old field of alignment and two bytes of padding.
abbrev extra : Bytes
extra = 1 ∷ 0 ∷ 1 ∷ 0 ∷ 7 ∷ 0x35 ∷ 0xd9 ∷ 2 ∷ 0 ∷ 4 ∷ 0 ∷ 0 ∷ 0 ∷ []

aligning_example : (out : Bytes) × Aligns extra 31 4 (omega arith) (omega arith) out
aligning_example = aligning_extra-Aligns extra 31 4 (omega arith) (omega arith)

block_size : signing_block_size two_pairs ≡ 4096
unfolding signing_block_size pairs_size padded_size
block_size = refl

short_file : length (file two_pairs (1 ∷ 2 ∷ 3 ∷ []) (9 ∷ [])) < 2 ^ 64
short_file = omega (
  arith,
  length-append (1 ∷ 2 ∷ 3 ∷ []) (apk_signing_block two_pairs ++ 9 ∷ []),
  length-append (apk_signing_block two_pairs) (9 ∷ []),
  (length-apk_signing_block two_pairs).0,
  block_size,
)

find_example :
    find_sig_block
      (file two_pairs (1 ∷ 2 ∷ 3 ∷ []) (9 ∷ []))
      (cd_off two_pairs (1 ∷ 2 ∷ 3 ∷ []) (9 ∷ []))
    ≡ ok (some (3, length (block two_pairs (1 ∷ 2 ∷ 3 ∷ []) (9 ∷ []))))
find_example = find_sig_block-apk_signing_block two_pairs (1 ∷ 2 ∷ 3 ∷ []) (9 ∷ []) short_file
