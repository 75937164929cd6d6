-- ===== src/Pkcs12.antt =====
-- src/pkcs12.rs: the DER elements of a PKCS#12 store. A text that is formatted into an error message is
-- an argument of the error.
pub mod Oids
pub mod Ring
pub mod Kdf
pub mod Mac
pub mod Text
pub mod Pbes2
pub mod Safe
pub mod Chain
pub mod Store
pub mod Elements
pub mod Uint
use fastsigner.Base.{
  too_large, missing_field, pkcs12_tag, not_positive, ℕ, zero, suc, ◌+◌, ◌*◌, ◌/◌, ◌%◌, ◌^◌, Bool,
  true, Option, some, none, List, [], ◌∷◌, ◌++◌, Bytes, length, get_elem?, Outcome, ok, err, slice,
  ◌>>=◌, ◌>>◌, if◌then◌else◌, fail_if, ok_or, ltb, ◌==◌, not, out_of_fuel,
}
use fastsigner.Keys.Der.{der_header}

-- A DER element: its tag, its content, and the whole encoding.
pub record Tlv : Type 0 where
  pub tag : ℕ
  pub body : Bytes
  pub raw : Bytes

unfoldable pub tlv : Bytes → ℕ → Outcome (Tlv × ℕ)
tlv b p = do
  (tag, s, l) ← der_header b p
  body ← slice b s (s + l)
  raw ← slice b p (s + l)
  ok (record { tag = tag; body = body; raw = raw }, s + l)

unfoldable pub expect_tag : Tlv → ℕ → Bytes → Outcome Tlv
expect_tag t tag what = if not (t.tag == tag) then err (pkcs12_tag what tag t.tag) else ok t

unfoldable pub one : Bytes → ℕ → Bytes → Outcome Tlv
one b tag what = do (t, _) ← tlv b 0; expect_tag t tag what

-- The loop of `children`.
unfoldable pub children_loop : ℕ → Bytes → ℕ → Outcome (List Tlv)
children_loop zero b p = if ltb p (length b) then out_of_fuel else ok []
children_loop (suc fuel) b p =
    if ltb p (length b)
    then (do (t, next) ← tlv b p; v ← children_loop fuel b next; ok (t ∷ v))
    else ok []

unfoldable pub children : Bytes → Outcome (List Tlv)
children b = children_loop (length b) b 0

unfoldable pub child : List Tlv → ℕ → ℕ → Bytes → Outcome Tlv
child c i tag what = do t ← ok_or (get_elem? c i) (missing_field what); expect_tag t tag what

-- `tag & 0x20`.
abbrev pub constructed : ℕ → ℕ
constructed tag = tag / 32 % 2 * 32

-- The loop of `octets`, each chunk by `inner`.
unfoldable pub octets_all : (Tlv → Outcome Bytes) → List Tlv → Outcome Bytes
octets_all inner [] = ok []
octets_all inner (c ∷ cs) = do o ← inner c; out ← octets_all inner cs; ok (o ++ out)

-- One level of `octets`, the levels below by `inner`.
unfoldable pub octets_level : (Tlv → Outcome Bytes) → Tlv → Outcome Bytes
octets_level inner t =
    if constructed t.tag == 0 then ok t.body else (do cs ← children t.body; octets_all inner cs)

unfoldable pub octets_loop : ℕ → Tlv → Outcome Bytes
octets_loop zero t = out_of_fuel
octets_loop (suc fuel) t = octets_level (octets_loop fuel) t

unfoldable pub octets : Tlv → Outcome Bytes
octets t = octets_loop (suc (length t.body)) t

-- `try_fold` over the bytes of an INTEGER in 64 bits.
unfoldable pub uint_fold : ℕ → Bytes → Option ℕ
uint_fold acc [] = some acc
uint_fold acc (b ∷ bs) = if acc / 2 ^ 32 == 0 then uint_fold (acc * 256 + b) bs else none

-- `u32::try_from`.
unfoldable pub try_u32 : ℕ → Option ℕ
try_u32 v = if ltb v (2 ^ 32) then some v else none

-- `b.first().map_or(true, |&b| b & 0x80 != 0)`.
abbrev pub is_negative : Bytes → Bool
is_negative [] = true
is_negative (b ∷ bs) = not (b / 128 % 2 == 0)

unfoldable pub uint : Tlv → Bytes → Outcome ℕ
uint t what = do
  t ← expect_tag t 0x02 what
  fail_if (is_negative t.body) (not_positive what)
  v ← ok_or (uint_fold 0 t.body) (too_large what)
  ok_or (try_u32 v) (too_large what)
