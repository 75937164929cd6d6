-- ===== src/Pkcs12/Text.antt =====
-- The texts of src/pkcs12.rs: `as_bytes` of a password, `String::from_utf16_lossy` of a name, and
-- `to_string` of a number. A text that is kept is its UTF-8 bytes.
use fastsigner.Base.{
  ℕ, zero, suc, ◌+◌, ◌-◌, ◌*◌, ◌/◌, ◌%◌, Bool, List, [], ◌∷◌, ◌++◌, Bytes, if◌then◌else◌, ltb, leb,
  ◌==◌, ◌&&◌, ◌||◌,
}

-- A character as UTF-8.
unfoldable pub utf8 : ℕ → Bytes
utf8 c =
    if ltb c 0x80
    then c ∷ []
    else if ltb c 0x800
    then (0xc0 + c / 64) ∷ (0x80 + c % 64) ∷ []
    else if ltb c 0x10000
    then (0xe0 + c / 4096) ∷ (0x80 + c / 64 % 64) ∷ (0x80 + c % 64) ∷ []
    else (0xf0 + c / 262144) ∷ (0x80 + c / 4096 % 64) ∷ (0x80 + c / 64 % 64) ∷ (0x80 + c % 64) ∷ []

unfoldable pub as_bytes : List ℕ → Bytes
as_bytes [] = []
as_bytes (c ∷ cs) = utf8 c ++ as_bytes cs

-- Units that stand for no character, and pairs of units.
abbrev pub is_high : ℕ → Bool
is_high u = leb 0xd800 u && ltb u 0xdc00

abbrev pub is_low : ℕ → Bool
is_low u = leb 0xdc00 u && ltb u 0xe000

unfoldable pub from_utf16_lossy : List ℕ → Bytes
from_utf16_lossy [] = []
from_utf16_lossy (u ∷ []) = if is_high u || is_low u then utf8 0xfffd else utf8 u
from_utf16_lossy (u ∷ w ∷ us) =
    let after_one = from_utf16_lossy (w ∷ us) in
    let after_two = from_utf16_lossy us in
    if is_high u && is_low w
    then utf8 (0x10000 + (u - 0xd800) * 1024 + (w - 0xdc00)) ++ after_two
    else if is_high u || is_low u
    then utf8 0xfffd ++ after_one
    else utf8 u ++ after_one

-- `chunks_exact(2)` with `u16::from_be_bytes`.
unfoldable pub be_units : Bytes → List ℕ
be_units (a ∷ b ∷ bs) = (a * 256 + b) ∷ be_units bs
be_units _ = []

-- `to_string`: the digits, the last one first in `decimal_loop`.
unfoldable pub decimal_loop : ℕ → ℕ → Bytes → Bytes
decimal_loop zero n after = after
decimal_loop (suc fuel) n after =
    let digits = (48 + n % 10) ∷ after in
    let rest = decimal_loop fuel (n / 10) digits in if n / 10 == 0 then digits else rest

unfoldable pub to_string : ℕ → Bytes
to_string n = decimal_loop (suc n) n []
