-- ===== src/Keys/Base64.antt =====
-- src/keys.rs: `base64_decode`; a text is its bytes.
pub mod RoundTrip
use fastsigner.Base.{
  ◌>>=◌, ℕ, zero, suc, ◌+◌, ◌-◌, ◌*◌, ◌/◌, ◌%◌, ◌^◌, ◌≤◌, ◌<◌, ◌≡◌, refl, sym, ap, subst, ◌∙◌, ◌⊎◌,
  inl, inr, Bool, true, false, Option, some, none, List, [], ◌∷◌, ◌++◌, map, Bytes, length, take,
  drop, replicate, All, get_elem?, Outcome, ok, err, Ensures, arith, codes, le_bytes, le_value,
  word_le, slice, put, index, strip_prefix, starts_with, ends_with, contains, bytes_eq,
}
use fastsigner.Base.{◌&&◌, ◌||◌, leb, ltb, ◌==◌, if◌then◌else◌, base64_character}

-- What the match makes of a character.
pub data Symbol : Type 0 where
  value : ℕ → Symbol
  skipped invalid : Symbol

unfoldable pub symbol : ℕ → Symbol
symbol c =
    if leb 65 c && leb c 90
    then value (c - 65)
    else if leb 97 c && leb c 122
    then value (c - 97 + 26)
    else if leb 48 c && leb c 57
    then value (c - 48 + 52)
    else if (c == 43) || (c == 45)
    then value 62
    else if (c == 47) || (c == 95)
    then value 63
    else if (c == 61) || (c == 10) || (c == 13) || (c == 32) || (c == 9)
    then skipped
    else invalid

-- `acc`, `bits` and `out`. A shift is a product or a quotient by a power of two, on 32 bits.
pub record Decoding : Type 0 where
  pub acc : ℕ
  pub bits : ℕ
  pub out : Bytes

unfoldable pub push : Decoding → ℕ → Decoding
push d v =
    let acc = (d.acc * 64 + v) % 2 ^ 32 in
    let bits = d.bits + 6 in
    if leb 8 bits
    then record {
      acc = acc % 2 ^ (bits - 8);
      bits = bits - 8;
      out = d.out ++ acc / 2 ^ (bits - 8) % 256 ∷ [];
    }
    else record { acc = acc; bits = bits; out = d.out }

-- The body of the loop, for a character and what the match makes of it.
unfoldable pub absorb : ℕ → Symbol → Decoding → Outcome Decoding
absorb c (value v) d = ok (push d v)
absorb c skipped d = ok d
absorb c invalid d = err (base64_character c)

unfoldable pub decode_loop : Bytes → Decoding → Outcome Bytes
decode_loop [] d = ok d.out
decode_loop (c ∷ s) d = do d ← absorb c (symbol c) d; decode_loop s d

unfoldable pub base64_decode : Bytes → Outcome Bytes
base64_decode s = decode_loop s (record { acc = 0; bits = 0; out = [] })
