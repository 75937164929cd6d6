-- ===== src/Sha256/Derive/Rfc8018.antt =====
-- PBKDF2 of RFC 8018 over the HMAC of RFC 2104, and `pbkdf2_hmac_sha256` as an implementation of it.
use fastsigner.Base.{
  ℕ, zero, suc, ◌+◌, ◌-◌, ◌/◌, ◌≤◌, ◌<◌, ◌≡◌, refl, sym, ap, subst, ◌∙◌, inl, inr, false, List, [],
  ◌∷◌, ◌++◌, Bytes, length, take, drop, replicate, Outcome, ok, arith, ◌>>=◌, if◌then◌else◌, ltb,
  ◌==◌, min,
}
use fastsigner.Base.{
  Bool-cases, append-nil, take-append_le, take-append_at, take_all, slice_prefix, put_in_range,
  ltb→le, ltb→lt,
}
use Prim.Native.Nat.{bit_xor}
use fastsigner.Sha256.{digest, be_bytes}
use fastsigner.Sha256.Derive.{xor_bytes, pad_key, pbkdf2_blocks, pbkdf2_hmac_sha256}
use fastsigner.Sha256.Derive.Iterate.{Words8}
use fastsigner.Sha256.Derive.Pbkdf2.{
  hmac, xor_rounds, hmac_block, digest-run, pad_key-run, pbkdf2_by_hmac, length-xor_bytes,
}
use fastsigner.Sha256.Derive.Total.{Yields, hmac-Yields, hmac_block-Yields}

-- The xor of two strings of one length.
abbrev pub xored : Bytes → Bytes → Bytes
xored (x ∷ t) (y ∷ u) = bit_xor x y ∷ xored t u
xored _ _ = []

xored_lem : (t u : Bytes) → length t ≡ length u → xor_bytes t u ≡ xored t u
xored_lem [] u h = refl
xored_lem (x ∷ t) [] h = absurd (omega (arith, h))
xored_lem (x ∷ t) (y ∷ u) h = ap (◌∷◌ (bit_xor x y)) (xored_lem t u (omega (arith, h)))

-- T_i || T_{i+1} || ..., `l` of them.
abbrev pub t_blocks : (ℕ → Outcome Bytes) → ℕ → ℕ → Outcome Bytes
t_blocks f zero i = ok []
t_blocks f (suc l) i = f i >>= λ t. t_blocks f l (i + 1) >>= λ ts. ok (t ++ ts)

drop-zeros : (k n : ℕ) → drop {A = ℕ} k (replicate n 0) ≡ replicate (n - k) 0
drop-zeros zero n = let same : n - 0 ≡ n = omega arith in rw same refl
drop-zeros (suc k) zero = let same : 0 - suc k ≡ 0 = omega arith in rw same refl
drop-zeros (suc k) (suc n) =
    let same : suc n - suc k ≡ n - k = omega arith in rw same (drop-zeros k n)

first_32 :
    (n : ℕ) (t ts : Bytes)
    → length t ≡ 32
    → take (min 32 n) t ++ take (n - 32) ts ≡ take n (t ++ ts)
first_32 n t ts size = elim (Bool-cases (ltb 32 n)) [
  | inl more ↦
      let big : 32 < n = ltb→lt 32 n more in
      let all : min 32 n ≡ 32 = omega arith in
      rw
        (
          all,
          take_all t 32 (omega (arith, size)),
          take-append_at t ts (n - 32) n (omega (arith, size)),
        )
        refl
  | inr last ↦
      let small : n ≤ 32 = ltb→le 32 n last in
      let some_of : min 32 n ≡ n = omega arith in
      let none_left : n - 32 ≡ 0 = omega arith in
      rw (some_of, none_left, take-append_le t ts n (omega (arith, size)), append-nil (take n t))
        refl
]

t_blocks-run :
    (f : ℕ → Outcome Bytes) (l i : ℕ)
    → ((k : ℕ) → Yields 32 (f (k + 1)))
    → (ts : Bytes) × (t_blocks f l (i + 1) ≡ ok ts)
t_blocks-run f zero i all = ([], refl)
t_blocks-run f (suc l) i all =
    let (t, run, size) = all i in
    let (ts, more) = t_blocks-run f l (i + 1) all in (t ++ ts, rw (run, more) refl)

-- The loop over the output's parts cuts off what is too much of the last block.
pbkdf2_blocks-t_blocks :
    (fuel : ℕ) (f g : ℕ → Outcome Bytes) (i n : ℕ)
    → n ≤ fuel
    → ((k : ℕ) → f k ≡ g (k + 1))
    → ((k : ℕ) → Yields 32 (g (k + 1)))
    → pbkdf2_blocks fuel f i n ≡ (t_blocks g ((n + 31) / 32) (i + 1) >>= λ ts. ok (take n ts))
unfolding pbkdf2_blocks
pbkdf2_blocks-t_blocks zero f g i n h same all = let no : n ≡ 0 = omega arith in rw no refl
pbkdf2_blocks-t_blocks (suc fuel) f g i zero h same all = refl
pbkdf2_blocks-t_blocks (suc fuel) f g i (suc m) h same all =
    let n = suc m in
    let l = (n - 32 + 31) / 32 in
    let count : (suc m + 31) / 32 ≡ suc l = omega arith in
    let (t, run, size) = all i in
    let (ts, more) = t_blocks-run g l (i + 1) all in
    let some_left : (suc m == 0) ≡ false = ground arith in
    rw
      (
        count,
        some_left,
        same i,
        run,
        slice_prefix t (min 32 (suc m)) (omega (arith, size)),
        pbkdf2_blocks-t_blocks fuel f g (i + 1) (suc m - 32) (omega arith) same all,
        more,
      )
      (ap ok (first_32 (suc m) t ts size))

module _ (block : List ℕ → Bytes → List ℕ) where
  -- The key of HMAC: a password of more than 64 bytes is hashed, and zeros fill 64 bytes.
  abbrev pub block_key : Bytes → Outcome Bytes
  block_key password =
      if ltb 64 (length password)
      then (digest block password >>= λ d. ok (d ++ replicate 32 0))
      else ok (password ++ replicate (64 - length password) 0)

  -- U_2 xor U_3 xor ..., onto what is there, with U_j = HMAC(P, U_{j-1}).
  abbrev pub us : ℕ → Bytes → Bytes → Bytes → Outcome Bytes
  us zero key u t = ok t
  us (suc n) key u t = hmac block key u >>= λ u'. us n key u' (xored t u')

  -- F(P, S, c, i), with U_1 = HMAC(P, S || INT(i)).
  abbrev pub t_block : Bytes → Bytes → ℕ → ℕ → Outcome Bytes
  t_block key salt c i = hmac block key (salt ++ be_bytes 4 i) >>= λ u. us (c - 1) key u u

  -- T_1 || ... || T_l with l = ceil(n / 32), of which the first `n` bytes are the key.
  abbrev pub rfc8018 : Bytes → Bytes → ℕ → ℕ → Outcome Bytes
  rfc8018 password salt c n = block_key password >>= λ key.
      t_blocks (t_block key salt c) ((n + 31) / 32) 1 >>= λ ts. ok (take n ts)

  pad_key-block_key :
      (password : Bytes) → Words8 block → pad_key block password ≡ block_key password
  unfolding pad_key
  pad_key-block_key password words = elim (Bool-cases (ltb 64 (length password))) [
    | inl long ↦
        let (d, run, size) = digest-run block password words in
        let fits : 0 + length d ≤ 64 = omega (arith, size) in
        let left : 64 - (0 + length d) ≡ 32 = omega (arith, size) in
        rw (long, run, put_in_range (replicate 64 0) 0 d fits, drop-zeros (0 + length d) 64, left)
          refl
    | inr short ↦
        let small : length password ≤ 64 = ltb→le 64 (length password) short in
        let fits : 0 + length password ≤ 64 = omega arith in
        let left : 64 - (0 + length password) ≡ 64 - length password = omega arith in
        rw
          (
            short,
            put_in_range (replicate 64 0) 0 password fits,
            drop-zeros (0 + length password) 64,
            left,
          )
          refl
  ]

  us_lem :
      (n : ℕ) (key u t : Bytes)
      → Words8 block
      → length key ≡ 64
      → length t ≡ 32
      → xor_rounds block n key u t ≡ us n key u t
  us_lem zero key u t words hk ht = refl
  us_lem (suc n) key u t words hk ht =
      let (u', run, size) = hmac-Yields block words key u hk in
      let same = xored_lem t u' (omega (arith, ht, size)) in
      rw run (
        us_lem n key u' (xor_bytes t u') words hk (length-xor_bytes t u' ∙ ht)
        ∙ ap (us n key u') same)

  t_block_lem :
      (key salt : Bytes) (c i : ℕ)
      → Words8 block
      → length key ≡ 64
      → hmac_block block key salt c i ≡ t_block key salt c (i + 1)
  t_block_lem key salt c i words hk =
      let (u, run, size) = hmac-Yields block words key (salt ++ be_bytes 4 (i + 1)) hk in
      rw run (us_lem (c - 1) key u u words hk size)

  -- `pbkdf2_hmac_sha256`, with its shortcut of two compressions for each iteration, is PBKDF2 of RFC
  -- 8018 with HMAC over the hash of this file, over any compression whose states have eight words; a
  -- count of no iterations is taken as 1.
  pub pbkdf2_hmac_sha256-rfc8018 :
      (password salt : Bytes) (iterations n : ℕ)
      → Words8 block
      → pbkdf2_hmac_sha256 block password salt iterations n ≡ rfc8018 password salt iterations n
  pbkdf2_hmac_sha256-rfc8018 password salt iterations n words =
      let (key, run, size) = pad_key-run block password words in
      let key_is : block_key password ≡ ok key = sym (pad_key-block_key password words) ∙ run in
      let same = λ (k : ℕ). t_block_lem key salt iterations k words size in
      pbkdf2_by_hmac block password salt iterations n words
      ∙ rw (run, key_is)
          (pbkdf2_blocks-t_blocks n (hmac_block block key salt iterations)
            (t_block key salt iterations) 0 n (omega arith) same
            (λ k.
              subst (Yields 32) (same k)
                (hmac_block-Yields block words key salt iterations k size)))
