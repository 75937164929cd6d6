-- ===== src/Pkcs12/Kdf/Add.antt =====
-- The addition on a block of the key derivation, as numbers.
use fastsigner.Base.{
  IsByte, ℕ, zero, suc, ◌+◌, ◌*◌, ◌/◌, ◌%◌, ◌^◌, ◌<◌, ◌≡◌, refl, sym, ap, ◌∙◌, [], ◌∷◌, Bytes,
  length, All, ok, Ensures, arith, index,
}
use fastsigner.Base.{>>=-Ensures, get_or}
use fastsigner.Pkcs12.Kdf.{add_block}

-- A block as a number, the first byte the highest.
abbrev pub value : Bytes → ℕ
value [] = 0
value (x ∷ xs) = x * 256 ^ length xs + value xs

-- The bytes of `a` from the place `k` on, round and round after `u` of them.
abbrev pub repeated : Bytes → ℕ → ℕ → ℕ → Bytes
repeated a u k zero = []
repeated a u k (suc n) = get_or a (k % u) 0 ∷ repeated a u (k + 1) n

pub index-get_or : (b : Bytes) (i : ℕ) → i < length b → index b i ≡ ok (get_or b i 0)
unfolding index
index-get_or [] i h = absurd (omega arith)
index-get_or (x ∷ b) zero h = refl
index-get_or (x ∷ b) (suc i) h = index-get_or b i (omega arith)

carry_step :
    (x y c w n v v' : ℕ)
    → v' + c * w ≡ v + n + 1
    → (x + y + c) % 256 * w + v' + (x + y + c) / 256 * (256 * w) ≡ x * w + v + (y * w + n) + 1
carry_step x y c w n v v' h =
    let split : x + y + c ≡ (x + y + c) % 256 + (x + y + c) / 256 * 256 = omega arith in
    let scaled : (x + y + c) * w ≡ ((x + y + c) % 256 + (x + y + c) / 256 * 256) * w =
      ap (λ s. s * w) split in
    omega (arith, scaled)

length-repeated : (a : Bytes) (u k n : ℕ) → length (repeated a u k n) ≡ n
length-repeated a u k zero = refl
length-repeated a u k (suc n) = ap suc (length-repeated a u (k + 1) n)

-- What `add_block` returns for the block `xs`.
abbrev pub Sum : Bytes → ℕ → ℕ → Bytes → Bytes × ℕ → Type 0
Sum a u k xs (ys, carry) =
    (length ys ≡ length xs)
    × All IsByte ys
    × (value ys + carry * 256 ^ length xs ≡ value xs + value (repeated a u k (length xs)) + 1)

-- One more byte in front.
one_more_byte :
    (a : Bytes) (u k x c : ℕ) (xs ys : Bytes)
    → Sum a u (k + 1) xs (ys, c)
    → Sum a u k
        (x ∷ xs)
        ((x + get_or a (k % u) 0 + c) % 256 ∷ ys, (x + get_or a (k % u) 0 + c) / 256)
one_more_byte a u k x c xs ys (size, bytes, sum) =
    let y = get_or a (k % u) 0 in
    let pow : 256 ^ suc (length xs) ≡ 256 * 256 ^ length xs = omega arith in
    let size' = length-repeated a u (k + 1) (length xs) in
    (
      ap suc size,
      (omega arith, bytes),
      ap (λ n. (x + y + c) % 256 * 256 ^ n + value ys + (x + y + c) / 256 * 256 ^ suc (length xs))
            size
          ∙ ap (λ p. (x + y + c) % 256 * 256 ^ length xs + value ys + (x + y + c) / 256 * p) pow
          ∙ carry_step x y c (256 ^ length xs) (value (repeated a u (k + 1) (length xs))) (value xs)
              (value ys) sum
          ∙ ap
              (λ n.
                x * 256 ^ length xs
                + value xs
                + (y * 256 ^ n + value (repeated a u (k + 1) (length xs)))
                + 1)
              (sym size'),
    )

-- With `a` of `u` bytes, repeated to the length of the block: the sum of both and 1, and what goes out.
pub add_block-Sum :
    (a : Bytes) (u : ℕ) (xs : Bytes) (k : ℕ)
    → 0 < u
    → length a ≡ u
    → Ensures (Sum a u k xs) (add_block a u k xs)
unfolding add_block
add_block-Sum a u [] k h size = (refl, tt, refl)
add_block-Sum a u (x ∷ xs) k h size =
    >>=-Ensures (Sum a u (k + 1) xs) (Sum a u k (x ∷ xs)) (add_block a u (k + 1) xs) _
      (add_block-Sum a u xs (k + 1) h size)
      (λ r e sum. rw (index-get_or a (k % u) (omega arith)) (one_more_byte a u k x r.1 xs r.0 sum))
