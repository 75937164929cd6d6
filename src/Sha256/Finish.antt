-- ===== src/Sha256/Finish.antt =====
-- `finish` pads as FIPS 180-4 says, and `update2` is two updates.
use fastsigner.Base.{
  ℕ, zero, suc, ◌+◌, ◌*◌, ◌/◌, ◌%◌, ◌^◌, ◌≤◌, ◌<◌, ◌≡◌, refl, sym, ap, subst, ◌∙◌, List, [], ◌∷◌,
  ◌++◌, append_assoc, append-nil, Bytes, length, take, drop, replicate, true, ◌==◌, ◌&&◌, Outcome,
  ok, ◌>>=◌, slice, put, arith, length-append, length-replicate, take-append_self, slice_prefix,
  put_in_range,
}
use fastsigner.Sha256.{
  Sha256, new, h0, be_bytes, state_bytes, gap, zeros, compress_blocks, compress2, update, finish,
  update2,
}
use fastsigner.Sha256.Absorb.{Holds, Absorbed, update-Absorbed, compress_blocks-append, no_bytes}

-- The message, a bit 1, the fewest zeros that leave eight bytes to the block's end, and the length in
-- bits.
abbrev pub Padded : Bytes → Bytes → Type 0
Padded m p =
    (z : ℕ) × (z < 64)
    × ((length m + 1 + z) % 64 ≡ 56)
    × (p ≡ m ++ 0x80 ∷ (replicate z 0 ++ be_bytes 8 (length m * 8)))

-- The length in bits of a message of any length, as the code counts it.
abbrev pub bits_of : Bytes → ℕ
bits_of m = length m % 2 ^ 64 * 8 % 2 ^ 64

-- The padding of a message of any length, the bits counted so.
abbrev pub Wrapped : Bytes → Bytes → Type 0
Wrapped m p =
    (z : ℕ) × (z < 64)
    × ((length m + 1 + z) % 64 ≡ 56)
    × (p ≡ m ++ 0x80 ∷ (replicate z 0 ++ be_bytes 8 (bits_of m)))

-- The padding of a message is one string.
pub Wrapped-unique : (m p q : Bytes) → Wrapped m p → Wrapped m q → p ≡ q
Wrapped-unique m p q (z, small, fits, is) (z', small', fits', is') =
    let same : z ≡ z' = omega arith in
    is ∙ ap (λ y. m ++ 0x80 ∷ (replicate y 0 ++ be_bytes 8 (bits_of m))) same ∙ sym is'

pub length-be_bytes : (n x : ℕ) → length (be_bytes n x) ≡ n
unfolding be_bytes
length-be_bytes zero x = refl
length-be_bytes (suc n) x =
    omega (arith, length-append (be_bytes n (x / 256)) (x % 256 ∷ []), length-be_bytes n (x / 256))

take-replicate : (z n : ℕ) → z ≤ n → take {A = ℕ} z (replicate n 0) ≡ replicate z 0
take-replicate zero n h = refl
take-replicate (suc z) zero h = absurd (omega arith)
take-replicate (suc z) (suc n) h = ap (λ l. 0 ∷ l) (take-replicate z n (omega arith))

-- The padding in the array of 72 bytes, and cut out of it.
put_pad :
    (z : ℕ) (w : Bytes)
    → z < 64
    → length w ≡ 8
    → put (0x80 ∷ replicate 71 0) (1 + z) w
      ≡ ok (0x80 ∷ (replicate z 0 ++ (w ++ drop (1 + z + length w) (0x80 ∷ replicate 71 0))))
put_pad z w h l =
    let start : 1 + z ≡ suc z = omega arith in
    put_in_range (0x80 ∷ replicate 71 0) (1 + z) w (omega arith)
    ∙ ap (λ x. ok (x ++ (w ++ drop (1 + z + length w) (0x80 ∷ replicate 71 0))))
        (ap (λ i. take i (0x80 ∷ replicate 71 0)) start
          ∙ ap (λ x. 0x80 ∷ x) (take-replicate z 71 (omega arith)))

slice_pad :
    (z : ℕ) (w rest : Bytes)
    → length w ≡ 8
    → slice (0x80 ∷ (replicate z 0 ++ (w ++ rest))) 0 (9 + z) ≡ ok (0x80 ∷ (replicate z 0 ++ w))
slice_pad z w rest l =
    let run = 0x80 ∷ (replicate z 0 ++ w) in
    let size : length run ≡ 9 + z =
      omega (arith, length-append (replicate z 0) w, length-replicate {A = ℕ} z 0) in
    rw (sym (append_assoc (replicate z 0) w rest)) (
      slice_prefix (run ++ rest) (9 + z) (omega (arith, size, length-append run rest))
      ∙ ap ok (take-append_self run rest (9 + z) (sym size)))

zeros_lem : (h : Sha256) → h.buf_len < 64 → (zeros h < 64) × ((h.buf_len + 1 + zeros h) % 64 ≡ 56)
unfolding zeros
zeros_lem h b = (omega arith, omega arith)

pub new-Holds : (block : List ℕ → Bytes → List ℕ) → Absorbed block new []
new-Holds block = (
  record {
    n = 0;
    whole = [];
    rest = [];
    split = refl;
    whole_len = refl;
    rest_len = omega arith;
    buf_len = refl;
    buf_is = refl;
    buf_size = refl;
    state_is = refl;
  },
  refl,
)

-- A hasher that stands at the end of a block has all it took in its state.
aligned_state :
    (block : List ℕ → Bytes → List ℕ) (h : Sha256) (m : Bytes)
    → Absorbed block h m
    → length m % 64 ≡ 0
    → h.state ≡ compress_blocks block (length m / 64) h0 m
aligned_state block h m (r, l) e =
    let size : length m ≡ length r.whole + length r.rest =
      ap length r.split ∙ length-append r.whole r.rest in
    let none_left : r.rest ≡ [] = no_bytes r.rest (omega (arith, size, r.whole_len, r.rest_len)) in
    let whole : m ≡ r.whole = r.split ∙ ap (λ x. r.whole ++ x) none_left ∙ append-nil r.whole in
    let count : length m / 64 ≡ r.n = omega (arith, ap length whole, r.whole_len) in
    r.state_is
    ∙ ap (λ n. compress_blocks block n h0 r.whole) (sym count)
    ∙ ap (compress_blocks block (length m / 64) h0) (sym whole)

finish_run :
    (block : List ℕ → Bytes → List ℕ) (h h' : Sha256) (m : Bytes)
    → Absorbed block h m
    → update block h (0x80 ∷ (replicate (zeros h) 0 ++ be_bytes 8 (bits_of m))) ≡ ok h'
    → finish block h ≡ ok (state_bytes h'.state)
unfolding finish
finish_run block h h' m (r, l) run =
    let bits : h.len * 8 % 2 ^ 64 ≡ bits_of m = ap (λ n. n * 8 % 2 ^ 64) l in
    let w = be_bytes 8 (bits_of m) in
    let size = length-be_bytes 8 (bits_of m) in
    let (small, _) = zeros_lem h (omega (arith, r.buf_len, r.rest_len)) in
    rw (
      bits,
      put_pad (zeros h) w small size,
      slice_pad (zeros h) w (drop (1 + zeros h + length w) (0x80 ∷ replicate 71 0)) size,
      run,
    )

pub finish-Wrapped :
    (block : List ℕ → Bytes → List ℕ) (h : Sha256) (m : Bytes)
    → Absorbed block h m
    → (p : Bytes) × Wrapped m p
      × (finish block h ≡ ok (state_bytes (compress_blocks block (length p / 64) h0 p)))
finish-Wrapped block h m (r, l) =
    let w = be_bytes 8 (bits_of m) in
    let pad = 0x80 ∷ (replicate (zeros h) 0 ++ w) in
    let (small, full) = zeros_lem h (omega (arith, r.buf_len, r.rest_len)) in
    let size : length m ≡ length r.whole + length r.rest =
      ap length r.split ∙ length-append r.whole r.rest in
    let pad_size : length (m ++ pad) ≡ length m + 9 + zeros h = omega (
      arith,
      length-append m pad,
      length-append (replicate (zeros h) 0) w,
      length-replicate {A = ℕ} (zeros h) 0,
      length-be_bytes 8 (bits_of m),
    ) in
    let fits : (length m + 1 + zeros h) % 64 ≡ 56 = omega (arith, size, r.whole_len, r.buf_len) in
    let (h', run, took) = update-Absorbed block h m pad (r, l) in
    (
      m ++ pad,
      (zeros h, small, fits, refl),
      finish_run block h h' m (r, l) run
          ∙ ap (λ s. ok (state_bytes s)) (aligned_state block h' (m ++ pad) took (omega arith)),
    )

pub finish-Padded :
    (block : List ℕ → Bytes → List ℕ) (h : Sha256) (m : Bytes)
    → length m < 2 ^ 61
    → Absorbed block h m
    → (p : Bytes) × Padded m p
      × (finish block h ≡ ok (state_bytes (compress_blocks block (length p / 64) h0 p)))
finish-Padded block h m short took =
    let (p, (z, small, fits, is), run) = finish-Wrapped block h m took in
    let exact : bits_of m ≡ length m * 8 = omega arith in
    (p, (z, small, fits, is ∙ ap (λ b. m ++ 0x80 ∷ (replicate z 0 ++ be_bytes 8 b)) exact), run)

-- Updates one after the other.
abbrev pub feed : (List ℕ → Bytes → List ℕ) → Sha256 → List Bytes → Outcome Sha256
feed block h [] = ok h
feed block h (p ∷ ps) = update block h p >>= λ h'. feed block h' ps

abbrev pub joined : List Bytes → Bytes
joined [] = []
joined (p ∷ ps) = p ++ joined ps

feed-Absorbed :
    (ps : List Bytes) (block : List ℕ → Bytes → List ℕ) (h : Sha256) (m : Bytes)
    → Absorbed block h m
    → (h' : Sha256) × (feed block h ps ≡ ok h') × Absorbed block h' (m ++ joined ps)
feed-Absorbed [] block h m r = (h, refl, subst (Absorbed block h) (sym (append-nil m)) r)
feed-Absorbed (p ∷ ps) block h m r =
    let (h1, run, r1) = update-Absorbed block h m p r in
    let (h2, run', r2) = feed-Absorbed ps block h1 (m ++ p) r1 in
    (h2, rw run run', subst (Absorbed block h2) (append_assoc m p (joined ps)) r2)

-- However a message of less than 2 ^ 61 bytes is split into updates, `finish` returns, with no
-- panic, the state over the blocks of the message padded as FIPS 180-4 says.
pub finish_of_updates :
    (block : List ℕ → Bytes → List ℕ) (ps : List Bytes)
    → length (joined ps) < 2 ^ 61
    → (p : Bytes) × Padded (joined ps) p
      × ((feed block new ps >>= finish block)
          ≡ ok (state_bytes (compress_blocks block (length p / 64) h0 p)))
finish_of_updates block ps short =
    let (h, run, r) = feed-Absorbed ps block new [] (new-Holds block) in
    rw run (finish-Padded block h (joined ps) short r)

gap_zero : (h : Sha256) → h.buf_len < 64 → gap h ≡ 0 → h.buf_len ≡ 0
unfolding gap
gap_zero h small e = omega arith

-- Whole blocks that go straight to the state of a hasher at a boundary.
boundary :
    (block : List ℕ → Bytes → List ℕ) (h : Sha256) (m input : Bytes) (n len : ℕ)
    → Holds block h m
    → gap h ≡ 0
    → length input ≡ n * 64
    → Holds block
        (record {
          state = compress_blocks block n h.state input;
          buf = h.buf;
          buf_len = h.buf_len;
          len = len;
        })
        (m ++ input)
boundary block h m input n len r e size =
    let empty : h.buf_len ≡ 0 = gap_zero h (omega (arith, r.buf_len, r.rest_len)) e in
    let none_left : r.rest ≡ [] = no_bytes r.rest (omega (arith, r.buf_len)) in
    let whole : m ≡ r.whole = r.split ∙ ap (λ x. r.whole ++ x) none_left ∙ append-nil r.whole in
    record {
      n = r.n + n;
      whole = r.whole ++ input;
      rest = [];
      split = ap (λ x. x ++ input) whole ∙ sym (append-nil (r.whole ++ input));
      whole_len = omega (arith, length-append r.whole input, r.whole_len);
      rest_len = omega arith;
      buf_len = empty;
      buf_is = refl;
      buf_size = r.buf_size;
      state_is =
          ap (λ s. compress_blocks block n s input) r.state_is
          ∙ sym (compress_blocks-append block r.n n (r.n + n) h0 r.whole input refl r.whole_len);
    }

-- Two hashers at a block boundary that are fed whole blocks by `update2`, as many the one as the
-- other, have each taken its own.
pub update2-Absorbed :
    (block : List ℕ → Bytes → List ℕ) (a b : Sha256) (m k da db : Bytes)
    → Absorbed block a m
    → Absorbed block b k
    → gap a ≡ 0
    → gap b ≡ 0
    → length da ≡ length db
    → length da % 64 ≡ 0
    → (a' : Sha256) × (b' : Sha256) × (update2 block a b da db ≡ ok (a', b'))
      × Absorbed block a' (m ++ da)
      × Absorbed block b' (k ++ db)
unfolding update2 compress2
update2-Absorbed block a b m k da db (r, l) (r', l') ga gb same aligned =
    let fits : ((length da == length db) && (length da % 64 == 0)) ≡ true = ground arith in
    (
      record {
        state = compress_blocks block (length da / 64) a.state da;
        buf = a.buf;
        buf_len = a.buf_len;
        len = (a.len + length da) % 2 ^ 64;
      },
      record {
        state = compress_blocks block (length da / 64) b.state db;
        buf = b.buf;
        buf_len = b.buf_len;
        len = (b.len + length db) % 2 ^ 64;
      },
      rw fits,
      (
        boundary block a m da (length da / 64) ((a.len + length da) % 2 ^ 64) r ga (omega arith),
        omega (arith, length-append m da),
      ),
      (
        boundary block b k db (length da / 64) ((b.len + length db) % 2 ^ 64) r' gb (omega arith),
        omega (arith, length-append k db),
      ),
    )
