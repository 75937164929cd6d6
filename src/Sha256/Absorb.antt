-- ===== src/Sha256/Absorb.antt =====
-- A hasher's state is a function of the bytes that it took, however they were split.
use fastsigner.Base.{
  length-put, put_in_range, slice_prefix, slice_suffix, lt→ltb, put_in_range, slice_suffix,
  slice_prefix, ℕ, zero, suc, ◌+◌, ◌-◌, ◌*◌, ◌/◌, ◌%◌, ◌^◌, ◌≤◌, ◌<◌, ◌≡◌, refl, sym, ap, subst,
  ◌∙◌, min, List, [], ◌∷◌, ◌++◌, append_assoc, append-nil, Bytes, length, take, drop, true, ltb,
  ◌==◌, ok, arith, length-append, length-take, length-drop, take-append_self, take-append_le,
  drop-append_le, take_all, drop_all, take-append-drop, Bool-cases, inl, inr, ltb→lt, ltb→le,
  le→ltb,
}
use fastsigner.Sha256.{Sha256, h0, compress_blocks, compress, update_whole, update}

short_buf :
    (buf rest input : Bytes) (k : ℕ)
    → take k buf ≡ rest
    → take (length (rest ++ input)) (take k buf ++ (input ++ drop (k + length input) buf))
      ≡ rest ++ input
short_buf buf rest input k e =
    rw (e, sym (append_assoc rest input (drop (k + length input) buf)))
      (take-append_self (rest ++ input) (drop (k + length input) buf) (length (rest ++ input)) refl)

-- The buffer, filled from `k` on with the first bytes of the input.
abbrev full_buf : Bytes → Bytes → ℕ → Bytes
full_buf buf input k =
    take k buf ++ (take (64 - k) input ++ drop (k + length (take (64 - k) input)) buf)

full_buf_lem :
    (buf input rest : Bytes) (k : ℕ)
    → take k buf ≡ rest
    → length buf ≡ 64
    → k < 64
    → 64 ≤ k + length input
    → full_buf buf input k ≡ rest ++ take (64 - k) input
full_buf_lem buf input rest k e size room full = rw (
  e,
  drop_all buf (k + length (take (64 - k) input)) (omega (arith, length-take (64 - k) input)),
  append-nil (take (64 - k) input),
)

length-full_buf :
    (buf input : Bytes) (k : ℕ) → length buf ≡ 64 → k < 64 → length (full_buf buf input k) ≡ 64
length-full_buf buf input k size room =
    length-put buf k (take (64 - k) input) (omega (arith, length-take (64 - k) input)) ∙ size

-- The bytes of the message, regrouped.
regroup :
    (whole rest m input : Bytes) (k : ℕ)
    → m ≡ whole ++ rest
    → (whole ++ (rest ++ take k input)) ++ drop k input ≡ m ++ input
regroup whole rest m input k e =
    append_assoc whole (rest ++ take k input) (drop k input)
    ∙ ap (λ x. whole ++ x)
        (append_assoc rest (take k input) (drop k input)
          ∙ ap (λ x. rest ++ x) (take-append-drop k input))
    ∙ sym (append_assoc whole rest input)
    ∙ ap (λ x. x ++ input) (sym e)

pub no_bytes : (b : Bytes) → length b ≤ 0 → b ≡ []
no_bytes [] h = refl
no_bytes (c ∷ b) h = absurd (omega arith)

module _ (block : List ℕ → Bytes → List ℕ) where
  -- The hasher has taken `m`: whole blocks went to the state, the rest is at the buffer's start.
  pub record Holds (h : Sha256) (m : Bytes) : Type 0 where
    pub n : ℕ
    pub whole : Bytes
    pub rest : Bytes
    pub split : m ≡ whole ++ rest
    pub whole_len : length whole ≡ n * 64
    pub rest_len : length rest < 64
    pub buf_len : h.buf_len ≡ length rest
    pub buf_is : take (length rest) h.buf ≡ rest
    pub buf_size : length h.buf ≡ 64
    pub state_is : h.state ≡ compress_blocks block n h0 whole

  abbrev pub Absorbed : Sha256 → Bytes → Type 0
  Absorbed h m = Holds h m × (h.len ≡ length m % 2 ^ 64)

  pub compress_blocks-append :
      (n k p : ℕ) (s : List ℕ) (x y : Bytes)
      → p ≡ n + k
      → length x ≡ n * 64
      → compress_blocks block p s (x ++ y) ≡ compress_blocks block k (compress_blocks block n s x) y
  compress_blocks-append zero k p s [] y e l = let same : p ≡ k = omega arith in rw same
  compress_blocks-append zero k p s (c ∷ x) y e l = absurd (omega arith)
  compress_blocks-append (suc n) k zero s x y e l = absurd (omega arith)
  compress_blocks-append (suc n) k (suc p) s x y e l = rw (
    take-append_le x y 64 (omega arith),
    drop-append_le x y 64 (omega arith),
    compress_blocks-append n k p (block s (take 64 x)) (drop 64 x) y (omega arith)
        (omega (arith, length-drop 64 x)),
  )

  pub compress_run :
      (n : ℕ) (s : List ℕ) (x : Bytes)
      → length x ≡ n * 64
      → compress block s x ≡ ok (compress_blocks block n s x)
  unfolding compress
  compress_run n s x l =
      let fits : (length x % 64 == 0) ≡ true = ground arith in
      let count : length x / 64 ≡ n = omega arith in rw (fits, count)

  update_whole_run :
      (s : List ℕ) (buf input : Bytes) (len : ℕ)
      → length buf ≡ 64
      → update_whole block (record { state = s; buf = buf; buf_len = 0; len = len }) input
        ≡ ok (record {
          state = compress_blocks block (length input / 64) s (take (length input / 64 * 64) input);
          buf =
              drop (length input / 64 * 64) input
              ++ drop (0 + length (drop (length input / 64 * 64) input)) buf;
          buf_len = length input - length input / 64 * 64;
          len = len;
        })
  unfolding update_whole
  update_whole_run s buf input len size =
      let w = length input / 64 * 64 in
      rw (
        slice_prefix input w (omega arith),
        compress_run (length input / 64) s (take w input) (omega (arith, length-take w input)),
        slice_suffix input w (omega arith),
        put_in_range buf 0 (drop w input) (omega (arith, length-drop w input)),
      )

  update_whole-Holds :
      (n : ℕ) (s : List ℕ) (buf whole input : Bytes) (len : ℕ)
      → length buf ≡ 64
      → length whole ≡ n * 64
      → s ≡ compress_blocks block n h0 whole
      → (h : Sha256) × (update_whole block
            (record { state = s; buf = buf; buf_len = 0; len = len })
            input
          ≡ ok h)
        × Holds h (whole ++ input)
        × (h.len ≡ len)
  update_whole-Holds n s buf whole input len size l e =
      let k = length input / 64 in
      let run = take (k * 64) input in
      let rest = drop (k * 64) input in
      let run_len : length run ≡ k * 64 = omega (arith, length-take (k * 64) input) in
      let rest_len : length rest ≡ length input - k * 64 = length-drop (k * 64) input in
      (
        record {
          state = compress_blocks block k s run;
          buf = rest ++ drop (0 + length rest) buf;
          buf_len = length input - k * 64;
          len = len;
        },
        update_whole_run s buf input len size,
        record {
          n = n + k;
          whole = whole ++ run;
          rest = rest;
          split =
              ap (λ y. whole ++ y) (sym (take-append-drop (k * 64) input))
              ∙ sym (append_assoc whole run rest);
          whole_len = omega (arith, length-append whole run);
          rest_len = omega arith;
          buf_len = sym rest_len;
          buf_is = take-append_self rest (drop (0 + length rest) buf) (length rest) refl;
          buf_size = omega (
            arith,
            length-append rest (drop (0 + length rest) buf),
            length-drop (0 + length rest) buf,
          );
          state_is =
              ap (λ x. compress_blocks block k x run) e
              ∙ sym (compress_blocks-append n k (n + k) h0 whole run refl l);
        },
        refl,
      )

  -- An `update` that does not fill the buffer.
  update_short_run :
      (h : Sha256) (input : Bytes)
      → length h.buf ≡ 64
      → 0 < h.buf_len
      → h.buf_len + length input < 64
      → update block h input
        ≡ ok (record {
          state = h.state;
          buf = take h.buf_len h.buf ++ (input ++ drop (h.buf_len + length input) h.buf);
          buf_len = h.buf_len + length input;
          len = (h.len + length input) % 2 ^ 64;
        })
  unfolding update
  update_short_run h input size some_left short =
      let n : min (64 - h.buf_len) (length input) ≡ length input = omega arith in
      rw (
        lt→ltb 0 h.buf_len some_left,
        n,
        slice_prefix input (length input) (omega arith),
        take_all input (length input) (omega arith),
        put_in_range h.buf h.buf_len input (omega arith),
        slice_suffix input (length input) (omega arith),
        lt→ltb (h.buf_len + length input) 64 short,
      )

  update-short :
      (h : Sha256) (m input : Bytes)
      → Absorbed h m
      → 0 < h.buf_len
      → h.buf_len + length input < 64
      → (h' : Sha256) × (update block h input ≡ ok h') × Absorbed h' (m ++ input)
  update-short h m input (r, l) some_left short =
      let left : take h.buf_len h.buf ≡ r.rest = ap (λ k. take k h.buf) r.buf_len ∙ r.buf_is in
      (
        _,
        update_short_run h input r.buf_size some_left short,
        (
          record {
            n = r.n;
            whole = r.whole;
            rest = r.rest ++ input;
            split = ap (λ x. x ++ input) r.split ∙ append_assoc r.whole r.rest input;
            whole_len = r.whole_len;
            rest_len = omega (arith, length-append r.rest input, r.buf_len);
            buf_len = omega (arith, length-append r.rest input, r.buf_len);
            buf_is = short_buf h.buf r.rest input h.buf_len left;
            buf_size = length-put h.buf h.buf_len input (omega (arith, r.buf_size)) ∙ r.buf_size;
            state_is = r.state_is;
          },
          omega (arith, l, length-append m input),
        ),
      )

  update_empty_run :
      (h : Sha256) (input : Bytes)
      → h.buf_len ≡ 0
      → update block h input
        ≡ update_whole block
            (record {
              state = h.state;
              buf = h.buf;
              buf_len = 0;
              len = (h.len + length input) % 2 ^ 64;
            })
            input
  unfolding update
  update_empty_run h input e = rw e

  update-empty :
      (h : Sha256) (m input : Bytes)
      → Absorbed h m
      → h.buf_len ≤ 0
      → (h' : Sha256) × (update block h input ≡ ok h') × Absorbed h' (m ++ input)
  update-empty h m input (r, l) empty =
      let none_left : r.rest ≡ [] = no_bytes r.rest (omega (arith, r.buf_len)) in
      let whole : m ≡ r.whole = r.split ∙ ap (λ x. r.whole ++ x) none_left ∙ append-nil r.whole in
      let zero_left : h.buf_len ≡ 0 = omega arith in
      let (h', run, holds, len) =
        update_whole-Holds r.n h.state h.buf r.whole input ((h.len + length input) % 2 ^ 64)
          r.buf_size r.whole_len r.state_is in
      (
        h',
        update_empty_run h input zero_left ∙ run,
        (
          subst (λ x. Holds h' (x ++ input)) (sym whole) holds,
          omega (arith, l, len, length-append m input),
        ),
      )

  -- An `update` that does: the buffer is a block of its own, and the rest goes on from an empty one.
  update_full_run :
      (h : Sha256) (input : Bytes)
      → length h.buf ≡ 64
      → 0 < h.buf_len
      → h.buf_len < 64
      → 64 ≤ h.buf_len + length input
      → update block h input
        ≡ update_whole block
            (record {
              state = compress_blocks block 1 h.state (full_buf h.buf input h.buf_len);
              buf = full_buf h.buf input h.buf_len;
              buf_len = 0;
              len = (h.len + length input) % 2 ^ 64;
            })
            (drop (64 - h.buf_len) input)
  unfolding update
  update_full_run h input size some_left room full =
      let k = 64 - h.buf_len in
      let n : min (64 - h.buf_len) (length input) ≡ 64 - h.buf_len = omega arith in
      rw (
        lt→ltb 0 h.buf_len some_left,
        n,
        slice_prefix input k (omega arith),
        put_in_range h.buf h.buf_len (take k input) (omega (arith, length-take k input)),
        slice_suffix input k (omega arith),
        le→ltb (h.buf_len + k) 64 (omega arith),
        compress_run 1 h.state (full_buf h.buf input h.buf_len)
            (length-put h.buf h.buf_len (take k input) (omega (arith, length-take k input)) ∙ size),
      )

  update-full :
      (h : Sha256) (m input : Bytes)
      → Absorbed h m
      → 0 < h.buf_len
      → 64 ≤ h.buf_len + length input
      → (h' : Sha256) × (update block h input ≡ ok h') × Absorbed h' (m ++ input)
  update-full h m input (r, l) some_left full =
      let k = 64 - h.buf_len in
      let room : h.buf_len < 64 = omega (arith, r.buf_len, r.rest_len) in
      let whole' = r.whole ++ (r.rest ++ take k input) in
      let left : take h.buf_len h.buf ≡ r.rest = ap (λ i. take i h.buf) r.buf_len ∙ r.buf_is in
      let filled : full_buf h.buf input h.buf_len ≡ r.rest ++ take k input =
        full_buf_lem h.buf input r.rest h.buf_len left r.buf_size room full in
      let (h', run, holds, len) =
        update_whole-Holds (r.n + 1)
          (compress_blocks block 1 h.state (full_buf h.buf input h.buf_len))
          (full_buf h.buf input h.buf_len) whole' (drop k input) ((h.len + length input) % 2 ^ 64)
          (length-full_buf h.buf input h.buf_len r.buf_size room)
          (omega (
            arith,
            r.whole_len,
            length-append r.whole (r.rest ++ take k input),
            length-append r.rest (take k input),
            length-take k input,
            r.buf_len,
          ))
          (ap (λ s. compress_blocks block 1 s (full_buf h.buf input h.buf_len)) r.state_is
            ∙ ap (λ b. compress_blocks block 1 (compress_blocks block r.n h0 r.whole) b) filled
            ∙ sym (
                compress_blocks-append r.n 1 (r.n + 1) h0 r.whole (r.rest ++ take k input) refl
                  r.whole_len)) in
      (
        h',
        update_full_run h input r.buf_size some_left room full ∙ run,
        (
          subst (Holds h') (regroup r.whole r.rest m input k r.split) holds,
          omega (arith, l, len, length-append m input),
        ),
      )

  -- `update` from a state that has taken `m` returns one that has taken `m ++ input`.
  pub update-Absorbed :
      (h : Sha256) (m input : Bytes)
      → Absorbed h m
      → (h' : Sha256) × (update block h input ≡ ok h') × Absorbed h' (m ++ input)
  update-Absorbed h m input (r, l) = elim (Bool-cases (ltb 0 h.buf_len)) [
    | inl some_left ↦ elim (Bool-cases (ltb (h.buf_len + length input) 64)) [
      | inl short ↦
          update-short h m input (r, l) (ltb→lt 0 h.buf_len some_left)
            (ltb→lt (h.buf_len + length input) 64 short)
      | inr full ↦
          update-full h m input (r, l) (ltb→lt 0 h.buf_len some_left)
            (ltb→le (h.buf_len + length input) 64 full)
    ]
    | inr empty ↦ update-empty h m input (r, l) (ltb→le 0 h.buf_len empty)
  ]
