-- ===== src/Pkcs12/Elements.antt =====
-- `children` cuts a string into whole elements, and `octets` ends, whatever the string.
use fastsigner.Base.{
  Ensures-map, drop_all, ℕ, zero, suc, ◌+◌, ◌-◌, ◌≤◌, ◌<◌, ◌≡◌, refl, sym, ap, ◌∙◌, Option, some,
  none, List, [], ◌∷◌, ◌++◌, Bytes, length, take, drop, All, get_elem?, Outcome, ok, Ensures, arith,
  slice, ◌>>=◌, ok_or, ltb, ◌==◌, not,
}
use fastsigner.Base.{
  >>=-Ensures, if-Ensures, slice_run, length-take, length-drop, take-append-drop, drop-drop, ltb→le,
  ltb→lt, Error, missing_field,
}
use fastsigner.Keys.Der.{der_header}
use fastsigner.Keys.Der.Bounds.{Header, der_header-Header, Ends}
use fastsigner.Pkcs12.{
  Tlv, tlv, one, expect_tag, children_loop, children, child, constructed, octets_all, octets_level,
  octets_loop, octets,
}

-- An element that begins at `p`, and where the next one begins: its encoding is what is between,
-- and its content is shorter.
abbrev pub At : Bytes → ℕ → Tlv × ℕ → Type 0
At b p (t, next) =
    (p + 2 ≤ next)
    × (next ≤ length b)
    × (t.raw ≡ take (next - p) (drop p b))
    × (length t.body + 2 ≤ length t.raw)

cut_out :
    (b : Bytes) (p tag s l : ℕ)
    → p + 2 ≤ s
    → s + l ≤ length b
    → Ensures (At b p) (
        slice b s (s + l) >>= λ body.
        slice b p (s + l) >>= λ raw. ok ((record { tag = tag; body = body; raw = raw }), s + l))
cut_out b p tag s l behind inside =
    let whole : s + l ≡ p + (s + l - p) = omega arith in
    let cut : slice b p (s + l) ≡ ok (take (s + l - p) (drop p b)) =
      ap (slice b p) whole ∙ slice_run b p (s + l - p) (omega arith) in
    rw (slice_run b s l inside, cut)
      (
        omega arith,
        inside,
        refl,
        omega (
          arith,
          length-take l (drop s b),
          length-drop s b,
          length-take (s + l - p) (drop p b),
          length-drop p b,
        ),
      )

pub tlv-At : (b : Bytes) (p : ℕ) → Ensures (At b p) (tlv b p)
unfolding tlv
tlv-At b p =
    >>=-Ensures (Header b p) (At b p) (der_header b p) _ (der_header-Header b p)
      (λ r e i. cut_out b p r.0 r.1 r.2 i.0 i.1)

-- The encodings, one after the other.
abbrev pub raws : List Tlv → Bytes
raws [] = []
raws (t ∷ v) = t.raw ++ raws v

-- An element whose content is shorter than a string, by its header.
abbrev pub Shorter : ℕ → Tlv → Type 0
Shorter n t = length t.body + 2 ≤ n

abbrev pub Tiled : Bytes → ℕ → List Tlv → Type 0
Tiled b p v = (raws v ≡ drop p b) × All (Shorter (length b)) v

tile_rest :
    (b : Bytes) (p next : ℕ) → p ≤ next → take (next - p) (drop p b) ++ drop next b ≡ drop p b
tile_rest b p next h =
    ap (λ x. take (next - p) (drop p b) ++ x) (sym (drop-drop p (next - p) next b (omega arith)))
    ∙ take-append-drop (next - p) (drop p b)

Shorter-raw : (b : Bytes) (p : ℕ) (t : Tlv) (next : ℕ) → At b p (t, next) → Shorter (length b) t
Shorter-raw b p t next (ahead, inside, is, small) =
    omega (arith, ap length is, length-take (next - p) (drop p b), length-drop p b)

children_loop-Tiled :
    (fuel : ℕ) (b : Bytes) (p : ℕ)
    → length b ≤ p + fuel
    → Ensures (Tiled b p) (children_loop fuel b p)
unfolding children_loop
children_loop-Tiled zero b p h =
    if-Ensures (Tiled b p) (ltb p (length b)) _ _
      (λ more. absurd (omega (arith, ltb→lt p (length b) more)))
      (λ done. (sym (drop_all b p (ltb→le p (length b) done)), tt))
children_loop-Tiled (suc fuel) b p h =
    if-Ensures (Tiled b p) (ltb p (length b)) _ _
      (λ more. >>=-Ensures (At b p) (Tiled b p) (tlv b p) _ (tlv-At b p) (λ r e at.
        >>=-Ensures (Tiled b (r.1)) (Tiled b p) (children_loop fuel b (r.1)) _
          (children_loop-Tiled fuel b (r.1) (omega (arith, at.0)))
          (λ v e' tiled. (
            ap (λ x. x ++ raws v) (at.2)
                ∙ ap (λ x. take (r.1 - p) (drop p b) ++ x) (tiled.0)
                ∙ tile_rest b p (r.1) (omega (arith, at.0)),
            (Shorter-raw b p (r.0) (r.1) at, tiled.1),
          ))))
      (λ done. (sym (drop_all b p (ltb→le p (length b) done)), tt))

-- On any byte string `children` ends with no panic, and the elements that it returns are, one after
-- the other, the whole string.
pub children-Tiled : (b : Bytes) → Ensures (Tiled b 0) (children b)
unfolding children
children-Tiled b = children_loop-Tiled (length b) b 0 (omega arith)

pub ok_or-Ends : {A : Type 0} (o : Option A) (e : Error) → Ends (ok_or o e)
ok_or-Ends none e = tt
ok_or-Ends (some a) e = tt

pub expect_tag-Ends : (t : Tlv) (tag : ℕ) (what : Bytes) → Ends (expect_tag t tag what)
unfolding expect_tag
expect_tag-Ends t tag what = if-Ensures (λ _. Unit) (not (t.tag == tag)) _ _ (λ _. tt) (λ _. tt)

pub one-Ends : (b : Bytes) (tag : ℕ) (what : Bytes) → Ends (one b tag what)
unfolding one
one-Ends b tag what =
    >>=-Ensures (At b 0) (λ _. Unit) (tlv b 0) _ (tlv-At b 0)
      (λ r e i. expect_tag-Ends (r.0) tag what)

pub child-Ends : (c : List Tlv) (i tag : ℕ) (what : Bytes) → Ends (child c i tag what)
unfolding child
child-Ends c i tag what =
    >>=-Ensures (λ _. Unit) (λ _. Unit) (ok_or (get_elem? c i) (missing_field what)) _
      (ok_or-Ends (get_elem? c i) (missing_field what)) (λ t e i. expect_tag-Ends t tag what)

octets_all-Ends :
    (inner : Tlv → Outcome Bytes) (v : List Tlv) (n : ℕ)
    → All (Shorter n) v
    → ((t : Tlv) → Shorter n t → Ends (inner t))
    → Ends (octets_all inner v)
unfolding octets_all
octets_all-Ends inner [] n h k = tt
octets_all-Ends inner (t ∷ v) n (h, hs) k =
    >>=-Ensures (λ _. Unit) (λ _. Unit) (inner t) _ (k t h)
      (λ o e u.
        >>=-Ensures (λ _. Unit) (λ _. Unit) (octets_all inner v) _ (octets_all-Ends inner v n hs k)
          (λ o e u. tt))

octets_level-Ends :
    (inner : Tlv → Outcome Bytes) (t : Tlv)
    → ((c : Tlv) → Shorter (length t.body) c → Ends (inner c))
    → Ends (octets_level inner t)
unfolding octets_level
octets_level-Ends inner t k =
    if-Ensures (λ _. Unit) (constructed t.tag == 0) _ _ (λ _. tt)
      (λ _.
        >>=-Ensures (Tiled t.body 0) (λ _. Unit) (children t.body) _ (children-Tiled t.body)
          (λ v e tiled. octets_all-Ends inner v (length t.body) (tiled.1) k))

octets_loop-Ends : (fuel : ℕ) (t : Tlv) → length t.body < fuel → Ends (octets_loop fuel t)
unfolding octets_loop
octets_loop-Ends zero t h = absurd (omega arith)
octets_loop-Ends (suc fuel) t h =
    octets_level-Ends (octets_loop fuel) t
      (λ c short. octets_loop-Ends fuel c (omega (arith, short)))

-- Chunks that hold chunks are shorter and shorter, so that `octets` ends.
pub octets-Ends : (t : Tlv) → Ends (octets t)
unfolding octets
octets-Ends t = octets_loop-Ends (suc (length t.body)) t (omega arith)

pub tlv-Ends : (b : Bytes) (p : ℕ) → Ends (tlv b p)
tlv-Ends b p = Ensures-map (tlv b p) (λ r i. tt) (tlv-At b p)

pub children-Ends : (b : Bytes) → Ends (children b)
children-Ends b = Ensures-map (children b) (λ v i. tt) (children-Tiled b)
