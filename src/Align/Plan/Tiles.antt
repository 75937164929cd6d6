-- ===== src/Align/Plan/Tiles.antt =====
-- The plans of a rewrite fill the new entries section, and take the input from front to end.
use fastsigner.Base.{
  field, All-append, append_assoc, append-nil, Bool-cases, ℕ, ◌+◌, ◌-◌, ◌≤◌, ◌≡◌, refl, sym, ap,
  ◌∙◌, inl, inr, Option, some, none, List, [], ◌∷◌, ◌++◌, Bytes, length, take, drop, All, get_elem?,
  ok, arith, ltb, not,
}
use fastsigner.Keys.Der.Bounds.{Ends, >>=-Ends, if-Ends}
use fastsigner.Zip.Directory.{CdEntry}
use fastsigner.Zip.Policy.{entry_name, is_dir, is_stored, required_alignment}
use fastsigner.Align.Check.{Policy}
use fastsigner.Align.Window.Reads.{IsWindow}
use fastsigner.Align.Plan.{lfh_len, Plan, out_end, Planning, with_gap}
use fastsigner.Align.Plan.Headers.{IsNamed, entry_name-Ends, IsHeader}

-- The plans, one after the other from `c` on, end at `e`.
abbrev pub Tiles : ℕ → List Plan → ℕ → Type 0
Tiles c [] e = c ≡ e
Tiles c (p ∷ ps) e = (p.new_off ≡ c) × Tiles (out_end p) ps e

-- What they take of the input rises from `c` on, and ends at `e` or before.
abbrev pub Rising : ℕ → List Plan → ℕ → Type 0
Rising c [] e = c ≤ e
Rising c (p ∷ ps) e = (c ≤ p.src_off) × Rising (p.src_off + p.src_len) ps e

-- The entries that have a record.
abbrev pub indexes : List Plan → List ℕ
indexes [] = []
indexes (p ∷ ps) = elim p.idx [ none ↦ indexes ps | some i ↦ i ∷ indexes ps ]

pub Tiles-snoc :
    (c : ℕ) (ps : List Plan) (p : Plan) (e : ℕ)
    → Tiles c ps p.new_off
    → out_end p ≡ e
    → Tiles c (ps ++ p ∷ []) e
Tiles-snoc c [] p e h k = (sym h, k)
Tiles-snoc c (q ∷ ps) p e (h, hs) k = (h, Tiles-snoc (out_end q) ps p e hs k)

pub Rising-snoc :
    (c : ℕ) (ps : List Plan) (p : Plan) (e e' : ℕ)
    → Rising c ps e
    → e ≤ p.src_off
    → p.src_off + p.src_len ≤ e'
    → Rising c (ps ++ p ∷ []) e'
Rising-snoc c [] p e e' h k l = (omega arith, l)
Rising-snoc c (q ∷ ps) p e e' (h, hs) k l =
    (h, Rising-snoc (q.src_off + q.src_len) ps p e e' hs k l)

pub Rising-further : (c : ℕ) (ps : List Plan) (e e' : ℕ) → Rising c ps e → e ≤ e' → Rising c ps e'
Rising-further c [] e e' h k = omega arith
Rising-further c (q ∷ ps) e e' (h, hs) k = (h, Rising-further (q.src_off + q.src_len) ps e e' hs k)

-- What one more plan adds.
abbrev pub index_of : Option ℕ → List ℕ
index_of none = []
index_of (some i) = i ∷ []

front_index :
    (o : Option ℕ) (is : List ℕ) → (elim o [ none ↦ is | some i ↦ i ∷ is ]) ≡ index_of o ++ is
front_index none is = refl
front_index (some i) is = refl

pub indexes-snoc :
    (ps : List Plan) (p : Plan) → indexes (ps ++ p ∷ []) ≡ indexes ps ++ index_of p.idx
indexes-snoc [] p = front_index p.idx [] ∙ append-nil (index_of p.idx)
indexes-snoc (q ∷ ps) p =
    front_index q.idx (indexes (ps ++ p ∷ []))
    ∙ ap (λ r. index_of q.idx ++ r) (indexes-snoc ps p)
    ∙ sym (append_assoc (index_of q.idx) (indexes ps) (index_of p.idx))
    ∙ ap (λ r. r ++ index_of p.idx) (sym (front_index q.idx (indexes ps)))

pub required_alignment-Ends :
    (cd : Bytes) (e : CdEntry) (n : ℕ) → IsNamed cd e → Ends (required_alignment cd e n)
unfolding required_alignment is_dir
required_alignment-Ends cd e n named = if-Ends (not (is_stored e)) _ _ tt (
    >>=-Ends (is_dir e cd) _
      (>>=-Ends (entry_name e cd) _ (entry_name-Ends cd e named) (λ name. tt))
      (λ dir.
        if-Ends dir _ _ tt
          (>>=-Ends (entry_name e cd) _ (entry_name-Ends cd e named) (λ name. tt))))

module _ (file cd : Bytes) (entries : List CdEntry) (policy : Policy) (entries_end : ℕ) where
  -- A gap is copied as it is; a record is the entry's data behind a header of its own in the place of
  -- the one in the file.
  abbrev pub PlanOf : Plan → Option ℕ → Type 0
  PlanOf p none = p.hdr ≡ []
  PlanOf p (some i) =
      (e : CdEntry) × (old : Bytes) × (rule : ℕ) × (get_elem? entries i ≡ some e)
      × (old ≡ take (length old) (drop e.lfh_off file))
      × (length old ≡ lfh_len + field 2 old 26 + field 2 old 28)
      × (p.src_off ≡ e.lfh_off + length old)
      × (e.compressed_size ≤ p.src_len)
      × (required_alignment cd e policy.lib_page_size ≡ ok rule)
      × IsHeader old p.new_off rule p.hdr

  abbrev pub IsPlan : Plan → Type 0
  IsPlan p = PlanOf p p.idx

  -- The plans so far, of the input up to `upto`.
  pub record IsPlanned (s : Planning) (upto : ℕ) (is : List ℕ) : Type 0 where
    pub window : IsWindow file s.hdrs
    pub end_is : s.hdrs.entries_end ≡ entries_end
    pub within : upto ≤ entries_end
    pub tiles : Tiles 0 s.plans s.cursor
    pub rising : Rising 0 s.plans upto
    pub each : All IsPlan s.plans
    pub names : indexes s.plans ≡ is

  pub with_gap-IsPlanned :
      (s : Planning) (off : ℕ) (is : List ℕ)
      → IsPlanned s s.consumed is
      → s.consumed ≤ off
      → off ≤ entries_end
      → IsPlanned (with_gap s off) off is
  unfolding with_gap
  with_gap-IsPlanned s off is planned h k =
      let p : Plan = record {
        idx = none;
        src_off = s.consumed;
        src_len = off - s.consumed;
        new_off = s.cursor;
        hdr = [];
      } in
      elim (Bool-cases (ltb s.consumed off)) [
        | inl more ↦ rw more (record {
          window = planned.window;
          end_is = planned.end_is;
          within = k;
          tiles =
              Tiles-snoc 0 s.plans p (s.cursor + (off - s.consumed)) planned.tiles (omega arith);
          rising =
              Rising-snoc 0 s.plans p s.consumed off planned.rising (omega arith) (omega arith);
          each = All-append IsPlan s.plans (p ∷ []) planned.each (refl, tt);
          names = indexes-snoc s.plans p ∙ append-nil (indexes s.plans) ∙ planned.names;
        })
        | inr none_left ↦ rw none_left (record {
          window = planned.window;
          end_is = planned.end_is;
          within = k;
          tiles = planned.tiles;
          rising = Rising-further 0 s.plans s.consumed off planned.rising h;
          each = planned.each;
          names = planned.names;
        })
      ]

  pub with_gap-hdrs : (s : Planning) (off : ℕ) → (with_gap s off).hdrs ≡ s.hdrs
  unfolding with_gap
  with_gap-hdrs s off = elim (Bool-cases (ltb s.consumed off)) [
    | inl more ↦ rw more refl
    | inr less ↦ rw less refl
  ]
