-- ===== src/Align/Plan/Whole.antt =====
-- What a round of the loop that plans a rewrite adds to the plans.
use fastsigner.Base.{
  append-nil, All-append, ℕ, ◌+◌, ◌≤◌, ◌≡◌, refl, sym, ap, ◌∙◌, false, some, List, [], ◌∷◌, ◌++◌,
  Bytes, length, take, drop, get_elem?, ok, Ensures, arith, ltb,
}
use fastsigner.Base.{known_value, >>=-Ensures, if-Ensures, ltb→le, field, field-take, field-drop}
use fastsigner.Keys.Der.Bounds.{>>=-Then}
use fastsigner.Zip.Directory.{CdEntry}
use fastsigner.Zip.Policy.{EntryPolicy, output, skip, gap, entry_name, required_alignment}
use fastsigner.Align.Order.{lfh_len}
use fastsigner.Align.Check.{Policy}
use fastsigner.Align.Window.{HeaderReader, prefix}
use fastsigner.Align.Window.Reads.{IsWindow, IsPrefix, prefix-IsPrefix}
use fastsigner.Align.Plan.{
  Plan, Planning, descriptor_len, new_hdr, plan_output, plan_kept, plan_record, is_gap,
}
use fastsigner.Align.Plan.Headers.{IsNamed, entry_name-Ends, IsHeader, new_hdr-IsHeader}
use fastsigner.Align.Plan.Tiles.{
  Tiles-snoc, Rising-snoc, Rising-further, indexes-snoc, required_alignment-Ends, IsPlan, IsPlanned,
}

-- The entries that are written, in the order of the list.
abbrev pub written : EntryPolicy → ℕ → List ℕ
written output i = i ∷ []
written skip i = []
written gap i = []

module _ (file cd : Bytes) (entries : List CdEntry) (policy : Policy) (entries_end : ℕ) where
  -- The plans up to what is consumed.
  abbrev pub Planned : List ℕ → Planning → Type 0
  Planned is s = IsPlanned file cd entries policy entries_end s s.consumed is

  plan_output-Planned :
      (i : ℕ) (e : CdEntry) (p : Bytes) (src_len : ℕ) (s : Planning) (is : List ℕ)
      → IsPlanned file cd entries policy entries_end s e.lfh_off is
      → get_elem? entries i ≡ some e
      → IsNamed cd e
      → p ≡ take (length p) (drop e.lfh_off file)
      → length p ≡ lfh_len + field 2 p 26 + field 2 p 28
      → e.compressed_size ≤ src_len
      → e.lfh_off + length p + src_len ≤ entries_end
      → s.consumed ≡ e.lfh_off + length p + src_len
      → Ensures
          (Planned (is ++ i ∷ []))
          (plan_output cd policy i e p (e.lfh_off + length p) src_len s)
  unfolding plan_output
  plan_output-Planned i e p src_len s is planned there named old whole large room done =
      let P : Planning → Type 0 = Planned (is ++ i ∷ []) in
      >>=-Ensures (λ rule. Unit × (required_alignment cd e policy.lib_page_size ≡ ok rule)) P
        (required_alignment cd e policy.lib_page_size) _
        (known_value (λ _. Unit) (required_alignment cd e policy.lib_page_size)
          (required_alignment-Ends cd e policy.lib_page_size named))
        (λ rule e1 required.
          >>=-Ensures (IsHeader p s.cursor rule) P (new_hdr cd e p s.cursor rule) _
            (new_hdr-IsHeader cd e p s.cursor rule named whole)
            (λ hdr e2 header.
              let plan : Plan = record {
                idx = some i;
                src_off = e.lfh_off + length p;
                src_len = src_len;
                new_off = s.cursor;
                hdr = hdr;
              } in
              record {
                window = planned.window;
                end_is = planned.end_is;
                within = omega (arith, room, done);
                tiles =
                    Tiles-snoc 0 s.plans plan (s.cursor + (length hdr + src_len)) planned.tiles
                      refl;
                rising =
                    Rising-snoc 0 s.plans plan e.lfh_off s.consumed planned.rising (omega arith)
                      (omega (arith, done));
                each =
                    All-append (IsPlan file cd entries policy entries_end) s.plans (plan ∷ [])
                      planned.each ((e, p, rule, there, old, whole, refl, large, e1, header), tt);
                names = indexes-snoc s.plans plan ∙ ap (λ l. l ++ i ∷ []) planned.names;
              }))

  pub skipped :
      (s : Planning) (off n : ℕ) (is : List ℕ)
      → IsPlanned file cd entries policy entries_end s off is
      → off ≤ s.consumed
      → s.consumed ≤ entries_end
      → Planned (is ++ []) (record s { dropped = n })
  skipped s off n is planned h k = record {
    window = planned.window;
    end_is = planned.end_is;
    within = k;
    tiles = planned.tiles;
    rising = Rising-further 0 s.plans off s.consumed planned.rising h;
    each = planned.each;
    names = planned.names ∙ sym (append-nil is);
  }

  plan_kept-Planned :
      (what : EntryPolicy) (i : ℕ) (e : CdEntry) (p : Bytes) (src_len : ℕ) (s : Planning)
      (is : List ℕ)
      → is_gap what ≡ false
      → IsPlanned file cd entries policy entries_end s e.lfh_off is
      → get_elem? entries i ≡ some e
      → IsNamed cd e
      → p ≡ take (length p) (drop e.lfh_off file)
      → length p ≡ lfh_len + field 2 p 26 + field 2 p 28
      → e.compressed_size ≤ src_len
      → e.lfh_off + length p + src_len ≤ entries_end
      → s.consumed ≡ e.lfh_off + length p + src_len
      → Ensures
          (Planned (is ++ written what i))
          (plan_kept cd policy what i e p (e.lfh_off + length p) src_len s)
  unfolding plan_kept
  plan_kept-Planned output i e p src_len s is no_gap planned there named old whole large room done =
      plan_output-Planned i e p src_len s is planned there named old whole large room done
  plan_kept-Planned skip i e p src_len s is no_gap planned there named old whole large room done =
      skipped s e.lfh_off (s.dropped + 1) is planned (omega (arith, done))
        (omega (arith, done, room))
  plan_kept-Planned gap i e p src_len s is no_gap planned there named old whole large room done =
      absurd (cc)

  -- The header's fields are those of its prefix.
  own_fields :
      (p : Bytes) (off : ℕ)
      → p ≡ take (length p) (drop off file)
      → length p ≡ lfh_len + field 2 file (off + 26) + field 2 file (off + 28)
      → length p ≡ lfh_len + field 2 p 26 + field 2 p 28
  own_fields p off old whole =
      let a : field 2 p 26 ≡ field 2 file (off + 26) =
        ap (λ b. field 2 b 26) old
        ∙ field-take 2 (length p) (drop off file) 26 (omega (arith, whole))
        ∙ field-drop 2 off file 26 in
      let b : field 2 p 28 ≡ field 2 file (off + 28) =
        ap (λ b. field 2 b 28) old
        ∙ field-take 2 (length p) (drop off file) 28 (omega (arith, whole))
        ∙ field-drop 2 off file 28 in
      omega (arith, whole, a, b)

  moved_on :
      (s : Planning) (off consumed : ℕ) (hdrs : HeaderReader) (is : List ℕ)
      → IsPlanned file cd entries policy entries_end s off is
      → IsWindow file hdrs
      → hdrs.entries_end ≡ entries_end
      → IsPlanned file cd entries policy entries_end
          (record s { consumed = consumed; hdrs = hdrs })
          off
          is
  moved_on s off consumed hdrs is planned window end = record {
    window = window;
    end_is = end;
    within = planned.within;
    tiles = planned.tiles;
    rising = planned.rising;
    each = planned.each;
    names = planned.names;
  }

  pub plan_record-Planned :
      (what : EntryPolicy) (i : ℕ) (e : CdEntry) (s : Planning) (is : List ℕ)
      → is_gap what ≡ false
      → IsPlanned file cd entries policy entries_end s e.lfh_off is
      → get_elem? entries i ≡ some e
      → IsNamed cd e
      → e.lfh_off + lfh_len ≤ entries_end
      → Ensures (Planned (is ++ written what i)) (plan_record file cd entries_end policy what i e s)
  unfolding plan_record
  plan_record-Planned what i e s is no_gap planned there named room =
      let P : Planning → Type 0 = Planned (is ++ written what i) in
      >>=-Ensures (IsPrefix file (s.hdrs).entries_end e.lfh_off) P (prefix file s.hdrs e.lfh_off) _
        (prefix-IsPrefix file s.hdrs e.lfh_off planned.window (omega (arith, room, planned.end_is)))
        (λ r e1 pre.
          let p = r.0 in
          let src_off = e.lfh_off + length p in
          let n =
            e.compressed_size + descriptor_len file entries_end e (src_off + e.compressed_size) in
          if-Ensures P (ltb entries_end (src_off + n)) _ _
            (λ over. >>=-Then P (entry_name e cd) _ (entry_name-Ends cd e named) (λ name. tt))
            (λ within.
              plan_kept-Planned what i e p n (record s { consumed = src_off + n; hdrs = r.1 }) is
                no_gap
                (moved_on s e.lfh_off (src_off + n) r.1 is planned pre.0 (pre.1 ∙ planned.end_is))
                there named pre.2 (own_fields p e.lfh_off pre.2 pre.3) (omega arith)
                (ltb→le entries_end (src_off + n) within) refl))
