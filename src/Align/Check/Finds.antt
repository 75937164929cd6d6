-- ===== src/Align/Check/Finds.antt =====
-- What `check` reports of a list of entries.
use mathlib.Core.List.{Perm}
use fastsigner.Base.{
  err, Error, ◌>>=◌, >>=-Returns, if-Returns, Returns-ok, Returns, ◌>>=◌, >>=-eq-ok, ltb→le, ltb→lt,
  ℕ, ◌+◌, ◌%◌, ◌≤◌, ◌<◌, ◌≡◌, refl, List, [], ◌∷◌, ◌++◌, arith, Bytes, true, false, not, ◌&&◌, ◌⊎◌,
  ltb, ◌==◌, ok, inl, inr, index, append_assoc, append-nil, sym, subst,
}
use fastsigner.Zip.Directory.{CdEntry}
use fastsigner.Zip.Policy.{required_alignment, entry_name}
use fastsigner.Align.Order.{enumerate, sort_by_off}
use fastsigner.Align.Order.Sorted.{Rises, file_order_exact}
use fastsigner.Align.Check.{
  err, LfhLens, Policy, Misaligned, limit_of, check_entry, check_loop, check,
}

-- The judgement on one entry, given where the next header begins: its data begins no later than
-- that, and it is reported exactly when the policy wants an alignment that it does not have.
abbrev pub Judges : Bytes → Policy → List LfhLens → ℕ → ℕ × CdEntry → List Misaligned → Type 0
Judges cd policy lens limit (i, e) found =
    (l : LfhLens) × (req : ℕ) × (index lens i ≡ ok l)
    × (required_alignment cd e policy.lib_page_size ≡ ok req)
    × (e.lfh_off + (30 + l.0 + l.1) ≤ limit)
    × (((found ≡ []) × (1 < req → (e.lfh_off + (30 + l.0 + l.1)) % req ≡ 0))
        ⊎ ((m : Misaligned) × (found ≡ m ∷ [])
            × (1 < req)
            × (¬ ((e.lfh_off + (30 + l.0 + l.1)) % req ≡ 0))
            × (m.data_off ≡ e.lfh_off + (30 + l.0 + l.1))
            × (m.required ≡ req)
            × (entry_name e cd ≡ ok m.name)))

-- The reports on a list in file order.
abbrev pub Reports :
    Bytes → Policy → List LfhLens → ℕ → List (ℕ × CdEntry) → List Misaligned → Type 0
Reports cd policy lens entries_end [] out = out ≡ []
Reports cd policy lens entries_end (x ∷ xs) out =
    (found : List Misaligned) × (rest : List Misaligned) × (out ≡ found ++ rest)
    × Judges cd policy lens (limit_of entries_end xs) x found
    × Reports cd policy lens entries_end xs rest

aligned_when : (req off : ℕ) → (ltb 1 req && not (off % req == 0)) ≡ false → 1 < req → off % req ≡ 0
aligned_when req off e h = ground arith

misaligned_when :
    (req off : ℕ)
    → (ltb 1 req && not (off % req == 0)) ≡ true
    → (ltb 1 req ≡ true) × (¬ (off % req ≡ 0))
misaligned_when req off h = ground arith

check_entry-Judges :
    (cd : Bytes) (lens : List LfhLens) (limit : ℕ) (policy : Policy) (i : ℕ) (x : CdEntry)
    → Returns (Judges cd policy lens limit (i, x)) (check_entry cd lens limit policy i x)
unfolding check_entry
check_entry-Judges cd lens limit policy i x =
    let P : List Misaligned → Type 0 = Judges cd policy lens limit (i, x) in
    >>=-Returns P (index lens i) _ (λ l len.
      if-Returns P (ltb limit (x.lfh_off + (30 + l.0 + l.1))) _ _
        (λ over. >>=-Returns P (entry_name x cd) _ (λ name got. tt))
        (λ within. >>=-Returns P (required_alignment cd x policy.lib_page_size) _ (λ req got.
          let room = ltb→le limit (x.lfh_off + (30 + l.0 + l.1)) within in
          if-Returns P (ltb 1 req && not ((x.lfh_off + (30 + l.0 + l.1)) % req == 0)) _ _
            (λ bad. >>=-Returns P (entry_name x cd) _ (λ name named. (
              l,
              req,
              len,
              got,
              room,
              inr (
                _,
                refl,
                ltb→lt 1 req (misaligned_when req _ bad).0,
                (misaligned_when req _ bad).1,
                refl,
                refl,
                named,
              ),
            )))
            (λ fine. (l, req, len, got, room, inl (refl, aligned_when req _ fine))))))

ok_injective : {x y : List Misaligned} → ok x ≡ ok y → y ≡ x
ok_injective e = cc

ok_out : (bad out : List Misaligned) → ok bad ≡ ok out → out ≡ bad ++ []
ok_out bad out e = rw append-nil (ok_injective e)

err_is_not_ok : {A : Type 0} {x : Error} {a : A} → err x ≡ ok a → ⊥
err_is_not_ok e = cc

check_loop-Reports :
    (order : List (ℕ × CdEntry)) (cd : Bytes) (lens : List LfhLens) (entries_end : ℕ)
    (policy : Policy) (bad out : List Misaligned)
    → check_loop cd lens entries_end policy bad order ≡ ok out
    → (more : List Misaligned) × (out ≡ bad ++ more) × Reports cd policy lens entries_end order more
unfolding check_loop
check_loop-Reports [] cd lens entries_end policy bad out e = ([], ok_out bad out e, refl)
check_loop-Reports ((i, x) ∷ order) cd lens entries_end policy bad out e =
    let (found, now, e1) =
      >>=-eq-ok (check_entry cd lens (limit_of entries_end order) policy i x) _ e in
    let judged =
      Returns-ok (Judges cd policy lens (limit_of entries_end order) (i, x)) _ found
        (check_entry-Judges cd lens (limit_of entries_end order) policy i x) now in
    let (more, eq, r) = check_loop-Reports order cd lens entries_end policy (bad ++ found) out e1 in
    (found ++ more, rw eq (append_assoc bad found more), (found, more, refl, judged, r))

-- Where `check` returns a list, it names, in file order, exactly the entries whose data is not on the multiple
-- that the policy requires, each with its name, the offset of its data and the multiple; the file
-- order holds every entry once, its headers rise inside the entries section, and no data begins
-- after the next header.
pub check-Reports :
    (cd : Bytes) (entries : List CdEntry) (lens : List LfhLens) (entries_end : ℕ) (policy : Policy)
    (out : List Misaligned)
    → check cd entries lens entries_end policy ≡ ok out
    → Perm (sort_by_off (enumerate 0 entries)) (enumerate 0 entries)
      × Rises entries_end 0 (sort_by_off (enumerate 0 entries))
      × Reports cd policy lens entries_end (sort_by_off (enumerate 0 entries)) out
unfolding check
check-Reports cd entries lens entries_end policy out e =
    let (perm, decides) = file_order_exact entries entries_end in
    elim decides [
      | inl (run, r) ↦
          let (more, eq, s) =
            check_loop-Reports (sort_by_off (enumerate 0 entries)) cd lens entries_end policy [] out
              (subst (λ m. (m >>= λ order. check_loop cd lens entries_end policy [] order) ≡ ok out)
                run e) in
          (
            perm,
            r,
            subst (Reports cd policy lens entries_end (sort_by_off (enumerate 0 entries))) (sym eq)
                s,
          )
      | inr (x, run, bad) ↦ absurd (
          err_is_not_ok (
            subst (λ m. (m >>= λ order. check_loop cd lens entries_end policy [] order) ≡ ok out)
              run e))
    ]
