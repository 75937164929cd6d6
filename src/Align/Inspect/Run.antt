-- ===== src/Align/Inspect/Run.antt =====
-- The inspector over the chunks of a file, in any order.
use fastsigner.Base.{
  ℕ, zero, suc, ◌+◌, ◌-◌, ◌^◌, ◌≤◌, ◌<◌, ◌≡◌, refl, inl, inr, some, none, List, [], ◌∷◌, Bytes,
  length, take, drop, All, get_elem?, ok, Ensures, arith, ◌>>=◌, ltb, leb, ◌==◌,
}
use fastsigner.Base.{Bool-cases, ltb→le, >>=-Ensures, if-Ensures}
use fastsigner.Zip.Directory.{CdEntry}
use fastsigner.Align.Order.{insert_by_off, enumerate, sort_by_off}
use fastsigner.Align.Order.Indexed.{file_order_indexed}
use fastsigner.Align.Order.Sorted.{Rises, file_order_exact}
use fastsigner.Align.Inspect.{LfhInspector, inspector, partition_point, look_loop, inspect, finish}
use fastsigner.Align.Inspect.Reference.{
  read_all, inspect_all, Ahead, IsInspected, look_loop-IsLooked, gather-IsInspected,
}
use fastsigner.Align.Inspect.Collected.{Inside, finish-read_all, at_within}

-- A chunk lies in the file.
abbrev pub IsChunk : Bytes → ℕ × ℕ → Type 0
IsChunk file (off, n) = off + n ≤ length file

pub All-take :
    (P : ℕ × CdEntry → Type 0) (n : ℕ) (xs : List (ℕ × CdEntry)) → All P xs → All P (take n xs)
All-take P zero xs all = tt
All-take P (suc n) [] all = tt
All-take P (suc n) (x ∷ xs) (h, all) = (h, All-take P n xs all)

module _ (file : Bytes) (entries : List CdEntry) (entries_end : ℕ)
    (ends : entries_end ≤ length file) where
  abbrev pub Indexed : ℕ × CdEntry → Type 0
  Indexed (i, e) = get_elem? entries i ≡ some e

  later_headers :
      (lo file_off : ℕ) (xs : List (ℕ × CdEntry))
      → file_off ≤ lo
      → Rises entries_end lo xs
      → All Indexed xs
      → All (Ahead file entries file_off) xs
  later_headers lo file_off [] h rises all = tt
  later_headers lo file_off ((i, e) ∷ xs) h (above, room, rises) (at, all) = (
    (at, at_within file entries entries i e at, omega arith, omega arith),
    later_headers (e.lfh_off + 1) file_off xs (omega arith) rises all,
  )

  -- From the partition point on, headers begin at the limit or behind it.
  pub partition_point-Ahead :
      (lo file_off : ℕ) (xs : List (ℕ × CdEntry))
      → Rises entries_end lo xs
      → All Indexed xs
      → All (Ahead file entries file_off) (drop (partition_point file_off xs) xs)
  partition_point-Ahead lo file_off [] rises all = tt
  partition_point-Ahead lo file_off ((i, e) ∷ xs) (above, room, rises) (at, all) =
      elim (Bool-cases (ltb e.lfh_off file_off)) [
        | inl before ↦ rw before (partition_point-Ahead (e.lfh_off + 1) file_off xs rises all)
        | inr behind ↦ rw behind (
            later_headers e.lfh_off file_off ((i, e) ∷ xs) (ltb→le e.lfh_off file_off behind)
              (omega arith, room, rises) (at, all))
      ]

  inspect-IsInspected :
      (order : List (ℕ × CdEntry)) (s : LfhInspector) (off n : ℕ)
      → length file < 2 ^ 63
      → Rises entries_end 0 order
      → All Indexed order
      → IsChunk file (off, n)
      → IsInspected file entries order s
      → Ensures (IsInspected file entries order) (inspect s off (take n (drop off file)))
  unfolding inspect
  inspect-IsInspected order s off n short rises all chunk is =
      let P : LfhInspector → Type 0 = IsInspected file entries order in
      let buf = take n (drop off file) in
      let lo = partition_point off s.order in
      let hi = partition_point (off + length buf) s.order in
      let ahead : All (Ahead file entries off) (drop lo s.order) =
        rw is.same (partition_point-Ahead 0 off order rises all) in
      if-Ensures P (lo == hi) _ _ (λ empty. is)
        (λ some_there.
          >>=-Ensures _ P (look_loop off buf (take (hi - lo) (drop lo s.order))) _
            (look_loop-IsLooked file entries off n (take (hi - lo) (drop lo s.order)) chunk short
              (All-take (Ahead file entries off) (hi - lo) (drop lo s.order) ahead))
            (λ ls e1 looked. gather-IsInspected file entries order s ls [] [] is looked tt tt))

  pub inspect_all-IsInspected :
      (order : List (ℕ × CdEntry)) (chunks : List (ℕ × ℕ)) (s : LfhInspector)
      → length file < 2 ^ 63
      → Rises entries_end 0 order
      → All Indexed order
      → All (IsChunk file) chunks
      → IsInspected file entries order s
      → Ensures (IsInspected file entries order) (inspect_all file chunks s)
  inspect_all-IsInspected order [] s short rises all are is = is
  inspect_all-IsInspected order ((off, n) ∷ chunks) s short rises all (chunk, are) is =
      >>=-Ensures (IsInspected file entries order) (IsInspected file entries order)
        (inspect s off (take n (drop off file))) _
        (inspect-IsInspected order s off n short rises all chunk is)
        (λ s' e is'. inspect_all-IsInspected order chunks s' short rises all are is')

  -- Every entry's header ends in the file, since it is in the order.
  pub headers_end :
      (lo : ℕ) (xs : List (ℕ × CdEntry))
      → Rises entries_end lo xs
      → All (λ (i, e). Inside file e) xs
  headers_end lo [] rises = tt
  headers_end lo ((i, e) ∷ xs) (above, room, rises) =
      (omega arith, headers_end (e.lfh_off + 1) xs rises)

inserted-All :
    (P : ℕ × CdEntry → Type 0) (x : ℕ × CdEntry) (xs : List (ℕ × CdEntry))
    → All P (insert_by_off x xs)
    → P x × All P xs
unfolding insert_by_off
inserted-All P x [] all = all
inserted-All P x (y ∷ ys) all = elim (Bool-cases (leb x.1.lfh_off y.1.lfh_off)) [
  | inl first ↦ rw first at all
  | inr later ↦
      let (h, rest) = rw later at all in let (k, more) = inserted-All P x ys rest in (k, (h, more))
]

pub sorted-All :
    (P : ℕ × CdEntry → Type 0) (xs : List (ℕ × CdEntry)) → All P (sort_by_off xs) → All P xs
unfolding sort_by_off
sorted-All P [] all = tt
sorted-All P (x ∷ xs) all =
    let (h, rest) = inserted-All P x (sort_by_off xs) all in (h, sorted-All P xs rest)

pub enumerated-All :
    (P : CdEntry → Type 0) (i : ℕ) (es : List CdEntry)
    → All (λ (i, e). P e) (enumerate i es)
    → All P es
unfolding enumerate
enumerated-All P i [] all = tt
enumerated-All P i (e ∷ es) (h, all) = (h, enumerated-All P (suc i) es all)

-- In whatever order the inspector sees the chunks of a file, it ends with no panic, and if it returns
-- the lengths of the headers they are those that are read from the file, one entry after the other,
-- and that reading does not fail.
pub inspector-read_all :
    (file : Bytes) (entries : List CdEntry) (entries_end : ℕ) (chunks : List (ℕ × ℕ))
    → entries_end ≤ length file
    → length file < 2 ^ 63
    → All (IsChunk file) chunks
    → Ensures
        (λ ls. read_all file entries ≡ ok ls)
        (inspector entries entries_end >>= λ s.
          inspect_all file chunks s >>= λ s'. finish s' file entries)
unfolding inspector
inspector-read_all file entries entries_end chunks ends short are =
    let order = sort_by_off (enumerate 0 entries) in
    elim ((file_order_exact entries entries_end).1) [
      | inl (run, rises) ↦
          let inside = enumerated-All (Inside file) 0 entries (
            sorted-All (λ (i, e). Inside file e) (enumerate 0 entries)
              (headers_end file entries entries_end ends 0 order rises)) in
          let start : LfhInspector = record {
            order = order;
            found = [];
            straddlers = [];
            error = none;
          } in
          rw run (
            >>=-Ensures (IsInspected file entries order) (λ ls. read_all file entries ≡ ok ls)
              (inspect_all file chunks start) _
              (inspect_all-IsInspected file entries entries_end ends order chunks start short rises
                (file_order_indexed entries) are (record { same = refl; lens = tt; within = tt }))
              (λ s e is. finish-read_all file entries order s short inside is))
      | inr (x, run, bad) ↦ rw run tt
    ]
