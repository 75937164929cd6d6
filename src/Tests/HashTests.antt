-- ===== src/Tests/HashTests.antt =====
-- A toy hash and a toy compression function.
use fastsigner.Base.{
  ◌>>=◌, ℕ, ◌+◌, ◌/◌, ◌%◌, ◌≤◌, ◌≡◌, refl, some, List, [], ◌∷◌, ◌++◌, Bytes, length, replicate, ok,
  arith, le_bytes, slice, put,
}
use fastsigner.Digest.{
  Algorithm, Source, source_file, source_bytes, Claimed, claim, total_chunks, finish_digest,
  content_digest, chunk_count, len, locate, chunk, inspected, record_digest, hash_chunk,
}
use fastsigner.Digest.Schedule.{
  IsHash, State, start, all_of, claims, records, Reaches, here, there, reference,
}
use fastsigner.Digest.Schedule.Threads.{content_digest_any_schedule}
use fastsigner.Digest.Schedule.Alone.{content_digest_alone}
use fastsigner.Sha256.{Sha256, new, h0, state_bytes, compress_blocks, update, finish, update2, gap}
use fastsigner.Sha256.Absorb.{Absorbed, update-Absorbed}
use fastsigner.Sha256.Finish.{Padded, feed, joined, finish_of_updates, update2-Absorbed}

-- The length of the message, in one byte.
abbrev toy : Algorithm
toy = record { output_len = 1; digest = λ m. length m % 256 ∷ [] }

toy-IsHash : IsHash toy
toy-IsHash = (λ m. refl, omega arith)

abbrev sources : List Source
sources = source_file 8 (1 ∷ 2 ∷ []) (0 ∷ []) ∷ source_bytes [] ∷ source_bytes (3 ∷ []) ∷ []

abbrev first : Claimed
first = record { k = 0; parts = (1 ∷ 2 ∷ [], 0 ∷ []); file_part = 1 ∷ 2 ∷ [] }

abbrev second : Claimed
second = record { k = 1; parts = (3 ∷ [], []); file_part = [] }

claims_first : claim sources 0 ≡ ok (some (first, (8, 1 ∷ 2 ∷ []) ∷ []))
unfolding claim total_chunks locate chunk_count len chunk slice inspected
claims_first = refl

claims_second : claim sources 1 ≡ ok (some (second, []))
unfolding claim total_chunks locate chunk_count len chunk slice inspected
claims_second = refl

-- The array of 64 bytes that a digest of one byte is copied to.
abbrev array : ℕ → Bytes
array d = d ∷ replicate 63 0

records_first : record_digest 0 (hash_chunk toy ((1 ∷ 2 ∷ []) ∷ (0 ∷ []) ∷ [])) ≡ ok (0, array 8)
unfolding record_digest hash_chunk le_bytes put
records_first = refl

records_second : record_digest 1 (hash_chunk toy ((3 ∷ []) ∷ [] ∷ [])) ≡ ok (1, array 6)
unfolding record_digest hash_chunk le_bytes put
records_second = refl

-- Two workers: both claim, and the one that claimed last is the first to be done.
abbrev claimed_one : State
claimed_one = record { next = 1; in_flight = first ∷ []; outs = [] ∷ [] ∷ [] }

abbrev claimed_both : State
claimed_both = record { next = 2; in_flight = second ∷ first ∷ []; outs = [] ∷ [] ∷ [] }

abbrev one_done : State
one_done = record { next = 2; in_flight = first ∷ []; outs = [] ∷ ((1, array 6) ∷ []) ∷ [] }

abbrev both_done : State
both_done = record {
  next = 2;
  in_flight = [];
  outs = ((0, array 8) ∷ []) ∷ ((1, array 6) ∷ []) ∷ [];
}

runs_apart : Reaches toy sources (start 2) both_done
runs_apart =
    there (start 2) one_done both_done
      (there (start 2) claimed_both one_done
        (there (start 2) claimed_one claimed_both
          (there (start 2) (start 2) claimed_one (here (start 2))
            (claims 0 [] ([] ∷ [] ∷ []) first ((8, 1 ∷ 2 ∷ []) ∷ []) claims_first))
          (claims 1 (first ∷ []) ([] ∷ [] ∷ []) second [] claims_second))
        (records 2 [] (first ∷ []) ([] ∷ []) [] second [] (1, array 6) records_second))
      (records 2 [] [] [] (((1, array 6) ∷ []) ∷ []) first [] (0, array 8) records_first)

all_claimed : total_chunks sources ≤ 2
unfolding total_chunks chunk_count len
all_claimed = omega arith

schedule_example : finish_digest toy sources (all_of both_done.outs) ≡ ok (reference toy sources)
schedule_example =
    content_digest_any_schedule toy sources 2 both_done toy-IsHash runs_apart all_claimed refl

alone_example : content_digest toy sources ≡ ok (reference toy sources)
alone_example = content_digest_alone toy sources toy-IsHash

-- The state is the sum of the first bytes of the blocks.
abbrev add_first : List ℕ → Bytes → List ℕ
add_first (x ∷ s) (b ∷ block) = (x + b) ∷ s
add_first s block = s

abbrev updates : List Bytes
updates = replicate 70 1 ∷ [] ∷ replicate 60 2 ∷ []

finish_example :
    (p : Bytes) × Padded (joined updates) p
    × ((feed add_first new updates >>= finish add_first)
        ≡ ok (state_bytes (compress_blocks add_first (length p / 64) h0 p)))
finish_example = finish_of_updates add_first updates (omega arith)

new_took : Absorbed add_first new []
new_took = (
  record {
    n = 0;
    whole = [];
    rest = [];
    split = refl;
    whole_len = refl;
    rest_len = omega arith;
    buf_len = refl;
    buf_is = refl;
    buf_size = refl;
    state_is = refl;
  },
  refl,
)

update_example :
    (h : Sha256) × (update add_first new (1 ∷ 2 ∷ []) ≡ ok h)
    × Absorbed add_first h ([] ++ 1 ∷ 2 ∷ [])
update_example = update-Absorbed add_first new [] (1 ∷ 2 ∷ []) new_took

no_gap : gap new ≡ 0
unfolding gap
no_gap = refl

update2_example :
    (a : Sha256) × (b : Sha256) × (update2 add_first new new (replicate 64 1) (replicate 64 2)
      ≡ ok (a, b))
    × Absorbed add_first a ([] ++ replicate 64 1)
    × Absorbed add_first b ([] ++ replicate 64 2)
update2_example =
    update2-Absorbed add_first new new [] [] (replicate 64 1) (replicate 64 2) new_took new_took
      no_gap no_gap refl refl
