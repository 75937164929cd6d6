-- ===== src/Digest.antt =====
-- src/digest.rs: the content digest over 1 MiB chunks. A hash of ring is a parameter, `Algorithm`:
-- a context that takes updates and is finished is the hash of what it took.
pub mod Chunks
pub mod Assemble
pub mod Schedule
use fastsigner.Base.{
  ℕ, zero, suc, ◌+◌, ◌-◌, ◌*◌, ◌/◌, min, List, [], ◌∷◌, ◌++◌, Option, some, none, Bytes, length,
  take, drop, leb, replicate, if◌then◌else◌, Outcome, ok, panic, out_of_fuel, ◌>>=◌, slice, put,
  le_bytes, Bool, true, false,
}

pub record Algorithm : Type 0 where
  pub output_len : ℕ
  pub digest : Bytes → Bytes

abbrev pub chunk_size : ℕ
chunk_size = 1048576

-- `body` is the source's field `data`.
pub record Source : Type 0 where
  pub file_off : Option ℕ
  pub body : Bytes
  pub tail : Bytes

-- `Source::file` and `Source::bytes`.
abbrev pub source_file : ℕ → Bytes → Bytes → Source
source_file off body tail = record { file_off = some off; body = body; tail = tail }

abbrev pub source_bytes : Bytes → Source
source_bytes b = record { file_off = none; body = b; tail = [] }

unfoldable pub len : Source → ℕ
len s = length s.body + length s.tail

unfoldable pub chunk_count : Source → ℕ
chunk_count s = (len s + chunk_size - 1) / chunk_size

-- The two parts of chunk `k`; a slice whose ends cross would panic.
unfoldable pub chunk : Source → ℕ → Outcome (Bytes × Bytes)
chunk s k = do
  let start = k * chunk_size
  let end = min (k * chunk_size + chunk_size) (len s)
  let d = length s.body
  body ← slice s.body (min start d) (min end d)
  tail ← slice s.tail (start - d) (end - d)
  ok (body, tail)

abbrev pub join : List Bytes → Bytes
join [] = []
join (p ∷ ps) = p ++ join ps

unfoldable pub hash_chunk : Algorithm → List Bytes → Bytes
hash_chunk alg parts = alg.digest (0xa5 ∷ le_bytes 4 (length (join parts)) ++ join parts)

-- `data.chunks(CHUNK_SIZE)`; the length is fuel enough.
abbrev pub chunks_loop : ℕ → Bytes → List Bytes
chunks_loop zero body = []
chunks_loop (suc fuel) [] = []
chunks_loop (suc fuel) (b ∷ body) =
    take chunk_size (b ∷ body) ∷ chunks_loop fuel (drop chunk_size (b ∷ body))

abbrev pub chunks : Bytes → List Bytes
chunks body = chunks_loop (length body) body

unfoldable pub chunk_digests_loop : Algorithm → ℕ → Bytes → List Bytes → ℕ × Bytes
chunk_digests_loop alg n out [] = (n, out)
chunk_digests_loop alg n out (c ∷ cs) =
    chunk_digests_loop alg (n + 1) (out ++ hash_chunk alg (c ∷ [])) cs

unfoldable pub chunk_digests_of : Algorithm → Bytes → ℕ × Bytes
chunk_digests_of alg body = chunk_digests_loop alg 0 [] (chunks body)

unfoldable pub top_digest : Algorithm → ℕ → List Bytes → Bytes
top_digest alg count parts = alg.digest (0x5a ∷ le_bytes 4 count ++ join parts)

-- The sum of the counts of chunks.
unfoldable pub total_chunks : List Source → ℕ
total_chunks [] = 0
total_chunks (s ∷ sources) = chunk_count s + total_chunks sources

-- `claim`'s search for the source that holds global chunk `idx`, and its index there.
unfoldable pub locate : List Source → ℕ → Outcome (Source × ℕ)
locate [] idx = panic
locate (s ∷ sources) idx =
    let rest = locate sources (idx - chunk_count s) in
    if leb (chunk_count s) idx then rest else ok (s, idx)

-- A claimed chunk: its global index, its parts, and the part of it that is in the file.
pub record Claimed : Type 0 where
  pub k : ℕ
  pub parts : Bytes × Bytes
  pub file_part : Bytes

-- The file part of a chunk, which only a source with an offset has.
abbrev pub file_part_of : Option ℕ → Bytes → Bytes
file_part_of none body = []
file_part_of (some off) body = body

-- What `inspect` is called with before the chunk is hashed.
unfoldable pub inspected : Option ℕ → ℕ → Bytes → List (ℕ × Bytes)
inspected none idx body = []
inspected (some off) idx [] = []
inspected (some off) idx (b ∷ body) = (off + idx * chunk_size, b ∷ body) ∷ []

-- `claim` once the shared counter gave it `k`.
unfoldable pub claim : List Source → ℕ → Outcome (Option (Claimed × List (ℕ × Bytes)))
claim sources k = if leb (total_chunks sources) k then ok none else (do
  (src, idx) ← locate sources k
  (body, tail) ← chunk src idx
  ok (
      some (
        record { k = k; parts = (body, tail); file_part = file_part_of src.file_off body },
        inspected src.file_off idx body,
      )))

-- `record`: the digest goes into an array of 64 bytes.
unfoldable pub record_digest : ℕ → Bytes → Outcome (ℕ × Bytes)
record_digest k d = do a ← put (replicate 64 0) 0 d; ok (k, a)

-- The worker that hashes one chunk at a time, alone: `next` is the counter, and one more step
-- than there are chunks is fuel enough.
unfoldable pub worker :
    Algorithm → List Source → ℕ → ℕ → List (ℕ × Bytes) → Outcome (List (ℕ × Bytes))
worker alg sources zero next out = out_of_fuel
worker alg sources (suc fuel) next out = do
  c ← claim sources next
  elim c [
    | none ↦ ok out
    | some (c, seen) ↦ (do
      r ← record_digest c.k (hash_chunk alg (c.parts.0 ∷ c.parts.1 ∷ []))
      worker alg sources fuel (next + 1) (out ++ r ∷ []))
  ]

-- The digests are copied to their places, in the order in which they come.
unfoldable pub place : ℕ → Bytes → List (ℕ × Bytes) → Outcome Bytes
place ol concat [] = ok concat
place ol concat ((k, d) ∷ all) = do
  d' ← slice d 0 ol
  concat' ← put concat (k * ol) d'
  place ol concat' all

-- The end of `content_digest`, once the workers are joined.
unfoldable pub finish_digest : Algorithm → List Source → List (ℕ × Bytes) → Outcome Bytes
finish_digest alg sources all = do
  let total = total_chunks sources
  concat ← place alg.output_len (replicate (total * alg.output_len) 0) all
  ok (top_digest alg total (concat ∷ []))

-- `content_digest` on one thread, without the SHA instructions.
unfoldable pub content_digest : Algorithm → List Source → Outcome Bytes
content_digest alg sources = do
  all ← worker alg sources (total_chunks sources + 1) 0 []
  finish_digest alg sources all
