-- ===== src/Entry/Plain.antt =====
-- ssz.go: the entry points without a fork, and the sizes of objects; utils.go: the cache of sizes. `define`
-- is the object's DefineSSZ under a fork.
use ssz.Base.{ℕ, zero, suc, Bool, true, false, Option, List, [], ◌∷◌}
use ssz.Errors.{Error}
use ssz.Fork.{Fork, fork_unknown, fork_future}
use ssz.Encoder.{Writer, Sink, Encoder}
use ssz.Decoder.{Decoder}
use ssz.Hasher.{Chunk, Sha, Hasher}
use ssz.Entry.{
  Kind, encode_to_stream_on_fork, encode_to_bytes_on_fork, decode_from_stream_on_fork,
  decode_from_bytes_on_fork,
}
use ssz.Entry.Hash.{hash_sequential_on_fork, hash_concurrent_on_fork}

-- The SizeSSZ method of the two interfaces, under a fork.
pub data SizeSsz : Type 0 where
  static_size : (Fork → ℕ) → SizeSsz
  dynamic_size : (Fork → Bool → ℕ) → SizeSsz

unfoldable pub size_on_fork : SizeSsz → Fork → ℕ
size_on_fork (static_size size) fork = size fork
size_on_fork (dynamic_size size) fork = size fork false

unfoldable pub size : SizeSsz → ℕ
size obj = size_on_fork obj fork_unknown

-- The loop over the forks from `fork` on, of which there are `count`.
unfoldable pub sizes_from : SizeSsz → ℕ → Fork → List ℕ
sizes_from obj zero fork = []
sizes_from (static_size size) (suc count) fork =
    size fork ∷ sizes_from (static_size size) count (suc fork)
sizes_from (dynamic_size size) (suc count) fork =
    size fork true ∷ sizes_from (dynamic_size size) count (suc fork)

unfoldable pub precompute_static_size_cache : SizeSsz → List ℕ
precompute_static_size_cache obj = sizes_from obj fork_future 0

module _ (kind : Kind) (define : Fork → Encoder → Option Encoder) where
  unfoldable pub encode_to_stream : Writer → Encoder → Option (Option Error × Sink)
  encode_to_stream w pooled =
      encode_to_stream_on_fork kind (define fork_unknown) w fork_unknown pooled

  -- `object_size` is SizeOnFork of the object.
  unfoldable pub encode_to_bytes : (Fork → ℕ) → List ℕ → Encoder → Option (Option Error × Sink)
  encode_to_bytes object_size buf pooled =
      encode_to_bytes_on_fork kind (define fork_unknown) (object_size fork_unknown) buf fork_unknown
        pooled

module _ {A : Type 0} (kind : Kind) (define : Fork → Decoder → Option (A × Decoder)) where
  unfoldable pub decode_from_stream : List ℕ → Error → ℕ → Decoder → Option (Option Error × A)
  decode_from_stream input stop size pooled =
      decode_from_stream_on_fork kind (define fork_unknown) input stop size fork_unknown pooled

  unfoldable pub decode_from_bytes : A → ℕ → List ℕ → Decoder → Option (Option Error × A)
  decode_from_bytes old address blob pooled =
      decode_from_bytes_on_fork kind (define fork_unknown) old address blob fork_unknown pooled

module _ (sha : Sha) where
  unfoldable pub hash_sequential : (Fork → Hasher → Option Hasher) → Option Chunk
  hash_sequential define = hash_sequential_on_fork sha (define fork_unknown)

  unfoldable pub hash_concurrent : (Fork → Bool → Hasher → Option Hasher) → Option Chunk
  hash_concurrent define = hash_concurrent_on_fork sha (define fork_unknown)
