-- ===== src/Entry/Hash.antt =====
-- ssz.go: the hash tree root of a whole object. `define` is its DefineSSZ as run by the hasher, under
-- the fork that the caller gives.
use ssz.Base.{
  ◌≤◌, ◌≡◌, ap, ◌∙◌, Bool, true, Option, none, some, List, [], ◌∷◌, length, ◌>>=◌, arith,
}
use ssz.Hasher.{
  Chunk, Sha, Hasher, insert_chunk, insert_chunks, insert_into, descend_layer, ascend_layer,
}
use ssz.Hasher.Ascend.{IsRoot, max_chunks}
use ssz.Hasher.Merkle.{ascend-merkleizes}

-- What Reset leaves in the pool.
abbrev pub reset_hasher : Hasher
reset_hasher = record { chunks = []; groups = []; layer = 0 }

-- The only chunk, or a panic.
unfoldable pub only_chunk : List Chunk → Option Chunk
only_chunk [] = none
only_chunk (c ∷ []) = some c
only_chunk (c ∷ d ∷ cs) = none

-- `define` is DefineSSZ as run by a hasher with or without threads.
unfoldable pub hash_concurrent_on_fork : Sha → (Bool → Hasher → Option Hasher) → Option Chunk
hash_concurrent_on_fork sha define =
    define true (descend_layer reset_hasher) >>= ascend_layer sha 0 >>= λ h. only_chunk h.chunks

module _ (sha : Sha) (define : Hasher → Option Hasher) where
  unfoldable pub hash_sequential_on_fork : Option Chunk
  hash_sequential_on_fork =
      define (descend_layer reset_hasher) >>= ascend_layer sha 0 >>= λ h. only_chunk h.chunks

  -- If DefineSSZ adds the chunks `fields`, 1 to 2^63 of them, then HashSequentialOnFork does not panic
  -- and returns the root of the least Merkle tree over them.
  pub hash_sequential_on_fork-IsRoot :
      (fields : List Chunk)
      → 1 ≤ length fields
      → length fields ≤ max_chunks
      → define (descend_layer reset_hasher)
        ≡ some (insert_chunks sha fields (descend_layer reset_hasher))
      → (r : Chunk) × IsRoot sha 0 fields r × (hash_sequential_on_fork ≡ some r)
  unfolding hash_sequential_on_fork only_chunk insert_chunk insert_into
  hash_sequential_on_fork-IsRoot fields filled few adds =
      let (r, root, ends) =
        ascend-merkleizes sha 0 fields reset_hasher tt filled few (omega arith) in
      (
        r,
        root,
        ap (λ m. m >>= ascend_layer sha 0 >>= λ h. only_chunk h.chunks) adds
            ∙ ap (λ m. m >>= λ h. only_chunk h.chunks) ends,
      )
