-- ===== src/Hashing/Forks.antt =====
-- hasher.go: the arrays and lists that some forks do not have, and nil arrays.
use ssz.Base.{
  ℕ, zero, suc, ◌+◌, ◌*◌, ◌≡◌, refl, sym, ap, ◌∙◌, Option, none, some, List, ◌++◌, length-replicate,
  replicate, if◌then◌else◌, ◌>>=◌, arith,
}
use ssz.Base.Words.{put_uint, zeros}
use ssz.Fork.{Fork, ForkFilter, is_absent}
use ssz.Format.{number_bytes}
use ssz.Hasher.{Sha, Hasher, insert_chunks, descend_layer, ascend_layer}
use ssz.Hashing.{
  hash_all, hash_bytes, insert_uint64s, insert_blob_chunks_empty, hash_array_of_uint64s,
  hash_slice_of_uint64s, hash_unsafe_array_of_static_bytes, hash_slice_of_static_bytes,
  hash_slice_of_dynamic_bytes,
}
use ssz.Hashing.Pack.{
  pack, packed, chunk_count, replicate-append, pack-replicate, insert_blob_chunks_empty-replicate,
}
use ssz.Hashing.Numbers.{insert_uint64s-packed}

module _ (sha : Sha) where
  unfoldable pub hash_checked_static_bytes : List ℕ → Hasher → Option Hasher
  hash_checked_static_bytes blob h = hash_bytes sha blob h

  unfoldable pub hash_array_of_static_bytes : List (List ℕ) → Hasher → Option Hasher
  hash_array_of_static_bytes blobs h = hash_unsafe_array_of_static_bytes sha blobs h

  unfoldable pub hash_checked_array_of_static_bytes : List (List ℕ) → Hasher → Option Hasher
  hash_checked_array_of_static_bytes blobs h =
      hash_all (hash_bytes sha) blobs (descend_layer h) >>= ascend_layer sha 0

  module _ (fork : Fork) where
    -- `size` is the length of the array type.
    unfoldable pub hash_array_of_uint64s_pointer_on_fork :
        ℕ → Option (List ℕ) → ForkFilter → Hasher → Option Hasher
    hash_array_of_uint64s_pointer_on_fork size ns filter h =
        if is_absent fork filter then some h else elim ns [
          | none ↦ ascend_layer sha 0 (insert_blob_chunks_empty sha (size * 8) (descend_layer h))
          | some l ↦ hash_array_of_uint64s sha l h
        ]

    unfoldable pub hash_slice_of_uint64s_on_fork : List ℕ → ℕ → ForkFilter → Hasher → Option Hasher
    hash_slice_of_uint64s_on_fork ns max_items filter h =
        if is_absent fork filter then some h else hash_slice_of_uint64s sha ns max_items h

    unfoldable pub hash_slice_of_static_bytes_on_fork :
        List (List ℕ) → ℕ → ForkFilter → Hasher → Option Hasher
    hash_slice_of_static_bytes_on_fork blobs max_items filter h =
        if is_absent fork filter then some h else hash_slice_of_static_bytes sha blobs max_items h

    unfoldable pub hash_slice_of_dynamic_bytes_on_fork :
        List (List ℕ) → ℕ → ℕ → ForkFilter → Hasher → Option Hasher
    hash_slice_of_dynamic_bytes_on_fork blobs max_items max_size filter h =
        if is_absent fork filter
        then some h
        else hash_slice_of_dynamic_bytes sha blobs max_items max_size h

  number_bytes-replicate : (n : ℕ) → number_bytes (replicate n 0) ≡ zeros (n * 8)
  unfolding put_uint
  number_bytes-replicate zero = refl
  number_bytes-replicate (suc n) =
      ap (λ r. zeros 8 ++ r) (number_bytes-replicate n)
      ∙ replicate-append 8 (n * 8)
      ∙ (let size : 8 + n * 8 ≡ suc n * 8 = omega arith in ap zeros size)

  insert_uint64s-replicate :
      (n : ℕ) (h : Hasher)
      → insert_uint64s sha (replicate n 0) h ≡ insert_blob_chunks_empty sha (n * 8) h
  insert_uint64s-replicate n h =
      insert_uint64s-packed sha (replicate n 0) h
      ∙ ap (λ b. insert_chunks sha (packed b) h) (number_bytes-replicate n)
      ∙ ap (λ k. insert_chunks sha (pack (chunk_count k) (zeros (n * 8))) h)
          (length-replicate (n * 8) 0)
      ∙ ap (λ cs. insert_chunks sha cs h) (pack-replicate (chunk_count (n * 8)) (n * 8))
      ∙ sym (insert_blob_chunks_empty-replicate sha (n * 8) h)

  -- Under every fork and filter HashArrayOfUint64sPointerOnFork hashes a nil array of `size` numbers as
  -- an array of `size` zeros, panics included.
  pub hash_array_of_uint64s_pointer_on_fork-none :
      (fork : Fork) (size : ℕ) (filter : ForkFilter) (h : Hasher)
      → hash_array_of_uint64s_pointer_on_fork fork size none filter h
        ≡ hash_array_of_uint64s_pointer_on_fork fork size (some (replicate size 0)) filter h
  unfolding hash_array_of_uint64s_pointer_on_fork hash_array_of_uint64s
  hash_array_of_uint64s_pointer_on_fork-none fork size filter h =
      ap (λ x. if is_absent fork filter then some h else ascend_layer sha 0 x)
        (sym (insert_uint64s-replicate size (descend_layer h)))
