-- ===== src/Examples/Roots.antt =====
-- hasher.go at concrete inputs, with a small checksum in place of SHA-256.
use ssz.Base.{
  ℕ, ◌+◌, ◌*◌, ◌%◌, ◌^◌, ◌≡◌, inr, refl, none, some, List, [], ◌∷◌, ◌++◌, replicate, arith,
}
use ssz.Base.Words.{put_uint, zeros}
use ssz.Hasher.{
  Chunk, Sha, Hasher, pad_chunk, insert_chunk, insert_chunks, descend_layer, descend_mixin_layer,
  ascend_layer, ascend_mixin_layer,
}
use ssz.Hasher.Ascend.{IsRoot}
use ssz.Hasher.Merkle.{ascend-merkleizes}
use ssz.Hasher.Mixin.{filled, ascend_mixin-merkleizes}
use ssz.Hashing.{hash_bytes, hash_bytes_empty, hash_dynamic_bytes, insert_blob_chunks}
use ssz.Hashing.Pack.{packed, chunk_count, insert_blob_chunks-pack}
use ssz.Hashing.Forks.{
  hash_array_of_uint64s_pointer_on_fork, hash_array_of_uint64s_pointer_on_fork-none,
}
use ssz.Hashing.Roots.{
  hash_bytes-merkleizes, hash_bytes_empty-replicate, hash_dynamic_bytes-merkleizes,
}

abbrev checksum : List ℕ → ℕ
checksum [] = 7
checksum (b ∷ bs) = (checksum bs * 31 + b) % 2 ^ 64

abbrev pub checksum_chunk : List ℕ → Chunk
checksum_chunk bs = put_uint 32 (checksum bs)

abbrev checksum_chunks : List Chunk → List Chunk
checksum_chunks [] = []
checksum_chunks (a ∷ []) = []
checksum_chunks (a ∷ b ∷ cs) = checksum_chunk (a ++ b) ∷ checksum_chunks cs

abbrev pub checksum_sha : Sha
checksum_sha = record {
  sum256 = checksum_chunk;
  hash_chunks = checksum_chunks;
  hash_chunks-nil = refl;
  hash_chunks-cons = λ a b rest. refl;
}

abbrev pub new_hasher : Hasher
new_hasher = record { chunks = []; groups = []; layer = 0 }

abbrev pub leaf : ℕ → Chunk
leaf n = n ∷ zeros 31

abbrev pub three_leaves : List Chunk
three_leaves = leaf 1 ∷ leaf 2 ∷ leaf 3 ∷ []

ascend-merkleizes_example :
    (r : Chunk) × IsRoot checksum_sha 5 three_leaves r
    × (ascend_layer checksum_sha 5
          (insert_chunks checksum_sha three_leaves (descend_layer new_hasher))
        ≡ some (insert_chunk checksum_sha r 0 new_hasher))
ascend-merkleizes_example =
    ascend-merkleizes checksum_sha 5 three_leaves new_hasher tt (omega arith) (omega arith)
      (omega arith)

ascend_mixin-merkleizes_example :
    (r : Chunk) × IsRoot checksum_sha 4 (filled checksum_sha three_leaves) r
    × (ascend_mixin_layer checksum_sha 3 4
          (insert_chunks checksum_sha three_leaves (descend_mixin_layer new_hasher))
        ≡ some (
            insert_chunk checksum_sha
              (checksum_chunk (r ++ pad_chunk (put_uint 8 3)))
              0
              new_hasher))
ascend_mixin-merkleizes_example =
    ascend_mixin-merkleizes checksum_sha 3 4 three_leaves new_hasher tt
      (inr (omega arith, omega arith)) (omega arith) (omega arith)

hash_bytes-merkleizes_example :
    (r : Chunk) × IsRoot checksum_sha 0 (filled checksum_sha (packed (replicate 70 9))) r
    × (hash_bytes checksum_sha (replicate 70 9) new_hasher
        ≡ some (insert_chunk checksum_sha r 0 new_hasher))
hash_bytes-merkleizes_example =
    hash_bytes-merkleizes checksum_sha (replicate 70 9) new_hasher tt (omega arith)

hash_bytes_empty-replicate_example :
    hash_bytes_empty checksum_sha 96 new_hasher ≡ hash_bytes checksum_sha (zeros 96) new_hasher
hash_bytes_empty-replicate_example = hash_bytes_empty-replicate checksum_sha 96 new_hasher

hash_dynamic_bytes-merkleizes_example :
    (r : Chunk) × IsRoot checksum_sha
      (chunk_count 100)
      (filled checksum_sha (packed (1 ∷ 2 ∷ 3 ∷ [])))
      r
    × (hash_dynamic_bytes checksum_sha (1 ∷ 2 ∷ 3 ∷ []) 100 new_hasher
        ≡ some (
            insert_chunk checksum_sha
              (checksum_chunk (r ++ pad_chunk (put_uint 8 3)))
              0
              new_hasher))
hash_dynamic_bytes-merkleizes_example =
    hash_dynamic_bytes-merkleizes checksum_sha (1 ∷ 2 ∷ 3 ∷ []) 100 new_hasher tt (omega arith)
      (omega arith)

insert_blob_chunks-pack_example :
    insert_blob_chunks checksum_sha (replicate 40 1) new_hasher
    ≡ insert_chunks checksum_sha (packed (replicate 40 1)) new_hasher
insert_blob_chunks-pack_example = insert_blob_chunks-pack checksum_sha (replicate 40 1) new_hasher

hash_array_of_uint64s_pointer_on_fork-none_example :
    hash_array_of_uint64s_pointer_on_fork checksum_sha 3 6 none
      (record { added = 2; removed = 0 })
      new_hasher
    ≡ hash_array_of_uint64s_pointer_on_fork checksum_sha 3 6
        (some (replicate 6 0))
        (record { added = 2; removed = 0 })
        new_hasher
hash_array_of_uint64s_pointer_on_fork-none_example =
    hash_array_of_uint64s_pointer_on_fork-none checksum_sha 3 6 (record { added = 2; removed = 0 })
      new_hasher
