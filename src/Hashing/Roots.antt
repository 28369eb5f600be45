-- ===== src/Hashing/Roots.antt =====
-- What the Hash functions of hasher.go add to the accumulator: hash tree roots.
use ssz.Base.{
  ℕ, ◌+◌, ◌^◌, ◌≤◌, ◌<◌, ◌≡◌, ◌≢◌, ◌⊎◌, refl, inl, inr, List, [], ◌∷◌, ◌++◌, length,
  length-replicate, le→leb, lt→leb, arith, some,
}
use native.Mathlib.Nat.{mod-eq_of_lt}
use native.Mathlib.Decide.{dec_le}
use ssz.Base.Words.{put_uint, zeros}
use ssz.Hasher.{Chunk, Sha, Hasher, pad_chunk, insert_chunk}
use ssz.Hasher.Row.{row}
use ssz.Hasher.Ascend.{IsRoot, max_chunks}
use ssz.Hasher.Merkle.{IsOpen, ascend-merkleizes}
use ssz.Hasher.Mixin.{filled, ascend_mixin-merkleizes}
use ssz.Hashing.{hash_bytes, hash_bytes_empty, hash_dynamic_bytes}
use ssz.Hashing.Pack.{
  pack, packed, chunk_count, length-pack, insert_blob_chunks-pack,
  insert_blob_chunks_empty-replicate, pad_chunk-replicate, pack-replicate,
}

packed_nil : packed [] ≡ []
unfolding pack
packed_nil = refl

module _ (sha : Sha) where
  IsRoot-single : (c : Chunk) → IsRoot sha 0 (c ∷ []) c
  unfolding row
  IsRoot-single c = record { depth = 0; top = refl; fits = omega arith; least = tt }

  filled_of_pos : (xs : List Chunk) → 1 ≤ length xs → filled sha xs ≡ xs
  filled_of_pos [] h = absurd (omega arith)
  filled_of_pos (x ∷ xs) h = refl

  packed_short : (blob : List ℕ) → length blob ≤ 32 → filled sha (packed blob) ≡ pad_chunk blob ∷ []
  packed_short [] h = unfold pack pad_chunk in refl
  packed_short (b ∷ bs) h =
      let one : chunk_count (length (b ∷ bs)) ≡ 1 = omega arith in rw one (unfold pack in refl)

  -- In a hasher with no group of a later layer, hashBytes of a blob of at most 2^63 bytes adds the
  -- root of the least tree over its chunks; a blob with no bytes counts as a zero chunk.
  pub hash_bytes-merkleizes :
      (blob : List ℕ) (h : Hasher)
      → IsOpen h
      → length blob ≤ max_chunks
      → (r : Chunk) × IsRoot sha 0 (filled sha (packed blob)) r
        × (hash_bytes sha blob h ≡ some (insert_chunk sha r 0 h))
  unfolding hash_bytes
  hash_bytes-merkleizes blob h open_ few = elim (dec_le (length blob) 32) [
    | yes short ↦ (
      pad_chunk blob,
      rw (packed_short blob short) (IsRoot-single (pad_chunk blob)),
      rw (le→leb (length blob) 32 short),
    )
    | no long ↦
        let (r, root, run) =
          ascend-merkleizes sha 0 (packed blob) h open_
            (omega (arith, length-pack (chunk_count (length blob)) blob))
            (omega (arith, length-pack (chunk_count (length blob)) blob)) (omega arith) in
        (
          r,
          rw
              (filled_of_pos (packed blob)
                (omega (arith, length-pack (chunk_count (length blob)) blob)))
              root,
          rw (lt→leb (length blob) 32 (omega arith), insert_blob_chunks-pack) run,
        )
  ]

  -- A nil pointer to a byte array hashes as the array of zero bytes of its length, panics included.
  pub hash_bytes_empty-replicate :
      (size : ℕ) (h : Hasher) → hash_bytes_empty sha size h ≡ hash_bytes sha (zeros size) h
  unfolding hash_bytes hash_bytes_empty
  hash_bytes_empty-replicate size h = rw (
    length-replicate size,
    pad_chunk-replicate size,
    insert_blob_chunks_empty-replicate,
    insert_blob_chunks-pack,
    length-replicate size,
    pack-replicate,
  )

  -- In a hasher with no group of a later layer, a dynamic blob of at most 2^63 bytes adds the hash of
  -- its length and of the root of its chunks, at the capacity of `max_size` bytes, if `max_size` + 31
  -- does not wrap.
  pub hash_dynamic_bytes-merkleizes :
      (blob : List ℕ) (max_size : ℕ) (h : Hasher)
      → IsOpen h
      → length blob ≤ max_chunks
      → max_size + 31 < 2 ^ 64
      → (r : Chunk) × IsRoot sha (chunk_count max_size) (filled sha (packed blob)) r
        × (hash_dynamic_bytes sha blob max_size h
            ≡ some (insert_chunk sha (sha.sum256 (r ++ pad_chunk (put_uint 8 (length blob)))) 0 h))
  unfolding hash_dynamic_bytes
  hash_dynamic_bytes-merkleizes blob max_size h open_ few fits =
      rw (insert_blob_chunks-pack, mod-eq_of_lt fits)
        (ascend_mixin-merkleizes sha (length blob) (chunk_count max_size) (packed blob) h open_
          (sized blob) (omega (arith, length-pack (chunk_count (length blob)) blob)) (omega arith))
    where
      sized :
          (blob : List ℕ)
          → (length blob ≡ 0) × (packed blob ≡ []) ⊎ (length blob ≢ 0) × (1 ≤ length (packed blob))
      sized [] = inl (refl, packed_nil)
      sized (b ∷ bs) =
          inr (omega arith, omega (arith, length-pack (chunk_count (length (b ∷ bs))) (b ∷ bs)))
