-- ===== src/Hashing/Bits.antt =====
-- hasher.go: bit vectors and bit lists. `bitlist_zero` is go-bitfield's NewBitlist(0), as which a nil
-- bit list is hashed.
use ssz.Base.{
  ℕ, suc, ◌+◌, ◌-◌, ◌*◌, ◌/◌, ◌%◌, ◌^◌, ◌≤◌, ◌<◌, ◌≡◌, ◌≢◌, inl, inr, refl, ap, List, [], ◌∷◌, ◌++◌,
  length, ltb, ◌==◌, ==_iff, ==_false, lt→ltb, le→ltb, if◌then◌else◌, arith, Option, none, some,
}
use native.Mathlib.Nat.{mod-eq_of_lt}
use native.Mathlib.Decide.{dec_lt, ℕ_discrete}
use ssz.Base.Words.{put_uint, bit_length, last_byte}
use ssz.Fork.{Fork, ForkFilter, is_absent}
use ssz.Hasher.{
  Chunk, Sha, Hasher, zero_chunk, pad_chunk, insert_chunk, insert_chunks, descend_mixin_layer,
  ascend_mixin_layer,
}
use ssz.Hasher.Ascend.{IsRoot, max_chunks}
use ssz.Hasher.Merkle.{IsOpen}
use ssz.Hasher.Mixin.{filled, ascend_mixin-merkleizes}
use ssz.Hashing.{hash_bytes, hash_bytes_empty, insert_blob_chunks}
use ssz.Hashing.Pack.{pack, packed, chunk_count, length-pack, insert_blob_chunks-pack}

-- The last byte without its highest bit, if it has one.
unfoldable pub clear_top : List ℕ → List ℕ
clear_top [] = []
clear_top (b ∷ []) = b % 2 ^ (bit_length 8 b - 1) ∷ []
clear_top (b ∷ c ∷ bs) = b ∷ clear_top (c ∷ bs)

abbrev pub put_back : ℕ → List ℕ → List ℕ
put_back b [] = if b == 0 then [] else b ∷ []
put_back b (c ∷ bs) = b ∷ c ∷ bs

-- The bytes up to the last one that is not 0.
unfoldable pub trim_zeros : List ℕ → List ℕ
trim_zeros [] = []
trim_zeros (b ∷ bs) = put_back b (trim_zeros bs)

-- The number of bits in front of the length bit. A last byte of 0 makes the uint8 `msb` wrap.
unfoldable pub bits_size : List ℕ → ℕ
bits_size bits =
    (length bits - 1) * 8 + (if last_byte bits == 0 then 255 else bit_length 8 (last_byte bits) - 1)

module _ (sha : Sha) where
  unfoldable pub hash_array_of_bits : List ℕ → Hasher → Option Hasher
  hash_array_of_bits bits h = hash_bytes sha bits h

  -- `size` is the length of the array type.
  unfoldable pub hash_array_of_bits_pointer_on_fork :
      Fork → ℕ → Option (List ℕ) → ForkFilter → Hasher → Option Hasher
  hash_array_of_bits_pointer_on_fork fork size bits filter h =
      if is_absent fork filter
      then some h
      else elim bits [ none ↦ hash_bytes_empty sha size h | some b ↦ hash_array_of_bits b h ]

  -- The content of HashSliceOfBits: a list of zero bits is a zero chunk.
  unfoldable pub insert_bits : ℕ → List ℕ → Hasher → Hasher
  insert_bits size [] h =
      if ltb 0 size then insert_chunk sha zero_chunk 0 h else insert_blob_chunks sha [] h
  insert_bits size (b ∷ bs) h = insert_blob_chunks sha (b ∷ bs) h

  -- `none` is the index panic of a bit list without any byte.
  unfoldable pub hash_bits : List ℕ → ℕ → Hasher → Option Hasher
  hash_bits [] max_bits h = none
  hash_bits (b ∷ bs) max_bits h =
      ascend_mixin_layer sha (bits_size (b ∷ bs)) ((max_bits + 255) % 2 ^ 64 / 256)
        (insert_bits (bits_size (b ∷ bs)) (trim_zeros (clear_top (b ∷ bs))) (descend_mixin_layer h))

  module _ (bitlist_zero : List ℕ) where
    unfoldable pub hash_slice_of_bits : Option (List ℕ) → ℕ → Hasher → Option Hasher
    hash_slice_of_bits none max_bits h = hash_bits bitlist_zero max_bits h
    hash_slice_of_bits (some bits) max_bits h = hash_bits bits max_bits h

    unfoldable pub hash_slice_of_bits_on_fork :
        Fork → Option (List ℕ) → ℕ → ForkFilter → Hasher → Option Hasher
    hash_slice_of_bits_on_fork fork bits max_bits filter h =
        if is_absent fork filter then some h else hash_slice_of_bits bits max_bits h

  length-put_back : (b : ℕ) (bs : List ℕ) → length (put_back b bs) ≤ suc (length bs)
  length-put_back b [] = ground arith
  length-put_back b (c ∷ bs) = omega arith

  length-trim_zeros : (bs : List ℕ) → length (trim_zeros bs) ≤ length bs
  unfolding trim_zeros
  length-trim_zeros [] = omega arith
  length-trim_zeros (b ∷ bs) =
      omega (arith, length-put_back b (trim_zeros bs), length-trim_zeros bs)

  length-clear_top : (bs : List ℕ) → length (clear_top bs) ≡ length bs
  unfolding clear_top
  length-clear_top [] = refl
  length-clear_top (b ∷ []) = refl
  length-clear_top (b ∷ c ∷ bs) = ap suc (length-clear_top (c ∷ bs))

  -- An empty bit list has no byte left.
  trim_zeros-nil :
      (b : ℕ) (bs : List ℕ) → bits_size (b ∷ bs) ≡ 0 → trim_zeros (clear_top (b ∷ bs)) ≡ []
  unfolding bits_size trim_zeros clear_top last_byte
  trim_zeros-nil b (c ∷ bs) e = absurd (omega arith)
  trim_zeros-nil b [] e = elim (ℕ_discrete b 0) [
    | yes none_set ↦ absurd (omega (arith, rw ((==_iff b 0).1 none_set) at e))
    | no set ↦
        let top : bit_length 8 b - 1 ≡ 0 = omega (arith, rw (==_false b 0 set) at e) in
        let left : b % 2 ^ (bit_length 8 b - 1) ≡ 0 = rw top (omega arith) in rw left refl
  ]

  cons-nil : (b : ℕ) (bs : List ℕ) → (b ∷ bs) ≢ []
  cons-nil b bs e = absurd (omega (arith, ap length e))

  bits-IsRoot :
      (size capacity : ℕ) (bytes : List ℕ) (h : Hasher)
      → IsOpen h
      → (size ≡ 0 → bytes ≡ [])
      → length bytes ≤ max_chunks
      → capacity ≤ max_chunks
      → (r : Chunk) × IsRoot sha capacity (filled sha (packed bytes)) r
        × (ascend_mixin_layer sha size capacity (insert_bits size bytes (descend_mixin_layer h))
            ≡ some (insert_chunk sha (sha.sum256 (r ++ pad_chunk (put_uint 8 size))) 0 h))
  unfolding insert_bits insert_chunks pack
  bits-IsRoot size capacity [] h o none_left few small = elim (dec_lt 0 size) [
    | yes some_bits ↦ rw (lt→ltb 0 size some_bits) (
        ascend_mixin-merkleizes sha size capacity (zero_chunk ∷ []) h o
          (inr (omega arith, omega arith)) (omega arith) small)
    | no no_bits ↦
        rw (le→ltb 0 size (omega arith), insert_blob_chunks-pack)
          (ascend_mixin-merkleizes sha size capacity [] h o (inl (omega arith, refl)) (omega arith)
            small)
  ]
  bits-IsRoot size capacity (b ∷ bs) h o none_left few small = rw insert_blob_chunks-pack (
      ascend_mixin-merkleizes sha size capacity (packed (b ∷ bs)) h o
        (inr (
          (λ e. cons-nil b bs (none_left e)),
          omega (arith, length-pack (chunk_count (length (b ∷ bs))) (b ∷ bs)),
        ))
        (omega (arith, length-pack (chunk_count (length (b ∷ bs))) (b ∷ bs))) small)

  -- A bit list of at least one byte adds the hash of its number of bits and of the root, at the
  -- capacity of `max_bits`, over its bytes without the length bit and without the zero bytes at the
  -- end, packed into chunks; no bytes count as a zero chunk, whether there are zero bits or none.
  -- The list is at most 2^63 bytes, `max_bits` + 255 does not wrap, and no pending group is of a
  -- later layer.
  pub hash_bits-merkleizes :
      (b : ℕ) (bs : List ℕ) (max_bits : ℕ) (h : Hasher)
      → IsOpen h
      → length (b ∷ bs) ≤ max_chunks
      → max_bits + 255 < 2 ^ 64
      → (r : Chunk) × IsRoot sha
          ((max_bits + 255) / 256)
          (filled sha (packed (trim_zeros (clear_top (b ∷ bs)))))
          r
        × (hash_bits (b ∷ bs) max_bits h
            ≡ some (
                insert_chunk sha
                  (sha.sum256 (r ++ pad_chunk (put_uint 8 (bits_size (b ∷ bs)))))
                  0
                  h))
  unfolding hash_bits
  hash_bits-merkleizes b bs max_bits h o few fits = rw (mod-eq_of_lt fits) (
      bits-IsRoot (bits_size (b ∷ bs)) ((max_bits + 255) / 256) (trim_zeros (clear_top (b ∷ bs))) h
        o (trim_zeros-nil b bs)
        (omega (arith, length-trim_zeros (clear_top (b ∷ bs)), length-clear_top (b ∷ bs)))
        (omega arith))
