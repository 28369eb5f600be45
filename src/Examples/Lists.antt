-- ===== src/Examples/Lists.antt =====
-- hasher.go over lists, at concrete inputs.
use ssz.Base.{◌*◌, ◌+◌, ◌^◌, ◌<◌, ◌++◌, ℕ, ◌≡◌, refl, Option, some, List, [], ◌∷◌, All, arith}
use ssz.Hasher.{Chunk, Hasher, insert_chunk, insert_chunks, pad_chunk}
use ssz.Hasher.Ascend.{IsRoot}
use ssz.Hasher.Mixin.{filled}
use ssz.Hashing.{hash_slice_of_static_bytes, hash_slice_of_dynamic_bytes, hash_slice_of_uint64s}
use ssz.Hashing.Pack.{packed, chunk_count}
use ssz.Hashing.Objects.{hash_slice_of_dynamic_objects}
use ssz.Hashing.Each.{Each}
use ssz.Hasher.Merkle.{IsOpen}
use ssz.Hasher.Mixin.{IsRoot-unique, descend-IsOpen}
use ssz.Hasher.{descend_layer}
use ssz.Entry.Hash.{reset_hasher}
use ssz.Hashing.{hash_dynamic_bytes}
use ssz.Hashing.Roots.{hash_dynamic_bytes-merkleizes}
use ssz.Hashing.Each.{insert_chunk-IsOpen}
use ssz.Base.{replicate, ap, ◌∙◌}
use ssz.Hashing.Lists.{
  ListRoot, BlobRoot, Defines, hash_slice_of_static_bytes-merkleizes,
  hash_slice_of_dynamic_bytes-merkleizes, hash_slice_of_dynamic_objects-merkleizes,
}
use ssz.Format.{number_bytes}
use ssz.Base.Words.{IsByte, get_uint, put_uint, bit_length, last_byte}
use ssz.Hashing.Numbers.{hash_slice_of_uint64s-merkleizes}
use ssz.Hashing.Bits.{hash_bits, bits_size, trim_zeros, clear_top}
use ssz.Hashing.BitLists.{IsTrimmed, hash_bits-get_uint}
use ssz.Entry.Hash.{hash_sequential_on_fork, hash_sequential_on_fork-IsRoot}
use ssz.Examples.Roots.{checksum_sha, new_hasher, leaf}

abbrev blobs : List (List ℕ)
blobs = (1 ∷ 2 ∷ []) ∷ (3 ∷ 4 ∷ []) ∷ []

hash_slice_of_static_bytes-merkleizes_example :
    (rs : List Chunk) × (c : Chunk) × Each checksum_sha
      (λ b r. IsRoot checksum_sha 0 (filled checksum_sha (packed b)) r)
      blobs
      rs
    × ListRoot checksum_sha 16 rs c
    × (hash_slice_of_static_bytes checksum_sha blobs 16 new_hasher
        ≡ some (insert_chunk checksum_sha c 0 new_hasher))
hash_slice_of_static_bytes-merkleizes_example =
    hash_slice_of_static_bytes-merkleizes checksum_sha blobs 16 new_hasher tt
      (omega arith, (omega arith, tt)) (omega arith) (omega arith)

hash_slice_of_dynamic_bytes-merkleizes_example :
    (rs : List Chunk) × (c : Chunk) × Each checksum_sha (BlobRoot checksum_sha 100) blobs rs
    × ListRoot checksum_sha 16 rs c
    × (hash_slice_of_dynamic_bytes checksum_sha blobs 16 100 new_hasher
        ≡ some (insert_chunk checksum_sha c 0 new_hasher))
hash_slice_of_dynamic_bytes-merkleizes_example =
    hash_slice_of_dynamic_bytes-merkleizes checksum_sha blobs 16 100 new_hasher tt
      (omega arith, (omega arith, tt)) (omega arith) (omega arith) (omega arith)

-- Objects of two fields, a number and a dynamic byte string of 48 bytes, which takes a layer of its
-- own.
abbrev pub note : List ℕ
note = replicate 48 7

note_root :
    (r : Chunk) × IsRoot checksum_sha (chunk_count 100) (filled checksum_sha (packed note)) r
    × (hash_dynamic_bytes checksum_sha note 100 new_hasher
        ≡ some (
            insert_chunk checksum_sha
              (checksum_sha.sum256 (r ++ pad_chunk (put_uint 8 48)))
              0
              new_hasher))
note_root =
    hash_dynamic_bytes-merkleizes checksum_sha note 100 new_hasher tt (omega arith) (omega arith)

abbrev note_chunk : Chunk
note_chunk = checksum_sha.sum256 (note_root.0 ++ pad_chunk (put_uint 8 48))

note-adds :
    (h : Hasher)
    → IsOpen h
    → hash_dynamic_bytes checksum_sha note 100 h ≡ some (insert_chunk checksum_sha note_chunk 0 h)
note-adds h o =
    let (r, root, run) =
      hash_dynamic_bytes-merkleizes checksum_sha note 100 h o (omega arith) (omega arith) in
    run
    ∙ ap
        (λ x.
          some
            (insert_chunk checksum_sha (checksum_sha.sum256 (x ++ pad_chunk (put_uint 8 48))) 0 h))
        (IsRoot-unique checksum_sha (chunk_count 100) (filled checksum_sha (packed note)) r
          note_root.0 root note_root.1)

abbrev pair_fields : ℕ → List Chunk
pair_fields n = leaf n ∷ note_chunk ∷ []

abbrev define_pair : ℕ → Hasher → Option Hasher
define_pair n h = hash_dynamic_bytes checksum_sha note 100 (insert_chunk checksum_sha (leaf n) 0 h)

pair-Defines : (n : ℕ) → Defines checksum_sha define_pair pair_fields n
unfolding insert_chunks
pair-Defines n = (
  (λ h o.
      note-adds (insert_chunk checksum_sha (leaf n) 0 h)
        (insert_chunk-IsOpen checksum_sha (leaf n) h o)),
  omega arith,
  omega arith,
)

hash_slice_of_dynamic_objects-merkleizes_example :
    (rs : List Chunk) × (c : Chunk) × Each checksum_sha
      (λ n r. IsRoot checksum_sha 0 (pair_fields n) r)
      (5 ∷ 8 ∷ [])
      rs
    × ListRoot checksum_sha 4 rs c
    × (hash_slice_of_dynamic_objects checksum_sha define_pair (5 ∷ 8 ∷ []) 4 new_hasher
        ≡ some (insert_chunk checksum_sha c 0 new_hasher))
hash_slice_of_dynamic_objects-merkleizes_example =
    hash_slice_of_dynamic_objects-merkleizes checksum_sha define_pair pair_fields (5 ∷ 8 ∷ []) 4
      new_hasher (pair-Defines 5, (pair-Defines 8, tt)) tt (omega arith) (omega arith)

hash_slice_of_uint64s-merkleizes_example :
    (r : Chunk) × IsRoot checksum_sha
      (chunk_count (20 * 8))
      (filled checksum_sha (packed (number_bytes (1 ∷ 2 ∷ 3 ∷ 4 ∷ 5 ∷ []))))
      r
    × (hash_slice_of_uint64s checksum_sha (1 ∷ 2 ∷ 3 ∷ 4 ∷ 5 ∷ []) 20 new_hasher
        ≡ some (
            insert_chunk checksum_sha
              (checksum_sha.sum256 (r ++ pad_chunk (put_uint 8 5)))
              0
              new_hasher))
hash_slice_of_uint64s-merkleizes_example =
    hash_slice_of_uint64s-merkleizes checksum_sha (1 ∷ 2 ∷ 3 ∷ 4 ∷ 5 ∷ []) 20 new_hasher tt
      (omega arith) (omega arith)

last_byte-positive : 0 < last_byte (5 ∷ 16 ∷ [])
unfolding last_byte
last_byte-positive = omega arith

hash_bits-get_uint_example :
    (n : ℕ) × (bits : List ℕ) × (r : Chunk) × (get_uint (5 ∷ 16 ∷ []) ≡ get_uint bits + 2 ^ n)
    × (get_uint bits < 2 ^ n)
    × All IsByte bits
    × IsTrimmed bits
    × IsRoot checksum_sha 2 (filled checksum_sha (packed bits)) r
    × (hash_bits checksum_sha (5 ∷ 16 ∷ []) 300 new_hasher
        ≡ some (
            insert_chunk checksum_sha
              (checksum_sha.sum256 (r ++ pad_chunk (put_uint 8 n)))
              0
              new_hasher))
hash_bits-get_uint_example =
    hash_bits-get_uint checksum_sha 5 (16 ∷ []) 300 new_hasher tt (omega arith, (omega arith, tt))
      last_byte-positive (omega arith) (omega arith)

-- Twelve bits, of which the first and the third are set.
twelve_bits : (bits_size (5 ∷ 16 ∷ []) ≡ 12) × (trim_zeros (clear_top (5 ∷ 16 ∷ [])) ≡ 5 ∷ [])
unfolding bits_size trim_zeros clear_top bit_length last_byte
twelve_bits = (refl, refl)

hash_sequential_on_fork-IsRoot_example :
    (r : Chunk) × IsRoot checksum_sha 0 (pair_fields 5) r
    × (hash_sequential_on_fork checksum_sha (define_pair 5) ≡ some r)
hash_sequential_on_fork-IsRoot_example =
    hash_sequential_on_fork-IsRoot checksum_sha (define_pair 5) (pair_fields 5) (omega arith)
      (omega arith)
      ((pair-Defines 5).0 (descend_layer reset_hasher)
        (descend-IsOpen checksum_sha reset_hasher tt))
