-- ===== src/Codec/Arrays.antt =====
-- codec.go: arrays of bytes, bits, numbers and byte strings. A checked slice is given beside the array
-- behind it, and `none` for what is left in it says that it keeps its value.
use ssz.Base.{ℕ, Option, none, some, List, []}
use ssz.Fork.{ForkFilter}
use ssz.Hasher.{Sha}
use ssz.Decoder.{
  decode_checked_static_bytes, decode_static_bytes, decode_static_bytes_pointer_on_fork,
}
use ssz.Decoder.Arrays.{
  decode_array_of_static_bytes, decode_array_of_uint64s, decode_array_of_uint64s_pointer_on_fork,
  decode_checked_array_of_static_bytes, decode_unsafe_array_of_static_bytes,
}
use ssz.Decoder.Bits.{decode_array_of_bits, decode_array_of_bits_pointer_on_fork}
use ssz.Encoder.{
  encode_checked_static_bytes, encode_static_bytes, encode_static_bytes_pointer_on_fork,
}
use ssz.Encoder.Dynamic.{
  encode_array_of_bits, encode_array_of_bits_pointer_on_fork, encode_array_of_static_bytes,
  encode_array_of_uint64s, encode_array_of_uint64s_pointer_on_fork,
  encode_checked_array_of_static_bytes, encode_unsafe_array_of_static_bytes,
}
use ssz.Hashing.{
  hash_array_of_uint64s, hash_static_bytes, hash_static_bytes_pointer_on_fork,
  hash_unsafe_array_of_static_bytes,
}
use ssz.Hashing.Bits.{hash_array_of_bits, hash_array_of_bits_pointer_on_fork}
use ssz.Hashing.Forks.{
  hash_array_of_static_bytes, hash_array_of_uint64s_pointer_on_fork,
  hash_checked_array_of_static_bytes, hash_checked_static_bytes,
}
use ssz.Codec.{Codec, dispatch}

-- A nil slice hashes as an empty one.
unfoldable pub or_empty {ℓ} : {A : Type ℓ} → Option (List A) → List A
or_empty none = []
or_empty (some items) = items

module _ (sha : Sha) where
  unfoldable pub define_static_bytes : List ℕ → Codec → Option (List ℕ × Codec)
  define_static_bytes v c =
      dispatch v (encode_static_bytes v) (λ d. some (decode_static_bytes v d))
        (hash_static_bytes sha v) c

  unfoldable pub define_static_bytes_pointer_on_fork :
      ℕ → Option (List ℕ) → ForkFilter → Codec → Option (Option (List ℕ) × Codec)
  define_static_bytes_pointer_on_fork size v filter c =
      dispatch v (encode_static_bytes_pointer_on_fork size v filter)
        (λ d. some (decode_static_bytes_pointer_on_fork size v filter d))
        (hash_static_bytes_pointer_on_fork sha c.fork size v filter) c

  unfoldable pub define_checked_static_bytes :
      Option (List ℕ) → List ℕ → ℕ → Codec → Option (Option (List ℕ) × Codec)
  define_checked_static_bytes v backing size c =
      dispatch none (encode_checked_static_bytes v size)
        (λ d. some (decode_checked_static_bytes backing size d))
        (hash_checked_static_bytes sha (or_empty v)) c

  unfoldable pub define_array_of_bits : List ℕ → ℕ → Codec → Option (List ℕ × Codec)
  define_array_of_bits v size c =
      dispatch v (encode_array_of_bits v) (λ d. some (decode_array_of_bits size v d))
        (hash_array_of_bits sha v) c

  unfoldable pub define_array_of_bits_pointer_on_fork :
      ℕ → Option (List ℕ) → ℕ → ForkFilter → Codec → Option (Option (List ℕ) × Codec)
  define_array_of_bits_pointer_on_fork width v size filter c =
      dispatch v (encode_array_of_bits_pointer_on_fork width v filter)
        (λ d. some (decode_array_of_bits_pointer_on_fork width size v filter d))
        (hash_array_of_bits_pointer_on_fork sha c.fork width v filter) c

  unfoldable pub define_array_of_uint64s : List ℕ → Codec → Option (List ℕ × Codec)
  define_array_of_uint64s v c =
      dispatch v (encode_array_of_uint64s v) (λ d. some (decode_array_of_uint64s v d))
        (hash_array_of_uint64s sha v) c

  unfoldable pub define_array_of_uint64s_pointer_on_fork :
      ℕ → Option (List ℕ) → ForkFilter → Codec → Option (Option (List ℕ) × Codec)
  define_array_of_uint64s_pointer_on_fork size v filter c =
      dispatch v (encode_array_of_uint64s_pointer_on_fork size v filter)
        (λ d. some (decode_array_of_uint64s_pointer_on_fork size v filter d))
        (hash_array_of_uint64s_pointer_on_fork sha c.fork size v filter) c

  unfoldable pub define_array_of_static_bytes :
      List (List ℕ) → Codec → Option (List (List ℕ) × Codec)
  define_array_of_static_bytes v c =
      dispatch v (encode_array_of_static_bytes v) (λ d. some (decode_array_of_static_bytes v d))
        (hash_array_of_static_bytes sha v) c

  unfoldable pub define_unsafe_array_of_static_bytes :
      List (List ℕ) → Codec → Option (List (List ℕ) × Codec)
  define_unsafe_array_of_static_bytes v c =
      dispatch v (encode_unsafe_array_of_static_bytes v)
        (λ d. some (decode_unsafe_array_of_static_bytes v d))
        (hash_unsafe_array_of_static_bytes sha v) c

  unfoldable pub define_checked_array_of_static_bytes :
      ℕ
      → Option (List (List ℕ))
      → List (List ℕ)
      → ℕ
      → Codec
      → Option (Option (List (List ℕ)) × Codec)
  define_checked_array_of_static_bytes width v backing size c =
      dispatch none (encode_checked_array_of_static_bytes width v size)
        (λ d. some (decode_checked_array_of_static_bytes width backing size d))
        (hash_checked_array_of_static_bytes sha (or_empty v)) c
