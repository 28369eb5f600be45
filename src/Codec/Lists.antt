-- ===== src/Codec/Lists.antt =====
-- codec.go: fields of dynamic size, each with an offset and a content. A slice to decode into is given
-- by the array behind it, and `none` for what is left in it says that it keeps its value.
use ssz.Base.{ℕ, Option, none, some, List}
use ssz.Fork.{ForkFilter}
use ssz.Hasher.{Sha}
use ssz.Decoder.Arrays.{
  decode_slice_of_dynamic_bytes_offset, decode_slice_of_dynamic_bytes_offset_on_fork,
  decode_slice_of_static_bytes_content, decode_slice_of_static_bytes_offset,
  decode_slice_of_static_bytes_offset_on_fork, decode_slice_of_uint64s_offset,
  decode_slice_of_uint64s_offset_on_fork,
}
use ssz.Decoder.Bits.{
  decode_slice_of_bits_content, decode_slice_of_bits_content_on_fork, decode_slice_of_bits_offset,
  decode_slice_of_bits_offset_on_fork,
}
use ssz.Decoder.Contents.{
  Blob, decode_dynamic_bytes_content, decode_dynamic_bytes_content_on_fork,
  decode_dynamic_bytes_offset, decode_dynamic_bytes_offset_on_fork,
  decode_slice_of_dynamic_bytes_content, decode_slice_of_uint64s_content,
}
use ssz.Decoder.Forks.{
  decode_slice_of_dynamic_bytes_content_on_fork, decode_slice_of_static_bytes_content_on_fork,
  decode_slice_of_uint64s_content_on_fork,
}
use ssz.Encoder.Dynamic.{
  encode_dynamic_bytes_content, encode_dynamic_bytes_content_on_fork, encode_dynamic_bytes_offset,
  encode_dynamic_bytes_offset_on_fork, encode_slice_of_bits_content,
  encode_slice_of_bits_content_on_fork, encode_slice_of_bits_offset,
  encode_slice_of_bits_offset_on_fork, encode_slice_of_dynamic_bytes_content,
  encode_slice_of_dynamic_bytes_content_on_fork, encode_slice_of_dynamic_bytes_offset,
  encode_slice_of_dynamic_bytes_offset_on_fork, encode_slice_of_static_bytes_content,
  encode_slice_of_static_bytes_content_on_fork, encode_slice_of_static_bytes_offset,
  encode_slice_of_static_bytes_offset_on_fork, encode_slice_of_uint64s_content,
  encode_slice_of_uint64s_content_on_fork, encode_slice_of_uint64s_offset,
  encode_slice_of_uint64s_offset_on_fork,
}
use ssz.Hashing.{
  hash_dynamic_bytes, hash_dynamic_bytes_on_fork, hash_slice_of_dynamic_bytes,
  hash_slice_of_static_bytes, hash_slice_of_uint64s,
}
use ssz.Hashing.Bits.{hash_slice_of_bits, hash_slice_of_bits_on_fork}
use ssz.Hashing.Forks.{
  hash_slice_of_dynamic_bytes_on_fork, hash_slice_of_static_bytes_on_fork,
  hash_slice_of_uint64s_on_fork,
}
use ssz.Codec.{Codec, dispatch, dispatch_content}

-- `bitlist_zero` is go-bitfield's NewBitlist(0), and `width` the length of the arrays in a list of
-- static bytes.
module _ (sha : Sha) (bitlist_zero : List ℕ) (width : ℕ) where
  unfoldable pub define_dynamic_bytes_offset : List ℕ → ℕ → Codec → Option (List ℕ × Codec)
  define_dynamic_bytes_offset v max_size c =
      dispatch v (encode_dynamic_bytes_offset v) (λ d. some (v, decode_dynamic_bytes_offset d))
        (hash_dynamic_bytes sha v max_size) c

  unfoldable pub define_dynamic_bytes_offset_on_fork :
      List ℕ → ℕ → ForkFilter → Codec → Option (List ℕ × Codec)
  define_dynamic_bytes_offset_on_fork v max_size filter c =
      dispatch v (encode_dynamic_bytes_offset_on_fork v filter)
        (λ d. some (v, decode_dynamic_bytes_offset_on_fork filter d))
        (hash_dynamic_bytes_on_fork sha c.fork v max_size filter) c

  unfoldable pub define_dynamic_bytes_content :
      List ℕ → List ℕ → ℕ → Codec → Option (Option (List ℕ) × Codec)
  define_dynamic_bytes_content v backing max_size c =
      dispatch_content none (encode_dynamic_bytes_content v)
        (decode_dynamic_bytes_content backing max_size) c

  unfoldable pub define_dynamic_bytes_content_on_fork :
      List ℕ → List ℕ → ℕ → ForkFilter → Codec → Option (Option (Option (List ℕ)) × Codec)
  define_dynamic_bytes_content_on_fork v backing max_size filter c =
      dispatch_content none (encode_dynamic_bytes_content_on_fork v filter)
        (decode_dynamic_bytes_content_on_fork backing max_size filter) c

  unfoldable pub define_slice_of_bits_offset :
      Option (List ℕ) → ℕ → Codec → Option (Option (List ℕ) × Codec)
  define_slice_of_bits_offset v max_bits c =
      dispatch v (encode_slice_of_bits_offset bitlist_zero v)
        (λ d. some (v, decode_slice_of_bits_offset d))
        (hash_slice_of_bits sha bitlist_zero v max_bits) c

  unfoldable pub define_slice_of_bits_offset_on_fork :
      Option (List ℕ) → ℕ → ForkFilter → Codec → Option (Option (List ℕ) × Codec)
  define_slice_of_bits_offset_on_fork v max_bits filter c =
      dispatch v (encode_slice_of_bits_offset_on_fork bitlist_zero v filter)
        (λ d. some (v, decode_slice_of_bits_offset_on_fork filter d))
        (hash_slice_of_bits_on_fork sha bitlist_zero c.fork v max_bits filter) c

  unfoldable pub define_slice_of_bits_content :
      Option (List ℕ) → List ℕ → ℕ → Codec → Option (Option (List ℕ) × Codec)
  define_slice_of_bits_content v backing max_bits c =
      dispatch_content none (encode_slice_of_bits_content bitlist_zero v)
        (decode_slice_of_bits_content backing max_bits) c

  unfoldable pub define_slice_of_bits_content_on_fork :
      Option (List ℕ) → List ℕ → ℕ → ForkFilter → Codec → Option (Option (Option (List ℕ)) × Codec)
  define_slice_of_bits_content_on_fork v backing max_bits filter c =
      dispatch_content none (encode_slice_of_bits_content_on_fork bitlist_zero v filter)
        (decode_slice_of_bits_content_on_fork backing max_bits filter) c

  unfoldable pub define_slice_of_uint64s_offset : List ℕ → ℕ → Codec → Option (List ℕ × Codec)
  define_slice_of_uint64s_offset v max_items c =
      dispatch v (encode_slice_of_uint64s_offset v)
        (λ d. some (v, decode_slice_of_uint64s_offset d)) (hash_slice_of_uint64s sha v max_items) c

  unfoldable pub define_slice_of_uint64s_offset_on_fork :
      List ℕ → ℕ → ForkFilter → Codec → Option (List ℕ × Codec)
  define_slice_of_uint64s_offset_on_fork v max_items filter c =
      dispatch v (encode_slice_of_uint64s_offset_on_fork v filter)
        (λ d. some (v, decode_slice_of_uint64s_offset_on_fork filter d))
        (hash_slice_of_uint64s_on_fork sha c.fork v max_items filter) c

  unfoldable pub define_slice_of_uint64s_content :
      List ℕ → List ℕ → ℕ → Codec → Option (Option (List ℕ) × Codec)
  define_slice_of_uint64s_content v backing max_items c =
      dispatch_content none (encode_slice_of_uint64s_content v)
        (decode_slice_of_uint64s_content backing max_items) c

  unfoldable pub define_slice_of_uint64s_content_on_fork :
      List ℕ → List ℕ → ℕ → ForkFilter → Codec → Option (Option (Option (List ℕ)) × Codec)
  define_slice_of_uint64s_content_on_fork v backing max_items filter c =
      dispatch_content none (encode_slice_of_uint64s_content_on_fork v filter)
        (decode_slice_of_uint64s_content_on_fork backing max_items filter) c

  unfoldable pub define_slice_of_static_bytes_offset :
      List (List ℕ) → ℕ → Codec → Option (List (List ℕ) × Codec)
  define_slice_of_static_bytes_offset v max_items c =
      dispatch v (encode_slice_of_static_bytes_offset v)
        (λ d. some (v, decode_slice_of_static_bytes_offset d))
        (hash_slice_of_static_bytes sha v max_items) c

  unfoldable pub define_slice_of_static_bytes_offset_on_fork :
      List (List ℕ) → ℕ → ForkFilter → Codec → Option (List (List ℕ) × Codec)
  define_slice_of_static_bytes_offset_on_fork v max_items filter c =
      dispatch v (encode_slice_of_static_bytes_offset_on_fork v filter)
        (λ d. some (v, decode_slice_of_static_bytes_offset_on_fork filter d))
        (hash_slice_of_static_bytes_on_fork sha c.fork v max_items filter) c

  unfoldable pub define_slice_of_static_bytes_content :
      List (List ℕ) → List (List ℕ) → ℕ → Codec → Option (Option (List (List ℕ)) × Codec)
  define_slice_of_static_bytes_content v backing max_items c =
      dispatch_content none (encode_slice_of_static_bytes_content v)
        (decode_slice_of_static_bytes_content width backing max_items) c

  unfoldable pub define_slice_of_static_bytes_content_on_fork :
      List (List ℕ)
      → List (List ℕ)
      → ℕ
      → ForkFilter
      → Codec
      → Option (Option (Option (List (List ℕ))) × Codec)
  define_slice_of_static_bytes_content_on_fork v backing max_items filter c =
      dispatch_content none (encode_slice_of_static_bytes_content_on_fork v filter)
        (decode_slice_of_static_bytes_content_on_fork width backing max_items filter) c

  unfoldable pub define_slice_of_dynamic_bytes_offset :
      List (List ℕ) → ℕ → ℕ → Codec → Option (List (List ℕ) × Codec)
  define_slice_of_dynamic_bytes_offset v max_items max_size c =
      dispatch v (encode_slice_of_dynamic_bytes_offset v)
        (λ d. some (v, decode_slice_of_dynamic_bytes_offset d))
        (hash_slice_of_dynamic_bytes sha v max_items max_size) c

  unfoldable pub define_slice_of_dynamic_bytes_offset_on_fork :
      List (List ℕ) → ℕ → ℕ → ForkFilter → Codec → Option (List (List ℕ) × Codec)
  define_slice_of_dynamic_bytes_offset_on_fork v max_items max_size filter c =
      dispatch v (encode_slice_of_dynamic_bytes_offset_on_fork v filter)
        (λ d. some (v, decode_slice_of_dynamic_bytes_offset_on_fork filter d))
        (hash_slice_of_dynamic_bytes_on_fork sha c.fork v max_items max_size filter) c

  unfoldable pub define_slice_of_dynamic_bytes_content :
      List (List ℕ) → List (List ℕ) → ℕ → ℕ → Codec → Option (Option (List Blob) × Codec)
  define_slice_of_dynamic_bytes_content v backing max_items max_size c =
      dispatch_content none (encode_slice_of_dynamic_bytes_content v)
        (decode_slice_of_dynamic_bytes_content backing max_items max_size) c

  unfoldable pub define_slice_of_dynamic_bytes_content_on_fork :
      List (List ℕ)
      → List (List ℕ)
      → ℕ
      → ℕ
      → ForkFilter
      → Codec
      → Option (Option (Option (List Blob)) × Codec)
  define_slice_of_dynamic_bytes_content_on_fork v backing max_items max_size filter c =
      dispatch_content none (encode_slice_of_dynamic_bytes_content_on_fork v filter)
        (decode_slice_of_dynamic_bytes_content_on_fork backing max_items max_size filter) c
