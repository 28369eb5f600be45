-- ===== src/Examples/Slots.antt =====
-- decoder.go's slots and bits and encoder.go's offsets, at concrete inputs.
use ssz.Base.{◌+◌, ◌≡◌, ◌≢◌, refl, none, some, [], ◌∷◌, arith}
use mathlib.Core.Logic.{◌↔◌}
use ssz.Sizer.{size_slice_of_dynamic_bytes}
use ssz.Encoder.{put_offset, encode_uint64}
use ssz.Encoder.Dynamic.{encode_slice_of_dynamic_bytes_offset}
use ssz.Base.{◌%◌, ◌^◌}
use ssz.Sizer.{size_slice_of_dynamic_objects, total_size}
use ssz.Encoder.Objects.{encode_slice_of_dynamic_objects_offset}
use ssz.Base.Words.{bit_length, last_byte}
use ssz.Decoder.{Decoder, read_full}
use ssz.Decoder.Bits.{
  decode_array_of_bits, decode_slice_of_bits_content, decode_sized_bits, fill_counted,
  check_bitlist, HasBitIn,
}
use ssz.Decoder.Offsets.{descend_into_slot, ascend_from_slot, retrieve_size, fill_sizes, pop_size}
use ssz.Decoder.Slotted.{Leaves, descend_into_slot-IsInside, ascend_from_slot-Leaves}
use ssz.RoundTrip.Bits.{decode_array_of_bits-junk}
use ssz.RoundTrip.Sizes.{
  encode_slice_of_dynamic_bytes_offset-size, encode_slice_of_dynamic_objects_offset-size,
}
use ssz.Examples.Codec.{new_decoder, two_blobs, socket}

-- Nothing was consumed of a slot of 3 bytes.
ascend_from_slot-Leaves_example :
    Leaves 3
      (new_decoder (1 ∷ 2 ∷ 3 ∷ []) 9)
      (descend_into_slot 3 (new_decoder (1 ∷ 2 ∷ 3 ∷ []) 9))
      (ascend_from_slot (descend_into_slot 3 (new_decoder (1 ∷ 2 ∷ 3 ∷ []) 9)))
ascend_from_slot-Leaves_example =
    ascend_from_slot-Leaves 3 (new_decoder (1 ∷ 2 ∷ 3 ∷ []) 9)
      (descend_into_slot 3 (new_decoder (1 ∷ 2 ∷ 3 ∷ []) 9))
      (descend_into_slot-IsInside 3 (new_decoder (1 ∷ 2 ∷ 3 ∷ []) 9))

decode_array_of_bits-junk_example :
    ((decode_array_of_bits 4 (0 ∷ []) (new_decoder (33 ∷ 7 ∷ []) 2)).0 ≡ 33 ∷ [])
    × ((decode_array_of_bits 4 (0 ∷ []) (new_decoder (33 ∷ 7 ∷ []) 2)).1.input ≡ 7 ∷ [])
    × (((decode_array_of_bits 4 (0 ∷ []) (new_decoder (33 ∷ 7 ∷ []) 2)).1.err ≢ none)
        ↔ HasBitIn 4 4 (33 ∷ []))
decode_array_of_bits-junk_example =
    decode_array_of_bits-junk 4 (0 ∷ []) (33 ∷ []) (7 ∷ []) (new_decoder (33 ∷ 7 ∷ []) 2) refl refl
      refl

-- A bit list of 15 bits passes a limit of 9.
long_bitlist :
    decode_slice_of_bits_content [] 9 (record (new_decoder (0 ∷ 128 ∷ []) 2) { sizes = 2 ∷ [] })
    ≡ some (some (0 ∷ 128 ∷ []), record (new_decoder [] 2) { sizes = [] })
unfolding decode_slice_of_bits_content decode_sized_bits fill_counted read_full check_bitlist
    bit_length last_byte retrieve_size fill_sizes pop_size ssz.Decoder.resize
long_bitlist = refl

encode_slice_of_dynamic_bytes_offset-size_example :
    encode_slice_of_dynamic_bytes_offset two_blobs socket
    ≡ put_offset (size_slice_of_dynamic_bytes two_blobs) socket
encode_slice_of_dynamic_bytes_offset-size_example =
    encode_slice_of_dynamic_bytes_offset-size two_blobs socket (omega arith)

encode_slice_of_dynamic_objects_offset-size_example :
    (encode_slice_of_dynamic_objects_offset encode_uint64 0
        (λ n. n + 8)
        (λ n. 8)
        (5 ∷ 6 ∷ [])
        socket
      ≡ put_offset (size_slice_of_dynamic_objects (λ n. n + 8) (5 ∷ 6 ∷ [])) socket)
    × (size_slice_of_dynamic_objects (λ n. n + 8) (5 ∷ 6 ∷ [])
        ≡ total_size (λ n. n + 8) (5 ∷ 6 ∷ []) % 2 ^ 32)
encode_slice_of_dynamic_objects_offset-size_example =
    encode_slice_of_dynamic_objects_offset-size encode_uint64 0 (λ n. n + 8) (λ n. 8) (5 ∷ 6 ∷ [])
      socket (omega arith)
