-- ===== src/Examples/Numbers.antt =====
-- Lists of uint64s of encoder.go and decoder.go, at concrete inputs.
use ssz.Base.{ℕ, ◌≡◌, refl, some, List, [], ◌∷◌, ◌++◌, arith}
use ssz.Base.Words.{put_uint, zeros}
use ssz.Errors.{io_failure}
use ssz.Format.{number_bytes}
use ssz.Sizer.{size_slice_of_uint64s}
use ssz.Encoder.{stream, emit, emit_to, write}
use ssz.Encoder.Dynamic.{encode_slice_of_uint64s_content}
use ssz.Decoder.{Decoder}
use ssz.Decoder.Contents.{decode_slice_of_uint64s_content}
use ssz.RoundTrip.Numbers.{
  GivesContent, encode_slice_of_uint64s_content-emit,
  decode_slice_of_uint64s-encode_slice_of_uint64s,
}
use ssz.Examples.Codec.{socket, new_decoder}

encode_slice_of_uint64s_content-emit_example :
    encode_slice_of_uint64s_content (1 ∷ 2 ∷ []) socket ≡ emit (number_bytes (1 ∷ 2 ∷ [])) socket
encode_slice_of_uint64s_content-emit_example =
    encode_slice_of_uint64s_content-emit (1 ∷ 2 ∷ []) socket

abbrev two_numbers : List ℕ
two_numbers = 7 ∷ zeros 7 ++ 1 ∷ 2 ∷ zeros 6

encode_two_numbers :
    encode_slice_of_uint64s_content (7 ∷ 513 ∷ []) socket
    ≡ some (record socket {
      sink = stream (record { written = 1 ∷ two_numbers; room = 4; failure = io_failure 5 });
    })
unfolding encode_slice_of_uint64s_content emit emit_to write put_uint
encode_two_numbers = refl

abbrev before_numbers : Decoder
before_numbers = record (new_decoder (two_numbers ++ (9 ∷ [])) 17) { sizes = 16 ∷ 3 ∷ [] }

next_size : before_numbers.sizes ≡ size_slice_of_uint64s (7 ∷ 513 ∷ []) ∷ 3 ∷ []
unfolding size_slice_of_uint64s
next_size = refl

decode_slice_of_uint64s-encode_slice_of_uint64s_example :
    GivesContent (7 ∷ 513 ∷ []) (9 ∷ []) (decode_slice_of_uint64s_content [] 8 before_numbers)
decode_slice_of_uint64s-encode_slice_of_uint64s_example =
    decode_slice_of_uint64s-encode_slice_of_uint64s (7 ∷ 513 ∷ []) socket _ two_numbers (9 ∷ [])
      (3 ∷ []) [] 8 before_numbers (omega arith, (omega arith, tt)) (omega arith) refl
      encode_two_numbers refl refl refl next_size refl (omega arith)
