-- ===== src/Examples/Entry.antt =====
-- ssz.go at concrete inputs: an object with a single uint64.
use ssz.Base.{ℕ, ◌≡◌, refl, inl, inr, Option, none, some, List, [], ◌∷◌, arith}
use mathlib.Core.Logic.{◌↔◌}
use ssz.Base.Words.{u32, zeros}
use ssz.Errors.{Error, eof}
use ssz.Decoder.{Decoder, decode_uint64, decode_uint, read_buf, read_full}
use ssz.Decoder.Offsets.{descend_into_slot, start_dynamics}
use ssz.Decoder.Slotted.{IsInside, consumed}
use ssz.Entry.{
  static_object, decode_object, from_bytes, from_stream, decode_from_bytes_on_fork,
  decode_from_stream_on_fork, decode_from_bytes_on_fork-consumed,
  decode_from_stream_on_fork-consumed,
}
use ssz.Examples.Codec.{new_decoder}

abbrev define_number : Decoder → Option (ℕ × Decoder)
define_number d = some (decode_uint64 0 d)

-- One byte too many.
abbrev nine_bytes : List ℕ
nine_bytes = 5 ∷ zeros 8

abbrev pooled : Decoder
pooled = new_decoder [] 0

abbrev after_bytes : ℕ × Decoder
after_bytes =
    decode_uint64 0
      (descend_into_slot 9 (from_bytes static_object define_number 100 nine_bytes 0 pooled))

read_bytes :
    decode_object static_object define_number
      (descend_into_slot 9 (from_bytes static_object define_number 100 nine_bytes 0 pooled))
    ≡ some (after_bytes.0, after_bytes.1)
unfolding decode_object
read_bytes = refl

bytes-IsInside :
    IsInside 9 (from_bytes static_object define_number 100 nine_bytes 0 pooled) after_bytes.1
unfolding decode_uint64 decode_uint descend_into_slot start_dynamics
bytes-IsInside = record { bound = refl; above = refl; kept = refl; source = inr (refl, refl) }

decode_from_bytes_on_fork-consumed_example :
    (err : Option Error) × (decode_from_bytes_on_fork static_object define_number 0 100 nine_bytes 0
        pooled
      ≡ some (err, after_bytes.0))
    × ((err ≡ none) ↔ ((after_bytes.1.err ≡ none) × (consumed after_bytes.1 ≡ u32 9)))
decode_from_bytes_on_fork-consumed_example =
    decode_from_bytes_on_fork-consumed static_object define_number 0 100 nine_bytes 0 pooled
      after_bytes.0 after_bytes.1 (omega arith) read_bytes bytes-IsInside

-- The object's static part is all of it.
abbrev after_stream : ℕ × Decoder
after_stream =
    decode_uint64 0
      (descend_into_slot 8 (from_stream static_object define_number nine_bytes eof 0 pooled))

read_stream :
    decode_object static_object define_number
      (descend_into_slot 8 (from_stream static_object define_number nine_bytes eof 0 pooled))
    ≡ some (after_stream.0, after_stream.1)
unfolding decode_object
read_stream = refl

stream-IsInside :
    IsInside 8 (from_stream static_object define_number nine_bytes eof 0 pooled) after_stream.1
unfolding decode_uint64 decode_uint read_buf read_full descend_into_slot start_dynamics
stream-IsInside = record { bound = refl; above = refl; kept = refl; source = inl (refl, refl) }

decode_from_stream_on_fork-consumed_example :
    (err : Option Error) × (decode_from_stream_on_fork static_object define_number nine_bytes eof 8
        0 pooled
      ≡ some (err, after_stream.0))
    × ((err ≡ none) ↔ ((after_stream.1.err ≡ none) × (consumed after_stream.1 ≡ 8)))
decode_from_stream_on_fork-consumed_example =
    decode_from_stream_on_fork-consumed static_object define_number nine_bytes eof 8 0 pooled
      after_stream.0 after_stream.1 read_stream stream-IsInside
