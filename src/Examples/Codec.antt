-- ===== src/Examples/Codec.antt =====
-- encoder.go, decoder.go, sizer.go and forks.go at concrete inputs.
use ssz.Base.{
  ℕ, suc, ◌+◌, ◌%◌, ◌^◌, ◌≡◌, refl, false, none, some, List, [], ◌∷◌, ◌++◌, length, ◌>>=◌, arith,
}
use ssz.Base.Words.{put_uint, zeros}
use ssz.Errors.{eof, io_failure}
use ssz.Format.{encoding}
use ssz.Sizer.{size_slice_of_dynamic_bytes, size_blobs_from, size_slice_of_dynamic_bytes-encoding}
use ssz.Encoder.{
  stream, buffer, Encoder, emit, emit_to, write, is_halted, put_offset_by, encode_uint64,
  encode_static_bytes, encode_zeroes, offset_dynamics,
}
use ssz.Encoder.Emit.{emit-append, encode_zeroes-emit}
use ssz.Encoder.Dynamic.{encode_slice_of_dynamic_bytes_content, write_offsets, write_blobs}
use ssz.Encoder.Layout.{into, encode_slice_of_dynamic_bytes_content-into}
use ssz.Decoder.{Decoder, decode_uint64, decode_static_bytes}
use ssz.Decoder.Offsets.{seen, decode_offset, retrieve_size}
use ssz.Decoder.Contents.{decode_slice_of_dynamic_bytes_content}
use ssz.Decoder.Order.{IsOrdered, decode_offset-IsOrdered, retrieve_size-sum, sum, Tiles}
use ssz.RoundTrip.{IsAt, Reads, decode-encode_slice_of_dynamic_bytes}
use ssz.RoundTrip.Scalars.{
  Gives, decode_uint64-encode_uint64, decode_static_bytes-encode_static_bytes,
}

abbrev pub two_blobs : List (List ℕ)
two_blobs = (5 ∷ 6 ∷ []) ∷ (7 ∷ []) ∷ []

abbrev encoded : List ℕ
encoded = 8 ∷ 0 ∷ 0 ∷ 0 ∷ 10 ∷ 0 ∷ 0 ∷ 0 ∷ 5 ∷ 6 ∷ 7 ∷ []

abbrev pub new_encoder : Encoder
new_encoder = record { sink = buffer [] []; err = none; offset = 0; fork = 0 }

abbrev pub socket : Encoder
socket = record {
  sink = stream (record { written = 1 ∷ []; room = 20; failure = io_failure 5 });
  err = none;
  offset = 0;
  fork = 0;
}

abbrev pub new_decoder : List ℕ → ℕ → Decoder
new_decoder input size = record {
  streaming = false;
  input = input;
  stop = eof;
  in_read = 0;
  in_reads = [];
  in_buf_ptr = 0;
  in_buf_ptrs = [];
  in_buf_end = 1000;
  err = none;
  fork = 0;
  buf = zeros 32;
  msg_length = size;
  lengths = [];
  offset = 4;
  offsets = none;
  sizes = [];
  sizess = [];
}

abbrev at_encoded : Decoder
at_encoded = record (new_decoder (encoded ++ (9 ∷ [])) 20) { sizes = 11 ∷ 3 ∷ [] }

encode_two_blobs :
    encode_slice_of_dynamic_bytes_content two_blobs (into new_encoder (3 ∷ []) (zeros 12) 4)
    ≡ some (into new_encoder (3 ∷ encoded) (0 ∷ []) 11)
unfolding encode_slice_of_dynamic_bytes_content write_offsets write_blobs put_offset_by is_halted
    offset_dynamics emit emit_to put_uint
encode_two_blobs = refl

before_encoded :
    IsAt (size_slice_of_dynamic_bytes two_blobs) (3 ∷ []) (encoded ++ (9 ∷ [])) at_encoded
unfolding size_slice_of_dynamic_bytes size_blobs_from seen
before_encoded = record {
  buffered = refl;
  sound = refl;
  settled = refl;
  next = refl;
  front = refl;
  within = omega arith;
  short = omega arith;
}

decode-encode_slice_of_dynamic_bytes_example :
    Reads (9 ∷ []) (3 ∷ []) two_blobs (decode_slice_of_dynamic_bytes_content [] 4 32 at_encoded)
decode-encode_slice_of_dynamic_bytes_example =
    decode-encode_slice_of_dynamic_bytes two_blobs new_encoder (3 ∷ []) (zeros 12) 4
      (into new_encoder (3 ∷ encoded) (0 ∷ []) 11) (omega arith) (omega arith) encode_two_blobs
      encoded (0 ∷ []) refl (9 ∷ []) (3 ∷ []) [] 4 32 at_encoded before_encoded (omega arith)
      (omega arith, (omega arith, tt))

encode_slice_of_dynamic_bytes_content-into_example :
    encode_slice_of_dynamic_bytes_content two_blobs (into new_encoder [] (zeros 12) 4)
    ≡ some (into new_encoder (encoding two_blobs) (0 ∷ []) 11)
encode_slice_of_dynamic_bytes_content-into_example =
    encode_slice_of_dynamic_bytes_content-into new_encoder two_blobs [] (zeros 12) 4 (omega arith)
      (omega arith)

size_slice_of_dynamic_bytes-encoding_example :
    size_slice_of_dynamic_bytes two_blobs ≡ length (encoding two_blobs) % 2 ^ 32
size_slice_of_dynamic_bytes-encoding_example = size_slice_of_dynamic_bytes-encoding two_blobs

emit-append_example :
    emit ((1 ∷ 2 ∷ []) ++ (3 ∷ [])) socket ≡ (emit (1 ∷ 2 ∷ []) socket >>= emit (3 ∷ []))
emit-append_example = emit-append (1 ∷ 2 ∷ []) (3 ∷ []) socket

encode_zeroes-emit_example : encode_zeroes 40 socket ≡ emit (zeros 40) socket
encode_zeroes-emit_example = encode_zeroes-emit 40 socket

-- Two offsets of a message of 20 bytes.
abbrev two_offsets : Decoder
two_offsets = record (new_decoder (15 ∷ 0 ∷ 0 ∷ 0 ∷ []) 20) {
  offset = 12;
  offsets = some (8 ∷ 12 ∷ []);
}

two_offsets-IsOrdered : IsOrdered two_offsets
unfolding seen
two_offsets-IsOrdered = record { ascending = (omega arith, omega arith); ending = refl }

decode_offset-IsOrdered_example : IsOrdered (decode_offset false two_offsets)
decode_offset-IsOrdered_example = decode_offset-IsOrdered false two_offsets two_offsets-IsOrdered

pending_offsets : seen two_offsets.offsets ≡ 8 ∷ 12 ∷ []
unfolding seen
pending_offsets = refl

retrieve_size-sum_example :
    (size : ℕ) × (d : Decoder) × (retrieve_size two_offsets ≡ some (size, d))
    × Tiles (8 ∷ 12 ∷ []) (size ∷ d.sizes) 20
    × (8 + (size + sum d.sizes) ≡ 20)
    × (suc (length d.sizes) ≡ 2)
    × (seen d.offsets ≡ [])
retrieve_size-sum_example =
    retrieve_size-sum two_offsets 8 (12 ∷ []) two_offsets-IsOrdered refl pending_offsets
      (omega arith)

encode_number :
    encode_uint64 258 socket
    ≡ some (record socket {
      sink = stream (record { written = 1 ∷ 2 ∷ 1 ∷ zeros 6; room = 12; failure = io_failure 5 });
    })
unfolding encode_uint64 emit emit_to write put_uint
encode_number = refl

decode_uint64-encode_uint64_example :
    Gives 258 (9 ∷ []) (decode_uint64 0 (new_decoder ((2 ∷ 1 ∷ zeros 6) ++ (9 ∷ [])) 9))
decode_uint64-encode_uint64_example =
    decode_uint64-encode_uint64 258 0 socket _ (2 ∷ 1 ∷ zeros 6) (9 ∷ [])
      (new_decoder ((2 ∷ 1 ∷ zeros 6) ++ (9 ∷ [])) 9) (omega arith) refl encode_number refl refl
      refl refl

encode_array :
    encode_static_bytes (4 ∷ 5 ∷ []) socket
    ≡ some (record socket {
      sink = stream (record { written = 1 ∷ 4 ∷ 5 ∷ []; room = 18; failure = io_failure 5 });
    })
unfolding encode_static_bytes emit emit_to write
encode_array = refl

decode_static_bytes-encode_static_bytes_example :
    Gives (4 ∷ 5 ∷ []) [] (decode_static_bytes (zeros 2) (new_decoder (4 ∷ 5 ∷ []) 2))
decode_static_bytes-encode_static_bytes_example =
    decode_static_bytes-encode_static_bytes (4 ∷ 5 ∷ []) (zeros 2) socket _ (4 ∷ 5 ∷ []) []
      (new_decoder (4 ∷ 5 ∷ []) 2) refl refl encode_array refl refl refl refl
