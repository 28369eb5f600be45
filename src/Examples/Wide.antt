-- ===== src/Examples/Wide.antt =====
-- Fields of 256-bit numbers, with numbers that are kept as their 32 bytes and big numbers that have a
-- sign besides.
use ssz.Base.{
  ℕ, ◌≡◌, refl, Bool, false, none, some, List, [], ◌∷◌, ◌++◌, length, length-append,
  length-replicate, length-take, take, take-append, arith,
}
use mathlib.Core.HLevel.{Σ_prop_path, hedberg}
use native.Mathlib.Decide.{ℕ_discrete}
use ssz.Base.Words.{put_uint, length-put_uint, zeros}
use ssz.Encoder.{buffer, Encoder, emit, emit_to}
use ssz.Uint256.{Uint256, encode_uint256, decode_uint256, marshal_or_zero}
use ssz.Uint256.Wide.{decode_uint256-encode_uint256}
use ssz.RoundTrip.Scalars.{Gives}
use ssz.Examples.Codec.{new_encoder, new_decoder}

abbrev Bytes32 : Type 0
Bytes32 = (bs : List ℕ) × (length bs ≡ 32)

length-cut : (bs : List ℕ) → length (take 32 (bs ++ zeros 32)) ≡ 32
length-cut bs = omega (
  arith,
  length-take 32 (bs ++ zeros 32),
  length-append bs (zeros 32),
  length-replicate {A = ℕ} 32 0,
)

cut-whole : (n : Bytes32) → ◌≡◌ {A = Bytes32} (take 32 (n.0 ++ zeros 32), length-cut n.0) n
cut-whole n =
    Σ_prop_path (λ bs. hedberg ℕ_discrete (length bs) 32) (take-append 32 n.0 (zeros 32) n.1)

abbrev bytes_library : Uint256
bytes_library = record {
  Int = Bytes32;
  BigInt = Bool × Bytes32;
  marshal_ssz = λ n. n.0;
  unmarshal_ssz = λ bs. (take 32 (bs ++ zeros 32), length-cut bs);
  set_from_big = λ n. n.1;
  into_big = λ n. (false, n);
  length-marshal_ssz = λ n. n.1;
  unmarshal_ssz-marshal_ssz = cut-whole;
  set_from_big-into_big = λ n. refl;
}

abbrev wide : Bytes32
wide = (put_uint 32 1000, length-put_uint 32 1000)

abbrev roomy : Encoder
roomy = record new_encoder { sink = buffer [] (zeros 33) }

abbrev wrote : Encoder
wrote = record new_encoder { sink = buffer (put_uint 32 1000) (0 ∷ []) }

encode_wide : encode_uint256 bytes_library (some wide) roomy ≡ some wrote
unfolding encode_uint256 marshal_or_zero emit emit_to put_uint
encode_wide = refl

decode_uint256-encode_uint256_example :
    Gives
      (some wide)
      (9 ∷ [])
      (decode_uint256 bytes_library none (new_decoder (put_uint 32 1000 ++ (9 ∷ [])) 33))
decode_uint256-encode_uint256_example =
    decode_uint256-encode_uint256 bytes_library (some wide) none roomy wrote (put_uint 32 1000)
      (9 ∷ []) (new_decoder (put_uint 32 1000 ++ (9 ∷ [])) 33) refl encode_wide refl refl refl refl
