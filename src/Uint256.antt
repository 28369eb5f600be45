-- ===== src/Uint256.antt =====
-- encoder.go, decoder.go and hasher.go: fields of 256-bit numbers, either of github.com/holiman/uint256
-- or of math/big. The scratch number bufInt is overwritten by each use and so is no state here.
pub mod Wide
use ssz.Base.{ℕ, ◌≡◌, Option, none, some, List, length, take, replicate, ltb, if◌then◌else◌}
use ssz.Base.Words.{zeros}
use ssz.Errors.{unexpected_eof}
use ssz.Fork.{Fork, ForkFilter, is_absent}
use ssz.Encoder.{Encoder, emit}
use ssz.Decoder.{Decoder, fail, has_failed, read_buf, count_read, advance}
use ssz.Hasher.{Chunk, Sha, Hasher, insert_chunk}

-- What the code uses of the two libraries: MarshalSSZInto, UnmarshalSSZ, SetFromBig and IntoBig. A
-- number is marshalled into 32 bytes, from which it can be got back.
pub record Uint256 : Type 1 where
  pub Int : Type 0
  pub BigInt : Type 0
  pub marshal_ssz : Int → List ℕ
  pub unmarshal_ssz : List ℕ → Int
  pub set_from_big : BigInt → Int
  pub into_big : Int → BigInt
  pub length-marshal_ssz : (n : Int) → length (marshal_ssz n) ≡ 32
  pub unmarshal_ssz-marshal_ssz : (n : Int) → unmarshal_ssz (marshal_ssz n) ≡ n
  pub set_from_big-into_big : (n : Int) → set_from_big (into_big n) ≡ n

-- `none` is the nil pointer.
module _ (lib : Uint256) where
  open lib use {Int, BigInt, marshal_ssz, unmarshal_ssz, set_from_big, into_big}

  -- The bytes written for a pointer: uint256Zero for nil.
  unfoldable pub marshal_or_zero : Option Int → List ℕ
  marshal_or_zero none = zeros 32
  marshal_or_zero (some n) = marshal_ssz n

  unfoldable pub marshal_big_or_zero : Option BigInt → List ℕ
  marshal_big_or_zero none = zeros 32
  marshal_big_or_zero (some n) = marshal_ssz (set_from_big n)

  unfoldable pub encode_uint256 : Option Int → Encoder → Option Encoder
  encode_uint256 n e = emit (marshal_or_zero n) e

  unfoldable pub encode_uint256_on_fork : Option Int → ForkFilter → Encoder → Option Encoder
  encode_uint256_on_fork n filter e = if is_absent e.fork filter then some e else encode_uint256 n e

  unfoldable pub encode_uint256_big_int : Option BigInt → Encoder → Option Encoder
  encode_uint256_big_int n e = emit (marshal_big_or_zero n) e

  unfoldable pub encode_uint256_big_int_on_fork :
      Option BigInt → ForkFilter → Encoder → Option Encoder
  encode_uint256_big_int_on_fork n filter e =
      if is_absent e.fork filter then some e else encode_uint256_big_int n e

  unfoldable pub decode_uint256 : Option Int → Decoder → Option Int × Decoder
  decode_uint256 n dec =
      if has_failed dec.err
      then (n, dec)
      else (if dec.streaming
          then (let d = read_buf 32 dec in
              if has_failed d.err
              then (n, d)
              else (some (unmarshal_ssz (take 32 d.buf)), count_read 32 d))
          else (if ltb (length dec.input) 32
              then (n, fail unexpected_eof dec)
              else (some (unmarshal_ssz (take 32 dec.input)), advance 32 dec)))

  unfoldable pub decode_uint256_on_fork : Option Int → ForkFilter → Decoder → Option Int × Decoder
  decode_uint256_on_fork n filter dec =
      if is_absent dec.fork filter then (none, dec) else decode_uint256 n dec

  unfoldable pub decode_uint256_big_int : Option BigInt → Decoder → Option BigInt × Decoder
  decode_uint256_big_int n dec =
      if has_failed dec.err
      then (n, dec)
      else (if dec.streaming
          then (let d = read_buf 32 dec in
              if has_failed d.err
              then (n, d)
              else (some (into_big (unmarshal_ssz (take 32 d.buf))), count_read 32 d))
          else (if ltb (length dec.input) 32
              then (n, fail unexpected_eof dec)
              else (some (into_big (unmarshal_ssz (take 32 dec.input))), advance 32 dec)))

  unfoldable pub decode_uint256_big_int_on_fork :
      Option BigInt → ForkFilter → Decoder → Option BigInt × Decoder
  decode_uint256_big_int_on_fork n filter dec =
      if is_absent dec.fork filter then (none, dec) else decode_uint256_big_int n dec

  module _ (sha : Sha) where
    unfoldable pub hash_uint256 : Option Int → Hasher → Hasher
    hash_uint256 none h = insert_chunk sha (replicate 32 0) 0 h
    hash_uint256 (some n) h = insert_chunk sha (marshal_ssz n) 0 h

    unfoldable pub hash_uint256_on_fork : Fork → Option Int → ForkFilter → Hasher → Hasher
    hash_uint256_on_fork fork n filter h = if is_absent fork filter then h else hash_uint256 n h

    unfoldable pub hash_uint256_big_int : Option BigInt → Hasher → Hasher
    hash_uint256_big_int none h = insert_chunk sha (replicate 32 0) 0 h
    hash_uint256_big_int (some n) h = insert_chunk sha (marshal_ssz (set_from_big n)) 0 h

    unfoldable pub hash_uint256_big_int_on_fork :
        Fork → Option BigInt → ForkFilter → Hasher → Hasher
    hash_uint256_big_int_on_fork fork n filter h =
        if is_absent fork filter then h else hash_uint256_big_int n h
