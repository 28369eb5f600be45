-- ===== src/Codec/Numbers.antt =====
-- codec.go: fields of 256-bit numbers.
use ssz.Base.{Option, some}
use ssz.Fork.{ForkFilter}
use ssz.Hasher.{Sha}
use ssz.Uint256.{
  Uint256, decode_uint256, decode_uint256_big_int, decode_uint256_big_int_on_fork,
  decode_uint256_on_fork, encode_uint256, encode_uint256_big_int, encode_uint256_big_int_on_fork,
  encode_uint256_on_fork, hash_uint256, hash_uint256_big_int, hash_uint256_big_int_on_fork,
  hash_uint256_on_fork,
}
use ssz.Codec.{Codec, dispatch}

module _ (lib : Uint256) (sha : Sha) where
  unfoldable pub define_uint256 : Option lib.Int → Codec → Option (Option lib.Int × Codec)
  define_uint256 v c =
      dispatch v (encode_uint256 lib v) (λ d. some (decode_uint256 lib v d))
        (λ h. some (hash_uint256 lib sha v h)) c

  unfoldable pub define_uint256_on_fork :
      Option lib.Int → ForkFilter → Codec → Option (Option lib.Int × Codec)
  define_uint256_on_fork v filter c =
      dispatch v (encode_uint256_on_fork lib v filter)
        (λ d. some (decode_uint256_on_fork lib v filter d))
        (λ h. some (hash_uint256_on_fork lib sha c.fork v filter h)) c

  unfoldable pub define_uint256_big_int :
      Option lib.BigInt → Codec → Option (Option lib.BigInt × Codec)
  define_uint256_big_int v c =
      dispatch v (encode_uint256_big_int lib v) (λ d. some (decode_uint256_big_int lib v d))
        (λ h. some (hash_uint256_big_int lib sha v h)) c

  unfoldable pub define_uint256_big_int_on_fork :
      Option lib.BigInt → ForkFilter → Codec → Option (Option lib.BigInt × Codec)
  define_uint256_big_int_on_fork v filter c =
      dispatch v (encode_uint256_big_int_on_fork lib v filter)
        (λ d. some (decode_uint256_big_int_on_fork lib v filter d))
        (λ h. some (hash_uint256_big_int_on_fork lib sha c.fork v filter h)) c
