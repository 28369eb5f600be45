-- ===== src/Codec/Objects.antt =====
-- codec.go: fields that are objects or lists of them. `define` is the DefineSSZ method of the type,
-- which the encoder, the decoder and the hasher run by handing it their codec.
pub mod Slices
use ssz.Base.{ℕ, Option, none, some, ◌>>=◌}
use ssz.Fork.{Fork, ForkFilter}
use ssz.Encoder.{Encoder}
use ssz.Encoder.Objects.{
  encode_static_object, encode_static_object_on_fork, encode_dynamic_object_offset,
  encode_dynamic_object_offset_on_fork, encode_dynamic_object_content,
  encode_dynamic_object_content_on_fork,
}
use ssz.Decoder.{Decoder}
use ssz.Decoder.Objects.{
  decode_static_object, decode_static_object_on_fork, decode_dynamic_object_offset,
  decode_dynamic_object_offset_on_fork, decode_dynamic_object_content,
  decode_dynamic_object_content_on_fork,
}
use ssz.Hasher.{Sha, Hasher}
use ssz.Hashing.Objects.{
  hash_static_object, hash_static_object_on_fork, hash_dynamic_object, hash_dynamic_object_on_fork,
}
use ssz.Codec.{Codec, dispatch, dispatch_content, encoding, decoding, hashing}

module _ {A : Type 0} (define : A → Codec → Option (A × Codec)) where
  -- `obj.DefineSSZ(enc.codec)`, and the same for the other two.
  unfoldable pub run_by_encoder : A → Encoder → Option Encoder
  run_by_encoder obj e = define obj (encoding e) >>= λ r. r.1.enc

  unfoldable pub run_by_decoder : A → Decoder → Option (A × Decoder)
  run_by_decoder obj d = define obj (decoding d) >>= λ r. r.1.dec >>= λ d'. some (r.0, d')

  unfoldable pub run_by_hasher : Fork → A → Hasher → Option Hasher
  run_by_hasher fork obj h = define obj (hashing fork h) >>= λ r. r.1.has

  -- `zero_value` is what new makes, and what zeroes.go keeps for a nil object.
  module _ (sha : Sha) (zero_value : A) where
    unfoldable pub define_static_object : Option A → Codec → Option (Option A × Codec)
    define_static_object obj c =
        dispatch obj (encode_static_object run_by_encoder zero_value obj)
          (decode_static_object run_by_decoder zero_value obj)
          (hash_static_object sha (run_by_hasher c.fork) zero_value obj) c

    unfoldable pub define_static_object_on_fork :
        Option A → ForkFilter → Codec → Option (Option A × Codec)
    define_static_object_on_fork obj filter c =
        dispatch obj (encode_static_object_on_fork run_by_encoder zero_value obj filter)
          (decode_static_object_on_fork run_by_decoder zero_value obj filter)
          (hash_static_object_on_fork sha (run_by_hasher c.fork) zero_value c.fork obj filter) c

    -- `full_size` is SizeSSZ of the whole object, and `fixed_size` of its static part.
    module _ (full_size fixed_size : A → ℕ) where
      unfoldable pub define_dynamic_object_offset : Option A → Codec → Option (Option A × Codec)
      define_dynamic_object_offset obj c =
          dispatch obj
            (encode_dynamic_object_offset run_by_encoder zero_value full_size fixed_size obj)
            (λ d. some (obj, decode_dynamic_object_offset d))
            (hash_dynamic_object sha (run_by_hasher c.fork) zero_value obj) c

      unfoldable pub define_dynamic_object_offset_on_fork :
          Option A → ForkFilter → Codec → Option (Option A × Codec)
      define_dynamic_object_offset_on_fork obj filter c =
          dispatch obj
            (encode_dynamic_object_offset_on_fork run_by_encoder zero_value full_size fixed_size obj
              filter)
            (λ d. some (obj, decode_dynamic_object_offset_on_fork filter d))
            (hash_dynamic_object_on_fork sha (run_by_hasher c.fork) zero_value c.fork obj filter) c

      unfoldable pub define_dynamic_object_content : Option A → Codec → Option (Option A × Codec)
      define_dynamic_object_content obj c =
          dispatch_content obj
            (encode_dynamic_object_content run_by_encoder zero_value full_size fixed_size obj)
            (decode_dynamic_object_content run_by_decoder zero_value fixed_size obj) c

      unfoldable pub define_dynamic_object_content_on_fork :
          Option A → ForkFilter → Codec → Option (Option A × Codec)
      define_dynamic_object_content_on_fork obj filter c =
          dispatch_content obj
            (encode_dynamic_object_content_on_fork run_by_encoder zero_value full_size fixed_size
              obj filter)
            (decode_dynamic_object_content_on_fork run_by_decoder zero_value fixed_size obj filter)
            c
