-- ===== src/Codec/Objects/Slices.antt =====
-- codec.go: lists of objects. The slice to decode into is given by the array of pointers behind it, and
-- `none` for what is left in it says that it keeps its value.
use ssz.Base.{ℕ, Bool, Option, none, some, List}
use ssz.Fork.{Fork, ForkFilter}
use ssz.Encoder.Objects.{
  encode_slice_of_static_objects_offset, encode_slice_of_static_objects_offset_on_fork,
  encode_slice_of_static_objects_content, encode_slice_of_static_objects_content_on_fork,
  encode_slice_of_dynamic_objects_offset, encode_slice_of_dynamic_objects_offset_on_fork,
  encode_slice_of_dynamic_objects_content, encode_slice_of_dynamic_objects_content_on_fork,
}
use ssz.Decoder.Objects.{
  decode_slice_of_static_objects_content, decode_slice_of_dynamic_objects_content,
}
use ssz.Decoder.Forks.{
  decode_slice_of_static_objects_offset, decode_slice_of_static_objects_offset_on_fork,
  decode_slice_of_static_objects_content_on_fork, decode_slice_of_dynamic_objects_offset,
  decode_slice_of_dynamic_objects_offset_on_fork, decode_slice_of_dynamic_objects_content_on_fork,
}
use ssz.Hasher.{Sha}
use ssz.Hashing.Objects.{hash_slice_of_dynamic_objects, hash_slice_of_dynamic_objects_on_fork}
use ssz.Hashing.Workers.{hash_slice_of_static_objects, hash_slice_of_static_objects_on_fork}
use ssz.Codec.{Codec, dispatch, dispatch_content}
use ssz.Codec.Objects.{run_by_encoder, run_by_decoder, run_by_hasher}

module _ {A : Type 0} (define : A → Codec → Option (A × Codec)) (sha : Sha) (zero_value : A) where
  -- `item_size` is SizeSSZ of the static type and `size_on_fork` what SizeOnFork answers; the rest is
  -- the hasher's flag, the processors, the forks of the pooled codecs and the order of the workers.
  module _ (item_size : ℕ) (size_on_fork : A → ℕ) (threads : Bool) (cpus : ℕ) (pooled : ℕ → Fork)
      (order : List ℕ) where
    unfoldable pub define_slice_of_static_objects_offset :
        List A → ℕ → Codec → Option (List A × Codec)
    define_slice_of_static_objects_offset objects max_items c =
        dispatch objects
          (encode_slice_of_static_objects_offset (run_by_encoder define) zero_value item_size
            objects)
          (λ d. some (objects, decode_slice_of_static_objects_offset d))
          (hash_slice_of_static_objects sha (run_by_hasher define) size_on_fork threads cpus pooled
            order c.fork objects max_items)
          c

    unfoldable pub define_slice_of_static_objects_offset_on_fork :
        List A → ℕ → ForkFilter → Codec → Option (List A × Codec)
    define_slice_of_static_objects_offset_on_fork objects max_items filter c =
        dispatch objects
          (encode_slice_of_static_objects_offset_on_fork (run_by_encoder define) zero_value
            item_size objects filter)
          (λ d. some (objects, decode_slice_of_static_objects_offset_on_fork filter d))
          (hash_slice_of_static_objects_on_fork sha (run_by_hasher define) size_on_fork threads cpus
            pooled order c.fork objects max_items filter)
          c

    unfoldable pub define_slice_of_static_objects_content :
        List A → List (Option A) → ℕ → Codec → Option (Option (List (Option A)) × Codec)
    define_slice_of_static_objects_content objects backing max_items c =
        dispatch_content none
          (encode_slice_of_static_objects_content (run_by_encoder define) zero_value objects)
          (decode_slice_of_static_objects_content (run_by_decoder define) zero_value item_size
            backing max_items)
          c

    unfoldable pub define_slice_of_static_objects_content_on_fork :
        List A
        → List (Option A)
        → ℕ
        → ForkFilter
        → Codec
        → Option (Option (Option (List (Option A))) × Codec)
    define_slice_of_static_objects_content_on_fork objects backing max_items filter c =
        dispatch_content none
          (encode_slice_of_static_objects_content_on_fork (run_by_encoder define) zero_value objects
            filter)
          (decode_slice_of_static_objects_content_on_fork (run_by_decoder define) zero_value
            item_size backing max_items filter)
          c

  -- `full_size` is SizeSSZ of a whole object, and `fixed_size` of its static part.
  module _ (full_size fixed_size : A → ℕ) where
    unfoldable pub define_slice_of_dynamic_objects_offset :
        List A → ℕ → Codec → Option (List A × Codec)
    define_slice_of_dynamic_objects_offset objects max_items c =
        dispatch objects
          (encode_slice_of_dynamic_objects_offset (run_by_encoder define) zero_value full_size
            fixed_size objects)
          (λ d. some (objects, decode_slice_of_dynamic_objects_offset d))
          (hash_slice_of_dynamic_objects sha (run_by_hasher define c.fork) objects max_items) c

    unfoldable pub define_slice_of_dynamic_objects_offset_on_fork :
        List A → ℕ → ForkFilter → Codec → Option (List A × Codec)
    define_slice_of_dynamic_objects_offset_on_fork objects max_items filter c =
        dispatch objects
          (encode_slice_of_dynamic_objects_offset_on_fork (run_by_encoder define) zero_value
            full_size fixed_size objects filter)
          (λ d. some (objects, decode_slice_of_dynamic_objects_offset_on_fork filter d))
          (hash_slice_of_dynamic_objects_on_fork sha (run_by_hasher define c.fork) c.fork objects
            max_items filter)
          c

    unfoldable pub define_slice_of_dynamic_objects_content :
        List A → List (Option A) → ℕ → Codec → Option (Option (List (Option A)) × Codec)
    define_slice_of_dynamic_objects_content objects backing max_items c =
        dispatch_content none
          (encode_slice_of_dynamic_objects_content (run_by_encoder define) zero_value full_size
            fixed_size objects)
          (decode_slice_of_dynamic_objects_content (run_by_decoder define) zero_value fixed_size
            backing max_items)
          c

    unfoldable pub define_slice_of_dynamic_objects_content_on_fork :
        List A
        → List (Option A)
        → ℕ
        → ForkFilter
        → Codec
        → Option (Option (Option (List (Option A))) × Codec)
    define_slice_of_dynamic_objects_content_on_fork objects backing max_items filter c =
        dispatch_content none
          (encode_slice_of_dynamic_objects_content_on_fork (run_by_encoder define) zero_value
            full_size fixed_size objects filter)
          (decode_slice_of_dynamic_objects_content_on_fork (run_by_decoder define) zero_value
            fixed_size backing max_items filter)
          c
