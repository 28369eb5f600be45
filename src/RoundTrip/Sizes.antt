-- ===== src/RoundTrip/Sizes.antt =====
-- encoder.go reserves as many bytes behind an offset as sizer.go counts.
use ssz.Base.{
  ℕ, ◌+◌, ◌%◌, ◌^◌, ◌<◌, ◌≡◌, refl, ap, Option, none, some, List, [], ◌∷◌, length, if◌then◌else◌,
  ◌>>=◌, arith,
}
use ssz.Base.Words.{u32, put_uint}
use ssz.Errors.{Error}
use ssz.Format.{encoded_length, length-encoding}
use ssz.Sizer.{
  size_objects_from, size_slice_of_dynamic_objects, total_size, size_objects_from-mod,
  size_slice_of_dynamic_bytes, size_slice_of_dynamic_bytes-encoding,
}
use ssz.Encoder.{Sink, Encoder, emit, emit_to, put_in, is_halted, put_offset, put_offset_by}
use ssz.Encoder.Dynamic.{add_sizes, encode_slice_of_dynamic_bytes_offset}
use ssz.Encoder.Objects.{add_object_sizes, encode_slice_of_dynamic_objects_offset}

put_offset_by-agree :
    (f g : ℕ → ℕ) (e : Encoder) → f e.offset ≡ g e.offset → put_offset_by f e ≡ put_offset_by g e
unfolding put_offset_by emit
put_offset_by-agree f g e same =
    ap (λ x. if is_halted e.sink e.err then some e else x)
      (after (emit_to e.sink e.err (put_uint 4 e.offset)))
  where
    after :
        (m : Option (Sink × Option Error))
        → ((m >>= λ r. some (put_in r e)) >>= λ o. some (record o { offset = f o.offset }))
          ≡ ((m >>= λ r. some (put_in r e)) >>= λ o. some (record o { offset = g o.offset }))
    after none = refl
    after (some r) = ap (λ n. some (record (put_in r e) { offset = n })) same

add_sizes-mod :
    (blobs : List (List ℕ)) (size : ℕ)
    → size < 2 ^ 32
    → add_sizes size blobs ≡ (size + encoded_length blobs) % 2 ^ 32
unfolding add_sizes
add_sizes-mod [] size small = omega arith
add_sizes-mod (b ∷ bs) size small =
    omega (arith, add_sizes-mod bs (u32 (size + u32 (4 + length b))) (omega arith))

-- EncodeSliceOfDynamicBytesOffset writes the present offset and moves it by the size that
-- SizeSliceOfDynamicBytes gives to the list, wrapping as one addition would, if the offset is a
-- uint32.
pub encode_slice_of_dynamic_bytes_offset-size :
    (blobs : List (List ℕ)) (e : Encoder)
    → e.offset < 2 ^ 32
    → encode_slice_of_dynamic_bytes_offset blobs e
      ≡ put_offset (size_slice_of_dynamic_bytes blobs) e
unfolding encode_slice_of_dynamic_bytes_offset
encode_slice_of_dynamic_bytes_offset-size blobs e small =
    put_offset_by-agree (λ o. add_sizes o blobs) (λ o. u32 (o + size_slice_of_dynamic_bytes blobs))
      e
      (omega (
        arith,
        add_sizes-mod blobs e.offset small,
        size_slice_of_dynamic_bytes-encoding blobs,
        length-encoding blobs,
      ))

module _ {A : Type 0} (define : A → Encoder → Option Encoder) (zero_value : A)
    (full_size fixed_size : A → ℕ) where
  add_object_sizes-mod :
      (objects : List A) (size : ℕ)
      → size < 2 ^ 32
      → add_object_sizes define zero_value full_size fixed_size size objects
        ≡ (size + total_size full_size objects) % 2 ^ 32
  unfolding add_object_sizes
  add_object_sizes-mod [] size small = omega arith
  add_object_sizes-mod (o ∷ os) size small =
      omega (arith, add_object_sizes-mod os (u32 (size + u32 (4 + full_size o))) (omega arith))

  -- EncodeSliceOfDynamicObjectsOffset writes the present offset and moves it by the size that
  -- SizeSliceOfDynamicObjects gives to the list, whatever sizes the objects report, if
  -- the offset is a uint32; this size is four bytes and the object's size for each object, summed up
  -- modulo 2^32.
  pub encode_slice_of_dynamic_objects_offset-size :
      (objects : List A) (e : Encoder)
      → e.offset < 2 ^ 32
      → (encode_slice_of_dynamic_objects_offset define zero_value full_size fixed_size objects e
          ≡ put_offset (size_slice_of_dynamic_objects full_size objects) e)
        × (size_slice_of_dynamic_objects full_size objects ≡ total_size full_size objects % 2 ^ 32)
  unfolding encode_slice_of_dynamic_objects_offset size_slice_of_dynamic_objects
  encode_slice_of_dynamic_objects_offset-size objects e small = (
    put_offset_by-agree (λ o. add_object_sizes define zero_value full_size fixed_size o objects)
        (λ o. u32 (o + size_objects_from full_size 0 objects)) e
        (omega (
          arith,
          add_object_sizes-mod objects e.offset small,
          size_objects_from-mod full_size objects 0 (omega arith),
        )),
    omega (arith, size_objects_from-mod full_size objects 0 (omega arith)),
  )
