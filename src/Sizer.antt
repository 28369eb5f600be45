-- ===== src/Sizer.antt =====
-- sizer.go: the serialized size of the dynamic part of each kind of field, as a uint32.
use ssz.Base.{ℕ, ◌+◌, ◌*◌, ◌%◌, ◌^◌, ◌<◌, ◌≡◌, Option, none, some, List, [], ◌∷◌, length, arith}
use ssz.Base.Words.{u32}
use ssz.Format.{encoded_length, encoding, length-encoding}

unfoldable pub size_dynamic_bytes : List ℕ → ℕ
size_dynamic_bytes blob = u32 (length blob)

-- `bitlist_zero` is go-bitfield's NewBitlist(0), as which a nil bit list is sized.
unfoldable pub size_slice_of_bits : List ℕ → Option (List ℕ) → ℕ
size_slice_of_bits bitlist_zero none = u32 (length bitlist_zero)
size_slice_of_bits bitlist_zero (some bits) = u32 (length bits)

unfoldable pub size_slice_of_uint64s : List ℕ → ℕ
size_slice_of_uint64s ns = u32 (u32 (length ns) * 8)

unfoldable pub size_slice_of_static_bytes : List (List ℕ) → ℕ
size_slice_of_static_bytes [] = 0
size_slice_of_static_bytes (b ∷ bs) = u32 (length (b ∷ bs) * length b)

-- The loop over the blobs, with the size so far.
unfoldable pub size_blobs_from : ℕ → List (List ℕ) → ℕ
size_blobs_from size [] = size
size_blobs_from size (b ∷ bs) = size_blobs_from (u32 (size + u32 (4 + length b))) bs

unfoldable pub size_slice_of_dynamic_bytes : List (List ℕ) → ℕ
size_slice_of_dynamic_bytes blobs = size_blobs_from 0 blobs

size_blobs_from-mod :
    (blobs : List (List ℕ)) (size : ℕ)
    → size < 2 ^ 32
    → size_blobs_from size blobs ≡ (size + encoded_length blobs) % 2 ^ 32
unfolding size_blobs_from
size_blobs_from-mod [] size small = omega arith
size_blobs_from-mod (b ∷ bs) size small =
    omega (arith, size_blobs_from-mod bs (u32 (size + u32 (4 + length b))) (omega arith))

-- SizeSliceOfDynamicBytes is the length of the encoding, modulo 2^32.
pub size_slice_of_dynamic_bytes-encoding :
    (blobs : List (List ℕ)) → size_slice_of_dynamic_bytes blobs ≡ length (encoding blobs) % 2 ^ 32
unfolding size_slice_of_dynamic_bytes
size_slice_of_dynamic_bytes-encoding blobs =
    omega (arith, size_blobs_from-mod blobs 0 (omega arith), length-encoding blobs)

-- `full_size` is SizeSSZ of the object, and `zero_value` what zeroes.go makes for a nil object.
unfoldable pub size_dynamic_object : {A : Type 0} → (A → ℕ) → A → Option A → ℕ
size_dynamic_object full_size zero_value none = full_size zero_value
size_dynamic_object full_size zero_value (some obj) = full_size obj

unfoldable pub size_slice_of_static_objects : {A : Type 0} → (A → ℕ) → List A → ℕ
size_slice_of_static_objects item_size [] = 0
size_slice_of_static_objects item_size (o ∷ os) = u32 (u32 (length (o ∷ os)) * item_size o)

-- The loop over the objects, with the size so far.
unfoldable pub size_objects_from : {A : Type 0} → (A → ℕ) → ℕ → List A → ℕ
size_objects_from full_size size [] = size
size_objects_from full_size size (o ∷ os) =
    size_objects_from full_size (u32 (size + u32 (4 + full_size o))) os

unfoldable pub size_slice_of_dynamic_objects : {A : Type 0} → (A → ℕ) → List A → ℕ
size_slice_of_dynamic_objects full_size objects = size_objects_from full_size 0 objects

-- The sum without wrapping: four bytes and the object's size for each.
abbrev pub total_size : {A : Type 0} → (A → ℕ) → List A → ℕ
total_size full_size [] = 0
total_size full_size (o ∷ os) = 4 + full_size o + total_size full_size os

pub size_objects_from-mod :
    {A : Type 0} (full_size : A → ℕ) (objects : List A) (size : ℕ)
    → size < 2 ^ 32
    → size_objects_from full_size size objects ≡ (size + total_size full_size objects) % 2 ^ 32
unfolding size_objects_from
size_objects_from-mod full_size [] size small = omega arith
size_objects_from-mod full_size (o ∷ os) size small =
    omega
      (arith, size_objects_from-mod full_size os (u32 (size + u32 (4 + full_size o))) (omega arith))
