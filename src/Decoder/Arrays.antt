-- ===== src/Decoder/Arrays.antt =====
-- decoder.go: arrays of numbers and of byte strings, lists of static byte strings, and the offsets of
-- lists.
use ssz.Base.{
  ℕ, ◌/◌, ◌%◌, false, Option, none, some, List, [], ◌∷◌, length, take, replicate, ltb, ◌==◌,
  if◌then◌else◌, ◌>>=◌,
}
use ssz.Base.Words.{get_uint, zeros}
use ssz.Errors.{unexpected_eof, max_items_exceeded, dynamic_statics_indivisible}
use ssz.Fork.{ForkFilter, is_absent}
use ssz.Decoder.{Decoder, fail, has_failed, read_buf, count_read, advance, on_fork}
use ssz.Decoder.Offsets.{decode_offset, retrieve_size, descend_into_slot, ascend_from_slot}
use ssz.Decoder.Bits.{fill_counted}

-- One uint64 of an array; a number that cannot be read keeps its value.
unfoldable pub fill_number : ℕ → Decoder → ℕ × Decoder
fill_number n dec =
    let d = read_buf 8 dec in
    if dec.streaming
    then (if has_failed d.err then (n, d) else (get_uint (take 8 d.buf), count_read 8 d))
    else (if ltb (length dec.input) 8
        then (n, fail unexpected_eof dec)
        else (get_uint (take 8 dec.input), advance 8 dec))

-- The loops over the elements of an array, which return at the first failure.
unfoldable pub fill_each {ℓ} :
    {A : Type ℓ} → (A → Decoder → A × Decoder) → List A → Decoder → List A × Decoder
fill_each fill [] dec = ([], dec)
fill_each fill (a ∷ items) dec =
    let (b, d) = fill a dec in
    let (bs, d') = fill_each fill items d in
    if has_failed d.err then (b ∷ items, d) else (b ∷ bs, d')

unfoldable pub decode_array_of_uint64s : List ℕ → Decoder → List ℕ × Decoder
decode_array_of_uint64s ns dec =
    if has_failed dec.err then (ns, dec) else fill_each fill_number ns dec

-- `size` is the length of the array type.
unfoldable pub decode_array_of_uint64s_pointer_on_fork :
    ℕ → Option (List ℕ) → ForkFilter → Decoder → Option (List ℕ) × Decoder
decode_array_of_uint64s_pointer_on_fork size ns filter dec =
    on_fork decode_array_of_uint64s (zeros size) ns filter dec

unfoldable pub decode_unsafe_array_of_static_bytes :
    List (List ℕ) → Decoder → List (List ℕ) × Decoder
decode_unsafe_array_of_static_bytes blobs dec =
    if has_failed dec.err then (blobs, dec) else fill_each fill_counted blobs dec

unfoldable pub decode_array_of_static_bytes : List (List ℕ) → Decoder → List (List ℕ) × Decoder
decode_array_of_static_bytes blobs dec = decode_unsafe_array_of_static_bytes blobs dec

unfoldable pub decode_slice_of_uint64s_offset : Decoder → Decoder
decode_slice_of_uint64s_offset dec = decode_offset false dec

unfoldable pub decode_slice_of_uint64s_offset_on_fork : ForkFilter → Decoder → Decoder
decode_slice_of_uint64s_offset_on_fork filter dec =
    if is_absent dec.fork filter then dec else decode_slice_of_uint64s_offset dec

unfoldable pub decode_slice_of_static_bytes_offset : Decoder → Decoder
decode_slice_of_static_bytes_offset dec = decode_offset false dec

unfoldable pub decode_slice_of_static_bytes_offset_on_fork : ForkFilter → Decoder → Decoder
decode_slice_of_static_bytes_offset_on_fork filter dec =
    if is_absent dec.fork filter then dec else decode_slice_of_static_bytes_offset dec

unfoldable pub decode_slice_of_dynamic_bytes_offset : Decoder → Decoder
decode_slice_of_dynamic_bytes_offset dec = decode_offset false dec

unfoldable pub decode_slice_of_dynamic_bytes_offset_on_fork : ForkFilter → Decoder → Decoder
decode_slice_of_dynamic_bytes_offset_on_fork filter dec =
    if is_absent dec.fork filter then dec else decode_slice_of_dynamic_bytes_offset dec

-- `width` is the length of the element type.
module _ (width : ℕ) where
  unfoldable pub resize_arrays : ℕ → List (List ℕ) → List (List ℕ)
  resize_arrays count backing =
      if ltb (length backing) count then replicate count (zeros width) else take count backing

  unfoldable pub decode_checked_array_of_static_bytes :
      List (List ℕ) → ℕ → Decoder → Option (List (List ℕ)) × Decoder
  decode_checked_array_of_static_bytes backing size dec =
      let (blobs, d) = fill_each fill_counted (resize_arrays size backing) dec in
      if has_failed dec.err then (none, dec) else (some blobs, d)

  unfoldable pub decode_sized_static_bytes :
      List (List ℕ) → ℕ → ℕ → Decoder → Option (Option (List (List ℕ)) × Decoder)
  decode_sized_static_bytes backing max_items size dec =
      let count = size / width in
      let (blobs, d) =
        fill_each fill_counted (resize_arrays count backing) (descend_into_slot size dec) in
      if size == 0
      then some (some [], dec)
      else (if size % width == 0
          then (if ltb max_items count
              then some (none, fail max_items_exceeded dec)
              else (ascend_from_slot d >>= λ a. some (some blobs, a)))
          else some (none, fail dynamic_statics_indivisible dec))

  unfoldable pub decode_slice_of_static_bytes_content :
      List (List ℕ) → ℕ → Decoder → Option (Option (List (List ℕ)) × Decoder)
  decode_slice_of_static_bytes_content backing max_items dec =
      if has_failed dec.err
      then some (none, dec)
      else retrieve_size dec >>= λ r. decode_sized_static_bytes backing max_items r.0 r.1

-- A content that the fork does not have is set to nil: `some` of no list.
unfoldable pub content_on_fork {ℓ} :
    {A : Type ℓ}
    → (Decoder → Option (Option A × Decoder))
    → ForkFilter
    → Decoder
    → Option (Option (Option A) × Decoder)
content_on_fork decode filter dec =
    if is_absent dec.fork filter
    then some (some none, dec)
    else decode dec >>= λ r. some ((elim r.0 [ none ↦ none | some a ↦ some (some a) ]), r.1)
