-- ===== src/Encoder/Dynamic.antt =====
-- encoder.go: dynamic fields, arrays, slices and objects. A field with dynamic size writes its offset
-- first and its content at the end.
use ssz.Base.{ℕ, ◌+◌, ◌*◌, Option, none, some, List, [], ◌∷◌, length, if◌then◌else◌, ◌>>=◌}
use ssz.Base.Words.{u32, put_uint}
use ssz.Fork.{ForkFilter, is_absent}
use ssz.Encoder.{Encoder, emit, put_offset, put_offset_by, offset_dynamics, encode_zeroes}

unfoldable pub encode_dynamic_bytes_offset : List ℕ → Encoder → Option Encoder
encode_dynamic_bytes_offset blob e = put_offset (u32 (length blob)) e

unfoldable pub encode_dynamic_bytes_offset_on_fork : List ℕ → ForkFilter → Encoder → Option Encoder
encode_dynamic_bytes_offset_on_fork blob filter e =
    if is_absent e.fork filter then some e else encode_dynamic_bytes_offset blob e

unfoldable pub encode_dynamic_bytes_content : List ℕ → Encoder → Option Encoder
encode_dynamic_bytes_content blob e = emit blob e

unfoldable pub encode_dynamic_bytes_content_on_fork : List ℕ → ForkFilter → Encoder → Option Encoder
encode_dynamic_bytes_content_on_fork blob filter e =
    if is_absent e.fork filter then some e else encode_dynamic_bytes_content blob e

unfoldable pub encode_array_of_bits : List ℕ → Encoder → Option Encoder
encode_array_of_bits bits e = emit bits e

unfoldable pub encode_array_of_bits_pointer_on_fork :
    ℕ → Option (List ℕ) → ForkFilter → Encoder → Option Encoder
encode_array_of_bits_pointer_on_fork size bits filter e =
    if is_absent e.fork filter
    then some e
    else elim bits [ none ↦ encode_zeroes size e | some b ↦ encode_array_of_bits b e ]

-- `bitlist_zero` is go-bitfield's NewBitlist(0), which stands for a nil bit list.
module _ (bitlist_zero : List ℕ) where
  unfoldable pub bits_or_zero : Option (List ℕ) → List ℕ
  bits_or_zero none = bitlist_zero
  bits_or_zero (some bits) = bits

  unfoldable pub encode_slice_of_bits_offset : Option (List ℕ) → Encoder → Option Encoder
  encode_slice_of_bits_offset bits e = put_offset (u32 (length (bits_or_zero bits))) e

  unfoldable pub encode_slice_of_bits_offset_on_fork :
      Option (List ℕ) → ForkFilter → Encoder → Option Encoder
  encode_slice_of_bits_offset_on_fork bits filter e =
      if is_absent e.fork filter then some e else encode_slice_of_bits_offset bits e

  unfoldable pub encode_slice_of_bits_content : Option (List ℕ) → Encoder → Option Encoder
  encode_slice_of_bits_content bits e = emit (bits_or_zero bits) e

  unfoldable pub encode_slice_of_bits_content_on_fork :
      Option (List ℕ) → ForkFilter → Encoder → Option Encoder
  encode_slice_of_bits_content_on_fork bits filter e =
      if is_absent e.fork filter then some e else encode_slice_of_bits_content bits e

-- The loop over uint64s of an array.
unfoldable pub encode_array_of_uint64s : List ℕ → Encoder → Option Encoder
encode_array_of_uint64s [] e = some e
encode_array_of_uint64s (n ∷ ns) e = emit (put_uint 8 n) e >>= encode_array_of_uint64s ns

-- `size` is the length of the array type.
unfoldable pub encode_array_of_uint64s_pointer_on_fork :
    ℕ → Option (List ℕ) → ForkFilter → Encoder → Option Encoder
encode_array_of_uint64s_pointer_on_fork size ns filter e =
    if is_absent e.fork filter
    then some e
    else elim ns [ none ↦ encode_zeroes (size * 8) e | some l ↦ encode_array_of_uint64s l e ]

unfoldable pub encode_slice_of_uint64s_offset : List ℕ → Encoder → Option Encoder
encode_slice_of_uint64s_offset ns e = put_offset (u32 (length ns * 8)) e

unfoldable pub encode_slice_of_uint64s_offset_on_fork :
    List ℕ → ForkFilter → Encoder → Option Encoder
encode_slice_of_uint64s_offset_on_fork ns filter e =
    if is_absent e.fork filter then some e else encode_slice_of_uint64s_offset ns e

unfoldable pub encode_slice_of_uint64s_content : List ℕ → Encoder → Option Encoder
encode_slice_of_uint64s_content [] e = some e
encode_slice_of_uint64s_content (n ∷ ns) e =
    emit (put_uint 8 n) e >>= encode_slice_of_uint64s_content ns

unfoldable pub encode_slice_of_uint64s_content_on_fork :
    List ℕ → ForkFilter → Encoder → Option Encoder
encode_slice_of_uint64s_content_on_fork ns filter e =
    if is_absent e.fork filter then some e else encode_slice_of_uint64s_content ns e

-- Blobs of one array type.
unfoldable pub encode_unsafe_array_of_static_bytes : List (List ℕ) → Encoder → Option Encoder
encode_unsafe_array_of_static_bytes [] e = some e
encode_unsafe_array_of_static_bytes (b ∷ bs) e = emit b e >>= encode_unsafe_array_of_static_bytes bs

unfoldable pub encode_array_of_static_bytes : List (List ℕ) → Encoder → Option Encoder
encode_array_of_static_bytes blobs e = encode_unsafe_array_of_static_bytes blobs e

unfoldable pub write_blobs : List (List ℕ) → Encoder → Option Encoder
write_blobs [] e = some e
write_blobs (b ∷ bs) e = emit b e >>= write_blobs bs

-- `width` is the length of the array type, and a missing list is a nil slice.
unfoldable pub encode_checked_array_of_static_bytes :
    ℕ → Option (List (List ℕ)) → ℕ → Encoder → Option Encoder
encode_checked_array_of_static_bytes width none size e = encode_zeroes (size * width) e
encode_checked_array_of_static_bytes width (some blobs) size e = write_blobs blobs e

unfoldable pub first_length : List (List ℕ) → ℕ
first_length [] = 0
first_length (b ∷ bs) = length b

unfoldable pub encode_slice_of_static_bytes_offset : List (List ℕ) → Encoder → Option Encoder
encode_slice_of_static_bytes_offset blobs e = put_offset (u32 (length blobs * first_length blobs)) e

unfoldable pub encode_slice_of_static_bytes_offset_on_fork :
    List (List ℕ) → ForkFilter → Encoder → Option Encoder
encode_slice_of_static_bytes_offset_on_fork blobs filter e =
    if is_absent e.fork filter then some e else encode_slice_of_static_bytes_offset blobs e

unfoldable pub encode_slice_of_static_bytes_content : List (List ℕ) → Encoder → Option Encoder
encode_slice_of_static_bytes_content [] e = some e
encode_slice_of_static_bytes_content (b ∷ bs) e =
    emit b e >>= encode_slice_of_static_bytes_content bs

unfoldable pub encode_slice_of_static_bytes_content_on_fork :
    List (List ℕ) → ForkFilter → Encoder → Option Encoder
encode_slice_of_static_bytes_content_on_fork blobs filter e =
    if is_absent e.fork filter then some e else encode_slice_of_static_bytes_content blobs e

-- The additions of the loop, each of which wraps.
unfoldable pub add_sizes : ℕ → List (List ℕ) → ℕ
add_sizes size [] = size
add_sizes size (b ∷ bs) = add_sizes (u32 (size + u32 (4 + length b))) bs

-- The additions follow the write, and in a halted stream neither is made.
unfoldable pub encode_slice_of_dynamic_bytes_offset : List (List ℕ) → Encoder → Option Encoder
encode_slice_of_dynamic_bytes_offset blobs e = put_offset_by (λ o. add_sizes o blobs) e

unfoldable pub encode_slice_of_dynamic_bytes_offset_on_fork :
    List (List ℕ) → ForkFilter → Encoder → Option Encoder
encode_slice_of_dynamic_bytes_offset_on_fork blobs filter e =
    if is_absent e.fork filter then some e else encode_slice_of_dynamic_bytes_offset blobs e

unfoldable pub write_offsets : List (List ℕ) → Encoder → Option Encoder
write_offsets [] e = some e
write_offsets (b ∷ bs) e = put_offset (u32 (length b)) e >>= write_offsets bs

unfoldable pub encode_slice_of_dynamic_bytes_content : List (List ℕ) → Encoder → Option Encoder
encode_slice_of_dynamic_bytes_content blobs e =
    write_offsets blobs (offset_dynamics (u32 (4 * length blobs)) e) >>= write_blobs blobs

unfoldable pub encode_slice_of_dynamic_bytes_content_on_fork :
    List (List ℕ) → ForkFilter → Encoder → Option Encoder
encode_slice_of_dynamic_bytes_content_on_fork blobs filter e =
    if is_absent e.fork filter then some e else encode_slice_of_dynamic_bytes_content blobs e
