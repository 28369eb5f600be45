-- ===== src/Decoder/Contents.antt =====
-- decoder.go: the contents of arrays and slices. The outer option is an index panic; the inner one is
-- `none` where the slice behind the pointer is left as it was.
use ssz.Base.{
  ℕ, zero, suc, ◌-◌, ◌*◌, ◌/◌, ◌%◌, true, false, Option, none, some, List, [], ◌∷◌, length, take,
  replicate, ltb, ◌==◌, if◌then◌else◌, ◌>>=◌,
}
use ssz.Base.Words.{u32, get_uint}
use ssz.Errors.{
  unexpected_eof, max_length_exceeded, max_items_exceeded, short_counter_offset,
  zero_counter_offset, bad_counter_offset, dynamic_statics_indivisible,
}
use ssz.Fork.{ForkFilter, is_absent}
use ssz.Decoder.{
  Decoder, fail, has_failed, read_full, read_buf, overwrite, count_read, advance, resize,
}
use ssz.Decoder.Offsets.{decode_offset, retrieve_size, descend_into_slot, ascend_from_slot}

abbrev pub Blob : Type 0
Blob = Option (List ℕ)

unfoldable pub decode_dynamic_bytes_offset : Decoder → Decoder
decode_dynamic_bytes_offset dec = decode_offset false dec

unfoldable pub decode_dynamic_bytes_offset_on_fork : ForkFilter → Decoder → Decoder
decode_dynamic_bytes_offset_on_fork filter dec =
    if is_absent dec.fork filter then dec else decode_dynamic_bytes_offset dec

-- The buffer's length is compared as a uint32.
unfoldable pub fill_blob : List ℕ → Decoder → List ℕ × Decoder
fill_blob blob dec =
    let size = length blob in
    if dec.streaming
    then (let (got, d) = read_full size dec in (overwrite got blob, count_read size d))
    else (if ltb (u32 (length dec.input)) size
        then (blob, fail unexpected_eof dec)
        else (take size dec.input, advance size dec))

unfoldable pub decode_sized_bytes : List ℕ → ℕ → ℕ → Decoder → Blob × Decoder
decode_sized_bytes backing max_size size dec =
    if ltb max_size size
    then (none, fail max_length_exceeded dec)
    else (let (blob, d) = fill_blob (resize size backing) dec in (some blob, d))

-- `backing` is the array behind the slice, up to its capacity.
unfoldable pub decode_dynamic_bytes_content : List ℕ → ℕ → Decoder → Option (Blob × Decoder)
decode_dynamic_bytes_content backing max_size dec =
    if has_failed dec.err
    then some (none, dec)
    else retrieve_size dec >>= λ r. some (decode_sized_bytes backing max_size r.0 r.1)

-- A field that the fork does not have is set to nil: `some` of no slice.
unfoldable pub decode_dynamic_bytes_content_on_fork :
    List ℕ → ℕ → ForkFilter → Decoder → Option (Option Blob × Decoder)
decode_dynamic_bytes_content_on_fork backing max_size filter dec =
    if is_absent dec.fork filter
    then some (some none, dec)
    else decode_dynamic_bytes_content backing max_size dec >>= λ r.
        some ((elim r.0 [ none ↦ none | some b ↦ some (some b) ]), r.1)

-- The loops over uint64s: the elements from the first that fails on keep their old value.
unfoldable pub fill_uint64s_stream : List ℕ → Decoder → List ℕ × Decoder
fill_uint64s_stream [] dec = ([], dec)
fill_uint64s_stream (n ∷ ns) dec =
    let d = read_buf 8 dec in
    let (ms, d') = fill_uint64s_stream ns d in
    if has_failed d.err then (n ∷ ns, d) else (get_uint (take 8 d.buf) ∷ ms, d')

unfoldable pub fill_uint64s_buffer : List ℕ → Decoder → List ℕ × Decoder
fill_uint64s_buffer [] dec = ([], dec)
fill_uint64s_buffer (n ∷ ns) dec =
    let (ms, d) = fill_uint64s_buffer ns (advance 8 dec) in
    if ltb (length dec.input) 8
    then (n ∷ ns, fail unexpected_eof dec)
    else (get_uint (take 8 dec.input) ∷ ms, d)

-- inRead grows by all items after the loop, unless the loop returned.
unfoldable pub fill_uint64s : List ℕ → Decoder → List ℕ × Decoder
fill_uint64s ns dec =
    if dec.streaming
    then (let (ms, d) = fill_uint64s_stream ns dec in
        (ms, (if has_failed d.err then d else count_read (8 * length ns) d)))
    else fill_uint64s_buffer ns dec

unfoldable pub resize_numbers : ℕ → List ℕ → List ℕ
resize_numbers count backing =
    if ltb (length backing) count then replicate count 0 else take count backing

unfoldable pub decode_sized_uint64s : List ℕ → ℕ → ℕ → Decoder → Option (List ℕ) × Decoder
decode_sized_uint64s backing max_items size dec =
    if size == 0
    then (some [], dec)
    else (if size % 8 == 0
        then (if ltb max_items (size / 8)
            then (none, fail max_items_exceeded dec)
            else (let (ns, d) = fill_uint64s (resize_numbers (size / 8) backing) dec in
                (some ns, d)))
        else (none, fail dynamic_statics_indivisible dec))

unfoldable pub decode_slice_of_uint64s_content :
    List ℕ → ℕ → Decoder → Option (Option (List ℕ) × Decoder)
decode_slice_of_uint64s_content backing max_items dec =
    if has_failed dec.err
    then some (none, dec)
    else retrieve_size dec >>= λ r. some (decode_sized_uint64s backing max_items r.0 r.1)

-- The loops over dec.decodeOffset and over the contents of a list.
unfoldable pub decode_offsets : ℕ → Decoder → Decoder
decode_offsets zero dec = dec
decode_offsets (suc n) dec = decode_offsets n (decode_dynamic_bytes_offset dec)

unfoldable pub decode_blobs : List (List ℕ) → ℕ → Decoder → Option (List Blob × Decoder)
decode_blobs [] max_size dec = some ([], dec)
decode_blobs (b ∷ bs) max_size dec = decode_dynamic_bytes_content b max_size dec >>= λ r.
    decode_blobs bs max_size r.1 >>= λ s. some (r.0 ∷ s.0, s.1)

unfoldable pub resize_blobs : ℕ → List (List ℕ) → List (List ℕ)
resize_blobs items backing =
    if ltb (length backing) items then replicate items [] else take items backing

-- The body of DecodeSliceOfDynamicBytesContent behind its first offset, which counts the items.
unfoldable pub decode_counted_blobs :
    List (List ℕ) → ℕ → ℕ → Decoder → Option (Option (List Blob) × Decoder)
decode_counted_blobs backing max_items max_size dec =
    if has_failed dec.err
    then some (none, dec)
    else (if dec.offset == 0
        then some (none, fail zero_counter_offset dec)
        else (if dec.offset % 4 == 0
            then (if ltb max_items (dec.offset / 4)
                then some (none, fail max_items_exceeded dec)
                else decode_blobs (resize_blobs (dec.offset / 4) backing) max_size
                    (decode_offsets (dec.offset / 4 - 1) dec)
                  >>= λ r. some (some r.0, r.1))
            else some (none, fail bad_counter_offset dec)))

unfoldable pub decode_sized_blobs :
    List (List ℕ) → ℕ → ℕ → ℕ → Decoder → Option (Option (List Blob) × Decoder)
decode_sized_blobs backing max_items max_size size dec =
    if size == 0
    then some (some [], dec)
    else (if ltb size 4
        then some (none, fail short_counter_offset dec)
        else decode_counted_blobs backing max_items max_size
            (decode_offset true (descend_into_slot size dec))
          >>= λ r. ascend_from_slot r.1 >>= λ d. some (r.0, d))

unfoldable pub decode_slice_of_dynamic_bytes_content :
    List (List ℕ) → ℕ → ℕ → Decoder → Option (Option (List Blob) × Decoder)
decode_slice_of_dynamic_bytes_content backing max_items max_size dec =
    if has_failed dec.err
    then some (none, dec)
    else retrieve_size dec >>= λ r. decode_sized_blobs backing max_items max_size r.0 r.1
