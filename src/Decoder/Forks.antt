-- ===== src/Decoder/Forks.antt =====
-- decoder.go: the lists that some forks do not have, and the offsets of lists of objects.
use ssz.Base.{ℕ, false, Option, List, if◌then◌else◌}
use ssz.Fork.{ForkFilter, is_absent}
use ssz.Decoder.{Decoder}
use ssz.Decoder.Offsets.{decode_offset}
use ssz.Decoder.Contents.{
  Blob, decode_slice_of_uint64s_content, decode_slice_of_dynamic_bytes_content,
}
use ssz.Decoder.Arrays.{content_on_fork, decode_slice_of_static_bytes_content}
use ssz.Decoder.Objects.{
  decode_slice_of_static_objects_content, decode_slice_of_dynamic_objects_content,
}

unfoldable pub decode_slice_of_static_objects_offset : Decoder → Decoder
decode_slice_of_static_objects_offset dec = decode_offset false dec

unfoldable pub decode_slice_of_static_objects_offset_on_fork : ForkFilter → Decoder → Decoder
decode_slice_of_static_objects_offset_on_fork filter dec =
    if is_absent dec.fork filter then dec else decode_slice_of_static_objects_offset dec

unfoldable pub decode_slice_of_dynamic_objects_offset : Decoder → Decoder
decode_slice_of_dynamic_objects_offset dec = decode_offset false dec

unfoldable pub decode_slice_of_dynamic_objects_offset_on_fork : ForkFilter → Decoder → Decoder
decode_slice_of_dynamic_objects_offset_on_fork filter dec =
    if is_absent dec.fork filter then dec else decode_slice_of_dynamic_objects_offset dec

unfoldable pub decode_slice_of_uint64s_content_on_fork :
    List ℕ → ℕ → ForkFilter → Decoder → Option (Option (Option (List ℕ)) × Decoder)
decode_slice_of_uint64s_content_on_fork backing max_items filter dec =
    content_on_fork (decode_slice_of_uint64s_content backing max_items) filter dec

unfoldable pub decode_slice_of_static_bytes_content_on_fork :
    ℕ
    → List (List ℕ)
    → ℕ
    → ForkFilter
    → Decoder
    → Option (Option (Option (List (List ℕ))) × Decoder)
decode_slice_of_static_bytes_content_on_fork width backing max_items filter dec =
    content_on_fork (decode_slice_of_static_bytes_content width backing max_items) filter dec

unfoldable pub decode_slice_of_dynamic_bytes_content_on_fork :
    List (List ℕ) → ℕ → ℕ → ForkFilter → Decoder → Option (Option (Option (List Blob)) × Decoder)
decode_slice_of_dynamic_bytes_content_on_fork backing max_items max_size filter dec =
    content_on_fork (decode_slice_of_dynamic_bytes_content backing max_items max_size) filter dec

module _ {A : Type 0} (define : A → Decoder → Option (A × Decoder)) (fresh : A) where
  unfoldable pub decode_slice_of_static_objects_content_on_fork :
      ℕ
      → List (Option A)
      → ℕ
      → ForkFilter
      → Decoder
      → Option (Option (Option (List (Option A))) × Decoder)
  decode_slice_of_static_objects_content_on_fork item_size backing max_items filter dec =
      content_on_fork
        (decode_slice_of_static_objects_content define fresh item_size backing max_items) filter dec

  unfoldable pub decode_slice_of_dynamic_objects_content_on_fork :
      (A → ℕ)
      → List (Option A)
      → ℕ
      → ForkFilter
      → Decoder
      → Option (Option (Option (List (Option A))) × Decoder)
  decode_slice_of_dynamic_objects_content_on_fork fixed_size backing max_items filter dec =
      content_on_fork
        (decode_slice_of_dynamic_objects_content define fresh fixed_size backing max_items) filter
        dec
