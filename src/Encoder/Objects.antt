-- ===== src/Encoder/Objects.antt =====
-- encoder.go and sizer.go: objects and lists of them. `define` is the DefineSSZ method of the type, as
-- run by the encoder, `zero_value` what zeroes.go makes for a nil object, and the sizes are those of
-- the type's SizeSSZ method.
use ssz.Base.{
  ℕ, ◌+◌, ◌*◌, Bool, true, false, Option, none, some, List, [], ◌∷◌, length, if◌then◌else◌, ◌>>=◌,
}
use ssz.Base.Words.{u32}
use ssz.Errors.{Error}
use ssz.Fork.{ForkFilter, is_absent}
use ssz.Encoder.{Encoder, put_offset, put_offset_by, offset_dynamics}

abbrev pub has_stopped : Option Error → Bool
has_stopped none = false
has_stopped (some e) = true

module _ {A : Type 0} (define : A → Encoder → Option Encoder) (zero_value : A) where
  unfoldable pub or_zero : Option A → A
  or_zero none = zero_value
  or_zero (some obj) = obj

  unfoldable pub encode_static_object : Option A → Encoder → Option Encoder
  encode_static_object obj e = if has_stopped e.err then some e else define (or_zero obj) e

  unfoldable pub encode_static_object_on_fork : Option A → ForkFilter → Encoder → Option Encoder
  encode_static_object_on_fork obj filter e =
      if is_absent e.fork filter then some e else encode_static_object obj e

  -- The loop over static objects, which stops at an error.
  unfoldable pub encode_slice_of_static_objects_content : List A → Encoder → Option Encoder
  encode_slice_of_static_objects_content [] e = some e
  encode_slice_of_static_objects_content (o ∷ os) e =
      if has_stopped e.err then some e else define o e >>= encode_slice_of_static_objects_content os

  unfoldable pub encode_slice_of_static_objects_content_on_fork :
      List A → ForkFilter → Encoder → Option Encoder
  encode_slice_of_static_objects_content_on_fork objects filter e =
      if is_absent e.fork filter then some e else encode_slice_of_static_objects_content objects e

  -- `item_size` is SizeSSZ of a static type.
  unfoldable pub encode_slice_of_static_objects_offset : ℕ → List A → Encoder → Option Encoder
  encode_slice_of_static_objects_offset item_size [] e = put_offset_by (λ o. o) e
  encode_slice_of_static_objects_offset item_size (o ∷ os) e =
      put_offset (u32 (u32 (length (o ∷ os)) * item_size)) e

  -- `full_size` is SizeSSZ of the whole object, and `fixed_size` of its static part.
  module _ (full_size fixed_size : A → ℕ) where
    unfoldable pub encode_dynamic_object_offset : Option A → Encoder → Option Encoder
    encode_dynamic_object_offset obj e = put_offset (full_size (or_zero obj)) e

    unfoldable pub encode_dynamic_object_offset_on_fork :
        Option A → ForkFilter → Encoder → Option Encoder
    encode_dynamic_object_offset_on_fork obj filter e =
        if is_absent e.fork filter then some e else encode_dynamic_object_offset obj e

    unfoldable pub encode_dynamic_object_content : Option A → Encoder → Option Encoder
    encode_dynamic_object_content obj e =
        if has_stopped e.err
        then some e
        else define (or_zero obj) (offset_dynamics (fixed_size (or_zero obj)) e)

    unfoldable pub encode_dynamic_object_content_on_fork :
        Option A → ForkFilter → Encoder → Option Encoder
    encode_dynamic_object_content_on_fork obj filter e =
        if is_absent e.fork filter then some e else encode_dynamic_object_content obj e

    -- The loop over the objects, which moves the offset and wraps.
    unfoldable pub add_object_sizes : ℕ → List A → ℕ
    add_object_sizes size [] = size
    add_object_sizes size (o ∷ os) = add_object_sizes (u32 (size + u32 (4 + full_size o))) os

    unfoldable pub encode_slice_of_dynamic_objects_offset : List A → Encoder → Option Encoder
    encode_slice_of_dynamic_objects_offset objects e =
        put_offset_by (λ o. add_object_sizes o objects) e

    unfoldable pub write_object_offsets : List A → Encoder → Option Encoder
    write_object_offsets [] e = some e
    write_object_offsets (o ∷ os) e = put_offset (full_size o) e >>= write_object_offsets os

    unfoldable pub write_objects : List A → Encoder → Option Encoder
    write_objects [] e = some e
    write_objects (o ∷ os) e =
        if has_stopped e.err
        then some e
        else define o (offset_dynamics (fixed_size o) e) >>= write_objects os

    unfoldable pub encode_slice_of_dynamic_objects_content : List A → Encoder → Option Encoder
    encode_slice_of_dynamic_objects_content objects e =
        write_object_offsets objects (offset_dynamics (u32 (4 * length objects)) e)
        >>= write_objects objects

    unfoldable pub encode_slice_of_dynamic_objects_offset_on_fork :
        List A → ForkFilter → Encoder → Option Encoder
    encode_slice_of_dynamic_objects_offset_on_fork objects filter e =
        if is_absent e.fork filter then some e else encode_slice_of_dynamic_objects_offset objects e

    unfoldable pub encode_slice_of_dynamic_objects_content_on_fork :
        List A → ForkFilter → Encoder → Option Encoder
    encode_slice_of_dynamic_objects_content_on_fork objects filter e =
        if is_absent e.fork filter
        then some e
        else encode_slice_of_dynamic_objects_content objects e

  unfoldable pub encode_slice_of_static_objects_offset_on_fork :
      ℕ → List A → ForkFilter → Encoder → Option Encoder
  encode_slice_of_static_objects_offset_on_fork item_size objects filter e =
      if is_absent e.fork filter
      then some e
      else encode_slice_of_static_objects_offset item_size objects e
