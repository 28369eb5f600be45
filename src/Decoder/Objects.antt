-- ===== src/Decoder/Objects.antt =====
-- decoder.go: objects and lists of them. `define` is the DefineSSZ method of the type, as run by the
-- decoder on a value, and `fresh` the value that new makes.
use ssz.Base.{
  ℕ, zero, suc, ◌-◌, ◌/◌, ◌%◌, true, false, Option, none, some, List, [], ◌∷◌, length, take,
  replicate, ltb, ◌==◌, if◌then◌else◌, ◌>>=◌,
}
use ssz.Errors.{
  max_items_exceeded, short_counter_offset, zero_counter_offset, bad_counter_offset,
  dynamic_statics_indivisible,
}
use ssz.Fork.{ForkFilter, is_absent}
use ssz.Decoder.{Decoder, fail, has_failed}
use ssz.Decoder.Offsets.{
  decode_offset, retrieve_size, descend_into_slot, ascend_from_slot, start_dynamics, flush_dynamics,
}

unfoldable pub decode_dynamic_object_offset : Decoder → Decoder
decode_dynamic_object_offset dec = decode_offset false dec

unfoldable pub decode_dynamic_object_offset_on_fork : ForkFilter → Decoder → Decoder
decode_dynamic_object_offset_on_fork filter dec =
    if is_absent dec.fork filter then dec else decode_dynamic_object_offset dec

-- The loop over the offsets of a list of objects.
unfoldable pub decode_object_offsets : ℕ → Decoder → Decoder
decode_object_offsets zero dec = dec
decode_object_offsets (suc n) dec = decode_object_offsets n (decode_dynamic_object_offset dec)

-- A list of pointers, expanded to `count` of them.
unfoldable pub resize_objects {ℓ} : {A : Type ℓ} → ℕ → List (Option A) → List (Option A)
resize_objects count backing =
    if ltb (length backing) count then replicate count none else take count backing

module _ {A : Type 0} (define : A → Decoder → Option (A × Decoder)) (fresh : A) where
  -- An object that is nil is made new.
  unfoldable pub or_fresh : Option A → A
  or_fresh none = fresh
  or_fresh (some obj) = obj

  unfoldable pub decode_static_object : Option A → Decoder → Option (Option A × Decoder)
  decode_static_object obj dec =
      if has_failed dec.err
      then some (obj, dec)
      else define (or_fresh obj) dec >>= λ r. some (some r.0, r.1)

  unfoldable pub decode_static_object_on_fork :
      Option A → ForkFilter → Decoder → Option (Option A × Decoder)
  decode_static_object_on_fork obj filter dec =
      if is_absent dec.fork filter then some (none, dec) else decode_static_object obj dec

  -- The loop over the objects, which returns at the first error.
  unfoldable pub define_objects : List (Option A) → Decoder → Option (List (Option A) × Decoder)
  define_objects [] dec = some ([], dec)
  define_objects (o ∷ os) dec = define (or_fresh o) dec >>= λ r.
      (let rest = define_objects os r.1 >>= λ s. some (some r.0 ∷ s.0, s.1) in
        if has_failed r.1.err then some (some r.0 ∷ os, r.1) else rest)

  -- `item_size` is what SizeSSZ answers for the type.
  unfoldable pub decode_sized_static_objects :
      ℕ → List (Option A) → ℕ → ℕ → Decoder → Option (Option (List (Option A)) × Decoder)
  decode_sized_static_objects item_size backing max_items size dec =
      let count = size / item_size in
      if size == 0
      then some (some [], dec)
      else (if size % item_size == 0
          then (if ltb max_items count
              then some (none, fail max_items_exceeded dec)
              else (define_objects (resize_objects count backing) (descend_into_slot size dec)
                  >>= λ r. ascend_from_slot r.1 >>= λ d. some (some r.0, d)))
          else some (none, fail dynamic_statics_indivisible dec))

  unfoldable pub decode_slice_of_static_objects_content :
      ℕ → List (Option A) → ℕ → Decoder → Option (Option (List (Option A)) × Decoder)
  decode_slice_of_static_objects_content item_size backing max_items dec =
      if has_failed dec.err
      then some (none, dec)
      else retrieve_size dec >>= λ r.
          decode_sized_static_objects item_size backing max_items r.0 r.1

  -- `fixed_size` is SizeSSZ of the object's static part.
  module _ (fixed_size : A → ℕ) where
    unfoldable pub decode_dynamic_object_content : Option A → Decoder → Option (Option A × Decoder)
    decode_dynamic_object_content obj dec =
        if has_failed dec.err
        then some (obj, dec)
        else retrieve_size dec >>= λ r.
            define (or_fresh obj)
              (start_dynamics (fixed_size (or_fresh obj)) (descend_into_slot r.0 r.1))
            >>= λ o. flush_dynamics o.1 >>= λ f. ascend_from_slot f >>= λ d. some (some o.0, d)

    unfoldable pub decode_dynamic_object_content_on_fork :
        Option A → ForkFilter → Decoder → Option (Option A × Decoder)
    decode_dynamic_object_content_on_fork obj filter dec =
        if is_absent dec.fork filter
        then some (none, dec)
        else decode_dynamic_object_content obj dec

    unfoldable pub decode_objects : List (Option A) → Decoder → Option (List (Option A) × Decoder)
    decode_objects [] dec = some ([], dec)
    decode_objects (o ∷ os) dec = decode_dynamic_object_content o dec >>= λ r.
        decode_objects os r.1 >>= λ s. some (r.0 ∷ s.0, s.1)

    -- What follows the first offset, which counts the objects.
    unfoldable pub decode_counted_objects :
        List (Option A) → ℕ → Decoder → Option (Option (List (Option A)) × Decoder)
    decode_counted_objects backing max_items dec =
        if has_failed dec.err
        then some (none, dec)
        else (if dec.offset == 0
            then some (none, fail zero_counter_offset dec)
            else (if dec.offset % 4 == 0
                then (if ltb max_items (dec.offset / 4)
                    then some (none, fail max_items_exceeded dec)
                    else decode_objects (resize_objects (dec.offset / 4) backing)
                        (decode_object_offsets (dec.offset / 4 - 1) dec)
                      >>= λ r. some (some r.0, r.1))
                else some (none, fail bad_counter_offset dec)))

    unfoldable pub decode_sized_dynamic_objects :
        List (Option A) → ℕ → ℕ → Decoder → Option (Option (List (Option A)) × Decoder)
    decode_sized_dynamic_objects backing max_items size dec =
        if size == 0
        then some (some [], dec)
        else (if ltb size 4
            then some (none, fail short_counter_offset dec)
            else decode_counted_objects backing max_items
                (decode_offset true (descend_into_slot size dec))
              >>= λ r. ascend_from_slot r.1 >>= λ d. some (r.0, d))

    unfoldable pub decode_slice_of_dynamic_objects_content :
        List (Option A) → ℕ → Decoder → Option (Option (List (Option A)) × Decoder)
    decode_slice_of_dynamic_objects_content backing max_items dec =
        if has_failed dec.err
        then some (none, dec)
        else retrieve_size dec >>= λ r. decode_sized_dynamic_objects backing max_items r.0 r.1
