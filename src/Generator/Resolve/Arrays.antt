-- ===== src/Generator/Resolve/Arrays.antt =====
-- cmd/sszgen/opset.go: the opsets of arrays.
use ssz.Base.{
  ℕ, ◌*◌, Bool, true, ◌&&◌, ◌||◌, Option, none, some, List, [], ◌∷◌, length, ltb, ◌==◌,
  if◌then◌else◌,
}
use mathlib.Core.Bool.{not}
use ssz.Generator.{
  ℤ, pos, BasicKind, uint8_kind, uint64_kind, GoType, basic, array, named, SizeTag, Resolved,
  failed, reject, is_under_bits, is_over,
}
use ssz.Generator.Resolve.{op_static, holds, is_at}

-- Does the size tag fail to say [size] or [size, item]?
abbrev pub conflicts : List ℤ → ℕ → ℕ → Bool
conflicts sizes size item =
    (not (length sizes == 1) && not (length sizes == 2))
    || (length sizes == 1 && not (is_at sizes 0 size))
    || (length sizes == 2 && (not (is_at sizes 0 size) || not (is_at sizes 1 item)))

-- Is the size tag no count of bits that fill size bytes?
abbrev pub bits_conflict : List ℤ → ℕ → Bool
bits_conflict (bits ∷ []) size = is_under_bits bits size || is_over bits (size * 8)
bits_conflict sizes size = true

-- The number of bits that is injected is the size tag's one number.
abbrev pub bits_of : Option SizeTag → List ℤ
bits_of none = []
bits_of (some tags) = tags.size

unfoldable pub resolve_bitvector : ℕ → Option SizeTag → Bool → Resolved
resolve_bitvector size tags is_ptr =
    reject (holds tags (λ t. bits_conflict t.size size))
      "array of bits tag conflict: field supports %d-%d bits, tag wants %v bits"
      (if is_ptr
        then op_static (bits_of tags) "DefineArrayOfBitsPointer({{.Codec}}, &{{.Field}}, %d)"
            "EncodeArrayOfBitsPointer({{.Codec}}, &{{.Field}}, %d)"
            "DecodeArrayOfBitsPointer({{.Codec}}, &{{.Field}}, %d)" (some (pos size ∷ []))
        else op_static (bits_of tags) "DefineArrayOfBits({{.Codec}}, &{{.Field}}, %d)"
            "EncodeArrayOfBits({{.Codec}}, &{{.Field}}, %d)"
            "DecodeArrayOfBits({{.Codec}}, &{{.Field}}, %d)" (some (pos size ∷ [])))

unfoldable pub resolve_byte_array : ℕ → Option SizeTag → Bool → Resolved
resolve_byte_array size tags is_ptr =
    if holds tags (λ t. t.bits)
    then resolve_bitvector size tags is_ptr
    else reject (holds tags (λ t. conflicts t.size size 1))
        "array of byte basic type tag conflict: field is %d bytes, tag wants %v bytes"
        (if is_ptr
          then op_static [] "DefineStaticBytesPointer({{.Codec}}, &{{.Field}})"
              "EncodeStaticBytesPointer({{.Codec}}, &{{.Field}})"
              "DecodeStaticBytesPointer({{.Codec}}, &{{.Field}})" (some (pos size ∷ []))
          else op_static [] "DefineStaticBytes({{.Codec}}, &{{.Field}})"
              "EncodeStaticBytes({{.Codec}}, &{{.Field}})"
              "DecodeStaticBytes({{.Codec}}, &{{.Field}})" (some (pos size ∷ [])))

unfoldable pub resolve_array_of_kind : BasicKind → ℕ → Option SizeTag → Bool → Resolved
resolve_array_of_kind uint8_kind size tags is_ptr = resolve_byte_array size tags is_ptr
resolve_array_of_kind uint64_kind size tags is_ptr =
    reject (holds tags (λ t. conflicts t.size size 8))
      "array of byte basic type tag conflict: field is %d bytes, tag wants %v bytes"
      (if is_ptr
        then op_static [] "DefineArrayOfUint64sPointer({{.Codec}}, &{{.Field}})"
            "EncodeArrayOfUint64sPointer({{.Codec}}, &{{.Field}})"
            "DecodeArrayOfUint64sPointer({{.Codec}}, &{{.Field}})" (some (pos size ∷ pos 8 ∷ []))
        else op_static [] "DefineArrayOfUint64s({{.Codec}}, &{{.Field}})"
            "EncodeArrayOfUint64s({{.Codec}}, &{{.Field}})"
            "DecodeArrayOfUint64s({{.Codec}}, &{{.Field}})" (some (pos size ∷ pos 8 ∷ [])))
resolve_array_of_kind kind size tags is_ptr = failed "unsupported array item basic type: %s"

-- Does the size tag fail to say [outer, inner] or [outer, inner, 1]?
abbrev pub conflicts_twice : List ℤ → ℕ → ℕ → Bool
conflicts_twice sizes outer inner =
    (not (length sizes == 2) && not (length sizes == 3))
    || (length sizes == 2 && (not (is_at sizes 0 outer) || not (is_at sizes 1 inner)))
    || (length sizes == 3
        && (not (is_at sizes 0 outer) || not (is_at sizes 1 inner) || not (is_at sizes 2 1)))

unfoldable pub resolve_array_of_array_of_kind : BasicKind → ℕ → ℕ → Option SizeTag → Resolved
resolve_array_of_array_of_kind uint8_kind outer inner tags =
    reject (holds tags (λ t. conflicts_twice t.size outer inner))
      "array of array of byte basic type tag conflict: field is [%d, %d] bytes, tag wants %v bytes"
      (op_static [] "DefineUnsafeArrayOfStaticBytes({{.Codec}}, {{.Field}}[:])"
        "EncodeUnsafeArrayOfStaticBytes({{.Codec}}, {{.Field}}[:])"
        "DecodeUnsafeArrayOfStaticBytes({{.Codec}}, {{.Field}}[:])"
        (some (pos outer ∷ pos inner ∷ [])))
resolve_array_of_array_of_kind kind outer inner tags =
    failed "unsupported array-of-array item basic type: %s"

unfoldable pub resolve_array_of_array_opset : GoType → ℕ → ℕ → Option SizeTag → Resolved
resolve_array_of_array_opset (basic kind) outer inner tags =
    reject (holds tags (λ t. ltb 0 (length t.limit)))
      "array of array of basic type cannot have ssz-max tag"
      (resolve_array_of_array_of_kind kind outer inner tags)
resolve_array_of_array_opset typ outer inner tags =
    failed "unsupported array-of-array item type: %s"

unfoldable pub resolve_array_opset : GoType → ℕ → Option SizeTag → Bool → Resolved
resolve_array_opset (basic kind) size tags is_ptr =
    reject (holds tags (λ t. ltb 0 (length t.limit))) "array of basic type cannot have ssz-max tag"
      (resolve_array_of_kind kind size tags is_ptr)
resolve_array_opset (array elem inner) size tags is_ptr =
    resolve_array_of_array_opset elem size inner tags
resolve_array_opset (named name underlying) size tags is_ptr =
    resolve_array_opset underlying size tags is_ptr
resolve_array_opset typ size tags is_ptr = failed "unsupported array item type: %s"
