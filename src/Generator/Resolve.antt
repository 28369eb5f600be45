-- ===== src/Generator/Resolve.antt =====
-- cmd/sszgen/opset.go: the opsets of basic types and bitlists. The guards of the source are
-- the chain of `reject`s; an index of a tag is read only behind a test of its length.
pub mod Arrays
pub mod Slices
pub mod Pointers
use ssz.Base.{
  ℕ, ◌+◌, ◌*◌, ◌-◌, ◌/◌, ◌^◌, zero, suc, Bool, true, false, ◌&&◌, ◌||◌, Option, none, some, List,
  [], ◌∷◌, map, length, ltb, leb, ◌==◌, if◌then◌else◌,
}
use Prim.Native.String.{String}
use mathlib.Core.Bool.{not}
use ssz.Generator.{
  ℤ, pos, negsuc, BasicKind, bool_kind, uint8_kind, uint16_kind, uint32_kind, uint64_kind,
  other_kind, GoType, basic, array, slice, pointer, named, other, SizeTag, Call, OpsetStatic,
  OpsetDynamic, opset_static, opset_dynamic, Resolved, failed, resolved, reject, is_number,
  is_under_bits, is_over,
}

-- The composite literals &opsetStatic{...} and &opsetDynamic{...}, with the numbers that Sprintf
-- writes into their calls.
abbrev pub op_static : List ℤ → String → String → String → Option (List ℤ) → Resolved
op_static numbers define encode decode bytes = resolved (
    opset_static record {
      define = record { template = define; numbers = numbers };
      encode = record { template = encode; numbers = numbers };
      decode = record { template = decode; numbers = numbers };
      bytes = bytes;
    })

abbrev pub op_dynamic :
    List ℤ
    → String
    → String
    → String
    → String
    → String
    → String
    → String
    → Option (List ℤ)
    → Option (List ℤ)
    → Resolved
op_dynamic numbers size define_offset define_content encode_offset encode_content decode_offset
      decode_content sizes limits =
    resolved (
      opset_dynamic record {
        size = record { template = size; numbers = [] };
        define_offset = record { template = define_offset; numbers = numbers };
        define_content = record { template = define_content; numbers = numbers };
        encode_offset = record { template = encode_offset; numbers = [] };
        encode_content = record { template = encode_content; numbers = numbers };
        decode_offset = record { template = decode_offset; numbers = [] };
        decode_content = record { template = decode_content; numbers = numbers };
        sizes = sizes;
        limits = limits;
      })

-- A condition behind tags != nil.
abbrev pub holds : Option SizeTag → (SizeTag → Bool) → Bool
holds none test = false
holds (some tags) test = test tags

-- Is there a number n at the index?
abbrev pub is_at : List ℤ → ℕ → ℕ → Bool
is_at [] i n = false
is_at (x ∷ xs) zero n = is_number x n
is_at (x ∷ xs) (suc i) n = is_at xs i n

-- Does the size tag of a basic type differ from its number of bytes?
abbrev pub differs : Option SizeTag → ℕ → Bool
differs tags n = holds tags (λ t. not (is_at t.size 0 n))

unfoldable pub resolve_kind : BasicKind → Option SizeTag → Bool → Resolved
resolve_kind bool_kind tags is_ptr =
    reject (differs tags 1) "boolean basic type requires ssz-size=1: have %d" (
      if is_ptr
      then op_static [] "DefineBoolPointer({{.Codec}}, &{{.Field}})"
          "EncodeBoolPointer({{.Codec}}, &{{.Field}})" "DecodeBoolPointer({{.Codec}}, &{{.Field}})"
          (some (pos 1 ∷ []))
      else op_static [] "DefineBool({{.Codec}}, &{{.Field}})" "EncodeBool({{.Codec}}, &{{.Field}})"
          "DecodeBool({{.Codec}}, &{{.Field}})" (some (pos 1 ∷ [])))
resolve_kind uint8_kind tags is_ptr =
    reject (differs tags 1) "byte basic type requires ssz-size=1: have %d" (
      if is_ptr
      then op_static [] "DefineUint8Pointer({{.Codec}}, &{{.Field}})"
          "EncodeUint8Pointer({{.Codec}}, &{{.Field}})"
          "DecodeUint8Pointer({{.Codec}}, &{{.Field}})" (some (pos 1 ∷ []))
      else op_static [] "DefineUint8({{.Codec}}, &{{.Field}})"
          "EncodeUint8({{.Codec}}, &{{.Field}})" "DecodeUint8({{.Codec}}, &{{.Field}})"
          (some (pos 1 ∷ [])))
resolve_kind uint16_kind tags is_ptr =
    reject (differs tags 2) "uint16 basic type requires ssz-size=2: have %d" (
      if is_ptr
      then op_static [] "DefineUint16Pointer({{.Codec}}, &{{.Field}})"
          "EncodeUint16Pointer({{.Codec}}, &{{.Field}})"
          "DecodeUint16Pointer({{.Codec}}, &{{.Field}})" (some (pos 2 ∷ []))
      else op_static [] "DefineUint16({{.Codec}}, &{{.Field}})"
          "EncodeUint16({{.Codec}}, &{{.Field}})" "DecodeUint16({{.Codec}}, &{{.Field}})"
          (some (pos 2 ∷ [])))
resolve_kind uint32_kind tags is_ptr =
    reject (differs tags 4) "uint32 basic type requires ssz-size=4: have %d" (
      if is_ptr
      then op_static [] "DefineUint32Pointer({{.Codec}}, &{{.Field}})"
          "EncodeUint32Pointer({{.Codec}}, &{{.Field}})"
          "DecodeUint32Pointer({{.Codec}}, &{{.Field}})" (some (pos 4 ∷ []))
      else op_static [] "DefineUint32({{.Codec}}, &{{.Field}})"
          "EncodeUint32({{.Codec}}, &{{.Field}})" "DecodeUint32({{.Codec}}, &{{.Field}})"
          (some (pos 4 ∷ [])))
resolve_kind uint64_kind tags is_ptr =
    reject (differs tags 8) "uint64 basic type requires ssz-size=8: have %d" (
      if is_ptr
      then op_static [] "DefineUint64Pointer({{.Codec}}, &{{.Field}})"
          "EncodeUint64Pointer({{.Codec}}, &{{.Field}})"
          "DecodeUint64Pointer({{.Codec}}, &{{.Field}})" (some (pos 8 ∷ []))
      else op_static [] "DefineUint64({{.Codec}}, &{{.Field}})"
          "EncodeUint64({{.Codec}}, &{{.Field}})" "DecodeUint64({{.Codec}}, &{{.Field}})"
          (some (pos 8 ∷ [])))
resolve_kind other_kind tags is_ptr = failed "unsupported basic type: %s"

unfoldable pub resolve_basic_opset : BasicKind → Option SizeTag → Bool → Resolved
resolve_basic_opset kind tags is_ptr =
    reject (holds tags (λ t. ltb 0 (length t.limit))) "basic type cannot have ssz-max tag" (
      reject (holds tags (λ t. not (length t.size == 1)))
        "basic type requires 1D ssz-size tag: have %v" (resolve_kind kind tags is_ptr))

-- Go's truncated division of a negative number, and (n + 7) / 8 on an int of 64 bits.
abbrev pub negated : ℕ → ℤ
negated zero = pos 0
negated (suc n) = negsuc n

unfoldable pub bits_to_bytes : ℤ → ℤ
bits_to_bytes (pos n) =
    if ltb (n + 7) (2 ^ 63) then pos ((n + 7) / 8) else negated ((2 ^ 64 - (n + 7)) / 8)
bits_to_bytes (negsuc n) = if leb n 6 then pos ((6 - n) / 8) else negated ((n - 6) / 8)

-- The limit has one number, which is rounded up to bytes.
unfoldable pub resolve_bitlist_opset : Option SizeTag → Resolved
resolve_bitlist_opset none = failed "slice of bits type requires ssz-max tag"
resolve_bitlist_opset (some tags) =
    reject (length tags.limit == 0) "slice of bits type requires ssz-max tag" (
      reject (ltb 0 (length tags.size)) "slice of bits type cannot have ssz-size tag" (
        reject (not (length tags.limit == 1))
          "slice of bits tag conflict: field supports [N] bits, tag wants %v bits"
          (op_dynamic tags.limit "SizeSliceOfBits({{.Sizer}}, {{.Field}})"
            "DefineSliceOfBitsOffset({{.Codec}}, &{{.Field}}, %d)"
            "DefineSliceOfBitsContent({{.Codec}}, &{{.Field}}, %d)"
            "EncodeSliceOfBitsOffset({{.Codec}}, &{{.Field}})"
            "EncodeSliceOfBitsContent({{.Codec}}, &{{.Field}}, %d)"
            "DecodeSliceOfBitsOffset({{.Codec}}, &{{.Field}})"
            "DecodeSliceOfBitsContent({{.Codec}}, &{{.Field}}, %d)" none
            (some (map bits_to_bytes tags.limit)))))
