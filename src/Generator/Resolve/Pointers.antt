-- ===== src/Generator/Resolve/Pointers.antt =====
-- cmd/sszgen/opset.go and types.go: the opsets of pointers, and of a field of any type.
use ssz.Base.{
  Bool, true, false, ◌&&◌, ◌||◌, Option, none, some, [], ◌∷◌, length, ltb, ◌==◌, if◌then◌else◌,
}
use Prim.Native.String.{String}
use mathlib.Core.Bool.{not}
use text.Mathlib.Text.{◌==◌ as str_eq}
use ssz.Generator.{
  pos, TypeName, GoType, basic, array, slice, pointer, named, other, SizeTag, ParseContext,
  Resolved, failed, reject,
}
use ssz.Generator.Resolve.{
  op_static, op_dynamic, holds, is_at, resolve_basic_opset, resolve_bitlist_opset,
}
use ssz.Generator.Resolve.Arrays.{resolve_array_opset}
use ssz.Generator.Resolve.Slices.{resolve_slice_opset}

abbrev pub is_named : TypeName → String → String → Bool
is_named name path ident = str_eq name.path path && str_eq name.name ident

unfoldable pub is_uint256 : GoType → Bool
is_uint256 (named name underlying) = is_named name "github.com/holiman/uint256" "Int"
is_uint256 typ = false

unfoldable pub is_big_int : GoType → Bool
is_big_int (named name underlying) = is_named name "math/big" "Int"
is_big_int typ = false

unfoldable pub is_bitlist : GoType → Bool
is_bitlist (named name underlying) = is_named name "github.com/prysmaticlabs/go-bitfield" "Bitlist"
is_bitlist typ = false

abbrev pub is_limited : Option SizeTag → Bool
is_limited tags = holds tags (λ t. ltb 0 (length t.limit))

-- The size tag of a number of 256 bits says [32].
abbrev pub is_no_word : Option SizeTag → Bool
is_no_word tags = holds tags (λ t. not (length t.size == 1) || not (is_at t.size 0 32))

abbrev pub is_tagged : Option SizeTag → Bool
is_tagged tags = holds tags (λ t. true)

module _ (p : ParseContext) where
  -- `through` is what the last line of the source returns: the opset of the named type's underlying
  -- type, or an error.
  unfoldable pub resolve_pointer_opset : GoType → Option SizeTag → Resolved → Resolved
  resolve_pointer_opset elem tags through =
      if is_uint256 elem
      then reject (is_limited tags) "uint256 basic type cannot have ssz-max tag" (
          reject (is_no_word tags)
            "uint256 basic type tag conflict: field is [32] bytes, tag wants %v"
            (op_static [] "DefineUint256({{.Codec}}, &{{.Field}})"
              "EncodeUint256({{.Codec}}, &{{.Field}})" "DecodeUint256({{.Codec}}, &{{.Field}})"
              (some (pos 32 ∷ []))))
      else if is_big_int elem
      then reject (is_limited tags) "big.Int (uint256) basic type cannot have ssz-max tag" (
          reject (is_no_word tags)
            "big.Int (uint256) basic type tag conflict: field is [32] bytes, tag wants %v"
            (op_static [] "DefineUint256BigInt({{.Codec}}, &{{.Field}})"
              "EncodeUint256BigInt({{.Codec}}, &{{.Field}})"
              "DecodeUint256BigInt({{.Codec}}, &{{.Field}})" (some (pos 32 ∷ []))))
      else if p.static_object_iface (pointer elem)
      then reject (is_tagged tags) "static object type cannot have any ssz tags" (
          op_static [] "DefineStaticObject({{.Codec}}, &{{.Field}})"
            "EncodeStaticObject({{.Codec}}, &{{.Field}})"
            "DecodeStaticObject({{.Codec}}, &{{.Field}})" none)
      else if p.dynamic_object_iface (pointer elem)
      then reject (is_tagged tags) "dynamic object type cannot have any ssz tags" (
          op_dynamic [] "SizeDynamicObject({{.Sizer}}, {{.Field}})"
            "DefineDynamicObjectOffset({{.Codec}}, &{{.Field}})"
            "DefineDynamicObjectContent({{.Codec}}, &{{.Field}})"
            "EncodeDynamicObjectOffset({{.Codec}}, &{{.Field}})"
            "EncodeDynamicObjectContent({{.Codec}}, &{{.Field}})"
            "DecodeDynamicObjectOffset({{.Codec}}, &{{.Field}})"
            "DecodeDynamicObjectContent({{.Codec}}, &{{.Field}})" none none)
      else through

  unfoldable pub resolve_opset : GoType → Option SizeTag → Bool → Resolved
  resolve_opset (named name underlying) tags is_ptr =
      let through = resolve_opset underlying tags is_ptr in
      if is_bitlist (named name underlying) then resolve_bitlist_opset tags else through
  resolve_opset (basic kind) tags is_ptr = resolve_basic_opset kind tags is_ptr
  resolve_opset (array elem size) tags is_ptr = resolve_array_opset elem size tags is_ptr
  resolve_opset (slice elem) tags is_ptr = resolve_slice_opset p elem tags
  resolve_opset (pointer (basic kind)) tags is_ptr = resolve_basic_opset kind tags true
  resolve_opset (pointer (array elem size)) tags is_ptr = resolve_array_opset elem size tags true
  resolve_opset (pointer (named name underlying)) tags is_ptr =
      resolve_pointer_opset (named name underlying) tags (resolve_opset underlying tags true)
  resolve_opset (pointer (slice elem)) tags is_ptr =
      resolve_pointer_opset (slice elem) tags (failed "unsupported pointer type %s")
  resolve_opset (pointer (pointer elem)) tags is_ptr =
      resolve_pointer_opset (pointer elem) tags (failed "unsupported pointer type %s")
  resolve_opset (pointer (other name)) tags is_ptr =
      resolve_pointer_opset (other name) tags (failed "unsupported pointer type %s")
  resolve_opset (other name) tags is_ptr = failed "unsupported type %s"
