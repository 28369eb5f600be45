-- ===== src/Generator/Resolve/Slices.antt =====
-- cmd/sszgen/opset.go and types.go: the opsets of slices and pointers, and of a field of any type.
use ssz.Base.{
  ℕ, Bool, ◌&&◌, ◌||◌, Option, none, some, [], ◌∷◌, ◌++◌, length, take, ltb, ◌==◌, if◌then◌else◌,
}
use mathlib.Core.Bool.{not}
use ssz.Generator.{
  pos, BasicKind, uint8_kind, uint64_kind, GoType, basic, array, slice, pointer, named, other,
  SizeTag, ParseContext, Resolved, failed, reject,
}
use ssz.Generator.Resolve.{op_static, op_dynamic, is_at}

-- Is the size tag neither [N] nor [N, item]?
abbrev pub is_misfit : SizeTag → ℕ → Bool
is_misfit tags item =
    (not (length tags.size == 1) && not (length tags.size == 2))
    || (length tags.size == 2 && not (is_at tags.size 1 item))

unfoldable pub resolve_slice_of_kind : BasicKind → SizeTag → Resolved
resolve_slice_of_kind uint8_kind tags =
    if ltb 0 (length tags.size)
    then reject (is_misfit tags 1)
        "static slice of byte basic type tag conflict: needs [N] or [N, 1] tag, has %v"
        (reject (ltb 0 (length tags.limit))
          "static slice of byte basic type cannot have ssz-max tag"
          (op_static [] "DefineCheckedStaticBytes({{.Codec}}, &{{.Field}}, {{.MaxSize}})"
            "EncodeCheckedStaticBytes({{.Codec}}, &{{.Field}})"
            "DecodeCheckedStaticBytes({{.Codec}}, &{{.Field}}, {{.MaxSize}})"
            (some (take 1 tags.size))))
    else reject (length tags.limit == 0) "dynamic slice of byte basic type requires ssz-max tag" (
        reject (not (length tags.limit == 1))
          "dynamic slice of byte basic type tag conflict: needs [N] tag, has %v"
          (op_dynamic [] "SizeDynamicBytes({{.Sizer}}, {{.Field}})"
            "DefineDynamicBytesOffset({{.Codec}}, &{{.Field}}, {{.MaxSize}})"
            "DefineDynamicBytesContent({{.Codec}}, &{{.Field}}, {{.MaxSize}})"
            "EncodeDynamicBytesOffset({{.Codec}}, &{{.Field}})"
            "EncodeDynamicBytesContent({{.Codec}}, &{{.Field}}, {{.MaxSize}})"
            "DecodeDynamicBytesOffset({{.Codec}}, &{{.Field}})"
            "DecodeDynamicBytesContent({{.Codec}}, &{{.Field}}, {{.MaxSize}})" (some (pos 0 ∷ []))
            (some tags.limit)))
resolve_slice_of_kind uint64_kind tags =
    if ltb 0 (length tags.size)
    then reject (is_misfit tags 8)
        "static slice of uint64 basic type tag conflict: needs [N] or [N, 8] tag, has %v"
        (reject (ltb 0 (length tags.limit))
          "static slice of uint64 basic type cannot have ssz-max tag"
          (op_static [] "DefineCheckedStaticUint64({{.Codec}}, &{{.Field}}, {{.MaxSize}})"
            "EncodeCheckedStaticUint64({{.Codec}}, &{{.Field}})"
            "DecodeCheckedStaticUint64({{.Codec}}, &{{.Field}}, {{.MaxSize}})"
            (some (take 1 tags.size))))
    else reject (length tags.limit == 0) "dynamic slice of uint64 basic type requires ssz-max tag" (
        reject (not (length tags.limit == 1))
          "dynamic slice of uint64 basic type tag conflict: needs [N] tag, has %v"
          (op_dynamic [] "SizeSliceOfUint64s({{.Sizer}}, {{.Field}})"
            "DefineSliceOfUint64sOffset({{.Codec}}, &{{.Field}}, {{.MaxSize}})"
            "DefineSliceOfUint64sContent({{.Codec}}, &{{.Field}}, {{.MaxSize}})"
            "EncodeSliceOfUint64sOffset({{.Codec}}, &{{.Field}})"
            "EncodeSliceOfUint64sContent({{.Codec}}, &{{.Field}}, {{.MaxSize}})"
            "DecodeSliceOfUint64sOffset({{.Codec}}, &{{.Field}})"
            "DecodeSliceOfUint64sContent({{.Codec}}, &{{.Field}}, {{.MaxSize}})" none
            (some tags.limit)))
resolve_slice_of_kind kind tags = failed "unsupported slice item basic type: %s"

unfoldable pub resolve_slice_of_array_opset : GoType → ℕ → SizeTag → Resolved
resolve_slice_of_array_opset (basic uint8_kind) inner tags =
    if ltb 0 (length tags.size)
    then reject (is_misfit tags inner)
        "static slice of array of byte basic type tag conflict: needs [N] or [N, %d] tag, has %v"
        (reject (ltb 0 (length tags.limit))
          "static slice of array of byte basic type cannot have ssz-max tag"
          (op_static [] "DefineCheckedArrayOfStaticBytes({{.Codec}}, &{{.Field}}, {{.MaxItems}})"
            "EncodeCheckedArrayOfStaticBytes({{.Codec}}, &{{.Field}})"
            "DecodeCheckedArrayOfStaticBytes({{.Codec}}, &{{.Field}}, {{.MaxItems}})"
            (some (take 1 tags.size ++ (pos inner ∷ [])))))
    else reject (length tags.limit == 0)
        "dynamic slice of array of byte basic type requires ssz-max tag"
        (reject (not (length tags.limit == 1))
          "dynamic slice of array of byte basic type tag conflict: needs [N] tag, has %v"
          (op_dynamic [] "SizeSliceOfStaticBytes({{.Sizer}}, {{.Field}})"
            "DefineSliceOfStaticBytesOffset({{.Codec}}, &{{.Field}}, {{.MaxSize}})"
            "DefineSliceOfStaticBytesContent({{.Codec}}, &{{.Field}}, {{.MaxSize}})"
            "EncodeSliceOfStaticBytesOffset({{.Codec}}, &{{.Field}})"
            "EncodeSliceOfStaticBytesContent({{.Codec}}, &{{.Field}}, {{.MaxSize}})"
            "DecodeSliceOfStaticBytesOffset({{.Codec}}, &{{.Field}})"
            "DecodeSliceOfStaticBytesContent({{.Codec}}, &{{.Field}}, {{.MaxSize}})" none
            (some tags.limit)))
resolve_slice_of_array_opset (basic kind) inner tags =
    failed "unsupported array-of-array item basic type: %s"
resolve_slice_of_array_opset typ inner tags = failed "unsupported array-of-array item type: %s"

unfoldable pub resolve_slice_of_slice_opset : GoType → SizeTag → Resolved
resolve_slice_of_slice_opset (basic uint8_kind) tags =
    reject (ltb 0 (length tags.size) && (length tags.limit == 0))
      "static slice of static slice of bytes not implemented yet"
      (if (length tags.size == 0) && ltb 0 (length tags.limit)
        then reject (not (length tags.limit == 2))
            "dynamic slice of dynamic slice of byte basic type tag conflict: needs [N, M] ssz-max tag, has %v"
            (op_dynamic [] "SizeSliceOfDynamicBytes({{.Sizer}}, {{.Field}})"
              "DefineSliceOfDynamicBytesOffset({{.Codec}}, &{{.Field}}, {{.MaxItems}}, {{.MaxSize}})"
              "DefineSliceOfDynamicBytesContent({{.Codec}}, &{{.Field}}, {{.MaxItems}}, {{.MaxSize}})"
              "EncodeSliceOfDynamicBytesOffset({{.Codec}}, &{{.Field}})"
              "EncodeSliceOfDynamicBytesContent({{.Codec}}, &{{.Field}}, {{.MaxItems}}, {{.MaxSize}})"
              "DecodeSliceOfDynamicBytesOffset({{.Codec}}, &{{.Field}})"
              "DecodeSliceOfDynamicBytesContent({{.Codec}}, &{{.Field}}, {{.MaxItems}}, {{.MaxSize}})"
              none (some tags.limit))
        else failed "not implemented yet")
resolve_slice_of_slice_opset (basic kind) tags =
    failed "unsupported slice-of-slice item basic type: %s"
resolve_slice_of_slice_opset typ tags = failed "unsupported slice-of-slice item type: %s"

module _ (p : ParseContext) where
  unfoldable pub resolve_slice_of_pointer : GoType → SizeTag → Resolved
  resolve_slice_of_pointer typ tags =
      if p.static_object_iface typ
      then reject (ltb 0 (length tags.size)) "static slice of static objects not yet implemented" (
          reject (not (length tags.limit == 1))
            "dynamic slice of static objects type tag conflict: needs [N] tag, has %v"
            (op_dynamic [] "SizeSliceOfStaticObjects({{.Sizer}}, {{.Field}})"
              "DefineSliceOfStaticObjectsOffset({{.Codec}}, &{{.Field}}, {{.MaxSize}})"
              "DefineSliceOfStaticObjectsContent({{.Codec}}, &{{.Field}}, {{.MaxSize}})"
              "EncodeSliceOfStaticObjectsOffset({{.Codec}}, &{{.Field}})"
              "EncodeSliceOfStaticObjectsContent({{.Codec}}, &{{.Field}}, {{.MaxSize}})"
              "DecodeSliceOfStaticObjectsOffset({{.Codec}}, &{{.Field}})"
              "DecodeSliceOfStaticObjectsContent({{.Codec}}, &{{.Field}}, {{.MaxSize}})" none
              (some tags.limit)))
      else if p.dynamic_object_iface typ
      then reject (ltb 0 (length tags.size)) "static slice of dynamic objects not yet implemented" (
          reject (not (length tags.limit == 1))
            "dynamic slice of dynamic objects type tag conflict: needs [N] tag, has %v"
            (op_dynamic [] "SizeSliceOfDynamicObjects({{.Sizer}}, {{.Field}})"
              "DefineSliceOfDynamicObjectsOffset({{.Codec}}, &{{.Field}}, {{.MaxSize}})"
              "DefineSliceOfDynamicObjectsContent({{.Codec}}, &{{.Field}}, {{.MaxSize}})"
              "EncodeSliceOfDynamicObjectsOffset({{.Codec}}, &{{.Field}})"
              "EncodeSliceOfDynamicObjectsContent({{.Codec}}, &{{.Field}}, {{.MaxSize}})"
              "DecodeSliceOfDynamicObjectsOffset({{.Codec}}, &{{.Field}})"
              "DecodeSliceOfDynamicObjectsContent({{.Codec}}, &{{.Field}}, {{.MaxSize}})" none
              (some tags.limit)))
      else failed "unsupported pointer slice item type %s"

  unfoldable pub resolve_slice_of : GoType → SizeTag → Resolved
  resolve_slice_of (basic kind) tags = resolve_slice_of_kind kind tags
  resolve_slice_of (pointer elem) tags = resolve_slice_of_pointer (pointer elem) tags
  resolve_slice_of (array elem inner) tags = resolve_slice_of_array_opset elem inner tags
  resolve_slice_of (slice elem) tags = resolve_slice_of_slice_opset elem tags
  resolve_slice_of (named name underlying) tags = resolve_slice_of underlying tags
  resolve_slice_of (other name) tags = failed "unsupported slice item type: %s"

  unfoldable pub resolve_slice_opset : GoType → Option SizeTag → Resolved
  resolve_slice_opset typ none = failed "slice type requires ssz tags"
  resolve_slice_opset typ (some tags) = resolve_slice_of typ tags
