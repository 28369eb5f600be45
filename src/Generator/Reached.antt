-- ===== src/Generator/Reached.antt =====
-- cmd/sszgen/opset.go and types.go: the opset of an object, and the types from which it is resolved.
use ssz.Base.{◌≡◌, ◌⊎◌, Bool, true, none}
use ssz.Generator.{GoType, basic, array, slice, pointer, named, other, OpsetStatic, OpsetDynamic}

-- The type is that of an object, or leads to one through the names of its underlying types.
unfoldable pub Reaches : (GoType → Bool) → GoType → Type 0
Reaches iface (pointer (named name typ)) =
    (iface (pointer (named name typ)) ≡ true) ⊎ Reaches iface typ
Reaches iface (pointer (basic kind)) = ⊥
Reaches iface (pointer (array elem size)) = ⊥
Reaches iface (pointer (slice elem)) = iface (pointer (slice elem)) ≡ true
Reaches iface (pointer (pointer elem)) = iface (pointer (pointer elem)) ≡ true
Reaches iface (pointer (other name)) = iface (pointer (other name)) ≡ true
Reaches iface (named name typ) = Reaches iface typ
Reaches iface (basic kind) = ⊥
Reaches iface (array elem size) = ⊥
Reaches iface (slice elem) = ⊥
Reaches iface (other name) = ⊥

-- A static object's opset has no byte counts, and its calls are those of static objects.
abbrev pub CallsStatic : OpsetStatic → Type 0
CallsStatic s =
    (s.bytes ≡ none)
    × (s.define.template ≡ "DefineStaticObject({{.Codec}}, &{{.Field}})")
    × (s.encode.template ≡ "EncodeStaticObject({{.Codec}}, &{{.Field}})")
    × (s.decode.template ≡ "DecodeStaticObject({{.Codec}}, &{{.Field}})")

-- A dynamic object's opset has no limits, and its calls are those of dynamic objects.
abbrev pub CallsDynamic : OpsetDynamic → Type 0
CallsDynamic d =
    (d.limits ≡ none)
    × (d.size.template ≡ "SizeDynamicObject({{.Sizer}}, {{.Field}})")
    × (d.define_offset.template ≡ "DefineDynamicObjectOffset({{.Codec}}, &{{.Field}})")
    × (d.define_content.template ≡ "DefineDynamicObjectContent({{.Codec}}, &{{.Field}})")
