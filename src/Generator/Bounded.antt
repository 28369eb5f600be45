-- ===== src/Generator/Bounded.antt =====
-- cmd/sszgen/opset.go and types.go: the limits of the opset of a field are those of its ssz-max tag.
use ssz.Base.{
  ℕ, ◌≡◌, refl, inl, inr, Bool, true, false, ◌&&◌, ◌||◌, Option, none, some, length, ltb, ◌==◌,
  if-both, if◌then◌else◌,
}
use mathlib.Core.Bool.{true≢false}
use ssz.Generator.{
  BasicKind, bool_kind, uint8_kind, uint16_kind, uint32_kind, uint64_kind, other_kind, GoType,
  basic, array, slice, pointer, named, other, SizeTag, ParseContext, OpsetDynamic, Opset,
  opset_static, opset_dynamic, Resolved,
}
use ssz.Generator.Every.{Every, failing, passing, reject-Every, if-Every, Every-map}
use ssz.Generator.Reached.{Reaches, CallsDynamic}
use ssz.Generator.Resolve.{resolve_bitlist_opset}
use ssz.Generator.Limits.{
  IsBounded, Converts, unlimited-IsBounded, untagged-IsBounded, zero-length, one-length,
  resolve_basic_opset-IsBounded, resolve_bitlist_opset-IsBounded, resolve_array_opset-IsBounded,
}
use ssz.Generator.Resolve.Slices.{
  resolve_slice_of_kind, resolve_slice_of_array_opset, resolve_slice_of_slice_opset,
  resolve_slice_of_pointer, resolve_slice_of, resolve_slice_opset,
}
use ssz.Generator.Resolve.Pointers.{
  is_tagged, is_uint256, is_big_int, is_bitlist, resolve_pointer_opset, resolve_opset,
}

module _ (D : Type 0) where
  resolve_slice_of_kind-IsBounded :
      (kind : BasicKind) (t : SizeTag)
      → Every (IsBounded D false (some t)) (resolve_slice_of_kind kind t)
  unfolding resolve_slice_of_kind IsBounded Converts
  resolve_slice_of_kind-IsBounded uint8_kind t =
      if-both (Every (IsBounded D false (some t))) (ltb 0 (length t.size))
        (reject-Every _ _ _ λ _. reject-Every _ _ _ λ e. passing _ (zero-length _ e))
        (reject-Every _ _ _
          λ _. reject-Every _ _ _ λ e. passing _ (one-length 0 _ e, (_, refl, refl)))
  resolve_slice_of_kind-IsBounded uint64_kind t =
      if-both (Every (IsBounded D false (some t))) (ltb 0 (length t.size))
        (reject-Every _ _ _ λ _. reject-Every _ _ _ λ e. passing _ (zero-length _ e))
        (reject-Every _ _ _
          λ _. reject-Every _ _ _ λ e. passing _ (one-length 0 _ e, (_, refl, refl)))
  resolve_slice_of_kind-IsBounded bool_kind t = failing _
  resolve_slice_of_kind-IsBounded uint16_kind t = failing _
  resolve_slice_of_kind-IsBounded uint32_kind t = failing _
  resolve_slice_of_kind-IsBounded other_kind t = failing _

  resolve_slice_of_array_opset-IsBounded :
      (typ : GoType) (inner : ℕ) (t : SizeTag)
      → Every (IsBounded D false (some t)) (resolve_slice_of_array_opset typ inner t)
  unfolding resolve_slice_of_array_opset IsBounded Converts
  resolve_slice_of_array_opset-IsBounded (basic uint8_kind) inner t =
      if-both (Every (IsBounded D false (some t))) (ltb 0 (length t.size))
        (reject-Every _ _ _ λ _. reject-Every _ _ _ λ e. passing _ (zero-length _ e))
        (reject-Every _ _ _
          λ _. reject-Every _ _ _ λ e. passing _ (one-length 0 _ e, (_, refl, refl)))
  resolve_slice_of_array_opset-IsBounded (basic bool_kind) inner t = failing _
  resolve_slice_of_array_opset-IsBounded (basic uint16_kind) inner t = failing _
  resolve_slice_of_array_opset-IsBounded (basic uint32_kind) inner t = failing _
  resolve_slice_of_array_opset-IsBounded (basic uint64_kind) inner t = failing _
  resolve_slice_of_array_opset-IsBounded (basic other_kind) inner t = failing _
  resolve_slice_of_array_opset-IsBounded (array elem size) inner t = failing _
  resolve_slice_of_array_opset-IsBounded (slice elem) inner t = failing _
  resolve_slice_of_array_opset-IsBounded (pointer elem) inner t = failing _
  resolve_slice_of_array_opset-IsBounded (named name typ) inner t = failing _
  resolve_slice_of_array_opset-IsBounded (other name) inner t = failing _

  resolve_slice_of_slice_opset-IsBounded :
      (typ : GoType) (t : SizeTag)
      → Every (IsBounded D false (some t)) (resolve_slice_of_slice_opset typ t)
  unfolding resolve_slice_of_slice_opset IsBounded Converts
  resolve_slice_of_slice_opset-IsBounded (basic uint8_kind) t = reject-Every _ _ _ λ _.
      if-both (Every (IsBounded D false (some t))) ((length t.size == 0) && ltb 0 (length t.limit))
        (reject-Every _ _ _ λ e. passing _ (one-length 1 _ e, (_, refl, refl))) (failing _)
  resolve_slice_of_slice_opset-IsBounded (basic bool_kind) t = failing _
  resolve_slice_of_slice_opset-IsBounded (basic uint16_kind) t = failing _
  resolve_slice_of_slice_opset-IsBounded (basic uint32_kind) t = failing _
  resolve_slice_of_slice_opset-IsBounded (basic uint64_kind) t = failing _
  resolve_slice_of_slice_opset-IsBounded (basic other_kind) t = failing _
  resolve_slice_of_slice_opset-IsBounded (array elem size) t = failing _
  resolve_slice_of_slice_opset-IsBounded (slice elem) t = failing _
  resolve_slice_of_slice_opset-IsBounded (pointer elem) t = failing _
  resolve_slice_of_slice_opset-IsBounded (named name typ) t = failing _
  resolve_slice_of_slice_opset-IsBounded (other name) t = failing _

  module _ (p : ParseContext) where
    resolve_slice_of_pointer-IsBounded :
        (typ : GoType) (t : SizeTag)
        → Every (IsBounded D false (some t)) (resolve_slice_of_pointer p typ t)
    unfolding resolve_slice_of_pointer IsBounded Converts
    resolve_slice_of_pointer-IsBounded typ t =
        if-both (Every (IsBounded D false (some t))) (p.static_object_iface typ)
          (reject-Every _ _ _
            λ _. reject-Every _ _ _ λ e. passing _ (one-length 0 _ e, (_, refl, refl)))
          (if-both (Every (IsBounded D false (some t))) (p.dynamic_object_iface typ)
            (reject-Every _ _ _
              λ _. reject-Every _ _ _ λ e. passing _ (one-length 0 _ e, (_, refl, refl)))
            (failing _))

    resolve_slice_of-IsBounded :
        (typ : GoType) (t : SizeTag) → Every (IsBounded D false (some t)) (resolve_slice_of p typ t)
    unfolding resolve_slice_of
    resolve_slice_of-IsBounded (basic kind) t = resolve_slice_of_kind-IsBounded kind t
    resolve_slice_of-IsBounded (pointer elem) t =
        resolve_slice_of_pointer-IsBounded (pointer elem) t
    resolve_slice_of-IsBounded (array elem n) t = resolve_slice_of_array_opset-IsBounded elem n t
    resolve_slice_of-IsBounded (slice elem) t = resolve_slice_of_slice_opset-IsBounded elem t
    resolve_slice_of-IsBounded (named name typ) t = resolve_slice_of-IsBounded typ t
    resolve_slice_of-IsBounded (other name) t = failing _

    resolve_slice_opset-IsBounded :
        (typ : GoType) (tags : Option SizeTag)
        → Every (IsBounded D false tags) (resolve_slice_opset p typ tags)
    unfolding resolve_slice_opset
    resolve_slice_opset-IsBounded typ none = failing _
    resolve_slice_opset-IsBounded typ (some t) = resolve_slice_of-IsBounded typ t

module _ (D : Type 0) (rounded : Bool) where
  dynamic_object-IsBounded :
      (tags : Option SizeTag) (d : OpsetDynamic)
      → is_tagged tags ≡ false
      → CallsDynamic d
      → D
      → IsBounded D rounded tags (opset_dynamic d)
  unfolding IsBounded Converts
  dynamic_object-IsBounded none d e calls object = (calls, object)
  dynamic_object-IsBounded (some t) d e calls object = absurd (true≢false e)

  resolve_pointer_opset-IsBounded :
      (p : ParseContext) (elem : GoType) (tags : Option SizeTag) (through : Resolved)
      → (p.dynamic_object_iface (pointer elem) ≡ true → D)
      → Every (IsBounded D rounded tags) through
      → Every (IsBounded D rounded tags) (resolve_pointer_opset p elem tags through)
  unfolding resolve_pointer_opset
  resolve_pointer_opset-IsBounded p elem tags through object h =
      let P = Every (IsBounded D rounded tags) in
      if-both P (is_uint256 elem)
        (reject-Every _ _ _
          λ e. reject-Every _ _ _ λ _. passing _ (unlimited-IsBounded D rounded tags _ e))
        (if-both P (is_big_int elem)
          (reject-Every _ _ _
            λ e. reject-Every _ _ _ λ _. passing _ (unlimited-IsBounded D rounded tags _ e))
          (if-both P (p.static_object_iface (pointer elem))
            (reject-Every _ _ _ λ e. passing _ (untagged-IsBounded D rounded tags _ e))
            (if-Every (p.dynamic_object_iface (pointer elem)) _ _
              (λ i. reject-Every _ _ _ λ e.
                passing _ (dynamic_object-IsBounded tags _ e (refl, refl, refl, refl) (object i)))
              λ _. h)))

IsBounded-wider :
    {D E : Type 0}
    → (D → E)
    → (rounded : Bool) (tags : Option SizeTag) (o : Opset) → IsBounded D rounded tags o
    → IsBounded E rounded tags o
unfolding IsBounded Converts
IsBounded-wider f rounded none (opset_static s) h = tt
IsBounded-wider f rounded none (opset_dynamic d) (calls, h) = (calls, f h)
IsBounded-wider f rounded (some t) (opset_static s) h = h
IsBounded-wider f rounded (some t) (opset_dynamic d) h = h

-- The type is a Bitlist, or one of its underlying types is; a pointer to one counts as a pointer to
-- its underlying type.
unfoldable pub finds_bitlist : GoType → Bool
finds_bitlist (named name typ) = is_bitlist (named name typ) || finds_bitlist typ
finds_bitlist (pointer (named name typ)) = finds_bitlist typ
finds_bitlist typ = false

module _ (p : ParseContext) where
  abbrev IsResolved : Type 0 → Option SizeTag → Resolved → Bool → Bool → Type 0
  IsResolved D tags through inner b =
      Every (IsBounded D (b || inner) tags) (if b then resolve_bitlist_opset tags else through)

  if_bitlist-IsBounded :
      (D : Type 0) (tags : Option SizeTag) (through : Resolved) (inner b : Bool)
      → Every (IsBounded D inner tags) through
      → IsResolved D tags through inner b
  if_bitlist-IsBounded D tags through inner true h = resolve_bitlist_opset-IsBounded D tags
  if_bitlist-IsBounded D tags through inner false h = h

  -- Whatever the field's type, a dynamic opset that resolveOpset returns for a tagged field has the
  -- limits of the ssz-max tag, which is not empty then: of a bitlist as the least numbers of bytes with
  -- room for so many bits, if Go's addition does not wrap and none is negative, and of other types as
  -- they are; a dynamic opset without tags has the calls of a dynamic object, and the type, or one that
  -- it names, implements the dynamic interface; and with a static opset there is no ssz-max tag.
  pub resolve_opset-IsBounded :
      (typ : GoType) (tags : Option SizeTag) (is_ptr : Bool)
      → Every
          (IsBounded (Reaches p.dynamic_object_iface typ) (finds_bitlist typ) tags)
          (resolve_opset p typ tags is_ptr)
  unfolding resolve_opset Reaches finds_bitlist
  resolve_opset-IsBounded (basic kind) tags is_ptr =
      resolve_basic_opset-IsBounded ⊥ false kind tags is_ptr
  resolve_opset-IsBounded (array elem n) tags is_ptr =
      resolve_array_opset-IsBounded ⊥ false elem n tags is_ptr
  resolve_opset-IsBounded (slice elem) tags is_ptr = resolve_slice_opset-IsBounded ⊥ p elem tags
  resolve_opset-IsBounded (named name typ) tags is_ptr =
      if_bitlist-IsBounded (Reaches p.dynamic_object_iface typ) tags
        (resolve_opset p typ tags is_ptr) (finds_bitlist typ) (is_bitlist (named name typ))
        (resolve_opset-IsBounded typ tags is_ptr)
  resolve_opset-IsBounded (pointer (basic kind)) tags is_ptr =
      resolve_basic_opset-IsBounded ⊥ false kind tags true
  resolve_opset-IsBounded (pointer (array elem n)) tags is_ptr =
      resolve_array_opset-IsBounded ⊥ false elem n tags true
  resolve_opset-IsBounded (pointer (named name typ)) tags is_ptr =
      resolve_pointer_opset-IsBounded (Reaches p.dynamic_object_iface (pointer (named name typ)))
        (finds_bitlist typ) p (named name typ) tags (resolve_opset p typ tags true) inl
        (Every-map (IsBounded-wider inr (finds_bitlist typ) tags) _
          (resolve_opset-IsBounded typ tags true))
  resolve_opset-IsBounded (pointer (slice elem)) tags is_ptr =
      resolve_pointer_opset-IsBounded (Reaches p.dynamic_object_iface (pointer (slice elem))) false
        p (slice elem) tags _ (λ e. e) (failing _)
  resolve_opset-IsBounded (pointer (pointer elem)) tags is_ptr =
      resolve_pointer_opset-IsBounded (Reaches p.dynamic_object_iface (pointer (pointer elem)))
        false p (pointer elem) tags _ (λ e. e) (failing _)
  resolve_opset-IsBounded (pointer (other name)) tags is_ptr =
      resolve_pointer_opset-IsBounded (Reaches p.dynamic_object_iface (pointer (other name))) false
        p (other name) tags _ (λ e. e) (failing _)
  resolve_opset-IsBounded (other name) tags is_ptr = failing _
