-- ===== src/Generator/Sizes.antt =====
-- cmd/sszgen/opset.go: the number of bytes of a static opset is the size of the Go type.
use ssz.Base.{
  ℕ, ◌*◌, ◌≡◌, refl, sym, ap, ◌∙◌, ◌⊎◌, inl, inr, Bool, true, Option, none, some, List, [], ◌∷◌,
  ◌>>=◌, if-both, arith,
}
use Prim.Native.String.{String}
use mathlib.Core.Option.{map, some-ne-none, some-injective}
use mathlib.Core.Bool.{true≢false}
use ssz.Generator.{
  ℤ, pos, BasicKind, bool_kind, uint8_kind, uint16_kind, uint32_kind, uint64_kind, other_kind,
  GoType, basic, array, slice, pointer, named, other, SizeTag, ParseContext, Opset, opset_static,
  opset_dynamic, Resolved, reject, failed,
}
use ssz.Generator.Every.{
  Every, failing, passing, reject-Every, if-Every, by_pointer-Every, Every-map,
}
use ssz.Generator.Reached.{Reaches, CallsStatic, CallsDynamic}
use ssz.Generator.Resolve.{holds, resolve_kind, resolve_basic_opset}
use ssz.Generator.Resolve.Arrays.{
  resolve_bitvector, resolve_byte_array, resolve_array_of_kind, resolve_array_of_array_of_kind,
  resolve_array_of_array_opset, resolve_array_opset,
}
use ssz.Generator.Resolve.Pointers.{
  is_uint256, is_big_int, is_bitlist, resolve_pointer_opset, resolve_opset,
}

unfoldable pub kind_size : BasicKind → Option ℕ
kind_size bool_kind = some 1
kind_size uint8_kind = some 1
kind_size uint16_kind = some 2
kind_size uint32_kind = some 4
kind_size uint64_kind = some 8
kind_size other_kind = none

-- The bytes of a type whose values all have as many.
unfoldable pub fixed_size : GoType → Option ℕ
fixed_size (basic kind) = kind_size kind
fixed_size (array elem size) = map (λ n. size * n) (fixed_size elem)
fixed_size (slice elem) = none
fixed_size (pointer elem) = fixed_size elem
fixed_size (named name underlying) = fixed_size underlying
fixed_size (other name) = none

-- What the generator multiplies out.
unfoldable pub product : List ℤ → Option ℕ
product (pos n ∷ []) = some n
product (pos m ∷ pos n ∷ []) = some (m * n)
product numbers = none

-- The named types that the generator knows have their packages' definitions.
unfoldable pub IsKnown : GoType → Type 0
IsKnown (basic kind) = Unit
IsKnown (array elem size) = IsKnown elem
IsKnown (slice elem) = IsKnown elem
IsKnown (pointer elem) = IsKnown elem
IsKnown (named name underlying) =
    (is_uint256 (named name underlying) ≡ true → fixed_size underlying ≡ some 32)
    × (is_big_int (named name underlying) ≡ true → fixed_size underlying ≡ none)
    × (is_bitlist (named name underlying) ≡ true → fixed_size underlying ≡ none)
    × IsKnown underlying
IsKnown (other name) = Unit

-- The byte counts multiply to n, or the opset is a static or a dynamic object's, and then there is
-- such an object.
unfoldable pub HasSize : Type 0 → Type 0 → ℕ → Opset → Type 0
HasSize S D n (opset_static s) = (CallsStatic s × S) ⊎ ((s.bytes >>= product) ≡ some n)
HasSize S D n (opset_dynamic d) = CallsDynamic d × D

module _ (S D : Type 0) (n : ℕ) where
  -- Behind a guard, the opset still has the size.
  guarded :
      (b : Bool) (message : String) (r : Resolved)
      → Every (HasSize S D n) r
      → Every (HasSize S D n) (reject b message r)
  guarded b message r h = reject-Every b message r (λ e. h)

  resolve_basic_opset-HasSize :
      (kind : BasicKind) (tags : Option SizeTag) (is_ptr : Bool)
      → kind_size kind ≡ some n
      → Every (HasSize S D n) (resolve_basic_opset kind tags is_ptr)
  unfolding resolve_basic_opset resolve_kind kind_size HasSize product
  resolve_basic_opset-HasSize bool_kind tags is_ptr h =
      guarded _ _ _ (guarded _ _ _ (guarded _ _ _ (by_pointer-Every is_ptr _ _ (inr h) (inr h))))
  resolve_basic_opset-HasSize uint8_kind tags is_ptr h =
      guarded _ _ _ (guarded _ _ _ (guarded _ _ _ (by_pointer-Every is_ptr _ _ (inr h) (inr h))))
  resolve_basic_opset-HasSize uint16_kind tags is_ptr h =
      guarded _ _ _ (guarded _ _ _ (guarded _ _ _ (by_pointer-Every is_ptr _ _ (inr h) (inr h))))
  resolve_basic_opset-HasSize uint32_kind tags is_ptr h =
      guarded _ _ _ (guarded _ _ _ (guarded _ _ _ (by_pointer-Every is_ptr _ _ (inr h) (inr h))))
  resolve_basic_opset-HasSize uint64_kind tags is_ptr h =
      guarded _ _ _ (guarded _ _ _ (guarded _ _ _ (by_pointer-Every is_ptr _ _ (inr h) (inr h))))
  resolve_basic_opset-HasSize other_kind tags is_ptr h = guarded _ _ _ (guarded _ _ _ (failing _))

  resolve_byte_array-HasSize :
      (size : ℕ) (tags : Option SizeTag) (is_ptr : Bool)
      → some size ≡ some n
      → Every (HasSize S D n) (resolve_byte_array size tags is_ptr)
  unfolding resolve_byte_array resolve_bitvector HasSize product
  resolve_byte_array-HasSize size tags is_ptr h =
      if-both (Every (HasSize S D n)) (holds tags (λ t. t.bits))
        (guarded _ _ _ (by_pointer-Every is_ptr _ _ (inr h) (inr h)))
        (guarded _ _ _ (by_pointer-Every is_ptr _ _ (inr h) (inr h)))

  resolve_array_of_kind-HasSize :
      (kind : BasicKind) (size : ℕ) (tags : Option SizeTag) (is_ptr : Bool)
      → map (λ k. size * k) (kind_size kind) ≡ some n
      → Every (HasSize S D n) (resolve_array_of_kind kind size tags is_ptr)
  unfolding resolve_array_of_kind HasSize product kind_size
  resolve_array_of_kind-HasSize uint8_kind size tags is_ptr h =
      resolve_byte_array-HasSize size tags is_ptr (ap some (omega arith) ∙ h)
  resolve_array_of_kind-HasSize uint64_kind size tags is_ptr h =
      guarded _ _ _ (by_pointer-Every is_ptr _ _ (inr h) (inr h))
  resolve_array_of_kind-HasSize bool_kind size tags is_ptr h = failing _
  resolve_array_of_kind-HasSize uint16_kind size tags is_ptr h = failing _
  resolve_array_of_kind-HasSize uint32_kind size tags is_ptr h = failing _
  resolve_array_of_kind-HasSize other_kind size tags is_ptr h = failing _

  resolve_array_of_array_opset-HasSize :
      (typ : GoType) (outer inner : ℕ) (tags : Option SizeTag)
      → map (λ k. outer * k) (map (λ k. inner * k) (fixed_size typ)) ≡ some n
      → Every (HasSize S D n) (resolve_array_of_array_opset typ outer inner tags)
  unfolding resolve_array_of_array_opset resolve_array_of_array_of_kind HasSize product kind_size
      fixed_size
  resolve_array_of_array_opset-HasSize (basic uint8_kind) outer inner tags h =
      guarded _ _ _ (guarded _ _ _ (passing _ (inr (ap (λ k. some (outer * k)) (omega arith) ∙ h))))
  resolve_array_of_array_opset-HasSize (basic bool_kind) outer inner tags h =
      guarded _ _ _ (failing _)
  resolve_array_of_array_opset-HasSize (basic uint16_kind) outer inner tags h =
      guarded _ _ _ (failing _)
  resolve_array_of_array_opset-HasSize (basic uint32_kind) outer inner tags h =
      guarded _ _ _ (failing _)
  resolve_array_of_array_opset-HasSize (basic uint64_kind) outer inner tags h =
      guarded _ _ _ (failing _)
  resolve_array_of_array_opset-HasSize (basic other_kind) outer inner tags h =
      guarded _ _ _ (failing _)
  resolve_array_of_array_opset-HasSize (array elem size) outer inner tags h = failing _
  resolve_array_of_array_opset-HasSize (slice elem) outer inner tags h = failing _
  resolve_array_of_array_opset-HasSize (pointer elem) outer inner tags h = failing _
  resolve_array_of_array_opset-HasSize (named name typ) outer inner tags h = failing _
  resolve_array_of_array_opset-HasSize (other name) outer inner tags h = failing _

  resolve_array_opset-HasSize :
      (typ : GoType) (size : ℕ) (tags : Option SizeTag) (is_ptr : Bool)
      → map (λ k. size * k) (fixed_size typ) ≡ some n
      → Every (HasSize S D n) (resolve_array_opset typ size tags is_ptr)
  unfolding resolve_array_opset fixed_size
  resolve_array_opset-HasSize (basic kind) size tags is_ptr h =
      guarded _ _ _ (resolve_array_of_kind-HasSize kind size tags is_ptr h)
  resolve_array_opset-HasSize (array elem inner) size tags is_ptr h =
      resolve_array_of_array_opset-HasSize elem size inner tags h
  resolve_array_opset-HasSize (named name typ) size tags is_ptr h =
      resolve_array_opset-HasSize typ size tags is_ptr h
  resolve_array_opset-HasSize (slice elem) size tags is_ptr h = failing _
  resolve_array_opset-HasSize (pointer elem) size tags is_ptr h = failing _
  resolve_array_opset-HasSize (other name) size tags is_ptr h = failing _

  module _ (p : ParseContext) where
    resolve_pointer_opset-HasSize :
        (elem : GoType) (tags : Option SizeTag) (through : Resolved)
        → (is_uint256 elem ≡ true → n ≡ 32)
        → (is_big_int elem ≡ true → ⊥)
        → (p.static_object_iface (pointer elem) ≡ true → S)
        → (p.dynamic_object_iface (pointer elem) ≡ true → D)
        → Every (HasSize S D n) through
        → Every (HasSize S D n) (resolve_pointer_opset p elem tags through)
    unfolding resolve_pointer_opset HasSize product
    resolve_pointer_opset-HasSize elem tags through word never fixed dynamic h =
        if-Every (is_uint256 elem) _ _
          (λ e. guarded _ _ _ (guarded _ _ _ (passing _ (inr (ap some (sym (word e)))))))
          λ _.
            if-Every (is_big_int elem) _ _ (λ e. absurd (never e))
              λ _.
                if-Every (p.static_object_iface (pointer elem)) _ _
                  (λ e. guarded _ _ _ (passing _ (inl ((refl, refl, refl, refl), fixed e))))
                  λ _.
                    if-Every (p.dynamic_object_iface (pointer elem)) _ _
                      (λ e. guarded _ _ _ (passing _ ((refl, refl, refl, refl), dynamic e))) λ _. h

HasSize-wider :
    {S S' D D' : Type 0}
    → (S → S')
    → (D → D')
    → (n : ℕ) (o : Opset) → HasSize S D n o
    → HasSize S' D' n o
unfolding HasSize
HasSize-wider f g n (opset_static s) (inl (calls, h)) = inl (calls, f h)
HasSize-wider f g n (opset_static s) (inr h) = inr h
HasSize-wider f g n (opset_dynamic d) (calls, h) = (calls, g h)

module _ (n : ℕ) (p : ParseContext) where
  abbrev Static : GoType → Type 0
  Static typ = Reaches p.static_object_iface typ

  abbrev Dynamic : GoType → Type 0
  Dynamic typ = Reaches p.dynamic_object_iface typ

  -- A field whose Go type has n bytes is resolved, if at all, to a static opset whose byte counts
  -- multiply to n; or to the calls of a static object, without byte counts, and then the type, or one
  -- that it names, implements the static interface; or to the calls of a dynamic object, without
  -- limits, and then it implements the dynamic interface. The named types uint256.Int, big.Int and
  -- Bitlist are those of their packages.
  pub resolve_opset-HasSize :
      (typ : GoType) (tags : Option SizeTag) (is_ptr : Bool)
      → IsKnown typ
      → fixed_size typ ≡ some n
      → Every
          (HasSize (Reaches p.static_object_iface typ) (Reaches p.dynamic_object_iface typ) n)
          (resolve_opset p typ tags is_ptr)
  unfolding resolve_opset fixed_size IsKnown is_uint256 is_big_int Reaches
  resolve_opset-HasSize (basic kind) tags is_ptr known h =
      resolve_basic_opset-HasSize ⊥ ⊥ n kind tags is_ptr h
  resolve_opset-HasSize (array elem size) tags is_ptr known h =
      resolve_array_opset-HasSize ⊥ ⊥ n elem size tags is_ptr h
  resolve_opset-HasSize (slice elem) tags is_ptr known h = absurd (some-ne-none _ (sym h))
  resolve_opset-HasSize (named name typ) tags is_ptr (word, big, list, known) h =
      if-Every (is_bitlist (named name typ)) _ _ (λ e. absurd (some-ne-none _ (sym h ∙ list e)))
        λ _. resolve_opset-HasSize typ tags is_ptr known h
  resolve_opset-HasSize (pointer (basic kind)) tags is_ptr known h =
      resolve_basic_opset-HasSize ⊥ ⊥ n kind tags true h
  resolve_opset-HasSize (pointer (array elem size)) tags is_ptr known h =
      resolve_array_opset-HasSize ⊥ ⊥ n elem size tags true h
  resolve_opset-HasSize (pointer (named name typ)) tags is_ptr (word, big, list, known) h =
      resolve_pointer_opset-HasSize (Static (pointer (named name typ)))
        (Dynamic (pointer (named name typ))) n p (named name typ) tags
        (resolve_opset p typ tags true) (λ e. some-injective _ _ (sym h ∙ word e))
        (λ e. some-ne-none _ (sym h ∙ big e)) inl inl
        (Every-map (HasSize-wider inr inr n) _ (resolve_opset-HasSize typ tags true known h))
  resolve_opset-HasSize (pointer (slice elem)) tags is_ptr known h = absurd (some-ne-none _ (sym h))
  resolve_opset-HasSize (pointer (pointer elem)) tags is_ptr known h =
      resolve_pointer_opset-HasSize (Static (pointer (pointer elem)))
        (Dynamic (pointer (pointer elem))) n p (pointer elem) tags
        (failed "unsupported pointer type %s") (λ e. absurd (true≢false (sym e)))
        (λ e. true≢false (sym e)) (λ e. e) (λ e. e) (failing _)
  resolve_opset-HasSize (pointer (other name)) tags is_ptr known h = absurd (some-ne-none _ (sym h))
  resolve_opset-HasSize (other name) tags is_ptr known h = absurd (some-ne-none _ (sym h))
