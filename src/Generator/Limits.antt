-- ===== src/Generator/Limits.antt =====
-- cmd/sszgen/opset.go: the limits of the opsets of basic types, bitlists and arrays are those of the
-- ssz-max tag.
use ssz.Base.{
  ℕ, suc, ◌+◌, ◌*◌, ◌/◌, ◌^◌, ◌≤◌, ◌<◌, ◌≡◌, refl, ◌⊎◌, inl, inr, Bool, true, false, Bool-cases,
  Option, none, some, List, [], ◌∷◌, map, length, ltb, ◌==◌, if◌then◌else◌, if-both, arith,
}
use mathlib.Core.Bool.{not, true≢false}
use ssz.Generator.{
  ℤ, pos, negsuc, BasicKind, bool_kind, uint8_kind, uint16_kind, uint32_kind, uint64_kind,
  other_kind, GoType, basic, array, slice, pointer, named, other, SizeTag, OpsetStatic, Opset,
  opset_static, opset_dynamic, resolved,
}
use ssz.Generator.Every.{Every, failing, passing, reject-Every, by_pointer-Every}
use ssz.Generator.Reached.{CallsDynamic}
use ssz.Generator.Resolve.{
  holds, bits_to_bytes, resolve_kind, resolve_basic_opset, resolve_bitlist_opset,
}
use ssz.Generator.Resolve.Arrays.{
  resolve_bitvector, resolve_byte_array, resolve_array_of_kind, resolve_array_of_array_of_kind,
  resolve_array_of_array_opset, resolve_array_opset,
}
use ssz.Generator.Resolve.Pointers.{is_limited, is_tagged}

-- So many bytes are the least ones with room for the bits, unless Go's addition wraps or the tag has
-- a negative number.
unfoldable pub RoundsUp : ℤ → ℤ → Type 0
RoundsUp (pos n) m =
    ((k : ℕ) × (m ≡ pos k) × (n ≤ 8 * k) × (8 * k < n + 8))
    ⊎ ((2 ^ 63 ≤ n + 7) × (m ≡ bits_to_bytes (pos n)))
RoundsUp (negsuc n) m = m ≡ bits_to_bytes (negsuc n)

-- The limits are those of the tag, or rounded up, number by number.
unfoldable pub Converts : Bool → List ℤ → List ℤ → Type 0
Converts false ns ms = ms ≡ ns
Converts true [] [] = Unit
Converts true [] (m ∷ ms) = ⊥
Converts true (n ∷ ns) [] = ⊥
Converts true (n ∷ ns) (m ∷ ms) = RoundsUp n m × Converts true ns ms

bits_to_bytes-RoundsUp : (n : ℤ) → RoundsUp n (bits_to_bytes n)
unfolding RoundsUp bits_to_bytes
bits_to_bytes-RoundsUp (pos n) = elim (Bool-cases (ltb (n + 7) (2 ^ 63))) [
  | inl small ↦ inl ((n + 7) / 8, rw small refl, omega arith, omega arith)
  | inr large ↦ inr (ground arith, refl)
]
bits_to_bytes-RoundsUp (negsuc n) = refl

map-Converts : (ns : List ℤ) → Converts true ns (map bits_to_bytes ns)
unfolding Converts
map-Converts [] = tt
map-Converts (n ∷ ns) = (bits_to_bytes-RoundsUp n, map-Converts ns)

-- A static opset has no ssz-max tag; a dynamic one without tags is that of an object, and then there
-- is such an object; and one with tags has their limits, `rounded` up from bits to bytes or not.
unfoldable pub IsBounded : Type 0 → Bool → Option SizeTag → Opset → Type 0
IsBounded D rounded none (opset_static s) = Unit
IsBounded D rounded none (opset_dynamic d) = CallsDynamic d × D
IsBounded D rounded (some t) (opset_static s) = length t.limit ≡ 0
IsBounded D rounded (some t) (opset_dynamic d) =
    (1 ≤ length t.limit)
    × ((limits : List ℤ) × (d.limits ≡ some limits) × Converts rounded t.limit limits)

pub zero-length : (n : ℕ) → ltb 0 n ≡ false → n ≡ 0
zero-length n e = ground arith

pub one-length : (k n : ℕ) → not (n == suc k) ≡ false → 1 ≤ n
one-length k n e = ground arith

module _ (D : Type 0) (rounded : Bool) where
  pub unlimited-IsBounded :
      (tags : Option SizeTag) (s : OpsetStatic)
      → is_limited tags ≡ false
      → IsBounded D rounded tags (opset_static s)
  unfolding IsBounded
  unlimited-IsBounded none s e = tt
  unlimited-IsBounded (some t) s e = ground arith

  pub untagged-IsBounded :
      (tags : Option SizeTag) (s : OpsetStatic)
      → is_tagged tags ≡ false
      → IsBounded D rounded tags (opset_static s)
  unfolding IsBounded
  untagged-IsBounded none s e = tt
  untagged-IsBounded (some t) s e = absurd (true≢false e)

  either-IsBounded :
      (tags : Option SizeTag) (is_ptr : Bool) (s r : OpsetStatic)
      → is_limited tags ≡ false
      → Every
          (IsBounded D rounded tags)
          (if is_ptr then resolved (opset_static s) else resolved (opset_static r))
  either-IsBounded tags is_ptr s r e =
      by_pointer-Every is_ptr _ _ (unlimited-IsBounded tags s e) (unlimited-IsBounded tags r e)

  resolve_kind-IsBounded :
      (kind : BasicKind) (tags : Option SizeTag) (is_ptr : Bool)
      → is_limited tags ≡ false
      → Every (IsBounded D rounded tags) (resolve_kind kind tags is_ptr)
  unfolding resolve_kind
  resolve_kind-IsBounded bool_kind tags is_ptr e =
      reject-Every _ _ _ λ _. either-IsBounded tags is_ptr _ _ e
  resolve_kind-IsBounded uint8_kind tags is_ptr e =
      reject-Every _ _ _ λ _. either-IsBounded tags is_ptr _ _ e
  resolve_kind-IsBounded uint16_kind tags is_ptr e =
      reject-Every _ _ _ λ _. either-IsBounded tags is_ptr _ _ e
  resolve_kind-IsBounded uint32_kind tags is_ptr e =
      reject-Every _ _ _ λ _. either-IsBounded tags is_ptr _ _ e
  resolve_kind-IsBounded uint64_kind tags is_ptr e =
      reject-Every _ _ _ λ _. either-IsBounded tags is_ptr _ _ e
  resolve_kind-IsBounded other_kind tags is_ptr e = failing _

  pub resolve_basic_opset-IsBounded :
      (kind : BasicKind) (tags : Option SizeTag) (is_ptr : Bool)
      → Every (IsBounded D rounded tags) (resolve_basic_opset kind tags is_ptr)
  unfolding resolve_basic_opset
  resolve_basic_opset-IsBounded kind tags is_ptr =
      reject-Every _ _ _ λ e. reject-Every _ _ _ λ _. resolve_kind-IsBounded kind tags is_ptr e

  resolve_array_of_kind-IsBounded :
      (kind : BasicKind) (size : ℕ) (tags : Option SizeTag) (is_ptr : Bool)
      → is_limited tags ≡ false
      → Every (IsBounded D rounded tags) (resolve_array_of_kind kind size tags is_ptr)
  unfolding resolve_array_of_kind resolve_byte_array resolve_bitvector
  resolve_array_of_kind-IsBounded uint8_kind size tags is_ptr e =
      if-both (Every (IsBounded D rounded tags)) (holds tags (λ t. t.bits))
        (reject-Every _ _ _ λ _. either-IsBounded tags is_ptr _ _ e)
        (reject-Every _ _ _ λ _. either-IsBounded tags is_ptr _ _ e)
  resolve_array_of_kind-IsBounded uint64_kind size tags is_ptr e =
      reject-Every _ _ _ λ _. either-IsBounded tags is_ptr _ _ e
  resolve_array_of_kind-IsBounded bool_kind size tags is_ptr e = failing _
  resolve_array_of_kind-IsBounded uint16_kind size tags is_ptr e = failing _
  resolve_array_of_kind-IsBounded uint32_kind size tags is_ptr e = failing _
  resolve_array_of_kind-IsBounded other_kind size tags is_ptr e = failing _

  resolve_array_of_array_of_kind-IsBounded :
      (kind : BasicKind) (outer inner : ℕ) (tags : Option SizeTag)
      → is_limited tags ≡ false
      → Every (IsBounded D rounded tags) (resolve_array_of_array_of_kind kind outer inner tags)
  unfolding resolve_array_of_array_of_kind
  resolve_array_of_array_of_kind-IsBounded uint8_kind outer inner tags e =
      reject-Every _ _ _ λ _. passing _ (unlimited-IsBounded tags _ e)
  resolve_array_of_array_of_kind-IsBounded bool_kind outer inner tags e = failing _
  resolve_array_of_array_of_kind-IsBounded uint16_kind outer inner tags e = failing _
  resolve_array_of_array_of_kind-IsBounded uint32_kind outer inner tags e = failing _
  resolve_array_of_array_of_kind-IsBounded uint64_kind outer inner tags e = failing _
  resolve_array_of_array_of_kind-IsBounded other_kind outer inner tags e = failing _

  resolve_array_of_array_opset-IsBounded :
      (typ : GoType) (outer inner : ℕ) (tags : Option SizeTag)
      → Every (IsBounded D rounded tags) (resolve_array_of_array_opset typ outer inner tags)
  unfolding resolve_array_of_array_opset
  resolve_array_of_array_opset-IsBounded (basic kind) outer inner tags =
      reject-Every _ _ _ λ e. resolve_array_of_array_of_kind-IsBounded kind outer inner tags e
  resolve_array_of_array_opset-IsBounded (array elem size) outer inner tags = failing _
  resolve_array_of_array_opset-IsBounded (slice elem) outer inner tags = failing _
  resolve_array_of_array_opset-IsBounded (pointer elem) outer inner tags = failing _
  resolve_array_of_array_opset-IsBounded (named name typ) outer inner tags = failing _
  resolve_array_of_array_opset-IsBounded (other name) outer inner tags = failing _

  pub resolve_array_opset-IsBounded :
      (typ : GoType) (size : ℕ) (tags : Option SizeTag) (is_ptr : Bool)
      → Every (IsBounded D rounded tags) (resolve_array_opset typ size tags is_ptr)
  unfolding resolve_array_opset
  resolve_array_opset-IsBounded (basic kind) size tags is_ptr =
      reject-Every _ _ _ λ e. resolve_array_of_kind-IsBounded kind size tags is_ptr e
  resolve_array_opset-IsBounded (array elem inner) size tags is_ptr =
      resolve_array_of_array_opset-IsBounded elem size inner tags
  resolve_array_opset-IsBounded (named name typ) size tags is_ptr =
      resolve_array_opset-IsBounded typ size tags is_ptr
  resolve_array_opset-IsBounded (slice elem) size tags is_ptr = failing _
  resolve_array_opset-IsBounded (pointer elem) size tags is_ptr = failing _
  resolve_array_opset-IsBounded (other name) size tags is_ptr = failing _

pub resolve_bitlist_opset-IsBounded :
    (D : Type 0) (tags : Option SizeTag)
    → Every (IsBounded D true tags) (resolve_bitlist_opset tags)
unfolding resolve_bitlist_opset IsBounded
resolve_bitlist_opset-IsBounded D none = failing _
resolve_bitlist_opset-IsBounded D (some t) = reject-Every _ _ _ λ _.
    reject-Every _ _ _
      λ _. reject-Every _ _ _ λ e. passing _ (one-length 0 _ e, (_, refl, map-Converts t.limit))
