-- ===== src/Generator.antt =====
-- cmd/sszgen: the Go types that the generator reads, the size tags of their fields, and the sets of
-- method calls that it resolves them to. The children model tags.go, opset.go, types.go and gen.go.
pub mod Every
pub mod Resolve
pub mod Reached
pub mod Sizes
pub mod Limits
pub mod Bounded
pub mod Container
pub mod Accumulator
pub mod Execute
pub mod Operators
pub mod Accumulated
pub mod Tags
pub mod Tagged
pub mod Parsed
pub mod Define
pub mod Printed
pub mod Method
pub mod Lines
pub mod Made
pub mod Direct
pub mod Returned
use ssz.Base.{ℕ, ◌+◌, ◌*◌, Bool, true, false, Option, List, ltb, ◌==◌}
use Prim.Native.String.{String}

-- Go's int: a tag may hold any number that strconv.ParseInt reads.
pub data ℤ : Type 0 where
  pos negsuc : ℕ → ℤ

-- The kinds of go/types.Basic, by the cases of the switches.
pub data BasicKind : Type 0 where
  bool_kind uint8_kind uint16_kind uint32_kind uint64_kind other_kind : BasicKind

-- The package and the name of a types.Named.
pub record TypeName : Type 0 where
  pub path : String
  pub name : String

-- go/types.Type, a named type with its underlying type. The types without a case of their own, as
-- structs, maps and interfaces, are `other`.
pub data GoType : Type 0 where
  basic : BasicKind → GoType
  array : GoType → ℕ → GoType
  slice pointer : GoType → GoType
  named : TypeName → GoType → GoType
  other : String → GoType

-- A nil list of a tag is the empty one: parseTags only appends to it.
pub record SizeTag : Type 0 where
  pub bits : Bool
  pub size : List ℤ
  pub limit : List ℤ

-- types.Implements for the two interfaces of the library.
pub record ParseContext : Type 0 where
  pub static_object_iface : GoType → Bool
  pub dynamic_object_iface : GoType → Bool

-- A call in its template, with the numbers that Sprintf writes for %d.
pub record Call : Type 0 where
  pub template : String
  pub numbers : List ℤ

pub record OpsetStatic : Type 0 where
  pub define : Call
  pub encode : Call
  pub decode : Call
  pub bytes : Option (List ℤ)

pub record OpsetDynamic : Type 0 where
  pub size : Call
  pub define_offset : Call
  pub define_content : Call
  pub encode_offset : Call
  pub encode_content : Call
  pub decode_offset : Call
  pub decode_content : Call
  pub sizes : Option (List ℤ)
  pub limits : Option (List ℤ)

pub data Opset : Type 0 where
  opset_static : OpsetStatic → Opset
  opset_dynamic : OpsetDynamic → Opset

-- An error is the format of its message.
pub data Resolved : Type 0 where
  failed : String → Resolved
  resolved : Opset → Resolved

-- An early return with an error, on the condition of an if without an else.
unfoldable pub reject : Bool → String → Resolved → Resolved
reject true message rest = failed message
reject false message rest = rest

-- The tests on a number of a tag: is it n, is it below n * 8 - 7, is it above n.
abbrev pub is_number : ℤ → ℕ → Bool
is_number (pos k) n = k == n
is_number (negsuc k) n = false

abbrev pub is_under_bits : ℤ → ℕ → Bool
is_under_bits (pos k) n = ltb (k + 7) (n * 8)
is_under_bits (negsuc k) n = ltb 7 (n * 8 + (k + 1))

abbrev pub is_over : ℤ → ℕ → Bool
is_over (pos k) n = ltb n k
is_over (negsuc k) n = false
