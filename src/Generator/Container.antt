-- ===== src/Generator/Container.antt =====
-- cmd/sszgen/types.go: the container that makeContainer builds of a struct's fields. The parallel
-- slices fields, types, opsets and forks are one list; parseTags is the parameter of a section.
use ssz.Base.{Bool, true, false, Option, List, [], ◌∷◌, ◌++◌, if◌then◌else◌}
use Prim.Native.String.{String}
use mathlib.Core.Bool.{not}
use ssz.Generator.{
  GoType, SizeTag, ParseContext, Opset, opset_static, opset_dynamic, Resolved, failed, resolved,
}
use ssz.Generator.Resolve.Pointers.{resolve_opset}

-- A field of types.Struct with its tag.
pub record StructField : Type 0 where
  pub name : String
  pub is_exported : Bool
  pub typ : GoType
  pub tag : String

pub data Parsed : Type 0 where
  unparsed : String → Parsed
  parsed : Bool → Option SizeTag → String → Parsed

pub record ContainerField : Type 0 where
  pub name : String
  pub typ : GoType
  pub opset : Opset
  pub fork : String

pub record SszContainer : Type 0 where
  pub static : Bool
  pub fields : List ContainerField

pub data Made : Type 0 where
  unmade : String → Made
  made : SszContainer → Made

unfoldable pub is_dynamic : Opset → Bool
is_dynamic (opset_static s) = false
is_dynamic (opset_dynamic d) = true

unfoldable pub append_field : StructField → String → Resolved → SszContainer → Made
append_field f fork (failed message) c = unmade "failed to validate field %s.%s: %v"
append_field f fork (resolved opset) c = made record {
  static = if is_dynamic opset then false else c.static;
  fields = c.fields ++ (record { name = f.name; typ = f.typ; opset = opset; fork = fork } ∷ []);
}

module _ (p : ParseContext) (parse_tags : String → Parsed) where
  unfoldable pub add_parsed : StructField → Parsed → SszContainer → Made
  add_parsed f (unparsed message) c = unmade "failed to parse field %s.%s tags: %v"
  add_parsed f (parsed ignore tags fork) c =
      if ignore then made c else append_field f fork (resolve_opset p f.typ tags false) c

  unfoldable pub add_field : StructField → SszContainer → Made
  add_field f c = if not f.is_exported then made c else add_parsed f (parse_tags f.tag) c

  unfoldable pub make_loop : List StructField → Made → Made
  make_loop fs (unmade message) = unmade message
  make_loop [] (made c) = made c
  make_loop (f ∷ fs) (made c) = make_loop fs (add_field f c)

  unfoldable pub make_container : List StructField → Made
  make_container fs = make_loop fs (made record { static = true; fields = [] })
