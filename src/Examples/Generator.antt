-- ===== src/Examples/Generator.antt =====
-- The generator on a struct with a number, a pointer to a uint256.Int and a list of bytes that a fork
-- removes.
use ssz.Base.{
  ℕ, ◌≡◌, refl, sym, true, false, Option, none, some, List, [], ◌∷◌, ◌++◌, All, arith, ◌>>=◌,
  if◌then◌else◌,
}
use Prim.Native.String.{String}
use mathlib.Core.Bool.{true≢false}
use text.Mathlib.Text.{◌==◌ as str_eq}
use ssz.Fork.{Fork, fork_altair, fork_dencun, is_absent}
use ssz.Generator.{
  pos, uint8_kind, uint64_kind, GoType, basic, array, slice, pointer, named, SizeTag, ParseContext,
  Opset, opset_static, failed, resolved, reject,
}
use ssz.Generator.Every.{Every}
use ssz.Generator.Resolve.{resolve_kind, resolve_basic_opset}
use ssz.Generator.Resolve.Slices.{resolve_slice_of_kind, resolve_slice_of, resolve_slice_opset}
use ssz.Generator.Resolve.Pointers.{
  is_uint256, is_big_int, is_bitlist, resolve_pointer_opset, resolve_opset,
}
use ssz.Generator.Sizes.{kind_size, fixed_size, IsKnown, HasSize, resolve_opset-HasSize}
use ssz.Generator.Limits.{IsBounded}
use ssz.Generator.Bounded.{finds_bitlist, resolve_opset-IsBounded}
use ssz.Generator.Container.{
  StructField, parsed, SszContainer, made, is_dynamic, append_field, add_parsed, add_field,
  make_loop, make_container,
}
use ssz.Generator.Accumulator.{tail}
use ssz.Generator.Execute.{static_sum, bytes_size, field_size, filter_of, is_present}
use ssz.Generator.Accumulated.{Names}
use ssz.Generator.Define.{CallText, generate_define_ssz}
use ssz.Generator.Printed.{Heads, Contents}
use ssz.Generator.Reached.{Reaches}
use ssz.Base.Texts.{
  fields, split, trim, trim_left, trim_right, split_where, drop_empty, prepend, digits,
}
use ssz.Generator.Tags.{
  parse_tags, parse_end, read_words, read_parts, read_tag, set_fork, set_tags, value_of, set_tag,
  parse_int, negative, positive, unsigned, lookup,
}
use ssz.Generator.Parsed.{HasNumbers, all_numbers, parse_tags-HasNumbers}
use mathlib.Core.Option.{none-ne-some}
use ssz.Generator.Method.{generate_size_ssz, run_method, cached, dynamic_sum}
use ssz.Generator.Returned.{generate_size_ssz-static_sum}
use ssz.Generator.Made.{all_static, Selects, make_container-Selects}

abbrev no_objects : ParseContext
no_objects = record { static_object_iface = λ typ. false; dynamic_object_iface = λ typ. false }

abbrev uint256_type : GoType
uint256_type =
    named record { path = "github.com/holiman/uint256"; name = "Int" } (array (basic uint64_kind) 4)

abbrev uint256_field : StructField
uint256_field = record {
  name = "Balance";
  is_exported = true;
  typ = pointer uint256_type;
  tag = "";
}

abbrev number_field : StructField
number_field = record { name = "Slot"; is_exported = true; typ = basic uint64_kind; tag = "" }

abbrev list_field : StructField
list_field = record {
  name = "Extra";
  is_exported = true;
  typ = slice (basic uint8_kind);
  tag = "ssz-max:\"48\" ssz-fork:\"!deneb\"";
}

abbrev list_tag : SizeTag
list_tag = record { bits = false; size = []; limit = pos 48 ∷ [] }

abbrev constants : String → Fork
constants name = if str_eq name "Deneb" then fork_dencun else fork_altair

uint256_type-IsKnown : IsKnown (pointer uint256_type)
unfolding IsKnown fixed_size kind_size is_big_int is_bitlist
uint256_type-IsKnown =
    ((λ e. refl), (λ e. absurd (true≢false (sym e))), (λ e. absurd (true≢false (sym e))), tt)

uint256_type-size : fixed_size (pointer uint256_type) ≡ some 32
unfolding fixed_size kind_size
uint256_type-size = refl

resolve_opset-HasSize_example :
    Every
      (HasSize
        (Reaches no_objects.static_object_iface (pointer uint256_type))
        (Reaches no_objects.dynamic_object_iface (pointer uint256_type))
        32)
      (resolve_opset no_objects (pointer uint256_type) none false)
resolve_opset-HasSize_example =
    resolve_opset-HasSize 32 no_objects (pointer uint256_type) none false uint256_type-IsKnown
      uint256_type-size

resolve_opset-IsBounded_example :
    Every
      (IsBounded
        (Reaches no_objects.dynamic_object_iface (slice (basic uint8_kind)))
        (finds_bitlist (slice (basic uint8_kind)))
        (some list_tag))
      (resolve_opset no_objects (slice (basic uint8_kind)) (some list_tag) false)
resolve_opset-IsBounded_example =
    resolve_opset-IsBounded no_objects (slice (basic uint8_kind)) (some list_tag) false

-- The opset of a type, which the fields below have.
abbrev opset_of : GoType → Option SizeTag → Opset
unfolding resolve_opset resolve_pointer_opset resolve_basic_opset resolve_kind resolve_slice_opset
    resolve_slice_of resolve_slice_of_kind is_uint256 is_big_int is_bitlist reject
opset_of typ tags = elim (resolve_opset no_objects typ tags false) [
  | failed message ↦ opset_static record {
    define = record { template = message; numbers = [] };
    encode = record { template = message; numbers = [] };
    decode = record { template = message; numbers = [] };
    bytes = none;
  }
  | resolved opset ↦ opset
]

abbrev example_container : SszContainer
example_container = record {
  static = false;
  fields =
      record {
        name = "Slot";
        typ = basic uint64_kind;
        opset = opset_of (basic uint64_kind) none;
        fork = "";
      }
      ∷ record {
        name = "Balance";
        typ = pointer uint256_type;
        opset = opset_of (pointer uint256_type) none;
        fork = "";
      }
      ∷ record {
        name = "Extra";
        typ = slice (basic uint8_kind);
        opset = opset_of (slice (basic uint8_kind)) (some list_tag);
        fork = "!Deneb";
      }
      ∷ [];
}

make_container-example :
    make_container no_objects parse_tags (number_field ∷ uint256_field ∷ list_field ∷ [])
    ≡ made example_container
unfolding make_container make_loop add_field add_parsed append_field is_dynamic resolve_opset
    resolve_pointer_opset resolve_basic_opset resolve_kind resolve_slice_opset resolve_slice_of
    resolve_slice_of_kind is_uint256 is_big_int is_bitlist reject parse_tags parse_end read_words
    read_parts read_tag set_fork set_tags value_of set_tag parse_int negative positive unsigned
    lookup tail fields split trim trim_left trim_right split_where drop_empty prepend digits
make_container-example = refl

make_container-Selects_example :
    Selects no_objects parse_tags
      (number_field ∷ uint256_field ∷ list_field ∷ [])
      example_container.fields
    × (false ≡ all_static example_container.fields)
    × ((heads : List CallText) × (contents : List CallText) × Heads example_container.fields heads
        × Contents example_container.fields contents
        × (generate_define_ssz example_container ≡ heads ++ contents))
make_container-Selects_example =
    make_container-Selects no_objects parse_tags (number_field ∷ uint256_field ∷ list_field ∷ [])
      example_container make_container-example

example_container-Names : All (Names constants) example_container.fields
unfolding Names tail
example_container-Names = (
  (λ e. absurd (true≢false (sym e))),
  ((λ e. absurd (true≢false (sym e))), ((λ e. omega arith), tt)),
)

-- Before Deneb the third field counts with its offset.
static_sum_run : static_sum constants 18 (λ typ. 0) example_container.fields 0 ≡ some 44
unfolding static_sum field_size bytes_size is_present filter_of is_absent tail opset_of
static_sum_run = refl

empty_cache :
    (n : ℕ)
    → cached constants 18 (λ typ. 0) (λ call. 5) [] 18 ≡ some n
    → static_sum constants 18 (λ typ. 0) example_container.fields 0 ≡ some n
unfolding cached
empty_cache n e = absurd (none-ne-some _ e)

flag-all_static : false ≡ all_static example_container.fields
unfolding all_static is_dynamic opset_of
flag-all_static = refl

generate_size_ssz-static_sum_example :
    run_method constants 18 (λ typ. 0) (λ call. 5) [] false (generate_size_ssz example_container)
    ≡ (static_sum constants 18 (λ typ. 0) example_container.fields 0 >>= λ n.
        some (dynamic_sum constants 18 (λ typ. 0) (λ call. 5) example_container.fields n))
generate_size_ssz-static_sum_example =
    generate_size_ssz-static_sum constants 18 (λ typ. 0) (λ call. 5) example_container false []
      (omega arith) flag-all_static example_container-Names empty_cache

parse_tags-HasNumbers_example :
    HasNumbers
      (all_numbers "ssz-size" (fields "ssz-max:\"16,?\" ssz-fork:\"!deneb\""))
      (all_numbers "ssz-max" (fields "ssz-max:\"16,?\" ssz-fork:\"!deneb\""))
      (parse_tags "ssz-max:\"16,?\" ssz-fork:\"!deneb\"")
parse_tags-HasNumbers_example = parse_tags-HasNumbers "ssz-max:\"16,?\" ssz-fork:\"!deneb\""

parse_tags_run :
    parse_tags "ssz-max:\"16,?\" ssz-fork:\"!deneb\""
    ≡ parsed false (some record { bits = false; size = []; limit = pos 16 ∷ pos 0 ∷ [] }) "!Deneb"
unfolding parse_tags parse_end read_words read_parts read_tag set_fork set_tags value_of set_tag
    parse_int negative positive unsigned lookup tail fields split trim trim_left trim_right
    split_where drop_empty prepend digits
parse_tags_run = refl
