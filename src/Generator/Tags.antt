-- ===== src/Generator/Tags.antt =====
-- cmd/sszgen/tags.go and forks.go: the tags of a struct field.
use ssz.Base.{
  ℕ, zero, suc, ◌^◌, Bool, true, false, ◌&&◌, ◌||◌, Option, none, some, List, [], ◌∷◌, ◌++◌, length,
  ltb, ◌==◌, ◌>>=◌, if◌then◌else◌,
}
use Prim.Native.String.{String, ◌++◌ as concat}
use text.Mathlib.Text.{◌==◌ as str_eq, starts_with}
use ssz.Base.Texts.{fields, split, trim, digits}
use ssz.Generator.{ℤ, pos, negsuc}
use ssz.Generator.Container.{Parsed, unparsed, parsed}
use ssz.Generator.Accumulator.{tail}

abbrev pub fork_mapping : List (String × String)
fork_mapping =
    ("unknown", "Unknown")
    ∷ ("frontier", "Frontier")
    ∷ ("homestead", "Homestead")
    ∷ ("dao", "DAO")
    ∷ ("tangerine", "Tangerine")
    ∷ ("spurious", "Spurious")
    ∷ ("byzantium", "Byzantium")
    ∷ ("constantinople", "Constantinople")
    ∷ ("istanbul", "Istanbul")
    ∷ ("muir", "Muir")
    ∷ ("phase0", "Phase0")
    ∷ ("berlin", "Berlin")
    ∷ ("london", "London")
    ∷ ("altair", "Altair")
    ∷ ("arrow", "Arrow")
    ∷ ("gray", "Gray")
    ∷ ("bellatrix", "Bellatrix")
    ∷ ("paris", "Paris")
    ∷ ("merge", "Merge")
    ∷ ("shapella", "Shapella")
    ∷ ("shanghai", "Shanghai")
    ∷ ("capella", "Capella")
    ∷ ("dencun", "Dencun")
    ∷ ("cancun", "Cancun")
    ∷ ("deneb", "Deneb")
    ∷ ("pectra", "Pectra")
    ∷ ("prague", "Prague")
    ∷ ("electra", "Electra")
    ∷ ("future", "Future")
    ∷ []

unfoldable pub lookup : List (String × String) → String → Option String
lookup [] key = none
lookup ((k, v) ∷ rest) key = let later = lookup rest key in if str_eq k key then some v else later

-- strconv.ParseInt with base 10 and 64 bits.
unfoldable pub unsigned : String → Option ℕ
unsigned s = if str_eq s "" then none else digits s 0

unfoldable pub positive : ℕ → Option ℤ
positive n = if ltb n (2 ^ 63) then some (pos n) else none

unfoldable pub negative : ℕ → Option ℤ
negative zero = some (pos 0)
negative (suc n) = if ltb n (2 ^ 63) then some (negsuc n) else none

unfoldable pub parse_int : String → Option ℤ
parse_int s =
    if starts_with s "-"
    then unsigned (tail s) >>= negative
    else (if starts_with s "+" then unsigned (tail s) >>= positive else unsigned s >>= positive)

-- The variables of parseTags, and what a word makes of them: an error ends the loop, as does the panic
-- on an empty fork.
pub record Tags : Type 0 where
  pub ignore : Bool
  pub bits : Bool
  pub size : List ℤ
  pub limit : List ℤ
  pub fork : String

pub data Read : Type 0 where
  unread : String → Read
  reading : Tags → Read

unfoldable pub set_tag : ℤ → String → Tags → Tags
set_tag v ident t =
    if str_eq ident "ssz-max"
    then record t { limit = t.limit ++ (v ∷ []) }
    else record t { size = t.size ++ (v ∷ []) }

-- A number, or 0 for a question mark.
unfoldable pub value_of : String → Option ℤ
value_of part = if str_eq part "?" then some (pos 0) else parse_int part

unfoldable pub set_tags : String → List String → Tags → Read
set_tags ident [] t = reading t
set_tags ident (part ∷ parts) t = elim (value_of part) [
  | none ↦ unread "strconv.ParseInt: parsing %s: %v"
  | some v ↦ set_tags ident parts (set_tag v ident t)
]

unfoldable pub set_fork : String → Tags → Read
set_fork remain t =
    let negate = starts_with remain "!" in
    elim (lookup fork_mapping (if negate then tail remain else remain)) [
      | none ↦ unread "invalid fork tag %s"
      | some enum ↦ reading (record t { fork = if negate then concat "!" enum else enum })
    ]

unfoldable pub read_tag : String → String → Tags → Read
read_tag ident remain t =
    if str_eq ident "ssz"
    then (if str_eq remain "-"
        then reading (record t { ignore = true })
        else (if str_eq remain "bits" then reading (record t { bits = true }) else reading t))
    else (if str_eq ident "ssz-max" || str_eq ident "ssz-size"
        then set_tags ident (split 44 remain) t
        else (if str_eq ident "ssz-fork"
            then (if str_eq remain ""
                then unread "panic: index out of range"
                else set_fork remain t)
            else reading t))

unfoldable pub read_parts : List String → Tags → Read
read_parts (ident ∷ remain ∷ []) t = read_tag ident (trim 34 remain) t
read_parts parts t = unread "invalid tag %s"

unfoldable pub read_words : List String → Read → Read
read_words words (unread message) = unread message
read_words [] (reading t) = reading t
read_words (word ∷ words) (reading t) = read_words words (read_parts (split 58 word) t)

-- The size tag is nil if it has neither sizes nor limits.
unfoldable pub parse_end : Read → Parsed
parse_end (unread message) = unparsed message
parse_end (reading t) =
    if (length t.size == 0) && (length t.limit == 0)
    then parsed t.ignore none t.fork
    else parsed t.ignore (some record { bits = t.bits; size = t.size; limit = t.limit }) t.fork

unfoldable pub parse_tags : String → Parsed
parse_tags input =
    if str_eq input ""
    then parsed false none ""
    else parse_end (
        read_words (fields input)
          (reading record { ignore = false; bits = false; size = []; limit = []; fork = "" }))
