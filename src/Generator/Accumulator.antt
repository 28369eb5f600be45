-- ===== src/Generator/Accumulator.antt =====
-- cmd/sszgen/gen.go: what generateStaticSizeAccumulator prints, as the tokens of the Go text.
use ssz.Base.{Option, none, some, List, [], ◌∷◌, ◌++◌, if◌then◌else◌}
use Prim.Native.String.{String}
use text.Mathlib.Text.{◌==◌ as str_eq, starts_with}
use ssz.Generator.{ℤ, pos, GoType, Opset, opset_static, opset_dynamic}
use ssz.Generator.Container.{ContainerField}

-- The pieces of text: `size =`, `+`, `size +=`, the end of a line, `}`, the lines
-- `if sizer.Fork() < ssz.ForkX {` and `if sizer.Fork() >= ssz.ForkX {`, a number, a product, and
-- `(*T)(nil).SizeSSZ(sizer)`; `broken` is a panic of the generator, for an index out of range.
pub data Token : Type 0 where
  assign plus add_assign newline close : Token
  open_before open_from : String → Token
  number : ℤ → Token
  times : ℤ → ℤ → Token
  size_ssz : GoType → Token
  broken : Token

-- The text of a fork tag behind its first character.
unfoldable pub tail : String → String
tail String.[] = ""
tail (String.◌∷◌ c s) = s

unfoldable pub open_if : String → Token
open_if fork = if starts_with fork "!" then open_before (tail fork) else open_from fork

unfoldable pub lead : Option String → String → List Token
lead none fork = if str_eq fork "" then assign ∷ [] else []
lead (some prev) fork =
    if str_eq fork ""
    then (if str_eq prev "" then plus ∷ [] else newline ∷ add_assign ∷ [])
    else (if str_eq prev fork then [] else newline ∷ [])

unfoldable pub opening : Option String → String → List Token
opening none fork = if str_eq fork "" then [] else open_if fork ∷ add_assign ∷ []
opening (some prev) fork =
    if str_eq fork ""
    then []
    else (if str_eq prev fork then plus ∷ [] else open_if fork ∷ add_assign ∷ [])

-- A static opset has one or two byte counts, or nil for an object.
unfoldable pub static_term : GoType → Option (List ℤ) → Token
static_term typ none = size_ssz typ
static_term typ (some []) = broken
static_term typ (some (m ∷ [])) = number m
static_term typ (some (m ∷ n ∷ rest)) = times m n

unfoldable pub term : GoType → Opset → Token
term typ (opset_static s) = static_term typ s.bytes
term typ (opset_dynamic d) = number (pos 4)

unfoldable pub closing : String → Option String → List Token
closing fork none = if str_eq fork "" then [] else newline ∷ close ∷ []
closing fork (some next) =
    if str_eq fork "" then [] else (if str_eq fork next then [] else newline ∷ close ∷ [])

abbrev pub next_fork : List ContainerField → Option String
next_fork [] = none
next_fork (f ∷ fs) = some f.fork

unfoldable pub accumulate_fields : Option String → List ContainerField → List Token
accumulate_fields prev [] = newline ∷ []
accumulate_fields prev (f ∷ fs) =
    lead prev f.fork
    ++ (opening prev f.fork
        ++ (term f.typ f.opset
            ∷ (closing f.fork (next_fork fs) ++ accumulate_fields (some f.fork) fs)))

unfoldable pub generate_static_size_accumulator : List ContainerField → List Token
generate_static_size_accumulator fs = accumulate_fields none fs
