-- ===== src/Generator/Method.antt =====
-- cmd/sszgen/gen.go: the SizeSSZ method that generateSizeSSZ prints, and what it returns. Comments and
-- blank lines of the text are left out.
use ssz.Base.{
  ℕ, zero, suc, ◌+◌, Bool, true, false, ◌||◌, Option, none, some, List, [], ◌∷◌, ◌++◌, ◌>>=◌,
  if◌then◌else◌,
}
use Prim.Native.String.{String}
use mathlib.Core.Bool.{not}
use text.Mathlib.Text.{◌==◌ as str_eq}
use ssz.Base.Words.{u32}
use ssz.Fork.{Fork}
use ssz.Generator.{GoType, OpsetDynamic, Opset, opset_static, opset_dynamic}
use ssz.Generator.Container.{ContainerField, SszContainer, is_dynamic}
use ssz.Generator.Define.{CallText, generate_call}
use ssz.Generator.Accumulator.{
  Token, plus, newline, close, open_if, term, next_fork, generate_static_size_accumulator,
}
use ssz.Generator.Execute.{
  State, state, statement, operand, behind, execute, execute_all, is_present,
}

-- A statement of the dynamic sizes: text as above, or the line `size += ssz.SizeX(sizer, obj.F)`.
pub data Line : Type 0 where
  token : Token → Line
  size_line : CallText → Line

unfoldable pub size_call : ContainerField → OpsetDynamic → CallText
size_call f d = generate_call d.size "" "sizer" f.name []

unfoldable pub dynamic_fields : List ContainerField → List ContainerField
dynamic_fields [] = []
dynamic_fields (f ∷ fs) =
    let rest = dynamic_fields fs in if is_dynamic f.opset then f ∷ rest else rest

unfoldable pub open_lines : Option String → String → List Line
open_lines none fork = if str_eq fork "" then [] else token (open_if fork) ∷ []
open_lines (some prev) fork =
    if str_eq fork "" then [] else (if str_eq prev fork then [] else token (open_if fork) ∷ [])

unfoldable pub close_lines : String → Option String → List Line
close_lines fork none = if str_eq fork "" then [] else token close ∷ token newline ∷ []
close_lines fork (some next) =
    if str_eq fork ""
    then []
    else (if str_eq fork next then [] else token close ∷ token newline ∷ [])

-- The fields of the loop are dynamic.
unfoldable pub size_lines : ContainerField → Opset → List Line
size_lines f (opset_static s) = []
size_lines f (opset_dynamic d) = size_line (size_call f d) ∷ []

unfoldable pub dynamic_lines : Option String → List ContainerField → List Line
dynamic_lines prev [] = []
dynamic_lines prev (f ∷ fs) =
    open_lines prev f.fork
    ++ (size_lines f f.opset
        ++ (close_lines f.fork (next_fork fs) ++ dynamic_lines (some f.fork) fs))

-- Does a field need the size of a nested object, or have a fork tag?
unfoldable pub is_unknown : Opset → Bool
is_unknown (opset_static s) = elim s.bytes [ none ↦ true | some numbers ↦ false ]
is_unknown (opset_dynamic d) = false

unfoldable pub is_runtime : List ContainerField → Bool
is_runtime [] = false
is_runtime (f ∷ fs) = is_unknown f.opset || is_runtime fs

unfoldable pub is_monolith : List ContainerField → Bool
is_monolith [] = false
is_monolith (f ∷ fs) = not (str_eq f.fork "") || is_monolith fs

unfoldable pub direct_terms : List ContainerField → List Token
direct_terms [] = []
direct_terms (f ∷ []) = term f.typ f.opset ∷ []
direct_terms (f ∷ g ∷ fs) = term f.typ f.opset ∷ plus ∷ direct_terms (g ∷ fs)

-- The bodies: the cache if it has the fork, otherwise the statements; the statements; the returned
-- expression; and the first two with the lines of the dynamic fields behind `if (fixed)`.
pub data SizeMethod : Type 0 where
  static_cached static_summed static_direct : List Token → SizeMethod
  dynamic_cached dynamic_summed : List Token → List Line → SizeMethod

unfoldable pub generate_size_ssz : SszContainer → SizeMethod
generate_size_ssz c =
    let sum = generate_static_size_accumulator c.fields in
    let lines = dynamic_lines none (dynamic_fields c.fields) in
    if c.static
    then (if is_runtime c.fields
        then static_cached sum
        else (if is_monolith c.fields
            then static_summed sum
            else static_direct (direct_terms c.fields)))
    else (if is_runtime c.fields then dynamic_cached sum lines else dynamic_summed sum lines)

module _ (constant : String → Fork) (fork : Fork) (nested : GoType → ℕ) (sized : CallText → ℕ) where
  unfoldable pub execute_line : Line → State → Option State
  execute_line (token t) s = execute constant fork nested t s
  execute_line (size_line c) (state statement i a n) =
      some (state statement i a (if a then u32 (n + sized c) else n))
  execute_line (size_line c) s = none

  unfoldable pub execute_lines : List Line → State → Option State
  execute_lines [] s = some s
  execute_lines (l ∷ ls) s = execute_line l s >>= execute_lines ls

  -- The size behind a whole statement, and behind a whole expression.
  unfoldable pub result : State → Option ℕ
  result (state statement false true n) = some n
  result s = none

  unfoldable pub value : State → Option ℕ
  value (state behind false true n) = some n
  value s = none

  unfoldable pub summed : List Token → Option ℕ
  summed ts = execute_all constant fork nested ts (state statement false true 0) >>= result

  unfoldable pub cached : List ℕ → ℕ → Option ℕ
  cached [] i = none
  cached (n ∷ ns) zero = some n
  cached (n ∷ ns) (suc i) = cached ns i

  unfoldable pub or_summed : Option ℕ → List Token → Option ℕ
  or_summed none ts = summed ts
  or_summed (some n) ts = some n

  unfoldable pub with_lines : Bool → List Line → ℕ → Option ℕ
  with_lines fixed ls n =
      if fixed then some n else execute_lines ls (state statement false true n) >>= result

  unfoldable pub run_method : List ℕ → Bool → SizeMethod → Option ℕ
  run_method cache fixed (static_cached ts) = or_summed (cached cache fork) ts
  run_method cache fixed (static_summed ts) = summed ts
  run_method cache fixed (static_direct ts) =
      execute_all constant fork nested ts (state operand false true 0) >>= value
  run_method cache fixed (dynamic_cached ts ls) =
      or_summed (cached cache fork) ts >>= with_lines fixed ls
  run_method cache fixed (dynamic_summed ts ls) = summed ts >>= with_lines fixed ls

  unfoldable pub add_dynamic : ContainerField → Opset → ℕ → ℕ
  add_dynamic f (opset_static s) n = n
  add_dynamic f (opset_dynamic d) n =
      if is_present constant fork nested f.fork then u32 (n + sized (size_call f d)) else n

  -- The sizes of the dynamic fields that the codec does not skip.
  unfoldable pub dynamic_sum : List ContainerField → ℕ → ℕ
  dynamic_sum [] n = n
  dynamic_sum (f ∷ fs) n = dynamic_sum fs (add_dynamic f f.opset n)
