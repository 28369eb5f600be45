-- ===== src/Generator/Execute.antt =====
-- The meaning of the statements that cmd/sszgen/gen.go prints for a static size, and the size that
-- they are to compute.
use ssz.Base.{
  ℕ, ◌+◌, ◌*◌, Bool, true, false, Option, none, some, List, [], ◌∷◌, ltb, leb, ◌>>=◌, if◌then◌else◌,
}
use Prim.Native.String.{String}
use mathlib.Core.Bool.{not}
use text.Mathlib.Text.{◌==◌ as str_eq, starts_with}
use ssz.Base.Words.{u32}
use ssz.Fork.{Fork, fork_unknown, ForkFilter, is_absent}
use ssz.Generator.{ℤ, pos, GoType, Opset, opset_static, opset_dynamic}
use ssz.Generator.Container.{ContainerField}
use ssz.Generator.Accumulator.{
  Token, assign, plus, add_assign, newline, close, open_before, open_from, number, times, size_ssz,
  tail,
}

-- Where the text may go on: a new statement, an operand, behind an operand, behind a brace.
pub data Place : Type 0 where
  statement operand behind closed : Place

-- The place, whether it is inside an if, whether it is executed, and the variable `size`.
pub data State : Type 0 where
  state : Place → Bool → Bool → ℕ → State

-- The constants ssz.ForkX by their names, the sizer's fork, and the sizes of nested objects.
module _ (constant : String → Fork) (fork : Fork) (nested : GoType → ℕ) where
  unfoldable pub add : Option ℕ → State → Option State
  add (some v) (state operand i a n) = some (state behind i a (if a then u32 (n + v) else n))
  add v s = none

  -- The statements, token by token: `none` is text that is not Go.
  unfoldable pub execute : Token → State → Option State
  execute assign (state statement false a n) = some (state operand false a 0)
  execute add_assign (state statement i a n) = some (state operand i a n)
  execute plus (state behind i a n) = some (state operand i a n)
  execute newline (state statement i a n) = some (state statement i a n)
  execute newline (state behind i a n) = some (state statement i a n)
  execute newline (state closed i a n) = some (state statement i a n)
  execute (open_before name) (state statement false a n) =
      some (state statement true (ltb fork (constant name)) n)
  execute (open_from name) (state statement false a n) =
      some (state statement true (leb (constant name) fork) n)
  execute close (state statement true a n) = some (state closed false true n)
  execute (number (pos k)) s = add (some k) s
  execute (times (pos k) (pos l)) s = add (some (k * l)) s
  execute (size_ssz typ) s = add (some (nested typ)) s
  execute t s = none

  unfoldable pub execute_all : List Token → State → Option State
  execute_all [] s = some s
  execute_all (t ∷ ts) s = execute t s >>= execute_all ts

  -- The static size of a field: its byte counts multiplied, a nested object's size, or an offset.
  unfoldable pub bytes_size : GoType → Option (List ℤ) → Option ℕ
  bytes_size typ none = some (nested typ)
  bytes_size typ (some (pos k ∷ [])) = some k
  bytes_size typ (some (pos k ∷ pos l ∷ rest)) = some (k * l)
  bytes_size typ (some numbers) = none

  unfoldable pub field_size : GoType → Opset → Option ℕ
  field_size typ (opset_static s) = bytes_size typ s.bytes
  field_size typ (opset_dynamic d) = some 4

  -- The filter that generateCall gives to the field's OnFork call.
  unfoldable pub filter_of : String → ForkFilter
  filter_of tag =
      if starts_with tag "!"
      then record { added = fork_unknown; removed = constant (tail tag) }
      else record { added = constant tag; removed = fork_unknown }

  unfoldable pub is_present : String → Bool
  is_present tag = if str_eq tag "" then true else not (is_absent fork (filter_of tag))

  -- The sizes of the fields that the codec does not skip.
  unfoldable pub static_sum : List ContainerField → ℕ → Option ℕ
  static_sum [] n = some n
  static_sum (f ∷ fs) n =
      field_size f.typ f.opset >>= λ v. static_sum fs (if is_present f.fork then u32 (n + v) else n)
