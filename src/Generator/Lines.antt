-- ===== src/Generator/Lines.antt =====
-- cmd/sszgen/gen.go: the lines that add the sizes of the dynamic fields.
use ssz.Base.{
  ℕ, ◌<◌, ◌≡◌, refl, sym, ap, ◌∙◌, inl, inr, Bool, true, false, Bool-cases, Option, none, some,
  List, [], ◌∷◌, ◌++◌, All, ◌>>=◌, if◌then◌else◌, if-both,
}
use Prim.Native.String.{String}
use mathlib.Core.Bool.{not, true≢false}
use text.Mathlib.Text.{◌==◌ as str_eq, starts_with}
use text.Mathlib.TextEquality.{eq_iff}
use ssz.Fork.{Fork}
use ssz.Generator.{GoType, Opset, opset_static, opset_dynamic}
use ssz.Generator.Container.{ContainerField, is_dynamic}
use ssz.Generator.Define.{CallText}
use ssz.Generator.Accumulator.{open_if, tail, next_fork}
use ssz.Generator.Execute.{State, state, statement, execute, is_present}
use ssz.Generator.Operators.{same-empty, on-empty, execute-open_if}
use ssz.Generator.Accumulated.{Names}
use ssz.Generator.Method.{
  Line, token, dynamic_fields, open_lines, close_lines, size_lines, dynamic_lines, execute_line,
  execute_lines, add_dynamic, dynamic_sum,
}

module _ (constant : String → Fork) (fork : Fork) (nested : GoType → ℕ) (sized : CallText → ℕ) where
  abbrev on : String → Bool
  on = is_present constant fork nested

  abbrev run : List Line → State → Option State
  run = execute_lines constant fork nested sized

  abbrev enter : Option String → Option String → ℕ → State
  enter none next n = state statement false true n
  enter (some p) none n = state statement false true n
  enter (some p) (some f) n =
      if str_eq p ""
      then state statement false true n
      else (if str_eq p f then state statement true (on p) n else state statement false true n)

  run-open :
      (f : String) (n : ℕ) (rest : List Line)
      → (starts_with f "!" ≡ true → 0 < constant (tail f))
      → str_eq f "" ≡ false
      → run (token (open_if f) ∷ rest) (state statement false true n)
        ≡ run rest (state statement true (on f) n)
  unfolding execute_lines execute_line
  run-open f n rest named e =
      ap (λ o. o >>= run rest) (execute-open_if constant fork nested f true n named e)

  run-open_lines :
      (prev : Option String) (f : String) (n : ℕ) (rest : List Line)
      → (starts_with f "!" ≡ true → 0 < constant (tail f))
      → run (open_lines prev f ++ rest) (enter prev (some f) n)
        ≡ run rest (state statement (not (str_eq f "")) (on f) n)
  unfolding open_lines
  run-open_lines none f n rest named = elim (Bool-cases (str_eq f "")) [
    | inl e ↦ rw (e, on-empty constant fork nested f e) refl
    | inr e ↦ rw e (run-open f n rest named e)
  ]
  run-open_lines (some p) f n rest named = elim (Bool-cases (str_eq f "")) [
    | inl e ↦ elim (Bool-cases (str_eq p "")) [
      | inl q ↦ rw (e, q, on-empty constant fork nested f e) refl
      | inr q ↦ elim (Bool-cases (str_eq p f)) [
        | inl s ↦ absurd (true≢false (sym (same-empty constant fork nested p f s q e)))
        | inr s ↦ rw (e, q, s, on-empty constant fork nested f e) refl
      ]
    ]
    | inr e ↦ elim (Bool-cases (str_eq p f)) [
      | inl s ↦ elim (Bool-cases (str_eq p "")) [
        | inl q ↦ absurd (true≢false (same-empty constant fork nested p f s q e))
        | inr q ↦
            rw (e, q, s) (ap (λ x. run rest (state statement true (on x) n)) ((eq_iff p f).0 s))
      ]
      | inr s ↦ elim (Bool-cases (str_eq p "")) [
        | inl q ↦ rw (e, q, s) (run-open f n rest named e)
        | inr q ↦ rw (e, q, s) (run-open f n rest named e)
      ]
    ]
  ]

  run-close_lines :
      (f : String) (next : Option String) (n : ℕ) (rest : List Line)
      → run (close_lines f next ++ rest) (state statement (not (str_eq f "")) (on f) n)
        ≡ run rest (enter (some f) next n)
  unfolding close_lines execute_lines execute_line execute
  run-close_lines f none n rest = elim (Bool-cases (str_eq f "")) [
    | inl e ↦ rw (e, on-empty constant fork nested f e) refl
    | inr e ↦ rw e refl
  ]
  run-close_lines f (some g) n rest = elim (Bool-cases (str_eq f "")) [
    | inl e ↦ rw (e, on-empty constant fork nested f e) refl
    | inr e ↦ elim (Bool-cases (str_eq f g)) [ inl s ↦ rw (e, s) refl | inr s ↦ rw (e, s) refl ]
  ]

  run-size_lines :
      (f : ContainerField) (o : Opset) (i : Bool) (n : ℕ) (rest : List Line)
      → run (size_lines f o ++ rest) (state statement i (on f.fork) n)
        ≡ run rest (state statement i (on f.fork) (add_dynamic constant fork nested sized f o n))
  unfolding size_lines add_dynamic execute_lines execute_line
  run-size_lines f (opset_static s) i n rest = refl
  run-size_lines f (opset_dynamic d) i n rest = refl

  pub run-dynamic_lines :
      (prev : Option String) (fs : List ContainerField)
      → All (Names constant) fs
      → (n : ℕ)
      → run (dynamic_lines prev fs) (enter prev (next_fork fs) n)
        ≡ some (state statement false true (dynamic_sum constant fork nested sized fs n))
  unfolding dynamic_lines dynamic_sum Names execute_lines
  run-dynamic_lines none [] named n = refl
  run-dynamic_lines (some p) [] named n = refl
  run-dynamic_lines prev (f ∷ fs) (name, named) n =
      run-open_lines prev f.fork n _ name
      ∙ run-size_lines f f.opset _ n _
      ∙ run-close_lines f.fork (next_fork fs) _ _
      ∙ run-dynamic_lines (some f.fork) fs named _

  pub add_dynamic-static :
      (f : ContainerField) (o : Opset) (n : ℕ)
      → is_dynamic o ≡ false
      → add_dynamic constant fork nested sized f o n ≡ n
  unfolding add_dynamic is_dynamic
  add_dynamic-static f (opset_static s) n e = refl
  add_dynamic-static f (opset_dynamic d) n e = absurd (true≢false e)

  pub dynamic_sum-dynamic_fields :
      (fs : List ContainerField) (n : ℕ)
      → dynamic_sum constant fork nested sized (dynamic_fields fs) n
        ≡ dynamic_sum constant fork nested sized fs n
  unfolding dynamic_sum dynamic_fields
  dynamic_sum-dynamic_fields [] n = refl
  dynamic_sum-dynamic_fields (f ∷ fs) n = elim (Bool-cases (is_dynamic f.opset)) [
    | inl e ↦
        rw e (dynamic_sum-dynamic_fields fs (add_dynamic constant fork nested sized f f.opset n))
    | inr e ↦ rw e (
        dynamic_sum-dynamic_fields fs n
        ∙ ap (dynamic_sum constant fork nested sized fs) (sym (add_dynamic-static f f.opset n e)))
  ]

  pub All-dynamic_fields :
      (fs : List ContainerField)
      → All (Names constant) fs
      → All (Names constant) (dynamic_fields fs)
  unfolding dynamic_fields
  All-dynamic_fields [] named = named
  All-dynamic_fields (f ∷ fs) (name, named) =
      if-both (All (Names constant)) (is_dynamic f.opset) (name, All-dynamic_fields fs named)
        (All-dynamic_fields fs named)
