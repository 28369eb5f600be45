-- ===== src/Generator/Accumulated.antt =====
-- cmd/sszgen/gen.go: the static size that the generated SizeSSZ method computes.
use ssz.Base.{
  ℕ, ◌+◌, ◌<◌, ◌≡◌, refl, ap, ◌∙◌, inl, inr, Bool, true, false, Bool-cases, Option, none, some,
  List, [], ◌∷◌, ◌++◌, All, ◌>>=◌, if◌then◌else◌,
}
use Prim.Native.String.{String}
use mathlib.Core.Bool.{not}
use text.Mathlib.Text.{◌==◌ as str_eq, starts_with}
use ssz.Base.Words.{u32}
use ssz.Fork.{Fork}
use ssz.Generator.{ℤ, pos, negsuc, GoType, Opset, opset_static, opset_dynamic}
use ssz.Generator.Container.{ContainerField}
use ssz.Generator.Accumulator.{
  Token, tail, static_term, term, closing, next_fork, accumulate_fields,
  generate_static_size_accumulator,
}
use ssz.Generator.Execute.{
  State, state, statement, operand, behind, add, execute, execute_all, bytes_size, field_size,
  is_present, static_sum,
}
use ssz.Generator.Operators.{entry, run-opening, run-opening_first, run-closing}

-- A field that a fork removes names a fork that is not ssz.ForkUnknown.
unfoldable pub Names : (String → Fork) → ContainerField → Type 0
Names constant f = starts_with f.fork "!" ≡ true → 0 < constant (tail f.fork)

module _ (constant : String → Fork) (fork : Fork) (nested : GoType → ℕ) where
  abbrev on : String → Bool
  on = is_present constant fork nested

  abbrev run : List Token → State → Option State
  run = execute_all constant fork nested

  execute-static_term :
      (typ : GoType) (bytes : Option (List ℤ)) (i a : Bool) (n : ℕ)
      → execute constant fork nested (static_term typ bytes) (state operand i a n) ≡ (
          bytes_size constant fork nested typ bytes >>= λ v.
          some (state behind i a (if a then u32 (n + v) else n)))
  unfolding execute static_term bytes_size add
  execute-static_term typ none i a n = refl
  execute-static_term typ (some []) i a n = refl
  execute-static_term typ (some (pos k ∷ [])) i a n = refl
  execute-static_term typ (some (negsuc k ∷ [])) i a n = refl
  execute-static_term typ (some (pos k ∷ pos l ∷ rest)) i a n = refl
  execute-static_term typ (some (pos k ∷ negsuc l ∷ rest)) i a n = refl
  execute-static_term typ (some (negsuc k ∷ pos l ∷ rest)) i a n = refl
  execute-static_term typ (some (negsuc k ∷ negsuc l ∷ rest)) i a n = refl

  pub execute-term :
      (typ : GoType) (opset : Opset) (i a : Bool) (n : ℕ)
      → execute constant fork nested (term typ opset) (state operand i a n) ≡ (
          field_size constant fork nested typ opset >>= λ v.
          some (state behind i a (if a then u32 (n + v) else n)))
  unfolding execute term field_size add
  execute-term typ (opset_dynamic d) i a n = refl
  execute-term typ (opset_static s) i a n = execute-static_term typ s.bytes i a n

  abbrev sum : List ContainerField → ℕ → Option State
  sum fs n = static_sum constant fork nested fs n >>= λ m. some (state statement false true m)

  abbrev Accumulates : Option String → List ContainerField → Type 0
  Accumulates prev fs =
      (n : ℕ)
      → run (accumulate_fields prev fs) (entry constant fork nested prev (next_fork fs) n)
        ≡ sum fs n

  abbrev following : ContainerField → List ContainerField → List Token
  following f fs = closing f.fork (next_fork fs) ++ accumulate_fields (some f.fork) fs

  -- The operand of a field and what follows it, behind its operator.
  run-field :
      (f : ContainerField) (fs : List ContainerField)
      → Accumulates (some f.fork) fs
      → (n : ℕ)
      → run
          (term f.typ f.opset ∷ following f fs)
          (state operand (not (str_eq f.fork "")) (on f.fork) n)
        ≡ sum (f ∷ fs) n
  unfolding execute_all static_sum
  run-field f fs later n =
      ap (λ o. o >>= run (following f fs))
        (execute-term f.typ f.opset (not (str_eq f.fork "")) (on f.fork) n)
      ∙ behind-field (field_size constant fork nested f.typ f.opset)
    where
      behind-field :
          (size : Option ℕ)
          → ((size >>= λ v. some (
                state behind
                  (not (str_eq f.fork ""))
                  (on f.fork)
                  (if on f.fork then u32 (n + v) else n)))
              >>= run (following f fs))
            ≡ (size >>= λ v.
                static_sum constant fork nested fs (if on f.fork then u32 (n + v) else n))
              >>= λ m. some (state statement false true m)
      behind-field none = refl
      behind-field (some v) =
          run-closing constant fork nested f.fork (next_fork fs)
            (if on f.fork then u32 (n + v) else n) (accumulate_fields (some f.fork) fs)
          ∙ later (if on f.fork then u32 (n + v) else n)

  run-fields :
      (p : String) (fs : List ContainerField) → All (Names constant) fs → Accumulates (some p) fs
  unfolding accumulate_fields execute_all execute static_sum Names
  run-fields p [] named n = elim (Bool-cases (str_eq p "")) [
    | inl e ↦ rw e refl
    | inr e ↦ rw e refl
  ]
  run-fields p (f ∷ fs) (name, named) n =
      run-opening constant fork nested p f.fork n _ name
      ∙ run-field f fs (run-fields f.fork fs named) n

  -- For every list of fields and every fork, the statements that generateStaticSizeAccumulator prints
  -- are well formed exactly when every field has a size, and executed they leave in `size`, which
  -- starts at 0, the sum modulo 2 ^ 32 of the static sizes of the fields that the codec does not skip
  -- at that fork, if no fork tag is `!` before ssz.ForkUnknown.
  pub generate_static_size_accumulator-static_sum :
      (fs : List ContainerField)
      → All (Names constant) fs
      → execute_all constant fork nested
          (generate_static_size_accumulator fs)
          (state statement false true 0)
        ≡ (static_sum constant fork nested fs 0 >>= λ m. some (state statement false true m))
  unfolding generate_static_size_accumulator accumulate_fields execute_all execute static_sum Names
  generate_static_size_accumulator-static_sum [] named = refl
  generate_static_size_accumulator-static_sum (f ∷ fs) (name, named) =
      run-opening_first constant fork nested f.fork _ name
      ∙ run-field f fs (run-fields f.fork fs named) 0
