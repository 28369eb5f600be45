-- ===== src/Generator/Direct.antt =====
-- cmd/sszgen/gen.go: the sum that a SizeSSZ method without nested objects and forks returns.
use ssz.Base.{
  ℕ, ◌+◌, ◌≡◌, refl, sym, ap, ◌∙◌, Bool, true, false, ◌||◌, Option, none, some, List, [], ◌∷◌,
  ◌>>=◌, if◌then◌else◌,
}
use Prim.Native.String.{String}
use mathlib.Core.Bool.{not, true≢false}
use ssz.Base.Words.{u32}
use ssz.Fork.{Fork}
use ssz.Generator.{GoType}
use ssz.Generator.Container.{ContainerField}
use ssz.Generator.Define.{CallText}
use ssz.Generator.Accumulator.{plus}
use ssz.Generator.Execute.{
  State, state, operand, behind, execute, execute_all, field_size, static_sum,
}
use ssz.Generator.Operators.{on-empty}
use ssz.Generator.Accumulated.{execute-term}
use ssz.Generator.Method.{is_monolith, direct_terms, value}

-- A field without a fork tag, and then the others.
untagged : (b c : Bool) → (not b || c) ≡ false → b ≡ true
untagged true c e = refl
untagged false c e = absurd (true≢false e)

rest_untagged : (b c : Bool) → (not b || c) ≡ false → c ≡ false
rest_untagged true c e = e
rest_untagged false c e = absurd (true≢false e)

module _ (constant : String → Fork) (fork : Fork) (nested : GoType → ℕ) (sized : CallText → ℕ) where
  abbrev static_total : List ContainerField → ℕ → Option ℕ
  static_total = static_sum constant fork nested

  -- The first operand of the expression, and what follows it.
  operand-static_sum :
      (size : Option ℕ) (b : Bool) (n : ℕ) (rest : State → Option State) (later : ℕ → Option ℕ)
      → b ≡ true
      → ((m : ℕ)
          → rest (state behind false true m) ≡ (later m >>= λ k. some (state behind false true k)))
      → ((size >>= λ v. some (state behind false true (u32 (n + v)))) >>= rest) ≡ (
          (size >>= λ v. later (if b then u32 (n + v) else n)) >>= λ k.
          some (state behind false true k))
  operand-static_sum none b n rest later p same = refl
  operand-static_sum (some v) true n rest later p same = same (u32 (n + v))
  operand-static_sum (some v) false n rest later p same = absurd (true≢false (sym p))

  pub direct_terms-static_sum :
      (f : ContainerField) (fs : List ContainerField) (n : ℕ)
      → is_monolith (f ∷ fs) ≡ false
      → execute_all constant fork nested (direct_terms (f ∷ fs)) (state operand false true n)
        ≡ (static_total (f ∷ fs) n >>= λ m. some (state behind false true m))
  unfolding direct_terms is_monolith static_sum execute_all execute
  direct_terms-static_sum f [] n e =
      ap (λ o. o >>= λ s. some s) (execute-term constant fork nested f.typ f.opset false true n)
      ∙ operand-static_sum (field_size constant fork nested f.typ f.opset) _ n (λ s. some s)
          (λ m. some m) (on-empty constant fork nested f.fork (untagged _ _ e)) (λ m. refl)
  direct_terms-static_sum f (g ∷ fs) n e =
      ap
        (λ o. o >>= λ s.
          execute constant fork nested plus s
          >>= execute_all constant fork nested (direct_terms (g ∷ fs)))
        (execute-term constant fork nested f.typ f.opset false true n)
      ∙ operand-static_sum (field_size constant fork nested f.typ f.opset) _ n _
          (λ m. static_total (g ∷ fs) m) (on-empty constant fork nested f.fork (untagged _ _ e))
          (λ m. direct_terms-static_sum g fs m (rest_untagged _ _ e))

  pub returned :
      (o : Option ℕ)
      → ((o >>= λ m. some (state behind false true m)) >>= value constant fork nested sized) ≡ o
  unfolding value
  returned none = refl
  returned (some m) = refl
