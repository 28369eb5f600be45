-- ===== src/Generator/Returned.antt =====
-- cmd/sszgen/gen.go: what the generated SizeSSZ method returns.
use ssz.Base.{
  ℕ, ◌≤◌, ◌≡◌, refl, sym, ap, ◌∙◌, inl, inr, Bool, true, false, Bool-cases, ◌&&◌, Option, none,
  some, List, [], ◌∷◌, All, length, ◌>>=◌, if◌then◌else◌, arith,
}
use Prim.Native.String.{String}
use mathlib.Core.Bool.{not, true≢false}
use ssz.Fork.{Fork}
use ssz.Generator.{GoType}
use ssz.Generator.Container.{ContainerField, SszContainer, is_dynamic}
use ssz.Generator.Define.{CallText}
use ssz.Generator.Accumulator.{generate_static_size_accumulator}
use ssz.Generator.Execute.{state, statement, static_sum}
use ssz.Generator.Accumulated.{Names, generate_static_size_accumulator-static_sum}
use ssz.Generator.Method.{
  SizeMethod, static_direct, dynamic_fields, dynamic_lines, is_runtime, is_monolith, direct_terms,
  generate_size_ssz, result, value, summed, cached, or_summed, with_lines, run_method, dynamic_sum,
}
use ssz.Generator.Lines.{
  run-dynamic_lines, add_dynamic-static, dynamic_sum-dynamic_fields, All-dynamic_fields,
}
use ssz.Generator.Made.{all_static}
use ssz.Generator.Direct.{direct_terms-static_sum, returned}

module _ (constant : String → Fork) (fork : Fork) (nested : GoType → ℕ) (sized : CallText → ℕ) where
  abbrev total : List ContainerField → ℕ → ℕ
  total = dynamic_sum constant fork nested sized

  abbrev static_total : List ContainerField → ℕ → Option ℕ
  static_total = static_sum constant fork nested

  summed-static_sum :
      (fs : List ContainerField)
      → All (Names constant) fs
      → summed constant fork nested sized (generate_static_size_accumulator fs) ≡ static_total fs 0
  unfolding summed result
  summed-static_sum fs named =
      ap (λ o. o >>= result constant fork nested sized)
        (generate_static_size_accumulator-static_sum constant fork nested fs named)
      ∙ read (static_total fs 0)
    where
      read :
          (o : Option ℕ)
          → ((o >>= λ m. some (state statement false true m)) >>= result constant fork nested sized)
            ≡ o
      read none = refl
      read (some m) = refl

  or_summed-static_sum :
      (fs : List ContainerField) (cache : Option ℕ)
      → All (Names constant) fs
      → ((n : ℕ) → cache ≡ some n → static_total fs 0 ≡ some n)
      → or_summed constant fork nested sized cache (generate_static_size_accumulator fs)
        ≡ static_total fs 0
  unfolding or_summed
  or_summed-static_sum fs none named right = summed-static_sum fs named
  or_summed-static_sum fs (some n) named right = sym (right n refl)

  with_lines-total :
      (fs : List ContainerField) (fixed : Bool) (n : ℕ)
      → All (Names constant) fs
      → with_lines constant fork nested sized fixed (dynamic_lines none (dynamic_fields fs)) n
        ≡ some (if fixed then n else total fs n)
  unfolding with_lines result
  with_lines-total fs true n named = refl
  with_lines-total fs false n named =
      ap (λ o. o >>= result constant fork nested sized)
        (run-dynamic_lines constant fork nested sized none (dynamic_fields fs)
          (All-dynamic_fields constant fork nested sized fs named) n)
      ∙ ap some (dynamic_sum-dynamic_fields constant fork nested sized fs n)

  total-static : (fs : List ContainerField) (n : ℕ) → all_static fs ≡ true → total fs n ≡ n
  unfolding dynamic_sum all_static
  total-static [] n e = refl
  total-static (f ∷ fs) n e = elim (Bool-cases (is_dynamic f.opset)) [
    | inl d ↦ absurd (true≢false (sym e ∙ ap (λ b. not b && all_static fs) d))
    | inr d ↦
        ap (total fs) (add_dynamic-static constant fork nested sized f f.opset n d)
        ∙ total-static fs n (sym (ap (λ b. not b && all_static fs) d) ∙ e)
  ]

  unchanged :
      (o : Option ℕ) (fixed : Bool) (g : ℕ → ℕ)
      → ((n : ℕ) → g n ≡ n)
      → o ≡ (o >>= λ n. some (if fixed then n else g n))
  unchanged none fixed g same = refl
  unchanged (some n) true g same = refl
  unchanged (some n) false g same = ap some (sym (same n))

  followed :
      (o r : Option ℕ) (h : ℕ → Option ℕ) (k : ℕ → ℕ)
      → o ≡ r
      → ((n : ℕ) → h n ≡ some (k n))
      → (o >>= h) ≡ (r >>= λ n. some (k n))
  followed o none h k e same = ap (λ x. x >>= h) e
  followed o (some n) h k e same = ap (λ x. x >>= h) e ∙ same n

  abbrev Right : SizeMethod → Bool → List ℕ → List ContainerField → Type 0
  Right method fixed cache fs =
      run_method constant fork nested sized cache fixed method
      ≡ (static_total fs 0 >>= λ n. some (if fixed then n else total fs n))

  by_case :
      (P : SizeMethod → Type 0) (b : Bool) (x y : SizeMethod)
      → (b ≡ true → P x)
      → (b ≡ false → P y)
      → P (if b then x else y)
  by_case P true x y h k = h refl
  by_case P false x y h k = k refl

  module _ (fixed : Bool) (cache : List ℕ) where
    direct-Right :
        (fs : List ContainerField)
        → 1 ≤ length fs
        → all_static fs ≡ true
        → is_monolith fs ≡ false
        → Right (static_direct (direct_terms fs)) fixed cache fs
    unfolding run_method
    direct-Right [] some_field e m = absurd (omega arith)
    direct-Right (f ∷ fs) some_field e m =
        ap (λ o. o >>= value constant fork nested sized)
          (direct_terms-static_sum constant fork nested sized f fs 0 m)
        ∙ returned constant fork nested sized (static_total (f ∷ fs) 0)
        ∙ unchanged (static_total (f ∷ fs) 0) fixed (total (f ∷ fs))
            (λ n. total-static (f ∷ fs) n e)

    method-Right :
        (static : Bool) (fs : List ContainerField)
        → 1 ≤ length fs
        → static ≡ all_static fs
        → All (Names constant) fs
        → ((n : ℕ)
            → cached constant fork nested sized cache fork ≡ some n
            → static_total fs 0 ≡ some n)
        → Right (generate_size_ssz record { static = static; fields = fs }) fixed cache fs
    unfolding run_method generate_size_ssz
    method-Right true fs some_field flag named right =
        let same =
          unchanged (static_total fs 0) fixed (total fs) (λ n. total-static fs n (sym flag)) in
        by_case (λ m. Right m fixed cache fs) (is_runtime fs) _ _
          (λ _. or_summed-static_sum fs _ named right ∙ same)
          λ _.
            by_case (λ m. Right m fixed cache fs) (is_monolith fs) _ _
              (λ _. summed-static_sum fs named ∙ same)
              (λ m. direct-Right fs some_field (sym flag) m)
    method-Right false fs some_field flag named right =
        by_case (λ m. Right m fixed cache fs) (is_runtime fs) _ _
          (λ _.
            followed _ _ _ _ (or_summed-static_sum fs _ named right)
              (λ n. with_lines-total fs fixed n named))
          (λ _.
            followed _ _ _ _ (summed-static_sum fs named) (λ n. with_lines-total fs fixed n named))

  -- Whatever body generateSizeSSZ chooses for a container with fields, whose static flag is exact, the
  -- method returns for `fixed` the sum modulo 2 ^ 32 of the static sizes of the fields that the codec
  -- does not skip at the sizer's fork, and otherwise adds the sizes of the dynamic ones among them; if
  -- the cache, where it has the fork, has that static sum, and no fork tag is `!` before
  -- ssz.ForkUnknown. Without a static sum, since a field has no size, it returns nothing.
  pub generate_size_ssz-static_sum :
      (c : SszContainer) (fixed : Bool) (cache : List ℕ)
      → 1 ≤ length c.fields
      → c.static ≡ all_static c.fields
      → All (Names constant) c.fields
      → ((n : ℕ)
          → cached constant fork nested sized cache fork ≡ some n
          → static_sum constant fork nested c.fields 0 ≡ some n)
      → run_method constant fork nested sized cache fixed (generate_size_ssz c) ≡ (
          static_sum constant fork nested c.fields 0 >>= λ n.
          some (if fixed then n else dynamic_sum constant fork nested sized c.fields n))
  generate_size_ssz-static_sum c fixed cache = method-Right fixed cache c.static c.fields
