-- ===== src/Generator/Operators.antt =====
-- cmd/sszgen/gen.go: the operators and the ifs that are printed between the sizes of the fields.
use ssz.Base.{
  ℕ, ◌<◌, ◌≡◌, refl, sym, ap, ◌∙◌, inl, inr, Bool, true, false, Bool-cases, Option, none, some,
  List, ◌∷◌, ◌++◌, ◌>>=◌, if◌then◌else◌, arith,
}
use Prim.Native.String.{String}
use mathlib.Core.Bool.{not, true≢false}
use text.Mathlib.Text.{◌==◌ as str_eq, starts_with}
use text.Mathlib.TextEquality.{eq_iff}
use ssz.Fork.{Fork, is_absent}
use ssz.Generator.{GoType}
use ssz.Generator.Accumulator.{Token, add_assign, tail, open_if, lead, opening, closing}
use ssz.Generator.Execute.{
  State, state, statement, operand, behind, closed, execute, execute_all, filter_of, is_present,
}

module _ (constant : String → Fork) (fork : Fork) (nested : GoType → ℕ) where
  abbrev pub on : String → Bool
  on = is_present constant fork nested

  abbrev pub run : List Token → State → Option State
  run = execute_all constant fork nested

  pub on-empty : (f : String) → str_eq f "" ≡ true → on f ≡ true
  unfolding is_present
  on-empty f e = rw e refl

  pub execute-open_if :
      (f : String) (a : Bool) (n : ℕ)
      → (starts_with f "!" ≡ true → 0 < constant (tail f))
      → str_eq f "" ≡ false
      → execute constant fork nested (open_if f) (state statement false a n)
        ≡ some (state statement true (on f) n)
  unfolding execute open_if is_present is_absent filter_of
  execute-open_if f a n named e = elim (Bool-cases (starts_with f "!")) [
    | inl s ↦
        let h = named s in rw (e, s) (ap (λ b. some (state statement true b n)) (ground arith))
    | inr s ↦ rw (e, s) (ap (λ b. some (state statement true b n)) (ground arith))
  ]

  abbrev pub entry : Option String → Option String → ℕ → State
  entry none next n = state statement false true n
  entry (some p) none n =
      if str_eq p "" then state behind false true n else state closed false true n
  entry (some p) (some f) n =
      if str_eq p ""
      then state behind false true n
      else (if str_eq p f then state behind true (on p) n else state closed false true n)

  -- Equal tags are both empty or not.
  pub same-empty :
      {b c : Bool} (p f : String) → str_eq p f ≡ true → str_eq p "" ≡ b → str_eq f "" ≡ c → b ≡ c
  same-empty p f s q e = sym q ∙ ap (λ x. str_eq x "") ((eq_iff p f).0 s) ∙ e

  run-open_if :
      (f : String) (n : ℕ) (rest : List Token)
      → (starts_with f "!" ≡ true → 0 < constant (tail f))
      → str_eq f "" ≡ false
      → run (open_if f ∷ add_assign ∷ rest) (state statement false true n)
        ≡ run rest (state operand true (on f) n)
  unfolding execute_all execute
  run-open_if f n rest named e =
      ap (λ o. o >>= run (add_assign ∷ rest)) (execute-open_if f true n named e)

  run-opening_empty :
      (p f : String) (n : ℕ) (rest : List Token)
      → str_eq f "" ≡ true
      → run (lead (some p) f ++ (opening (some p) f ++ rest)) (entry (some p) (some f) n)
        ≡ run rest (state operand (not (str_eq f "")) (on f) n)
  unfolding lead opening execute_all execute
  run-opening_empty p f n rest e = elim (Bool-cases (str_eq p "")) [
    | inl q ↦ rw (e, q, on-empty f e) refl
    | inr q ↦ elim (Bool-cases (str_eq p f)) [
      | inl s ↦ absurd (true≢false (sym (same-empty p f s q e)))
      | inr s ↦ rw (e, q, s, on-empty f e) refl
    ]
  ]

  run-opening_fork :
      (p f : String) (n : ℕ) (rest : List Token)
      → (starts_with f "!" ≡ true → 0 < constant (tail f))
      → str_eq f "" ≡ false
      → run (lead (some p) f ++ (opening (some p) f ++ rest)) (entry (some p) (some f) n)
        ≡ run rest (state operand (not (str_eq f "")) (on f) n)
  unfolding lead opening execute_all execute
  run-opening_fork p f n rest named e = elim (Bool-cases (str_eq p f)) [
    | inl s ↦ elim (Bool-cases (str_eq p "")) [
      | inl q ↦ absurd (true≢false (same-empty p f s q e))
      | inr q ↦ rw (e, q, s) (ap (λ x. run rest (state operand true (on x) n)) ((eq_iff p f).0 s))
    ]
    | inr s ↦ elim (Bool-cases (str_eq p "")) [
      | inl q ↦ rw (e, q, s) (run-open_if f n rest named e)
      | inr q ↦ rw (e, q, s) (run-open_if f n rest named e)
    ]
  ]

  pub run-opening :
      (p f : String) (n : ℕ) (rest : List Token)
      → (starts_with f "!" ≡ true → 0 < constant (tail f))
      → run (lead (some p) f ++ (opening (some p) f ++ rest)) (entry (some p) (some f) n)
        ≡ run rest (state operand (not (str_eq f "")) (on f) n)
  run-opening p f n rest named = elim (Bool-cases (str_eq f "")) [
    | inl e ↦ run-opening_empty p f n rest e
    | inr e ↦ run-opening_fork p f n rest named e
  ]

  pub run-opening_first :
      (f : String) (rest : List Token)
      → (starts_with f "!" ≡ true → 0 < constant (tail f))
      → run (lead none f ++ (opening none f ++ rest)) (state statement false true 0)
        ≡ run rest (state operand (not (str_eq f "")) (on f) 0)
  unfolding lead opening execute_all execute
  run-opening_first f rest named = elim (Bool-cases (str_eq f "")) [
    | inl e ↦ rw (e, on-empty f e) refl
    | inr e ↦ rw e (run-open_if f 0 rest named e)
  ]

  pub run-closing :
      (f : String) (next : Option String) (n : ℕ) (rest : List Token)
      → run (closing f next ++ rest) (state behind (not (str_eq f "")) (on f) n)
        ≡ run rest (entry (some f) next n)
  unfolding closing execute_all execute
  run-closing f none n rest = elim (Bool-cases (str_eq f "")) [
    | inl e ↦ rw (e, on-empty f e) refl
    | inr e ↦ rw e refl
  ]
  run-closing f (some g) n rest = elim (Bool-cases (str_eq f "")) [
    | inl e ↦ rw (e, on-empty f e) refl
    | inr e ↦ elim (Bool-cases (str_eq f g)) [ inl s ↦ rw (e, s) refl | inr s ↦ rw (e, s) refl ]
  ]
