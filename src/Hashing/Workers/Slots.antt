-- ===== src/Hashing/Workers/Slots.antt =====
-- hasher.go: the workers of HashSliceOfStaticObjects write to places of their own, so that the results
-- do not depend on the order in which they end.
use ssz.Base.{
  ℕ, zero, suc, ◌<◌, ◌≡◌, ◌⊎◌, inl, inr, refl, ap, ap₂, ◌∙◌, Option, some, List, [], ◌∷◌, replicate,
  All, ◌>>=◌, arith,
}
use ssz.Fork.{Fork}
use ssz.Hasher.{Sha, Hasher}
use ssz.Hashing.Workers.{Slot, write_slot, hash_worker, worker_objects, run_workers}

abbrev pub Occurs : ℕ → List ℕ → Type 0
Occurs i [] = ⊥
Occurs i (j ∷ order) = (i ≡ j) ⊎ Occurs i order

-- Every worker of `count` ends, and none that there is not; one that ended twice would do no harm.
pub record IsSchedule (count : ℕ) (order : List ℕ) : Type 0 where
  pub all_end : (i : ℕ) → i < count → Occurs i order
  pub none_else : All (λ i. i < count) order

-- The results in the order of the slice.
abbrev pub in_order : (ℕ → Slot) → ℕ → List Slot
in_order slot zero = []
in_order slot (suc n) = slot 0 ∷ in_order (λ i. slot (suc i)) n

abbrev fill : (ℕ → Slot) → List ℕ → List Slot → List Slot
fill slot [] slots = slots
fill slot (i ∷ order) slots = fill slot order (write_slot i (slot i) slots)

-- What the workers do to the first place, and which of them write behind it.
abbrev first : (ℕ → Slot) → List ℕ → Slot → Slot
first slot [] s = s
first slot (zero ∷ order) s = first slot order (slot 0)
first slot (suc i ∷ order) s = first slot order s

abbrev others : List ℕ → List ℕ
others [] = []
others (zero ∷ order) = others order
others (suc i ∷ order) = i ∷ others order

fill-cons :
    (slot : ℕ → Slot) (order : List ℕ) (s : Slot) (slots : List Slot)
    → fill slot order (s ∷ slots)
      ≡ first slot order s ∷ fill (λ i. slot (suc i)) (others order) slots
unfolding write_slot
fill-cons slot [] s slots = refl
fill-cons slot (zero ∷ order) s slots = fill-cons slot order (slot 0) slots
fill-cons slot (suc i ∷ order) s slots = fill-cons slot order s (write_slot i (slot (suc i)) slots)

fill-nil : (slot : ℕ → Slot) (order : List ℕ) → fill slot order [] ≡ []
unfolding write_slot
fill-nil slot [] = refl
fill-nil slot (i ∷ order) = fill-nil slot order

first_lem :
    (slot : ℕ → Slot) (order : List ℕ) (s : Slot)
    → (s ≡ slot 0) ⊎ Occurs 0 order
    → first slot order s ≡ slot 0
first_lem slot [] s (inl e) = e
first_lem slot [] s (inr never) = absurd never
first_lem slot (zero ∷ order) s h = first_lem slot order (slot 0) (inl refl)
first_lem slot (suc i ∷ order) s (inl e) = first_lem slot order s (inl e)
first_lem slot (suc i ∷ order) s (inr (inl e)) = absurd (omega arith)
first_lem slot (suc i ∷ order) s (inr (inr o)) = first_lem slot order s (inr o)

others-Occurs : (i : ℕ) (order : List ℕ) → Occurs (suc i) order → Occurs i (others order)
others-Occurs i [] never = absurd never
others-Occurs i (zero ∷ order) (inl e) = absurd (omega arith)
others-Occurs i (zero ∷ order) (inr o) = others-Occurs i order o
others-Occurs i (suc j ∷ order) (inl e) = inl (omega arith)
others-Occurs i (suc j ∷ order) (inr o) = inr (others-Occurs i order o)

fill_lem :
    (slot : ℕ → Slot) (order : List ℕ) (count : ℕ) (s : Slot)
    → ((i : ℕ) → i < count → Occurs i order)
    → fill slot order (replicate count s) ≡ in_order slot count
fill_lem slot order zero s all = fill-nil slot order
fill_lem slot order (suc count) s all =
    fill-cons slot order s (replicate count s)
    ∙ ap₂ (λ x xs. x ∷ xs) (first_lem slot order s (inr (all 0 (omega arith))))
        (fill_lem (λ i. slot (suc i)) (others order) count s
          (λ i small. others-Occurs i order (all (suc i) (omega arith))))

module _ (sha : Sha) {A : Type 0} (define : Fork → A → Hasher → Option Hasher) (pooled : ℕ → Fork)
    (size : ℕ) (objects : List A) (slot : ℕ → Slot) where
  run_workers-fill :
      (order : List ℕ) (slots : List Slot)
      → All
          (λ i.
            hash_worker sha define (pooled i) (worker_objects sha define size i objects)
            ≡ some (slot i))
          order
      → run_workers sha define pooled size objects order slots ≡ some (fill slot order slots)
  unfolding run_workers
  run_workers-fill [] slots all = refl
  run_workers-fill (i ∷ order) slots (one, all) =
      ap (λ m. m >>= λ s. run_workers sha define pooled size objects order (write_slot i s slots))
        one
      ∙ run_workers-fill order (write_slot i (slot i) slots) all

  -- If each worker of `count` gives its result, then in whatever order they end, the results are those
  -- in the order of the slice.
  pub run_workers-in_order :
      (count : ℕ) (order : List ℕ) (s : Slot)
      → IsSchedule count order
      → ((i : ℕ)
          → i < count
          → hash_worker sha define (pooled i) (worker_objects sha define size i objects)
            ≡ some (slot i))
      → run_workers sha define pooled size objects order (replicate count s)
        ≡ some (in_order slot count)
  run_workers-in_order count order s schedule each =
      run_workers-fill order (replicate count s) (only order schedule.none_else)
      ∙ ap some (fill_lem slot order count s schedule.all_end)
    where
      only :
          (order : List ℕ)
          → All (λ i. i < count) order
          → All
              (λ i.
                hash_worker sha define (pooled i) (worker_objects sha define size i objects)
                ≡ some (slot i))
              order
      only [] all = tt
      only (i ∷ order) (small, all) = (each i small, only order all)
