-- ===== src/Hashing/Workers.antt =====
-- hasher.go: HashSliceOfStaticObjects, in sequence or by workers. `define` is the DefineSSZ method of
-- the type as run by a hasher under a fork, and `size_on_fork` what SizeOnFork answers for an object.
pub mod Blocks
pub mod Slots
pub mod Worker
pub mod Root
pub mod Agree
use ssz.Base.{
  ℕ, zero, suc, ◌+◌, ◌-◌, ◌*◌, ◌/◌, ◌%◌, ◌^◌, Bool, true, false, ◌||◌, Option, none, some, List, [],
  ◌∷◌, length, take, drop, replicate, ltb, leb, ◌==◌, if◌then◌else◌, ◌>>=◌, min,
}
use mathlib.Core.Bool.{not}
use ssz.Base.Words.{bit_length}
use ssz.Fork.{Fork, ForkFilter, is_absent}
use ssz.Hasher.{
  Chunk, Sha, Group, Hasher, zero_chunk, insert_chunk, balance_layer, descend_mixin_layer,
  ascend_mixin_layer,
}
use ssz.Hashing.{hash_all}
use ssz.Hashing.Objects.{hash_object}
use ssz.Entry.Hash.{reset_hasher}

abbrev pub concurrency_threshold : ℕ
concurrency_threshold = 65536

-- The number of objects of a worker, of `count` objects on `cpus` processors: 1 << Len(count / splits),
-- where the splits are not 0.
unfoldable pub subtask : ℕ → ℕ → ℕ
subtask cpus count = 2 ^ bit_length 64 (count / min (4 * cpus) count)

-- The signed 64-bit product of the number of objects and their size against the threshold.
unfoldable pub is_small : ℕ → ℕ → Bool
is_small count size =
    let product = count * size % 2 ^ 64 in leb (2 ^ 63) product || ltb product concurrency_threshold

-- resultChunks and resultDepths, and the write of a worker to its place in them.
abbrev pub Slot : Type 0
Slot = Chunk × ℕ

unfoldable pub write_slot : ℕ → Slot → List Slot → List Slot
write_slot i slot [] = []
write_slot zero slot (s ∷ slots) = slot ∷ slots
write_slot (suc i) slot (s ∷ slots) = s ∷ write_slot i slot slots

-- groups[0] of a slice whose last element is the head here.
unfoldable pub first_group : List Group → Option Group
first_group [] = none
first_group (g ∷ []) = some g
first_group (g ∷ p ∷ gs) = first_group (p ∷ gs)

-- chunks[0] and groups[0].depth, or an index panic.
unfoldable pub first_slot : Hasher → Option Slot
first_slot h = elim h.chunks [ [] ↦ none | c ∷ _ ↦ first_group h.groups >>= λ g. some (c, g.depth) ]

module _ (sha : Sha) where
  -- The last loop, over the results in order.
  unfoldable pub insert_slots : List Slot → Hasher → Hasher
  insert_slots [] h = h
  insert_slots (s ∷ slots) h = insert_slots slots (insert_chunk sha s.0 s.1 h)

  module _ {A : Type 0} (define : Fork → A → Hasher → Option Hasher) where
    -- The body of a worker over its objects, with the fork that its pooled codec has.
    unfoldable pub hash_worker : Fork → List A → Option Slot
    hash_worker fork objects =
        hash_all (hash_object sha (define fork)) objects reset_hasher
        >>= balance_layer sha
        >>= first_slot

    abbrev pub worker_objects : ℕ → ℕ → List A → List A
    worker_objects size i objects = take size (drop (i * size) objects)

    -- The workers in the order in which they write their results. `pooled` gives each its codec's fork.
    unfoldable pub run_workers : (ℕ → Fork) → ℕ → List A → List ℕ → List Slot → Option (List Slot)
    run_workers pooled size objects [] slots = some slots
    run_workers pooled size objects (i ∷ order) slots =
        hash_worker (pooled i) (worker_objects size i objects) >>= λ slot.
        run_workers pooled size objects order (write_slot i slot slots)

    -- The two branches between descendMixinLayer and ascendMixinLayer.
    unfoldable pub hash_by_workers : (ℕ → Fork) → List ℕ → ℕ → List A → Hasher → Option Hasher
    hash_by_workers pooled order size objects h =
        run_workers pooled size objects order
          (replicate ((length objects + size - 1) / size) (zero_chunk, 0))
        >>= λ slots. some (insert_slots slots h)

    unfoldable pub hash_in_sequence : Fork → List A → Hasher → Option Hasher
    hash_in_sequence fork objects h = hash_all (hash_object sha (define fork)) objects h

    module _ (size_on_fork : A → ℕ) (threads : Bool) (cpus : ℕ) (pooled : ℕ → Fork)
        (order : List ℕ) where
      unfoldable pub is_sequential : List A → Bool
      is_sequential [] = true
      is_sequential (o ∷ os) = not threads || is_small (length (o ∷ os)) (size_on_fork o)

      unfoldable pub hash_slice_of_static_objects : Fork → List A → ℕ → Hasher → Option Hasher
      hash_slice_of_static_objects fork objects max_items h =
          (if is_sequential objects
            then hash_in_sequence fork objects (descend_mixin_layer h)
            else hash_by_workers pooled order (subtask cpus (length objects)) objects
                (descend_mixin_layer h))
          >>= ascend_mixin_layer sha (length objects) max_items

      unfoldable pub hash_slice_of_static_objects_on_fork :
          Fork → List A → ℕ → ForkFilter → Hasher → Option Hasher
      hash_slice_of_static_objects_on_fork fork objects max_items filter h =
          if is_absent fork filter
          then some h
          else hash_slice_of_static_objects fork objects max_items h
