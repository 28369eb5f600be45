-- ===== src/Hashing/Workers/Agree.antt =====
-- hasher.go: HashSliceOfStaticObjects by workers leaves the hasher that it leaves in sequence.
use ssz.Base.{
  ℕ, ◌+◌, ◌-◌, ◌/◌, ◌≤◌, ◌≡◌, inr, refl, sym, ap, ◌∙◌, Bool, true, false, Option, some, List, [],
  ◌∷◌, ◌++◌, length, All, ==_false, if◌then◌else◌, ◌>>=◌, arith,
}
use mathlib.Core.Path.{subst}
use ssz.Fork.{Fork}
use ssz.Hasher.{
  Chunk, Sha, Hasher, insert_chunk, ascend_mixin_layer, descend_layer, descend_mixin_layer,
}
use ssz.Hasher.Segments.{Seg, leaves_of, Below}
use ssz.Hasher.Balance.{Loose}
use ssz.Hasher.Ascend.{IsRoot, max_chunks}
use ssz.Hasher.Merkle.{IsOpen, state, ascend-state}
use ssz.Hasher.Mixin.{
  filled, IsRoot-unique, ascend_mixin-inner, ascend_mixin-merkleizes, descend_mixin-IsOpen,
  descend-IsOpen,
}
use ssz.Hashing.Lists.{Defines, length_chunk}
use ssz.Hashing.Workers.{
  subtask, hash_by_workers, hash_in_sequence, is_sequential, hash_slice_of_static_objects,
}
use ssz.Hashing.Workers.Slots.{IsSchedule}
use ssz.Hashing.Workers.Worker.{Roots, length-Roots, object-Roots, hash_all-Roots}
use ssz.Hashing.Workers.Root.{by_workers}

module _ (sha : Sha) {A : Type 0} (fields : A → List Chunk)
    (define : Fork → A → Hasher → Option Hasher) (max_items : ℕ)
    (small : max_items ≤ max_chunks) where
  filled_lem : (rs : List Chunk) → 1 ≤ length rs → filled sha rs ≡ rs
  filled_lem [] h = absurd (omega arith)
  filled_lem (r ∷ rs) h = refl

  mixin-Below : (h : Hasher) → IsOpen h → Below (h.layer + 2) h.groups
  unfolding descend_layer
  mixin-Below h open_ = subst (λ n. Below n h.groups) (omega arith) (descend-IsOpen sha h open_)

  one_up :
      (h : Hasher) (r : Chunk)
      → ◌≡◌ {A = Option Hasher}
          (some (
            insert_chunk sha r 0
              (record { chunks = h.chunks; groups = h.groups; layer = h.layer + 2 - 1 })))
          (some (insert_chunk sha r 0 (descend_layer h)))
  unfolding descend_layer
  one_up h r = ap (λ n. some (insert_chunk sha r 0 (record h { layer = n }))) (omega arith)

  -- The layer that is left behind a list of roots.
  closes :
      (h : Hasher) (t : Seg) (ts : List Seg) (rs : List Chunk)
      → IsOpen h
      → Loose sha t ts
      → leaves_of (t ∷ ts) ≡ rs
      → 1 ≤ length rs
      → length rs ≤ max_chunks
      → (r : Chunk) × IsRoot sha max_items rs r
        × (ascend_mixin_layer sha
              (length rs)
              max_items
              (state sha (h.layer + 2) h.groups h.chunks (t ∷ ts))
            ≡ some (insert_chunk sha (sha.sum256 (r ++ length_chunk sha (length rs))) 0 h))
  closes h t ts rs open_ loose leaves some_ few =
      let (r, root, inner) =
        ascend-state sha (h.layer + 2) h.groups h.chunks max_items t ts (mixin-Below h open_) loose
          (rw leaves few) small in
      (
        r,
        rw leaves at root,
        ascend_mixin-inner sha (length rs) max_items h
            (state sha (h.layer + 2) h.groups h.chunks (t ∷ ts)) r open_
            (rw (==_false (length rs) 0 (omega arith)) (inner ∙ one_up h r)),
      )

  in_sequence :
      (fork : Fork) (objects : List A) (rs : List Chunk) (h : Hasher)
      → Roots sha fields objects rs
      → All (Defines sha (define fork) fields) objects
      → IsOpen h
      → 1 ≤ length rs
      → length rs ≤ max_chunks
      → (r : Chunk) × IsRoot sha max_items rs r
        × ((hash_in_sequence sha define fork objects (descend_mixin_layer h)
              >>= ascend_mixin_layer sha (length rs) max_items)
            ≡ some (insert_chunk sha (sha.sum256 (r ++ length_chunk sha (length rs))) 0 h))
  unfolding hash_in_sequence
  in_sequence fork objects rs h each all open_ some_ few =
      let (r, root, run) =
        ascend_mixin-merkleizes sha (length rs) max_items rs h open_ (inr (omega arith, some_)) few
          small in
      (
        r,
        rw (filled_lem rs some_) at root,
        ap (λ m. m >>= ascend_mixin_layer sha (length rs) max_items)
              (hash_all-Roots sha fields (define fork) objects rs (descend_mixin_layer h) all each
                (descend_mixin-IsOpen sha h open_))
            ∙ run,
      )

  by_threads :
      (pooled : ℕ → Fork) (order : List ℕ) (cpus : ℕ) (objects : List A) (rs : List Chunk)
      (h : Hasher)
      → Roots sha fields objects rs
      → ((i : ℕ) → All (Defines sha (define (pooled i)) fields) objects)
      → IsSchedule
          ((length objects + subtask cpus (length objects) - 1) / subtask cpus (length objects))
          order
      → IsOpen h
      → 1 ≤ length rs
      → length rs ≤ max_chunks
      → (r : Chunk) × IsRoot sha max_items rs r
        × ((hash_by_workers sha define pooled order
                (subtask cpus (length objects))
                objects
                (descend_mixin_layer h)
              >>= ascend_mixin_layer sha (length rs) max_items)
            ≡ some (insert_chunk sha (sha.sum256 (r ++ length_chunk sha (length rs))) 0 h))
  unfolding subtask descend_mixin_layer
  by_threads pooled order cpus objects rs h each defines schedule open_ some_ few =
      let (t, ts, loose, leaves, run) =
        by_workers sha fields define pooled order objects rs each defines (descend_mixin_layer h) _
          (mixin-Below h open_) some_ schedule in
      let (r, root, ends) = closes h t ts rs open_ loose leaves some_ few in
      (r, root, ap (λ m. m >>= ascend_mixin_layer sha (length rs) max_items) run ∙ ends)

  module _ (size_on_fork : A → ℕ) (cpus : ℕ) (pooled : ℕ → Fork) (order : List ℕ) where
    -- HashSliceOfStaticObjects leaves the same hasher with threads as without, at every size, on any
    -- number of processors, and in whatever order the workers end, each of which ends. The DefineSSZ
    -- method of each object adds the chunks of its fields, 1 to 2^63 of them, to every hasher that has
    -- no pending group of a later layer, under the fork of the caller as under the forks that the
    -- pooled codecs have; the list and the capacity are at most 2^63, and no pending group is of a
    -- later layer.
    pub hash_slice_of_static_objects-threads :
        (fork : Fork) (objects : List A) (h : Hasher)
        → All (Defines sha (define fork) fields) objects
        → ((i : ℕ) → All (Defines sha (define (pooled i)) fields) objects)
        → IsSchedule
            ((length objects + subtask cpus (length objects) - 1) / subtask cpus (length objects))
            order
        → IsOpen h
        → length objects ≤ max_chunks
        → hash_slice_of_static_objects sha define size_on_fork true cpus pooled order fork objects
            max_items h
          ≡ hash_slice_of_static_objects sha define size_on_fork false cpus pooled order fork
              objects max_items h
    unfolding hash_slice_of_static_objects is_sequential
    hash_slice_of_static_objects-threads fork [] h all defines schedule open_ few = refl
    hash_slice_of_static_objects-threads fork (obj ∷ objects) h all defines schedule open_ few =
        let split =
          hash_by_workers sha define pooled order (subtask cpus (length (obj ∷ objects)))
            (obj ∷ objects) (descend_mixin_layer h) in
        let whole = hash_in_sequence sha define fork (obj ∷ objects) (descend_mixin_layer h) in
        if-agrees (is_sequential sha define size_on_fork true cpus pooled order (obj ∷ objects))
          whole split
          (let (rs, each) = object-Roots sha fields (define fork) (obj ∷ objects) all in
            let count = length-Roots sha fields (obj ∷ objects) rs each in
            let (r, root, run) =
              by_threads pooled order cpus (obj ∷ objects) rs h each defines schedule open_
                (omega (arith, count)) (omega (arith, count)) in
            let (q, root', run') =
              in_sequence fork (obj ∷ objects) rs h each all open_ (omega (arith, count))
                (omega (arith, count)) in
            let close : ℕ → Option Hasher → Option Hasher =
              λ n m. m >>= ascend_mixin_layer sha n max_items in
            ap (λ n. close n split) (sym count)
            ∙ run
            ∙ ap (λ c. some (insert_chunk sha (sha.sum256 (c ++ length_chunk sha (length rs))) 0 h))
                (IsRoot-unique sha max_items rs r q root root')
            ∙ sym run'
            ∙ ap (λ n. close n whole) count)
      where
        if-agrees :
            (b : Bool) (x y : Option Hasher)
            → (y >>= ascend_mixin_layer sha (length (obj ∷ objects)) max_items)
              ≡ (x >>= ascend_mixin_layer sha (length (obj ∷ objects)) max_items)
            → ((if b then x else y) >>= ascend_mixin_layer sha (length (obj ∷ objects)) max_items)
              ≡ (x >>= ascend_mixin_layer sha (length (obj ∷ objects)) max_items)
        if-agrees true x y e = refl
        if-agrees false x y e = e
