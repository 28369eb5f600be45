-- ===== src/Hashing/Workers/Root.antt =====
-- hasher.go: HashSliceOfStaticObjects by workers adds the root that it adds in sequence.
use ssz.Base.{
  ℕ, zero, suc, ◌+◌, ◌-◌, ◌*◌, ◌/◌, ◌^◌, ◌≤◌, ◌<◌, ◌≡◌, refl, sym, ap, ◌∙◌, Option, none, some,
  List, [], ◌∷◌, length, length-take, length-drop, take, drop, All, ◌>>=◌, arith,
}
use mathlib.Core.Path.{subst}
use native.Mathlib.Nat.{mul-div-le, lt-mul-div-succ, mul-le-mul_right, suc-mul, mul-suc, mul_comm}
use ssz.Fork.{Fork}
use ssz.Hasher.{Chunk, Sha, Hasher, zero_chunk}
use ssz.Hasher.Ascend.{pow-le}
use ssz.Hasher.Merkle.{state}
use ssz.Hasher.Blocks.{IsTop}
use ssz.Hasher.Segments.{Seg, leaves_of, Below}
use ssz.Hasher.Balance.{Loose}
use ssz.Hashing.Lists.{Defines}
use ssz.Hashing.Workers.{Slot, hash_worker, worker_objects, insert_slots, hash_by_workers}
use ssz.Hashing.Workers.Blocks.{Tops, insert_slots-blocks}
use ssz.Hashing.Workers.Slots.{IsSchedule, in_order, run_workers-in_order}
use ssz.Hashing.Workers.Worker.{
  All-take, All-drop, Roots, Roots-take, Roots-drop, length-Roots, hash_worker-IsTop,
}

module _ {A : Type 0} where
  drop-nil : (n : ℕ) → drop {A = A} n [] ≡ []
  drop-nil zero = refl
  drop-nil (suc n) = refl

  drop-add : (a b n : ℕ) (xs : List A) → n ≡ a + b → drop n xs ≡ drop b (drop a xs)
  drop-add zero b n xs e = let e' : n ≡ b = omega arith in ap (λ k. drop k xs) e'
  drop-add (suc a) b zero xs e = absurd (omega arith)
  drop-add (suc a) b (suc n) [] e = sym (drop-nil b)
  drop-add (suc a) b (suc n) (x ∷ xs) e = drop-add a b n xs (omega arith)

-- Before the last of the blocks there are whole blocks, and the last is not empty.
blocks_bound :
    (size len : ℕ)
    → 1 ≤ size
    → (len ≤ (len + size - 1) / size * size) × ((len + size - 1) / size * size < len + size)
blocks_bound size len one =
    let low = mul-div-le (len + size - 1) size in
    let high = lt-mul-div-succ (len + size - 1) {b = size} (omega arith) in
    let turn = mul_comm size ((len + size - 1) / size) in
    let step = mul-suc size ((len + size - 1) / size) in
    (omega (arith, high, turn, step), omega (arith, low, turn))

block_starts : (size len i : ℕ) → 1 ≤ size → i < (len + size - 1) / size → i * size < len
block_starts size len i one small = omega (
  arith,
  mul-le-mul_right {m = suc i} {n = (len + size - 1) / size} size (omega arith),
  suc-mul i size,
  (blocks_bound size len one).1,
)

module _ (sha : Sha) (size : ℕ) where
  in_order-Tops :
      (count : ℕ) (xs : List Chunk) (slot : ℕ → Slot)
      → length xs ≤ count * size
      → count * size < length xs + size
      → ((i : ℕ) → i < count → IsTop sha (take size (drop (i * size) xs)) (slot i))
      → Tops sha size xs (in_order slot count)
  in_order-Tops zero [] slot most least tops = refl
  in_order-Tops zero (x ∷ xs) slot most least tops = absurd (omega arith)
  in_order-Tops (suc count) xs slot most least tops = (
    omega (arith, suc-mul count size),
    (let none_before : 0 * size ≡ 0 = omega arith in
        subst (λ n. IsTop sha (take size (drop n xs)) (slot 0)) none_before (tops 0 (omega arith))),
    in_order-Tops count (drop size xs) (λ i. slot (suc i))
        (omega (arith, suc-mul count size, length-drop size xs))
        (omega (arith, suc-mul count size, length-drop size xs))
        (λ i small.
          subst (λ r. IsTop sha (take size r) (slot (suc i)))
            (drop-add size (i * size) (suc i * size) xs (omega (arith, suc-mul i size)))
            (tops (suc i) (omega arith))),
  )

-- The result of a worker, were it to panic.
abbrev slot_of : Option Slot → Slot
slot_of none = (zero_chunk, 0)
slot_of (some slot) = slot

module _ (sha : Sha) {A : Type 0} (fields : A → List Chunk)
    (define : Fork → A → Hasher → Option Hasher) (pooled : ℕ → Fork) (order : List ℕ)
    (objects : List A) (rs : List Chunk) (each : Roots sha fields objects rs)
    (defines : (i : ℕ) → All (Defines sha (define (pooled i)) fields) objects) where
  worker-IsTop :
      (size i : ℕ)
      → 1 ≤ size
      → i * size < length rs
      → (slot : Slot) × IsTop sha (take size (drop (i * size) rs)) slot
        × (hash_worker sha define (pooled i) (worker_objects sha define size i objects) ≡ some slot)
  worker-IsTop size i one starts =
      hash_worker-IsTop sha fields define (pooled i) (take size (drop (i * size) objects))
        (take size (drop (i * size) rs))
        (All-take (Defines sha (define (pooled i)) fields) size (drop (i * size) objects)
          (All-drop (Defines sha (define (pooled i)) fields) (i * size) objects (defines i)))
        (Roots-take sha fields size (drop (i * size) objects) (drop (i * size) rs)
          (Roots-drop sha fields (i * size) objects rs each))
        (omega (arith, length-take size (drop (i * size) rs), length-drop (i * size) rs))

  abbrev slot : ℕ → ℕ → Slot
  slot size i =
      slot_of (hash_worker sha define (pooled i) (worker_objects sha define size i objects))

  slot_found :
      (size i : ℕ)
      → 1 ≤ size
      → i * size < length rs
      → IsTop sha (take size (drop (i * size) rs)) (slot size i)
        × (hash_worker sha define (pooled i) (worker_objects sha define size i objects)
            ≡ some (slot size i))
  slot_found size i one starts =
      let (s, top, run) = worker-IsTop size i one starts in
      (
        subst (IsTop sha (take size (drop (i * size) rs))) (sym (ap slot_of run)) top,
        run ∙ ap some (sym (ap slot_of run)),
      )

  -- The workers leave the groups that the roots of all objects leave.
  pub by_workers :
      (h : Hasher) (k : ℕ)
      → Below h.layer h.groups
      → 1 ≤ length rs
      → IsSchedule ((length objects + 2 ^ k - 1) / 2 ^ k) order
      → (t : Seg) × (ts : List Seg) × Loose sha t ts
        × (leaves_of (t ∷ ts) ≡ rs)
        × (hash_by_workers sha define pooled order (2 ^ k) objects h
            ≡ some (state sha h.layer h.groups h.chunks (t ∷ ts)))
  unfolding hash_by_workers
  by_workers h k below some_ schedule =
      let one : 1 ≤ 2 ^ k = pow-le {d = 0} (omega arith) in
      let size = length-Roots sha fields objects rs each in
      let count = (length objects + 2 ^ k - 1) / 2 ^ k in
      let bounds = blocks_bound (2 ^ k) (length objects) one in
      let starts : (i : ℕ) → i < count → i * 2 ^ k < length rs =
        λ i small. omega (arith, block_starts (2 ^ k) (length objects) i one small) in
      let (t, ts, loose, leaves, run) = stands count (
        in_order-Tops sha (2 ^ k) count rs (slot (2 ^ k)) (omega (arith, bounds.0))
          (omega (arith, bounds.1)) (λ i small. (slot_found (2 ^ k) i one (starts i small)).0)) in
      (
        t,
        ts,
        loose,
        leaves,
        ap (λ m. m >>= λ slots. some (insert_slots sha slots h))
              (run_workers-in_order sha define pooled (2 ^ k) objects (slot (2 ^ k)) count order
                (zero_chunk, 0) schedule (λ i small. (slot_found (2 ^ k) i one (starts i small)).1))
            ∙ ap some run,
      )
    where
      stands :
          (count : ℕ)
          → Tops sha (2 ^ k) rs (in_order (slot (2 ^ k)) count)
          → (t : Seg) × (ts : List Seg) × Loose sha t ts
            × (leaves_of (t ∷ ts) ≡ rs)
            × (insert_slots sha (in_order (slot (2 ^ k)) count) h
                ≡ state sha h.layer h.groups h.chunks (t ∷ ts))
      stands zero end = absurd (omega (arith, ap length end))
      stands (suc n) tops =
          insert_slots-blocks sha h.layer h.groups h.chunks below k
            (in_order (λ i. slot (2 ^ k) (suc i)) n) rs (slot (2 ^ k) 0) [] tops tt
