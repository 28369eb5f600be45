-- ===== src/Examples/Workers.antt =====
-- hasher.go and the 256-bit numbers at concrete inputs: five objects by three workers, which end in
-- another order than they began.
use ssz.Base.{
  ℕ, ◌<◌, ◌≡◌, inl, inr, refl, true, false, Option, some, List, [], ◌∷◌, All, arith, zero, suc,
}
use ssz.Base.Words.{bit_length}
use ssz.Fork.{Fork}
use ssz.Hasher.{Chunk, Hasher, insert_chunk, insert_chunks}
use ssz.Base.{replicate, ap, ◌∙◌}
use ssz.Hasher.Ascend.{IsRoot}
use ssz.Hasher.Merkle.{IsOpen}
use ssz.Hasher.Mixin.{IsRoot-unique, filled}
use ssz.Hashing.{hash_bytes}
use ssz.Hashing.Pack.{packed}
use ssz.Hashing.Roots.{hash_bytes-merkleizes}
use ssz.Hashing.Each.{insert_chunk-IsOpen}
use ssz.Hashing.Lists.{Defines}
use ssz.Hashing.Workers.{subtask, is_small, is_sequential, hash_slice_of_static_objects}
use ssz.Hashing.Workers.Slots.{IsSchedule, Occurs}
use ssz.Hashing.Workers.Agree.{hash_slice_of_static_objects-threads}
use ssz.Examples.Roots.{checksum_sha, new_hasher, leaf}

-- A signature of 96 bytes, which takes a layer of its own.
abbrev signature : List ℕ
signature = replicate 96 9

signature_root :
    (r : Chunk) × IsRoot checksum_sha 0 (filled checksum_sha (packed signature)) r
    × (hash_bytes checksum_sha signature new_hasher
        ≡ some (insert_chunk checksum_sha r 0 new_hasher))
signature_root = hash_bytes-merkleizes checksum_sha signature new_hasher tt (omega arith)

signature-adds :
    (h : Hasher)
    → IsOpen h
    → hash_bytes checksum_sha signature h ≡ some (insert_chunk checksum_sha signature_root.0 0 h)
signature-adds h o =
    let (r, root, run) = hash_bytes-merkleizes checksum_sha signature h o (omega arith) in
    run
    ∙ ap (λ x. some (insert_chunk checksum_sha x 0 h))
        (IsRoot-unique checksum_sha 0 (filled checksum_sha (packed signature)) r signature_root.0
          root signature_root.1)

abbrev object_fields : ℕ → List Chunk
object_fields n = leaf n ∷ signature_root.0 ∷ []

abbrev define_object : Fork → ℕ → Hasher → Option Hasher
define_object fork n h = hash_bytes checksum_sha signature (insert_chunk checksum_sha (leaf n) 0 h)

abbrev five_objects : List ℕ
five_objects = 1 ∷ 4 ∷ 9 ∷ 16 ∷ 25 ∷ []

object-Defines : (fork : Fork) (n : ℕ) → Defines checksum_sha (define_object fork) object_fields n
unfolding insert_chunks
object-Defines fork n = (
  (λ h o.
      signature-adds (insert_chunk checksum_sha (leaf n) 0 h)
        (insert_chunk-IsOpen checksum_sha (leaf n) h o)),
  omega arith,
  omega arith,
)

each-Defines :
    (fork : Fork) → All (Defines checksum_sha (define_object fork) object_fields) five_objects
each-Defines fork = (
  object-Defines fork 1,
  (
    object-Defines fork 4,
    (object-Defines fork 9, (object-Defines fork 16, (object-Defines fork 25, tt))),
  ),
)

two_each : subtask 1 5 ≡ 2
unfolding subtask bit_length
two_each = refl

-- The list is large enough for the workers.
by_workers :
    is_sequential checksum_sha define_object
      (λ n. 20000)
      true
      1
      (λ i. i)
      (2 ∷ 0 ∷ 1 ∷ [])
      five_objects
    ≡ false
unfolding is_sequential is_small
by_workers = refl

order-IsSchedule : IsSchedule 3 (2 ∷ 0 ∷ 1 ∷ [])
order-IsSchedule = record {
  all_end = each;
  none_else = (omega arith, (omega arith, (omega arith, tt)));
}
  where
    each : (i : ℕ) → i < 3 → Occurs i (2 ∷ 0 ∷ 1 ∷ [])
    each zero small = inr (inl refl)
    each (suc zero) small = inr (inr (inl refl))
    each (suc (suc zero)) small = inl refl
    each (suc (suc (suc i))) small = absurd (omega arith)

hash_slice_of_static_objects-threads_example :
    hash_slice_of_static_objects checksum_sha define_object
      (λ n. 20000)
      true
      1
      (λ i. i)
      (2 ∷ 0 ∷ 1 ∷ [])
      3
      five_objects
      8
      new_hasher
    ≡ hash_slice_of_static_objects checksum_sha define_object
        (λ n. 20000)
        false
        1
        (λ i. i)
        (2 ∷ 0 ∷ 1 ∷ [])
        3
        five_objects
        8
        new_hasher
unfolding subtask bit_length
hash_slice_of_static_objects-threads_example =
    hash_slice_of_static_objects-threads checksum_sha object_fields define_object 8 (omega arith)
      (λ n. 20000) 1 (λ i. i) (2 ∷ 0 ∷ 1 ∷ []) 3 five_objects new_hasher (each-Defines 3)
      each-Defines order-IsSchedule tt (omega arith)
