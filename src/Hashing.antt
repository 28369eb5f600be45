-- ===== src/Hashing.antt =====
-- The Hash functions of hasher.go over the accumulator. `none` is a panic of the accumulator.
pub mod Pack
pub mod Roots
pub mod Objects
pub mod Each
pub mod Forks
pub mod Lists
pub mod Workers
pub mod Numbers
pub mod Bits
pub mod BitLists
use ssz.Base.{
  ℕ, zero, suc, ◌+◌, ◌-◌, ◌*◌, ◌/◌, ◌%◌, ◌^◌, Bool, true, false, Option, none, some, List, [], ◌∷◌,
  ◌++◌, length, take, drop, replicate, leb, ltb, ◌==◌, if◌then◌else◌, ◌>>=◌,
}
use Prim.Native.Nat.{bit_and}
use ssz.Base.Words.{put_uint}
use ssz.Fork.{Fork, ForkFilter, is_absent}
use ssz.Hasher.{
  Chunk, Sha, Hasher, zero_chunk, pad_chunk, insert_chunk, insert_chunks, descend_layer,
  descend_mixin_layer, ascend_layer, ascend_mixin_layer,
}

-- The loops that hash one item of a list after another.
unfoldable pub hash_all {ℓ} :
    {A : Type ℓ} → (A → Hasher → Option Hasher) → List A → Hasher → Option Hasher
hash_all hash [] h = some h
hash_all hash (a ∷ items) h = hash a h >>= hash_all hash items

module _ (sha : Sha) where
  unfoldable pub insert_blob_loop : ℕ → List ℕ → Hasher → Hasher
  insert_blob_loop zero blob h = h
  insert_blob_loop (suc fuel) blob h =
      let more = insert_blob_loop fuel (drop 32 blob) (insert_chunk sha (take 32 blob) 0 h) in
      if leb 32 (length blob)
      then more
      else (if ltb 0 (length blob) then insert_chunk sha (pad_chunk blob) 0 h else h)

  unfoldable pub insert_blob_chunks : List ℕ → Hasher → Hasher
  insert_blob_chunks blob h = insert_blob_loop (length blob / 32 + 1) blob h

  unfoldable pub insert_empty_loop : ℕ → ℕ → Hasher → Hasher
  insert_empty_loop zero size h = h
  insert_empty_loop (suc fuel) size h =
      let more = insert_empty_loop fuel (size - 32) (insert_chunk sha zero_chunk 0 h) in
      if ltb 0 size then more else h

  -- `size` is an int that may fall below 0, where the loop stops as it does at 0.
  unfoldable pub insert_blob_chunks_empty : ℕ → Hasher → Hasher
  insert_blob_chunks_empty size h = insert_empty_loop (size / 32 + 1) size h

  unfoldable pub hash_bytes : List ℕ → Hasher → Option Hasher
  hash_bytes blob h =
      if leb (length blob) 32
      then some (insert_chunk sha (pad_chunk blob) 0 h)
      else ascend_layer sha 0 (insert_blob_chunks blob (descend_layer h))

  unfoldable pub hash_bytes_empty : ℕ → Hasher → Option Hasher
  hash_bytes_empty size h =
      if leb size 32
      then some (insert_chunk sha zero_chunk 0 h)
      else ascend_layer sha 0 (insert_blob_chunks_empty size (descend_layer h))

  unfoldable pub hash_bool : Bool → Hasher → Hasher
  hash_bool v h =
      if v then insert_chunk sha (1 ∷ replicate 31 0) 0 h else insert_chunk sha (replicate 32 0) 0 h

  unfoldable pub hash_uint8 : ℕ → Hasher → Hasher
  hash_uint8 n h = insert_chunk sha (pad_chunk (n % 256 ∷ [])) 0 h

  unfoldable pub hash_uint16 : ℕ → Hasher → Hasher
  hash_uint16 n h = insert_chunk sha (pad_chunk (put_uint 2 n)) 0 h

  unfoldable pub hash_uint32 : ℕ → Hasher → Hasher
  hash_uint32 n h = insert_chunk sha (pad_chunk (put_uint 4 n)) 0 h

  unfoldable pub hash_uint64 : ℕ → Hasher → Hasher
  hash_uint64 n h = insert_chunk sha (pad_chunk (put_uint 8 n)) 0 h

  module _ (fork : Fork) where
    unfoldable pub hash_bool_pointer_on_fork : Option Bool → ForkFilter → Hasher → Hasher
    hash_bool_pointer_on_fork v filter h =
        if is_absent fork filter
        then h
        else elim v [ none ↦ hash_bool false h | some b ↦ hash_bool b h ]

    unfoldable pub hash_uint8_pointer_on_fork : Option ℕ → ForkFilter → Hasher → Hasher
    hash_uint8_pointer_on_fork n filter h =
        if is_absent fork filter
        then h
        else elim n [ none ↦ hash_uint8 0 h | some m ↦ hash_uint8 m h ]

    unfoldable pub hash_uint16_pointer_on_fork : Option ℕ → ForkFilter → Hasher → Hasher
    hash_uint16_pointer_on_fork n filter h =
        if is_absent fork filter
        then h
        else elim n [ none ↦ hash_uint16 0 h | some m ↦ hash_uint16 m h ]

    unfoldable pub hash_uint32_pointer_on_fork : Option ℕ → ForkFilter → Hasher → Hasher
    hash_uint32_pointer_on_fork n filter h =
        if is_absent fork filter
        then h
        else elim n [ none ↦ hash_uint32 0 h | some m ↦ hash_uint32 m h ]

    unfoldable pub hash_uint64_pointer_on_fork : Option ℕ → ForkFilter → Hasher → Hasher
    hash_uint64_pointer_on_fork n filter h =
        if is_absent fork filter
        then h
        else elim n [ none ↦ hash_uint64 0 h | some m ↦ hash_uint64 m h ]

    -- `size` is the length of the array type.
    unfoldable pub hash_static_bytes_pointer_on_fork :
        ℕ → Option (List ℕ) → ForkFilter → Hasher → Option Hasher
    hash_static_bytes_pointer_on_fork size blob filter h =
        if is_absent fork filter
        then some h
        else elim blob [ none ↦ hash_bytes_empty size h | some b ↦ hash_bytes b h ]

  unfoldable pub hash_static_bytes : List ℕ → Hasher → Option Hasher
  hash_static_bytes blob h = hash_bytes blob h

  unfoldable pub hash_dynamic_bytes : List ℕ → ℕ → Hasher → Option Hasher
  hash_dynamic_bytes blob max_size h =
      ascend_mixin_layer sha (length blob) ((max_size + 31) % 2 ^ 64 / 32)
        (insert_blob_chunks blob (descend_mixin_layer h))

  unfoldable pub hash_dynamic_bytes_on_fork :
      Fork → List ℕ → ℕ → ForkFilter → Hasher → Option Hasher
  hash_dynamic_bytes_on_fork fork blob max_size filter h =
      if is_absent fork filter then some h else hash_dynamic_bytes blob max_size h

  -- The loop over uint64s, four to a chunk while more than four are left.
  unfoldable pub insert_uint64s : List ℕ → Hasher → Hasher
  insert_uint64s (a ∷ b ∷ c ∷ d ∷ e ∷ ns) h = insert_uint64s (e ∷ ns) (
      insert_chunk sha
        (pad_chunk (put_uint 8 a ++ (put_uint 8 b ++ (put_uint 8 c ++ put_uint 8 d)))) 0 h)
  insert_uint64s (a ∷ b ∷ c ∷ d ∷ []) h =
      insert_chunk sha
        (pad_chunk (put_uint 8 a ++ (put_uint 8 b ++ (put_uint 8 c ++ put_uint 8 d)))) 0 h
  insert_uint64s (a ∷ b ∷ c ∷ []) h =
      insert_chunk sha (pad_chunk (put_uint 8 a ++ (put_uint 8 b ++ put_uint 8 c))) 0 h
  insert_uint64s (a ∷ b ∷ []) h = insert_chunk sha (pad_chunk (put_uint 8 a ++ put_uint 8 b)) 0 h
  insert_uint64s (a ∷ []) h = insert_chunk sha (pad_chunk (put_uint 8 a)) 0 h
  insert_uint64s [] h = h

  unfoldable pub hash_array_of_uint64s : List ℕ → Hasher → Option Hasher
  hash_array_of_uint64s ns h = ascend_layer sha 0 (insert_uint64s ns (descend_layer h))

  unfoldable pub hash_slice_of_uint64s : List ℕ → ℕ → Hasher → Option Hasher
  hash_slice_of_uint64s ns max_items h =
      ascend_mixin_layer sha (length ns) ((max_items * 8 + 31) % 2 ^ 64 / 32)
        (insert_uint64s ns (descend_mixin_layer h))

  unfoldable pub hash_unsafe_array_of_static_bytes : List (List ℕ) → Hasher → Option Hasher
  hash_unsafe_array_of_static_bytes blobs h =
      hash_all hash_bytes blobs (descend_layer h) >>= ascend_layer sha 0

  unfoldable pub hash_slice_of_static_bytes : List (List ℕ) → ℕ → Hasher → Option Hasher
  hash_slice_of_static_bytes blobs max_items h =
      hash_all hash_bytes blobs (descend_mixin_layer h)
      >>= ascend_mixin_layer sha (length blobs) max_items

  unfoldable pub hash_slice_of_dynamic_bytes : List (List ℕ) → ℕ → ℕ → Hasher → Option Hasher
  hash_slice_of_dynamic_bytes blobs max_items max_size h =
      hash_all (λ b. hash_dynamic_bytes b max_size) blobs (descend_mixin_layer h)
      >>= ascend_mixin_layer sha (length blobs) max_items
