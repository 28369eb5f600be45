-- ===== src/Hasher.antt =====
-- The Merkle accumulator of hasher.go: chunks pending in groups, collapsed eight at a time.
-- `chunks` is in source order; `groups` has the last group of the Go slice at its head.
pub mod Row
pub mod Segments
pub mod Carry
pub mod Insert
pub mod Balance
pub mod Ascend
pub mod Merkle
pub mod Mixin
pub mod Blocks
use ssz.Base.{
  ℕ, zero, suc, ◌+◌, ◌-◌, ◌/◌, ◌%◌, ◌^◌, ◌≡◌, Bool, true, false, ◌&&◌, Option, none, some, List, [],
  ◌∷◌, ◌++◌, length, take, drop, replicate, leb, ltb, ◌==◌, if◌then◌else◌, ◌>>=◌,
}
use mathlib.Core.Bool.{not}
use ssz.Base.Words.{put_uint}

abbrev pub Chunk : Type 0
Chunk = List ℕ

-- crypto/sha256 and gohashtree. HashChunks hashes its input two chunks at a time.
pub record Sha : Type 0 where
  pub sum256 : List ℕ → Chunk
  pub hash_chunks : List Chunk → List Chunk
  pub hash_chunks-nil : hash_chunks [] ≡ []
  pub hash_chunks-cons :
      (a b : Chunk) (rest : List Chunk)
      → hash_chunks (a ∷ b ∷ rest) ≡ sum256 (a ++ b) ∷ hash_chunks rest

pub record Group : Type 0 where
  pub layer : ℕ
  pub depth : ℕ
  pub chunks : ℕ

pub record Hasher : Type 0 where
  pub chunks : List Chunk
  pub groups : List Group
  pub layer : ℕ

abbrev pub hasher_batch : ℕ
hasher_batch = 8

abbrev pub zero_chunk : Chunk
zero_chunk = replicate 32 0

-- `copy(buffer[:], blob)` into a zeroed [32]byte.
unfoldable pub pad_chunk : List ℕ → Chunk
pad_chunk blob = take 32 (blob ++ zero_chunk)

-- The test of a group against the layer and depth of another.
abbrev pub same_level : Group → Group → Bool
same_level a b = a.layer == b.layer && a.depth == b.depth

abbrev pub raise : Group → Group
raise g = record g { depth = g.depth + 1; chunks = g.chunks / 2 }

abbrev pub join : Group → Group → Group
join prev group = record prev { chunks = prev.chunks + group.chunks }

abbrev pub add_one : Group → Group
add_one g = record g { chunks = g.chunks + 1 }

unfoldable pub descend_layer : Hasher → Hasher
descend_layer h = record h { layer = h.layer + 1 }

unfoldable pub descend_mixin_layer : Hasher → Hasher
descend_mixin_layer h = record h { layer = h.layer + 2 }

-- The exit test of balanceLayer.
unfoldable pub is_balanced : Group → List Group → Bool
is_balanced g [] = g.chunks == 1
is_balanced g (p ∷ gs) = g.chunks == 1 && not (p.layer == g.layer)

unfoldable pub merge_down : Group → List Group → List Group
merge_down g [] = g ∷ []
merge_down g (prev ∷ gs) = if same_level prev g then join prev g ∷ gs else g ∷ prev ∷ gs

-- No group rises more often than this.
unfoldable pub rounds : List Group → ℕ
rounds [] = 1
rounds (g ∷ gs) = g.chunks + g.depth + rounds gs

module _ (sha : Sha) where
  open sha use {sum256, hash_chunks}

  -- hasherZeroCache, whose entries stand for all-zero trees of each depth.
  unfoldable pub zero_cache : ℕ → Chunk
  zero_cache zero = zero_chunk
  zero_cache (suc i) = sum256 (zero_cache i ++ zero_cache i)

  -- HashChunks on the last `k` chunks in place, and the cut of the slice that follows it.
  unfoldable pub hash_last : ℕ → List Chunk → List Chunk
  hash_last k cs = take (length cs - k) cs ++ hash_chunks (drop (length cs - k) cs)

  -- The loop of insertChunk: `group` has a full batch, `rest` are the groups under it.
  unfoldable pub collapse : List Chunk → Group → List Group → List Chunk × List Group
  collapse cs group [] = (hash_last hasher_batch cs, raise group ∷ [])
  collapse cs group (prev ∷ rest) =
      let more = collapse (hash_last hasher_batch cs) (join prev (raise group)) rest in
      if same_level prev (raise group)
      then more
      else (hash_last hasher_batch cs, raise group ∷ prev ∷ rest)

  unfoldable pub insert_into : List Chunk → ℕ → ℕ → List Group → List Chunk × List Group
  insert_into cs layer depth [] = (cs, record { layer = layer; depth = depth; chunks = 1 } ∷ [])
  insert_into cs layer depth (g ∷ gs) =
      if g.layer == layer && g.depth == depth
      then (if g.chunks + 1 == hasher_batch
          then collapse cs (add_one g) gs
          else (cs, add_one g ∷ gs))
      else (cs, record { layer = layer; depth = depth; chunks = 1 } ∷ g ∷ gs)

  unfoldable pub insert_chunk : Chunk → ℕ → Hasher → Hasher
  unfolding insert_into
  insert_chunk chunk depth h =
      let (cs, gs) = insert_into (h.chunks ++ (chunk ∷ [])) h.layer depth h.groups in
      record h { chunks = cs; groups = gs }

  -- The callers' loops of `h.insertChunk(chunk, 0)`.
  unfoldable pub insert_chunks : List Chunk → Hasher → Hasher
  insert_chunks [] h = h
  insert_chunks (c ∷ cs) h = insert_chunks cs (insert_chunk c 0 h)

  -- A round of balanceLayer after its exit test: complete the last group with a zero tree if it is
  -- odd, and hash it in pairs.
  unfoldable pub pair_last : List Chunk → Group → List Chunk × Group
  pair_last cs g =
      if g.chunks % 2 == 1
      then (hash_last (g.chunks + 1) (cs ++ (zero_cache g.depth ∷ [])), raise (add_one g))
      else (hash_last g.chunks cs, raise g)

  -- `none` is an index panic (no group at all), or that the fuel ran out.
  unfoldable pub balance_loop : ℕ → List Chunk → List Group → Option (List Chunk × List Group)
  balance_loop zero cs gs = none
  balance_loop (suc fuel) cs [] = none
  balance_loop (suc fuel) cs (g ∷ gs) = elim (is_balanced g gs) [
    | true ↦ some (cs, g ∷ gs)
    | false ↦ balance_loop fuel (pair_last cs g).0 (merge_down (pair_last cs g).1 gs)
  ]

  unfoldable pub balance_layer : Hasher → Option Hasher
  unfolding balance_loop rounds
  balance_layer h = balance_loop (rounds h.groups) h.chunks h.groups >>= λ r.
      some (record h { chunks = r.0; groups = r.1 })

  -- The second loop of ascendLayer. `1 << depth` is a uint64, and the table has 65 entries.
  unfoldable pub expand_loop : ℕ → ℕ → List Chunk → List Group → Option (List Chunk × List Group)
  expand_loop zero capacity cs gs = none
  expand_loop (suc fuel) capacity cs [] = none
  expand_loop (suc fuel) capacity cs (g ∷ gs) = elim (leb capacity (2 ^ g.depth % 2 ^ 64)) [
    | true ↦ some (cs, g ∷ gs)
    | false ↦ elim (leb g.depth 64) [
      | true ↦
          expand_loop fuel capacity (hash_last 2 (cs ++ (zero_cache g.depth ∷ [])))
            (record g { depth = g.depth + 1 } ∷ gs)
      | false ↦ none
    ]
  ]

  -- The end of ascendLayer: the root moves up a layer.
  unfoldable pub move_up : Hasher → List Chunk × List Group → Option Hasher
  unfolding insert_chunk
  move_up h (cs, []) = none
  move_up h (cs, g ∷ gs) = elim (drop (length cs - 1) cs) [
    | [] ↦ none
    | root ∷ _ ↦ some (
        insert_chunk root 0
          (record { chunks = take (length cs - 1) cs; groups = gs; layer = h.layer - 1 }))
  ]

  unfoldable pub ascend_layer : ℕ → Hasher → Option Hasher
  unfolding balance_layer expand_loop move_up
  ascend_layer capacity h =
      balance_layer h >>= λ b. expand_loop 66 capacity b.chunks b.groups >>= move_up b

  unfoldable pub ascend_mixin_layer : ℕ → ℕ → Hasher → Option Hasher
  unfolding ascend_layer insert_chunk
  ascend_mixin_layer size chunks h =
      let filled = if size == 0 then insert_chunk zero_chunk 0 h else h in
      ascend_layer chunks filled >>= λ inner.
      ascend_layer 0 (insert_chunk (pad_chunk (put_uint 8 size)) 0 inner)
