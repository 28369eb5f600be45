-- ===== src/Hashing/Lists.antt =====
-- hasher.go: the roots of lists of byte strings and of objects.
use ssz.Base.{
  ℕ, ◌+◌, ◌≤◌, ◌<◌, ◌≡◌, ◌≢◌, ◌⊎◌, inl, inr, ◌^◌, refl, sym, ap, ◌∙◌, List, [], ◌∷◌, ◌++◌, length,
  All, arith, Option, some, ◌>>=◌,
}
use ssz.Base.Words.{put_uint}
use ssz.Hasher.{
  Chunk, Sha, Hasher, pad_chunk, insert_chunk, insert_chunks, descend_layer, descend_mixin_layer,
  ascend_layer, ascend_mixin_layer,
}
use ssz.Hasher.Ascend.{IsRoot, max_chunks}
use ssz.Hasher.Merkle.{IsOpen, ascend-merkleizes}
use ssz.Hasher.Mixin.{filled, ascend_mixin-merkleizes, descend-IsOpen, descend_mixin-IsOpen}
use ssz.Hashing.{
  hash_all, hash_bytes, hash_dynamic_bytes, hash_slice_of_static_bytes, hash_slice_of_dynamic_bytes,
}
use ssz.Hashing.Pack.{packed, chunk_count}
use ssz.Hashing.Roots.{hash_bytes-merkleizes, hash_dynamic_bytes-merkleizes}
use ssz.Hashing.Objects.{hash_object, hash_slice_of_dynamic_objects}
use ssz.Hashing.Each.{Each, hash_all-Each}

module _ (sha : Sha) where
  -- The length as it is mixed in.
  abbrev pub length_chunk : ℕ → Chunk
  length_chunk n = pad_chunk (put_uint 8 n)

  -- The hash of the root over `rs` with room for `capacity` of them, and of their number.
  abbrev pub ListRoot : ℕ → List Chunk → Chunk → Type 0
  ListRoot capacity rs c =
      (r : Chunk) × IsRoot sha capacity (filled sha rs) r
      × (c ≡ sha.sum256 (r ++ length_chunk (length rs)))

  -- The hash of the root of the chunks of a blob of at most `max_size` bytes, and of its length.
  abbrev pub BlobRoot : ℕ → List ℕ → Chunk → Type 0
  BlobRoot max_size b c =
      (r : Chunk) × IsRoot sha (chunk_count max_size) (filled sha (packed b)) r
      × (c ≡ sha.sum256 (r ++ length_chunk (length b)))

  module _ {A : Type 0} (hash : A → Hasher → Option Hasher) (P : A → Chunk → Type 0) where
    list_root :
        (items : List A) (max_items : ℕ) (h : Hasher)
        → All
            (λ a.
              (h : Hasher)
              → IsOpen h
              → (r : Chunk) × P a r × (hash a h ≡ some (insert_chunk sha r 0 h)))
            items
        → IsOpen h
        → length items ≤ max_chunks
        → max_items ≤ max_chunks
        → (rs : List Chunk) × (c : Chunk) × Each sha P items rs
          × ListRoot max_items rs c
          × ((hash_all hash items (descend_mixin_layer h)
                >>= ascend_mixin_layer sha (length items) max_items)
              ≡ some (insert_chunk sha c 0 h))
    list_root items max_items h steps o few small =
        let (rs, each, count, run) =
          hash_all-Each sha hash P items (descend_mixin_layer h) steps
            (descend_mixin-IsOpen sha h o) in
        let (r, root, ends) =
          ascend_mixin-merkleizes sha (length items) max_items rs h o
            (sized (length items) rs count) (omega arith) small in
        (
          rs,
          sha.sum256 (r ++ length_chunk (length rs)),
          each,
          (r, root, refl),
          ap (λ m. m >>= ascend_mixin_layer sha (length items) max_items) run
              ∙ ends
              ∙ ap (λ n. some (insert_chunk sha (sha.sum256 (r ++ length_chunk n)) 0 h))
                  (sym count),
        )
      where
        sized :
            (n : ℕ) (rs : List Chunk)
            → length rs ≡ n
            → (n ≡ 0) × (rs ≡ []) ⊎ (n ≢ 0) × (1 ≤ length rs)
        sized n [] e = inl (sym e, refl)
        sized n (r ∷ rs) e = inr (omega arith, omega arith)

  each_static :
      (blobs : List (List ℕ))
      → All (λ b. length b ≤ max_chunks) blobs
      → All
          (λ b.
            (h : Hasher)
            → IsOpen h
            → (r : Chunk) × IsRoot sha 0 (filled sha (packed b)) r
              × (hash_bytes sha b h ≡ some (insert_chunk sha r 0 h)))
          blobs
  each_static [] short = tt
  each_static (b ∷ bs) (short, shorts) =
      ((λ h o. hash_bytes-merkleizes sha b h o short), each_static bs shorts)

  -- A list of static byte strings adds the hash of its length and of the root, at the capacity of
  -- `max_items`, over the roots of its elements. The list, its elements and the capacity are at most
  -- 2^63, and no pending group is of a later layer.
  pub hash_slice_of_static_bytes-merkleizes :
      (blobs : List (List ℕ)) (max_items : ℕ) (h : Hasher)
      → IsOpen h
      → All (λ b. length b ≤ max_chunks) blobs
      → length blobs ≤ max_chunks
      → max_items ≤ max_chunks
      → (rs : List Chunk) × (c : Chunk) × Each sha
          (λ b r. IsRoot sha 0 (filled sha (packed b)) r)
          blobs
          rs
        × ListRoot max_items rs c
        × (hash_slice_of_static_bytes sha blobs max_items h ≡ some (insert_chunk sha c 0 h))
  unfolding hash_slice_of_static_bytes
  hash_slice_of_static_bytes-merkleizes blobs max_items h o short few small =
      list_root (hash_bytes sha) (λ b r. IsRoot sha 0 (filled sha (packed b)) r) blobs max_items h
        (each_static blobs short) o few small

  dynamic_root :
      (max_size : ℕ) (b : List ℕ)
      → length b ≤ max_chunks
      → max_size + 31 < 2 ^ 64
      → (h : Hasher) → IsOpen h
      → (c : Chunk) × BlobRoot max_size b c
        × (hash_dynamic_bytes sha b max_size h ≡ some (insert_chunk sha c 0 h))
  dynamic_root max_size b short fits h o =
      let (r, root, run) = hash_dynamic_bytes-merkleizes sha b max_size h o short fits in
      (sha.sum256 (r ++ length_chunk (length b)), (r, root, refl), run)

  each_dynamic :
      (max_size : ℕ) (blobs : List (List ℕ))
      → All (λ b. length b ≤ max_chunks) blobs
      → max_size + 31 < 2 ^ 64
      → All
          (λ b.
            (h : Hasher)
            → IsOpen h
            → (c : Chunk) × BlobRoot max_size b c
              × (hash_dynamic_bytes sha b max_size h ≡ some (insert_chunk sha c 0 h)))
          blobs
  each_dynamic max_size [] short fits = tt
  each_dynamic max_size (b ∷ bs) (short, shorts) fits =
      (dynamic_root max_size b short fits, each_dynamic max_size bs shorts fits)

  -- A list of dynamic byte strings adds the hash of its length and of the root, at the capacity of
  -- `max_items`, over the roots of its elements, each with its length mixed in at the capacity of
  -- `max_size` bytes. The list, its elements and the capacity are at most 2^63, `max_size` + 31 does
  -- not wrap, and no pending group is of a later layer.
  pub hash_slice_of_dynamic_bytes-merkleizes :
      (blobs : List (List ℕ)) (max_items max_size : ℕ) (h : Hasher)
      → IsOpen h
      → All (λ b. length b ≤ max_chunks) blobs
      → length blobs ≤ max_chunks
      → max_items ≤ max_chunks
      → max_size + 31 < 2 ^ 64
      → (rs : List Chunk) × (c : Chunk) × Each sha (BlobRoot max_size) blobs rs
        × ListRoot max_items rs c
        × (hash_slice_of_dynamic_bytes sha blobs max_items max_size h
            ≡ some (insert_chunk sha c 0 h))
  unfolding hash_slice_of_dynamic_bytes
  hash_slice_of_dynamic_bytes-merkleizes blobs max_items max_size h o short few small fits =
      list_root (λ b. hash_dynamic_bytes sha b max_size) (BlobRoot max_size) blobs max_items h
        (each_dynamic max_size blobs short fits) o few small

  module _ {A : Type 0} (define : A → Hasher → Option Hasher) (fields : A → List Chunk) where
    -- DefineSSZ adds the chunks `fields obj`, of which there are at least one and at most 2^63, to
    -- every hasher that has no pending group of a later layer.
    abbrev pub Defines : A → Type 0
    Defines obj =
        ((h : Hasher) → IsOpen h → define obj h ≡ some (insert_chunks sha (fields obj) h))
        × (1 ≤ length (fields obj))
        × (length (fields obj) ≤ max_chunks)

    pub hash_object-merkleizes :
        (obj : A)
        → Defines obj
        → (h : Hasher) → IsOpen h
        → (r : Chunk) × IsRoot sha 0 (fields obj) r
          × (hash_object sha define obj h ≡ some (insert_chunk sha r 0 h))
    unfolding hash_object
    hash_object-merkleizes obj (adds, filled_, few) h o =
        let (r, root, ends) = ascend-merkleizes sha 0 (fields obj) h o filled_ few (omega arith) in
        (
          r,
          root,
          ap (λ m. m >>= ascend_layer sha 0) (adds (descend_layer h) (descend-IsOpen sha h o))
              ∙ ends,
        )

    each_object :
        (objects : List A)
        → All Defines objects
        → All
            (λ obj.
              (h : Hasher)
              → IsOpen h
              → (r : Chunk) × IsRoot sha 0 (fields obj) r
                × (hash_object sha define obj h ≡ some (insert_chunk sha r 0 h)))
            objects
    each_object [] all = tt
    each_object (obj ∷ objects) (one, all) =
        (hash_object-merkleizes obj one, each_object objects all)

    -- If the DefineSSZ of each object adds the chunks of its fields, 1 to 2^63 of them, to every hasher
    -- that has no pending group of a later layer, then a list of dynamic objects adds the hash of its length and of the root, at the capacity of `max_items`,
    -- over the roots of the objects' chunks. The list and the capacity are at most 2^63, and no
    -- pending group is of a later layer.
    pub hash_slice_of_dynamic_objects-merkleizes :
        (objects : List A) (max_items : ℕ) (h : Hasher)
        → All Defines objects
        → IsOpen h
        → length objects ≤ max_chunks
        → max_items ≤ max_chunks
        → (rs : List Chunk) × (c : Chunk) × Each sha
            (λ obj r. IsRoot sha 0 (fields obj) r)
            objects
            rs
          × ListRoot max_items rs c
          × (hash_slice_of_dynamic_objects sha define objects max_items h
              ≡ some (insert_chunk sha c 0 h))
    unfolding hash_slice_of_dynamic_objects
    hash_slice_of_dynamic_objects-merkleizes objects max_items h all o few small =
        list_root (hash_object sha define) (λ obj r. IsRoot sha 0 (fields obj) r) objects max_items
          h (each_object objects all) o few small
