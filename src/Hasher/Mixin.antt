-- ===== src/Hasher/Mixin.antt =====
-- A layer of hasher.go with a length mixed in, and the root that a list of leaves determines.
use ssz.Base.{
  ℕ, zero, suc, ◌+◌, ◌-◌, ◌^◌, ◌≤◌, ◌<◌, ◌≡◌, ◌≢◌, ◌⊎◌, refl, ap, ◌∙◌, inl, inr, List, [], ◌∷◌,
  ◌++◌, length, All, ◌==◌, ==_iff, ==_false, if◌then◌else◌, arith, some,
}
use native.Mathlib.Nat.{add-zero, add-suc}
use native.Mathlib.Decide.{dec_le}
use ssz.Base.Words.{put_uint}
use ssz.Hasher.{
  Chunk, Sha, Group, Hasher, zero_chunk, pad_chunk, ascend_layer, ascend_mixin_layer, insert_chunk,
  insert_chunks, descend_layer, descend_mixin_layer,
}
use ssz.Hasher.Row.{row, pair_up, length-row-suc}
use ssz.Hasher.Ascend.{IsRoot, LeastFor, max_chunks, pow-le}
use ssz.Hasher.Merkle.{IsOpen, ascend-merkleizes}

module _ (sha : Sha) where
  row_mono :
      (d k : ℕ) (xs : List Chunk) → length (row sha d xs) ≤ 1 → length (row sha (d + k) xs) ≤ 1
  row_mono d zero xs h = rw add-zero h
  row_mono d (suc k) xs h =
      rw add-suc (omega (arith, row_mono d k xs h, length-row-suc sha (d + k) xs))

  pub LeastFor-least :
      (e d capacity : ℕ) (xs : List Chunk)
      → length (row sha d xs) ≤ 1
      → capacity ≤ 2 ^ d
      → LeastFor sha e capacity xs
      → e ≤ d
  LeastFor-least zero d capacity xs one fits least = omega arith
  LeastFor-least (suc e) d capacity xs one fits least = elim (dec_le d e) [
    | yes below ↦
        let split : d + (e - d) ≡ e = omega arith in
        absurd (omega (arith, pow-le below, rw split at (row_mono d (e - d) xs one)))
    | no above ↦ omega arith
  ]

  IsRoot-depth :
      (capacity : ℕ) (xs : List Chunk) (r q : Chunk) (a : IsRoot sha capacity xs r)
      (b : IsRoot sha capacity xs q)
      → a.depth ≡ b.depth
  IsRoot-depth capacity xs r q a b = omega (
    arith,
    LeastFor-least a.depth b.depth capacity xs (omega (arith, ap length b.top)) b.fits a.least,
    LeastFor-least b.depth a.depth capacity xs (omega (arith, ap length a.top)) a.fits b.least,
  )

  -- Two roots of the least trees over the same leaves with room for the same capacity are equal.
  pub IsRoot-unique :
      (capacity : ℕ) (xs : List Chunk) (r q : Chunk)
      → IsRoot sha capacity xs r
      → IsRoot sha capacity xs q
      → r ≡ q
  IsRoot-unique capacity xs r q a b =
      cc (a.top, b.top, ap (λ d. row sha d xs) (IsRoot-depth capacity xs r q a b))

  pub IsRoot-pair : (a b r : Chunk) → IsRoot sha 0 (a ∷ b ∷ []) r → r ≡ sha.sum256 (a ++ b)
  unfolding row pair_up
  IsRoot-pair a b r root =
      IsRoot-unique 0 (a ∷ b ∷ []) r (sha.sum256 (a ++ b)) root
        (record { depth = 1; top = refl; fits = omega arith; least = inl (omega arith) })

  -- The chunks that ascendMixinLayer closes over: an empty list counts as one zero chunk.
  abbrev pub filled : List Chunk → List Chunk
  filled [] = zero_chunk ∷ []
  filled (x ∷ xs) = x ∷ xs

  descend_twice : (h : Hasher) → descend_mixin_layer h ≡ descend_layer (descend_layer h)
  unfolding descend_layer descend_mixin_layer
  descend_twice h = ap (λ n. record h { layer = n }) (omega arith)

  pub descend-IsOpen : (h : Hasher) → IsOpen h → IsOpen (descend_layer h)
  unfolding descend_layer
  descend-IsOpen h o = raise_bound h.groups o
    where
      raise_bound :
          (gs : List Group)
          → All (λ g. g.layer < h.layer + 1) gs
          → All (λ g. g.layer < h.layer + 1 + 1) gs
      raise_bound [] b = tt
      raise_bound (g ∷ gs) (low, b) = (omega arith, raise_bound gs b)

  pub descend_mixin-IsOpen : (h : Hasher) → IsOpen h → IsOpen (descend_mixin_layer h)
  descend_mixin-IsOpen h o =
      rw (descend_twice h) (descend-IsOpen (descend_layer h) (descend-IsOpen h o))

  mixin-filled :
      (size : ℕ) (xs : List Chunk) (h : Hasher)
      → (size ≡ 0) × (xs ≡ []) ⊎ (size ≢ 0) × (1 ≤ length xs)
      → (if size == 0
          then insert_chunk sha zero_chunk 0 (insert_chunks sha xs h)
          else insert_chunks sha xs h)
        ≡ insert_chunks sha (filled xs) h
  unfolding insert_chunks
  mixin-filled size [] h (inl (e, f)) = rw ((==_iff _ _).1 e)
  mixin-filled size [] h (inr (e, f)) = absurd (omega arith)
  mixin-filled size (x ∷ xs) h (inl (e, f)) = cc
  mixin-filled size (x ∷ xs) h (inr (e, f)) = rw (==_false _ _ e)

  mixin-run :
      (size chunks : ℕ) (h inner h' : Hasher)
      → ascend_layer sha chunks (if size == 0 then insert_chunk sha zero_chunk 0 h else h)
        ≡ some inner
      → ascend_layer sha 0 (insert_chunk sha (pad_chunk (put_uint 8 size)) 0 inner) ≡ some h'
      → ascend_mixin_layer sha size chunks h ≡ some h'
  unfolding ascend_mixin_layer
  mixin-run size chunks h inner h' p q = rw p q

  two_chunks :
      (a b : Chunk) (h : Hasher)
      → insert_chunk sha b 0 (insert_chunk sha a 0 h) ≡ insert_chunks sha (a ∷ b ∷ []) h
  unfolding insert_chunks
  two_chunks a b h = refl

  filled-length :
      (xs : List Chunk)
      → (1 ≤ length (filled xs)) × (length xs ≤ max_chunks → length (filled xs) ≤ max_chunks)
  filled-length [] = omega arith
  filled-length (x ∷ xs) = omega arith

  -- The second half of ascendMixinLayer, on the root that the first half left.
  pub ascend_mixin-inner :
      (size capacity : ℕ) (h h' : Hasher) (r : Chunk)
      → IsOpen h
      → ascend_layer sha capacity (if size == 0 then insert_chunk sha zero_chunk 0 h' else h')
        ≡ some (insert_chunk sha r 0 (descend_layer h))
      → ascend_mixin_layer sha size capacity h'
        ≡ some (insert_chunk sha (sha.sum256 (r ++ pad_chunk (put_uint 8 size))) 0 h)
  ascend_mixin-inner size capacity h h' r open_ inner =
      let (q, pair, outer) =
        ascend-merkleizes sha 0 (r ∷ pad_chunk (put_uint 8 size) ∷ []) h open_ (omega arith)
          (omega arith) (omega arith) in
      mixin-run size capacity h' (insert_chunk sha r 0 (descend_layer h)) _ inner (
        ap (ascend_layer sha 0) (two_chunks r (pad_chunk (put_uint 8 size)) (descend_layer h))
        ∙ outer
        ∙ ap (λ c. some (insert_chunk sha c 0 h))
            (IsRoot-pair r (pad_chunk (put_uint 8 size)) q pair))

  -- A mixin layer adds to the layer above the hash of the root of its chunks, at the capacity given,
  -- and of the size as a chunk. An empty list, which is what the size 0 stands for, has the root of a
  -- single zero chunk. The chunks and the capacity are at most 2^63, and no pending group is of a
  -- later layer.
  pub ascend_mixin-merkleizes :
      (size capacity : ℕ) (xs : List Chunk) (h : Hasher)
      → IsOpen h
      → (size ≡ 0) × (xs ≡ []) ⊎ (size ≢ 0) × (1 ≤ length xs)
      → length xs ≤ max_chunks
      → capacity ≤ max_chunks
      → (r : Chunk) × IsRoot sha capacity (filled xs) r
        × (ascend_mixin_layer sha size capacity (insert_chunks sha xs (descend_mixin_layer h))
            ≡ some (insert_chunk sha (sha.sum256 (r ++ pad_chunk (put_uint 8 size))) 0 h))
  ascend_mixin-merkleizes size capacity xs h open_ sized few small =
      let (r, root, inner) =
        ascend-merkleizes sha capacity (filled xs) (descend_layer h) (descend-IsOpen h open_)
          (filled-length xs).0 ((filled-length xs).1 few) small in
      (
        r,
        root,
        ascend_mixin-inner size capacity h _ r open_ (
            ap (ascend_layer sha capacity) (
              mixin-filled size xs (descend_mixin_layer h) sized
              ∙ ap (insert_chunks sha (filled xs)) (descend_twice h))
            ∙ inner),
      )
