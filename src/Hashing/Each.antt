-- ===== src/Hashing/Each.antt =====
-- hasher.go, the loops over lists: each item adds its root to the present layer.
use ssz.Base.{
  ℕ, suc, ◌+◌, ◌<◌, ◌≡◌, refl, ap, ◌∙◌, List, [], ◌∷◌, ◌++◌, length, All, ◌==◌, if-both, arith,
  Option, some, ◌>>=◌, ◌&&◌,
}
use ssz.Hasher.{
  Chunk, Sha, Group, Hasher, raise, join, add_one, same_level, hasher_batch, hash_last, collapse,
  insert_into, insert_chunk, insert_chunks,
}
use ssz.Hasher.Segments.{Below}
use ssz.Hasher.Merkle.{IsOpen}
use ssz.Hashing.{hash_all}

abbrev GroupsBelow : ℕ → List Chunk × List Group → Type 0
GroupsBelow limit (cs, gs) = Below limit gs

module _ (sha : Sha) where
  collapse-Below :
      (limit : ℕ) (cs : List Chunk) (g : Group) (gs : List Group)
      → g.layer < limit
      → Below limit gs
      → Below limit (collapse sha cs g gs).1
  unfolding collapse
  collapse-Below limit cs g [] low b = (low, tt)
  collapse-Below limit cs g (p ∷ gs) low (next, b) =
      if-both (GroupsBelow limit) (same_level p (raise g))
        (collapse-Below limit (hash_last sha hasher_batch cs) (join p (raise g)) gs next b)
        (low, (next, b))

  insert_into-Below :
      (limit : ℕ) (cs : List Chunk) (layer depth : ℕ) (gs : List Group)
      → layer < limit
      → Below limit gs
      → Below limit (insert_into sha cs layer depth gs).1
  unfolding insert_into
  insert_into-Below limit cs layer depth [] low b = (low, tt)
  insert_into-Below limit cs layer depth (g ∷ gs) low (next, b) =
      if-both (GroupsBelow limit) (g.layer == layer && g.depth == depth)
        (if-both (GroupsBelow limit) (g.chunks + 1 == hasher_batch)
          (collapse-Below limit cs (add_one g) gs next b) (next, b))
        (low, (next, b))

  pub insert_chunk-IsOpen : (c : Chunk) (h : Hasher) → IsOpen h → IsOpen (insert_chunk sha c 0 h)
  unfolding insert_chunk
  insert_chunk-IsOpen c h o =
      insert_into-Below (h.layer + 1) (h.chunks ++ (c ∷ [])) h.layer 0 h.groups (omega arith) o

  -- Item by item, `P` holds of the item and of its root.
  abbrev pub Each : {A : Type 0} → (A → Chunk → Type 0) → List A → List Chunk → Type 0
  Each P [] [] = Unit
  Each P [] (r ∷ rs) = ⊥
  Each P (a ∷ items) [] = ⊥
  Each P (a ∷ items) (r ∷ rs) = P a r × Each P items rs

  module _ {A : Type 0} (hash : A → Hasher → Option Hasher) (P : A → Chunk → Type 0) where
    -- An operation that adds a root for each of the items adds the list of roots.
    pub hash_all-Each :
        (items : List A) (h : Hasher)
        → All
            (λ a.
              (h : Hasher)
              → IsOpen h
              → (r : Chunk) × P a r × (hash a h ≡ some (insert_chunk sha r 0 h)))
            items
        → IsOpen h
        → (rs : List Chunk) × Each P items rs
          × (length rs ≡ length items)
          × (hash_all hash items h ≡ some (insert_chunks sha rs h))
    unfolding hash_all insert_chunks
    hash_all-Each [] h steps o = ([], tt, refl, refl)
    hash_all-Each (a ∷ items) h (step, steps) o =
        let (r, holds, run) = step h o in
        let (rs, each, count, runs) =
          hash_all-Each items (insert_chunk sha r 0 h) steps (insert_chunk-IsOpen r h o) in
        (r ∷ rs, (holds, each), ap suc count, ap (λ m. m >>= hash_all hash items) run ∙ runs)
