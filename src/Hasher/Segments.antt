-- ===== src/Hasher/Segments.antt =====
-- The pending groups of one layer, each with the leaves that it stands for: the ghost state by
-- which the accumulator of hasher.go is compared with the rows of a tree. The newest is the head.
use ssz.Base.{
  ℕ, suc, ◌+◌, ◌-◌, ◌/◌, ◌≤◌, ◌<◌, ◌≡◌, ◌⊎◌, sym, ap, ap₂, ◌∙◌, List, [], ◌∷◌, ◌++◌, append_assoc,
  length, length-append, take-append, drop-append, All, ◌==◌, if◌then◌else◌, arith,
}
use ssz.Hasher.{Chunk, Sha, Group, raise, join, hash_last, zero_cache}
use ssz.Hasher.Row.{
  IsEven, row, Exact, row-append, length-row-append, length-row-suc, hash_chunks_even,
  hash_chunks_odd,
}

pub record Seg : Type 0 where
  pub depth : ℕ
  pub leaves : List Chunk

abbrev pub raise_seg : Seg → Seg
raise_seg s = record s { depth = suc s.depth }

abbrev pub join_seg : Seg → Seg → Seg
join_seg p s = record p { leaves = p.leaves ++ s.leaves }

abbrev pub leaves_of : List Seg → List Chunk
leaves_of [] = []
leaves_of (s ∷ ss) = leaves_of ss ++ s.leaves

-- Groups of lower layers, which the present layer does not touch.
abbrev pub Below : ℕ → List Group → Type 0
Below layer gs = All (λ g. g.layer < layer) gs

unfoldable pub carry : Seg → List Seg → List Seg
carry s [] = raise_seg s ∷ []
carry s (p ∷ ss) =
    let more = carry (join_seg p (raise_seg s)) ss in
    if p.depth == s.depth + 1 then more else raise_seg s ∷ p ∷ ss

module _ (sha : Sha) where
  abbrev pub count : Seg → ℕ
  count s = length (row sha s.depth s.leaves)

  abbrev pub group_of : ℕ → Seg → Group
  group_of layer s = record { layer = layer; depth = s.depth; chunks = count s }

  abbrev pub chunks_of : List Chunk → List Seg → List Chunk
  chunks_of base [] = base
  chunks_of base (s ∷ ss) = chunks_of base ss ++ row sha s.depth s.leaves

  abbrev pub groups_of : ℕ → List Group → List Seg → List Group
  groups_of layer outer [] = outer
  groups_of layer outer (s ∷ ss) = group_of layer s ∷ groups_of layer outer ss

  -- Groups that wait for a batch of their own size: four chunks each, deeper and deeper.
  abbrev pub Waiting : ℕ → List Seg → Type 0
  Waiting d [] = Unit
  Waiting d (p ∷ ss) =
      (d < p.depth) × Exact sha p.depth p.leaves × (count p ≡ 4) × Waiting p.depth ss

  -- The newest group has four chunks too, unless it is one of fewer than eight of the depth `k` at
  -- which chunks are inserted.
  abbrev pub Pending : ℕ → List Seg → Type 0
  Pending k [] = Unit
  Pending k (s ∷ ss) =
      (k ≤ s.depth)
      × Exact sha s.depth s.leaves
      × ((count s ≡ 4) ⊎ ((s.depth ≡ k) × (1 ≤ count s) × (count s < 8)))
      × Waiting s.depth ss

  pub hash_last-append :
      (k : ℕ) (pre cs : List Chunk)
      → length cs ≡ k
      → hash_last sha k (pre ++ cs) ≡ pre ++ sha.hash_chunks cs
  unfolding hash_last
  hash_last-append k pre cs h =
      let cut : length pre ≡ length (pre ++ cs) - k = omega (arith, length-append pre cs) in
      ap₂ ◌++◌ (take-append (length (pre ++ cs) - k) pre cs cut)
        (ap sha.hash_chunks (drop-append (length (pre ++ cs) - k) pre cs cut))

  pub hash_last-row :
      (k d : ℕ) (pre xs : List Chunk)
      → length (row sha d xs) ≡ k
      → IsEven k
      → hash_last sha k (pre ++ row sha d xs) ≡ pre ++ row sha (suc d) xs
  hash_last-row k d pre xs h e =
      hash_last-append k pre (row sha d xs) h
      ∙ ap (λ r. pre ++ r)
          (unfold row in hash_chunks_even sha (zero_cache sha d) (row sha d xs) (omega arith))

  pub hash_last-row_odd :
      (k d : ℕ) (pre xs : List Chunk)
      → length (row sha d xs) + 1 ≡ k
      → IsEven k
      → hash_last sha k ((pre ++ row sha d xs) ++ (zero_cache sha d ∷ []))
        ≡ pre ++ row sha (suc d) xs
  hash_last-row_odd k d pre xs h e =
      ap (hash_last sha k) (append_assoc pre (row sha d xs) (zero_cache sha d ∷ []))
      ∙ hash_last-append k pre (row sha d xs ++ (zero_cache sha d ∷ []))
          (omega (arith, length-append (row sha d xs) (zero_cache sha d ∷ [])))
      ∙ ap (λ r. pre ++ r)
          (unfold row in hash_chunks_odd sha (zero_cache sha d) (row sha d xs) (omega arith))

  -- A hashed group joins the one under it.
  pub join-chunks :
      (base : List Chunk) (p s : Seg) (ss : List Seg)
      → Exact sha p.depth p.leaves
      → p.depth ≡ suc s.depth
      → chunks_of base (p ∷ ss) ++ row sha (suc s.depth) s.leaves
        ≡ chunks_of base (join_seg p (raise_seg s) ∷ ss)
  join-chunks base p s ss exact e =
      append_assoc (chunks_of base ss) (row sha p.depth p.leaves) (row sha (suc s.depth) s.leaves)
      ∙ ap (λ r. chunks_of base ss ++ r)
          (ap (λ d. row sha p.depth p.leaves ++ row sha d s.leaves) (sym e)
            ∙ sym (row-append sha p.depth p.leaves s.leaves exact))

  pub count-raise : (s : Seg) → count (raise_seg s) ≡ (count s + 1) / 2
  count-raise s = length-row-suc sha s.depth s.leaves

  pub count-join :
      (p s : Seg)
      → Exact sha p.depth p.leaves
      → p.depth ≡ suc s.depth
      → count (join_seg p (raise_seg s)) ≡ count p + count (raise_seg s)
  count-join p s exact e =
      length-row-append sha p.depth p.leaves s.leaves exact
      ∙ ap (λ d. count p + length (row sha d s.leaves)) e

  pub raise-group :
      (layer : ℕ) (s : Seg)
      → IsEven (count s)
      → raise (group_of layer s) ≡ group_of layer (raise_seg s)
  raise-group layer s h = ground (arith, count-raise s)

  pub join-group :
      (layer : ℕ) (p s : Seg)
      → Exact sha p.depth p.leaves
      → p.depth ≡ suc s.depth
      → join (group_of layer p) (group_of layer (raise_seg s))
        ≡ group_of layer (join_seg p (raise_seg s))
  join-group layer p s exact e = ground (arith, count-join p s exact e)
