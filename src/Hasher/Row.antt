-- ===== src/Hasher/Row.antt =====
-- The reference for hasher.go: the rows of the Merkle tree over a list of chunks, bottom up. A row
-- of odd length is completed by the root of an all-zero tree.
use ssz.Base.{
  ℕ, zero, suc, ◌+◌, ◌/◌, ◌%◌, ◌≡◌, refl, ap, ◌∙◌, List, [], ◌∷◌, ◌++◌, length, length-append,
  arith,
}
use ssz.Hasher.{Chunk, Sha, zero_cache}

abbrev pub IsEven : ℕ → Type 0
IsEven n = n % 2 ≡ 0

module _ (sha : Sha) where
  open sha use {sum256, hash_chunks, hash_chunks-nil, hash_chunks-cons}

  unfoldable pub pair_up : Chunk → List Chunk → List Chunk
  pair_up z [] = []
  pair_up z (a ∷ []) = sum256 (a ++ z) ∷ []
  pair_up z (a ∷ b ∷ cs) = sum256 (a ++ b) ∷ pair_up z cs

  -- The nodes at height `d` over the leaves `xs`.
  unfoldable pub row : ℕ → List Chunk → List Chunk
  row zero xs = xs
  row (suc d) xs = pair_up (zero_cache sha d) (row d xs)

  -- The leaves fill their subtrees of height `d` with no zero tree.
  abbrev pub Exact : ℕ → List Chunk → Type 0
  Exact zero xs = Unit
  Exact (suc d) xs = Exact d xs × IsEven (length (row d xs))

  pub length-pair_up : (z : Chunk) (cs : List Chunk) → length (pair_up z cs) ≡ (length cs + 1) / 2
  unfolding pair_up
  length-pair_up z [] = omega arith
  length-pair_up z (a ∷ []) = omega arith
  length-pair_up z (a ∷ b ∷ cs) = omega (arith, length-pair_up z cs)

  pub pair_up-append :
      (z : Chunk) (us vs : List Chunk)
      → IsEven (length us)
      → pair_up z (us ++ vs) ≡ pair_up z us ++ pair_up z vs
  unfolding pair_up
  pair_up-append z [] vs h = refl
  pair_up-append z (a ∷ []) vs h = absurd (omega arith)
  pair_up-append z (a ∷ b ∷ us) vs h =
      ap (λ r. sum256 (a ++ b) ∷ r) (pair_up-append z us vs (omega arith))

  pub hash_chunks_even :
      (z : Chunk) (cs : List Chunk) → IsEven (length cs) → hash_chunks cs ≡ pair_up z cs
  unfolding pair_up
  hash_chunks_even z [] h = hash_chunks-nil
  hash_chunks_even z (a ∷ []) h = absurd (omega arith)
  hash_chunks_even z (a ∷ b ∷ cs) h =
      hash_chunks-cons a b cs ∙ ap (λ r. sum256 (a ++ b) ∷ r) (hash_chunks_even z cs (omega arith))

  pub hash_chunks_odd :
      (z : Chunk) (cs : List Chunk)
      → length cs % 2 ≡ 1
      → hash_chunks (cs ++ (z ∷ [])) ≡ pair_up z cs
  unfolding pair_up
  hash_chunks_odd z [] h = absurd (omega arith)
  hash_chunks_odd z (a ∷ []) h =
      hash_chunks-cons a z [] ∙ ap (λ r. sum256 (a ++ z) ∷ r) hash_chunks-nil
  hash_chunks_odd z (a ∷ b ∷ cs) h =
      hash_chunks-cons a b (cs ++ (z ∷ []))
      ∙ ap (λ r. sum256 (a ++ b) ∷ r) (hash_chunks_odd z cs (omega arith))

  pub row-append :
      (d : ℕ) (xs ys : List Chunk) → Exact d xs → row d (xs ++ ys) ≡ row d xs ++ row d ys
  unfolding row
  row-append zero xs ys h = refl
  row-append (suc d) xs ys (h, e) =
      ap (pair_up (zero_cache sha d)) (row-append d xs ys h)
      ∙ pair_up-append (zero_cache sha d) (row d xs) (row d ys) e

  pub length-row-append :
      (d : ℕ) (xs ys : List Chunk)
      → Exact d xs
      → length (row d (xs ++ ys)) ≡ length (row d xs) + length (row d ys)
  length-row-append d xs ys h =
      ap length (row-append d xs ys h) ∙ length-append (row d xs) (row d ys)

  pub Exact-append : (d : ℕ) (xs ys : List Chunk) → Exact d xs → Exact d ys → Exact d (xs ++ ys)
  Exact-append zero xs ys h k = tt
  Exact-append (suc d) xs ys (h, e) (k, f) =
      (Exact-append d xs ys h k, omega (arith, length-row-append d xs ys h))

  pub length-row-suc :
      (d : ℕ) (xs : List Chunk) → length (row (suc d) xs) ≡ (length (row d xs) + 1) / 2
  unfolding row
  length-row-suc d xs = length-pair_up (zero_cache sha d) (row d xs)
