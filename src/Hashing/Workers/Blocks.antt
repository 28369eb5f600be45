-- ===== src/Hashing/Workers/Blocks.antt =====
-- hasher.go: the results of the workers, inserted one after another, stand for the leaves of them all.
use ssz.Base.{
  ℕ, zero, suc, ◌^◌, ◌≤◌, ◌≡◌, refl, sym, ap, ◌∙◌, List, [], ◌∷◌, ◌++◌, append_assoc, length,
  length-take, length-drop, take, drop, arith,
}
use ssz.Hasher.{Chunk, Sha, Group, insert_chunk}
use ssz.Hasher.Row.{row}
use ssz.Hasher.Segments.{Seg, leaves_of, Below, Pending}
use ssz.Hasher.Insert.{insert_seg, leaves-insert, insert-Pending}
use ssz.Hasher.Balance.{Loose}
use ssz.Hasher.Merkle.{state, insert_chunk-state}
use ssz.Hasher.Blocks.{IsTop, whole_top, part_top, insert-Loose}
use ssz.Hashing.Workers.{Slot, insert_slots}

module _ {A : Type 0} where
  pub take_all : (n : ℕ) (xs : List A) → length xs ≤ n → take n xs ≡ xs
  take_all zero [] h = refl
  take_all zero (x ∷ xs) h = absurd (omega arith)
  take_all (suc n) [] h = refl
  take_all (suc n) (x ∷ xs) h = ap (λ r. x ∷ r) (take_all n xs (omega arith))

  pub take-drop : (n : ℕ) (xs : List A) → take n xs ++ drop n xs ≡ xs
  take-drop zero xs = refl
  take-drop (suc n) [] = refl
  take-drop (suc n) (x ∷ xs) = ap (λ r. x ∷ r) (take-drop n xs)

module _ (sha : Sha) where
  -- The list falls into blocks of `size`, the last of which may be shorter, with the tops `slots`.
  abbrev pub Tops : ℕ → List Chunk → List Slot → Type 0
  Tops size xs [] = xs ≡ []
  Tops size xs (s ∷ slots) =
      (1 ≤ length xs) × IsTop sha (take size xs) s × Tops size (drop size xs) slots

  module _ (layer : ℕ) (outer : List Group) (base : List Chunk) (below : Below layer outer)
      (k : ℕ) where
    abbrev Stands : List Chunk → List Slot → List Seg → Type 0
    Stands xs slots ss =
        (t : Seg) × (ts : List Seg) × Loose sha t ts
        × (leaves_of (t ∷ ts) ≡ leaves_of ss ++ xs)
        × (insert_slots sha slots (state sha layer outer base ss)
            ≡ state sha layer outer base (t ∷ ts))

    last_block :
        (xs : List Chunk) (s : Slot) (ss : List Seg)
        → length xs ≤ 2 ^ k
        → IsTop sha xs s
        → Pending sha k ss
        → Stands xs (s ∷ []) ss
    unfolding insert_slots
    last_block xs (c, d) ss few (top, least) p =
        let (t, ts, made, loose) =
          insert-Loose sha k d xs c (part_top sha k xs (c, d) few (top, least)) (top, least) ss p in
        (
          t,
          ts,
          loose,
          ap leaves_of (sym made) ∙ leaves-insert sha d xs ss,
          insert_chunk-state sha layer outer base d xs c top k ss below p
              ∙ ap (state sha layer outer base) made,
        )

    pub insert_slots-blocks :
        (slots : List Slot) (xs : List Chunk) (s : Slot) (ss : List Seg)
        → Tops (2 ^ k) xs (s ∷ slots)
        → Pending sha k ss
        → Stands xs (s ∷ slots) ss
    unfolding insert_slots
    insert_slots-blocks [] xs s ss (some_, top, end) p =
        let few : length xs ≤ 2 ^ k = omega (arith, length-drop (2 ^ k) xs, ap length end) in
        last_block xs s ss few (rw (take_all (2 ^ k) xs few) at top) p
    insert_slots-blocks (s' ∷ slots) xs s ss (some_, top, (more, next, rest)) p =
        let full : length (take (2 ^ k) xs) ≡ 2 ^ k =
          omega (arith, length-drop (2 ^ k) xs, length-take (2 ^ k) xs) in
        let (deep, exact) = whole_top sha k (take (2 ^ k) xs) s full top in
        let node : row sha k (take (2 ^ k) xs) ≡ s.0 ∷ [] =
          ap (λ d. row sha d (take (2 ^ k) xs)) (sym deep) ∙ top.0 in
        let (t, ts, loose, leaves, run) =
          insert_slots-blocks slots (drop (2 ^ k) xs) s' (insert_seg sha k (take (2 ^ k) xs) ss)
            (more, next, rest) (insert-Pending sha k (take (2 ^ k) xs) s.0 node ss exact p) in
        (
          t,
          ts,
          loose,
          leaves
              ∙ ap (λ r. r ++ drop (2 ^ k) xs) (leaves-insert sha k (take (2 ^ k) xs) ss)
              ∙ append_assoc (leaves_of ss) (take (2 ^ k) xs) (drop (2 ^ k) xs)
              ∙ ap (λ r. leaves_of ss ++ r) (take-drop (2 ^ k) xs),
          ap
                (λ d.
                  insert_slots sha (s' ∷ slots)
                    (insert_chunk sha s.0 d (state sha layer outer base ss)))
                deep
              ∙ ap (insert_slots sha (s' ∷ slots)) (
                  insert_chunk-state sha layer outer base k (take (2 ^ k) xs) s.0 node k ss below p)
              ∙ run,
        )
