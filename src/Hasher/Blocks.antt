-- ===== src/Hasher/Blocks.antt =====
-- insertChunk of hasher.go on the roots of blocks of leaves, all of 2^k leaves but the last: the groups
-- that it leaves stand for the leaves of the blocks, as if these had been inserted one by one.
use ssz.Base.{ℕ, zero, suc, ◌+◌, ◌*◌, ◌^◌, ◌≤◌, ◌≡◌, refl, ap, List, [], ◌∷◌, length, arith}
use native.Mathlib.Decide.{ℕ_discrete}
use native.Mathlib.Nat.{pow-suc}
use ssz.Hasher.{Chunk, Sha}
use ssz.Hasher.Row.{row, Exact, length-row-suc}
use ssz.Hasher.Segments.{
  Seg, raise_seg, join_seg, carry, count, Waiting, Pending, count-raise, count-join,
}
use ssz.Hasher.Carry.{carry-join, carry-stop}
use ssz.Hasher.Insert.{
  grow, insert_seg, count-grow, insert_seg-batch, insert_seg-grow, insert_seg-fresh,
}
use ssz.Hasher.Balance.{Waiting-Rising, Least, LeastIf-several, Loose}
use ssz.Hasher.Mixin.{LeastFor-least}
use ssz.Hasher.Ascend.{Least-LeastFor, row-shrinks}

module _ (sha : Sha) where
  -- `slot` is the root of the least tree over `xs`, and its depth.
  abbrev pub IsTop : List Chunk → Chunk × ℕ → Type 0
  IsTop xs (c, d) = (row sha d xs ≡ c ∷ []) × Least sha d xs

  whole_rows :
      (d m : ℕ) (xs : List Chunk)
      → length xs ≡ 2 ^ d * m
      → Exact sha d xs × (length (row sha d xs) ≡ m)
  whole_rows zero m xs e = unfold row in (tt, omega arith)
  whole_rows (suc d) m xs e =
      let (exact, count) =
        whole_rows d (2 * m) xs (omega (arith, ap (λ (t : ℕ). t * m) (pow-suc 2 d))) in
      ((exact, omega arith), omega (arith, length-row-suc sha d xs))

  -- The tree over a block of 2^k leaves is of depth k and has no zero tree in it.
  pub whole_top :
      (k : ℕ) (xs : List Chunk) (slot : Chunk × ℕ)
      → length xs ≡ 2 ^ k
      → IsTop xs slot
      → (slot.1 ≡ k) × Exact sha k xs
  whole_top k xs (c, d) e (top, least) =
      let (exact, one) = whole_rows k 1 xs (omega arith) in
      (
        omega (
          arith,
          LeastFor-least sha d k 0 xs (omega arith) (omega arith) (Least-LeastFor sha d 0 xs least),
          LeastFor-least sha k d 0 xs (omega (arith, ap length top)) (omega arith)
              (Least-LeastFor sha k 0 xs (least_whole k xs e)),
        ),
        exact,
      )
    where
      least_whole : (k : ℕ) (xs : List Chunk) → length xs ≡ 2 ^ k → Least sha k xs
      least_whole zero xs e = tt
      least_whole (suc j) xs e = omega (arith, (whole_rows j 2 xs (omega (arith, pow-suc 2 j))).1)

  pub part_top :
      (k : ℕ) (xs : List Chunk) (slot : Chunk × ℕ) → length xs ≤ 2 ^ k → IsTop xs slot → slot.1 ≤ k
  part_top k xs (c, d) few (top, least) =
      LeastFor-least sha d k 0 xs (row-shrinks sha k 1 xs (omega arith)) (omega arith)
        (Least-LeastFor sha d 0 xs least)

  carry-Loose :
      (s : Seg) (ss : List Seg)
      → count sha s ≡ 8
      → Waiting sha s.depth ss
      → (t : Seg) × (ts : List Seg) × (carry s ss ≡ t ∷ ts) × Loose sha t ts
  carry-Loose s [] full w =
      unfold carry in
      (
        raise_seg s,
        [],
        refl,
        (
          omega (arith, count-raise sha s),
          tt,
          LeastIf-several sha (raise_seg s) [] (omega (arith, count-raise sha s)),
        ),
      )
  carry-Loose s (p ∷ ss) full (deeper, pexact, four, w) = elim (ℕ_discrete p.depth (suc s.depth)) [
    | yes deep ↦ rw (carry-join s p ss deep) (
        carry-Loose (join_seg p (raise_seg s)) ss
          (omega (arith, count-join sha p s pexact deep, count-raise sha s)) w)
    | no apart ↦ rw (carry-stop s p ss apart) (
      raise_seg s,
      p ∷ ss,
      refl,
      (
        omega (arith, count-raise sha s),
        (omega arith, pexact, omega arith, Waiting-Rising sha p.depth ss w),
        tt,
      ),
    )
  ]

  -- The last block may be of any lower depth, with zero trees in it.
  pub insert-Loose :
      (k d : ℕ) (b : List Chunk) (c : Chunk)
      → d ≤ k
      → IsTop b (c, d)
      → (ss : List Seg) → Pending sha k ss
      → (t : Seg) × (ts : List Seg) × (insert_seg sha d b ss ≡ t ∷ ts) × Loose sha t ts
  insert-Loose k d b c low (top, least) [] p =
      unfold insert_seg in
      (record { depth = d; leaves = b }, [], refl, (omega (arith, ap length top), tt, least))
  insert-Loose k d b c low (top, least) (s ∷ ss) (deep, exact, size, w) =
      let few : 1 ≤ count sha s = omega arith in
      elim (ℕ_discrete s.depth d) [
        | yes same ↦
            let more = count-grow sha d b c top s same exact in
            elim (ℕ_discrete (count sha s + 1) 8) [
              | yes full ↦
                  rw (insert_seg-batch sha d b c top s ss same full)
                    (carry-Loose (grow b s) ss (omega (arith, more)) w)
              | no room ↦ rw (insert_seg-grow sha d b c top s ss same room) (
                grow b s,
                ss,
                refl,
                (
                  omega (arith, more),
                  Waiting-Rising sha s.depth ss w,
                  LeastIf-several sha (grow b s) ss (omega (arith, more)),
                ),
              )
            ]
        | no inner ↦ rw (insert_seg-fresh sha d b c top s ss inner) (
          record { depth = d; leaves = b },
          s ∷ ss,
          refl,
          (
            omega (arith, ap length top),
            (omega arith, exact, few, Waiting-Rising sha s.depth ss w),
            tt,
          ),
        )
      ]
