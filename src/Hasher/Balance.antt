-- ===== src/Hasher/Balance.antt =====
-- balanceLayer of hasher.go reduces a layer to one root within its rounds.
use ssz.Base.{
  ℕ, zero, suc, ◌+◌, ◌-◌, ◌%◌, ◌≤◌, ◌<◌, ◌≡◌, ◌≢◌, refl, sym, ap, ap₂, ◌∙◌, true, false, List, [],
  ◌∷◌, ◌++◌, append_assoc, length, ◌==◌, ==_iff, ==_false, arith, some,
}
use native.Mathlib.Decide.{ℕ_discrete}
use mathlib.Core.Path.{subst}
use ssz.Hasher.{Chunk, Sha, Group, is_balanced, merge_down, pair_last, balance_loop}
use ssz.Hasher.Row.{row, Exact, length-row-append, length-row-suc}
use ssz.Hasher.Segments.{
  Seg, raise_seg, join_seg, leaves_of, Below, count, group_of, chunks_of, groups_of, Waiting,
  hash_last-row, hash_last-row_odd, join-chunks, count-raise, count-join, raise-group, join-group,
}

module _ (sha : Sha) where
  -- Groups under the last one, deeper and deeper, each of whole subtrees.
  abbrev pub Rising : ℕ → List Seg → Type 0
  Rising d [] = Unit
  Rising d (p ∷ ss) =
      (d < p.depth) × Exact sha p.depth p.leaves × (1 ≤ count sha p) × Rising p.depth ss

  pub Waiting-Rising : (d : ℕ) (ss : List Seg) → Waiting sha d ss → Rising d ss
  Waiting-Rising d [] w = tt
  Waiting-Rising d (p ∷ ss) (deeper, exact, four, w) =
      (deeper, exact, omega arith, Waiting-Rising p.depth ss w)

  -- No lower row has a single node.
  abbrev pub Least : ℕ → List Chunk → Type 0
  Least zero xs = Unit
  Least (suc d) xs = 1 < length (row sha d xs)

  abbrev pub LeastIf : List Seg → Seg → Type 0
  LeastIf [] s = Least s.depth s.leaves
  LeastIf (p ∷ ss) s = Unit

  -- Groups that balanceLayer reduces to the root of the least tree.
  abbrev pub Loose : Seg → List Seg → Type 0
  Loose s ss = (1 ≤ count sha s) × Rising s.depth ss × LeastIf ss s

  -- A row of several nodes stands on rows of more.
  pub several-Least : (d : ℕ) (xs : List Chunk) → 2 ≤ length (row sha d xs) → Least d xs
  several-Least zero xs h = tt
  several-Least (suc d) xs h = omega (arith, length-row-suc sha d xs)

  pub LeastIf-several : (s : Seg) (ss : List Seg) → 2 ≤ count sha s → LeastIf ss s
  LeastIf-several s [] h = several-Least s.depth s.leaves h
  LeastIf-several s (p ∷ ss) h = tt

  abbrev pub tail_measure : ℕ → List Seg → ℕ
  tail_measure d [] = 0
  tail_measure d (p ∷ ss) = p.depth - d + count sha p + tail_measure p.depth ss

  pair_last-row :
      (layer : ℕ) (pre : List Chunk) (s : Seg)
      → pair_last sha (pre ++ row sha s.depth s.leaves) (group_of sha layer s)
        ≡ (pre ++ row sha (suc s.depth) s.leaves, group_of sha layer (raise_seg s))
  unfolding pair_last
  pair_last-row layer pre s = elim (ℕ_discrete (count sha s % 2) 1) [
    | yes odd ↦ rw ((==_iff _ _).1 odd) (
        ap₂ (λ a b. (a, b))
          (hash_last-row_odd sha (count sha s + 1) s.depth pre s.leaves refl (omega arith))
          (ground (arith, count-raise sha s)))
    | no even ↦ rw (==_false _ _ even) (
        ap₂ (λ a b. (a, b))
          (hash_last-row sha (count sha s) s.depth pre s.leaves refl (omega arith))
          (raise-group sha layer s (omega arith)))
  ]

  module _ (layer : ℕ) (outer : List Group) (base : List Chunk) where
    is_balanced-bottom :
        (s : Seg) (os : List Group)
        → Below layer os
        → is_balanced (group_of sha layer s) os ≡ (count sha s == 1)
    unfolding is_balanced
    is_balanced-bottom s [] b = refl
    is_balanced-bottom s (o ∷ os) (lower, b) = ground arith

    is_balanced-above :
        (s p : Seg) (gs : List Group)
        → is_balanced (group_of sha layer s) (group_of sha layer p ∷ gs) ≡ false
    unfolding is_balanced
    is_balanced-above s p gs = ground arith

    merge_down-bottom :
        (s : Seg) (os : List Group)
        → Below layer os
        → merge_down (group_of sha layer s) os ≡ group_of sha layer s ∷ os
    unfolding merge_down
    merge_down-bottom s [] b = refl
    merge_down-bottom s (o ∷ os) (lower, b) = ground arith

    merge_down-join :
        (s p : Seg) (gs : List Group)
        → Exact sha p.depth p.leaves
        → p.depth ≡ suc s.depth
        → merge_down (group_of sha layer (raise_seg s)) (group_of sha layer p ∷ gs)
          ≡ group_of sha layer (join_seg p (raise_seg s)) ∷ gs
    unfolding merge_down
    merge_down-join s p gs exact e =
        rw ((==_iff layer layer).1 refl, (==_iff p.depth (suc s.depth)).1 e)
          (ap (λ g. g ∷ gs) (join-group sha layer p s exact e))

    merge_down-apart :
        (s p : Seg) (gs : List Group)
        → p.depth ≢ suc s.depth
        → merge_down (group_of sha layer (raise_seg s)) (group_of sha layer p ∷ gs)
          ≡ group_of sha layer (raise_seg s) ∷ group_of sha layer p ∷ gs
    unfolding merge_down
    merge_down-apart s p gs e = rw ((==_iff layer layer).1 refl, ==_false p.depth (suc s.depth) e)

    balance-stop :
        (fuel : ℕ) (cs : List Chunk) (g : Group) (gs : List Group)
        → is_balanced g gs ≡ true
        → balance_loop sha (suc fuel) cs (g ∷ gs) ≡ some (cs, g ∷ gs)
    unfolding balance_loop
    balance-stop fuel cs g gs e = rw (e, balance_loop)

    balance-round :
        (fuel : ℕ) (pre cs' : List Chunk) (s : Seg) (gs gs' : List Group)
        → is_balanced (group_of sha layer s) gs ≡ false
        → pre ++ row sha (suc s.depth) s.leaves ≡ cs'
        → merge_down (group_of sha layer (raise_seg s)) gs ≡ gs'
        → balance_loop sha (suc fuel) (pre ++ row sha s.depth s.leaves) (group_of sha layer s ∷ gs)
          ≡ balance_loop sha fuel cs' gs'
    unfolding balance_loop
    balance-round fuel pre cs' s gs gs' e p q =
        rw (e, balance_loop)
          (ap₂ (balance_loop sha fuel) (ap (λ r. r.0) (pair_last-row layer pre s) ∙ p)
            (ap (λ r. merge_down r.1 gs) (pair_last-row layer pre s) ∙ q))

    abbrev pub Balances : ℕ → Seg → List Seg → Type 0
    Balances fuel s ss =
        (d : ℕ) × (length (row sha d (leaves_of (s ∷ ss))) ≡ 1)
        × Least d (leaves_of (s ∷ ss))
        × (balance_loop sha fuel (chunks_of sha base (s ∷ ss)) (groups_of sha layer outer (s ∷ ss))
            ≡ some (
              base ++ row sha d (leaves_of (s ∷ ss)),
              record { layer = layer; depth = d; chunks = 1 } ∷ outer,
            ))

    joined-LeastIf :
        (s p : Seg) (ss : List Seg)
        → Exact sha p.depth p.leaves
        → 1 ≤ count sha s
        → 1 ≤ count sha p
        → p.depth ≡ suc s.depth
        → LeastIf ss (join_seg p (raise_seg s))
    joined-LeastIf s p (q ∷ ss) exact one pone deep = tt
    joined-LeastIf s p [] exact one pone deep = rw deep (
        omega (
          arith,
          length-row-append sha s.depth p.leaves s.leaves
              (subst (λ k. Exact sha k p.leaves) deep exact).0,
          length-row-suc sha s.depth p.leaves,
          subst (λ k. 1 ≤ length (row sha k p.leaves)) deep pone,
        ))

    pub balance-total :
        (fuel : ℕ) (s : Seg) (ss : List Seg)
        → Below layer outer
        → 1 ≤ count sha s
        → Rising s.depth ss
        → LeastIf ss s
        → count sha s + tail_measure s.depth ss ≤ fuel
        → Balances fuel s ss
    balance-total zero s ss below one rising least enough = absurd (omega arith)
    balance-total (suc fuel) s [] below one rising least enough =
        elim (ℕ_discrete (count sha s) 1) [
          | yes done ↦ (
            s.depth,
            done,
            least,
            balance-stop fuel _ _ _ (is_balanced-bottom s outer below ∙ (==_iff _ _).1 done)
                ∙ ap
                    (λ n. some (
                      base ++ row sha s.depth s.leaves,
                      record { layer = layer; depth = s.depth; chunks = n } ∷ outer,
                    ))
                    done,
          )
          | no more ↦
              let (d, single, small, run) =
                balance-total fuel (raise_seg s) [] below (omega (arith, count-raise sha s)) tt
                  (omega arith) (omega (arith, count-raise sha s)) in
              (
                d,
                single,
                small,
                balance-round fuel base _ s outer _
                      (is_balanced-bottom s outer below ∙ ==_false _ _ more) refl
                      (merge_down-bottom (raise_seg s) outer below)
                    ∙ run,
              )
        ]
    balance-total (suc fuel) s (p ∷ ss) below one (deeper, exact, pone, rising) least enough =
        elim (ℕ_discrete p.depth (suc s.depth)) [
          | yes deep ↦
              let (d, single, small, run) =
                balance-total fuel (join_seg p (raise_seg s)) ss below
                  (omega (arith, count-join sha p s exact deep)) (rising)
                  (joined-LeastIf s p ss exact one pone deep)
                  (omega (arith, count-join sha p s exact deep, count-raise sha s)) in
              let regroup : leaves_of (join_seg p (raise_seg s) ∷ ss) ≡ leaves_of (s ∷ p ∷ ss) =
                sym (append_assoc (leaves_of ss) p.leaves s.leaves) in
              rw (← regroup) (
                d,
                single,
                small,
                balance-round fuel (chunks_of sha base (p ∷ ss)) _ s _ _ (is_balanced-above s p _)
                      (join-chunks sha base p s ss exact deep) (merge_down-join s p _ exact deep)
                    ∙ run,
              )
          | no apart ↦
              let (d, single, small, run) =
                balance-total fuel (raise_seg s) (p ∷ ss) below (omega (arith, count-raise sha s))
                  (omega arith, exact, pone, rising) tt (omega (arith, count-raise sha s)) in
              (
                d,
                single,
                small,
                balance-round fuel (chunks_of sha base (p ∷ ss)) _ s _ _ (is_balanced-above s p _)
                      refl (merge_down-apart s p _ apart)
                    ∙ run,
              )
        ]
