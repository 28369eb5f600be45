-- ===== src/Hasher/Carry.antt =====
-- The collapse loop of insertChunk (hasher.go), group by group.
use ssz.Base.{
  ℕ, suc, ◌+◌, ◌≡◌, ◌≤◌, ◌≢◌, ◌⊎◌, refl, sym, ap, ap₂, ◌∙◌, ◌&&◌, true, false, inl, inr, List, [],
  ◌∷◌, ◌++◌, append_assoc, ◌==◌, ==_iff, ==_false, arith,
}
use native.Mathlib.Decide.{ℕ_discrete}
use ssz.Hasher.{Chunk, Sha, Group, raise, join, same_level, collapse, hash_last}
use ssz.Hasher.Row.{Exact, Exact-append}
use ssz.Hasher.Segments.{
  Seg, raise_seg, join_seg, leaves_of, Below, carry, count, group_of, chunks_of, groups_of, Waiting,
  Pending, hash_last-row, join-chunks, count-raise, count-join, raise-group, join-group,
}

module _ (sha : Sha) where
  -- A round of the loop that goes on, and one that stops.
  collapse-join :
      (cs cs' : List Chunk) (g p g' : Group) (gs : List Group)
      → hash_last sha 8 cs ≡ cs'
      → same_level p (raise g) ≡ true
      → join p (raise g) ≡ g'
      → collapse sha cs g (p ∷ gs) ≡ collapse sha cs' g' gs
  unfolding collapse
  collapse-join cs cs' g p g' gs h e j = rw e (ap₂ (λ a b. collapse sha a b gs) h j)

  collapse-stop :
      (cs cs' : List Chunk) (g g' : Group) (gs : List Group)
      → hash_last sha 8 cs ≡ cs'
      → raise g ≡ g'
      → (gs ≡ [])
        ⊎ ((p : Group) × (rest : List Group) × (gs ≡ p ∷ rest) × (same_level p (raise g) ≡ false))
      → collapse sha cs g gs ≡ (cs', g' ∷ gs)
  unfolding collapse
  collapse-stop cs cs' g g' gs h r (inl e) = rw e (ap₂ (λ a b. (a, b ∷ [])) h r)
  collapse-stop cs cs' g g' gs h r (inr (p, rest, e, no_merge)) =
      rw (e, no_merge) (ap₂ (λ a b. (a, b ∷ p ∷ rest)) h r)

  Exact-raised :
      (s p : Seg)
      → p.depth ≡ suc s.depth
      → Exact sha s.depth s.leaves
      → Exact sha p.depth p.leaves
      → count sha s ≡ 8
      → Exact sha p.depth (p.leaves ++ s.leaves)
  Exact-raised s p deep exact pexact full =
      Exact-append sha p.depth p.leaves s.leaves pexact (rw deep (exact, omega arith))

pub carry-join :
    (s p : Seg) (ss : List Seg)
    → p.depth ≡ suc s.depth
    → carry s (p ∷ ss) ≡ carry (join_seg p (raise_seg s)) ss
unfolding carry
carry-join s p ss e = rw ((==_iff p.depth (s.depth + 1)).1 (omega arith))

pub carry-stop :
    (s p : Seg) (ss : List Seg) → p.depth ≢ suc s.depth → carry s (p ∷ ss) ≡ raise_seg s ∷ p ∷ ss
unfolding carry
carry-stop s p ss e = rw (==_false p.depth (s.depth + 1) (omega arith))

module _ (sha : Sha) (layer : ℕ) (outer : List Group) (base : List Chunk) where
  Below-stop :
      (d : ℕ) (gs : List Group)
      → Below layer gs
      → (gs ≡ [])
        ⊎ ((p : Group) × (rest : List Group) × (gs ≡ p ∷ rest)
            × ((p.layer == layer && p.depth == d) ≡ false))
  Below-stop d [] b = inl refl
  Below-stop d (p ∷ rest) (lower, b) = inr (p, rest, refl, ground arith)

  pub collapse-carry :
      (s : Seg) (ss : List Seg)
      → Below layer outer
      → count sha s ≡ 8
      → Waiting sha s.depth ss
      → collapse sha
          (chunks_of sha base (s ∷ ss))
          (group_of sha layer s)
          (groups_of sha layer outer ss)
        ≡ (chunks_of sha base (carry s ss), groups_of sha layer outer (carry s ss))
  collapse-carry s [] below full w =
      unfold carry in
      collapse-stop sha _ _ _ _ outer (hash_last-row sha 8 s.depth base s.leaves full refl)
        (raise-group sha layer s (omega arith)) (Below-stop (s.depth + 1) outer below)
  collapse-carry s (p ∷ ss) below full (deeper, pexact, four, w) =
      elim (ℕ_discrete p.depth (suc s.depth)) [
        | yes deep ↦ rw (carry-join s p ss deep) (
            collapse-join sha _ (chunks_of sha base (join_seg p (raise_seg s) ∷ ss)) _ _ _ _
              (hash_last-row sha 8 s.depth (chunks_of sha base (p ∷ ss)) s.leaves full refl
                ∙ join-chunks sha base p s ss pexact deep)
              (ground arith)
              (ap (join (group_of sha layer p)) (raise-group sha layer s (omega arith))
                ∙ join-group sha layer p s pexact deep)
            ∙ collapse-carry (join_seg p (raise_seg s)) ss below
                (omega (arith, count-join sha p s pexact deep, count-raise sha s)) w)
        | no apart ↦ rw (carry-stop s p ss apart) (
            collapse-stop sha _ _ _ _ _
              (hash_last-row sha 8 s.depth (chunks_of sha base (p ∷ ss)) s.leaves full refl)
              (raise-group sha layer s (omega arith))
              (inr (group_of sha layer p, groups_of sha layer outer ss, refl, ground arith)))
      ]

pub leaves-carry : (s : Seg) (ss : List Seg) → leaves_of (carry s ss) ≡ leaves_of (s ∷ ss)
leaves-carry s [] = unfold carry in refl
leaves-carry s (p ∷ ss) = elim (ℕ_discrete p.depth (suc s.depth)) [
  | yes deep ↦ rw (carry-join s p ss deep) (
      leaves-carry (join_seg p (raise_seg s)) ss
      ∙ sym (append_assoc (leaves_of ss) p.leaves s.leaves))
  | no apart ↦ rw (carry-stop s p ss apart)
]

pub carry-Pending :
    (sha : Sha) (k : ℕ) (s : Seg) (ss : List Seg)
    → k ≤ s.depth
    → Exact sha s.depth s.leaves
    → count sha s ≡ 8
    → Waiting sha s.depth ss
    → Pending sha k (carry s ss)
carry-Pending sha k s [] low exact full w =
    unfold carry in (omega arith, (exact, omega arith), inl (omega (arith, count-raise sha s)), tt)
carry-Pending sha k s (p ∷ ss) low exact full (deeper, pexact, four, w) =
    elim (ℕ_discrete p.depth (suc s.depth)) [
      | yes deep ↦ rw (carry-join s p ss deep) (
          carry-Pending sha k (join_seg p (raise_seg s)) ss (omega arith)
            (Exact-raised sha s p deep exact pexact full)
            (omega (arith, count-join sha p s pexact deep, count-raise sha s)) w)
      | no apart ↦ rw (carry-stop s p ss apart) (
        omega arith,
        (exact, omega arith),
        inl (omega (arith, count-raise sha s)),
        (omega arith, pexact, four, w),
      )
    ]
