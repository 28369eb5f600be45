-- ===== src/Hasher/Insert.antt =====
-- insertChunk of hasher.go keeps the pending groups in step with the leaves that were inserted. A chunk
-- of some depth is the root of a block of leaves, a leaf being that of a block of one.
use ssz.Base.{
  ℕ, ◌+◌, ◌≡◌, ◌≢◌, refl, sym, ap, ap₂, ◌∙◌, ◌&&◌, false, inr, List, [], ◌∷◌, ◌++◌, append_assoc,
  length, ◌==◌, ==_iff, ==_false, if◌then◌else◌, arith,
}
use native.Mathlib.Decide.{ℕ_discrete}
use ssz.Hasher.{Chunk, Sha, Group, add_one, collapse, insert_into}
use ssz.Hasher.Row.{row, Exact, row-append, length-row-append, Exact-append}
use ssz.Hasher.Segments.{
  Seg, leaves_of, Below, carry, count, group_of, chunks_of, groups_of, Pending,
}
use ssz.Hasher.Carry.{collapse-carry, leaves-carry, carry-Pending}

-- One more block.
abbrev pub grow : List Chunk → Seg → Seg
grow b s = record s { leaves = s.leaves ++ b }

module _ (sha : Sha) where
  unfoldable pub insert_seg : ℕ → List Chunk → List Seg → List Seg
  insert_seg d b [] = record { depth = d; leaves = b } ∷ []
  insert_seg d b (s ∷ ss) =
      if s.depth == d
      then (if count sha s + 1 == 8 then carry (grow b s) ss else grow b s ∷ ss)
      else record { depth = d; leaves = b } ∷ s ∷ ss

  pub leaves-insert :
      (d : ℕ) (b : List Chunk) (ss : List Seg) → leaves_of (insert_seg d b ss) ≡ leaves_of ss ++ b
  unfolding insert_seg
  leaves-insert d b [] = refl
  leaves-insert d b (s ∷ ss) =
      ground (arith, leaves-carry (grow b s) ss, append_assoc (leaves_of ss) s.leaves b)

  module _ (d : ℕ) (b : List Chunk) (c : Chunk) (top : row sha d b ≡ c ∷ []) where
    pub count-grow :
        (s : Seg)
        → s.depth ≡ d
        → Exact sha s.depth s.leaves
        → count sha (grow b s) ≡ count sha s + 1
    count-grow s e exact =
        length-row-append sha s.depth s.leaves b exact
        ∙ ap (λ n. count sha s + length (row sha n b)) e
        ∙ ap (λ r. count sha s + length r) top

    pub insert_seg-batch :
        (s : Seg) (ss : List Seg)
        → s.depth ≡ d
        → count sha s + 1 ≡ 8
        → insert_seg d b (s ∷ ss) ≡ carry (grow b s) ss
    unfolding insert_seg
    insert_seg-batch s ss e f = rw ((==_iff s.depth d).1 e, (==_iff (count sha s + 1) 8).1 f)

    pub insert_seg-grow :
        (s : Seg) (ss : List Seg)
        → s.depth ≡ d
        → count sha s + 1 ≢ 8
        → insert_seg d b (s ∷ ss) ≡ grow b s ∷ ss
    unfolding insert_seg
    insert_seg-grow s ss e f = rw ((==_iff s.depth d).1 e, ==_false (count sha s + 1) 8 f)

    pub insert_seg-fresh :
        (s : Seg) (ss : List Seg)
        → s.depth ≢ d
        → insert_seg d b (s ∷ ss) ≡ record { depth = d; leaves = b } ∷ s ∷ ss
    unfolding insert_seg
    insert_seg-fresh s ss e = rw (==_false s.depth d e)

    -- A whole block keeps the groups whole.
    pub insert-Pending :
        (ss : List Seg) → Exact sha d b → Pending sha d ss → Pending sha d (insert_seg d b ss)
    insert-Pending [] whole p =
        unfold insert_seg in
        (
          omega arith,
          whole,
          inr (refl, omega (arith, ap length top), omega (arith, ap length top)),
          tt,
        )
    insert-Pending (s ∷ ss) whole (low, exact, size, w) = elim (ℕ_discrete s.depth d) [
      | yes same ↦ elim (ℕ_discrete (count sha s + 1) 8) [
        | yes full ↦ rw (insert_seg-batch s ss same full) (
            carry-Pending sha d (grow b s) ss low
              (Exact-append sha s.depth s.leaves b exact (rw same whole))
              (omega (arith, count-grow s same exact)) w)
        | no room ↦ rw (insert_seg-grow s ss same room) (
          low,
          Exact-append sha s.depth s.leaves b exact (rw same whole),
          inr (
            same,
            omega (arith, count-grow s same exact),
            omega (arith, count-grow s same exact),
          ),
          w,
        )
      ]
      | no inner ↦ rw (insert_seg-fresh s ss inner) (
        omega arith,
        whole,
        inr (refl, omega (arith, ap length top), omega (arith, ap length top)),
        (omega arith, exact, omega arith, w),
      )
    ]

module _ (sha : Sha) (cs : List Chunk) (layer depth : ℕ) (g : Group) (gs : List Group) where
  insert_into-batch :
      g.layer ≡ layer
      → g.depth ≡ depth
      → g.chunks + 1 ≡ 8
      → insert_into sha cs layer depth (g ∷ gs) ≡ collapse sha cs (add_one g) gs
  unfolding insert_into
  insert_into-batch a b c = rw ((==_iff _ _).1 a, (==_iff _ _).1 b, (==_iff _ _).1 c)

  insert_into-grow :
      g.layer ≡ layer
      → g.depth ≡ depth
      → g.chunks + 1 ≢ 8
      → insert_into sha cs layer depth (g ∷ gs) ≡ (cs, add_one g ∷ gs)
  unfolding insert_into
  insert_into-grow a b c = rw ((==_iff _ _).1 a, (==_iff _ _).1 b, ==_false _ _ c)

  insert_into-fresh :
      (g.layer == layer && g.depth == depth) ≡ false
      → insert_into sha cs layer depth (g ∷ gs)
        ≡ (cs, record { layer = layer; depth = depth; chunks = 1 } ∷ g ∷ gs)
  unfolding insert_into
  insert_into-fresh e = rw e

module _ (sha : Sha) (layer : ℕ) (outer : List Group) (base : List Chunk) where
  module _ (d : ℕ) (b : List Chunk) (c : Chunk) (top : row sha d b ≡ c ∷ []) where
    grow-chunks :
        (s : Seg) (ss : List Seg)
        → s.depth ≡ d
        → Exact sha s.depth s.leaves
        → chunks_of sha base (s ∷ ss) ++ (c ∷ []) ≡ chunks_of sha base (grow b s ∷ ss)
    grow-chunks s ss e exact =
        append_assoc (chunks_of sha base ss) (row sha s.depth s.leaves) (c ∷ [])
        ∙ ap (λ r. chunks_of sha base ss ++ r)
            (ap (λ r. row sha s.depth s.leaves ++ r) (sym (ap (λ n. row sha n b) e ∙ top))
              ∙ sym (row-append sha s.depth s.leaves b exact))

    grow-group :
        (s : Seg)
        → s.depth ≡ d
        → Exact sha s.depth s.leaves
        → add_one (group_of sha layer s) ≡ group_of sha layer (grow b s)
    grow-group s e exact =
        ap (λ n. record { layer = layer; depth = s.depth; chunks = n })
          (sym (count-grow sha d b c top s e exact))

    insert_into-bottom :
        (cs : List Chunk) (os : List Group)
        → Below layer os
        → insert_into sha cs layer d os ≡ (cs, record { layer = layer; depth = d; chunks = 1 } ∷ os)
    insert_into-bottom cs [] below = unfold insert_into in refl
    insert_into-bottom cs (o ∷ os) (lower, below) =
        insert_into-fresh sha cs layer d o os (ground arith)

    fresh_state :
        (ss : List Seg)
        → ◌≡◌ {A = List Chunk × List Group}
            (
              chunks_of sha base ss ++ (c ∷ []),
              record { layer = layer; depth = d; chunks = 1 } ∷ groups_of sha layer outer ss,
            )
            (
              chunks_of sha base (record { depth = d; leaves = b } ∷ ss),
              groups_of sha layer outer (record { depth = d; leaves = b } ∷ ss),
            )
    fresh_state ss = rw (top)

    pub insert_into-seg :
        (k : ℕ) (ss : List Seg)
        → Below layer outer
        → Pending sha k ss
        → insert_into sha (chunks_of sha base ss ++ (c ∷ [])) layer d (groups_of sha layer outer ss)
          ≡ (
            chunks_of sha base (insert_seg sha d b ss),
            groups_of sha layer outer (insert_seg sha d b ss),
          )
    insert_into-seg k [] below p =
        unfold insert_seg in insert_into-bottom (base ++ (c ∷ [])) outer below ∙ fresh_state []
    insert_into-seg k (s ∷ ss) below (low, exact, size, w) = elim (ℕ_discrete s.depth d) [
      | yes same ↦ elim (ℕ_discrete (count sha s + 1) 8) [
        | yes full ↦
            insert_into-batch sha _ layer d (group_of sha layer s) _ refl same full
            ∙ ap₂ (λ x y. collapse sha x y (groups_of sha layer outer ss))
                (grow-chunks s ss same exact) (grow-group s same exact)
            ∙ collapse-carry sha layer outer base (grow b s) ss below
                (omega (arith, count-grow sha d b c top s same exact)) w
            ∙ ap (λ r. (chunks_of sha base r, groups_of sha layer outer r))
                (sym (insert_seg-batch sha d b c top s ss same full))
        | no room ↦
            insert_into-grow sha _ layer d (group_of sha layer s) _ refl same room
            ∙ ap₂ (λ x y. (x, y ∷ groups_of sha layer outer ss)) (grow-chunks s ss same exact)
                (grow-group s same exact)
            ∙ ap (λ r. (chunks_of sha base r, groups_of sha layer outer r))
                (sym (insert_seg-grow sha d b c top s ss same room))
      ]
      | no inner ↦
          insert_into-fresh sha _ layer d (group_of sha layer s) _ (ground arith)
          ∙ fresh_state (s ∷ ss)
          ∙ ap (λ r. (chunks_of sha base r, groups_of sha layer outer r))
              (sym (insert_seg-fresh sha d b c top s ss inner))
    ]
