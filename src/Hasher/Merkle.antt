-- ===== src/Hasher/Merkle.antt =====
-- A layer of hasher.go from descent to ascent: the chunks inserted between are replaced by the root
-- of the Merkle tree over them.
use ssz.Base.{
  ℕ, ◌+◌, ◌-◌, ◌≤◌, ◌≡◌, inl, inr, refl, sym, ap, ◌∙◌, List, [], ◌∷◌, ◌++◌, append_assoc,
  append-nil, length, length-append, take-append, drop-append, arith, some,
}
use ssz.Hasher.{
  Chunk, Sha, Group, Hasher, balance_loop, balance_layer, rounds, expand_loop, move_up,
  ascend_layer, insert_chunk, insert_chunks, descend_layer,
}
use ssz.Hasher.Row.{row}
use ssz.Hasher.Segments.{Seg, leaves_of, Below, chunks_of, groups_of, Pending}
use ssz.Hasher.Insert.{insert_seg, leaves-insert, insert-Pending, insert_into-seg}
use ssz.Hasher.Balance.{
  Waiting-Rising, Loose, LeastIf, LeastIf-several, tail_measure, Balances, balance-total,
}
use ssz.Hasher.Ascend.{IsRoot, expand-total, Least-LeastFor, Least-bound, max_chunks}

-- Every pending group belongs to the present layer or to one above.
abbrev pub IsOpen : Hasher → Type 0
IsOpen h = Below (h.layer + 1) h.groups

descend_layer_lem : (h : Hasher) → descend_layer h ≡ record h { layer = h.layer + 1 }
unfolding descend_layer
descend_layer_lem h = refl

module _ (sha : Sha) where
  abbrev pub state : ℕ → List Group → List Chunk → List Seg → Hasher
  state layer outer base ss = record {
    chunks = chunks_of sha base ss;
    groups = groups_of sha layer outer ss;
    layer = layer;
  }

  pub insert_chunk-state :
      (layer : ℕ) (outer : List Group) (base : List Chunk) (d : ℕ) (b : List Chunk) (c : Chunk)
      → row sha d b ≡ c ∷ []
      → (k : ℕ) (ss : List Seg) → Below layer outer
      → Pending sha k ss
      → insert_chunk sha c d (state layer outer base ss)
        ≡ state layer outer base (insert_seg sha d b ss)
  unfolding insert_chunk
  insert_chunk-state layer outer base d b c top k ss below p =
      ap (λ r. record { chunks = r.0; groups = r.1; layer = layer })
        (insert_into-seg sha layer outer base d b c top k ss below p)

  leaf : (c : Chunk) → row sha 0 (c ∷ []) ≡ c ∷ []
  unfolding row
  leaf c = refl

  abbrev pub insert_segs : List Chunk → List Seg → List Seg
  insert_segs [] ss = ss
  insert_segs (c ∷ cs) ss = insert_segs cs (insert_seg sha 0 (c ∷ []) ss)

  pub insert_chunks-state :
      (layer : ℕ) (outer : List Group) (base cs : List Chunk) (ss : List Seg)
      → Below layer outer
      → Pending sha 0 ss
      → insert_chunks sha cs (state layer outer base ss)
        ≡ state layer outer base (insert_segs cs ss)
  unfolding insert_chunks
  insert_chunks-state layer outer base [] ss below p = refl
  insert_chunks-state layer outer base (c ∷ cs) ss below p =
      rw (insert_chunk-state layer outer base 0 (c ∷ []) c (leaf c) 0 ss below p) (
        insert_chunks-state layer outer base cs (insert_seg sha 0 (c ∷ []) ss) below
          (insert-Pending sha 0 (c ∷ []) c (leaf c) ss tt p))

  pub insert_segs-Pending :
      (cs : List Chunk) (ss : List Seg) → Pending sha 0 ss → Pending sha 0 (insert_segs cs ss)
  insert_segs-Pending [] ss p = p
  insert_segs-Pending (c ∷ cs) ss p =
      insert_segs-Pending cs (insert_seg sha 0 (c ∷ []) ss)
        (insert-Pending sha 0 (c ∷ []) c (leaf c) ss tt p)

  pub leaves-insert_segs :
      (cs : List Chunk) (ss : List Seg) → leaves_of (insert_segs cs ss) ≡ leaves_of ss ++ cs
  leaves-insert_segs [] ss = sym (append-nil (leaves_of ss))
  leaves-insert_segs (c ∷ cs) ss =
      leaves-insert_segs cs (insert_seg sha 0 (c ∷ []) ss)
      ∙ ap (λ r. r ++ cs) (leaves-insert sha 0 (c ∷ []) ss)
      ∙ append_assoc (leaves_of ss) (c ∷ []) cs

  tail_measure-rounds :
      (layer : ℕ) (outer : List Group) (d : ℕ) (ss : List Seg)
      → tail_measure sha d ss ≤ rounds (groups_of sha layer outer ss)
  unfolding rounds
  tail_measure-rounds layer outer d [] = omega arith
  tail_measure-rounds layer outer d (p ∷ ss) =
      omega (arith, tail_measure-rounds layer outer p.depth ss)

  pub Pending-Loose : (s : Seg) (ss : List Seg) → Pending sha 0 (s ∷ ss) → Loose sha s ss
  Pending-Loose s ss (low, exact, inl four, w) =
      (omega arith, Waiting-Rising sha s.depth ss w, LeastIf-several sha s ss (omega arith))
  Pending-Loose s ss (low, exact, inr (bottom, some_, few), w) =
      (some_, Waiting-Rising sha s.depth ss w, bottom_least s ss bottom)
    where
      bottom_least : (s : Seg) (ss : List Seg) → s.depth ≡ 0 → LeastIf sha ss s
      bottom_least s [] e = rw e tt
      bottom_least s (p ∷ ss) e = tt

  pub length_one : (cs : List Chunk) → length cs ≡ 1 → (r : Chunk) × (cs ≡ r ∷ [])
  length_one [] h = absurd (omega arith)
  length_one (r ∷ []) h = (r, refl)
  length_one (r ∷ q ∷ cs) h = absurd (omega arith)

  move_up-single :
      (h : Hasher) (base : List Chunk) (r : Chunk) (g : Group) (gs : List Group)
      → move_up sha h (base ++ (r ∷ []), g ∷ gs)
        ≡ some (insert_chunk sha r 0 (record { chunks = base; groups = gs; layer = h.layer - 1 }))
  unfolding move_up insert_chunk
  move_up-single h base r g gs =
      let cut : length base ≡ length (base ++ (r ∷ [])) - 1 =
        omega (arith, length-append base (r ∷ [])) in
      rw (
        drop-append (length (base ++ (r ∷ [])) - 1) base (r ∷ []) cut,
        take-append (length (base ++ (r ∷ [])) - 1) base (r ∷ []) cut,
        move_up,
      )

  abbrev single : ℕ → List Group → List Chunk → List Chunk → ℕ → List Chunk × List Group
  single layer outer base xs d =
      (base ++ row sha d xs, record { layer = layer; depth = d; chunks = 1 } ∷ outer)

  ascend-run :
      (capacity : ℕ) (h : Hasher) (outer : List Group) (base xs : List Chunk) (d e : ℕ) (r : Chunk)
      → balance_loop sha (rounds h.groups) h.chunks h.groups ≡ some (single h.layer outer base xs d)
      → expand_loop sha 66 capacity
          (base ++ row sha d xs)
          (record { layer = h.layer; depth = d; chunks = 1 } ∷ outer)
        ≡ some (single h.layer outer base xs e)
      → row sha e xs ≡ r ∷ []
      → ascend_layer sha capacity h
        ≡ some
            (insert_chunk sha r 0 (record { chunks = base; groups = outer; layer = h.layer - 1 }))
  unfolding ascend_layer balance_layer
  ascend-run capacity h outer base xs d e r p q top =
      rw (p, q, top)
        (move_up-single
          (record h {
            chunks = base ++ row sha d xs;
            groups = record { layer = h.layer; depth = d; chunks = 1 } ∷ outer;
          })
          base r (record { layer = h.layer; depth = e; chunks = 1 }) outer)

  -- A layer with pending groups ends as the root of their leaves, one layer up.
  pub balance-state :
      (layer : ℕ) (outer : List Group) (base : List Chunk) (s : Seg) (ss : List Seg)
      → Below layer outer
      → Loose sha s ss
      → Balances sha layer outer base (rounds (groups_of sha layer outer (s ∷ ss))) s ss
  balance-state layer outer base s ss below (one, rising, least) =
      balance-total sha layer outer base (rounds (groups_of sha layer outer (s ∷ ss))) s ss below
        one rising least
        (unfold rounds in omega (arith, tail_measure-rounds layer outer s.depth ss))

  pub ascend-state :
      (layer : ℕ) (outer : List Group) (base : List Chunk) (capacity : ℕ) (s : Seg) (ss : List Seg)
      → Below layer outer
      → Loose sha s ss
      → length (leaves_of (s ∷ ss)) ≤ max_chunks
      → capacity ≤ max_chunks
      → (r : Chunk) × IsRoot sha capacity (leaves_of (s ∷ ss)) r
        × (ascend_layer sha capacity (state layer outer base (s ∷ ss))
            ≡ some (
                insert_chunk sha r 0 (record { chunks = base; groups = outer; layer = layer - 1 })))
  ascend-state layer outer base capacity s ss below loose few small =
      let (d, one, least, balanced) = balance-state layer outer base s ss below loose in
      let (e, top, fit, least', expanded) =
        expand-total sha layer outer base (leaves_of (s ∷ ss)) 66 d capacity small
          (Least-bound sha d (leaves_of (s ∷ ss)) few least) (omega arith) one
          (Least-LeastFor sha d capacity (leaves_of (s ∷ ss)) least) in
      let (r, root) = length_one (row sha e (leaves_of (s ∷ ss))) top in
      (
        r,
        record { depth = e; top = root; fits = fit; least = least' },
        ascend-run capacity (state layer outer base (s ∷ ss)) outer base (leaves_of (s ∷ ss)) d e r
            balanced expanded root,
      )

  -- A layer that is entered, filled with at least one chunk and left adds to the layer above the
  -- root of the least Merkle tree over those chunks with room for `capacity` leaves: neither the
  -- loop of balanceLayer nor that of ascendLayer runs on, and no slice is read out of range. The
  -- chunks and the capacity are at most 2^63, and no pending group is of a later layer.
  pub ascend-merkleizes :
      (capacity : ℕ) (xs : List Chunk) (h : Hasher)
      → IsOpen h
      → 1 ≤ length xs
      → length xs ≤ max_chunks
      → capacity ≤ max_chunks
      → (r : Chunk) × IsRoot sha capacity xs r
        × (ascend_layer sha capacity (insert_chunks sha xs (descend_layer h))
            ≡ some (insert_chunk sha r 0 h))
  ascend-merkleizes capacity xs h open_ filled few small =
      from_segs (insert_segs xs []) (insert_segs-Pending xs [] tt) (leaves-insert_segs xs [])
        (entered h ∙ insert_chunks-state (h.layer + 1) h.groups h.chunks xs [] open_ tt)
    where
      entered :
          (h : Hasher)
          → insert_chunks sha xs (descend_layer h)
            ≡ insert_chunks sha xs (state (h.layer + 1) h.groups h.chunks [])
      entered h = ap (insert_chunks sha xs) (descend_layer_lem h)

      from_segs :
          (ss : List Seg)
          → Pending sha 0 ss
          → leaves_of ss ≡ xs
          → insert_chunks sha xs (descend_layer h) ≡ state (h.layer + 1) h.groups h.chunks ss
          → (r : Chunk) × IsRoot sha capacity xs r
            × (ascend_layer sha capacity (insert_chunks sha xs (descend_layer h))
                ≡ some (insert_chunk sha r 0 h))
      from_segs [] p leaves run = absurd (omega (arith, ap length leaves))
      from_segs (s ∷ ss) p leaves run =
          let (r, root, ends) =
            ascend-state (h.layer + 1) h.groups h.chunks capacity s ss open_ (Pending-Loose s ss p)
              (rw leaves few) small in
          (
            r,
            rw leaves at root,
            ap (ascend_layer sha capacity) run
                ∙ ends
                ∙ ap (λ n. some (insert_chunk sha r 0 (record h { layer = n }))) (omega arith),
          )
