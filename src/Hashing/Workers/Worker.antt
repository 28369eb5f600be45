-- ===== src/Hashing/Workers/Worker.antt =====
-- hasher.go: what a worker of HashSliceOfStaticObjects computes of its objects.
use ssz.Base.{
  ℕ, zero, suc, ◌≤◌, ◌≡◌, refl, sym, ap, ◌∙◌, Option, some, List, [], ◌∷◌, length, take, drop, All,
  ◌>>=◌, arith,
}
use mathlib.Core.Path.{subst}
use ssz.Fork.{Fork}
use ssz.Hasher.{Chunk, Sha, Hasher, insert_chunk, insert_chunks, balance_layer}
use ssz.Hasher.Row.{row}
use ssz.Hasher.Segments.{Seg, leaves_of, Pending}
use ssz.Hasher.Balance.{Least}
use ssz.Hasher.Ascend.{IsRoot}
use ssz.Hasher.Merkle.{
  IsOpen, state, insert_segs, insert_chunks-state, insert_segs-Pending, leaves-insert_segs,
  Pending-Loose, balance-state, length_one,
}
use ssz.Hasher.Mixin.{IsRoot-unique}
use ssz.Hasher.Blocks.{IsTop}
use ssz.Hashing.{hash_all}
use ssz.Hashing.Objects.{hash_object}
use ssz.Hashing.Each.{Each, insert_chunk-IsOpen}
use ssz.Hashing.Lists.{Defines, hash_object-merkleizes}
use ssz.Hashing.Workers.{Slot, first_group, first_slot, hash_worker}
use ssz.Entry.Hash.{reset_hasher}

module _ {A : Type 0} where
  pub All-take : (P : A → Type 0) (n : ℕ) (xs : List A) → All P xs → All P (take n xs)
  All-take P zero xs all = tt
  All-take P (suc n) [] all = tt
  All-take P (suc n) (x ∷ xs) (one, all) = (one, All-take P n xs all)

  pub All-drop : (P : A → Type 0) (n : ℕ) (xs : List A) → All P xs → All P (drop n xs)
  All-drop P zero xs all = all
  All-drop P (suc n) [] all = tt
  All-drop P (suc n) (x ∷ xs) (one, all) = All-drop P n xs all

module _ (sha : Sha) {A : Type 0} (fields : A → List Chunk) where
  -- Object by object, the root over the chunks of its fields.
  abbrev pub Roots : List A → List Chunk → Type 0
  Roots objects rs = Each sha (λ obj r. IsRoot sha 0 (fields obj) r) objects rs

  pub Roots-take :
      (n : ℕ) (objects : List A) (rs : List Chunk)
      → Roots objects rs
      → Roots (take n objects) (take n rs)
  Roots-take zero objects rs each = tt
  Roots-take (suc n) [] [] each = tt
  Roots-take (suc n) [] (r ∷ rs) each = absurd each
  Roots-take (suc n) (obj ∷ objects) [] each = absurd each
  Roots-take (suc n) (obj ∷ objects) (r ∷ rs) (one, each) = (one, Roots-take n objects rs each)

  pub Roots-drop :
      (n : ℕ) (objects : List A) (rs : List Chunk)
      → Roots objects rs
      → Roots (drop n objects) (drop n rs)
  Roots-drop zero objects rs each = each
  Roots-drop (suc n) [] [] each = tt
  Roots-drop (suc n) [] (r ∷ rs) each = absurd each
  Roots-drop (suc n) (obj ∷ objects) [] each = absurd each
  Roots-drop (suc n) (obj ∷ objects) (r ∷ rs) (one, each) = Roots-drop n objects rs each

  pub length-Roots :
      (objects : List A) (rs : List Chunk) → Roots objects rs → length rs ≡ length objects
  length-Roots [] [] each = refl
  length-Roots [] (r ∷ rs) each = absurd each
  length-Roots (obj ∷ objects) [] each = absurd each
  length-Roots (obj ∷ objects) (r ∷ rs) (one, each) = ap suc (length-Roots objects rs each)

  module _ (define : A → Hasher → Option Hasher) where
    pub object-Roots :
        (objects : List A)
        → All (Defines sha define fields) objects
        → (rs : List Chunk) × Roots objects rs
    object-Roots [] all = ([], tt)
    object-Roots (obj ∷ objects) (one, all) =
        let (r, root, run) = hash_object-merkleizes sha define fields obj one reset_hasher tt in
        let (rs, each) = object-Roots objects all in (r ∷ rs, (root, each))

    -- The roots are those that any hasher adds.
    pub hash_all-Roots :
        (objects : List A) (rs : List Chunk) (h : Hasher)
        → All (Defines sha define fields) objects
        → Roots objects rs
        → IsOpen h
        → hash_all (hash_object sha define) objects h ≡ some (insert_chunks sha rs h)
    unfolding hash_all insert_chunks
    hash_all-Roots [] [] h all each o = refl
    hash_all-Roots [] (r ∷ rs) h all each o = absurd each
    hash_all-Roots (obj ∷ objects) [] h all each o = absurd each
    hash_all-Roots (obj ∷ objects) (r ∷ rs) h (one, all) (root, each) o =
        let (q, root', run) = hash_object-merkleizes sha define fields obj one h o in
        ap (λ m. m >>= hash_all (hash_object sha define) objects)
          (run
            ∙ ap (λ x. some (insert_chunk sha x 0 h))
                (IsRoot-unique sha 0 (fields obj) q r root' root))
        ∙ hash_all-Roots objects rs (insert_chunk sha r 0 h) all each
            (insert_chunk-IsOpen sha r h o)

  balanced :
      (rs : List Chunk) (s : Seg) (ss : List Seg)
      → Pending sha 0 (s ∷ ss)
      → leaves_of (s ∷ ss) ≡ rs
      → (slot : Slot) × IsTop sha rs slot
        × ((balance_layer sha (state sha 0 [] [] (s ∷ ss)) >>= first_slot) ≡ some slot)
  unfolding balance_layer first_slot first_group
  balanced rs s ss p leaves =
      let (d, one, least, run) = balance-state sha 0 [] [] s ss tt (Pending-Loose sha s ss p) in
      let (c, top) = length_one sha (row sha d (leaves_of (s ∷ ss))) one in
      let h0 = state sha 0 [] [] (s ∷ ss) in
      (
        (c, d),
        (ap (row sha d) (sym leaves) ∙ top, subst (Least sha d) leaves least),
        ap (λ m. m >>= (λ r. some (record h0 { chunks = r.0; groups = r.1 })) >>= first_slot) run
            ∙ ap
                (λ cs. first_slot (record h0 {
                  chunks = cs;
                  groups = record { layer = 0; depth = d; chunks = 1 } ∷ [];
                }))
                top,
      )

  module _ (define : Fork → A → Hasher → Option Hasher) (fork : Fork) where
    pub hash_worker-IsTop :
        (objects : List A) (rs : List Chunk)
        → All (Defines sha (define fork) fields) objects
        → Roots objects rs
        → 1 ≤ length rs
        → (slot : Slot) × IsTop sha rs slot × (hash_worker sha define fork objects ≡ some slot)
    unfolding hash_worker
    hash_worker-IsTop objects rs all each filled =
        from_segs (insert_segs sha rs []) (insert_segs-Pending sha rs [] tt)
          (leaves-insert_segs sha rs [])
          (hash_all-Roots (define fork) objects rs reset_hasher all each tt
            ∙ ap some (insert_chunks-state sha 0 [] [] rs [] tt tt))
      where
        from_segs :
            (ss : List Seg)
            → Pending sha 0 ss
            → leaves_of ss ≡ rs
            → hash_all (hash_object sha (define fork)) objects reset_hasher
              ≡ some (state sha 0 [] [] ss)
            → (slot : Slot) × IsTop sha rs slot
              × ((hash_all (hash_object sha (define fork)) objects reset_hasher
                    >>= balance_layer sha
                    >>= first_slot)
                  ≡ some slot)
        from_segs [] p leaves run = absurd (omega (arith, ap length leaves))
        from_segs (s ∷ ss) p leaves run =
            let (slot, top, found) = balanced rs s ss p leaves in
            (slot, top, ap (λ m. m >>= balance_layer sha >>= first_slot) run ∙ found)
