-- ===== src/Hasher/Ascend.antt =====
-- ascendLayer of hasher.go: balance, expansion to capacity, and the move of the root up a layer.
use ssz.Base.{
  ℕ, zero, suc, ◌+◌, ◌*◌, ◌%◌, ◌^◌, ◌≤◌, ◌<◌, ◌≡◌, ◌⊎◌, refl, ap, ap₂, ◌∙◌, true, false, inl, inr,
  List, [], ◌∷◌, ◌++◌, length, leb, le→leb, lt→leb, arith, some,
}
use native.Mathlib.Nat.{pow-suc, pow-le-pow_right, mod-eq_of_lt}
use native.Mathlib.Decide.{dec_le}
use ssz.Hasher.{Chunk, Sha, Group, zero_cache, hash_last, expand_loop}
use ssz.Hasher.Row.{row, length-row-suc}
use ssz.Hasher.Segments.{hash_last-row_odd}
use ssz.Hasher.Balance.{Least}

abbrev pub max_chunks : ℕ
max_chunks = 2 ^ 63

pub pow-le : {d e : ℕ} → d ≤ e → 2 ^ d ≤ 2 ^ e
pow-le h = pow-le-pow_right (omega arith) h

module _ (sha : Sha) where
  pub row-shrinks : (d m : ℕ) (xs : List Chunk) → length xs ≤ 2 ^ d * m → length (row sha d xs) ≤ m
  row-shrinks zero m xs h = unfold row in omega arith
  row-shrinks (suc d) m xs h = omega (
    arith,
    length-row-suc sha d xs,
    row-shrinks d (2 * m) xs (omega (arith, ap (λ (t : ℕ). t * m) (pow-suc 2 d))),
  )

  pub Least-bound : (d : ℕ) (xs : List Chunk) → length xs ≤ max_chunks → Least sha d xs → d ≤ 63
  Least-bound zero xs h l = omega arith
  Least-bound (suc d) xs h l = elim (dec_le 63 d) [
    | yes big ↦ absurd (omega (arith, row-shrinks d 1 xs (omega (arith, pow-le big))))
    | no small ↦ omega arith
  ]

  -- No smaller tree has one root and as many leaves as the capacity.
  abbrev pub LeastFor : ℕ → ℕ → List Chunk → Type 0
  LeastFor zero capacity xs = Unit
  LeastFor (suc d) capacity xs = (1 < length (row sha d xs)) ⊎ (2 ^ d < capacity)

  pub Least-LeastFor : (d capacity : ℕ) (xs : List Chunk) → Least sha d xs → LeastFor d capacity xs
  Least-LeastFor zero capacity xs l = tt
  Least-LeastFor (suc d) capacity xs l = inl l

  -- `r` is the root of the least tree over `xs` that has room for `capacity` leaves.
  pub record IsRoot (capacity : ℕ) (xs : List Chunk) (r : Chunk) : Type 0 where
    pub depth : ℕ
    pub top : row sha depth xs ≡ r ∷ []
    pub fits : capacity ≤ 2 ^ depth
    pub least : LeastFor depth capacity xs

  module _ (layer : ℕ) (outer : List Group) (base : List Chunk) (xs : List Chunk) where
    abbrev single : ℕ → List Chunk × List Group
    single d = (base ++ row sha d xs, record { layer = layer; depth = d; chunks = 1 } ∷ outer)

    expand-stop :
        (fuel capacity : ℕ) (cs : List Chunk) (g : Group) (gs : List Group)
        → leb capacity (2 ^ g.depth % 2 ^ 64) ≡ true
        → expand_loop sha (suc fuel) capacity cs (g ∷ gs) ≡ some (cs, g ∷ gs)
    unfolding expand_loop
    expand-stop fuel capacity cs g gs e = rw (e, expand_loop)

    expand-round :
        (fuel capacity : ℕ) (cs : List Chunk) (g : Group) (gs : List Group)
        → leb capacity (2 ^ g.depth % 2 ^ 64) ≡ false
        → leb g.depth 64 ≡ true
        → expand_loop sha (suc fuel) capacity cs (g ∷ gs)
          ≡ expand_loop sha fuel capacity
              (hash_last sha 2 (cs ++ (zero_cache sha g.depth ∷ [])))
              (record g { depth = g.depth + 1 } ∷ gs)
    unfolding expand_loop
    expand-round fuel capacity cs g gs e f = rw (e, f, expand_loop)

    fits_word : (d : ℕ) → d ≤ 63 → 2 ^ d % 2 ^ 64 ≡ 2 ^ d
    fits_word d h = mod-eq_of_lt (omega (arith, pow-le h))

    abbrev Expands : ℕ → ℕ → ℕ → Type 0
    Expands fuel capacity d =
        (e : ℕ) × (length (row sha e xs) ≡ 1)
        × (capacity ≤ 2 ^ e)
        × LeastFor e capacity xs
        × (expand_loop sha fuel capacity (single d).0 (single d).1 ≡ some (single e))

    pub expand-total :
        (fuel d capacity : ℕ)
        → capacity ≤ max_chunks
        → d ≤ 63
        → 64 ≤ fuel + d
        → length (row sha d xs) ≡ 1
        → LeastFor d capacity xs
        → Expands fuel capacity d
    expand-total zero d capacity small low enough one least = absurd (omega arith)
    expand-total (suc fuel) d capacity small low enough one least = elim (dec_le capacity (2 ^ d)) [
      | yes fit ↦ (
        d,
        one,
        fit,
        least,
        expand-stop fuel capacity _ _ outer (le→leb _ _ (rw (fits_word d low) fit)),
      )
      | no more ↦
          let room : d < 63 = below_top d capacity small low more in
          let (e, top, fit, least', run) =
            expand-total fuel (suc d) capacity small room (omega arith)
              (omega (arith, length-row-suc sha d xs)) (inr (omega arith)) in
          (
            e,
            top,
            fit,
            least',
            expand-round fuel capacity _ _ outer (lt→leb _ _ (rw (fits_word d low) (omega arith)))
                  (le→leb d 64 (omega arith))
                ∙ ap₂ (expand_loop sha fuel capacity)
                    (hash_last-row_odd sha 2 d base xs (omega arith) refl)
                    (ap (λ n. record { layer = layer; depth = n; chunks = 1 } ∷ outer)
                      (omega arith))
                ∙ run,
          )
    ]
      where
        below_top :
            (d capacity : ℕ) → capacity ≤ max_chunks → d ≤ 63 → ¬ (capacity ≤ 2 ^ d) → d < 63
        below_top d capacity small low more = elim (dec_le 63 d) [
          | yes big ↦ absurd (omega (arith, pow-le big))
          | no below ↦ omega arith
        ]
