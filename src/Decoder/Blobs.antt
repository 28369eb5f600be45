-- ===== src/Decoder/Blobs.antt =====
-- DecodeSliceOfDynamicBytesContent of decoder.go on the encoding of a list of blobs.
use ssz.Base.{
  ℕ, suc, ◌+◌, ◌-◌, ◌*◌, ◌/◌, ◌%◌, ◌^◌, ◌≤◌, ◌<◌, ◌≡◌, refl, sym, ap, ap₂, ◌∙◌, Option, some, List,
  [], ◌∷◌, ◌++◌, append_assoc, append-nil, map, length, length-append, length-take,
  length-replicate, ==_iff, ==_false, le→ltb, lt→ltb, arith, All,
}
use native.Mathlib.Decide.{dec_lt}
use ssz.Base.Words.{put_uint}
use ssz.Format.{total_length, joined, starts, table, encoded_length}
use ssz.Decoder.{Decoder}
use ssz.Decoder.Offsets.{seen, sizes_of, fill_sizes, pop_size, retrieve_size}
use ssz.Decoder.Contents.{
  decode_dynamic_bytes_content, decode_dynamic_bytes_offset, decode_offsets, decode_blobs,
  resize_blobs, decode_counted_blobs,
}
use ssz.Decoder.Slots.{slot, decode_offset-next, decode_content-read}

abbrev pub Fits : ℕ → List (List ℕ) → Type 0
Fits max_size blobs = All (λ b. length b ≤ max_size) blobs

-- The start of the last of several blobs.
abbrev pub last_start : ℕ → List ℕ → List (List ℕ) → ℕ
last_start o b [] = o
last_start o b (c ∷ bs) = last_start (o + length b) c bs

abbrev lengths_of : List (List ℕ) → List ℕ
lengths_of [] = []
lengths_of (b ∷ bs) = length b ∷ lengths_of bs

-- The sizes that the offsets give are the lengths of the blobs.
sizes_of-starts :
    (o total : ℕ) (b : List ℕ) (bs : List (List ℕ))
    → total ≡ o + length b + total_length bs
    → total < 2 ^ 32
    → sizes_of (o ∷ starts (o + length b) bs) total ≡ length b ∷ lengths_of bs
unfolding sizes_of
sizes_of-starts o total b [] e small = ap (λ s. s ∷ []) (omega arith)
sizes_of-starts o total b (c ∷ bs) e small =
    ap₂ (λ s ss. s ∷ ss) (omega arith)
      (sizes_of-starts (o + length b) total c bs (omega arith) small)

module _ (base : Decoder) where
  decode_offsets-table :
      (o : ℕ) (b : List ℕ) (bs : List (List ℕ)) (os rest : List ℕ)
      → o + length b + total_length bs ≤ base.msg_length
      → base.msg_length < 2 ^ 32
      → decode_offsets
          (length bs)
          (slot base (table (starts (o + length b) bs) ++ rest) o (some os) [])
        ≡ slot base rest (last_start o b bs) (some (os ++ starts (o + length b) bs)) []
  unfolding decode_offsets decode_dynamic_bytes_offset
  decode_offsets-table o b [] os rest room small =
      ap (λ l. slot base rest o (some l) []) (sym (append-nil os))
  decode_offsets-table o b (c ∷ bs) os rest room small =
      rw
        (append_assoc (put_uint 4 (o + length b)) (table (starts (o + length b + length c) bs))
          rest)
        (ap (decode_offsets (length bs)) (
            decode_offset-next base o (o + length b) os
              (table (starts (o + length b + length c) bs) ++ rest) [] (omega arith) (omega arith)
              (omega arith))
          ∙ decode_offsets-table (o + length b) c bs (os ++ ((o + length b) ∷ [])) rest
              (omega arith) small
          ∙ ap (λ l. slot base rest (last_start (o + length b) c bs) (some l) [])
              (append_assoc os ((o + length b) ∷ []) (starts (o + length b + length c) bs)))

  decode_blobs-sized :
      (bs backing : List (List ℕ)) (max_size o : ℕ) (off : Option (List ℕ)) (rest : List ℕ)
      → length bs ≡ length backing
      → Fits max_size bs
      → length (joined bs ++ rest) < 2 ^ 32
      → decode_blobs backing max_size (slot base (joined bs ++ rest) o off (lengths_of bs))
        ≡ some (map some bs, slot base rest o off [])
  unfolding decode_blobs
  decode_blobs-sized [] [] max_size o off rest e fits small = refl
  decode_blobs-sized [] (a ∷ as_) max_size o off rest e fits small = absurd (omega arith)
  decode_blobs-sized (b ∷ bs) [] max_size o off rest e fits small = absurd (omega arith)
  decode_blobs-sized (b ∷ bs) (a ∷ more) max_size o off rest e (fit, fits) small =
      let regroup = append_assoc b (joined bs) rest in
      let small' : length (b ++ (joined bs ++ rest)) < 2 ^ 32 = rw regroup at small in
      rw (
        regroup,
        decode_content-read base b (joined bs ++ rest) a max_size o off (lengths_of bs) fit small',
        decode_blobs-sized bs more max_size o off rest (omega arith) fits
            (omega (arith, length-append b (joined bs ++ rest))),
      )

  -- The first content finds no sizes and computes them all.
  decode_blobs-unsized :
      (o total : ℕ) (b a : List ℕ) (bs more : List (List ℕ)) (max_size p : ℕ) (rest : List ℕ)
      → total ≡ o + length b + total_length bs
      → total ≡ base.msg_length
      → total < 2 ^ 32
      → decode_blobs (a ∷ more) max_size (slot base rest p (some (o ∷ starts (o + length b) bs)) [])
        ≡ decode_blobs (a ∷ more) max_size (slot base rest p (some []) (lengths_of (b ∷ bs)))
  unfolding decode_blobs decode_dynamic_bytes_content retrieve_size fill_sizes pop_size seen
  decode_blobs-unsized o total b a bs more max_size p rest e f small =
      let sized : sizes_of (o ∷ starts (o + length b) bs) base.msg_length
          ≡ length b ∷ lengths_of bs =
        sizes_of-starts o base.msg_length b bs (omega arith) (omega arith) in
      rw sized

  decode_blobs-read :
      (o : ℕ) (b : List ℕ) (bs backing : List (List ℕ)) (max_size p : ℕ) (rest : List ℕ)
      → length (b ∷ bs) ≡ length backing
      → base.msg_length ≡ o + length b + total_length bs
      → base.msg_length < 2 ^ 32
      → Fits max_size (b ∷ bs)
      → length (joined (b ∷ bs) ++ rest) < 2 ^ 32
      → decode_blobs backing max_size
          (slot base (joined (b ∷ bs) ++ rest) p (some (o ∷ starts (o + length b) bs)) [])
        ≡ some (map some (b ∷ bs), slot base rest p (some []) [])
  decode_blobs-read o b bs [] max_size p rest e f small fits short = absurd (omega arith)
  decode_blobs-read o b bs (a ∷ more) max_size p rest e f small fits short =
      decode_blobs-unsized o base.msg_length b a bs more max_size p (joined (b ∷ bs) ++ rest) f refl
        small
      ∙ decode_blobs-sized (b ∷ bs) (a ∷ more) max_size p (some []) rest e fits short

  length-resize_blobs :
      (items : ℕ) (backing : List (List ℕ)) → length (resize_blobs items backing) ≡ items
  unfolding resize_blobs
  length-resize_blobs items backing = elim (dec_lt (length backing) items) [
    | yes small ↦ rw (lt→ltb _ _ small) (length-replicate items [])
    | no big ↦
        rw (le→ltb (length backing) items (omega arith)) (omega (arith, length-take items backing))
  ]

  -- What follows the first offset, `4 * n`, of a list of `n` blobs.
  pub decode_counted-read :
      (b : List ℕ) (bs backing : List (List ℕ)) (max_items max_size : ℕ) (rest : List ℕ)
      → base.msg_length ≡ encoded_length (b ∷ bs)
      → base.msg_length < 2 ^ 32
      → length (b ∷ bs) ≤ max_items
      → Fits max_size (b ∷ bs)
      → length (joined (b ∷ bs) ++ rest) < 2 ^ 32
      → decode_counted_blobs backing max_items max_size (
          slot base
            (table (starts (4 * length (b ∷ bs) + length b) bs) ++ (joined (b ∷ bs) ++ rest))
            (4 * length (b ∷ bs))
            (some ((4 * length (b ∷ bs)) ∷ []))
            [])
        ≡ some (
          some (map some (b ∷ bs)),
          slot base rest (last_start (4 * length (b ∷ bs)) b bs) (some []) [],
        )
  unfolding decode_counted_blobs
  decode_counted-read b bs backing max_items max_size rest e small few fits short =
      let n = length (b ∷ bs) in
      let items : 4 * n / 4 ≡ suc (length bs) = omega arith in
      let others : 4 * n / 4 - 1 ≡ length bs = omega arith in
      rw (
        ==_false (4 * n) 0 (omega arith),
        (==_iff (4 * n % 4) 0).1 (omega arith),
        le→ltb max_items (4 * n / 4) (omega arith),
        others,
        decode_offsets-table (4 * n) b bs ((4 * n) ∷ []) (joined (b ∷ bs) ++ rest) (omega arith)
            small,
        decode_blobs-read (4 * n) b bs (resize_blobs (4 * n / 4) backing) max_size
            (last_start (4 * n) b bs) rest (sym (length-resize_blobs (4 * n / 4) backing ∙ items))
            (omega arith) small fits short,
      )
