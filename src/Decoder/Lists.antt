-- ===== src/Decoder/Lists.antt =====
-- A slot of decoder.go that holds the encoding of a list of blobs.
use ssz.Base.{
  ℕ, ◌+◌, ◌-◌, ◌*◌, ◌%◌, ◌^◌, ◌≤◌, ◌<◌, ◌≡◌, refl, ap, ◌∙◌, true, Option, none, some, List, [], ◌∷◌,
  ◌++◌, append_assoc, map, length, length-append, ==_iff, ==_false, le→ltb, arith,
}
use ssz.Base.Words.{put_uint}
use ssz.Format.{joined, starts, table, encoding, encoded_length, length-encoding, length-joined}
use ssz.Decoder.{Decoder}
use ssz.Decoder.Offsets.{
  appended, seen, descend_into_slot, ascend_from_slot, start_dynamics, flush_dynamics, leave_source,
  check_slot, leave_length, decode_offset,
}
use ssz.Decoder.Contents.{decode_sized_blobs}
use ssz.Decoder.Slots.{slot, decode_offset-first}
use ssz.Decoder.Blobs.{Fits, last_start, decode_counted-read}

appended_of : (p : ℕ) (off : Option (List ℕ)) → seen off ≡ [] → appended off p ≡ p ∷ []
unfolding seen
appended_of p none e = refl
appended_of p (some l) e = rw e

regroup_encoding :
    (o : ℕ) (os js rest : List ℕ)
    → ((put_uint 4 o ++ os) ++ js) ++ rest ≡ put_uint 4 o ++ (os ++ (js ++ rest))
regroup_encoding o os js rest =
    append_assoc (put_uint 4 o ++ os) js rest ∙ append_assoc (put_uint 4 o) os (js ++ rest)

module _ (base : Decoder) (off : Option (List ℕ)) (fresh : seen off ≡ []) where
  -- The decoder inside the slot of `size` bytes that starts at `input`.
  abbrev inside : ℕ → List ℕ → List ℕ → Decoder
  inside size input ss = record base {
    lengths = base.msg_length ∷ base.lengths;
    msg_length = size;
    in_buf_ptrs = base.in_buf_ptr ∷ base.in_buf_ptrs;
    in_buf_ptr = base.in_buf_end - length input;
    sizess = ss ∷ base.sizess;
  }

  descend-slot :
      (size o : ℕ) (input ss : List ℕ)
      → descend_into_slot size (slot base input o off ss)
        ≡ slot (inside size input ss) input 0 off []
  unfolding descend_into_slot start_dynamics
  descend-slot size o input ss = refl

  ascend-slot :
      (size p : ℕ) (input rest ss : List ℕ)
      → length input ≡ size + length rest
      → length input ≤ base.in_buf_end
      → size < 2 ^ 32
      → ascend_from_slot (slot (inside size input ss) rest p (some []) [])
        ≡ some (slot base rest p (some []) ss)
  unfolding ascend_from_slot flush_dynamics leave_source check_slot leave_length
  ascend-slot size p input rest ss e room small =
      let read : (base.in_buf_end - length rest - (base.in_buf_end - length input)) % 2 ^ 32
          ≡ size =
        omega arith in
      rw (read, (==_iff size size).1 refl)

  pub decode_sized-read :
      (b : List ℕ) (bs backing : List (List ℕ)) (max_items max_size o : ℕ) (rest ss : List ℕ)
      → length (encoding (b ∷ bs) ++ rest) ≤ base.in_buf_end
      → length (encoding (b ∷ bs) ++ rest) < 2 ^ 32
      → length (b ∷ bs) ≤ max_items
      → Fits max_size (b ∷ bs)
      → decode_sized_blobs backing max_items max_size
          (encoded_length (b ∷ bs))
          (slot base (encoding (b ∷ bs) ++ rest) o off ss)
        ≡ some (
          some (map some (b ∷ bs)),
          slot base rest (last_start (4 * length (b ∷ bs)) b bs) (some []) ss,
        )
  unfolding decode_sized_blobs
  decode_sized-read b bs backing max_items max_size o rest ss room small few fits =
      let n = length (b ∷ bs) in
      let size = encoded_length (b ∷ bs) in
      let input = encoding (b ∷ bs) ++ rest in
      let tail = table (starts (4 * n + length b) bs) ++ (joined (b ∷ bs) ++ rest) in
      let whole : length input ≡ size + length rest =
        omega (arith, length-append (encoding (b ∷ bs)) rest, length-encoding (b ∷ bs)) in
      let regroup : input ≡ put_uint 4 (4 * n) ++ tail =
        regroup_encoding (4 * n) (table (starts (4 * n + length b) bs)) (joined (b ∷ bs)) rest in
      let first : decode_offset true (descend_into_slot size (slot base input o off ss))
          ≡ slot (inside size input ss) tail (4 * n) (some ((4 * n) ∷ [])) [] =
        ap (decode_offset true)
          (descend-slot size o input ss ∙ ap (λ t. slot (inside size input ss) t 0 off []) regroup)
        ∙ decode_offset-first (inside size input ss) (4 * n) off tail [] (omega arith) (omega arith)
        ∙ ap (λ l. slot (inside size input ss) tail (4 * n) (some l) [])
            (appended_of (4 * n) off fresh) in
      rw (
        ==_false size 0 (omega arith),
        le→ltb size 4 (omega arith),
        first,
        decode_counted-read (inside size input ss) b bs backing max_items max_size rest refl
            (omega arith) few fits
            (omega (arith, length-append (joined (b ∷ bs)) rest, length-joined (b ∷ bs))),
        ascend-slot size (last_start (4 * n) b bs) input rest ss whole room (omega arith),
      )
