-- ===== src/Decoder/Slots.antt =====
-- One step of decoder.go inside a slot of a buffer: an offset, a size, a blob.
use ssz.Base.{
  ℕ, ◌^◌, ◌≤◌, ◌<◌, ◌≡◌, sym, ◌∙◌, Bool, true, false, Option, none, some, List, [], ◌∷◌, ◌++◌,
  length, length-append, length-take, length-replicate, take-append, drop-append, le→ltb, lt→ltb,
  arith,
}
use native.Mathlib.Nat.{mod-eq_of_lt}
use native.Mathlib.Decide.{dec_lt}
use ssz.Base.Words.{put_uint, length-put_uint, get_uint-put_uint}
use ssz.Decoder.{Decoder, resize}
use ssz.Decoder.Offsets.{appended, check_offset, decode_offset, fill_sizes, pop_size, retrieve_size}
use ssz.Decoder.Contents.{fill_blob, decode_sized_bytes, decode_dynamic_bytes_content}

-- A decoder that reads a buffer and has met no error, by what varies inside a slot.
abbrev pub slot : Decoder → List ℕ → ℕ → Option (List ℕ) → List ℕ → Decoder
slot base input offset offsets sizes = record base {
  streaming = false;
  err = none;
  input = input;
  offset = offset;
  offsets = offsets;
  sizes = sizes;
}

module _ (base : Decoder) where
  check_offset-next :
      (o p : ℕ) (os rest sizes : List ℕ)
      → o ≤ p
      → p ≤ base.msg_length
      → check_offset false p (slot base rest o (some os) sizes)
        ≡ slot base rest p (some (os ++ (p ∷ []))) sizes
  unfolding check_offset
  check_offset-next o p os rest sizes up low = rw (le→ltb base.msg_length p low, le→ltb p o up)

  check_offset-first :
      (p : ℕ) (off : Option (List ℕ)) (rest sizes : List ℕ)
      → p ≤ base.msg_length
      → check_offset true p (slot base rest 0 off sizes)
        ≡ slot base rest p (some (appended off p)) sizes
  unfolding check_offset
  check_offset-first p none rest sizes low = rw (le→ltb base.msg_length p low)
  check_offset-first p (some l) rest sizes low =
      rw (le→ltb base.msg_length p low, le→ltb p 0 (omega arith))

  decode_offset-read :
      (list : Bool) (o p : ℕ) (off : Option (List ℕ)) (rest sizes : List ℕ)
      → p < 2 ^ 32
      → decode_offset list (slot base (put_uint 4 p ++ rest) o off sizes)
        ≡ check_offset list p (slot base rest o off sizes)
  unfolding decode_offset
  decode_offset-read list o p off rest sizes small = rw (
    le→ltb (length (put_uint 4 p ++ rest)) 4
        (omega (arith, length-append (put_uint 4 p) rest, length-put_uint 4 p)),
    take-append 4 (put_uint 4 p) rest (length-put_uint 4 p),
    drop-append 4 (put_uint 4 p) rest (length-put_uint 4 p),
    get_uint-put_uint 4 p small,
  )

  pub decode_offset-first :
      (p : ℕ) (off : Option (List ℕ)) (rest sizes : List ℕ)
      → p < 2 ^ 32
      → p ≤ base.msg_length
      → decode_offset true (slot base (put_uint 4 p ++ rest) 0 off sizes)
        ≡ slot base rest p (some (appended off p)) sizes
  decode_offset-first p off rest sizes small low =
      decode_offset-read true 0 p off rest sizes small ∙ check_offset-first p off rest sizes low

  pub decode_offset-next :
      (o p : ℕ) (os rest sizes : List ℕ)
      → p < 2 ^ 32
      → o ≤ p
      → p ≤ base.msg_length
      → decode_offset false (slot base (put_uint 4 p ++ rest) o (some os) sizes)
        ≡ slot base rest p (some (os ++ (p ∷ []))) sizes
  decode_offset-next o p os rest sizes small up low =
      decode_offset-read false o p (some os) rest sizes small
      ∙ check_offset-next o p os rest sizes up low

  pub length-resize : (size : ℕ) (backing : List ℕ) → length (resize size backing) ≡ size
  unfolding resize
  length-resize size backing = elim (dec_lt (length backing) size) [
    | yes small ↦ rw (lt→ltb _ _ small) (length-replicate size 0)
    | no big ↦
        rw (le→ltb (length backing) size (omega arith)) (omega (arith, length-take size backing))
  ]

  fill_blob-read :
      (b blob rest : List ℕ) (o : ℕ) (off : Option (List ℕ)) (ss : List ℕ)
      → length b ≡ length blob
      → length (b ++ rest) < 2 ^ 32
      → fill_blob blob (slot base (b ++ rest) o off ss) ≡ (b, slot base rest o off ss)
  unfolding fill_blob
  fill_blob-read b blob rest o off ss e small = rw (
    mod-eq_of_lt small,
    le→ltb (length (b ++ rest)) (length blob) (omega (arith, length-append b rest)),
    take-append (length blob) b rest e,
    drop-append (length blob) b rest e,
  )

  -- A blob whose size is known is cut from the front of the buffer.
  pub decode_content-read :
      (b rest : List ℕ) (backing : List ℕ) (max_size o : ℕ) (off : Option (List ℕ)) (ss : List ℕ)
      → length b ≤ max_size
      → length (b ++ rest) < 2 ^ 32
      → decode_dynamic_bytes_content backing max_size (slot base (b ++ rest) o off (length b ∷ ss))
        ≡ some (some b, slot base rest o off ss)
  unfolding decode_dynamic_bytes_content decode_sized_bytes retrieve_size fill_sizes pop_size
  decode_content-read b rest backing max_size o off ss fits small = rw (
    le→ltb max_size (length b) fits,
    fill_blob-read b (resize (length b) backing) rest o off ss
        (sym (length-resize (length b) backing)) small,
  )
