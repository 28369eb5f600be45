-- ===== src/Decoder/Offsets.antt =====
-- decoder.go: data slots, the offsets of dynamic fields, and the sizes that follow from them.
use ssz.Base.{
  ℕ, ◌+◌, ◌-◌, ◌%◌, ◌^◌, Bool, true, false, ◌&&◌, Option, none, some, List, [], ◌∷◌, ◌++◌, length,
  take, ltb, ◌==◌, if◌then◌else◌, ◌>>=◌,
}
use mathlib.Core.Bool.{not}
use ssz.Base.Words.{u32, get_uint}
use ssz.Errors.{
  unexpected_eof, offset_beyond_capacity, first_offset_mismatch, bad_offset_progression,
  object_slot_size_mismatch,
}
use ssz.Decoder.{Decoder, fail, has_failed, read_buf, count_read, advance}

abbrev pub sub32 : ℕ → ℕ → ℕ
sub32 a b = (a + 2 ^ 32 - b) % 2 ^ 32

abbrev pub is_nil : Option (List ℕ) → Bool
is_nil none = true
is_nil (some l) = false

-- `l[:0]`, which stays nil for a nil slice.
abbrev pub cleared : Option (List ℕ) → Option (List ℕ)
cleared none = none
cleared (some l) = some []

abbrev pub appended : Option (List ℕ) → ℕ → List ℕ
appended none o = o ∷ []
appended (some l) o = l ++ (o ∷ [])

-- The checks of decodeOffset on an offset that was read.
unfoldable pub check_offset : Bool → ℕ → Decoder → Decoder
check_offset list offset dec =
    if ltb dec.msg_length offset
    then fail offset_beyond_capacity dec
    else (if is_nil dec.offsets && (not list && not (dec.offset == offset))
        then fail first_offset_mismatch dec
        else (if not (is_nil dec.offsets) && ltb offset dec.offset
            then fail bad_offset_progression dec
            else record dec { offset = offset; offsets = some (appended dec.offsets offset) }))

unfoldable pub decode_offset : Bool → Decoder → Decoder
decode_offset list dec =
    if has_failed dec.err
    then dec
    else (if dec.streaming
        then (let d = read_buf 4 dec in
            if has_failed d.err
            then d
            else check_offset list (get_uint (take 4 d.buf)) (count_read 4 d))
        else (if ltb (length dec.input) 4
            then fail unexpected_eof dec
            else check_offset list (get_uint (take 4 dec.input)) (advance 4 dec)))

-- The sizes between the offsets, and from the last one to the end of the message.
unfoldable pub sizes_of : List ℕ → ℕ → List ℕ
sizes_of [] total = []
sizes_of (o ∷ []) total = sub32 total o ∷ []
sizes_of (o ∷ p ∷ os) total = sub32 p o ∷ sizes_of (p ∷ os) total

unfoldable pub seen : Option (List ℕ) → List ℕ
seen none = []
seen (some l) = l

unfoldable pub pop_size : Decoder → List ℕ → Option (ℕ × Decoder)
pop_size dec [] = none
pop_size dec (s ∷ ss) = some (s, record dec { sizes = ss })

unfoldable pub fill_sizes : Decoder → List ℕ → Decoder
fill_sizes dec [] = record dec {
  sizes = sizes_of (seen dec.offsets) dec.msg_length;
  offsets = cleared dec.offsets;
}
fill_sizes dec (s ∷ ss) = dec

-- `none` is the index panic of a content that no offset announced.
unfoldable pub retrieve_size : Decoder → Option (ℕ × Decoder)
retrieve_size dec = let d = fill_sizes dec dec.sizes in pop_size d d.sizes

unfoldable pub start_dynamics : ℕ → Decoder → Decoder
start_dynamics offset dec = record dec {
  offset = offset;
  sizess = dec.sizes ∷ dec.sizess;
  sizes = [];
}

unfoldable pub flush_dynamics : Decoder → Option Decoder
flush_dynamics dec = elim dec.sizess [
  | [] ↦ none
  | top ∷ outer ↦ some (record dec { offsets = cleared dec.offsets; sizes = top; sizess = outer })
]

-- The address of inBuffer[0], or inBufEnd for an empty buffer.
abbrev pub buf_ptr : Decoder → ℕ
buf_ptr dec = dec.in_buf_end - length dec.input

unfoldable pub descend_into_slot : ℕ → Decoder → Decoder
descend_into_slot len dec =
    let d = record dec { lengths = dec.msg_length ∷ dec.lengths; msg_length = len } in
    start_dynamics 0 (
      if dec.streaming
      then record d { in_reads = dec.in_read ∷ dec.in_reads; in_read = 0 }
      else record d { in_buf_ptrs = dec.in_buf_ptr ∷ dec.in_buf_ptrs; in_buf_ptr = buf_ptr dec })

-- The size check of ascendFromSlot; an earlier error is kept.
unfoldable pub check_slot : ℕ → Decoder → Decoder
check_slot read dec =
    if read == dec.msg_length
    then dec
    else (if has_failed dec.err then dec else fail object_slot_size_mismatch dec)

unfoldable pub leave_source : Decoder → Option Decoder
leave_source dec =
    if dec.streaming
    then (elim dec.in_reads [
      | [] ↦ none
      | r ∷ rs ↦
          some
            (record (check_slot dec.in_read dec) { in_read = u32 (dec.in_read + r); in_reads = rs })
    ])
    else (elim dec.in_buf_ptrs [
      | [] ↦ none
      | p ∷ ps ↦ some (record (check_slot (u32 (buf_ptr dec - dec.in_buf_ptr)) dec) {
        in_buf_ptr = p;
        in_buf_ptrs = ps;
      })
    ])

unfoldable pub leave_length : Decoder → Option Decoder
leave_length dec = elim dec.lengths [
  | [] ↦ none
  | l ∷ ls ↦ some (record dec { msg_length = l; lengths = ls })
]

-- `none` is an ascent without a descent.
unfoldable pub ascend_from_slot : Decoder → Option Decoder
ascend_from_slot dec = flush_dynamics dec >>= λ d. leave_source d >>= leave_length
