-- ===== src/Decoder/Bits.antt =====
-- decoder.go: bit vectors and bit lists.
use ssz.Base.{
  ℕ, zero, suc, ◌+◌, ◌-◌, ◌*◌, ◌/◌, ◌%◌, ◌^◌, ◌≤◌, ◌<◌, ◌≡◌, inl, inr, refl, sym, ap, ◌∙◌, Bool,
  true, false, Option, none, some, List, [], ◌∷◌, length, take, drop, ltb, ◌==◌, if◌then◌else◌,
  ◌>>=◌, arith, Bool-cases,
}
use mathlib.Core.Logic.{◌↔◌}
use mathlib.Core.Bool.{true≢false}
use native.Mathlib.Decide.{dec_lt}
use ssz.Base.Words.{zeros, bit_length, last_byte}
use ssz.Errors.{unexpected_eof, junk_in_bitvector, junk_in_bitlist, max_items_exceeded}
use ssz.Fork.{ForkFilter, is_absent}
use ssz.Decoder.{
  Decoder, fail, has_failed, read_full, overwrite, count_read, advance, on_fork, resize,
}
use ssz.Decoder.Offsets.{decode_offset, retrieve_size}

-- A blob of known size, counted only if it was read in full; the decoder has failed if it was not.
unfoldable pub fill_counted : List ℕ → Decoder → List ℕ × Decoder
fill_counted blob dec =
    let size = length blob in
    let (got, d) = read_full size dec in
    if dec.streaming
    then (overwrite got blob, (if has_failed d.err then d else count_read size d))
    else (if ltb (length dec.input) size
        then (blob, fail unexpected_eof dec)
        else (take size dec.input, advance size dec))

abbrev pub first : List ℕ → ℕ
first [] = 0
first (b ∷ bs) = b

-- Bit `i` of a bit vector.
unfoldable pub has_bit : ℕ → List ℕ → Bool
has_bit i bits = first (drop (i / 8) bits) / 2 ^ (i % 8) % 2 == 1

-- The loop over `count` bits from bit `i` on.
unfoldable pub has_junk : ℕ → ℕ → List ℕ → Bool
has_junk zero i bits = false
has_junk (suc count) i bits =
    let more = has_junk count (suc i) bits in if has_bit i bits then true else more

unfoldable pub check_vector : ℕ → List ℕ → Decoder → Decoder
check_vector size bits dec =
    if has_junk (length bits * 8 - size) size bits then fail junk_in_bitvector dec else dec

-- `size` counts the bits.
unfoldable pub decode_array_of_bits : ℕ → List ℕ → Decoder → List ℕ × Decoder
decode_array_of_bits size bits dec =
    let (vector, d) = fill_counted bits dec in
    if has_failed dec.err
    then (bits, dec)
    else (if has_failed d.err then (vector, d) else (vector, check_vector size vector d))

-- `width` is the length of the array type in bytes.
unfoldable pub decode_array_of_bits_pointer_on_fork :
    ℕ → ℕ → Option (List ℕ) → ForkFilter → Decoder → Option (List ℕ) × Decoder
decode_array_of_bits_pointer_on_fork width size bits filter dec =
    on_fork (decode_array_of_bits size) (zeros width) bits filter dec

unfoldable pub decode_slice_of_bits_offset : Decoder → Decoder
decode_slice_of_bits_offset dec = decode_offset false dec

unfoldable pub decode_slice_of_bits_offset_on_fork : ForkFilter → Decoder → Decoder
decode_slice_of_bits_offset_on_fork filter dec =
    if is_absent dec.fork filter then dec else decode_slice_of_bits_offset dec

-- The checks of DecodeSliceOfBitsContent behind the read. The bytes before the last are counted as
-- an eighth of their number, as the source has it.
unfoldable pub check_bitlist : ℕ → List ℕ → Decoder → Decoder
check_bitlist max_bits bits dec =
    if last_byte bits == 0
    then fail junk_in_bitlist dec
    else (if ltb max_bits ((length bits - 1) / 8 + bit_length 8 (last_byte bits) - 1)
        then fail max_items_exceeded dec
        else dec)

unfoldable pub decode_sized_bits : List ℕ → ℕ → ℕ → Decoder → Option (List ℕ) × Decoder
decode_sized_bits backing max_bits size dec =
    let (bits, d) = fill_counted (resize size backing) dec in
    if size == 0
    then (none, fail junk_in_bitlist dec)
    else (if ltb (max_bits / 8 + 1) size
        then (none, fail max_items_exceeded dec)
        else (some bits, (if has_failed d.err then d else check_bitlist max_bits bits d)))

unfoldable pub decode_slice_of_bits_content :
    List ℕ → ℕ → Decoder → Option (Option (List ℕ) × Decoder)
decode_slice_of_bits_content backing max_bits dec =
    if has_failed dec.err
    then some (none, dec)
    else retrieve_size dec >>= λ r. some (decode_sized_bits backing max_bits r.0 r.1)

-- A bit list that the fork does not have is set to nil: `some` of no list.
unfoldable pub decode_slice_of_bits_content_on_fork :
    List ℕ → ℕ → ForkFilter → Decoder → Option (Option (Option (List ℕ)) × Decoder)
decode_slice_of_bits_content_on_fork backing max_bits filter dec =
    if is_absent dec.fork filter
    then some (some none, dec)
    else decode_slice_of_bits_content backing max_bits dec >>= λ r.
        some ((elim r.0 [ none ↦ none | some b ↦ some (some b) ]), r.1)

-- Some bit is set, of `count` bits from bit `i` on.
abbrev pub HasBitIn : ℕ → ℕ → List ℕ → Type 0
HasBitIn count i bits = (j : ℕ) × (i ≤ j) × (j < i + count) × (has_bit j bits ≡ true)

pub has_junk_iff :
    (count i : ℕ) (bits : List ℕ) → (has_junk count i bits ≡ true) ↔ HasBitIn count i bits
unfolding has_junk
has_junk_iff zero i bits =
    ((λ e. absurd (true≢false (sym e))), (λ (j, low, high, e). absurd (omega arith)))
has_junk_iff (suc count) i bits = elim (Bool-cases (has_bit i bits)) [
  | inl set ↦ rw set ((λ e. (i, omega arith, omega arith, set)), (λ found. refl))
  | inr unset ↦ rw unset (
    (λ e. later ((has_junk_iff count (suc i) bits).0 e)),
    (λ found. (has_junk_iff count (suc i) bits).1 (earlier unset found)),
  )
]
  where
    later : HasBitIn count (suc i) bits → HasBitIn (suc count) i bits
    later (j, low, high, set) = (j, omega arith, omega arith, set)

    earlier : has_bit i bits ≡ false → HasBitIn (suc count) i bits → HasBitIn count (suc i) bits
    earlier unset (j, low, high, set) = elim (dec_lt i j) [
      | yes above ↦ (j, omega arith, omega arith, set)
      | no here ↦
          let same : j ≡ i = omega arith in
          absurd (true≢false (sym set ∙ ap (λ k. has_bit k bits) same ∙ unset))
    ]
