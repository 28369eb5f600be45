-- ===== src/RoundTrip/Bits.antt =====
-- decoder.go: what DecodeArrayOfBits accepts.
use ssz.Base.{
  ℕ, ◌*◌, ◌-◌, ◌≡◌, ◌≢◌, inl, inr, refl, sym, ap, ◌∙◌, true, none, List, ◌++◌, length,
  length-append, take, drop, take-append, drop-append, le→ltb, if◌then◌else◌, if-both, arith,
  Bool-cases,
}
use mathlib.Core.Logic.{◌↔◌}
use mathlib.Core.Bool.{true≢false}
use mathlib.Core.Option.{some-ne-none}
use ssz.Decoder.{Decoder, read_full, overwrite, has_failed, count_read}
use ssz.Decoder.Bits.{
  fill_counted, has_junk, has_junk_iff, HasBitIn, check_vector, decode_array_of_bits,
}
use ssz.RoundTrip.Scalars.{Gives, read_full-read, overwrite-all}

fill_counted-read :
    (bits bytes rest : List ℕ) (dec : Decoder)
    → length bits ≡ length bytes
    → dec.err ≡ none
    → dec.input ≡ bytes ++ rest
    → Gives bytes rest (fill_counted bits dec)
unfolding fill_counted
fill_counted-read bits bytes rest dec size sound front =
    if-both (Gives bytes rest) dec.streaming streams (
      rw
        (le→ltb (length dec.input) (length bits)
          (omega (arith, ap length front, length-append bytes rest)))
        (
          ap (take (length bits)) front ∙ take-append (length bits) bytes rest (sym size),
          ap (drop (length bits)) front ∙ drop-append (length bits) bytes rest (sym size),
          sound,
        ))
  where
    got : Gives bytes rest (read_full (length bits) dec)
    got = read_full-read (length bits) bytes rest dec (sym size) front

    streams : Gives bytes rest (
      overwrite (read_full (length bits) dec).0 bits,
      (if has_failed (read_full (length bits) dec).1.err
          then (read_full (length bits) dec).1
          else count_read (length bits) (read_full (length bits) dec).1),
    )
    streams =
        rw (ap has_failed got.2)
          (ap (λ b. overwrite b bits) got.0 ∙ overwrite-all bytes bits (omega arith), got.1, got.2)

check_vector_lem :
    (size : ℕ) (bits : List ℕ) (dec : Decoder)
    → dec.err ≡ none
    → ((check_vector size bits dec).input ≡ dec.input)
      × (((check_vector size bits dec).err ≢ none)
          ↔ (has_junk (length bits * 8 - size) size bits ≡ true))
unfolding check_vector
check_vector_lem size bits dec sound =
    elim (Bool-cases (has_junk (length bits * 8 - size) size bits)) [
      | inl junk ↦ rw junk (refl, ((λ bad. refl), (λ e. some-ne-none _)))
      | inr clean ↦
          rw clean (refl, ((λ bad. absurd (bad sound)), (λ e. absurd (true≢false (sym e)))))
    ]

-- On a decoder without an earlier error, a stream or a buffer, that starts with as many bytes as the
-- vector has, DecodeArrayOfBits stores these bytes and leaves what follows; it reports an error
-- exactly if one of the bits from bit `size` on is set.
pub decode_array_of_bits-junk :
    (size : ℕ) (bits bytes rest : List ℕ) (dec : Decoder)
    → length bits ≡ length bytes
    → dec.err ≡ none
    → dec.input ≡ bytes ++ rest
    → ((decode_array_of_bits size bits dec).0 ≡ bytes)
      × ((decode_array_of_bits size bits dec).1.input ≡ rest)
      × (((decode_array_of_bits size bits dec).1.err ≢ none)
          ↔ HasBitIn (length bytes * 8 - size) size bytes)
unfolding decode_array_of_bits
decode_array_of_bits-junk size bits bytes rest dec same sound front =
    let (stored, left, good) = fill_counted-read bits bytes rest dec same sound front in
    let junk = check_vector_lem size (fill_counted bits dec).0 (fill_counted bits dec).1 good in
    let among = has_junk_iff (length bytes * 8 - size) size bytes in
    let vector = ap (λ v. has_junk (length v * 8 - size) size v) stored in
    rw (ap has_failed sound, ap has_failed good)
      (
        stored,
        junk.0 ∙ left,
        ((λ bad. among.0 (sym vector ∙ junk.1.0 bad)), (λ b. junk.1.1 (vector ∙ among.1 b))),
      )
