-- ===== src/RoundTrip.antt =====
-- decoder.go reads back what encoder.go writes, with the size that sizer.go gives.
pub mod Scalars
pub mod Bits
pub mod Sizes
pub mod Numbers
use ssz.Base.{
  ℕ, ◌+◌, ◌-◌, ◌*◌, ◌/◌, ◌%◌, ◌^◌, ◌≤◌, ◌<◌, ◌≡◌, ◌≢◌, ◌⊎◌, inl, inr, refl, sym, ap, ap₂, ◌∙◌, Bool,
  true, false, Option, none, some, List, [], ◌∷◌, ◌++◌, append_assoc, append-nil, map, length,
  length-append, take, drop, take-append, drop-append, ltb, ◌==◌, ==_iff, ==_false, le→ltb, lt→ltb,
  if◌then◌else◌, ◌>>=◌, arith, All,
}
use native.Mathlib.Nat.{mod-eq_of_lt}
use ssz.Base.Words.{u32, put_uint, get_uint, length-put_uint, get_uint-put_uint}
use ssz.Format.{encoding, encoded_length, length-encoding}
use ssz.Sizer.{size_slice_of_dynamic_bytes, size_slice_of_dynamic_bytes-encoding}
use ssz.Encoder.{Sink, buffer, Encoder, emit, encode_uint64}
use ssz.Encoder.Dynamic.{encode_slice_of_dynamic_bytes_content}
use ssz.Encoder.Layout.{into, encode_slice_of_dynamic_bytes_content-into}
use ssz.RoundTrip.Scalars.{append-cancel}
use ssz.Decoder.{Decoder, read_full, read_buf, decode_uint, decode_uint64}
use ssz.Decoder.Offsets.{seen, fill_sizes, pop_size, retrieve_size}
use ssz.Decoder.Contents.{Blob, decode_sized_blobs, decode_slice_of_dynamic_bytes_content}
use ssz.Decoder.Slots.{slot}
use ssz.Decoder.Blobs.{Fits}
use ssz.Decoder.Lists.{decode_sized-read}

-- A decoder on a buffer that has met no error and stands before the content of a dynamic field of
-- `size` bytes: the pending offsets were turned into sizes.
pub record IsAt (size : ℕ) (ss : List ℕ) (input : List ℕ) (dec : Decoder) : Type 0 where
  pub buffered : dec.streaming ≡ false
  pub sound : dec.err ≡ none
  pub settled : seen dec.offsets ≡ []
  pub next : dec.sizes ≡ size ∷ ss
  pub front : dec.input ≡ input
  pub within : length input ≤ dec.in_buf_end
  pub short : length input < 2 ^ 32

at-slot :
    (size : ℕ) (ss input : List ℕ) (dec : Decoder)
    → IsAt size ss input dec
    → dec ≡ slot dec input dec.offset dec.offsets (size ∷ ss)
at-slot size ss input dec at = λ i. record dec {
  streaming = at.buffered i;
  err = at.sound i;
  input = at.front i;
  sizes = at.next i;
}

abbrev pub Reads : List ℕ → List ℕ → List (List ℕ) → Option (Option (List Blob) × Decoder) → Type 0
Reads rest ss blobs r =
    (d : Decoder) × (r ≡ some (some (map some blobs), d))
    × (d.input ≡ rest)
    × (d.err ≡ none)
    × (d.sizes ≡ ss)

content-slot :
    (blobs backing : List (List ℕ)) (max_items max_size : ℕ) (rest ss : List ℕ) (base : Decoder)
    → seen base.offsets ≡ []
    → length (encoding blobs ++ rest) ≤ base.in_buf_end
    → length (encoding blobs ++ rest) < 2 ^ 32
    → length blobs ≤ max_items
    → Fits max_size blobs
    → Reads rest ss blobs (
        decode_slice_of_dynamic_bytes_content backing max_items max_size
          (slot base (encoding blobs ++ rest) base.offset base.offsets (encoded_length blobs ∷ ss)))
unfolding decode_slice_of_dynamic_bytes_content retrieve_size fill_sizes pop_size
content-slot [] backing max_items max_size rest ss base fresh within short few fits = (
  slot base rest base.offset base.offsets ss,
  unfold decode_sized_blobs in refl,
  refl,
  refl,
  refl,
)
content-slot (b ∷ bs) backing max_items max_size rest ss base fresh within short few fits = (
  _,
  decode_sized-read base base.offsets fresh b bs backing max_items max_size base.offset rest ss
      within short few fits,
  refl,
  refl,
  refl,
)

size-encoded :
    (blobs : List (List ℕ))
    → encoded_length blobs < 2 ^ 32
    → size_slice_of_dynamic_bytes blobs ≡ encoded_length blobs
size-encoded blobs small =
    omega (arith, size_slice_of_dynamic_bytes-encoding blobs, length-encoding blobs)

written_in : Sink → List ℕ
written_in (buffer filled left) = filled
written_in other = []

written_by : Option Encoder → List ℕ
written_by none = []
written_by (some e) = written_in e.sink

-- What is written with room for it is the encoding.
wrote-encoding :
    (blobs : List (List ℕ)) (e : Encoder) (filled room : List ℕ) (o : ℕ) (e' : Encoder)
    → encoded_length blobs ≤ length room
    → encoded_length blobs < 2 ^ 32
    → encode_slice_of_dynamic_bytes_content blobs (into e filled room o) ≡ some e'
    → (bytes left : List ℕ) → e'.sink ≡ buffer (filled ++ bytes) left
    → bytes ≡ encoding blobs
unfolding written_in written_by
wrote-encoding blobs e filled room o e' fits small ran bytes left sink =
    let known =
      sym (encode_slice_of_dynamic_bytes_content-into e blobs filled room o fits small) ∙ ran in
    append-cancel filled bytes (encoding blobs)
      (ap written_in (sym sink) ∙ sym (ap written_by known))

-- If EncodeSliceOfDynamicBytesContent, in a buffer with room for it, wrote `bytes` for a list of
-- blobs whose encoding is shorter than 2^32, and a decoder on a buffer stands before these bytes
-- with the size that SizeSliceOfDynamicBytes gives to the list, then
-- DecodeSliceOfDynamicBytesContent, with limits that the list meets, gives back the list, leaves what
-- followed the bytes, reports no error, and pops that one size.
pub decode-encode_slice_of_dynamic_bytes :
    (blobs : List (List ℕ)) (e : Encoder) (filled room : List ℕ) (o : ℕ) (e' : Encoder)
    → encoded_length blobs ≤ length room
    → encoded_length blobs < 2 ^ 32
    → encode_slice_of_dynamic_bytes_content blobs (into e filled room o) ≡ some e'
    → (bytes left : List ℕ) → e'.sink ≡ buffer (filled ++ bytes) left
    → (rest ss : List ℕ) (backing : List (List ℕ)) (max_items max_size : ℕ) → (dec : Decoder)
    → IsAt (size_slice_of_dynamic_bytes blobs) ss (bytes ++ rest) dec
    → length blobs ≤ max_items
    → Fits max_size blobs
    → Reads rest ss blobs (decode_slice_of_dynamic_bytes_content backing max_items max_size dec)
decode-encode_slice_of_dynamic_bytes blobs e filled room o e' fits small ran bytes left sink rest ss
      backing max_items max_size dec at few each =
    let wrote = wrote-encoding blobs e filled room o e' fits small ran bytes left sink in
    let front = ap (λ b. b ++ rest) wrote in
    let here =
      at-slot (size_slice_of_dynamic_bytes blobs) ss (bytes ++ rest) dec at
      ∙ ap₂ (λ i n. slot dec i dec.offset dec.offsets (n ∷ ss)) front (size-encoded blobs small) in
    let count = ap length front in
    rw (here) (
      content-slot blobs backing max_items max_size rest ss dec at.settled
        (omega (arith, at.within, count)) (omega (arith, at.short, count)) few each)
