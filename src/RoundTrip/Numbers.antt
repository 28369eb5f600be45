-- ===== src/RoundTrip/Numbers.antt =====
-- decoder.go reads back the lists of uint64s that encoder.go writes.
use ssz.Base.{
  ℕ, ◌*◌, ◌/◌, ◌%◌, ◌^◌, ◌≤◌, ◌<◌, ◌≡◌, refl, sym, ap, ap₂, ◌∙◌, false, Option, none, some, List,
  [], ◌∷◌, ◌++◌, append_assoc, length, length-append, length-take, length-replicate, take, drop,
  take-append, drop-append, ltb, le→ltb, lt→ltb, ==_iff, ==_false, if◌then◌else◌, if-both, ◌>>=◌,
  arith, All,
}
use mathlib.Core.Path.{fun_ext}
use native.Mathlib.Decide.{dec_lt}
use ssz.Base.Words.{put_uint, get_uint, length-put_uint, get_uint-put_uint}
use ssz.Format.{number_bytes}
use ssz.Sizer.{size_slice_of_uint64s}
use ssz.Encoder.{Encoder, emit}
use ssz.Encoder.Dynamic.{encode_slice_of_uint64s_content}
use ssz.Encoder.Emit.{emit-append, emit-nil}
use ssz.Encoder.Written.{written}
use ssz.Decoder.{Decoder, read_buf, overwrite, has_failed, advance}
use ssz.Decoder.Offsets.{retrieve_size, fill_sizes, pop_size}
use ssz.Decoder.Contents.{
  fill_uint64s, fill_uint64s_stream, fill_uint64s_buffer, resize_numbers, decode_sized_uint64s,
  decode_slice_of_uint64s_content,
}
use ssz.RoundTrip.Scalars.{Gives, wrote, read_full-read}

-- EncodeSliceOfUint64sContent writes the numbers one by one, which is a single write of all their
-- bytes: on a stream that fails at any byte, and on a buffer of any room.
pub encode_slice_of_uint64s_content-emit :
    (ns : List ℕ) (e : Encoder) → encode_slice_of_uint64s_content ns e ≡ emit (number_bytes ns) e
unfolding encode_slice_of_uint64s_content
encode_slice_of_uint64s_content-emit [] e = sym (emit-nil e)
encode_slice_of_uint64s_content-emit (n ∷ ns) e =
    ap (λ k. emit (put_uint 8 n) e >>= k) (fun_ext (λ o. encode_slice_of_uint64s_content-emit ns o))
    ∙ sym (emit-append (put_uint 8 n) (number_bytes ns) e)

-- One number at the front of the input.
front_number :
    (n : ℕ) (rest input : List ℕ)
    → n < 2 ^ 64
    → input ≡ put_uint 8 n ++ rest
    → (get_uint (take 8 input) ≡ n) × (drop 8 input ≡ rest)
front_number n rest input small front = (
  ap (λ i. get_uint (take 8 i)) front
      ∙ ap get_uint (take-append 8 (put_uint 8 n) rest (length-put_uint 8 n))
      ∙ get_uint-put_uint 8 n (omega arith),
  ap (drop 8) front ∙ drop-append 8 (put_uint 8 n) rest (length-put_uint 8 n),
)

fill_uint64s_buffer-read :
    (ns old rest : List ℕ) (dec : Decoder)
    → length old ≡ length ns
    → All (λ n. n < 2 ^ 64) ns
    → dec.err ≡ none
    → dec.input ≡ number_bytes ns ++ rest
    → Gives ns rest (fill_uint64s_buffer old dec)
unfolding fill_uint64s_buffer
fill_uint64s_buffer-read [] [] rest dec same small sound front = (refl, front, sound)
fill_uint64s_buffer-read [] (m ∷ old) rest dec same small sound front = absurd (omega arith)
fill_uint64s_buffer-read (n ∷ ns) [] rest dec same small sound front = absurd (omega arith)
fill_uint64s_buffer-read (n ∷ ns) (m ∷ old) rest dec same (first, small) sound front =
    let whole = front ∙ append_assoc (put_uint 8 n) (number_bytes ns) rest in
    let (number, left) = front_number n (number_bytes ns ++ rest) dec.input first whole in
    let (values, after, good) =
      fill_uint64s_buffer-read ns old rest (advance 8 dec) (omega arith) small sound left in
    let long : ltb (length dec.input) 8 ≡ false = le→ltb (length dec.input) 8 (
      omega (
        arith,
        ap length whole,
        length-append (put_uint 8 n) (number_bytes ns ++ rest),
        length-put_uint 8 n,
      )) in
    rw long (ap₂ (λ x xs. x ∷ xs) number values, after, good)

read_number :
    (n : ℕ) (rest : List ℕ) (dec : Decoder)
    → n < 2 ^ 64
    → dec.input ≡ put_uint 8 n ++ rest
    → (get_uint (take 8 (read_buf 8 dec).buf) ≡ n)
      × ((read_buf 8 dec).input ≡ rest)
      × ((read_buf 8 dec).err ≡ none)
unfolding read_buf
read_number n rest dec small front =
    let (bytes, left, full) =
      read_full-read 8 (put_uint 8 n) rest dec (length-put_uint 8 n) front in
    (
      ap (λ b. get_uint (take 8 (overwrite b dec.buf))) bytes
          ∙ (front_number n (drop (length (put_uint 8 n)) dec.buf)
              (overwrite (put_uint 8 n) dec.buf) small refl).0,
      left,
      full,
    )

fill_uint64s_stream-read :
    (ns old rest : List ℕ) (dec : Decoder)
    → length old ≡ length ns
    → All (λ n. n < 2 ^ 64) ns
    → dec.err ≡ none
    → dec.input ≡ number_bytes ns ++ rest
    → Gives ns rest (fill_uint64s_stream old dec)
unfolding fill_uint64s_stream
fill_uint64s_stream-read [] [] rest dec same small sound front = (refl, front, sound)
fill_uint64s_stream-read [] (m ∷ old) rest dec same small sound front = absurd (omega arith)
fill_uint64s_stream-read (n ∷ ns) [] rest dec same small sound front = absurd (omega arith)
fill_uint64s_stream-read (n ∷ ns) (m ∷ old) rest dec same (first, small) sound front =
    let whole = front ∙ append_assoc (put_uint 8 n) (number_bytes ns) rest in
    let (number, left, full) = read_number n (number_bytes ns ++ rest) dec first whole in
    let (values, after, good) =
      fill_uint64s_stream-read ns old rest (read_buf 8 dec) (omega arith) small full left in
    rw (ap has_failed full) (ap₂ (λ x xs. x ∷ xs) number values, after, good)

fill_uint64s-read :
    (ns old rest : List ℕ) (dec : Decoder)
    → length old ≡ length ns
    → All (λ n. n < 2 ^ 64) ns
    → dec.err ≡ none
    → dec.input ≡ number_bytes ns ++ rest
    → Gives ns rest (fill_uint64s old dec)
unfolding fill_uint64s
fill_uint64s-read ns old rest dec same small sound front =
    let (values, left, good) = fill_uint64s_stream-read ns old rest dec same small sound front in
    if-both (Gives ns rest) dec.streaming (rw (ap has_failed good) (values, left, good))
      (fill_uint64s_buffer-read ns old rest dec same small sound front)

length-resize_numbers :
    (count : ℕ) (backing : List ℕ) → length (resize_numbers count backing) ≡ count
unfolding resize_numbers
length-resize_numbers count backing = elim (dec_lt (length backing) count) [
  | yes small ↦ rw (lt→ltb _ _ small) (length-replicate count 0)
  | no big ↦
      rw (le→ltb (length backing) count (omega arith)) (omega (arith, length-take count backing))
]

decode_sized_uint64s-read :
    (ns backing rest : List ℕ) (max_items size : ℕ) (dec : Decoder)
    → size ≡ 8 * length ns
    → length ns ≤ max_items
    → All (λ n. n < 2 ^ 64) ns
    → dec.err ≡ none
    → dec.input ≡ number_bytes ns ++ rest
    → Gives (some ns) rest (decode_sized_uint64s backing max_items size dec)
unfolding decode_sized_uint64s
decode_sized_uint64s-read [] backing rest max_items size dec sized few small sound front =
    rw ((==_iff size 0).1 (omega arith)) (refl, front, sound)
decode_sized_uint64s-read (n ∷ ns) backing rest max_items size dec sized few small sound front =
    let (values, left, good) =
      fill_uint64s-read (n ∷ ns) (resize_numbers (size / 8) backing) rest dec
        (omega (arith, length-resize_numbers (size / 8) backing)) small sound front in
    rw
      (
        ==_false size 0 (omega arith),
        (==_iff (size % 8) 0).1 (omega arith),
        le→ltb max_items (size / 8) (omega arith),
      )
      (ap some values, left, good)

retrieve_size-next :
    (size : ℕ) (ss : List ℕ) (dec : Decoder)
    → dec.sizes ≡ size ∷ ss
    → retrieve_size dec ≡ some (size, record dec { sizes = ss })
unfolding retrieve_size fill_sizes pop_size
retrieve_size-next size ss dec e =
    ap (λ l. pop_size (fill_sizes dec l) (fill_sizes dec l).sizes) e ∙ ap (pop_size dec) e

-- The content of a field that was decoded to `v`: what is left is `rest`, and no error was met.
abbrev pub GivesContent {ℓ} : {A : Type ℓ} → A → List ℕ → Option (Option A × Decoder) → Type ℓ
GivesContent v rest r = (d : Decoder) × (r ≡ some (some v, d)) × (d.input ≡ rest) × (d.err ≡ none)

-- If EncodeSliceOfUint64sContent wrote `bytes` for numbers below 2^64 without an error, on a stream or
-- into a buffer, and the list is shorter than 2^32 bytes, then a decoder without an earlier error, on a
-- stream or a buffer that starts with these bytes, whose next size is that of SizeSliceOfUint64s,
-- gives the list, leaves what follows, and reports no error, if the list is in the limit.
pub decode_slice_of_uint64s-encode_slice_of_uint64s :
    (ns : List ℕ) (e e' : Encoder) (bytes rest ss backing : List ℕ) (max_items : ℕ) (dec : Decoder)
    → All (λ n. n < 2 ^ 64) ns
    → 8 * length ns < 2 ^ 32
    → e.err ≡ none
    → encode_slice_of_uint64s_content ns e ≡ some e'
    → e'.err ≡ none
    → written e'.sink ≡ written e.sink ++ bytes
    → dec.err ≡ none
    → dec.sizes ≡ size_slice_of_uint64s ns ∷ ss
    → dec.input ≡ bytes ++ rest
    → length ns ≤ max_items
    → GivesContent ns rest (decode_slice_of_uint64s_content backing max_items dec)
unfolding decode_slice_of_uint64s_content size_slice_of_uint64s
decode_slice_of_uint64s-encode_slice_of_uint64s ns e e' bytes rest ss backing max_items dec small
      short sound ran good sink clean next front few =
    let same =
      wrote e e' (number_bytes ns) bytes sound
        (sym (encode_slice_of_uint64s_content-emit ns e) ∙ ran) good sink in
    let (value, left, fine) =
      decode_sized_uint64s-read ns backing rest max_items (size_slice_of_uint64s ns)
        (record dec { sizes = ss }) (omega arith) few small clean
        (front ∙ ap (λ b. b ++ rest) same) in
    (
      (decode_sized_uint64s backing max_items (size_slice_of_uint64s ns)
          (record dec { sizes = ss })).1,
      ap
            (λ f.
              if f
              then some (none, dec)
              else (retrieve_size dec >>= λ r.
                  some (decode_sized_uint64s backing max_items r.0 r.1)))
            (ap has_failed clean)
          ∙ ap (λ m. m >>= λ r. some (decode_sized_uint64s backing max_items r.0 r.1))
              (retrieve_size-next (size_slice_of_uint64s ns) ss dec next)
          ∙ ap
              (λ v. some (
                v,
                (decode_sized_uint64s backing max_items (size_slice_of_uint64s ns)
                    (record dec { sizes = ss })).1,
              ))
              value,
      left,
      fine,
    )
