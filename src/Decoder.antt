-- ===== src/Decoder.antt =====
-- decoder.go: a decoder reads from a stream or from a buffer, with the stacks of the slots that it is
-- in. Each operation returns what it stores through its pointer beside the new decoder.
pub mod Offsets
pub mod Contents
pub mod Slots
pub mod Blobs
pub mod Lists
pub mod Order
pub mod Bits
pub mod Arrays
pub mod Objects
pub mod Slotted
pub mod Forks
use ssz.Base.{
  ℕ, zero, suc, ◌+◌, ◌-◌, ◌*◌, ◌/◌, ◌%◌, ◌^◌, Bool, true, false, ◌&&◌, ◌||◌, Option, none, some,
  List, [], ◌∷◌, ◌++◌, length, take, drop, leb, ltb, ◌==◌, if◌then◌else◌, ◌>>=◌,
}
use mathlib.Core.Bool.{not}
use ssz.Base.Words.{u32, get_uint, zeros}
use ssz.Errors.{Error, eof, unexpected_eof, invalid_boolean}
use ssz.Fork.{Fork, ForkFilter, is_absent}

-- `input` is what is left of the stream or of inBuffer, and `stop` what the reader answers behind the
-- last byte of the stream. A buffer's addresses are those of its end less what is left. `offsets` is
-- `none` for the nil slice. The head of `sizes` is the size that is popped next; the sizes kept for
-- reuse of their memory are not modelled.
pub record Decoder : Type 0 where
  pub streaming : Bool
  pub input : List ℕ
  pub stop : Error
  pub in_read : ℕ
  pub in_reads : List ℕ
  pub in_buf_ptr : ℕ
  pub in_buf_ptrs : List ℕ
  pub in_buf_end : ℕ
  pub err : Option Error
  pub fork : Fork
  pub buf : List ℕ
  pub msg_length : ℕ
  pub lengths : List ℕ
  pub offset : ℕ
  pub offsets : Option (List ℕ)
  pub sizes : List ℕ
  pub sizess : List (List ℕ)

abbrev pub fail : Error → Decoder → Decoder
fail e dec = record dec { err = some e }

abbrev pub has_failed : Option Error → Bool
has_failed none = false
has_failed (some e) = true

-- The error of io.ReadFull that meets the end behind `got` bytes.
unfoldable pub read_error : Error → ℕ → Error
read_error eof got = if got == 0 then eof else unexpected_eof
read_error e got = e

-- io.ReadFull of `k` bytes: it leaves the bytes that it got, and sets the error.
unfoldable pub read_full : ℕ → Decoder → List ℕ × Decoder
read_full k dec = (
  take k dec.input,
  record dec {
    input = drop k dec.input;
    err = if leb k (length dec.input) then none else some (read_error dec.stop (length dec.input));
  },
)

-- What `got` leaves of the array that it is read into.
abbrev pub overwrite : List ℕ → List ℕ → List ℕ
overwrite got old = got ++ drop (length got) old

-- io.ReadFull into dec.buf[:k].
unfoldable pub read_buf : ℕ → Decoder → Decoder
read_buf k dec = let (got, d) = read_full k dec in record d { buf = overwrite got dec.buf }

abbrev pub count_read : ℕ → Decoder → Decoder
count_read k dec = record dec { in_read = u32 (dec.in_read + k) }

abbrev pub advance : ℕ → Decoder → Decoder
advance k dec = record dec { input = drop k dec.input }

-- The switch of DecodeBool on the byte read, with the old value.
unfoldable pub to_bool : ℕ → Bool → Decoder → Bool × Decoder
to_bool byte v dec =
    if byte == 0
    then (false, dec)
    else (if byte == 1 then (true, dec) else (v, fail invalid_boolean dec))

unfoldable pub first_byte : List ℕ → ℕ
first_byte bs = get_uint (take 1 bs)

unfoldable pub decode_bool : Bool → Decoder → Bool × Decoder
decode_bool v dec =
    if has_failed dec.err
    then (v, dec)
    else (if dec.streaming
        then (let d = read_buf 1 dec in
            if has_failed d.err
            then (v, d)
            else (let (w, d') = to_bool (first_byte d.buf) v d in (w, count_read 1 d')))
        else (if ltb (length dec.input) 1
            then (v, fail unexpected_eof dec)
            else (let (w, d) = to_bool (first_byte dec.input) v dec in (w, advance 1 d))))

-- The body of DecodeUint8 to DecodeUint64, at their width in bytes. A stream that ends early leaves a
-- number made of what dec.buf then holds.
unfoldable pub decode_uint : ℕ → ℕ → Decoder → ℕ × Decoder
decode_uint k n dec =
    if has_failed dec.err
    then (n, dec)
    else (if dec.streaming
        then (let d = read_buf k dec in (get_uint (take k d.buf), count_read k d))
        else (if ltb (length dec.input) k
            then (n, fail unexpected_eof dec)
            else (get_uint (take k dec.input), advance k dec)))

unfoldable pub decode_uint8 : ℕ → Decoder → ℕ × Decoder
decode_uint8 n dec = decode_uint 1 n dec

unfoldable pub decode_uint16 : ℕ → Decoder → ℕ × Decoder
decode_uint16 n dec = decode_uint 2 n dec

unfoldable pub decode_uint32 : ℕ → Decoder → ℕ × Decoder
decode_uint32 n dec = decode_uint 4 n dec

unfoldable pub decode_uint64 : ℕ → Decoder → ℕ × Decoder
decode_uint64 n dec = decode_uint 8 n dec

-- A pointer field: nil where the fork has no such field, and a new zero value where it was nil.
abbrev pub on_fork {ℓ} :
    {A : Type ℓ}
    → (A → Decoder → A × Decoder)
    → A
    → Option A
    → ForkFilter
    → Decoder
    → Option A × Decoder
on_fork decode fresh v filter dec =
    if is_absent dec.fork filter
    then (none, dec)
    else (let (w, d) = decode (elim v [ none ↦ fresh | some old ↦ old ]) dec in (some w, d))

unfoldable pub decode_bool_pointer_on_fork :
    Option Bool → ForkFilter → Decoder → Option Bool × Decoder
decode_bool_pointer_on_fork v filter dec = on_fork decode_bool false v filter dec

unfoldable pub decode_uint8_pointer_on_fork : Option ℕ → ForkFilter → Decoder → Option ℕ × Decoder
decode_uint8_pointer_on_fork n filter dec = on_fork decode_uint8 0 n filter dec

unfoldable pub decode_uint16_pointer_on_fork : Option ℕ → ForkFilter → Decoder → Option ℕ × Decoder
decode_uint16_pointer_on_fork n filter dec = on_fork decode_uint16 0 n filter dec

unfoldable pub decode_uint32_pointer_on_fork : Option ℕ → ForkFilter → Decoder → Option ℕ × Decoder
decode_uint32_pointer_on_fork n filter dec = on_fork decode_uint32 0 n filter dec

unfoldable pub decode_uint64_pointer_on_fork : Option ℕ → ForkFilter → Decoder → Option ℕ × Decoder
decode_uint64_pointer_on_fork n filter dec = on_fork decode_uint64 0 n filter dec

-- The array is filled as far as the bytes go.
unfoldable pub decode_static_bytes : List ℕ → Decoder → List ℕ × Decoder
decode_static_bytes blob dec =
    let size = length blob in
    if has_failed dec.err
    then (blob, dec)
    else (if dec.streaming
        then (let (got, d) = read_full size dec in (overwrite got blob, count_read size d))
        else (if ltb (length dec.input) size
            then (blob, fail unexpected_eof dec)
            else (take size dec.input, advance size dec)))

-- `size` is the length of the array type.
unfoldable pub decode_static_bytes_pointer_on_fork :
    ℕ → Option (List ℕ) → ForkFilter → Decoder → Option (List ℕ) × Decoder
decode_static_bytes_pointer_on_fork size blob filter dec =
    on_fork decode_static_bytes (zeros size) blob filter dec

-- The slice of `size` bytes over an array of given content: a new one if the array is too small.
unfoldable pub resize : ℕ → List ℕ → List ℕ
resize size backing = if ltb (length backing) size then zeros size else take size backing

-- The slice is given by the array behind it, up to its capacity; `none` leaves it as it was.
unfoldable pub decode_checked_static_bytes : List ℕ → ℕ → Decoder → Option (List ℕ) × Decoder
decode_checked_static_bytes backing size dec =
    if has_failed dec.err
    then (none, dec)
    else (let (blob, d) = decode_static_bytes (resize size backing) dec in (some blob, d))
