-- ===== src/Encoder.antt =====
-- encoder.go: an encoder writes to a stream, or into a buffer that the caller sized. An operation
-- returns the new encoder, or `none` where Go panics because the buffer is too short.
pub mod Emit
pub mod Written
pub mod Dynamic
pub mod Layout
pub mod Objects
use ssz.Base.{
  ℕ, zero, suc, ◌+◌, ◌-◌, ◌*◌, ◌/◌, ◌%◌, ◌^◌, Bool, true, false, ◌&&◌, Option, none, some, List, [],
  ◌∷◌, ◌++◌, length, take, drop, leb, ltb, if◌then◌else◌, ◌>>=◌,
}
use ssz.Base.Words.{u32, put_uint, zeros}
use ssz.Errors.{Error}
use ssz.Fork.{Fork, ForkFilter, is_absent}

-- An io.Writer: what it took, how many more bytes it takes, and how it fails after that.
pub record Writer : Type 0 where
  pub written : List ℕ
  pub room : ℕ
  pub failure : Error

unfoldable pub write : List ℕ → Writer → Writer × Option Error
write bs w =
    if leb (length bs) w.room
    then (record w { written = w.written ++ bs; room = w.room - length bs }, none)
    else (record w { written = w.written ++ take w.room bs; room = 0 }, some w.failure)

-- `buffer filled rest` is outBuffer = `rest`, behind the part that is filled.
pub data Sink : Type 0 where
  stream : Writer → Sink
  buffer : List ℕ → List ℕ → Sink

pub record Encoder : Type 0 where
  pub sink : Sink
  pub err : Option Error
  pub offset : ℕ
  pub fork : Fork

unfoldable pub is_halted : Sink → Option Error → Bool
is_halted (stream w) (some e) = true
is_halted (stream w) none = false
is_halted (buffer filled rest) err = false

abbrev pub put_in : Sink × Option Error → Encoder → Encoder
put_in r e = record e { sink = r.0; err = r.1 }

unfoldable pub emit_to : Sink → Option Error → List ℕ → Option (Sink × Option Error)
emit_to (stream w) (some e) bs = some (stream w, some e)
emit_to (stream w) none bs = some (stream (write bs w).0, (write bs w).1)
emit_to (buffer filled rest) err bs =
    if leb (length bs) (length rest)
    then some (buffer (filled ++ bs) (drop (length bs) rest), err)
    else none

-- The pattern of every Encode function: Write the bytes unless an error was met, or copy them to
-- the front of outBuffer and cut it.
unfoldable pub emit : List ℕ → Encoder → Option Encoder
emit bs e = emit_to e.sink e.err bs >>= λ r. some (put_in r e)

unfoldable pub encode_bool : Bool → Encoder → Option Encoder
encode_bool v e = emit ((if v then 1 else 0) ∷ []) e

unfoldable pub encode_bool_pointer_on_fork : Option Bool → ForkFilter → Encoder → Option Encoder
encode_bool_pointer_on_fork v filter e =
    if is_absent e.fork filter
    then some e
    else elim v [ none ↦ encode_bool false e | some b ↦ encode_bool b e ]

unfoldable pub encode_uint8 : ℕ → Encoder → Option Encoder
encode_uint8 n e = emit (put_uint 1 n) e

unfoldable pub encode_uint8_pointer_on_fork : Option ℕ → ForkFilter → Encoder → Option Encoder
encode_uint8_pointer_on_fork n filter e =
    if is_absent e.fork filter
    then some e
    else elim n [ none ↦ encode_uint8 0 e | some m ↦ encode_uint8 m e ]

unfoldable pub encode_uint16 : ℕ → Encoder → Option Encoder
encode_uint16 n e = emit (put_uint 2 n) e

unfoldable pub encode_uint16_pointer_on_fork : Option ℕ → ForkFilter → Encoder → Option Encoder
encode_uint16_pointer_on_fork n filter e =
    if is_absent e.fork filter
    then some e
    else elim n [ none ↦ encode_uint16 0 e | some m ↦ encode_uint16 m e ]

unfoldable pub encode_uint32 : ℕ → Encoder → Option Encoder
encode_uint32 n e = emit (put_uint 4 n) e

unfoldable pub encode_uint32_pointer_on_fork : Option ℕ → ForkFilter → Encoder → Option Encoder
encode_uint32_pointer_on_fork n filter e =
    if is_absent e.fork filter
    then some e
    else elim n [ none ↦ encode_uint32 0 e | some m ↦ encode_uint32 m e ]

unfoldable pub encode_uint64 : ℕ → Encoder → Option Encoder
encode_uint64 n e = emit (put_uint 8 n) e

unfoldable pub encode_uint64_pointer_on_fork : Option ℕ → ForkFilter → Encoder → Option Encoder
encode_uint64_pointer_on_fork n filter e =
    if is_absent e.fork filter
    then some e
    else elim n [ none ↦ encode_uint64 0 e | some m ↦ encode_uint64 m e ]

-- encodeZeroes. A write that fails halts the stream, so the rounds after it write nothing.
unfoldable pub encode_zeroes_loop : ℕ → ℕ → Encoder → Option Encoder
encode_zeroes_loop zero size e = some e
encode_zeroes_loop (suc fuel) size e =
    let more = emit (zeros 32) e >>= encode_zeroes_loop fuel (size - 32) in
    if leb 32 size then more else (if ltb 0 size then emit (zeros size) e else some e)

unfoldable pub encode_zeroes : ℕ → Encoder → Option Encoder
encode_zeroes size e = encode_zeroes_loop (size / 32 + 1) size e

unfoldable pub encode_static_bytes : List ℕ → Encoder → Option Encoder
encode_static_bytes blob e = emit blob e

-- `size` is the length of the array type.
unfoldable pub encode_static_bytes_pointer_on_fork :
    ℕ → Option (List ℕ) → ForkFilter → Encoder → Option Encoder
encode_static_bytes_pointer_on_fork size blob filter e =
    if is_absent e.fork filter
    then some e
    else elim blob [ none ↦ encode_zeroes size e | some b ↦ encode_static_bytes b e ]

-- `none` is a nil slice.
unfoldable pub encode_checked_static_bytes : Option (List ℕ) → ℕ → Encoder → Option Encoder
encode_checked_static_bytes none size e = encode_zeroes size e
encode_checked_static_bytes (some blob) size e = emit blob e

unfoldable pub offset_dynamics : ℕ → Encoder → Encoder
offset_dynamics offset e = record e { offset = offset }

-- The pattern of every offset: write the present one, then add the size of the item.
unfoldable pub put_offset_by : (ℕ → ℕ) → Encoder → Option Encoder
put_offset_by next e =
    if is_halted e.sink e.err
    then some e
    else emit (put_uint 4 e.offset) e >>= λ o. some (record o { offset = next o.offset })

abbrev pub put_offset : ℕ → Encoder → Option Encoder
put_offset size e = put_offset_by (λ o. u32 (o + size)) e
