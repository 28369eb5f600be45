-- ===== src/Codec/Symmetric.antt =====
-- codec.go: what it means that one DefineSSZ method serves the encoder and the decoder. A symmetric
-- method writes the bytes of a value and reads them back, wherever they stand in the message.
pub mod Scalars
pub mod Sequence
pub mod Objects
pub mod Entry
use ssz.Base.{
  ℕ, ◌+◌, ◌%◌, ◌^◌, ◌≤◌, ◌≡◌, refl, sym, ap, ap₂, ◌∙◌, Bool, true, false, Option, none, some, List,
  [], ◌∷◌, ◌++◌, append_assoc, length, length-append, take, drop, take-append, drop-append, ltb,
  le→ltb, leb, le→leb, if◌then◌else◌, ◌>>=◌, arith,
}
use ssz.Base.Words.{u32}
use ssz.Errors.{Error}
use ssz.Encoder.{Sink, stream, buffer, Encoder, emit, emit_to, put_in}
use ssz.Encoder.Emit.{emit-append}
use ssz.Decoder.{Decoder, read_full}
use ssz.Codec.{Codec, encoding, decoding}

-- A decoder that has read `k` bytes without an error and has `rest` before it; only its scratch bytes
-- are not told.
abbrev pub moved : ℕ → List ℕ → List ℕ → Decoder → Decoder
moved k rest buf d = record d {
  input = rest;
  in_read = if d.streaming then u32 (d.in_read + k) else d.in_read;
  buf = buf;
  err = none;
}

-- A buffer has no errors; a stream may have met one.
abbrev pub IsHealthy : Sink → Option Error → Type 0
IsHealthy (stream w) err = Unit
IsHealthy (buffer filled rest) err = err ≡ none

abbrev pub returned {ℓ} : {A : Type ℓ} → A → Encoder → Option (A × Codec)
returned a e = some (a, encoding e)

-- The fixed size of a type, the bytes of its values, the values that have these bytes, and the old
-- values that can be decoded into.
pub record Shape (A : Type 0) : Type 1 where
  pub size : ℕ
  pub bytes : A → List ℕ
  pub IsValid : A → Type 0
  pub IsReady : A → Type 0

pub record Symmetric {A : Type 0} (S : Shape A) (define : A → Codec → Option (A × Codec))
    : Type 0 where
  pub length-bytes : (a : A) → S.IsValid a → length (S.bytes a) ≡ S.size
  pub encodes :
      (a : A) (e : Encoder)
      → IsHealthy e.sink e.err
      → define a (encoding e) ≡ (emit (S.bytes a) e >>= returned a)
  pub decodes :
      (a old : A) (d : Decoder) (rest : List ℕ)
      → S.IsValid a
      → S.IsReady old
      → d.err ≡ none
      → d.input ≡ S.bytes a ++ rest
      → (buf : List ℕ) × (define old (decoding d) ≡ some (a, decoding (moved S.size rest buf d)))

-- A write leaves the codec's fork.
pub emit-returned :
    {A : Type 0} (a : A) (bs : List ℕ) (e : Encoder)
    → (emit bs e >>= λ e'. some (a, record (encoding e) { enc = some e' }))
      ≡ (emit bs e >>= returned a)
unfolding emit
emit-returned {A = A} a bs e = same (emit_to e.sink e.err bs)
  where
    same :
        (m : Option (Sink × Option Error))
        → (m >>= (λ r. some (put_in r e)) >>= λ e'. some (a, record (encoding e) { enc = some e' }))
          ≡ (m >>= (λ r. some (put_in r e)) >>= returned a)
    same none = refl
    same (some r) = refl

pub read_full-moved :
    (k : ℕ) (bs rest : List ℕ) (d : Decoder)
    → length bs ≡ k
    → d.input ≡ bs ++ rest
    → read_full k d ≡ (bs, record d { input = rest; err = none })
unfolding read_full
read_full-moved k bs rest d size front = rw (
  front,
  take-append k bs rest size,
  drop-append k bs rest size,
  le→leb k (length (bs ++ rest)) (omega (arith, length-append bs rest)),
)

-- Both sources read: a stream counts what it reads and a buffer does not.
pub from_source :
    {A : Type 0} (b : Bool) (X Y : A × Decoder) (a : A) (k : ℕ) (rest buf : List ℕ) (d : Decoder)
    → X ≡ (a, record d { input = rest; in_read = u32 (d.in_read + k); buf = buf; err = none })
    → Y ≡ (a, record d { input = rest; err = none })
    → (buf' : List ℕ) × ((if b then X else Y) ≡ (
      a,
      record d {
        input = rest;
        in_read = if b then u32 (d.in_read + k) else d.in_read;
        buf = buf';
        err = none;
      },
    ))
from_source true X Y a k rest buf d stream_ buffer_ = (buf, stream_)
from_source false X Y a k rest buf d stream_ buffer_ = (d.buf, buffer_)

-- The bytes that are there are cut off a buffer.
pub from_buffer :
    {A : Type 0} (parse : List ℕ → A) (Y : A × Decoder) (k : ℕ) (bs rest : List ℕ) (d : Decoder)
    → length bs ≡ k
    → d.err ≡ none
    → d.input ≡ bs ++ rest
    → (if ltb (length d.input) k
        then Y
        else (parse (take k d.input), record d { input = drop k d.input }))
      ≡ (parse bs, record d { input = rest; err = none })
from_buffer parse Y k bs rest d size sound front =
    rw (le→ltb (length d.input) k (omega (arith, ap length front, length-append bs rest))) (
      ap₂ (λ v r. (v, r)) (ap parse (ap (take k) front ∙ take-append k bs rest size))
        (ap₂ (λ i e. record d { input = i; err = e })
          (ap (drop k) front ∙ drop-append k bs rest size) sound))
