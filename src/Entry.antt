-- ===== src/Entry.antt =====
-- ssz.go: encoding and decoding of a whole object. `define` is the object's DefineSSZ as run by the
-- encoder or by the decoder, and `pooled` the codec that the pool gives.
pub mod Hash
pub mod Plain
use ssz.Base.{
  ℕ, ◌%◌, ◌^◌, ◌+◌, ◌≤◌, ◌≡◌, refl, ap, ◌∙◌, Bool, true, false, Option, none, some, List, [], ◌∷◌,
  length, ltb, ◌==◌, ==_false, if◌then◌else◌, ◌>>=◌, arith,
}
use mathlib.Core.Logic.{◌↔◌}
use ssz.Base.Words.{u32}
use ssz.Errors.{Error, buffer_too_small, unexpected_eof}
use ssz.Fork.{Fork}
use ssz.Encoder.{Writer, Sink, stream, buffer, Encoder, offset_dynamics}
use ssz.Decoder.{Decoder}
use ssz.Decoder.Offsets.{descend_into_slot, ascend_from_slot, start_dynamics, flush_dynamics}
use ssz.Decoder.Slotted.{IsInside, consumed, ascend_from_slot-Leaves}

-- The two interfaces of an object; `dynamic_object n` has `n` bytes in its static part (SizeSSZ).
pub data Kind : Type 0 where
  static_object : Kind
  dynamic_object : ℕ → Kind

unfoldable pub begin_encode : Kind → Encoder → Encoder
begin_encode static_object e = e
begin_encode (dynamic_object fixed) e = offset_dynamics fixed e

module _ (kind : Kind) (define : Encoder → Option Encoder) where
  -- The error that is returned, and what was written.
  unfoldable pub encode_to_stream_on_fork : Writer → Fork → Encoder → Option (Option Error × Sink)
  encode_to_stream_on_fork w fork pooled =
      define (begin_encode kind (record pooled { sink = stream w; fork = fork })) >>= λ e.
      some (e.err, e.sink)

  -- `size` is SizeOnFork of the object.
  unfoldable pub encode_to_bytes_on_fork :
      ℕ → List ℕ → Fork → Encoder → Option (Option Error × Sink)
  encode_to_bytes_on_fork size buf fork pooled =
      if ltb (length buf) size
      then some (some buffer_too_small, buffer [] buf)
      else define (begin_encode kind (record pooled { sink = buffer [] buf; fork = fork })) >>= λ e.
          some (e.err, e.sink)

module _ {A : Type 0} (kind : Kind) (define : Decoder → Option (A × Decoder)) where
  -- The switch over the kind of the object, inside its slot.
  unfoldable pub decode_object : Decoder → Option (A × Decoder)
  decode_object dec = elim kind [
    | static_object ↦ define dec
    | dynamic_object fixed ↦
        define (start_dynamics fixed dec) >>= λ r. flush_dynamics r.1 >>= λ d. some (r.0, d)
  ]

  abbrev pub from_stream : List ℕ → Error → Fork → Decoder → Decoder
  from_stream input stop fork pooled = record pooled {
    streaming = true;
    input = input;
    stop = stop;
    fork = fork;
  }

  -- The error that is returned, and the object.
  unfoldable pub decode_from_stream_on_fork :
      List ℕ → Error → ℕ → Fork → Decoder → Option (Option Error × A)
  decode_from_stream_on_fork input stop size fork pooled =
      decode_object (descend_into_slot size (from_stream input stop fork pooled)) >>= λ r.
      ascend_from_slot r.1 >>= λ d. some (d.err, r.0)

  -- `address` is that of the first byte.
  abbrev pub from_bytes : ℕ → List ℕ → Fork → Decoder → Decoder
  from_bytes address blob fork pooled = record pooled {
    streaming = false;
    input = blob;
    in_buf_end = address + length blob;
    fork = fork;
  }

  unfoldable pub decode_from_bytes_on_fork :
      A → ℕ → List ℕ → Fork → Decoder → Option (Option Error × A)
  decode_from_bytes_on_fork old address blob fork pooled =
      if length blob == 0
      then some (some unexpected_eof, old)
      else decode_object
          (descend_into_slot (u32 (length blob)) (from_bytes address blob fork pooled))
        >>= λ r. ascend_from_slot r.1 >>= λ d. some (d.err, r.0)

  -- If the object's fields were decoded to `v` from a blob that is not empty, and the decoder's stacks
  -- are as on entry, then DecodeFromBytesOnFork gives `v` without a panic, and reports no error exactly
  -- if the fields met none and consumed as many bytes as the blob has, as a uint32.
  pub decode_from_bytes_on_fork-consumed :
      (old : A) (address : ℕ) (blob : List ℕ) (fork : Fork) (pooled : Decoder) (v : A) (d : Decoder)
      → 1 ≤ length blob
      → decode_object (descend_into_slot (u32 (length blob)) (from_bytes address blob fork pooled))
        ≡ some (v, d)
      → IsInside (u32 (length blob)) (from_bytes address blob fork pooled) d
      → (err : Option Error) × (decode_from_bytes_on_fork old address blob fork pooled
          ≡ some (err, v))
        × ((err ≡ none) ↔ ((d.err ≡ none) × (consumed d ≡ u32 (length blob))))
  unfolding decode_from_bytes_on_fork
  decode_from_bytes_on_fork-consumed old address blob fork pooled v d filled ran inside =
      let (a, left, _, _, _, _, _, _, _, _, exact) =
        ascend_from_slot-Leaves (u32 (length blob)) (from_bytes address blob fork pooled) d
          inside in
      (
        a.err,
        rw (==_false (length blob) 0 (omega arith)) (
            ap (λ m. m >>= λ r. ascend_from_slot r.1 >>= λ x. some (x.err, r.0)) ran
            ∙ ap (λ m. m >>= λ x. some (x.err, v)) left),
        exact,
      )

  -- If the object's fields were decoded to `v` from a stream, and the decoder's stacks are as on entry,
  -- then DecodeFromStreamOnFork gives `v` without a panic, and reports no error exactly if the fields
  -- met none and consumed as many bytes as the size that the caller gave.
  pub decode_from_stream_on_fork-consumed :
      (input : List ℕ) (stop : Error) (size : ℕ) (fork : Fork) (pooled : Decoder) (v : A)
      (d : Decoder)
      → decode_object (descend_into_slot size (from_stream input stop fork pooled)) ≡ some (v, d)
      → IsInside size (from_stream input stop fork pooled) d
      → (err : Option Error) × (decode_from_stream_on_fork input stop size fork pooled
          ≡ some (err, v))
        × ((err ≡ none) ↔ ((d.err ≡ none) × (consumed d ≡ size)))
  unfolding decode_from_stream_on_fork
  decode_from_stream_on_fork-consumed input stop size fork pooled v d ran inside =
      let (a, left, _, _, _, _, _, _, _, _, exact) =
        ascend_from_slot-Leaves size (from_stream input stop fork pooled) d inside in
      (
        a.err,
        ap (λ m. m >>= λ r. ascend_from_slot r.1 >>= λ x. some (x.err, r.0)) ran
            ∙ ap (λ m. m >>= λ x. some (x.err, v)) left,
        exact,
      )
