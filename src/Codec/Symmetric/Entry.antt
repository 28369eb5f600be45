-- ===== src/Codec/Symmetric/Entry.antt =====
-- ssz.go: what EncodeToBytesOnFork makes of a static object with a symmetric DefineSSZ method,
-- DecodeFromBytesOnFork reads back.
use ssz.Base.{
  ℕ, ◌≤◌, ◌≡◌, inr, refl, sym, ap, ap₂, ◌∙◌, Option, none, some, List, [], append-nil, length, drop,
  le→ltb, le→leb, ◌>>=◌, arith,
}
use ssz.Base.Words.{u32}
use ssz.Fork.{Fork}
use ssz.Encoder.{buffer, Encoder, emit, emit_to}
use ssz.Decoder.{Decoder}
use ssz.Decoder.Offsets.{descend_into_slot, start_dynamics}
use ssz.Decoder.Slotted.{IsInside}
use ssz.Entry.{
  static_object, begin_encode, encode_to_bytes_on_fork, decode_object, from_bytes,
  decode_from_bytes_on_fork, decode_from_bytes_on_fork-consumed,
}
use ssz.Codec.{Codec}
use ssz.Codec.Objects.{run_by_encoder, run_by_decoder}
use ssz.Codec.Symmetric.{moved, Shape, Symmetric}
use ssz.Codec.Symmetric.Objects.{run_by_encoder-emit, run_by_decoder-moved}

module _ {A : Type 0} (define : A → Codec → Option (A × Codec)) (S : Shape A)
    (P : Symmetric S define) where
  encode_to_bytes_on_fork-bytes :
      (a : A) (buf : List ℕ) (fork : Fork) (pooled : Encoder)
      → S.IsValid a
      → pooled.err ≡ none
      → S.size ≤ length buf
      → encode_to_bytes_on_fork static_object (run_by_encoder define a) S.size buf fork pooled
        ≡ some (none, buffer (S.bytes a) (drop S.size buf))
  unfolding encode_to_bytes_on_fork begin_encode emit emit_to
  encode_to_bytes_on_fork-bytes a buf fork pooled valid sound room =
      let e0 = record pooled { sink = buffer [] buf; fork = fork } in
      let size = P.length-bytes a valid in
      rw (le→ltb (length buf) S.size room) (
        ap (λ m. m >>= λ e. some (e.err, e.sink)) (run_by_encoder-emit define S P a e0 sound)
        ∙ rw (le→leb (length (S.bytes a)) (length buf) (omega (arith, size)))
            (ap₂ (λ x k. some (x, buffer (S.bytes a) (drop k buf))) sound size))

  inside :
      (a old : A) (address : ℕ) (fork : Fork) (pooled : Decoder) (buf : List ℕ)
      → IsInside
          (u32 (length (S.bytes a)))
          (from_bytes static_object (run_by_decoder define old) address (S.bytes a) fork pooled)
          (moved S.size [] buf (
            descend_into_slot (u32 (length (S.bytes a))) (
              from_bytes static_object
                (run_by_decoder define old)
                address
                (S.bytes a)
                fork
                pooled)))
  unfolding descend_into_slot start_dynamics
  inside a old address fork pooled buf = record {
    bound = refl;
    above = refl;
    kept = refl;
    source = inr (refl, refl);
  }

  -- If the DefineSSZ method of a static object is symmetric, the buffer has room for its size, which
  -- is not 0, and the pooled codecs have met no error, then EncodeToBytesOnFork fills the buffer with
  -- the bytes of the object, and reports no error, and DecodeFromBytesOnFork of these bytes, wherever
  -- they lie in memory, into any object that is ready for it, gives the object and reports no error.
  pub decode_from_bytes_on_fork-encode_to_bytes_on_fork :
      (a old : A) (buf : List ℕ) (fork : Fork) (pooled : Encoder) (address : ℕ) (pooled' : Decoder)
      → S.IsValid a
      → S.IsReady old
      → 1 ≤ S.size
      → S.size ≤ length buf
      → pooled.err ≡ none
      → pooled'.err ≡ none
      → (encode_to_bytes_on_fork static_object (run_by_encoder define a) S.size buf fork pooled
          ≡ some (none, buffer (S.bytes a) (drop S.size buf)))
        × (decode_from_bytes_on_fork static_object
              (run_by_decoder define old)
              old
              address
              (S.bytes a)
              fork
              pooled'
            ≡ some (none, a))
  unfolding decode_object descend_into_slot start_dynamics
  decode_from_bytes_on_fork-encode_to_bytes_on_fork a old buf fork pooled address pooled' valid
        ready some_ room sound sound' =
      let size = P.length-bytes a valid in
      let d0 =
        descend_into_slot (u32 (length (S.bytes a)))
          (from_bytes static_object (run_by_decoder define old) address (S.bytes a) fork pooled') in
      let (b, run) =
        run_by_decoder-moved define S P a old d0 [] valid ready sound'
          (sym (append-nil (S.bytes a))) in
      let (err, ran, exact) =
        decode_from_bytes_on_fork-consumed static_object (run_by_decoder define old) old address
          (S.bytes a) fork pooled' a (moved S.size [] b d0) (omega (arith, size)) run
          (inside a old address fork pooled' b) in
      (
        encode_to_bytes_on_fork-bytes a buf fork pooled valid sound room,
        ran ∙ ap (λ x. some (x, a)) (exact.1 (refl, omega arith)),
      )
