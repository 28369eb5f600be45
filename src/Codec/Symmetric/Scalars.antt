-- ===== src/Codec/Symmetric/Scalars.antt =====
-- codec.go: numbers, booleans and static bytes are symmetric.
use ssz.Base.{
  ℕ, ◌+◌, ◌^◌, ◌<◌, ◌≡◌, refl, sym, ap, ◌∙◌, Option, none, some, List, ◌++◌, length, take, drop,
  take-append, ◌>>=◌, arith,
}
use ssz.Base.Words.{u32, put_uint, get_uint, length-put_uint, get_uint-put_uint}
use ssz.Encoder.{
  Encoder, emit, encode_uint8, encode_uint16, encode_uint32, encode_uint64, encode_static_bytes,
}
use ssz.Decoder.{
  Decoder, read_buf, overwrite, has_failed, decode_uint, decode_uint8, decode_uint16, decode_uint32,
  decode_uint64, decode_static_bytes,
}
use ssz.Hasher.{Sha}
use ssz.RoundTrip.Scalars.{overwrite-all}
use ssz.Codec.{
  Codec, dispatch, encoding, decoding, define_uint8, define_uint16, define_uint32, define_uint64,
}
use ssz.Codec.Arrays.{define_static_bytes}
use ssz.Codec.Symmetric.{
  moved, Shape, Symmetric, emit-returned, read_full-moved, from_source, from_buffer,
}

decode_uint-moved :
    (k n old : ℕ) (d : Decoder) (rest : List ℕ)
    → n < 256 ^ k
    → d.err ≡ none
    → d.input ≡ put_uint k n ++ rest
    → (buf : List ℕ) × (decode_uint k old d ≡ (n, moved k rest buf d))
unfolding decode_uint read_buf
decode_uint-moved k n old d rest small sound front =
    let size = length-put_uint k n in
    let value = get_uint-put_uint k n small in
    rw (ap has_failed sound) (
      from_source d.streaming _ _ n k rest (overwrite (put_uint k n) d.buf) d
        (ap
            (λ r. (
              get_uint (take k (overwrite r.0 d.buf)),
              record r.1 { buf = overwrite r.0 d.buf; in_read = u32 (r.1.in_read + k) },
            ))
            (read_full-moved k (put_uint k n) rest d size front)
          ∙ ap
              (λ v. (
                v,
                record d {
                  input = rest;
                  in_read = u32 (d.in_read + k);
                  buf = overwrite (put_uint k n) d.buf;
                  err = none;
                },
              ))
              (ap get_uint (take-append k (put_uint k n) (drop (length (put_uint k n)) d.buf) size)
                ∙ value))
        (from_buffer get_uint _ k (put_uint k n) rest d size sound front
          ∙ ap (λ v. (v, record d { input = rest; err = none })) value))

abbrev pub number_shape : ℕ → Shape ℕ
number_shape k = record {
  size = k;
  bytes = put_uint k;
  IsValid = λ n. n < 256 ^ k;
  IsReady = λ n. Unit {0};
}

abbrev pub bytes_shape : ℕ → Shape (List ℕ)
bytes_shape n = record {
  size = n;
  bytes = λ blob. blob;
  IsValid = λ blob. length blob ≡ n;
  IsReady = λ old. length old ≡ n;
}

-- What the dispatch makes of a decoder's result.
abbrev pub stored {ℓ} : {A : Type ℓ} → Decoder → A × Decoder → Option (A × Codec)
stored d r = some (r.0, record (decoding d) { dec = some r.1 })

module _ (define : ℕ → Codec → Option (ℕ × Codec)) (k : ℕ)
    (encodes : (n : ℕ) (e : Encoder)
      → define n (encoding e)
        ≡ (emit (put_uint k n) e >>= λ e'. some (n, record (encoding e) { enc = some e' })))
    (decodes : (n : ℕ) (d : Decoder) → define n (decoding d) ≡ stored d (decode_uint k n d)) where
  number-Symmetric : Symmetric (number_shape k) define
  number-Symmetric = record {
    length-bytes = λ n small. length-put_uint k n;
    encodes = λ n e healthy. encodes n e ∙ emit-returned n (put_uint k n) e;
    decodes = λ n old d rest small ready sound front.
        let (buf, run) = decode_uint-moved k n old d rest small sound front in
        (buf, decodes old d ∙ ap (stored d) run);
  }

module _ (sha : Sha) where
  pub define_uint8-Symmetric : Symmetric (number_shape 1) (define_uint8 sha)
  unfolding define_uint8 dispatch encode_uint8 decode_uint8
  define_uint8-Symmetric = number-Symmetric (define_uint8 sha) 1 (λ n e. refl) (λ n d. refl)

  pub define_uint16-Symmetric : Symmetric (number_shape 2) (define_uint16 sha)
  unfolding define_uint16 dispatch encode_uint16 decode_uint16
  define_uint16-Symmetric = number-Symmetric (define_uint16 sha) 2 (λ n e. refl) (λ n d. refl)

  pub define_uint32-Symmetric : Symmetric (number_shape 4) (define_uint32 sha)
  unfolding define_uint32 dispatch encode_uint32 decode_uint32
  define_uint32-Symmetric = number-Symmetric (define_uint32 sha) 4 (λ n e. refl) (λ n d. refl)

  pub define_uint64-Symmetric : Symmetric (number_shape 8) (define_uint64 sha)
  unfolding define_uint64 dispatch encode_uint64 decode_uint64
  define_uint64-Symmetric = number-Symmetric (define_uint64 sha) 8 (λ n e. refl) (λ n d. refl)

decode_static_bytes-moved :
    (blob old : List ℕ) (d : Decoder) (rest : List ℕ)
    → length old ≡ length blob
    → d.err ≡ none
    → d.input ≡ blob ++ rest
    → (buf : List ℕ) × (decode_static_bytes old d ≡ (blob, moved (length blob) rest buf d))
unfolding decode_static_bytes
decode_static_bytes-moved blob old d rest size sound front =
    rw (ap has_failed sound, size)
      (from_source d.streaming _ _ blob (length blob) rest d.buf d
        (ap (λ r. (overwrite r.0 old, record r.1 { in_read = u32 (r.1.in_read + length blob) }))
            (read_full-moved (length blob) blob rest d refl front)
          ∙ ap
              (λ v.
                (v, record d { input = rest; in_read = u32 (d.in_read + length blob); err = none }))
              (overwrite-all blob old (omega arith)))
        (from_buffer (λ b. b) _ (length blob) blob rest d refl sound front))

-- An array type has a length.
module _ (sha : Sha) (n : ℕ) where
  pub define_static_bytes-Symmetric : Symmetric (bytes_shape n) (define_static_bytes sha)
  unfolding define_static_bytes dispatch encode_static_bytes
  define_static_bytes-Symmetric = record {
    length-bytes = λ blob e. e;
    encodes = λ blob e healthy. emit-returned blob blob e;
    decodes = λ blob old d rest size ready sound front.
        let (buf, run) = decode_static_bytes-moved blob old d rest (ready ∙ sym size) sound front in
        (buf, ap (stored d) run ∙ ap (λ k. some (blob, decoding (moved k rest buf d))) size);
  }
