-- ===== src/RoundTrip/Scalars.antt =====
-- decoder.go reads back the numbers, booleans and arrays that encoder.go writes, on a stream or a
-- buffer at either end.
use ssz.Base.{
  ℕ, zero, suc, ◌^◌, ◌≤◌, ◌<◌, ◌≡◌, refl, sym, ap, ◌∙◌, false, none, some, List, [], ◌∷◌, ◌++◌,
  append-nil, length, length-append, take, drop, take-append, drop-append, ltb, le→leb, le→ltb,
  if◌then◌else◌, if-both, arith,
}
use ssz.Base.Words.{put_uint, get_uint, length-put_uint, get_uint-put_uint}
use ssz.Errors.{unexpected_eof}
use ssz.Encoder.{Encoder, emit, encode_uint64, encode_static_bytes}
use ssz.Encoder.Written.{written, emit-written}
use ssz.Decoder.{
  Decoder, fail, count_read, advance, read_full, read_buf, overwrite, has_failed, decode_uint,
  decode_uint64, decode_static_bytes,
}

pub append-cancel : (xs ys zs : List ℕ) → xs ++ ys ≡ xs ++ zs → ys ≡ zs
append-cancel xs ys zs e =
    sym (drop-append (length xs) xs ys refl)
    ∙ ap (drop (length xs)) e
    ∙ drop-append (length xs) xs zs refl

-- The operation gave `v`, met no error, and left `rest`.
abbrev pub Gives {ℓ} : {A : Type ℓ} → A → List ℕ → A × Decoder → Type ℓ
Gives {A = A} v rest r = (r.0 ≡ v) × (r.1.input ≡ rest) × (r.1.err ≡ none)

-- What was written is what is emitted.
pub wrote :
    (e e' : Encoder) (bs bytes : List ℕ)
    → e.err ≡ none
    → emit bs e ≡ some e'
    → e'.err ≡ none
    → written e'.sink ≡ written e.sink ++ bytes
    → bytes ≡ bs
wrote e e' bs bytes sound ran good sink =
    append-cancel (written e.sink) bytes bs (sym sink ∙ emit-written e e' bs sound ran good)

pub read_full-read :
    (k : ℕ) (bs rest : List ℕ) (dec : Decoder)
    → length bs ≡ k
    → dec.input ≡ bs ++ rest
    → Gives bs rest (read_full k dec)
unfolding read_full
read_full-read k bs rest dec size front = (
  ap (take k) front ∙ take-append k bs rest size,
  ap (drop k) front ∙ drop-append k bs rest size,
  rw (front, le→leb k (length (bs ++ rest)) (omega (arith, length-append bs rest))) refl,
)

drop_all : (k : ℕ) (xs : List ℕ) → length xs ≤ k → drop k xs ≡ []
drop_all zero [] h = refl
drop_all zero (x ∷ xs) h = absurd (omega arith)
drop_all (suc k) [] h = refl
drop_all (suc k) (x ∷ xs) h = drop_all k xs (omega arith)

decode_uint-read :
    (k n old : ℕ) (dec : Decoder) (rest : List ℕ)
    → n < 256 ^ k
    → dec.err ≡ none
    → dec.input ≡ put_uint k n ++ rest
    → Gives n rest (decode_uint k old dec)
unfolding decode_uint read_buf
decode_uint-read k n old dec rest small sound front =
    rw (ap has_failed sound) (if-both (Gives n rest) dec.streaming streams buffers)
  where
    got : Gives (put_uint k n) rest (read_full k dec)
    got = read_full-read k (put_uint k n) rest dec (length-put_uint k n) front

    number : (bs : List ℕ) → bs ≡ put_uint k n → get_uint bs ≡ n
    number bs e = ap get_uint e ∙ get_uint-put_uint k n small

    streams : Gives n rest (get_uint (take k (read_buf k dec).buf), count_read k (read_buf k dec))
    streams = (
      number (take k (overwrite (read_full k dec).0 dec.buf)) (
          ap (λ b. take k (overwrite b dec.buf)) got.0
          ∙ take-append k (put_uint k n) (drop (length (put_uint k n)) dec.buf)
              (length-put_uint k n)),
      got.1,
      got.2,
    )

    whole : ltb (length dec.input) k ≡ false
    whole =
        le→ltb (length dec.input) k
          (omega (arith, ap length front, length-append (put_uint k n) rest, length-put_uint k n))

    buffers : Gives n rest (
        if ltb (length dec.input) k
        then (old, fail unexpected_eof dec)
        else (get_uint (take k dec.input), advance k dec))
    buffers = rw whole (
      number (take k dec.input)
          (ap (take k) front ∙ take-append k (put_uint k n) rest (length-put_uint k n)),
      ap (drop k) front ∙ drop-append k (put_uint k n) rest (length-put_uint k n),
      sound,
    )

pub overwrite-all : (got old : List ℕ) → length old ≤ length got → overwrite got old ≡ got
overwrite-all got old h = ap (λ r. got ++ r) (drop_all (length got) old h) ∙ append-nil got

-- If EncodeUint64 wrote `bytes` for a number below 2^64 without an error, on a stream or into a
-- buffer, then DecodeUint64 on a stream or a buffer that starts with these bytes, and without an
-- earlier error, gives the number, leaves what follows, and reports no error.
pub decode_uint64-encode_uint64 :
    (n old : ℕ) (e e' : Encoder) (bytes rest : List ℕ) (dec : Decoder)
    → n < 2 ^ 64
    → e.err ≡ none
    → encode_uint64 n e ≡ some e'
    → e'.err ≡ none
    → written e'.sink ≡ written e.sink ++ bytes
    → dec.err ≡ none
    → dec.input ≡ bytes ++ rest
    → Gives n rest (decode_uint64 old dec)
unfolding encode_uint64 decode_uint64
decode_uint64-encode_uint64 n old e e' bytes rest dec small sound ran good sink clean front =
    decode_uint-read 8 n old dec rest (omega arith) clean
      (front ∙ ap (λ b. b ++ rest) (wrote e e' (put_uint 8 n) bytes sound ran good sink))

-- If EncodeStaticBytes wrote `bytes` for an array without an error, on a stream or into a buffer,
-- then DecodeStaticBytes into an array of the same length, on a stream or a buffer that starts with
-- these bytes, and without an earlier error, stores that array, leaves what follows, and reports no
-- error.
pub decode_static_bytes-encode_static_bytes :
    (blob old : List ℕ) (e e' : Encoder) (bytes rest : List ℕ) (dec : Decoder)
    → length old ≡ length blob
    → e.err ≡ none
    → encode_static_bytes blob e ≡ some e'
    → e'.err ≡ none
    → written e'.sink ≡ written e.sink ++ bytes
    → dec.err ≡ none
    → dec.input ≡ bytes ++ rest
    → Gives blob rest (decode_static_bytes old dec)
unfolding encode_static_bytes decode_static_bytes
decode_static_bytes-encode_static_bytes blob old e e' bytes rest dec size sound ran good sink clean
      front =
    rw (ap has_failed clean) (if-both (Gives blob rest) dec.streaming streams buffers)
  where
    here : dec.input ≡ blob ++ rest
    here = front ∙ ap (λ b. b ++ rest) (wrote e e' blob bytes sound ran good sink)

    got : Gives blob rest (read_full (length old) dec)
    got = read_full-read (length old) blob rest dec (sym size) here

    streams : Gives blob rest (
      overwrite (read_full (length old) dec).0 old,
      count_read (length old) (read_full (length old) dec).1,
    )
    streams = (
      ap (λ b. overwrite b old) got.0
          ∙ ap (λ r. blob ++ r) (drop_all (length blob) old (omega arith))
          ∙ append-nil blob,
      got.1,
      got.2,
    )

    buffers : Gives blob rest (
        if ltb (length dec.input) (length old)
        then (old, fail unexpected_eof dec)
        else (take (length old) dec.input, advance (length old) dec))
    buffers =
        rw
          (le→ltb (length dec.input) (length old)
            (omega (arith, ap length here, length-append blob rest)))
          (
            ap (take (length old)) here ∙ take-append (length old) blob rest (sym size),
            ap (drop (length old)) here ∙ drop-append (length old) blob rest (sym size),
            clean,
          )
