-- ===== src/Uint256/Wide.antt =====
-- decoder.go reads back the 256-bit numbers that encoder.go writes.
use ssz.Base.{
  ℕ, ◌≡◌, refl, ap, ◌∙◌, Option, none, some, List, ◌++◌, length, length-append, length-replicate,
  take, drop, take-append, drop-append, ltb, le→ltb, if◌then◌else◌, if-both, arith,
}
use ssz.Base.Words.{zeros}
use ssz.Errors.{unexpected_eof}
use ssz.Encoder.{Encoder}
use ssz.Encoder.Written.{written}
use ssz.Decoder.{Decoder, fail, count_read, advance, read_full, read_buf, overwrite, has_failed}
use ssz.RoundTrip.Scalars.{Gives, wrote, read_full-read}
use ssz.Uint256.{Uint256, marshal_or_zero, encode_uint256, decode_uint256}

-- A read of 32 bytes that are there, into a number, whichever the source.
abbrev read_wide {ℓ} : {B : Type ℓ} → (List ℕ → B) → B → Decoder → B × Decoder
read_wide parse old dec =
    if dec.streaming
    then (let d = read_buf 32 dec in
        if has_failed d.err then (old, d) else (parse (take 32 d.buf), count_read 32 d))
    else (if ltb (length dec.input) 32
        then (old, fail unexpected_eof dec)
        else (parse (take 32 dec.input), advance 32 dec))

module _ {B : Type 0} (parse : List ℕ → B) (old : B) (bs rest : List ℕ) (dec : Decoder)
    (size : length bs ≡ 32) (sound : dec.err ≡ none) (front : dec.input ≡ bs ++ rest) where
  got : Gives bs rest (read_full 32 dec)
  got = read_full-read 32 bs rest dec size front

  pub read_wide-read : Gives (parse bs) rest (read_wide parse old dec)
  unfolding read_buf
  read_wide-read =
      if-both (Gives (parse bs) rest) dec.streaming
        (rw (ap has_failed got.2) (
          ap parse (
              ap (λ b. take 32 (overwrite b dec.buf)) got.0
              ∙ take-append 32 bs (drop (length bs) dec.buf) size),
          got.1,
          got.2,
        ))
        (rw (le→ltb (length dec.input) 32 (omega (arith, ap length front, length-append bs rest))) (
          ap parse (ap (take 32) front ∙ take-append 32 bs rest size),
          ap (drop 32) front ∙ drop-append 32 bs rest size,
          sound,
        ))

module _ (lib : Uint256) where
  open lib use {Int, BigInt, marshal_ssz, unmarshal_ssz, set_from_big, into_big}

  -- What a pointer stands for; the library reads a number from 32 zero bytes too.
  abbrev pub value_or_zero : Option Int → Int
  value_or_zero none = unmarshal_ssz (zeros 32)
  value_or_zero (some n) = n

  length-marshal_or_zero : (n : Option Int) → length (marshal_or_zero lib n) ≡ 32
  unfolding marshal_or_zero
  length-marshal_or_zero none = length-replicate {A = ℕ} 32 0
  length-marshal_or_zero (some n) = lib.length-marshal_ssz n

  unmarshal_ssz-marshal_or_zero :
      (n : Option Int) → unmarshal_ssz (marshal_or_zero lib n) ≡ value_or_zero n
  unfolding marshal_or_zero
  unmarshal_ssz-marshal_or_zero none = refl
  unmarshal_ssz-marshal_or_zero (some n) = lib.unmarshal_ssz-marshal_ssz n

  -- If EncodeUint256 wrote `bytes` for a pointer without an error, on a stream or into a buffer, then
  -- DecodeUint256 into any pointer, on a stream or a buffer that starts with these bytes, and without
  -- an earlier error, points to the number, or for a nil pointer to the number of 32 zero bytes, leaves
  -- what follows, and reports no error.
  pub decode_uint256-encode_uint256 :
      (n old : Option Int) (e e' : Encoder) (bytes rest : List ℕ) (dec : Decoder)
      → e.err ≡ none
      → encode_uint256 lib n e ≡ some e'
      → e'.err ≡ none
      → written e'.sink ≡ written e.sink ++ bytes
      → dec.err ≡ none
      → dec.input ≡ bytes ++ rest
      → Gives (some (value_or_zero n)) rest (decode_uint256 lib old dec)
  unfolding encode_uint256 decode_uint256
  decode_uint256-encode_uint256 n old e e' bytes rest dec sound ran good sink clean front =
      let same = wrote e e' (marshal_or_zero lib n) bytes sound ran good sink in
      let (value, left, fine) =
        read_wide-read (λ b. some (unmarshal_ssz b)) old (marshal_or_zero lib n) rest dec
          (length-marshal_or_zero n) clean (front ∙ ap (λ b. b ++ rest) same) in
      rw (ap has_failed clean) (value ∙ ap some (unmarshal_ssz-marshal_or_zero n), left, fine)
