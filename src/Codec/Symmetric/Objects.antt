-- ===== src/Codec/Symmetric/Objects.antt =====
-- codec.go: a field that points to an object with a symmetric DefineSSZ method is symmetric.
use ssz.Base.{
  ℕ, ◌≡◌, refl, sym, ap, ◌∙◌, Option, none, some, List, ◌++◌, length, if◌then◌else◌, ◌>>=◌,
}
use mathlib.Core.Option.{none-ne-some}
use mathlib.Core.Path.{subst}
use ssz.Errors.{Error}
use ssz.Encoder.{Sink, stream, buffer, Encoder, emit, emit_to, put_in}
use ssz.Encoder.Objects.{encode_static_object, or_zero, has_stopped}
use ssz.Decoder.{Decoder, has_failed}
use ssz.Decoder.Objects.{decode_static_object, or_fresh}
use ssz.Hasher.{Sha}
use ssz.Codec.{Codec, dispatch, encoding, decoding}
use ssz.Codec.Objects.{run_by_encoder, run_by_decoder, define_static_object}
use ssz.Codec.Symmetric.{moved, IsHealthy, returned, Shape, Symmetric, emit-returned}

-- A pointer to an object: nil is written as the zero value, and is made new before it is read.
abbrev pub pointer_shape : {A : Type 0} → A → Shape A → Shape (Option A)
pointer_shape zero_value S = record {
  size = S.size;
  bytes = λ obj. elim obj [ none ↦ S.bytes zero_value | some a ↦ S.bytes a ];
  IsValid = λ obj. elim obj [ none ↦ ⊥ | some a ↦ S.IsValid a ];
  IsReady = λ obj. elim obj [ none ↦ S.IsReady zero_value | some a ↦ S.IsReady a ];
}

-- An encoder that has met an error writes nothing.
emit-stopped :
    (bs : List ℕ) (e : Encoder) (x : Error)
    → e.err ≡ some x
    → IsHealthy e.sink e.err
    → emit bs e ≡ some e
unfolding emit
emit-stopped bs e x stopped healthy =
    ap (λ m. m >>= λ r. some (put_in r e))
      (ap (λ o. emit_to e.sink o bs) stopped
        ∙ stays e.sink (subst (IsHealthy e.sink) stopped healthy))
    ∙ ap (λ o. some (record e { err = o })) (sym stopped)
  where
    stays : (s : Sink) → IsHealthy s (some x) → emit_to s (some x) bs ≡ some (s, some x)
    stays (stream w) h = unfold emit_to in refl
    stays (buffer filled rest) h = absurd (none-ne-some x (sym h))

module _ {A : Type 0} (define : A → Codec → Option (A × Codec)) (S : Shape A)
    (P : Symmetric S define) where
  pub run_by_encoder-emit :
      (a : A) (e : Encoder)
      → IsHealthy e.sink e.err
      → run_by_encoder define a e ≡ emit (S.bytes a) e
  unfolding run_by_encoder
  run_by_encoder-emit a e healthy =
      ap (λ m. m >>= λ r. r.1.enc) (P.encodes a e healthy) ∙ out (emit (S.bytes a) e)
    where
      out : (m : Option Encoder) → (m >>= returned {A = A} a >>= λ r. r.1.enc) ≡ m
      out none = refl
      out (some e') = refl

  pub run_by_decoder-moved :
      (a old : A) (d : Decoder) (rest : List ℕ)
      → S.IsValid a
      → S.IsReady old
      → d.err ≡ none
      → d.input ≡ S.bytes a ++ rest
      → (buf : List ℕ) × (run_by_decoder define old d ≡ some (a, moved S.size rest buf d))
  unfolding run_by_decoder
  run_by_decoder-moved a old d rest valid ready sound front =
      let (buf, run) = P.decodes a old d rest valid ready sound front in
      (buf, ap (λ m. m >>= λ r. r.1.dec >>= λ d'. some (r.0, d')) run)

  module _ (sha : Sha) (zero_value : A) where
    encode_static_object-emit :
        (obj : Option A) (e : Encoder)
        → IsHealthy e.sink e.err
        → encode_static_object (run_by_encoder define) zero_value obj e
          ≡ emit ((pointer_shape zero_value S).bytes obj) e
    unfolding encode_static_object or_zero
    encode_static_object-emit obj e healthy = go e.err refl obj
      where
        go :
            (err : Option Error)
            → e.err ≡ err
            → (obj : Option A)
            → (if has_stopped err
                then some e
                else run_by_encoder define (or_zero (run_by_encoder define) zero_value obj) e)
              ≡ emit ((pointer_shape zero_value S).bytes obj) e
        go none sound none = run_by_encoder-emit zero_value e healthy
        go none sound (some a) = run_by_encoder-emit a e healthy
        go (some x) stopped obj = sym (emit-stopped _ e x stopped healthy)

    decode_static_object-moved :
        (a : A) (old : Option A) (d : Decoder) (rest : List ℕ)
        → S.IsValid a
        → (pointer_shape zero_value S).IsReady old
        → d.err ≡ none
        → d.input ≡ S.bytes a ++ rest
        → (buf : List ℕ) × (decode_static_object (run_by_decoder define) zero_value old d
            ≡ some (some a, moved S.size rest buf d))
    unfolding decode_static_object or_fresh
    decode_static_object-moved a old d rest valid ready sound front =
        let (buf, run) = fresh old ready in
        (buf, rw (ap has_failed sound) (ap (λ m. m >>= λ r. some (some r.0, r.1)) run))
      where
        fresh :
            (old : Option A)
            → (pointer_shape zero_value S).IsReady old
            → (buf : List ℕ) × (run_by_decoder define
                  (or_fresh (run_by_decoder define) zero_value old)
                  d
                ≡ some (a, moved S.size rest buf d))
        fresh none ready = run_by_decoder-moved a zero_value d rest valid ready sound front
        fresh (some old) ready = run_by_decoder-moved a old d rest valid ready sound front

    -- A field that points to an object with a symmetric method is symmetric.
    pub define_static_object-Symmetric :
        Symmetric (pointer_shape zero_value S) (define_static_object define sha zero_value)
    unfolding define_static_object dispatch
    define_static_object-Symmetric = record {
      length-bytes = λ obj valid. pointed obj valid;
      encodes = λ obj e healthy.
          ap (λ m. m >>= λ e'. some (obj, record (encoding e) { enc = some e' }))
            (encode_static_object-emit obj e healthy)
          ∙ emit-returned obj ((pointer_shape zero_value S).bytes obj) e;
      decodes = λ obj old d rest valid ready sound front.
          pointed_decodes obj old d rest valid ready sound front;
    }
      where
        pointed :
            (obj : Option A)
            → (pointer_shape zero_value S).IsValid obj
            → length ((pointer_shape zero_value S).bytes obj) ≡ S.size
        pointed none valid = absurd valid
        pointed (some a) valid = P.length-bytes a valid

        pointed_decodes :
            (obj old : Option A) (d : Decoder) (rest : List ℕ)
            → (pointer_shape zero_value S).IsValid obj
            → (pointer_shape zero_value S).IsReady old
            → d.err ≡ none
            → d.input ≡ (pointer_shape zero_value S).bytes obj ++ rest
            → (buf : List ℕ) × (define_static_object define sha zero_value old (decoding d)
                ≡ some (obj, decoding (moved S.size rest buf d)))
        pointed_decodes none old d rest valid ready sound front = absurd valid
        pointed_decodes (some a) old d rest valid ready sound front =
            let (buf, run) = decode_static_object-moved a old d rest valid ready sound front in
            (buf, ap (λ m. m >>= λ r. some (r.0, record (decoding d) { dec = some r.1 })) run)
