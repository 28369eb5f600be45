-- ===== src/Encoder/Written.antt =====
-- What encoder.go has written: the bytes of a stream, or the filled part of a buffer.
use ssz.Base.{
  ℕ, ◌≡◌, sym, ap, ◌∙◌, Option, none, some, List, ◌++◌, length, drop, le→leb, lt→leb, ◌>>=◌, arith,
  refl,
}
use mathlib.Core.Option.{some-injective, none-ne-some}
use native.Mathlib.Decide.{dec_le}
use ssz.Errors.{Error}
use ssz.Encoder.{Sink, stream, buffer, Encoder, emit_to, emit, put_in}
use ssz.Encoder.Emit.{write_fits, write_short}

-- What a sink took so far.
abbrev pub written : Sink → List ℕ
written (stream w) = w.written
written (buffer filled rest) = filled

emit_to-written :
    (s s' : Sink) (bs : List ℕ) → emit_to s none bs ≡ some (s', none) → written s' ≡ written s ++ bs
unfolding emit_to
emit_to-written (stream w) s' bs ran = elim (dec_le (length bs) w.room) [
  | yes fits ↦
      sym (ap (λ r. written r.0) (some-injective _ _ ran))
      ∙ ap (λ r. r.0.written) (write_fits bs w fits)
  | no short ↦ absurd (
      none-ne-some _ (
        sym (ap (λ r. r.1) (some-injective _ _ ran))
        ∙ ap (λ r. r.1) (write_short bs w (omega arith))))
]
emit_to-written (buffer filled rest) s' bs ran = elim (dec_le (length bs) (length rest)) [
  | yes fits ↦
      let known : emit_to (buffer filled rest) none bs
          ≡ some (buffer (filled ++ bs) (drop (length bs) rest), none) =
        rw (le→leb (length bs) (length rest) fits) refl in
      ap (λ r. written r.0)
        (some-injective (s', none) (buffer (filled ++ bs) (drop (length bs) rest), none)
          (sym ran ∙ known))
  | no short ↦
      let known : emit_to (buffer filled rest) none bs ≡ none =
        rw (lt→leb (length bs) (length rest) (omega arith)) refl in
      absurd (none-ne-some _ (sym known ∙ ran))
]

-- A write that meets no error puts its bytes behind what was written.
pub emit-written :
    (e e' : Encoder) (bs : List ℕ)
    → e.err ≡ none
    → emit bs e ≡ some e'
    → e'.err ≡ none
    → written e'.sink ≡ written e.sink ++ bs
unfolding emit
emit-written e e' bs sound ran good =
    sent (emit_to e.sink none bs) refl
      (ap (λ r. emit_to e.sink r bs >>= λ o. some (put_in o e)) (sym sound) ∙ ran)
  where
    sent :
        (m : Option (Sink × Option Error))
        → emit_to e.sink none bs ≡ m
        → (m >>= λ o. some (put_in o e)) ≡ some e'
        → written e'.sink ≡ written e.sink ++ bs
    sent none known made = absurd (none-ne-some _ made)
    sent (some (s, err)) known made =
        let same = some-injective _ _ made in
        ap (λ x. written x.sink) (sym same)
        ∙ emit_to-written e.sink s bs (known ∙ ap (λ x. some (s, x)) (ap (λ x. x.err) same ∙ good))
