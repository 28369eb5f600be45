-- ===== src/Codec/Symmetric/Sequence.antt =====
-- codec.go: a DefineSSZ method that calls symmetric Define functions one after another is symmetric.
use ssz.Base.{
  ℕ, ◌+◌, ◌≡◌, refl, sym, ap, ◌∙◌, Bool, true, false, Option, none, some, List, ◌++◌, append_assoc,
  length, length-append, leb, if◌then◌else◌, if-both, ◌>>=◌, arith,
}
use ssz.Base.Words.{u32}
use ssz.Errors.{Error}
use ssz.Encoder.{Sink, stream, buffer, Encoder, emit, emit_to, put_in}
use ssz.Encoder.Emit.{emit-append}
use ssz.Decoder.{Decoder}
use ssz.Codec.{Codec, encoding, decoding}
use ssz.Codec.Symmetric.{moved, IsHealthy, returned, Shape, Symmetric}

-- One field after another.
abbrev pub then_define :
    {A B : Type 0}
    → (A → Codec → Option (A × Codec))
    → (B → Codec → Option (B × Codec))
    → A × B
    → Codec
    → Option ((A × B) × Codec)
then_define p q (a, b) c = p a c >>= λ r. q b r.1 >>= λ s. some ((r.0, s.0), s.1)

abbrev pub then_shape : {A B : Type 0} → Shape A → Shape B → Shape (A × B)
then_shape S T = record {
  size = S.size + T.size;
  bytes = λ v. S.bytes v.0 ++ T.bytes v.1;
  IsValid = λ v. S.IsValid v.0 × T.IsValid v.1;
  IsReady = λ v. S.IsReady v.0 × T.IsReady v.1;
}

abbrev IsHealthyResult : Option (Sink × Option Error) → Type 0
IsHealthyResult none = Unit
IsHealthyResult (some (s, err)) = IsHealthy s err

emit_to-IsHealthy :
    (s : Sink) (err : Option Error) (bs : List ℕ)
    → IsHealthy s err
    → IsHealthyResult (emit_to s err bs)
unfolding emit_to
emit_to-IsHealthy (stream w) (some e) bs healthy = tt
emit_to-IsHealthy (stream w) none bs healthy = tt
emit_to-IsHealthy (buffer filled rest) err bs healthy =
    if-both IsHealthyResult (leb (length bs) (length rest)) healthy tt

count_twice :
    (b : Bool) (r j k : ℕ)
    → (if b then u32 ((if b then u32 (r + j) else r) + k) else (if b then u32 (r + j) else r))
      ≡ (if b then u32 (r + (j + k)) else r)
count_twice true r j k = omega arith
count_twice false r j k = refl

moved_twice :
    (j k : ℕ) (xs rest b c : List ℕ) (d : Decoder)
    → moved k rest c (moved j xs b d) ≡ moved (j + k) rest c d
moved_twice j k xs rest b c d =
    ap (λ n. record d { input = rest; in_read = n; buf = c; err = none })
      (count_twice d.streaming d.in_read j k)

module _ {A B : Type 0} (p : A → Codec → Option (A × Codec)) (q : B → Codec → Option (B × Codec))
    (S : Shape A) (T : Shape B) (P : Symmetric S p) (Q : Symmetric T q) where
  then-encodes :
      (a : A) (b : B) (e : Encoder)
      → IsHealthy e.sink e.err
      → then_define p q (a, b) (encoding e)
        ≡ (emit (S.bytes a ++ T.bytes b) e >>= returned {A = A × B} (a, b))
  unfolding emit
  then-encodes a b e healthy =
      ap (λ m. m >>= λ r. q b r.1 >>= λ s. some ((r.0, s.0), s.1)) (P.encodes a e healthy)
      ∙ go (emit_to e.sink e.err (S.bytes a)) (emit_to-IsHealthy e.sink e.err (S.bytes a) healthy)
      ∙ ap (λ m. m >>= returned {A = A × B} (a, b)) (sym (emit-append (S.bytes a) (T.bytes b) e))
    where
      second :
          (e' : Encoder)
          → IsHealthy e'.sink e'.err
          → (q b (encoding e') >>= λ s. some ((a, s.0), s.1))
            ≡ (emit (T.bytes b) e' >>= returned {A = A × B} (a, b))
      second e' h =
          ap (λ m. m >>= λ s. some ((a, s.0), s.1)) (Q.encodes b e' h) ∙ pull (emit (T.bytes b) e')
        where
          pull :
              (m : Option Encoder)
              → (m >>= returned {A = B} b >>= λ s. some ((a, s.0), s.1))
                ≡ (m >>= returned {A = A × B} (a, b))
          pull none = refl
          pull (some o) = refl

      go :
          (m : Option (Sink × Option Error))
          → IsHealthyResult m
          → (m >>= (λ r. some (put_in r e)) >>= returned {A = A} a >>= λ r.
              q b r.1 >>= λ s. some ((r.0, s.0), s.1))
            ≡ ((m >>= (λ r. some (put_in r e)))
                >>= emit (T.bytes b)
                >>= returned {A = A × B} (a, b))
      go none h = refl
      go (some r) h = second (put_in r e) h

  then-decodes :
      (a old : A) (b old' : B) (d : Decoder) (rest : List ℕ)
      → S.IsValid a
      → T.IsValid b
      → S.IsReady old
      → T.IsReady old'
      → d.err ≡ none
      → d.input ≡ (S.bytes a ++ T.bytes b) ++ rest
      → (buf : List ℕ) × (then_define p q (old, old') (decoding d)
          ≡ some ((a, b), decoding (moved (S.size + T.size) rest buf d)))
  then-decodes a old b old' d rest va vb ra rb sound front =
      let (c, run) =
        P.decodes a old d (T.bytes b ++ rest) va ra sound
          (front ∙ append_assoc (S.bytes a) (T.bytes b) rest) in
      let (c', run') =
        Q.decodes b old' (moved S.size (T.bytes b ++ rest) c d) rest vb rb refl refl in
      (
        c',
        ap (λ m. m >>= λ r. q old' r.1 >>= λ s. some ((r.0, s.0), s.1)) run
            ∙ ap (λ m. m >>= λ s. some ((a, s.0), s.1)) run'
            ∙ ap (λ x. some ((a, b), decoding x))
                (moved_twice S.size T.size (T.bytes b ++ rest) rest c c' d),
      )

  pub then_define-Symmetric : Symmetric (then_shape S T) (then_define p q)
  then_define-Symmetric = record {
    length-bytes = λ v valid. omega (
      arith,
      length-append (S.bytes v.0) (T.bytes v.1),
      P.length-bytes v.0 valid.0,
      Q.length-bytes v.1 valid.1,
    );
    encodes = λ v e healthy. then-encodes v.0 v.1 e healthy;
    decodes = λ v old d rest valid ready sound front.
        then-decodes v.0 old.0 v.1 old.1 d rest valid.0 valid.1 ready.0 ready.1 sound front;
  }

-- The fields of a record, under the same method.
abbrev pub along : {A B : Type 0} → (B → A) → Shape A → Shape B
along g S = record {
  size = S.size;
  bytes = λ b. S.bytes (g b);
  IsValid = λ b. S.IsValid (g b);
  IsReady = λ b. S.IsReady (g b);
}

module _ {A B : Type 0} (f : A → B) (g : B → A) (f-g : (b : B) → f (g b) ≡ b) (S : Shape A)
    (p : A → Codec → Option (A × Codec)) (q : B → Codec → Option (B × Codec))
    (same : (b : B) (c : Codec) → q b c ≡ (p (g b) c >>= λ r. some (f r.0, r.1)))
    (P : Symmetric S p) where
  along-back :
      (b : B) (m : Option Encoder)
      → (m >>= returned {A = A} (g b) >>= λ r. some (f r.0, r.1)) ≡ (m >>= returned {A = B} b)
  along-back b none = refl
  along-back b (some e) = ap (λ v. some (v, encoding e)) (f-g b)

  pub along-Symmetric : Symmetric (along g S) q
  along-Symmetric = record {
    length-bytes = λ b valid. P.length-bytes (g b) valid;
    encodes = λ b e healthy.
        same b (encoding e)
        ∙ ap (λ m. m >>= λ r. some (f r.0, r.1)) (P.encodes (g b) e healthy)
        ∙ along-back b (emit (S.bytes (g b)) e);
    decodes = λ b old d rest valid ready sound front.
        let (buf, run) = P.decodes (g b) (g old) d rest valid ready sound front in
        (
          buf,
          same old (decoding d)
              ∙ ap (λ m. m >>= λ r. some (f r.0, r.1)) run
              ∙ ap (λ v. some (v, decoding (moved S.size rest buf d))) (f-g b),
        );
  }

abbrev with_first : {A B : Type 0} → A → B × Codec → Option ((A × B) × Codec)
with_first a s = some ((a, s.0), s.1)

abbrev built : {A C : Type 0} → (A → C) → A × Codec → Option (C × Codec)
built f r = some (f r.0, r.1)

-- Two fields in a row, the way a method is written.
pub then_define-record :
    {A B C : Type 0} (f : A × B → C) (p : A → Codec → Option (A × Codec))
    (q : B → Codec → Option (B × Codec)) (a : A) (b : B) (c : Codec)
    → (p a c >>= λ r. q b r.1 >>= λ s. built f ((r.0, s.0), s.1))
      ≡ (then_define p q (a, b) c >>= built f)
then_define-record {A = A} {B = B} {C = C} f p q a b c = first (p a c)
  where
    second :
        (v : A) (m : Option (B × Codec))
        → (m >>= λ s. built f ((v, s.0), s.1)) ≡ (m >>= with_first v >>= built f)
    second v none = refl
    second v (some s) = refl

    first :
        (m : Option (A × Codec))
        → (m >>= λ r. q b r.1 >>= λ s. built f ((r.0, s.0), s.1))
          ≡ (m >>= (λ r. q b r.1 >>= with_first r.0) >>= built f)
    first none = refl
    first (some r) = second r.0 (q b r.1)
