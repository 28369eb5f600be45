-- ===== src/Encoder/Emit.antt =====
-- Writing pieces is writing their concatenation: the law by which each Encode function of encoder.go
-- comes to a single list of bytes.
use ssz.Base.{
  ℕ, zero, suc, ◌+◌, ◌-◌, ◌*◌, ◌/◌, ◌≤◌, ◌<◌, ◌≡◌, refl, sym, ap, ap₂, ◌∙◌, Option, none, some,
  List, [], ◌∷◌, ◌++◌, append-nil, append_assoc, length, length-append, length-drop, take, drop,
  le→leb, lt→leb, lt→ltb, ◌>>=◌, arith,
}
use mathlib.Core.Path.{fun_ext}
use native.Mathlib.Decide.{dec_le, dec_lt}
use ssz.Base.Words.{zeros}
use ssz.Errors.{Error}
use ssz.Encoder.{
  Writer, write, Sink, stream, buffer, Encoder, emit_to, emit, put_in, encode_zeroes_loop,
  encode_zeroes,
}

take-add :
    (n : ℕ) (xs ys : List ℕ) → length xs ≤ n → take n (xs ++ ys) ≡ xs ++ take (n - length xs) ys
take-add n [] ys h = ap (λ k. take k ys) (omega arith)
take-add zero (x ∷ xs) ys h = absurd (omega arith)
take-add (suc n) (x ∷ xs) ys h =
    let e : n - length xs ≡ suc n - suc (length xs) = omega arith in
    ap (λ r. x ∷ r) (take-add n xs ys (omega arith) ∙ ap (λ k. xs ++ take k ys) e)

take-short : (n : ℕ) (xs ys : List ℕ) → n ≤ length xs → take n (xs ++ ys) ≡ take n xs
take-short zero xs ys h = refl
take-short (suc n) [] ys h = absurd (omega arith)
take-short (suc n) (x ∷ xs) ys h = ap (λ r. x ∷ r) (take-short n xs ys (omega arith))

drop_nil : (k : ℕ) → drop {A = ℕ} k [] ≡ []
drop_nil zero = refl
drop_nil (suc k) = refl

pub drop-add : (n m k : ℕ) (xs : List ℕ) → n + m ≡ k → drop k xs ≡ drop m (drop n xs)
drop-add zero m k xs e = ap (λ j. drop j xs) (omega arith)
drop-add (suc n) m k [] e = drop_nil k ∙ sym (drop_nil m)
drop-add (suc n) m zero (x ∷ xs) e = absurd (omega arith)
drop-add (suc n) m (suc k) (x ∷ xs) e = drop-add n m k xs (omega arith)

pub write_fits :
    (bs : List ℕ) (w : Writer)
    → length bs ≤ w.room
    → write bs w ≡ (record w { written = w.written ++ bs; room = w.room - length bs }, none)
unfolding write
write_fits bs w h = rw (le→leb _ _ h)

pub write_short :
    (bs : List ℕ) (w : Writer)
    → w.room < length bs
    → write bs w ≡ (record w { written = w.written ++ take w.room bs; room = 0 }, some w.failure)
unfolding write
write_short bs w h = rw (lt→leb _ _ h)

emit_to-stream :
    (w : Writer) (xs ys : List ℕ)
    → emit_to (stream w) none (xs ++ ys) ≡ (emit_to (stream w) none xs >>= λ r. emit_to r.0 r.1 ys)
unfolding emit_to
emit_to-stream w xs ys = elim (dec_le (length xs) w.room) [
  | yes first ↦ elim (dec_le (length (xs ++ ys)) w.room) [
    | yes both ↦
        rw
          (
            write_fits (xs ++ ys) w both,
            write_fits xs w first,
            write_fits ys (record w { written = w.written ++ xs; room = w.room - length xs })
                (omega (arith, length-append xs ys)),
          )
          (ap₂ (λ t n. some (stream (record w { written = t; room = n }), none))
            (sym (append_assoc w.written xs ys)) (omega (arith, length-append xs ys)))
    | no second ↦
        rw
          (
            write_short (xs ++ ys) w (omega arith),
            write_fits xs w first,
            write_short ys (record w { written = w.written ++ xs; room = w.room - length xs })
                (omega (arith, length-append xs ys)),
            take-add w.room xs ys first,
          )
          (ap (λ t. some (stream (record w { written = t; room = 0 }), some w.failure))
            (sym (append_assoc w.written xs (take (w.room - length xs) ys))))
  ]
  | no none_left ↦ rw (
    write_short (xs ++ ys) w (omega (arith, length-append xs ys)),
    write_short xs w (omega arith),
    take-short w.room xs ys (omega arith),
  )
]

emit_to-buffer :
    (filled rest : List ℕ) (err : Option Error) (xs ys : List ℕ)
    → emit_to (buffer filled rest) err (xs ++ ys)
      ≡ (emit_to (buffer filled rest) err xs >>= λ r. emit_to r.0 r.1 ys)
unfolding emit_to
emit_to-buffer filled rest err xs ys = elim (dec_le (length xs) (length rest)) [
  | yes first ↦ elim (dec_le (length (xs ++ ys)) (length rest)) [
    | yes both ↦
        rw
          (
            le→leb (length (xs ++ ys)) (length rest) both,
            le→leb (length xs) (length rest) first,
            le→leb (length ys) (length (drop (length xs) rest))
                (omega (arith, length-append xs ys, length-drop (length xs) rest)),
          )
          (ap₂ (λ f r. some (buffer f r, err)) (sym (append_assoc filled xs ys))
            (drop-add (length xs) (length ys) (length (xs ++ ys)) rest (sym (length-append xs ys))))
    | no second ↦ rw (
      lt→leb (length (xs ++ ys)) (length rest) (omega arith),
      le→leb (length xs) (length rest) first,
      lt→leb (length ys) (length (drop (length xs) rest))
          (omega (arith, length-append xs ys, length-drop (length xs) rest)),
    )
  ]
  | no none_left ↦ rw (
    lt→leb (length (xs ++ ys)) (length rest) (omega (arith, length-append xs ys)),
    lt→leb (length xs) (length rest) (omega arith),
  )
]

emit_to-append :
    (s : Sink) (err : Option Error) (xs ys : List ℕ)
    → emit_to s err (xs ++ ys) ≡ (emit_to s err xs >>= λ r. emit_to r.0 r.1 ys)
emit_to-append (stream w) (some e) xs ys = unfold emit_to in refl
emit_to-append (stream w) none xs ys = emit_to-stream w xs ys
emit_to-append (buffer filled rest) err xs ys = emit_to-buffer filled rest err xs ys

-- Two writes in a row leave what a single write of both pieces leaves: the same bytes on a stream
-- that fails in between, the same error, and a panic in the same cases.
pub emit-append : (xs ys : List ℕ) (e : Encoder) → emit (xs ++ ys) e ≡ (emit xs e >>= emit ys)
unfolding emit
emit-append xs ys e = rw (emit_to-append e.sink e.err xs ys) (bind_assoc (emit_to e.sink e.err xs))
  where
    bind_assoc :
        (m : Option (Sink × Option Error))
        → ((m >>= λ r. emit_to r.0 r.1 ys) >>= λ r. some (put_in r e))
          ≡ ((m >>= λ r. some (put_in r e)) >>= emit ys)
    bind_assoc none = refl
    bind_assoc (some r) = ground arith

emit_to-nil : (s : Sink) (err : Option Error) → emit_to s err [] ≡ some (s, err)
unfolding emit_to
emit_to-nil (stream w) (some e) = refl
emit_to-nil (stream w) none = rw (write_fits [] w (omega arith)) (
    let same : w.room - 0 ≡ w.room = omega arith in
    ap₂ (λ t n. some (stream (record w { written = t; room = n }), none)) (append-nil w.written)
      same)
emit_to-nil (buffer filled rest) err =
    rw (le→leb 0 (length rest) (omega arith))
      (ap (λ f. some (buffer f rest, err)) (append-nil filled))

pub emit-nil : (e : Encoder) → emit [] e ≡ some e
unfolding emit
emit-nil e = rw (emit_to-nil e.sink e.err)

zeros-split : (size : ℕ) → 32 ≤ size → zeros size ≡ zeros 32 ++ zeros (size - 32)
zeros-split size h = append_zeros 32 (size - 32) size (omega arith)
  where
    append_zeros : (n m k : ℕ) → n + m ≡ k → zeros k ≡ zeros n ++ zeros m
    append_zeros zero m k e = let f : k ≡ m = omega arith in ap zeros f
    append_zeros (suc n) m zero e = absurd (omega arith)
    append_zeros (suc n) m (suc k) e = ap (λ r. 0 ∷ r) (append_zeros n m k (omega arith))

encode_zeroes_loop-emit :
    (fuel size : ℕ) (e : Encoder)
    → size ≤ 32 * fuel
    → encode_zeroes_loop fuel size e ≡ emit (zeros size) e
unfolding encode_zeroes_loop
encode_zeroes_loop-emit zero size e enough =
    let none_left : size ≡ 0 = omega arith in rw none_left (sym (emit-nil e))
encode_zeroes_loop-emit (suc fuel) size e enough = elim (dec_le 32 size) [
  | yes full ↦
      rw (le→leb 32 size full, zeros-split size full, emit-append (zeros 32) (zeros (size - 32)) e)
        (ap (λ k. emit (zeros 32) e >>= k)
          (fun_ext (λ o. encode_zeroes_loop-emit fuel (size - 32) o (omega arith))))
  | no part ↦ elim (dec_lt 0 size) [
    | yes more ↦ rw (lt→leb 32 size (omega arith), lt→ltb 0 size more)
    | no done ↦ let none_left : size ≡ 0 = omega arith in rw none_left (sym (emit-nil e))
  ]
]

-- encodeZeroes writes `size` zero bytes, however it cuts them.
pub encode_zeroes-emit : (size : ℕ) (e : Encoder) → encode_zeroes size e ≡ emit (zeros size) e
unfolding encode_zeroes
encode_zeroes-emit size e = encode_zeroes_loop-emit (size / 32 + 1) size e (omega arith)
