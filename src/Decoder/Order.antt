-- ===== src/Decoder/Order.antt =====
-- decoder.go: the pending offsets ascend and stay inside the message, so that the sizes made of them
-- tile it.
use ssz.Base.{
  ℕ, suc, ◌+◌, ◌^◌, ◌≤◌, ◌<◌, ◌≡◌, ◌⊎◌, inl, inr, refl, sym, ap, ◌∙◌, Bool, true, ◌&&◌, Option,
  none, some, List, [], ◌∷◌, ◌++◌, length, ltb, ◌==◌, le→ltb, lt→ltb, if-both, arith, Bool-cases,
}
use mathlib.Core.Bool.{not, true≢false}
use mathlib.Core.Path.{subst}
use native.Mathlib.Decide.{dec_lt}
use ssz.Errors.{
  Error, unexpected_eof, offset_beyond_capacity, first_offset_mismatch, bad_offset_progression,
}
use ssz.Decoder.{Decoder, fail, has_failed, read_full, read_buf, count_read, advance}
use ssz.Decoder.Offsets.{
  sub32, is_nil, appended, seen, cleared, check_offset, decode_offset, sizes_of, fill_sizes,
  pop_size, retrieve_size,
}
use ssz.Decoder.Slotted.{seen-cleared}

-- The list ascends to `limit`.
abbrev pub Ascends : List ℕ → ℕ → Type 0
Ascends [] limit = Unit
Ascends (o ∷ []) limit = o ≤ limit
Ascends (o ∷ p ∷ os) limit = (o ≤ p) × Ascends (p ∷ os) limit

abbrev pub EndsIn : List ℕ → ℕ → Type 0
EndsIn [] last = Unit
EndsIn (o ∷ []) last = o ≡ last
EndsIn (o ∷ p ∷ os) last = EndsIn (p ∷ os) last

-- The pending offsets ascend, none is beyond the message, and dec.offset is the last of them.
pub record IsOrdered (dec : Decoder) : Type 0 where
  pub ascending : Ascends (seen dec.offsets) dec.msg_length
  pub ending : EndsIn (seen dec.offsets) dec.offset

Ascends-append :
    (l : List ℕ) (last p limit : ℕ)
    → Ascends l limit
    → EndsIn l last
    → last ≤ p
    → p ≤ limit
    → Ascends (l ++ (p ∷ [])) limit
Ascends-append [] last p limit up end h low = low
Ascends-append (o ∷ []) last p limit up end h low = (omega arith, low)
Ascends-append (o ∷ q ∷ os) last p limit (first, up) end h low =
    (first, Ascends-append (q ∷ os) last p limit up end h low)

EndsIn-append : (l : List ℕ) (p : ℕ) → EndsIn (l ++ (p ∷ [])) p
EndsIn-append [] p = refl
EndsIn-append (o ∷ []) p = refl
EndsIn-append (o ∷ q ∷ os) p = EndsIn-append (q ∷ os) p

appended-Ascends :
    (off : Option (List ℕ)) (last p limit : ℕ)
    → Ascends (seen off) limit
    → EndsIn (seen off) last
    → p ≤ limit
    → (is_nil off ≡ true) ⊎ (last ≤ p)
    → Ascends (appended off p) limit × EndsIn (appended off p) p
unfolding seen
appended-Ascends none last p limit up end low h = (low, refl)
appended-Ascends (some l) last p limit up end low (inl e) = absurd (true≢false (sym e))
appended-Ascends (some l) last p limit up end low (inr h) =
    (Ascends-append l last p limit up end h low, EndsIn-append l p)

append_offset-IsOrdered :
    (dec : Decoder) (p : ℕ)
    → IsOrdered dec
    → p ≤ dec.msg_length
    → (is_nil dec.offsets ≡ true) ⊎ (dec.offset ≤ p)
    → IsOrdered (record dec { offset = p; offsets = some (appended dec.offsets p) })
append_offset-IsOrdered dec p h low up =
    let both =
      appended-Ascends dec.offsets dec.offset p dec.msg_length h.ascending h.ending low up in
    record { ascending = unfold seen in both.0; ending = unfold seen in both.1 }

fail-IsOrdered : (e : Error) (dec : Decoder) → IsOrdered dec → IsOrdered (fail e dec)
fail-IsOrdered e dec h = record { ascending = h.ascending; ending = h.ending }

check_offset-IsOrdered :
    (list : Bool) (p : ℕ) (dec : Decoder) → IsOrdered dec → IsOrdered (check_offset list p dec)
unfolding check_offset
check_offset-IsOrdered list p dec h = elim (dec_lt dec.msg_length p) [
  | yes beyond ↦ rw (lt→ltb dec.msg_length p beyond) (fail-IsOrdered offset_beyond_capacity dec h)
  | no inside ↦
      rw (le→ltb dec.msg_length p (omega arith))
        (elim (Bool-cases (is_nil dec.offsets && (not list && not (dec.offset == p)))) [
          | inl e ↦ rw e (fail-IsOrdered first_offset_mismatch dec h)
          | inr e ↦ rw e (elim (Bool-cases (is_nil dec.offsets)) [
            | inl nil ↦ rw nil (append_offset-IsOrdered dec p h (omega arith) (inl nil))
            | inr old ↦ rw old (elim (dec_lt p dec.offset) [
              | yes down ↦
                  rw (lt→ltb p dec.offset down) (fail-IsOrdered bad_offset_progression dec h)
              | no up ↦
                  rw (le→ltb p dec.offset (omega arith))
                    (append_offset-IsOrdered dec p h (omega arith) (inr (omega arith)))
            ])
          ])
        ])
]

read_buf-IsOrdered : (k : ℕ) (dec : Decoder) → IsOrdered dec → IsOrdered (read_buf k dec)
unfolding read_buf read_full
read_buf-IsOrdered k dec h = record { ascending = h.ascending; ending = h.ending }

count_read-IsOrdered : (k : ℕ) (dec : Decoder) → IsOrdered dec → IsOrdered (count_read k dec)
count_read-IsOrdered k dec h = record { ascending = h.ascending; ending = h.ending }

advance-IsOrdered : (k : ℕ) (dec : Decoder) → IsOrdered dec → IsOrdered (advance k dec)
advance-IsOrdered k dec h = record { ascending = h.ascending; ending = h.ending }

-- Whatever the bytes are, and on a stream and on a buffer, decodeOffset keeps the pending offsets
-- ascending, inside the message, and ending with dec.offset, if they were so before.
pub decode_offset-IsOrdered :
    (list : Bool) (dec : Decoder) → IsOrdered dec → IsOrdered (decode_offset list dec)
unfolding decode_offset
decode_offset-IsOrdered list dec h = if-both IsOrdered (has_failed dec.err) h (
    if-both IsOrdered dec.streaming
      (if-both IsOrdered (has_failed (read_buf 4 dec).err) read
        (check_offset-IsOrdered list _ _ (count_read-IsOrdered 4 (read_buf 4 dec) read)))
      (if-both IsOrdered (ltb (length dec.input) 4) (fail-IsOrdered unexpected_eof dec h)
        (check_offset-IsOrdered list _ _ (advance-IsOrdered 4 dec h))))
  where
    read : IsOrdered (read_buf 4 dec)
    read = read_buf-IsOrdered 4 dec h

abbrev pub sum : List ℕ → ℕ
sum [] = 0
sum (n ∷ ns) = n + sum ns

Ascends-limit : (os : List ℕ) (o limit : ℕ) → Ascends (o ∷ os) limit → o ≤ limit
Ascends-limit [] o limit up = up
Ascends-limit (p ∷ os) o limit (first, up) = let rest = Ascends-limit os p limit up in omega arith

sizes_of-sum :
    (os : List ℕ) (o total : ℕ)
    → Ascends (o ∷ os) total
    → total < 2 ^ 32
    → (s : ℕ) × (ss : List ℕ) × (sizes_of (o ∷ os) total ≡ s ∷ ss)
      × (o + (s + sum ss) ≡ total)
      × (length ss ≡ length os)
unfolding sizes_of
sizes_of-sum [] o total up small = (sub32 total o, [], refl, omega arith, refl)
sizes_of-sum (p ∷ os) o total (first, up) small =
    let (s, ss, e, whole, count) = sizes_of-sum os p total up small in
    let top = Ascends-limit os p total up in
    (sub32 p o, s ∷ ss, ap (λ r. sub32 p o ∷ r) e, omega arith, ap suc count)

-- The sizes reach from each offset to the next one, and from the last one to the end.
unfoldable pub Tiles : List ℕ → List ℕ → ℕ → Type 0
Tiles [] [] total = Unit
Tiles [] (s ∷ ss) total = ⊥
Tiles (o ∷ os) [] total = ⊥
Tiles (o ∷ []) (s ∷ ss) total = (ss ≡ []) × (o + s ≡ total)
Tiles (o ∷ p ∷ os) (s ∷ ss) total = (o + s ≡ p) × Tiles (p ∷ os) ss total

sizes_of-Tiles :
    (os : List ℕ) (o total : ℕ)
    → Ascends (o ∷ os) total
    → total < 2 ^ 32
    → Tiles (o ∷ os) (sizes_of (o ∷ os) total) total
unfolding sizes_of Tiles
sizes_of-Tiles [] o total up small = (refl, omega arith)
sizes_of-Tiles (p ∷ os) o total (first, up) small =
    let top = Ascends-limit os p total up in (omega arith, sizes_of-Tiles os p total up small)

-- With a first pending offset `o` and others behind it, and no size computed yet, retrieveSize on
-- ordered offsets of a message shorter than 2^32 computes a size for each offset without wrapping,
-- from it to the next offset, and for the last one to the end of the message: it returns the first
-- size and keeps the others. So they are as many as the offsets and fill the message behind `o`
-- exactly; it forgets the offsets.
pub retrieve_size-sum :
    (dec : Decoder) (o : ℕ) (os : List ℕ)
    → IsOrdered dec
    → dec.sizes ≡ []
    → seen dec.offsets ≡ o ∷ os
    → dec.msg_length < 2 ^ 32
    → (size : ℕ) × (d : Decoder) × (retrieve_size dec ≡ some (size, d))
      × Tiles (o ∷ os) (size ∷ d.sizes) dec.msg_length
      × (o + (size + sum d.sizes) ≡ dec.msg_length)
      × (suc (length d.sizes) ≡ length (o ∷ os))
      × (seen d.offsets ≡ [])
unfolding retrieve_size fill_sizes pop_size
retrieve_size-sum dec o os h fresh pending small =
    let up : Ascends (o ∷ os) dec.msg_length =
      subst (λ l. Ascends l dec.msg_length) pending h.ascending in
    let (s, ss, e, whole, count) = sizes_of-sum os o dec.msg_length up small in
    let all = ap (λ l. sizes_of l dec.msg_length) pending ∙ e in
    (
      s,
      record dec { sizes = ss; offsets = cleared dec.offsets },
      ap (λ l. pop_size (fill_sizes dec l) (fill_sizes dec l).sizes) fresh
          ∙ ap (λ l. pop_size (record dec { sizes = l; offsets = cleared dec.offsets }) l) all,
      subst (λ l. Tiles (o ∷ os) l dec.msg_length) e (sizes_of-Tiles os o dec.msg_length up small),
      whole,
      ap suc count,
      seen-cleared dec.offsets,
    )
