-- ===== src/Decoder/Slotted.antt =====
-- decoder.go: leaving a slot. Whatever was done inside it, the outer state comes back, and a slot that
-- was not consumed exactly is an error.
use ssz.Base.{
  ℕ, ◌+◌, ◌-◌, ◌≡◌, ◌⊎◌, inl, inr, refl, sym, ap, true, false, Option, none, some, List, [], ◌∷◌,
  ◌==◌, ==_iff, ==_false, if◌then◌else◌, Bool-cases,
}
use mathlib.Core.Logic.{◌↔◌}
use mathlib.Core.Path.{subst}
use mathlib.Core.Option.{some-ne-none}
use native.Mathlib.Decide.{ℕ_discrete}
use ssz.Base.Words.{u32}
use ssz.Errors.{Error, object_slot_size_mismatch}
use ssz.Decoder.{Decoder, has_failed}
use ssz.Decoder.Offsets.{
  seen, cleared, buf_ptr, check_slot, flush_dynamics, leave_source, leave_length, ascend_from_slot,
  descend_into_slot, start_dynamics,
}

-- The stack of the source that is read.
abbrev pub SourceStack : Decoder → Decoder → Type 0
SourceStack outer d =
    (d.streaming ≡ true) × (d.in_reads ≡ outer.in_read ∷ outer.in_reads)
    ⊎ (d.streaming ≡ false) × (d.in_buf_ptrs ≡ outer.in_buf_ptr ∷ outer.in_buf_ptrs)

-- `d` is inside a slot of `size` bytes that was entered from `outer`.
pub record IsInside (size : ℕ) (outer d : Decoder) : Type 0 where
  pub bound : d.msg_length ≡ size
  pub above : d.lengths ≡ outer.msg_length ∷ outer.lengths
  pub kept : d.sizess ≡ outer.sizes ∷ outer.sizess
  pub source : SourceStack outer d

pub seen-cleared : (off : Option (List ℕ)) → seen (cleared off) ≡ []
unfolding seen
seen-cleared none = refl
seen-cleared (some l) = refl

-- What was read since the slot was entered, as ascendFromSlot counts it.
abbrev pub consumed : Decoder → ℕ
consumed d = if d.streaming then d.in_read else u32 (buf_ptr d - d.in_buf_ptr)

check_err : ℕ → ℕ → Option Error → Option Error
check_err read size err =
    if read == size then err else (if has_failed err then err else some object_slot_size_mismatch)

check_err_lem :
    (read size : ℕ) (err : Option Error)
    → (check_err read size err ≡ none) ↔ ((err ≡ none) × (read ≡ size))
unfolding check_err
check_err_lem read size none = elim (ℕ_discrete read size) [
  | yes same ↦ rw ((==_iff read size).1 same) ((λ e. (refl, same)), (λ e. refl))
  | no other ↦
      rw (==_false read size other)
        ((λ e. absurd (some-ne-none _ e)), (λ (e, same). absurd (other same)))
]
check_err_lem read size (some err) = elim (ℕ_discrete read size) [
  | yes same ↦ rw ((==_iff read size).1 same) ((λ e. absurd (some-ne-none _ e)), (λ (e, s). e))
  | no other ↦ rw (==_false read size other) ((λ e. absurd (some-ne-none _ e)), (λ (e, s). e))
]

check_slot_lem :
    (read : ℕ) (d : Decoder)
    → check_slot read d ≡ record d { err = check_err read d.msg_length d.err }
unfolding check_slot check_err
check_slot_lem read d = elim (Bool-cases (read == d.msg_length)) [
  | inl same ↦ rw same refl
  | inr other ↦ rw other (elim (Bool-cases (has_failed d.err)) [
    | inl failed ↦ rw failed refl
    | inr sound ↦ rw sound refl
  ])
]

-- The source is read on from where it stands, with the outer count and the outer stack: on a stream
-- what was read inside is added to what was read outside, on a buffer the outer start comes back.
abbrev pub SourceBack : Decoder → Decoder → Decoder → Type 0
SourceBack outer d a =
    (d.streaming ≡ true)
      × (a.in_read ≡ u32 (d.in_read + outer.in_read))
      × (a.in_reads ≡ outer.in_reads)
    ⊎ (d.streaming ≡ false)
      × (a.in_buf_ptr ≡ outer.in_buf_ptr)
      × (a.in_buf_ptrs ≡ outer.in_buf_ptrs)

-- What ascendFromSlot leaves.
abbrev pub Leaves : ℕ → Decoder → Decoder → Option Decoder → Type 0
Leaves size outer d r =
    (a : Decoder) × (r ≡ some a)
    × (a.msg_length ≡ outer.msg_length)
    × (a.lengths ≡ outer.lengths)
    × (a.sizes ≡ outer.sizes)
    × (a.sizess ≡ outer.sizess)
    × (seen a.offsets ≡ [])
    × (a.streaming ≡ d.streaming)
    × (a.input ≡ d.input)
    × SourceBack outer d a
    × ((a.err ≡ none) ↔ ((d.err ≡ none) × (consumed d ≡ size)))

module _ (size : ℕ) (outer d : Decoder) where
  -- Inside the slot, by what varies.
  abbrev streamed : Decoder
  streamed = record d {
    msg_length = size;
    lengths = outer.msg_length ∷ outer.lengths;
    sizess = outer.sizes ∷ outer.sizess;
    streaming = true;
    in_reads = outer.in_read ∷ outer.in_reads;
  }

  abbrev buffered : Decoder
  buffered = record d {
    msg_length = size;
    lengths = outer.msg_length ∷ outer.lengths;
    sizess = outer.sizes ∷ outer.sizess;
    streaming = false;
    in_buf_ptrs = outer.in_buf_ptr ∷ outer.in_buf_ptrs;
  }

  -- Behind flushDynamics.
  abbrev flushed : Decoder → Decoder
  flushed x = record x { offsets = cleared x.offsets; sizes = outer.sizes; sizess = outer.sizess }

  leave-streamed : Leaves size outer streamed (ascend_from_slot streamed)
  unfolding ascend_from_slot flush_dynamics leave_source leave_length
  leave-streamed = (
    _,
    ap
        (λ c.
          leave_length
            (record c { in_read = u32 (d.in_read + outer.in_read); in_reads = outer.in_reads }))
        (check_slot_lem d.in_read (flushed streamed)),
    refl,
    refl,
    refl,
    refl,
    seen-cleared d.offsets,
    refl,
    refl,
    inl (refl, refl, refl),
    check_err_lem d.in_read size d.err,
  )

  leave-buffered : Leaves size outer buffered (ascend_from_slot buffered)
  unfolding ascend_from_slot flush_dynamics leave_source leave_length
  leave-buffered = (
    _,
    ap
        (λ c.
          leave_length
            (record c { in_buf_ptr = outer.in_buf_ptr; in_buf_ptrs = outer.in_buf_ptrs }))
        (check_slot_lem (u32 (buf_ptr d - d.in_buf_ptr)) (flushed buffered)),
    refl,
    refl,
    refl,
    refl,
    seen-cleared d.offsets,
    refl,
    refl,
    inr (refl, refl, refl),
    check_err_lem (u32 (buf_ptr d - d.in_buf_ptr)) size d.err,
  )

-- Whatever was read and decoded inside a slot, if its stacks are as they were on entry then
-- ascendFromSlot does not panic and leaves no pending offsets; it brings the outer message length,
-- sizes and stacks back; the input goes on behind what was read, on a stream with the count of the
-- bytes inside added to the outer count modulo 2^32, on a buffer with the outer start; and it ends
-- without an error exactly if there was none before and as many bytes were consumed as the slot has.
pub ascend_from_slot-Leaves :
    (size : ℕ) (outer d : Decoder)
    → IsInside size outer d
    → Leaves size outer d (ascend_from_slot d)
ascend_from_slot-Leaves size outer d inside = from_source inside.source
  where
    from_source : SourceStack outer d → Leaves size outer d (ascend_from_slot d)
    from_source (inl (streams, stack)) =
        let same : d ≡ streamed size outer d = λ i. record d {
          msg_length = inside.bound i;
          lengths = inside.above i;
          sizess = inside.kept i;
          streaming = streams i;
          in_reads = stack i;
        } in
        subst (λ x. Leaves size outer x (ascend_from_slot x)) (sym same)
          (leave-streamed size outer d)
    from_source (inr (buffers, stack)) =
        let same : d ≡ buffered size outer d = λ i. record d {
          msg_length = inside.bound i;
          lengths = inside.above i;
          sizess = inside.kept i;
          streaming = buffers i;
          in_buf_ptrs = stack i;
        } in
        subst (λ x. Leaves size outer x (ascend_from_slot x)) (sym same)
          (leave-buffered size outer d)

-- Entering a slot.
pub descend_into_slot-IsInside :
    (size : ℕ) (dec : Decoder) → IsInside size dec (descend_into_slot size dec)
unfolding descend_into_slot start_dynamics
descend_into_slot-IsInside size dec = elim (Bool-cases dec.streaming) [
  | inl streams ↦ record {
    bound = rw streams refl;
    above = rw streams refl;
    kept = rw streams refl;
    source = inl (rw streams (refl, refl));
  }
  | inr buffers ↦ record {
    bound = rw buffers refl;
    above = rw buffers refl;
    kept = rw buffers refl;
    source = inr (rw buffers (refl, refl));
  }
]
