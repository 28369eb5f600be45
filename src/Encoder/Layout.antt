-- ===== src/Encoder/Layout.antt =====
-- What encoder.go writes into a buffer for a list of dynamic blobs, and that it is as long as sized.
use ssz.Base.{
  ℕ, ◌+◌, ◌*◌, ◌%◌, ◌^◌, ◌≤◌, ◌<◌, ◌≡◌, refl, sym, ap, ap₂, some, List, [], ◌∷◌, ◌++◌, append-nil,
  append_assoc, length, length-drop, drop, le→leb, arith,
}
use native.Mathlib.Nat.{mod-eq_of_lt}
use ssz.Base.Words.{put_uint, length-put_uint}
use ssz.Format.{total_length, joined, starts, table, encoding, encoded_length}
use ssz.Encoder.{
  buffer, Encoder, emit_to, emit, is_halted, put_offset, put_offset_by, offset_dynamics,
}
use ssz.Encoder.Dynamic.{write_offsets, write_blobs, encode_slice_of_dynamic_bytes_content}
use ssz.Encoder.Emit.{drop-add}

-- An encoder into a buffer, by what varies.
abbrev pub into : Encoder → List ℕ → List ℕ → ℕ → Encoder
into e filled rest offset = record e { sink = buffer filled rest; offset = offset }

module _ (e : Encoder) where
  emit-into :
      (bs filled rest : List ℕ) (o : ℕ)
      → length bs ≤ length rest
      → emit bs (into e filled rest o) ≡ some (into e (filled ++ bs) (drop (length bs) rest) o)
  unfolding emit emit_to
  emit-into bs filled rest o h = rw (le→leb (length bs) (length rest) h)

  put_offset-into :
      (size o : ℕ) (filled rest : List ℕ)
      → 4 ≤ length rest
      → o + size < 2 ^ 32
      → put_offset size (into e filled rest o)
        ≡ some (into e (filled ++ put_uint 4 o) (drop 4 rest) (o + size))
  unfolding put_offset_by is_halted
  put_offset-into size o filled rest h small = rw (
    emit-into (put_uint 4 o) filled rest o (omega (arith, length-put_uint 4 o)),
    length-put_uint 4 o,
    mod-eq_of_lt small,
  )

  write_offsets-into :
      (blobs : List (List ℕ)) (filled rest : List ℕ) (o : ℕ)
      → 4 * length blobs ≤ length rest
      → o + total_length blobs < 2 ^ 32
      → write_offsets blobs (into e filled rest o)
        ≡ some (
            into e
              (filled ++ table (starts o blobs))
              (drop (4 * length blobs) rest)
              (o + total_length blobs))
  unfolding write_offsets
  write_offsets-into [] filled rest o room small =
      let same : o ≡ o + 0 = omega arith in
      ap₂ (λ f p. some (into e f rest p)) (sym (append-nil filled)) same
  write_offsets-into (b ∷ bs) filled rest o room small =
      let size : length b % 2 ^ 32 ≡ length b = mod-eq_of_lt (omega arith) in
      let rest_size : o + length b + total_length bs ≡ o + total_length (b ∷ bs) = omega arith in
      rw
        (
          size,
          put_offset-into (length b) o filled rest (omega arith) (omega arith),
          write_offsets-into bs (filled ++ put_uint 4 o) (drop 4 rest) (o + length b)
              (omega (arith, length-drop 4 rest)) (omega arith),
          rest_size,
        )
        (ap₂ (λ f r. some (into e f r (o + total_length (b ∷ bs))))
          (append_assoc filled (put_uint 4 o) (table (starts (o + length b) bs)))
          (sym (drop-add 4 (4 * length bs) (4 * length (b ∷ bs)) rest (omega arith))))

  write_blobs-into :
      (blobs : List (List ℕ)) (filled rest : List ℕ) (o : ℕ)
      → total_length blobs ≤ length rest
      → write_blobs blobs (into e filled rest o)
        ≡ some (into e (filled ++ joined blobs) (drop (total_length blobs) rest) o)
  unfolding write_blobs
  write_blobs-into [] filled rest o room =
      ap (λ f. some (into e f rest o)) (sym (append-nil filled))
  write_blobs-into (b ∷ bs) filled rest o room =
      rw
        (
          emit-into b filled rest o (omega arith),
          write_blobs-into bs (filled ++ b) (drop (length b) rest) o
              (omega (arith, length-drop (length b) rest)),
        )
        (ap₂ (λ f r. some (into e f r o)) (append_assoc filled b (joined bs))
          (sym (drop-add (length b) (total_length bs) (total_length (b ∷ bs)) rest (omega arith))))

  -- Into a buffer with room for it EncodeSliceOfDynamicBytesContent writes the table of offsets and
  -- then the blobs, for a list whose encoding is shorter than 2^32 bytes.
  pub encode_slice_of_dynamic_bytes_content-into :
      (blobs : List (List ℕ)) (filled rest : List ℕ) (o : ℕ)
      → encoded_length blobs ≤ length rest
      → encoded_length blobs < 2 ^ 32
      → encode_slice_of_dynamic_bytes_content blobs (into e filled rest o)
        ≡ some (
            into e
              (filled ++ encoding blobs)
              (drop (encoded_length blobs) rest)
              (encoded_length blobs))
  unfolding encode_slice_of_dynamic_bytes_content offset_dynamics
  encode_slice_of_dynamic_bytes_content-into blobs filled rest o room small =
      let n = length blobs in
      let start : 4 * n % 2 ^ 32 ≡ 4 * n = mod-eq_of_lt (omega arith) in
      rw
        (
          start,
          write_offsets-into blobs filled rest (4 * n) (omega arith) small,
          write_blobs-into blobs (filled ++ table (starts (4 * n) blobs)) (drop (4 * n) rest)
              (encoded_length blobs) (omega (arith, length-drop (4 * n) rest)),
        )
        (ap₂ (λ f r. some (into e f r (encoded_length blobs)))
          (append_assoc filled (table (starts (4 * n) blobs)) (joined blobs))
          (sym (drop-add (4 * n) (total_length blobs) (encoded_length blobs) rest refl)))
