-- ===== src/Errors.antt =====
-- errors.go, and the errors that package io gives the codec.
use ssz.Base.{ℕ}

pub data Error : Type 0 where
  buffer_too_small first_offset_mismatch bad_offset_progression offset_beyond_capacity : Error
  max_length_exceeded max_items_exceeded short_counter_offset zero_counter_offset : Error
  bad_counter_offset dynamic_statics_indivisible object_slot_size_mismatch : Error
  invalid_boolean junk_in_bitvector junk_in_bitlist : Error
  eof unexpected_eof : Error
  -- What else a reader or writer may answer.
  io_failure : ℕ → Error
