-- ===== src/Format.antt =====
-- The SSZ layout of a list of dynamic blobs: a table of little-endian offsets, then the blobs. It is
-- what README.md's encoder and decoder have in common, in plain arithmetic.
use ssz.Base.{ℕ, ◌+◌, ◌*◌, List, [], ◌∷◌, ◌++◌, length, length-append, ◌≡◌, arith}
use ssz.Base.Words.{put_uint, length-put_uint}

abbrev pub total_length : List (List ℕ) → ℕ
total_length [] = 0
total_length (b ∷ bs) = length b + total_length bs

abbrev pub joined : List (List ℕ) → List ℕ
joined [] = []
joined (b ∷ bs) = b ++ joined bs

-- Where each blob starts, if the first one starts at `o`.
abbrev pub starts : ℕ → List (List ℕ) → List ℕ
starts o [] = []
starts o (b ∷ bs) = o ∷ starts (o + length b) bs

abbrev pub table : List ℕ → List ℕ
table [] = []
table (o ∷ os) = put_uint 4 o ++ table os

abbrev pub encoding : List (List ℕ) → List ℕ
encoding blobs = table (starts (4 * length blobs) blobs) ++ joined blobs

abbrev pub encoded_length : List (List ℕ) → ℕ
encoded_length blobs = 4 * length blobs + total_length blobs

pub length-joined : (blobs : List (List ℕ)) → length (joined blobs) ≡ total_length blobs
length-joined [] = omega arith
length-joined (b ∷ bs) = omega (arith, length-append b (joined bs), length-joined bs)

pub length-table :
    (o : ℕ) (blobs : List (List ℕ)) → length (table (starts o blobs)) ≡ 4 * length blobs
length-table o [] = omega arith
length-table o (b ∷ bs) = omega (
  arith,
  length-append (put_uint 4 o) (table (starts (o + length b) bs)),
  length-put_uint 4 o,
  length-table (o + length b) bs,
)

pub length-encoding : (blobs : List (List ℕ)) → length (encoding blobs) ≡ encoded_length blobs
length-encoding blobs = omega (
  arith,
  length-append (table (starts (4 * length blobs) blobs)) (joined blobs),
  length-table (4 * length blobs) blobs,
  length-joined blobs,
)

-- The numbers in little-endian, 8 bytes each.
abbrev pub number_bytes : List ℕ → List ℕ
number_bytes [] = []
number_bytes (n ∷ ns) = put_uint 8 n ++ number_bytes ns

pub length-number_bytes : (ns : List ℕ) → length (number_bytes ns) ≡ 8 * length ns
length-number_bytes [] = omega arith
length-number_bytes (n ∷ ns) = omega (
  arith,
  length-append (put_uint 8 n) (number_bytes ns),
  length-put_uint 8 n,
  length-number_bytes ns,
)
