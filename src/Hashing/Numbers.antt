-- ===== src/Hashing/Numbers.antt =====
-- hasher.go: the roots of lists of uint64s, which are packed four to a chunk.
use ssz.Base.{
  ℕ, suc, ◌+◌, ◌*◌, ◌^◌, ◌≤◌, ◌<◌, ◌≡◌, ◌≢◌, ◌⊎◌, inl, inr, refl, sym, ap, ap₂, ◌∙◌, List, [], ◌∷◌,
  ◌++◌, append_assoc, append-nil, length, length-append, take, take-append, drop-append, arith,
  some,
}
use native.Mathlib.Nat.{mod-eq_of_lt}
use ssz.Base.Words.{put_uint, length-put_uint}
use ssz.Format.{number_bytes, length-number_bytes}
use ssz.Hasher.{Chunk, Sha, Hasher, zero_chunk, pad_chunk, insert_chunk, insert_chunks}
use ssz.Hasher.Ascend.{IsRoot, max_chunks}
use ssz.Hasher.Merkle.{IsOpen}
use ssz.Hasher.Mixin.{filled, ascend_mixin-merkleizes}
use ssz.Hashing.{insert_uint64s, hash_slice_of_uint64s}
use ssz.Hashing.Pack.{pack, packed, chunk_count, length-pack}

abbrev four : ℕ → ℕ → ℕ → ℕ → List ℕ
four a b c d = put_uint 8 a ++ (put_uint 8 b ++ (put_uint 8 c ++ put_uint 8 d))

length-four : (a b c d : ℕ) → length (four a b c d) ≡ 32
length-four a b c d = omega (
  arith,
  length-append (put_uint 8 a) (put_uint 8 b ++ (put_uint 8 c ++ put_uint 8 d)),
  length-append (put_uint 8 b) (put_uint 8 c ++ put_uint 8 d),
  length-append (put_uint 8 c) (put_uint 8 d),
  length-put_uint 8 a,
  length-put_uint 8 b,
  length-put_uint 8 c,
  length-put_uint 8 d,
)

four-append :
    (a b c d : ℕ) (rest : List ℕ)
    → put_uint 8 a ++ (put_uint 8 b ++ (put_uint 8 c ++ (put_uint 8 d ++ rest)))
      ≡ four a b c d ++ rest
four-append a b c d rest = sym (
    append_assoc (put_uint 8 a) (put_uint 8 b ++ (put_uint 8 c ++ put_uint 8 d)) rest
    ∙ ap (λ r. put_uint 8 a ++ r)
        (append_assoc (put_uint 8 b) (put_uint 8 c ++ put_uint 8 d) rest
          ∙ ap (λ r. put_uint 8 b ++ r) (append_assoc (put_uint 8 c) (put_uint 8 d) rest)))

pad_chunk-append : (w rest : List ℕ) → length w ≡ 32 → pad_chunk (w ++ rest) ≡ pad_chunk w
unfolding pad_chunk
pad_chunk-append w rest size =
    ap (take 32) (append_assoc w rest zero_chunk)
    ∙ take-append 32 w (rest ++ zero_chunk) size
    ∙ sym (take-append 32 w zero_chunk size)

packed-four :
    (a b c d : ℕ) (ns : List ℕ)
    → packed (number_bytes (a ∷ b ∷ c ∷ d ∷ ns))
      ≡ pad_chunk (four a b c d) ∷ packed (number_bytes ns)
unfolding pack
packed-four a b c d ns =
    let rest = number_bytes ns in
    let count : chunk_count (length (four a b c d ++ rest)) ≡ suc (chunk_count (length rest)) =
      omega (arith, length-append (four a b c d) rest, length-four a b c d) in
    ap packed (four-append a b c d rest)
    ∙ ap (λ k. pack k (four a b c d ++ rest)) count
    ∙ ap₂ (λ x xs. x ∷ pack (chunk_count (length rest)) xs)
        (pad_chunk-append (four a b c d) rest (length-four a b c d))
        (drop-append 32 (four a b c d) rest (length-four a b c d))

packed_one : (w v : List ℕ) → w ≡ v → 1 ≤ length v → length v ≤ 32 → packed w ≡ pad_chunk v ∷ []
unfolding pack
packed_one w v e some_bytes few =
    let one : chunk_count (length v) ≡ 1 = omega arith in ap packed e ∙ ap (λ k. pack k v) one

module _ (sha : Sha) where
  insert_one :
      (w v : List ℕ) (h : Hasher)
      → w ≡ v
      → 1 ≤ length v
      → length v ≤ 32
      → insert_chunk sha (pad_chunk v) 0 h ≡ insert_chunks sha (packed w) h
  unfolding insert_chunks
  insert_one w v h e some_bytes few =
      ap (λ cs. insert_chunks sha cs h) (sym (packed_one w v e some_bytes few))

  pub insert_uint64s-packed :
      (ns : List ℕ) (h : Hasher)
      → insert_uint64s sha ns h ≡ insert_chunks sha (packed (number_bytes ns)) h
  unfolding insert_uint64s insert_chunks pack
  insert_uint64s-packed [] h = refl
  insert_uint64s-packed (a ∷ []) h =
      insert_one (put_uint 8 a ++ []) (put_uint 8 a) h (append-nil (put_uint 8 a))
        (omega (arith, length-put_uint 8 a)) (omega (arith, length-put_uint 8 a))
  insert_uint64s-packed (a ∷ b ∷ []) h =
      insert_one (number_bytes (a ∷ b ∷ [])) (put_uint 8 a ++ put_uint 8 b) h
        (ap (λ r. put_uint 8 a ++ r) (append-nil (put_uint 8 b)))
        (omega (arith, length-append (put_uint 8 a) (put_uint 8 b), length-put_uint 8 a))
        (omega (
          arith,
          length-append (put_uint 8 a) (put_uint 8 b),
          length-put_uint 8 a,
          length-put_uint 8 b,
        ))
  insert_uint64s-packed (a ∷ b ∷ c ∷ []) h =
      let size = length-append (put_uint 8 a) (put_uint 8 b ++ put_uint 8 c) in
      let size' = length-append (put_uint 8 b) (put_uint 8 c) in
      insert_one (number_bytes (a ∷ b ∷ c ∷ [])) (put_uint 8 a ++ (put_uint 8 b ++ put_uint 8 c)) h
        (ap (λ r. put_uint 8 a ++ (put_uint 8 b ++ r)) (append-nil (put_uint 8 c)))
        (omega (arith, size, size', length-put_uint 8 a))
        (omega (arith, size, size', length-put_uint 8 a, length-put_uint 8 b, length-put_uint 8 c))
  insert_uint64s-packed (a ∷ b ∷ c ∷ d ∷ []) h =
      ap (λ cs. insert_chunks sha cs h) (sym (packed-four a b c d []))
  insert_uint64s-packed (a ∷ b ∷ c ∷ d ∷ e ∷ ns) h =
      insert_uint64s-packed (e ∷ ns) (insert_chunk sha (pad_chunk (four a b c d)) 0 h)
      ∙ ap (λ cs. insert_chunks sha cs h) (sym (packed-four a b c d (e ∷ ns)))

  -- A list of uint64s adds the hash of its length and of the root over its bytes, packed into chunks,
  -- at the capacity of `max_items` numbers of 8 bytes. The list is at most
  -- 2^63 bytes, `max_items` * 8 + 31 does not wrap, and no pending group is of a later layer.
  pub hash_slice_of_uint64s-merkleizes :
      (ns : List ℕ) (max_items : ℕ) (h : Hasher)
      → IsOpen h
      → 8 * length ns ≤ max_chunks
      → max_items * 8 + 31 < 2 ^ 64
      → (r : Chunk) × IsRoot sha
          (chunk_count (max_items * 8))
          (filled sha (packed (number_bytes ns)))
          r
        × (hash_slice_of_uint64s sha ns max_items h
            ≡ some (insert_chunk sha (sha.sum256 (r ++ pad_chunk (put_uint 8 (length ns)))) 0 h))
  unfolding hash_slice_of_uint64s
  hash_slice_of_uint64s-merkleizes ns max_items h o few fits =
      rw (insert_uint64s-packed, mod-eq_of_lt fits)
        (ascend_mixin-merkleizes sha (length ns) (chunk_count (max_items * 8))
          (packed (number_bytes ns)) h o (sized ns)
          (omega (
            arith,
            length-pack (chunk_count (length (number_bytes ns))) (number_bytes ns),
            length-number_bytes ns,
          ))
          (omega arith))
    where
      sized :
          (ns : List ℕ)
          → (length ns ≡ 0) × (packed (number_bytes ns) ≡ [])
            ⊎ (length ns ≢ 0) × (1 ≤ length (packed (number_bytes ns)))
      sized [] = inl (refl, unfold pack in refl)
      sized (n ∷ ns) = inr (
        omega arith,
        omega (
          arith,
          length-pack (chunk_count (length (number_bytes (n ∷ ns)))) (number_bytes (n ∷ ns)),
          length-number_bytes (n ∷ ns),
        ),
      )
