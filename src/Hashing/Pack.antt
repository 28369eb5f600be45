-- ===== src/Hashing/Pack.antt =====
-- The blobs of hasher.go as chunks: 32 bytes each, the last one padded with zeros.
use ssz.Base.{
  ℕ, zero, suc, ◌+◌, ◌-◌, ◌*◌, ◌/◌, ◌≤◌, ◌<◌, ◌≡◌, refl, sym, ap, ap₂, ◌∙◌, List, [], ◌∷◌, ◌++◌,
  length, take, drop, replicate, length-drop, le→leb, lt→leb, lt→ltb, le→ltb, arith,
}
use native.Mathlib.Decide.{dec_le, dec_lt}
use ssz.Base.Words.{zeros}
use ssz.Hasher.{Chunk, Sha, Hasher, zero_chunk, pad_chunk, insert_chunk, insert_chunks}
use ssz.Hashing.{insert_blob_loop, insert_blob_chunks, insert_empty_loop, insert_blob_chunks_empty}

unfoldable pub pack : ℕ → List ℕ → List Chunk
pack zero blob = []
pack (suc n) blob = pad_chunk blob ∷ pack n (drop 32 blob)

abbrev pub chunk_count : ℕ → ℕ
chunk_count size = (size + 31) / 32

abbrev pub packed : List ℕ → List Chunk
packed blob = pack (chunk_count (length blob)) blob

pub length-pack : (n : ℕ) (blob : List ℕ) → length (pack n blob) ≡ n
unfolding pack
length-pack zero blob = refl
length-pack (suc n) blob = ap suc (length-pack n (drop 32 blob))

take-append_long : (n : ℕ) (xs ys : List ℕ) → n ≤ length xs → take n (xs ++ ys) ≡ take n xs
take-append_long zero xs ys h = refl
take-append_long (suc n) [] ys h = absurd (omega arith)
take-append_long (suc n) (x ∷ xs) ys h = ap (λ r. x ∷ r) (take-append_long n xs ys (omega arith))

pad_chunk-full : (blob : List ℕ) → 32 ≤ length blob → pad_chunk blob ≡ take 32 blob
unfolding pad_chunk
pad_chunk-full blob h = take-append_long 32 blob zero_chunk h

-- A count that is not 0, and one chunk less.
pack_cons :
    (n : ℕ) (blob : List ℕ) → 1 ≤ n → pack n blob ≡ pad_chunk blob ∷ pack (n - 1) (drop 32 blob)
unfolding pack
pack_cons zero blob h = absurd (omega arith)
pack_cons (suc n) blob h = ap (λ k. pad_chunk blob ∷ pack k (drop 32 blob)) (omega arith)

module _ (sha : Sha) where
  insert_blob_loop-pack :
      (fuel : ℕ) (blob : List ℕ) (h : Hasher)
      → length blob < 32 * fuel
      → insert_blob_loop sha fuel blob h ≡ insert_chunks sha (packed blob) h
  unfolding insert_blob_loop insert_chunks
  insert_blob_loop-pack zero blob h enough = absurd (omega arith)
  insert_blob_loop-pack (suc fuel) blob h enough = elim (dec_le 32 (length blob)) [
    | yes long ↦
        rw (le→leb 32 (length blob) long, pack_cons (chunk_count (length blob)) blob (omega arith))
          (insert_blob_loop-pack fuel (drop 32 blob) (insert_chunk sha (take 32 blob) 0 h)
              (omega (arith, length-drop 32 blob))
            ∙ ap₂ (λ k c. insert_chunks sha (pack k (drop 32 blob)) (insert_chunk sha c 0 h))
                (omega (arith, length-drop 32 blob)) (sym (pad_chunk-full blob long)))
    | no short ↦ elim (dec_lt 0 (length blob)) [
      | yes some_left ↦
          let one : chunk_count (length blob) ≡ 1 = omega arith in
          rw (lt→leb 32 (length blob) (omega arith), lt→ltb 0 (length blob) some_left, one)
            (unfold pack in refl)
      | no done ↦
          let none_left : chunk_count (length blob) ≡ 0 = omega arith in
          rw
            (lt→leb 32 (length blob) (omega arith), le→ltb 0 (length blob) (omega arith), none_left)
            (unfold pack in refl)
    ]
  ]

  -- insertBlobChunks inserts the chunks of the blob, in order, the last one padded with zeros.
  pub insert_blob_chunks-pack :
      (blob : List ℕ) (h : Hasher)
      → insert_blob_chunks sha blob h ≡ insert_chunks sha (packed blob) h
  unfolding insert_blob_chunks
  insert_blob_chunks-pack blob h = insert_blob_loop-pack (length blob / 32 + 1) blob h (omega arith)

  insert_empty_loop-replicate :
      (fuel size : ℕ) (h : Hasher)
      → size ≤ 32 * fuel
      → insert_empty_loop sha fuel size h
        ≡ insert_chunks sha (replicate (chunk_count size) zero_chunk) h
  unfolding insert_empty_loop insert_chunks
  insert_empty_loop-replicate zero size h enough =
      let stop : chunk_count size ≡ 0 = omega arith in rw stop
  insert_empty_loop-replicate (suc fuel) size h enough = elim (dec_lt 0 size) [
    | yes more ↦
        let next : chunk_count size ≡ suc (chunk_count (size - 32)) = omega arith in
        rw (lt→ltb 0 size more, next)
          (insert_empty_loop-replicate fuel (size - 32) (insert_chunk sha zero_chunk 0 h)
            (omega arith))
    | no done ↦
        let stop : chunk_count size ≡ 0 = omega arith in rw (le→ltb 0 size (omega arith), stop)
  ]

  pub insert_blob_chunks_empty-replicate :
      (size : ℕ) (h : Hasher)
      → insert_blob_chunks_empty sha size h
        ≡ insert_chunks sha (replicate (chunk_count size) zero_chunk) h
  unfolding insert_blob_chunks_empty
  insert_blob_chunks_empty-replicate size h =
      insert_empty_loop-replicate (size / 32 + 1) size h (omega arith)

take-replicate : (k n : ℕ) → k ≤ n → take k (zeros n) ≡ zeros k
take-replicate zero n h = refl
take-replicate (suc k) zero h = absurd (omega arith)
take-replicate (suc k) (suc n) h = ap (λ r. 0 ∷ r) (take-replicate k n (omega arith))

pub replicate-append : (n m : ℕ) → zeros n ++ zeros m ≡ zeros (n + m)
replicate-append zero m = let e : m ≡ 0 + m = omega arith in ap zeros e
replicate-append (suc n) m =
    let e : suc (n + m) ≡ suc n + m = omega arith in
    ap (λ r. 0 ∷ r) (replicate-append n m) ∙ ap zeros e

pub pad_chunk-replicate : (n : ℕ) → pad_chunk (zeros n) ≡ zero_chunk
unfolding pad_chunk
pad_chunk-replicate n = rw (replicate-append n 32) (take-replicate 32 (n + 32) (omega arith))

drop-replicate : (k n : ℕ) → drop k (zeros n) ≡ zeros (n - k)
drop-replicate zero n = let e : n ≡ n - 0 = omega arith in ap zeros e
drop-replicate (suc k) zero = let e : 0 ≡ 0 - suc k = omega arith in ap zeros e
drop-replicate (suc k) (suc n) =
    let e : n - k ≡ suc n - suc k = omega arith in drop-replicate k n ∙ ap zeros e

-- Zero bytes pack into zero chunks.
pub pack-replicate : (n size : ℕ) → pack n (zeros size) ≡ replicate n zero_chunk
unfolding pack
pack-replicate zero size = refl
pack-replicate (suc n) size =
    ap₂ (λ c cs. c ∷ cs) (pad_chunk-replicate size)
      (ap (pack n) (drop-replicate 32 size) ∙ pack-replicate n (size - 32))
