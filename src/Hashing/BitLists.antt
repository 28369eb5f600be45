-- ===== src/Hashing/BitLists.antt =====
-- hasher.go: what HashSliceOfBits hashes of a bit list, as the number that its bytes write: the bits,
-- and the length bit above them.
use ssz.Base.{
  ℕ, zero, suc, ◌+◌, ◌-◌, ◌*◌, ◌/◌, ◌%◌, ◌^◌, ◌≤◌, ◌<◌, ◌≡◌, refl, ap, ◌∙◌, List, [], ◌∷◌, ◌++◌,
  length, All, ==_iff, ==_false, arith, some,
}
use native.Mathlib.Nat.{pow-suc, mod-eq-sub-mod, mod-eq_of_lt, mod-le}
use native.Mathlib.Decide.{ℕ_discrete}
use ssz.Base.Words.{IsByte, get_uint, put_uint, bit_length, last_byte}
use ssz.Hasher.{Chunk, Sha, Hasher, pad_chunk, insert_chunk}
use ssz.Hasher.Ascend.{IsRoot, max_chunks}
use ssz.Hasher.Merkle.{IsOpen}
use ssz.Hasher.Mixin.{filled}
use ssz.Hashing.Pack.{packed}
use ssz.Hashing.Bits.{clear_top, put_back, trim_zeros, bits_size, hash_bits, hash_bits-merkleizes}

-- The length of a positive number in bits is one more than the place of its highest one.
bit_length-bounds :
    (fuel n : ℕ)
    → 0 < n
    → n < 2 ^ fuel
    → (k : ℕ) × (bit_length fuel n ≡ suc k) × (2 ^ k ≤ n) × (n < 2 * 2 ^ k)
unfolding bit_length
bit_length-bounds zero n some_ small = absurd (omega arith)
bit_length-bounds (suc fuel) n some_ small = elim (ℕ_discrete (n / 2) 0) [
  | yes one ↦
      (0, rw (==_false n 0 (omega arith), one) (ap suc (no_bits fuel)), omega arith, omega arith)
  | no more ↦
      let (k, e, low, high) =
        bit_length-bounds fuel (n / 2) (omega arith) (omega (arith, pow-suc 2 fuel)) in
      (
        suc k,
        rw (==_false n 0 (omega arith)) (ap suc e),
        omega (arith, pow-suc 2 k),
        omega (arith, pow-suc 2 k),
      )
]
  where
    no_bits : (fuel : ℕ) → bit_length fuel 0 ≡ 0
    no_bits zero = refl
    no_bits (suc f) = refl

-- A byte that is not 0 is its highest one and what is below.
top_bit :
    (b : ℕ)
    → 0 < b
    → b < 256
    → (b ≡ b % 2 ^ (bit_length 8 b - 1) + 2 ^ (bit_length 8 b - 1))
      × (b % 2 ^ (bit_length 8 b - 1) < 2 ^ (bit_length 8 b - 1))
top_bit b some_ byte =
    let (k, e, low, high) = bit_length-bounds 8 b some_ (omega arith) in
    let rest : b % 2 ^ k ≡ b - 2 ^ k = mod-eq-sub-mod low ∙ mod-eq_of_lt (omega arith) in
    let place : bit_length 8 b - 1 ≡ k = omega (arith, e) in
    rw place (omega (arith, rest), omega (arith, rest))

bits_size-single : (b : ℕ) → 0 < b → bits_size (b ∷ []) ≡ bit_length 8 b - 1
unfolding bits_size last_byte
bits_size-single b some_ = rw (==_false b 0 (omega arith)) (omega arith)

abbrev eight_more : ℕ → ℕ
eight_more n = suc (suc (suc (suc (suc (suc (suc (suc n)))))))

bits_size-cons : (b c : ℕ) (bs : List ℕ) → bits_size (b ∷ c ∷ bs) ≡ eight_more (bits_size (c ∷ bs))
unfolding bits_size last_byte
bits_size-cons b c bs = omega arith

pow-eight : (n : ℕ) → 2 ^ eight_more n ≡ 256 * 2 ^ n
pow-eight n = omega (
  arith,
  pow-suc 2 n,
  pow-suc 2 (suc n),
  pow-suc 2 (suc (suc n)),
  pow-suc 2 (suc (suc (suc n))),
  pow-suc 2 (suc (suc (suc (suc n)))),
  pow-suc 2 (suc (suc (suc (suc (suc n))))),
  pow-suc 2 (suc (suc (suc (suc (suc (suc n)))))),
  pow-suc 2 (suc (suc (suc (suc (suc (suc (suc n))))))),
)

-- The bits without the length bit, which counts them.
clear_top-get_uint :
    (b : ℕ) (bs : List ℕ)
    → All IsByte (b ∷ bs)
    → 0 < last_byte (b ∷ bs)
    → (get_uint (b ∷ bs) ≡ get_uint (clear_top (b ∷ bs)) + 2 ^ bits_size (b ∷ bs))
      × (get_uint (clear_top (b ∷ bs)) < 2 ^ bits_size (b ∷ bs))
unfolding get_uint clear_top last_byte
clear_top-get_uint b [] (byte, bytes) some_ =
    let (split, low) = top_bit b some_ byte in
    rw (bits_size-single b some_) (omega (arith, split), omega (arith, low))
clear_top-get_uint b (c ∷ bs) (byte, bytes) some_ =
    let (split, low) = clear_top-get_uint c bs bytes some_ in
    rw (bits_size-cons b c bs, pow-eight (bits_size (c ∷ bs)))
      (omega (arith, split, low), omega (arith, split, low))

clear_top-IsByte : (bs : List ℕ) → All IsByte bs → All IsByte (clear_top bs)
unfolding clear_top
clear_top-IsByte [] bytes = tt
clear_top-IsByte (b ∷ []) (byte, bytes) = (omega (arith, mod-le b (2 ^ (bit_length 8 b - 1))), tt)
clear_top-IsByte (b ∷ c ∷ bs) (byte, bytes) = (byte, clear_top-IsByte (c ∷ bs) bytes)

-- No byte at the end is 0.
unfoldable pub IsTrimmed : List ℕ → Type 0
IsTrimmed [] = Unit
IsTrimmed (b ∷ bs) = 0 < last_byte (b ∷ bs)

abbrev Trims : List ℕ → List ℕ → Type 0
Trims bs ts = (get_uint ts ≡ get_uint bs) × IsTrimmed ts × (All IsByte bs → All IsByte ts)

put_back-Trims : (b : ℕ) (bs ts : List ℕ) → Trims bs ts → Trims (b ∷ bs) (put_back b ts)
unfolding get_uint IsTrimmed last_byte
put_back-Trims b bs [] (same, trimmed, bytes) = elim (ℕ_discrete b 0) [
  | yes e ↦ rw ((==_iff b 0).1 e) (omega (arith, same), tt, (λ all. tt))
  | no some_ ↦
      rw (==_false b 0 some_) (omega (arith, same), omega arith, (λ (byte, all). (byte, tt)))
]
put_back-Trims b bs (t ∷ ts) (same, trimmed, bytes) =
    (omega (arith, same), trimmed, (λ (byte, all). (byte, bytes all)))

trim_zeros-Trims : (bs : List ℕ) → Trims bs (trim_zeros bs)
unfolding trim_zeros IsTrimmed
trim_zeros-Trims [] = (refl, tt, (λ all. tt))
trim_zeros-Trims (b ∷ bs) = put_back-Trims b bs (trim_zeros bs) (trim_zeros-Trims bs)

-- A bit list whose last byte is not 0 is, as a little-endian number, its bits and above them, at the
-- place that their number gives, the length bit. HashSliceOfBits adds the hash of this number of bits
-- and of the root, at the capacity of `max_bits`, over the packed bytes of the bits alone, without
-- zero bytes at the end; no bytes count as a zero chunk. The list is at most 2^63 bytes, `max_bits` +
-- 255 does not wrap, and no pending group is of a later layer.
pub hash_bits-get_uint :
    (sha : Sha) (b : ℕ) (bs : List ℕ) (max_bits : ℕ) (h : Hasher)
    → IsOpen h
    → All IsByte (b ∷ bs)
    → 0 < last_byte (b ∷ bs)
    → length (b ∷ bs) ≤ max_chunks
    → max_bits + 255 < 2 ^ 64
    → (n : ℕ) × (bits : List ℕ) × (r : Chunk) × (get_uint (b ∷ bs) ≡ get_uint bits + 2 ^ n)
      × (get_uint bits < 2 ^ n)
      × All IsByte bits
      × IsTrimmed bits
      × IsRoot sha ((max_bits + 255) / 256) (filled sha (packed bits)) r
      × (hash_bits sha (b ∷ bs) max_bits h
          ≡ some (insert_chunk sha (sha.sum256 (r ++ pad_chunk (put_uint 8 n))) 0 h))
hash_bits-get_uint sha b bs max_bits h o bytes some_ few fits =
    let (r, root, run) = hash_bits-merkleizes sha b bs max_bits h o few fits in
    let (split, low) = clear_top-get_uint b bs bytes some_ in
    let (same, trimmed, kept) = trim_zeros-Trims (clear_top (b ∷ bs)) in
    (
      bits_size (b ∷ bs),
      trim_zeros (clear_top (b ∷ bs)),
      r,
      rw same split,
      rw same low,
      kept (clear_top-IsByte (b ∷ bs) bytes),
      trimmed,
      root,
      run,
    )
