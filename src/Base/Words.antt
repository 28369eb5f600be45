-- ===== src/Base/Words.antt =====
-- Unsigned machine words as native numbers, and their little-endian bytes (encoding/binary).
use Prim.Native.Nat.{ℕ, zero, suc, ◌+◌, ◌*◌, ◌/◌, ◌%◌, ◌^◌, ◌<◌}
use mathlib.Core.Path.{◌≡◌, refl, ap}
use mathlib.Core.List.{List, [], ◌∷◌}
use native.Mathlib.Nat.{pow-suc}
use native.Mathlib.Omega.{arith}
use ssz.Base.Tests.{◌==◌, if◌then◌else◌}
use ssz.Base.Lists.{length, replicate, All}

abbrev pub u32 : ℕ → ℕ
u32 n = n % 2 ^ 32

abbrev pub IsByte : ℕ → Type 0
IsByte b = b < 256

abbrev pub zeros : ℕ → List ℕ
zeros n = replicate n 0

-- The `k` low bytes of `n`, lowest first: PutUint16, PutUint32 and PutUint64 are 2, 4 and 8 of them.
unfoldable pub put_uint : ℕ → ℕ → List ℕ
put_uint zero n = []
put_uint (suc k) n = (n % 256) ∷ put_uint k (n / 256)

unfoldable pub get_uint : List ℕ → ℕ
get_uint [] = 0
get_uint (b ∷ bs) = b + 256 * get_uint bs

pub length-put_uint : (k n : ℕ) → length (put_uint k n) ≡ k
unfolding put_uint
length-put_uint zero n = refl
length-put_uint (suc k) n = ap suc (length-put_uint k (n / 256))

pub get_uint-put_uint : (k n : ℕ) → n < 256 ^ k → get_uint (put_uint k n) ≡ n
unfolding put_uint get_uint
get_uint-put_uint zero n h = omega arith
get_uint-put_uint (suc k) n h =
    let small : n < 256 * 256 ^ k = omega (arith, pow-suc 256 k) in
    omega (arith, get_uint-put_uint k (n / 256) (omega arith))

pub put_uint-IsByte : (k n : ℕ) → All IsByte (put_uint k n)
unfolding put_uint
put_uint-IsByte zero n = tt
put_uint-IsByte (suc k) n = (omega arith, put_uint-IsByte k (n / 256))

pub get_uint-lt : (bs : List ℕ) → All IsByte bs → get_uint bs < 256 ^ length bs
unfolding get_uint
get_uint-lt [] h = omega arith
get_uint-lt (b ∷ bs) (hb, hbs) = omega (arith, get_uint-lt bs hbs, pow-suc 256 (length bs))

-- bits.Len8: `fuel` bits are looked at.
unfoldable pub bit_length : ℕ → ℕ → ℕ
bit_length zero n = 0
bit_length (suc fuel) n = let more = bit_length fuel (n / 2) in if n == 0 then 0 else suc more

unfoldable pub last_byte : List ℕ → ℕ
last_byte [] = 0
last_byte (b ∷ []) = b
last_byte (b ∷ c ∷ bs) = last_byte (c ∷ bs)
