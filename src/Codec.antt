-- ===== src/Codec.antt =====
-- codec.go: one DefineSSZ method for the encoder, the decoder and the hasher. A Define function takes the
-- field's value and returns what it leaves in the field beside the codec; `none` is a panic.
pub mod Numbers
pub mod Arrays
pub mod Lists
pub mod Objects
pub mod Symmetric
use ssz.Base.{ℕ, Bool, Option, none, some, ◌>>=◌}
use ssz.Fork.{Fork, ForkFilter}
use ssz.Decoder.{
  Decoder, decode_bool, decode_bool_pointer_on_fork, decode_uint16, decode_uint16_pointer_on_fork,
  decode_uint32, decode_uint32_pointer_on_fork, decode_uint64, decode_uint64_pointer_on_fork,
  decode_uint8, decode_uint8_pointer_on_fork,
}
use ssz.Encoder.{
  Encoder, encode_bool, encode_bool_pointer_on_fork, encode_uint16, encode_uint16_pointer_on_fork,
  encode_uint32, encode_uint32_pointer_on_fork, encode_uint64, encode_uint64_pointer_on_fork,
  encode_uint8, encode_uint8_pointer_on_fork,
}
use ssz.Hasher.{Hasher, Sha}
use ssz.Hashing.{
  hash_bool, hash_bool_pointer_on_fork, hash_uint16, hash_uint16_pointer_on_fork, hash_uint32,
  hash_uint32_pointer_on_fork, hash_uint64, hash_uint64_pointer_on_fork, hash_uint8,
  hash_uint8_pointer_on_fork,
}

pub record Codec : Type 0 where
  pub fork : Fork
  pub enc : Option Encoder
  pub dec : Option Decoder
  pub has : Option Hasher

unfoldable pub define_encoder : (Encoder → Option Encoder) → Codec → Option Codec
define_encoder impl c = elim c.enc [
  | none ↦ some c
  | some e ↦ impl e >>= λ e'. some (record c { enc = some e' })
]

unfoldable pub define_decoder : (Decoder → Option Decoder) → Codec → Option Codec
define_decoder impl c = elim c.dec [
  | none ↦ some c
  | some d ↦ impl d >>= λ d'. some (record c { dec = some d' })
]

unfoldable pub define_hasher : (Hasher → Option Hasher) → Codec → Option Codec
define_hasher impl c = elim c.has [
  | none ↦ some c
  | some h ↦ impl h >>= λ h'. some (record c { has = some h' })
]

-- The pattern of the Define functions: the encoder if there is one, else the decoder if there is one,
-- else the hasher, whose absence is a nil dereference. `keep` is the field when nothing is stored.
unfoldable pub dispatch {ℓ} :
    {B : Type ℓ}
    → B
    → (Encoder → Option Encoder)
    → (Decoder → Option (B × Decoder))
    → (Hasher → Option Hasher)
    → Codec
    → Option (B × Codec)
dispatch keep encode decode hash c = elim c.enc [
  | some e ↦ encode e >>= λ e'. some (keep, record c { enc = some e' })
  | none ↦ elim c.dec [
    | some d ↦ decode d >>= λ r. some (r.0, record c { dec = some r.1 })
    | none ↦ elim c.has [
      | some h ↦ hash h >>= λ h'. some (keep, record c { has = some h' })
      | none ↦ none
    ]
  ]
]

-- The pattern of the Content functions: there is nothing to hash, which was done at the offset.
unfoldable pub dispatch_content {ℓ} :
    {B : Type ℓ}
    → B
    → (Encoder → Option Encoder)
    → (Decoder → Option (B × Decoder))
    → Codec
    → Option (B × Codec)
dispatch_content keep encode decode c = elim c.enc [
  | some e ↦ encode e >>= λ e'. some (keep, record c { enc = some e' })
  | none ↦ elim c.dec [
    | some d ↦ decode d >>= λ r. some (r.0, record c { dec = some r.1 })
    | none ↦ some (keep, c)
  ]
]

-- The codecs of the pools, around an encoder, a decoder or a hasher.
abbrev pub encoding : Encoder → Codec
encoding e = record { fork = e.fork; enc = some e; dec = none; has = none }

abbrev pub decoding : Decoder → Codec
decoding d = record { fork = d.fork; enc = none; dec = some d; has = none }

abbrev pub hashing : Fork → Hasher → Codec
hashing fork h = record { fork = fork; enc = none; dec = none; has = some h }

module _ (sha : Sha) where
  unfoldable pub define_bool : Bool → Codec → Option (Bool × Codec)
  define_bool v c =
      dispatch v (encode_bool v) (λ d. some (decode_bool v d)) (λ h. some (hash_bool sha v h)) c

  unfoldable pub define_bool_pointer_on_fork :
      Option Bool → ForkFilter → Codec → Option (Option Bool × Codec)
  define_bool_pointer_on_fork v filter c =
      dispatch v (encode_bool_pointer_on_fork v filter)
        (λ d. some (decode_bool_pointer_on_fork v filter d))
        (λ h. some (hash_bool_pointer_on_fork sha c.fork v filter h)) c

  unfoldable pub define_uint8 : ℕ → Codec → Option (ℕ × Codec)
  define_uint8 v c =
      dispatch v (encode_uint8 v) (λ d. some (decode_uint8 v d)) (λ h. some (hash_uint8 sha v h)) c

  unfoldable pub define_uint8_pointer_on_fork :
      Option ℕ → ForkFilter → Codec → Option (Option ℕ × Codec)
  define_uint8_pointer_on_fork v filter c =
      dispatch v (encode_uint8_pointer_on_fork v filter)
        (λ d. some (decode_uint8_pointer_on_fork v filter d))
        (λ h. some (hash_uint8_pointer_on_fork sha c.fork v filter h)) c

  unfoldable pub define_uint16 : ℕ → Codec → Option (ℕ × Codec)
  define_uint16 v c =
      dispatch v (encode_uint16 v) (λ d. some (decode_uint16 v d)) (λ h. some (hash_uint16 sha v h))
        c

  unfoldable pub define_uint16_pointer_on_fork :
      Option ℕ → ForkFilter → Codec → Option (Option ℕ × Codec)
  define_uint16_pointer_on_fork v filter c =
      dispatch v (encode_uint16_pointer_on_fork v filter)
        (λ d. some (decode_uint16_pointer_on_fork v filter d))
        (λ h. some (hash_uint16_pointer_on_fork sha c.fork v filter h)) c

  unfoldable pub define_uint32 : ℕ → Codec → Option (ℕ × Codec)
  define_uint32 v c =
      dispatch v (encode_uint32 v) (λ d. some (decode_uint32 v d)) (λ h. some (hash_uint32 sha v h))
        c

  unfoldable pub define_uint32_pointer_on_fork :
      Option ℕ → ForkFilter → Codec → Option (Option ℕ × Codec)
  define_uint32_pointer_on_fork v filter c =
      dispatch v (encode_uint32_pointer_on_fork v filter)
        (λ d. some (decode_uint32_pointer_on_fork v filter d))
        (λ h. some (hash_uint32_pointer_on_fork sha c.fork v filter h)) c

  unfoldable pub define_uint64 : ℕ → Codec → Option (ℕ × Codec)
  define_uint64 v c =
      dispatch v (encode_uint64 v) (λ d. some (decode_uint64 v d)) (λ h. some (hash_uint64 sha v h))
        c

  unfoldable pub define_uint64_pointer_on_fork :
      Option ℕ → ForkFilter → Codec → Option (Option ℕ × Codec)
  define_uint64_pointer_on_fork v filter c =
      dispatch v (encode_uint64_pointer_on_fork v filter)
        (λ d. some (decode_uint64_pointer_on_fork v filter d))
        (λ h. some (hash_uint64_pointer_on_fork sha c.fork v filter h)) c
