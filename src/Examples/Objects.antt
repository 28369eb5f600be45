-- ===== src/Examples/Objects.antt =====
-- Two consensus types of tests/testtypes, VoluntaryExit and the SignedVoluntaryExit that points to it,
-- with the DefineSSZ methods that are generated for them.
use ssz.Base.{ℕ, ◌≡◌, refl, Option, none, some, List, [], replicate, drop, ◌>>=◌, arith}
use ssz.Base.Words.{zeros}
use ssz.Encoder.{buffer}
use ssz.Entry.{static_object, encode_to_bytes_on_fork, decode_from_bytes_on_fork}
use ssz.Codec.{Codec, define_uint64}
use ssz.Codec.Arrays.{define_static_bytes}
use ssz.Codec.Objects.{define_static_object, run_by_encoder, run_by_decoder}
use ssz.Codec.Symmetric.{Shape, Symmetric}
use ssz.Codec.Symmetric.Scalars.{
  number_shape, bytes_shape, define_uint64-Symmetric, define_static_bytes-Symmetric,
}
use ssz.Codec.Symmetric.Sequence.{
  then_define, then_shape, then_define-Symmetric, along, along-Symmetric, then_define-record,
}
use ssz.Codec.Symmetric.Objects.{pointer_shape, define_static_object-Symmetric}
use ssz.Codec.Symmetric.Entry.{decode_from_bytes_on_fork-encode_to_bytes_on_fork}
use ssz.Examples.Roots.{checksum_sha}
use ssz.Examples.Codec.{new_encoder, new_decoder}

record VoluntaryExit : Type 0 where
  epoch : ℕ
  validator_index : ℕ

record SignedVoluntaryExit : Type 0 where
  exit : Option VoluntaryExit
  signature : List ℕ

abbrev define_exit : VoluntaryExit → Codec → Option (VoluntaryExit × Codec)
define_exit obj c = define_uint64 checksum_sha obj.epoch c >>= λ r.
    define_uint64 checksum_sha obj.validator_index r.1 >>= λ s.
    some (record { epoch = r.0; validator_index = s.0 }, s.1)

abbrev no_exit : VoluntaryExit
no_exit = record { epoch = 0; validator_index = 0 }

abbrev define_signed : SignedVoluntaryExit → Codec → Option (SignedVoluntaryExit × Codec)
define_signed obj c = define_static_object define_exit checksum_sha no_exit obj.exit c >>= λ r.
    define_static_bytes checksum_sha obj.signature r.1 >>= λ s.
    some (record { exit = r.0; signature = s.0 }, s.1)

abbrev exit_shape : Shape VoluntaryExit
exit_shape =
    along (λ obj. (obj.epoch, obj.validator_index)) (then_shape (number_shape 8) (number_shape 8))

define_exit-Symmetric : Symmetric exit_shape define_exit
define_exit-Symmetric =
    along-Symmetric (λ v. record { epoch = v.0; validator_index = v.1 })
      (λ obj. (obj.epoch, obj.validator_index)) (λ obj. refl)
      (then_shape (number_shape 8) (number_shape 8))
      (then_define (define_uint64 checksum_sha) (define_uint64 checksum_sha)) define_exit
      (λ obj c.
        then_define-record (λ v. record { epoch = v.0; validator_index = v.1 })
          (define_uint64 checksum_sha) (define_uint64 checksum_sha) obj.epoch obj.validator_index c)
      (then_define-Symmetric (define_uint64 checksum_sha) (define_uint64 checksum_sha)
        (number_shape 8) (number_shape 8) (define_uint64-Symmetric checksum_sha)
        (define_uint64-Symmetric checksum_sha))

abbrev fields_shape : Shape (Option VoluntaryExit × List ℕ)
fields_shape = then_shape (pointer_shape no_exit exit_shape) (bytes_shape 96)

abbrev signed_shape : Shape SignedVoluntaryExit
signed_shape = along (λ obj. (obj.exit, obj.signature)) fields_shape

define_signed-Symmetric : Symmetric signed_shape define_signed
define_signed-Symmetric =
    along-Symmetric (λ v. record { exit = v.0; signature = v.1 }) (λ obj. (obj.exit, obj.signature))
      (λ obj. refl) fields_shape
      (then_define (define_static_object define_exit checksum_sha no_exit)
        (define_static_bytes checksum_sha))
      define_signed
      (λ obj c.
        then_define-record (λ v. record { exit = v.0; signature = v.1 })
          (define_static_object define_exit checksum_sha no_exit) (define_static_bytes checksum_sha)
          obj.exit obj.signature c)
      (then_define-Symmetric (define_static_object define_exit checksum_sha no_exit)
        (define_static_bytes checksum_sha) (pointer_shape no_exit exit_shape) (bytes_shape 96)
        (define_static_object-Symmetric define_exit exit_shape define_exit-Symmetric checksum_sha
          no_exit)
        (define_static_bytes-Symmetric checksum_sha 96))

abbrev signed : SignedVoluntaryExit
signed = record {
  exit = some (record { epoch = 300; validator_index = 7 });
  signature = replicate 96 5;
}

abbrev unsigned : SignedVoluntaryExit
unsigned = record { exit = none; signature = zeros 96 }

decode_from_bytes_on_fork-encode_to_bytes_on_fork_example :
    (encode_to_bytes_on_fork static_object
        (run_by_encoder define_signed signed)
        112
        (zeros 120)
        0
        new_encoder
      ≡ some (none, buffer (signed_shape.bytes signed) (drop 112 (zeros 120))))
    × (decode_from_bytes_on_fork static_object
          (run_by_decoder define_signed unsigned)
          unsigned
          500
          (signed_shape.bytes signed)
          0
          (new_decoder [] 0)
        ≡ some (none, signed))
decode_from_bytes_on_fork-encode_to_bytes_on_fork_example =
    decode_from_bytes_on_fork-encode_to_bytes_on_fork define_signed signed_shape
      define_signed-Symmetric signed unsigned (zeros 120) 0 new_encoder 500 (new_decoder [] 0)
      (((omega arith, omega arith)), refl) ((tt, tt), refl) (omega arith) (omega arith) refl refl

define_static_object-Symmetric_example :
    Symmetric
      (pointer_shape no_exit exit_shape)
      (define_static_object define_exit checksum_sha no_exit)
define_static_object-Symmetric_example =
    define_static_object-Symmetric define_exit exit_shape define_exit-Symmetric checksum_sha no_exit
