-- ===== src/Lib.antt =====
-- The SSZ codec (package ssz): what its encoder, decoder, sizer and hasher compute.
--
-- A type of the program describes itself once, by calls of one Define function per field; codec.go
-- hands each call to the encoder, the decoder or the hasher of the run. Fields of fixed size are
-- written in place. A dynamic field is an offset in place and its content at the end of the object,
-- and the decoder finds the size of a content from the offsets around it. The hasher replaces every
-- field by 32-byte chunks and every container by the Merkle root of its chunks.
--
-- Files and the code they model:
--   Base, Base/*        native numbers, lists, tests, little-endian words, Go's text functions; no code of the
--                       repository
--   Errors, Fork        errors.go; forks.go and the fork test of every OnFork function
--   Hasher, Hasher/*    hasher.go, the accumulator: insertChunk (insert_chunk, collapse), descendLayer,
--                       descendMixinLayer, balanceLayer, ascendLayer, ascendMixinLayer. Row is the
--                       reference tree; Segments gives each pending group the leaves under it; Insert,
--                       Carry, Balance and Ascend follow the three loops; Merkle and Mixin close them;
--                       Blocks is about chunks of any depth, as the workers' results are
--   Hashing, Hashing/*  hasher.go, the Hash functions: hashBytes, hashBytesEmpty, insertBlobChunks,
--                       HashBool to HashSliceOfDynamicObjects; Objects, Bits and Forks have more of
--                       them. Pack cuts blobs into chunks; Roots, Numbers, Lists and BitLists say what
--                       the functions add to a layer, Each what a loop over items adds. Workers has
--                       HashSliceOfStaticObjects: Slots is about the order in which workers end, Worker
--                       about one of them, Blocks and Root about their results, Agree about the two
--                       branches
--   Format              the SSZ layout of a list of dynamic blobs, in plain arithmetic
--   Encoder, Encoder/*  encoder.go. emit is the pattern `if outWriter != nil { Write } else { copy }`
--   Decoder, Decoder/*  decoder.go. Offsets has decodeOffset, retrieveSize and the slots; Contents,
--                       Arrays, Bits, Objects and Forks the field functions; Order is about the offsets,
--                       Slotted about the slots, and Slots, Blobs and Lists follow a list of blobs
--   Sizer               sizer.go
--   Uint256, Uint256/*  encoder.go, decoder.go and hasher.go: the fields of 256-bit numbers
--   Entry, Entry/*      ssz.go: EncodeTo, DecodeFrom, HashSequential and HashConcurrent over a whole
--                       object; Plain has the forms without a fork, Size, and utils.go
--   Codec, Codec/*      codec.go: dispatch is the pattern of the Define functions; Numbers, Arrays, Lists
--                       and Objects have them by kind of field. Symmetric says what it means that one
--                       DefineSSZ method writes and reads the same bytes; Scalars, Sequence and Objects
--                       make such methods of others, and Entry runs them
--   RoundTrip           encoder, sizer and decoder together; Scalars, Numbers, Bits and Sizes are its parts
--   Generator, Generator/*  cmd/sszgen. Resolve, with Arrays, Slices and Pointers, has the opsets of
--                       opset.go and resolveOpset; Tags is parseTags, Container makeContainer, Accumulator the printed
--                       static size, which Execute gives its meaning, Method the printed SizeSSZ and Define
--                       the printed DefineSSZ;
--                       Reached, Sizes, Limits and Bounded are about opsets, Operators, Accumulated, Direct,
--                       Lines and Returned about the size, Tagged and Parsed about tags, Made about
--                       containers and Printed about the calls of DefineSSZ
--   Examples            the theorems at concrete inputs
--
-- State is passed explicitly. In encoder and hasher `none` is a Go panic (an index out of range); an
-- error is the field `err`, as in Go. A uint32 is a number with its remainder by 2^32 written out. A
-- stream is what an io.Reader or io.Writer has left, so that it may end or fail at any byte. Loops
-- over slices are recursion on lists. Where a loop counts, it runs on fuel: encodeZeroes and
-- insertBlobChunks on size / 32 + 1 rounds, balanceLayer on the pending chunks and depths of all
-- groups, which every round lowers, and ascendLayer on 66 rounds, since the table of zero trees has 65
-- depths.
--
-- The workers of a list share nothing but the two slices of results: a run of them is the order in which
-- they write, and each hashes on a codec of its own, whose fork is the one that the pool's codec last had.
--
-- crypto/sha256 and gohashtree are a parameter (Hasher.Sha) with the law that HashChunks hashes pairs
-- in order; holiman/uint256 and math/big are one (Uint256.Uint256) with the law that a number is got
-- back from its 32 bytes; go-bitfield's empty bit list is a parameter where a nil bit list is written.
-- DefineSSZ and SizeSSZ, which a type of the user or cmd/sszgen provides, are parameters of the functions
-- on objects.
--
-- The generator's types are finite trees: a named type carries its underlying type. types.Implements is a
-- parameter. The text it prints is a list of tokens for the size, whose numbers are the
-- byte counts, and of filled-in calls for DefineSSZ; a call's template is kept as text, with the values
-- of its places and its fork filter beside it. Error messages are kept without their arguments.
--
-- Not modelled: the pools, and the cache of zero values (zeroes.go), which is made by reflection; the type
-- constraints of generics.go; of cmd/sszgen the command itself, the look-up of types, the imports and the
-- frame of the printed methods; the consensus types under tests.
pub mod Base
pub mod Errors
pub mod Fork
pub mod Generator
pub mod Hasher
pub mod Hashing
pub mod Format
pub mod Encoder
pub mod Decoder
pub mod Sizer
pub mod Uint256
pub mod Entry
pub mod Codec
pub mod RoundTrip
mod Examples
