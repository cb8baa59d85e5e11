-- ===== src/Lib.antt =====
-- lzvn: the LZVN codec and its Apple containers.
--
-- The crate compresses bytes with LZVN, an LZ77 format of byte codes, and wraps raw streams into two
-- containers of Apple's systems. `raw::encode` finds matches with a hash table and writes codes;
-- `raw::decode` and `raw::decode_into` interpret codes. A `bvxn` block is a header of 12 bytes before a
-- raw stream. A `decmpfs` value is an xattr with a header of 16 bytes, whose payload is inline, or in a
-- resource fork of blocks of 64 KiB behind a table of offsets; a payload or block is a raw stream, or
-- the bytes themselves behind a sentinel. Both containers call the raw codec and nothing else.
--
-- Files and sources (paths from the root of the repository):
--   Error            src/error.rs: the errors; `Result` with `panic` for an index, slice or subtraction
--                    out of range and for a failed `debug_assert`, and `out_of_fuel`
--   Raw/Opcode       src/raw/opcode.rs: `classify`
--   Raw/Format       what a match means: `copy_match`, an independent description
--   Raw/Decode       src/raw/decode.rs: `Decoder` and its methods; `run` is the loop, `step` a round,
--                    `dispatch` and `execute` the `match`
--   Raw/Encode       src/raw/encode.rs: `Encoder`, the hash table and the match finder
--   Raw/Encode/Emit  src/raw/encode.rs: the methods `emit_…`
--   Raw/Encode/Loop  src/raw/encode.rs: `Encoder::finish` and `encode`
--   Stream           src/stream.rs, and the buffering encoder that `RawEncoder` and `BvxnEncoder` spell
--                    out with one text each; `encode` is its parameter
--   Raw/Stream       src/raw/stream.rs: `RawEncoder`
--   Raw/StreamDecoder        src/raw/stream.rs: `RawDecoder`; Loop is its `decode_into`, with `turn` for
--                    a round and `arm` for the `match`; Script has a client's calls in any order
--   Raw/Code         what a code says, as both decoders read it: an independent description
--   Raw/Refusal      why a code is refused, as both decoders say it: an independent description
--   Apple/Bvxn       src/apple/bvxn.rs: the functions on whole blocks
--   Apple/Bvxn/Stream    `BvxnEncoder` of the same file
--   Apple/Bvxn/StreamDecoder     `BvxnDecoder` of the same file, over the model of `RawDecoder`
--   Apple/Decmpfs    src/apple/fs/decmpfs.rs: constants, types, header and payloads
--   Apple/Decmpfs/Fork   the resource fork of the same file
--   Apple/Decmpfs/Codec  `encode`, `decode`, `decode_into` of the same file
--   Facade           src/lib.rs: the functions under the names that the crate exports
--   Fuzz             fuzz/fuzz_targets: raw_decode.rs, bvxn_decode.rs, decmpfs_decode.rs
--   Words            the little-endian words that the containers are made of
--   Base             tests on numbers, byte slices as lists, and facts on bits
-- The modules below these hold the proofs, and the two modules Witnesses concrete runs.
--
-- The model. A byte slice or vector is a list of numbers. `usize` has 64 bits; a length or position in
-- memory cannot pass it, so sums of those are plain, and what the source checks (`checked_add`,
-- `try_from`) is written out. A `u8` shift keeps its wrap-around. The hash table is a function from
-- buckets to lists of candidates. A function that writes to a buffer returns the buffer beside its
-- count; with an error the buffer, and the state of a streaming coder, are not returned, so nothing is
-- said of calls behind an error. `vec!` panics above `isize::MAX` where a header declares the size; the
-- length that the caller of `raw::decode` expects is taken to be one that a slice can have. A range of
-- a buffer that is passed to a call is cut out, and put back when the call returns.
--
-- Fuel. A round of the decoder's loop takes at least one byte of input, unless it is the last, so one
-- round more than the input has bytes is enough. A round of the encoder's loop moves the position, so
-- a round for each byte of the source is enough; the literal and match writers take at least one
-- byte a round, and `chunks` one chunk for each byte at most. An instruction of the streaming decoder
-- takes at least one byte, and its literal and its match a round each, so three rounds for each byte
-- that is buffered and three more are enough.
--
-- Not modelled: memory that does not suffice, the error messages, the fuzz target roundtrip.rs,
-- and benchmarks and tests, which only run the functions modelled here.
pub mod Base
pub mod Error
pub mod Words
pub mod Stream
pub mod Raw
pub mod Apple
pub mod Facade
pub mod Fuzz
