-- ===== src/Apple/Bvxn.antt =====
-- src/apple/bvxn.rs: the block format `bvxn`, a header of 12 bytes before a raw stream.
pub mod RoundTrip
pub mod Accepts
pub mod Returns
pub mod Stream
pub mod StreamDecoder
pub mod Tests
use Prim.Native.String.{String}
use lzvn.Base.{ℕ, ◌+◌, ◌-◌, ◌^◌, List, [], ◌∷◌, ◌++◌, Bytes, length, ltb, ◌==◌, not}
use lzvn.Error.{
  Result, ok, err, ◌>>=◌, ◌>>◌, reject_if, slice, truncated_input, unsupported_block_magic,
  size_overflow, trailing_data, size_mismatch,
}
use lzvn.Words.{u32_max, to_le_bytes, word_at}
use lzvn.Raw.Decode
use lzvn.Raw.Encode.Loop

abbrev pub header_len : ℕ
header_len = 12

abbrev pub bvxn_magic : ℕ
bvxn_magic = 0x6E78_7662

pub record BvxnHeader : Type 0 where
  pub raw_bytes : ℕ
  pub payload_bytes : ℕ

unfoldable pub parse_header : Bytes → Result BvxnHeader
parse_header src = do
  reject_if (ltb (length src) header_len) (truncated_input (length src))
  magic ← word_at 4 src 0
  reject_if (not (magic == bvxn_magic)) (unsupported_block_magic magic)
  raw_bytes ← word_at 4 src 4
  payload_bytes ← word_at 4 src 8
  ok (record { raw_bytes = raw_bytes; payload_bytes = payload_bytes })

-- The header that `encode` writes.
abbrev pub header_bytes : ℕ → ℕ → Bytes
header_bytes raw_bytes payload_bytes =
    to_le_bytes 4 bvxn_magic ++ (to_le_bytes 4 raw_bytes ++ to_le_bytes 4 payload_bytes)

pub encode : Bytes → Result Bytes
encode src = do
  reject_if (ltb u32_max (length src)) (size_overflow (length src) u32_max "raw block")
  payload ← Loop.encode src
  reject_if (ltb u32_max (length payload)) (size_overflow (length payload) u32_max "bvxn payload")
  ok (header_bytes (length src) (length payload) ++ payload)

pub split_block : Bytes → Result (BvxnHeader × Bytes)
split_block src = do
  header ← parse_header src
  let total_len = header_len + header.payload_bytes
  reject_if (ltb (length src) total_len) (truncated_input (length src))
  reject_if (ltb total_len (length src)) (trailing_data (length src - total_len))
  payload ← slice src header_len total_len
  ok (header, payload)

pub decode : Bytes → Result Bytes
decode src = do (header, payload) ← split_block src; Decode.decode payload header.raw_bytes

pub decode_into : Bytes → Bytes → Result (ℕ × Bytes)
decode_into src dst = do
  (header, payload) ← split_block src
  (written, dst') ← Decode.decode_into payload dst
  reject_if (not (written == header.raw_bytes)) (size_mismatch header.raw_bytes written)
  ok (written, dst')
