-- ===== src/Apple/Decmpfs/Codec.antt =====
-- src/apple/fs/decmpfs.rs: `encode`, `decode` and `decode_into`.
pub mod RoundTrip
pub mod Returns
pub mod Agree
use lzvn.Base.{
  ℕ, ◌+◌, Bool, true, false, not, Option, none, some, List, [], ◌∷◌, Bytes, length, ltb, leb, ◌==◌,
  if◌then◌else◌,
}
use lzvn.Error.{
  Error, Result, ok, err, ◌>>=◌, ◌>>◌, reject_if, output_too_small, size_mismatch, trailing_data,
  missing_resource_fork, unsupported_decmpfs_compression_type,
}
use lzvn.Apple.Decmpfs.{
  DecmpfsCompressionType, zlib_xattr, zlib_resource_fork, lzvn_xattr, lzvn_resource_fork, raw_xattr,
  raw_resource_fork, lzfse_xattr, lzfse_resource_fork, lz_bitmap_xattr, lz_bitmap_resource_fork,
  unknown, raw_value, DecmpfsHeader, EncodedDecmpfs, decmpfs_max_xattr_data_size, split_xattr,
  build_xattr, best_lzvn_wrapper_payload, decode_lzvn_block,
}
use lzvn.Words.{zeroed}
use lzvn.Apple.Decmpfs.Fork.{encode_resource_fork, decode_lzvn_resource_fork}

-- `self.ok_or(e)`
pub ok_or : Option Bytes → Error → Result Bytes
ok_or none e = err e
ok_or (some bytes) e = ok bytes

pub decode_body : DecmpfsCompressionType → ℕ → Bytes → Option Bytes → Bytes → Result (ℕ × Bytes)
decode_body lzvn_xattr uncompressed_size payload resource_fork dst =
    decode_lzvn_block payload uncompressed_size dst
decode_body lzvn_resource_fork uncompressed_size payload resource_fork dst = do
  reject_if (not (length payload == 0)) (trailing_data (length payload))
  fork ← ok_or resource_fork missing_resource_fork
  decode_lzvn_resource_fork fork uncompressed_size dst
decode_body other uncompressed_size payload resource_fork dst =
    err (unsupported_decmpfs_compression_type (raw_value other))

pub decode : Bytes → Option Bytes → Result Bytes
decode xattr resource_fork = do
  (header, payload) ← split_xattr xattr
  let size = header.uncompressed_size
  zeros ← zeroed size
  (written, dst) ← decode_body header.compression_type size payload resource_fork zeros
  reject_if (not (written == size)) (size_mismatch size written)
  ok dst

pub decode_into : Bytes → Option Bytes → Bytes → Result (ℕ × Bytes)
decode_into xattr resource_fork dst = do
  (header, payload) ← split_xattr xattr
  let size = header.uncompressed_size
  reject_if (ltb (length dst) size) (output_too_small 0 (length dst))
  (written, dst') ← decode_body header.compression_type size payload resource_fork dst
  reject_if (not (written == size)) (size_mismatch size written)
  ok (written, dst')

pub encode_inline : Bytes → Bytes → Result EncodedDecmpfs
encode_inline src payload = do
  xattr ← build_xattr lzvn_xattr (length src) payload
  ok (record { xattr = xattr; resource_fork = none })

pub encode_forked : Bytes → Result EncodedDecmpfs
encode_forked src = do
  resource_fork ← encode_resource_fork src
  xattr ← build_xattr lzvn_resource_fork (length src) []
  ok (record { xattr = xattr; resource_fork = some resource_fork })

-- The two ways `encode` ends.
pub encode : Bytes → Result EncodedDecmpfs
encode src = do
  inline_payload ← best_lzvn_wrapper_payload src
  if leb (length inline_payload) decmpfs_max_xattr_data_size
      then encode_inline src inline_payload
      else encode_forked src
