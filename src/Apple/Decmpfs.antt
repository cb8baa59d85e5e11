-- ===== src/Apple/Decmpfs.antt =====
-- src/apple/fs/decmpfs.rs: the xattr header of a compressed file, with the payload inline or in a
-- resource fork of blocks of 64 KiB behind an offset table. `usize` has 64 bits, so it holds a `u64`.
pub mod Block
pub mod Header
pub mod Fork
pub mod Codec
pub mod Tests
use Prim.Native.String.{String}
use lzvn.Base.{
  ℕ, zero, suc, ◌+◌, ◌-◌, ◌*◌, ◌/◌, ◌^◌, min, Bool, true, false, not, ◌&&◌, ◌||◌, Option, none,
  some, List, [], ◌∷◌, ◌++◌, Bytes, length, replicate, take, drop, ltb, leb, ◌==◌, if◌then◌else◌,
}
use lzvn.Error.{
  Error, Result, ok, err, panic, ◌>>=◌, ◌>>◌, reject_if, slice, copy_from_slice, truncated_input,
  invalid_decmpfs_magic, unsupported_decmpfs_compression_type, missing_resource_fork,
  invalid_resource_fork, size_overflow, size_mismatch, trailing_data, output_too_small,
}
use lzvn.Words.{u32_max, usize_max, to_le_bytes, from_le_bytes, word_at}
use lzvn.Raw.Decode
use lzvn.Raw.Encode.Loop

abbrev pub decmpfs_magic : ℕ
decmpfs_magic = 0x636D_7066

abbrev pub decmpfs_header_len : ℕ
decmpfs_header_len = 16

abbrev pub decmpfs_max_xattr_size : ℕ
decmpfs_max_xattr_size = 3_802

abbrev pub decmpfs_max_xattr_data_size : ℕ
decmpfs_max_xattr_data_size = decmpfs_max_xattr_size - decmpfs_header_len

abbrev pub decmpfs_chunk_size : ℕ
decmpfs_chunk_size = 0x1_0000

abbrev pub lzvn_uncompressed_sentinel : ℕ
lzvn_uncompressed_sentinel = 0x06

pub data DecmpfsCompressionType : Type 0 where
  zlib_xattr zlib_resource_fork : DecmpfsCompressionType
  lzvn_xattr lzvn_resource_fork : DecmpfsCompressionType
  raw_xattr raw_resource_fork : DecmpfsCompressionType
  lzfse_xattr lzfse_resource_fork : DecmpfsCompressionType
  lz_bitmap_xattr lz_bitmap_resource_fork : DecmpfsCompressionType
  unknown : ℕ → DecmpfsCompressionType

pub from_raw : ℕ → DecmpfsCompressionType
from_raw value =
    if value == 3
    then zlib_xattr
    else if value == 4
    then zlib_resource_fork
    else if value == 7
    then lzvn_xattr
    else if value == 8
    then lzvn_resource_fork
    else if value == 9
    then raw_xattr
    else if value == 10
    then raw_resource_fork
    else if value == 11
    then lzfse_xattr
    else if value == 12
    then lzfse_resource_fork
    else if value == 13
    then lz_bitmap_xattr
    else if value == 14
    then lz_bitmap_resource_fork
    else unknown value

unfoldable pub raw_value : DecmpfsCompressionType → ℕ
raw_value zlib_xattr = 3
raw_value zlib_resource_fork = 4
raw_value lzvn_xattr = 7
raw_value lzvn_resource_fork = 8
raw_value raw_xattr = 9
raw_value raw_resource_fork = 10
raw_value lzfse_xattr = 11
raw_value lzfse_resource_fork = 12
raw_value lz_bitmap_xattr = 13
raw_value lz_bitmap_resource_fork = 14
raw_value (unknown value) = value

pub uses_resource_fork : DecmpfsCompressionType → Bool
uses_resource_fork zlib_resource_fork = true
uses_resource_fork lzvn_resource_fork = true
uses_resource_fork raw_resource_fork = true
uses_resource_fork lzfse_resource_fork = true
uses_resource_fork lz_bitmap_resource_fork = true
uses_resource_fork _ = false

pub record DecmpfsHeader : Type 0 where
  pub compression_type : DecmpfsCompressionType
  pub uncompressed_size : ℕ

pub record EncodedDecmpfs : Type 0 where
  pub xattr : Bytes
  pub resource_fork : Option Bytes

pub parse_header : Bytes → Result DecmpfsHeader
parse_header xattr = do
  reject_if (ltb (length xattr) decmpfs_header_len) (truncated_input (length xattr))
  magic ← word_at 4 xattr 0
  reject_if (not (magic == decmpfs_magic)) (invalid_decmpfs_magic magic)
  compression_type ← word_at 4 xattr 4
  uncompressed_size ← word_at 8 xattr 8
  reject_if (ltb usize_max uncompressed_size)
      (size_overflow usize_max usize_max "decmpfs uncompressed size")
  ok (record {
    compression_type = from_raw compression_type;
    uncompressed_size = uncompressed_size;
  })

pub split_xattr : Bytes → Result (DecmpfsHeader × Bytes)
split_xattr xattr = do
  header ← parse_header xattr
  payload ← slice xattr decmpfs_header_len (length xattr)
  ok (header, payload)

-- `u64::try_from(uncompressed_size)`
pub build_xattr : DecmpfsCompressionType → ℕ → Bytes → Result Bytes
build_xattr compression_type uncompressed_size payload = do
  reject_if (ltb (2 ^ 64 - 1) uncompressed_size)
      (size_overflow uncompressed_size (2 ^ 64 - 1) "decmpfs uncompressed size")
  ok (
      to_le_bytes 4 decmpfs_magic
      ++ (to_le_bytes 4 (raw_value compression_type)
          ++ (to_le_bytes 8 uncompressed_size ++ payload)))

pub lzvn_uncompressed_payload : Bytes → Bytes
lzvn_uncompressed_payload src = lzvn_uncompressed_sentinel ∷ src

pub best_lzvn_wrapper_payload : Bytes → Result Bytes
best_lzvn_wrapper_payload src = do
  compressed ← Loop.encode src
  let sentinel = lzvn_uncompressed_payload src
  ok (if ltb (length sentinel) (length compressed) then sentinel else compressed)

-- `&mut dst[start..end]` handed to a call: the count it returns, and `dst` with what it leaves there.
abbrev pub into_range : Bytes → ℕ → ℕ → (Bytes → Result (ℕ × Bytes)) → Result (ℕ × Bytes)
into_range dst start end call = do
  part ← slice dst start end
  (written, part') ← call part
  ok (written, take start dst ++ (part' ++ drop end dst))

-- `payload.first() == Some(&LZVN_UNCOMPRESSED_SENTINEL)`
pub starts_with_sentinel : Bytes → Bool
starts_with_sentinel [] = false
starts_with_sentinel (first ∷ _) = first == lzvn_uncompressed_sentinel

-- `dst.copy_from_slice(stored)`, which wants two slices of one length.
abbrev pub overwrite : Bytes → Bytes → Result Bytes
overwrite stored dst = if length dst == length stored then ok stored else panic

pub decode_stored : Bytes → ℕ → Bytes → Result (ℕ × Bytes)
decode_stored payload expected dst = do
  stored ← slice payload 1 (length payload)
  into_range dst 0 expected (λ front. do front' ← overwrite stored front; ok (expected, front'))

pub decode_lzvn_block : Bytes → ℕ → Bytes → Result (ℕ × Bytes)
decode_lzvn_block payload expected dst =
    if length payload == min (expected + 1) usize_max && starts_with_sentinel payload
    then decode_stored payload expected dst
    else into_range dst 0 expected (Decode.decode_into payload)
