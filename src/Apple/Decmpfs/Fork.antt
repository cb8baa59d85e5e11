-- ===== src/Apple/Decmpfs/Fork.antt =====
-- src/apple/fs/decmpfs.rs: the resource fork, blocks of 64 KiB behind a table of their offsets.
pub mod Blocks
pub mod Returns
pub mod RoundTrip
use Prim.Native.String.{String}
use lzvn.Base.{
  ℕ, zero, suc, ◌+◌, ◌-◌, ◌*◌, ◌/◌, min, Bool, true, false, not, ◌||◌, List, [], ◌∷◌, ◌++◌, Bytes,
  length, take, drop, concat, ltb, ◌==◌, if◌then◌else◌,
}
use lzvn.Error.{
  Result, ok, err, ◌>>=◌, ◌>>◌, reject_if, slice, checked_sub, invalid_resource_fork, size_overflow,
  size_mismatch,
}
use lzvn.Words.{u32_max, usize_max, to_le_bytes, word_at}
use lzvn.Apple.Decmpfs.{
  decmpfs_chunk_size, best_lzvn_wrapper_payload, into_range, decode_lzvn_block,
}

pub block_count : ℕ → ℕ
block_count size = if size == 0 then 0 else (size + (decmpfs_chunk_size - 1)) / decmpfs_chunk_size

pub remaining_block_size : ℕ → ℕ → Result ℕ
remaining_block_size total block_index = do
  rest ← checked_sub total (block_index * decmpfs_chunk_size)
  ok (min rest decmpfs_chunk_size)

pub offset_table_len : ℕ → Result ℕ
offset_table_len count = do
  reject_if (ltb usize_max (count + 1))
      (size_overflow usize_max usize_max "decmpfs resource fork block count")
  reject_if (ltb usize_max ((count + 1) * 4))
      (size_overflow usize_max u32_max "decmpfs resource fork offset table")
  ok ((count + 1) * 4)

pub read_offset : Bytes → ℕ → Result ℕ
read_offset resource_fork index = do
  reject_if (ltb usize_max (index * 4)) (invalid_resource_fork "offset table index overflowed")
  reject_if (ltb (length resource_fork) (index * 4 + 4))
      (invalid_resource_fork "offset table is truncated")
  word_at 4 resource_fork (index * 4)

-- `src.chunks(size)`; a chunk for each byte is enough.
pub chunks : ℕ → ℕ → Bytes → List Bytes
chunks size zero src = []
chunks size (suc fuel) [] = []
chunks size (suc fuel) src = take size src ∷ chunks size fuel (drop size src)

-- `for chunk in src.chunks(DECMPFS_CHUNK_SIZE)` of `encode_resource_fork`: what it pushes to `offsets`
-- and to `blocks`.
pub encode_blocks : List Bytes → ℕ → Result (List ℕ × List Bytes)
encode_blocks [] offset = ok ([], [])
encode_blocks (chunk ∷ rest) offset = do
  block ← best_lzvn_wrapper_payload chunk
  reject_if (ltb u32_max (length block))
      (size_overflow (length block) u32_max "decmpfs resource block")
  let offset' = offset + length block
  reject_if (ltb u32_max offset') (size_overflow usize_max u32_max "decmpfs resource fork")
  (offsets, blocks) ← encode_blocks rest offset'
  ok (offset' ∷ offsets, block ∷ blocks)

pub offset_table : List ℕ → Bytes
offset_table [] = []
offset_table (offset ∷ offsets) = to_le_bytes 4 offset ++ offset_table offsets

pub encode_resource_fork : Bytes → Result Bytes
encode_resource_fork src = do
  table_len ← offset_table_len (block_count (length src))
  reject_if (ltb u32_max table_len)
      (size_overflow table_len u32_max "decmpfs resource fork offset table")
  (offsets, blocks) ← encode_blocks (chunks decmpfs_chunk_size (length src) src) table_len
  ok (offset_table (table_len ∷ offsets) ++ concat blocks)

-- `for block_index in 0..block_count` and the check behind it; the first argument counts the rounds
-- left.
pub decode_blocks : ℕ → ℕ → Bytes → ℕ → ℕ → ℕ → Bytes → Result (ℕ × Bytes)
decode_blocks zero block_index resource_fork expected produced previous_offset dst = do
  reject_if (not (previous_offset == length resource_fork))
      (invalid_resource_fork "last block offset does not reach end of resource fork")
  ok (produced, dst)
decode_blocks (suc rounds) block_index resource_fork expected produced previous_offset dst = do
  next_offset ← read_offset resource_fork (block_index + 1)
  reject_if (ltb next_offset previous_offset || ltb (length resource_fork) next_offset)
      (invalid_resource_fork "block offsets are invalid")
  expected_block ← remaining_block_size expected block_index
  block ← slice resource_fork previous_offset next_offset
  (written, dst') ←
      into_range dst produced (produced + expected_block) (decode_lzvn_block block expected_block)
  reject_if (not (written == expected_block)) (size_mismatch expected_block written)
  decode_blocks rounds (block_index + 1) resource_fork expected (produced + expected_block)
      next_offset dst'

pub decode_lzvn_resource_fork : Bytes → ℕ → Bytes → Result (ℕ × Bytes)
decode_lzvn_resource_fork resource_fork expected dst = do
  table_len ← offset_table_len (block_count expected)
  reject_if (ltb (length resource_fork) table_len)
      (invalid_resource_fork "offset table is truncated")
  first_offset ← read_offset resource_fork 0
  reject_if (not (first_offset == table_len))
      (invalid_resource_fork "first block offset does not match offset table size")
  if block_count expected == 0
      then (do
        reject_if (not (first_offset == length resource_fork))
            (invalid_resource_fork "empty resource fork has trailing data")
        ok (0, dst))
      else decode_blocks (block_count expected) 0 resource_fork expected 0 first_offset dst
