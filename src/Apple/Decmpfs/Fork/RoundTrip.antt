-- ===== src/Apple/Decmpfs/Fork/RoundTrip.antt =====
-- The resource fork that `encode_resource_fork` builds is read back by `decode_lzvn_resource_fork`.
use lzvn.Base.{
  ℕ, ◌+◌, ◌*◌, ◌≤◌, ◌<◌, ◌≡◌, refl, true, false, [], ◌++◌, append_assoc, arith, Bytes, length,
  concat, length-append, replicate, ltb, ◌==◌, eq→==, le→ltb,
}
use lzvn.Error.{ok}
use lzvn.Words.{u32_max, usize_max, to_le_bytes, length-to_le_bytes}
use lzvn.Apple.Decmpfs.Fork.{
  block_count, offset_table_len, read_offset, offset_table, encode_resource_fork,
  decode_lzvn_resource_fork,
}
use lzvn.Apple.Decmpfs.Fork.Blocks.{
  block_count-suc, block_count_le, read_offset-append, length-offset_table, decode_blocks-ReadsBack,
  encode_blocks-ReadsBack,
}

offset_table_len_lem :
    (count : ℕ) → (count + 1) * 4 ≤ usize_max → offset_table_len count ≡ ok ((count + 1) * 4)
unfolding offset_table_len
offset_table_len_lem count h =
    let small : ltb usize_max (count + 1) ≡ false = le→ltb _ _ (omega arith) in
    let fits : ltb usize_max ((count + 1) * 4) ≡ false = le→ltb _ _ h in rw (small, fits) refl

-- The table and the blocks of a source up to this size end below 2 ^ 32.
abbrev pub max_source : ℕ
max_source = 0xFFF0_0000

-- Of a source of 1 to `max_source` bytes a resource fork is built, and it is read back as the source
-- into a buffer of zeros.
pub decode-encode_resource_fork :
    (src : Bytes)
    → 0 < length src
    → length src ≤ max_source
    → (fork : Bytes) × (encode_resource_fork src ≡ ok fork)
      × (decode_lzvn_resource_fork fork (length src) (replicate (length src) 0)
          ≡ ok (length src, src))
unfolding encode_resource_fork decode_lzvn_resource_fork offset_table
decode-encode_resource_fork src h fits =
    let n = length src in
    let count = block_count n in
    let bound = block_count_le n in
    let first = (count + 1) * 4 in
    let table_len : offset_table_len count ≡ ok first = offset_table_len_lem count (omega arith) in
    let small : ltb u32_max first ≡ false = le→ltb _ _ (omega arith) in
    let (offsets, blocks, pushed, counted, back) =
      encode_blocks-ReadsBack n src first (omega arith) (omega arith) in
    let head = to_le_bytes 4 first in
    let table = offset_table offsets in
    let fork = (head ++ table) ++ concat blocks in
    let regroup : fork ≡ head ++ (table ++ concat blocks) =
      append_assoc head table (concat blocks) in
    let head_size = length-to_le_bytes 4 first in
    let total : length fork ≡ first + length (concat blocks) = omega (
      arith,
      length-append {0} (head ++ table) (concat blocks),
      length-append {0} head table,
      head_size,
      length-offset_table offsets,
      counted,
    ) in
    let not_cut : ltb (length fork) first ≡ false = le→ltb _ _ (omega arith) in
    let read : read_offset fork 0 ≡ ok first =
      rw regroup
        (read_offset-append [] (table ++ concat blocks) 0 first refl (omega arith) (omega arith)) in
    let same : (first == first) ≡ true = eq→== first first refl in
    let nonzero : (count == 0) ≡ false = ground (arith, block_count-suc n h) in
    let decoded =
      decode_blocks-ReadsBack src head fork first offsets blocks back regroup head_size
        (omega arith) (omega arith) in
    (fork, rw (table_len, small, pushed) refl, rw (table_len, not_cut, read, same, nonzero) decoded)
