-- ===== src/Apple/Decmpfs/Fork/Returns.antt =====
-- On any resource fork and any block the readers end without a panic and keep the buffer's length.
use lzvn.Base.{
  ℕ, zero, suc, ◌+◌, ◌-◌, ◌*◌, ◌≤◌, ◌<◌, ◌≡◌, refl, ◌∙◌, inl, inr, min, true, ◌||◌, ◌&&◌, ◌++◌,
  arith, Bytes, length, length-append, length-take, length-drop, take, drop, ltb, ◌==◌, Bool-cases,
}
use lzvn.Error.{Any, Result, ok, ◌>>=◌, Returns, Returns-map, Returns-bind, slice}
use lzvn.Words.{usize_max, from_le_bytes, word_at, word_at_lem}
use lzvn.Raw.Decode
use lzvn.Raw.Decode.Kept.{IsTrueError}
use lzvn.Raw.Decode.Returns.{WritesOnly, decode_into-WritesOnly}
use lzvn.Apple.Decmpfs.{
  decmpfs_chunk_size, into_range, starts_with_sentinel, overwrite, decode_stored, decode_lzvn_block,
}
use lzvn.Apple.Decmpfs.Fork.Blocks.{remaining_block_size_lem}
use lzvn.Apple.Decmpfs.Fork.{
  block_count, remaining_block_size, offset_table_len, read_offset, decode_blocks,
  decode_lzvn_resource_fork,
}

-- The buffer that a call gives back has the length it had.
abbrev pub Keeps : Bytes → ℕ × Bytes → Type 0
Keeps dst (written, dst') = length dst' ≡ length dst

pub into_range-Returns :
    (dst : Bytes) (start end : ℕ) (call : Bytes → Result (ℕ × Bytes))
    → start ≤ end
    → end ≤ length dst
    → ((part : Bytes) → length part ≡ end - start → Returns (Keeps part) Any (call part))
    → Returns (Keeps dst) Any (into_range dst start end call)
into_range-Returns dst start end call h k calls =
    let part = take (end - start) (drop start dst) in
    let size : length part ≡ end - start =
      omega (arith, length-take {0} (end - start) (drop start dst), length-drop {0} start dst) in
    let cut : slice dst start end ≡ ok part = ground arith in
    rw cut (
      Returns-bind (Keeps part) (Keeps dst) Any (call part)
        (λ (written, part'). ok (written, take start dst ++ (part' ++ drop end dst)))
        (calls part size)
        (λ (written, part') kept. omega (
          arith,
          length-append {0} (take start dst) (part' ++ drop end dst),
          length-append {0} part' (drop end dst),
          length-take {0} start dst,
          length-drop {0} end dst,
          size,
          kept,
        )))

decode_into-Returns : (src dst : Bytes) → Returns (Keeps dst) Any (Decode.decode_into src dst)
decode_into-Returns src dst =
    Returns-map (WritesOnly dst) (Keeps dst) (IsTrueError src dst) Any (Decode.decode_into src dst)
      (λ (written, dst') (count, same, frame). same) (λ e w. tt) (decode_into-WritesOnly src dst)

decode_stored-Returns :
    (payload : Bytes) (expected : ℕ) (dst : Bytes)
    → expected ≤ length dst
    → length payload ≡ suc expected
    → Returns (Keeps dst) Any (decode_stored payload expected dst)
unfolding decode_stored
decode_stored-Returns payload expected dst h size =
    let stored = take (length payload - 1) (drop 1 payload) in
    let stored_size : length stored ≡ expected =
      omega
        (arith, length-take {0} (length payload - 1) (drop 1 payload), length-drop {0} 1 payload) in
    let cut : slice payload 1 (length payload) ≡ ok stored = ground (arith, size) in
    rw cut (
      into_range-Returns dst 0 expected
        (λ front. overwrite stored front >>= λ front'. ok (expected, front')) (omega arith) h
        (λ part part_size.
          let fits : (length part == length stored) ≡ true = ground arith in rw fits (omega arith)))

pub decode_lzvn_block-Returns :
    (payload : Bytes) (expected : ℕ) (dst : Bytes)
    → expected ≤ length dst
    → expected < usize_max
    → Returns (Keeps dst) Any (decode_lzvn_block payload expected dst)
unfolding decode_lzvn_block decode_stored
decode_lzvn_block-Returns payload expected dst h small =
    elim (Bool-cases
      (length payload == min (expected + 1) usize_max && starts_with_sentinel payload)) [
        | inl stored ↦ rw stored (decode_stored-Returns payload expected dst h (ground arith))
        | inr compressed ↦ rw compressed (
            into_range-Returns dst 0 expected (Decode.decode_into payload) (omega arith) h
              (λ part size. decode_into-Returns payload part))
      ]

word_at-Returns :
    (width start : ℕ) (src : Bytes)
    → start + width ≤ length src
    → (value : ℕ) × (word_at width src start ≡ ok value)
word_at-Returns width start src h =
    (from_le_bytes (take width (drop start src)), word_at_lem width start src h)

read_offset-Returns :
    (fork : Bytes) (index : ℕ) → Returns (λ offset. Unit {0}) Any (read_offset fork index)
unfolding read_offset
read_offset-Returns fork index = elim (Bool-cases (ltb usize_max (index * 4))) [
  | inl wraps ↦ rw wraps tt
  | inr fits ↦ elim (Bool-cases (ltb (length fork) (index * 4 + 4))) [
    | inl short ↦ rw (fits, short) tt
    | inr long ↦
        let (value, read) = word_at-Returns 4 (index * 4) fork (ground arith) in
        rw (fits, long, read) tt
  ]
]

block_count_bound : (n i : ℕ) → i < block_count n → i * decmpfs_chunk_size < n
unfolding block_count
block_count_bound n i h = elim (Bool-cases (n == 0)) [
  | inl none_left ↦ absurd (omega (arith, rw none_left at h))
  | inr some_left ↦ omega (arith, rw some_left at h)
]

-- The blocks that are left, while the buffer has room for all of them.
decode_blocks-Returns :
    (rounds i : ℕ) (fork : Bytes) (expected produced previous : ℕ) (dst : Bytes)
    → expected ≤ length dst
    → expected < usize_max
    → i + rounds ≡ block_count expected
    → produced ≡ min (i * decmpfs_chunk_size) expected
    → previous ≤ length fork
    → Returns (Keeps dst) Any (decode_blocks rounds i fork expected produced previous dst)
unfolding decode_blocks
decode_blocks-Returns zero i fork expected produced previous dst h small count at_ok inside =
    elim (Bool-cases (previous == length fork)) [
      | inl ended ↦ rw ended refl
      | inr more ↦ rw more tt
    ]
decode_blocks-Returns (suc rounds) i fork expected produced previous dst h small count at_ok
      inside =
    Returns-bind (λ offset. Unit {0}) (Keeps dst) Any (read_offset fork (i + 1)) _
      (read_offset-Returns fork (i + 1))
      (λ next any. elim (Bool-cases (ltb next previous || ltb (length fork) next)) [
        | inl disordered ↦ rw disordered tt
        | inr ordered ↦
            let size = min (expected - i * decmpfs_chunk_size) decmpfs_chunk_size in
            let start_inside : i * decmpfs_chunk_size < expected =
              block_count_bound expected i (omega arith) in
            let remaining : remaining_block_size expected i ≡ ok size =
              remaining_block_size_lem expected i size (omega arith) refl in
            let block = take (next - previous) (drop previous fork) in
            let cut : slice fork previous next ≡ ok block = ground arith in
            rw (ordered, remaining, cut)
              (Returns-bind (Keeps dst) (Keeps dst) Any
                (into_range dst produced (produced + size) (decode_lzvn_block block size)) _
                (into_range-Returns dst produced (produced + size) (decode_lzvn_block block size)
                  (omega arith) (omega arith)
                  (λ part part_size.
                    decode_lzvn_block-Returns block size part (omega arith) (omega arith)))
                (λ (written, dst') kept. elim (Bool-cases (written == size)) [
                  | inr other ↦ rw other tt
                  | inl same ↦ rw same (
                      Returns-map (Keeps dst') (Keeps dst) Any Any _ (λ r k. k ∙ kept)
                        (λ e any'. tt)
                        (decode_blocks-Returns rounds (i + 1) fork expected (produced + size) next
                          dst' (omega arith) small (omega arith) (omega arith) (ground arith)))
                ]))
      ])

offset_table_len-Returns :
    (count : ℕ) → Returns (λ n. n ≡ (count + 1) * 4) Any (offset_table_len count)
unfolding offset_table_len
offset_table_len-Returns count = elim (Bool-cases (ltb usize_max (count + 1))) [
  | inl wraps ↦ rw wraps tt
  | inr fits ↦ elim (Bool-cases (ltb usize_max ((count + 1) * 4))) [
    | inl wraps ↦ rw (fits, wraps) tt
    | inr fits' ↦ rw (fits, fits') refl
  ]
]

pub decode_lzvn_resource_fork-Returns :
    (fork : Bytes) (expected : ℕ) (dst : Bytes)
    → expected ≤ length dst
    → expected < usize_max
    → Returns (Keeps dst) Any (decode_lzvn_resource_fork fork expected dst)
unfolding decode_lzvn_resource_fork
decode_lzvn_resource_fork-Returns fork expected dst h small =
    Returns-bind (λ n. n ≡ (block_count expected + 1) * 4) (Keeps dst) Any
      (offset_table_len (block_count expected)) _ (offset_table_len-Returns (block_count expected))
      (λ table_len any. elim (Bool-cases (ltb (length fork) table_len)) [
        | inl short ↦ rw short tt
        | inr long ↦ rw long (
            Returns-bind (λ offset. Unit {0}) (Keeps dst) Any (read_offset fork 0) _
              (read_offset-Returns fork 0)
              (λ first any'. elim (Bool-cases (first == table_len)) [
                | inr other ↦ rw other tt
                | inl same ↦ elim (Bool-cases (block_count expected == 0)) [
                  | inl empty ↦ elim (Bool-cases (first == length fork)) [
                    | inl ended ↦ rw (same, empty, ended) refl
                    | inr more ↦ rw (same, empty, more) tt
                  ]
                  | inr full ↦
                      rw (same, full)
                        (decode_blocks-Returns (block_count expected) 0 fork expected 0 first dst h
                          small (omega arith) (omega arith) (ground arith))
                ]
              ]))
      ])
