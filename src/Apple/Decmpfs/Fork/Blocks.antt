-- ===== src/Apple/Decmpfs/Fork/Blocks.antt =====
-- The blocks of the resource fork that `encode_blocks` builds are read back by `decode_blocks`.
use lzvn.Base.{
  ℕ, zero, suc, ◌+◌, ◌-◌, ◌*◌, ◌≤◌, ◌<◌, ◌≡◌, refl, sym, ap, ◌∙◌, inl, inr, true, false, List, [],
  ◌∷◌, ◌++◌, append-nil, append_assoc, arith, min, Bytes, length, concat, length-append,
  length-replicate, length-take, length-drop, take-append-drop, take, drop, replicate, ltb, ◌==◌,
  ◌||◌, eq→==, le→ltb, Bool-cases,
}
use lzvn.Error.{ok, slice, slice-append}
use lzvn.Words.{u32_max, usize_max, to_le_bytes, length-to_le_bytes, word_at-append}
use lzvn.Apple.Decmpfs.{decmpfs_chunk_size, into_range, decode_lzvn_block}
use lzvn.Apple.Decmpfs.Block.{
  into_range-append, best_lzvn_wrapper_payload-IsPayload, decode_lzvn_block-IsPayload, IsPayload,
}
use lzvn.Apple.Decmpfs.Fork.{
  block_count, remaining_block_size, read_offset, chunks, encode_blocks, offset_table,
  decode_blocks,
}

chunks-nil : (fuel size : ℕ) (src : Bytes) → length src ≡ 0 → chunks size fuel src ≡ []
unfolding chunks
chunks-nil zero size src h = refl
chunks-nil (suc fuel) size [] h = refl
chunks-nil (suc fuel) size (b ∷ bs) h = absurd (omega arith)

chunks-cons :
    (fuel size : ℕ) (src : Bytes)
    → 0 < length src
    → chunks size (suc fuel) src ≡ take size src ∷ chunks size fuel (drop size src)
unfolding chunks
chunks-cons fuel size [] h = absurd (omega arith)
chunks-cons fuel size (b ∷ bs) h = refl

pub block_count-zero : block_count 0 ≡ 0
unfolding block_count
block_count-zero = refl

pub block_count-suc : (n : ℕ) → 0 < n → block_count n ≡ suc (block_count (n - decmpfs_chunk_size))
unfolding block_count
block_count-suc n h = elim (Bool-cases (n - decmpfs_chunk_size == 0)) [
  | inl small ↦ ground arith
  | inr large ↦ ground arith
]

pub block_count_le : (n : ℕ) → block_count n * decmpfs_chunk_size ≤ n + (decmpfs_chunk_size - 1)
unfolding block_count
block_count_le n = elim (Bool-cases (n == 0)) [
  | inl empty ↦ rw empty (omega arith)
  | inr some_left ↦ rw some_left (omega arith)
]

pub length-offset_table : (offsets : List ℕ) → length (offset_table offsets) ≡ length offsets * 4
unfolding offset_table
length-offset_table [] = refl
length-offset_table (o ∷ offsets) = omega (
  arith,
  length-append {0} (to_le_bytes 4 o) (offset_table offsets),
  length-to_le_bytes 4 o,
  length-offset_table offsets,
)

-- An offset is read back at its place in the table.
pub read_offset-append :
    (front rest : Bytes) (index offset : ℕ)
    → length front ≡ index * 4
    → offset ≤ u32_max
    → index ≤ u32_max
    → read_offset (front ++ (to_le_bytes 4 offset ++ rest)) index ≡ ok offset
unfolding read_offset
read_offset-append front rest index offset h ho hi =
    let no_wrap : ltb usize_max (index * 4) ≡ false = le→ltb _ _ (omega arith) in
    let inside : ltb (length (front ++ (to_le_bytes 4 offset ++ rest))) (index * 4 + 4) ≡ false =
      le→ltb _ _ (
        omega (
          arith,
          length-append {0} front (to_le_bytes 4 offset ++ rest),
          length-append {0} (to_le_bytes 4 offset) rest,
          length-to_le_bytes 4 offset,
        )) in
    rw (no_wrap, inside) (word_at-append 4 offset (index * 4) front rest (omega arith) (sym h))

replicate-add : (a b n : ℕ) → n ≡ a + b → replicate {A = ℕ} n 0 ≡ replicate a 0 ++ replicate b 0
replicate-add zero b n h = ap (λ k. replicate {A = ℕ} k 0) (omega arith)
replicate-add (suc a) b zero h = absurd (omega arith)
replicate-add (suc a) b (suc n) h = ap (λ t. 0 ∷ t) (replicate-add a b n (omega arith))

-- One round of the decoder's loop that succeeds.
decode_blocks-suc :
    (rounds i : ℕ) (fork : Bytes) (expected produced previous next size : ℕ)
    (block dst dst' : Bytes)
    → read_offset fork (i + 1) ≡ ok next
    → previous ≤ next
    → next ≤ length fork
    → remaining_block_size expected i ≡ ok size
    → slice fork previous next ≡ ok block
    → into_range dst produced (produced + size) (decode_lzvn_block block size) ≡ ok (size, dst')
    → decode_blocks (suc rounds) i fork expected produced previous dst
      ≡ decode_blocks rounds (i + 1) fork expected (produced + size) next dst'
unfolding decode_blocks
decode_blocks-suc rounds i fork expected produced previous next size block dst dst' read h k
      remaining cut filled =
    let ordered : (ltb next previous || ltb (length fork) next) ≡ false = ground arith in
    let same : (size == size) ≡ true = eq→== size size refl in
    rw (read, ordered, remaining, cut, filled, same) refl

-- The blocks and offsets pushed for `rest` from an offset on are read back wherever they stand: in a
-- fork whose table goes on with them, behind what is already decoded.
pub ReadsBack : Bytes → ℕ → List ℕ → List Bytes → Type 0
ReadsBack rest offset offsets blocks =
    (front middle out fork dst : Bytes) (i expected produced : ℕ)
    → fork ≡ front ++ (offset_table offsets ++ (middle ++ concat blocks))
    → length front ≡ (i + 1) * 4
    → offset ≡ length front + (length offsets * 4 + length middle)
    → dst ≡ out ++ replicate (length rest) 0
    → produced ≡ length out
    → expected ≡ produced + length rest
    → produced ≡ min (i * decmpfs_chunk_size) expected
    → expected ≤ u32_max
    → i ≤ expected
    → decode_blocks (block_count (length rest)) i fork expected produced offset dst
      ≡ ok (expected, out ++ rest)

pub ReadsBack-nil : (offset : ℕ) → ReadsBack [] offset [] []
unfolding ReadsBack decode_blocks offset_table
ReadsBack-nil offset front middle out fork dst i expected produced hf h1 h2 hd h3 h4 h5 h6 h7 =
    let size : offset ≡ length fork =
      h2 ∙ (rw (hf, append-nil middle) (omega (arith, length-append {0} front middle))) in
    let whole : (offset == length fork) ≡ true = eq→== _ _ size in
    let total : produced ≡ expected = omega arith in rw (block_count-zero, whole, total, hd) refl

pub remaining_block_size_lem :
    (total i size : ℕ)
    → i * decmpfs_chunk_size ≤ total
    → size ≡ min (total - i * decmpfs_chunk_size) decmpfs_chunk_size
    → remaining_block_size total i ≡ ok size
unfolding remaining_block_size
remaining_block_size_lem total i size h k = ground arith

pub ReadsBack-cons :
    (rest chunk rest' payload : Bytes) (offset : ℕ) (offsets : List ℕ) (blocks : List Bytes)
    → 0 < length rest
    → chunk ≡ take decmpfs_chunk_size rest
    → rest' ≡ drop decmpfs_chunk_size rest
    → IsPayload payload chunk
    → offset + length payload ≤ u32_max
    → ReadsBack rest' (offset + length payload) offsets blocks
    → ReadsBack rest offset ((offset + length payload) ∷ offsets) (payload ∷ blocks)
unfolding ReadsBack offset_table
ReadsBack-cons rest chunk rest' payload offset offsets blocks some_left hc hr is_payload fits after
      front middle out fork dst i expected produced hf h1 h2 hd h3 h4 h5 h6 h7 =
    let next = offset + length payload in
    let word = to_le_bytes 4 next in
    let table = offset_table offsets in
    let chunk_size : length chunk ≡ min decmpfs_chunk_size (length rest) =
      ap length hc ∙ length-take decmpfs_chunk_size rest in
    let rest_size : length rest' ≡ length rest - decmpfs_chunk_size =
      ap length hr ∙ length-drop decmpfs_chunk_size rest in
    let joined : chunk ++ rest' ≡ rest = rw (hc, hr) (take-append-drop decmpfs_chunk_size rest) in
    let word_size = length-to_le_bytes 4 next in
    let table_size = length-offset_table offsets in
    let aligned : produced ≡ i * decmpfs_chunk_size = omega arith in
    let for_word : fork ≡ front ++ (word ++ (table ++ (middle ++ (payload ++ concat blocks)))) =
      rw hf (simp append_assoc) in
    let for_block : fork ≡ (front ++ (word ++ (table ++ middle))) ++ (payload ++ concat blocks) =
      rw hf (simp append_assoc) in
    let for_rest : fork ≡ (front ++ word) ++ (table ++ ((middle ++ payload) ++ concat blocks)) =
      rw hf (simp append_assoc) in
    let before : length (front ++ (word ++ (table ++ middle))) ≡ offset = omega (
      arith,
      length-append {0} front (word ++ (table ++ middle)),
      length-append {0} word (table ++ middle),
      length-append {0} table middle,
      word_size,
      table_size,
    ) in
    let read : read_offset fork (i + 1) ≡ ok next =
      rw for_word (read_offset-append front _ (i + 1) next h1 fits (omega arith)) in
    let inside : next ≤ length fork = rw for_block (
      omega (
        arith,
        before,
        length-append {0} (front ++ (word ++ (table ++ middle))) (payload ++ concat blocks),
        length-append {0} payload (concat blocks),
      )) in
    let remaining : remaining_block_size expected i ≡ ok (length chunk) =
      remaining_block_size_lem expected i (length chunk) (omega arith) (omega arith) in
    let cut : slice fork offset next ≡ ok payload =
      rw for_block (slice-append _ payload (concat blocks) offset next (sym before) refl) in
    let room : dst ≡ out ++ (replicate (length chunk) 0 ++ replicate (length rest') 0) =
      hd
      ∙ ap (λ t. out ++ t)
          (replicate-add (length chunk) (length rest') (length rest) (omega arith)) in
    let filled : into_range dst produced (produced + length chunk)
          (decode_lzvn_block payload (length chunk))
        ≡ ok (length chunk, out ++ (chunk ++ replicate (length rest') 0)) =
      rw room (
        into_range-append out (replicate (length chunk) 0) (replicate (length rest') 0) chunk
          produced (produced + length chunk) (length chunk) _ h3
          (ap (λ n. produced + n) (sym (length-replicate {A = ℕ} (length chunk) 0)))
          (decode_lzvn_block-IsPayload payload chunk (omega arith) is_payload)) in
    let count : block_count (length rest) ≡ suc (block_count (length rest')) =
      block_count-suc (length rest) some_left ∙ ap (λ n. suc (block_count n)) (sym rest_size) in
    let grown = length-append out chunk in
    let ih =
      after (front ++ word) (middle ++ payload) (out ++ chunk) fork
        (out ++ (chunk ++ replicate (length rest') 0)) (i + 1) expected (produced + length chunk)
        for_rest (omega (arith, length-append {0} front word, word_size))
        (omega (arith, length-append {0} front word, word_size, length-append {0} middle payload))
        (sym (append_assoc out chunk _)) (omega arith) (omega arith) (omega arith) h6
        (omega arith) in
    ap (λ n. decode_blocks n i fork expected produced offset dst) count
    ∙ decode_blocks-suc (block_count (length rest')) i fork expected produced offset next
        (length chunk) payload dst (out ++ (chunk ++ replicate (length rest') 0)) read (omega arith)
        inside remaining cut filled
    ∙ ih
    ∙ ap (λ t. ok (expected, t)) (append_assoc out chunk rest' ∙ ap (λ t. out ++ t) joined)

-- Every source whose blocks end below 2 ^ 32 is pushed whole.
pub encode_blocks-ReadsBack :
    (fuel : ℕ) (rest : Bytes) (offset : ℕ)
    → length rest ≤ fuel
    → offset + length rest + block_count (length rest) ≤ u32_max
    → (offsets : List ℕ) × (blocks : List Bytes) × (encode_blocks
          (chunks decmpfs_chunk_size fuel rest)
          offset
        ≡ ok (offsets, blocks))
      × (length offsets ≡ block_count (length rest))
      × ReadsBack rest offset offsets blocks
unfolding encode_blocks
encode_blocks-ReadsBack fuel [] offset h fits = (
  [],
  [],
  rw (chunks-nil fuel decmpfs_chunk_size [] refl) refl,
  sym block_count-zero,
  ReadsBack-nil offset,
)
encode_blocks-ReadsBack zero (b ∷ bs) offset h fits = absurd (omega arith)
encode_blocks-ReadsBack (suc fuel) (b ∷ bs) offset h fits =
    let rest : Bytes = b ∷ bs in
    let some_left : 0 < length rest = omega arith in
    let chunk = take decmpfs_chunk_size rest in
    let rest' = drop decmpfs_chunk_size rest in
    let chunk_size : length chunk ≡ min decmpfs_chunk_size (length rest) =
      length-take decmpfs_chunk_size rest in
    let rest_size : length rest' ≡ length rest - decmpfs_chunk_size =
      length-drop decmpfs_chunk_size rest in
    let count : block_count (length rest) ≡ suc (block_count (length rest')) =
      block_count-suc (length rest) some_left ∙ ap (λ n. suc (block_count n)) (sym rest_size) in
    let (payload, made, size, is_payload) = best_lzvn_wrapper_payload-IsPayload chunk in
    let (offsets, blocks, pushed, counted, after) =
      encode_blocks-ReadsBack fuel rest' (offset + length payload) (omega arith) (omega arith) in
    let small : ltb u32_max (length payload) ≡ false = le→ltb _ _ (omega arith) in
    let below : ltb u32_max (offset + length payload) ≡ false = le→ltb _ _ (omega arith) in
    (
      (offset + length payload) ∷ offsets,
      payload ∷ blocks,
      rw (chunks-cons fuel decmpfs_chunk_size rest some_left, made, small, below, pushed) refl,
      omega arith,
      ReadsBack-cons rest chunk rest' payload offset offsets blocks some_left refl refl is_payload
          (omega arith) after,
    )

-- The whole loop, from the first block on.
pub decode_blocks-ReadsBack :
    (src front fork : Bytes) (offset : ℕ) (offsets : List ℕ) (blocks : List Bytes)
    → ReadsBack src offset offsets blocks
    → fork ≡ front ++ (offset_table offsets ++ concat blocks)
    → length front ≡ 4
    → offset ≡ 4 + length offsets * 4
    → length src ≤ u32_max
    → decode_blocks
        (block_count (length src))
        0
        fork
        (length src)
        0
        offset
        (replicate (length src) 0)
      ≡ ok (length src, src)
unfolding ReadsBack
decode_blocks-ReadsBack src front fork offset offsets blocks back hf h1 h2 h3 =
    back front [] [] fork (replicate (length src) 0) 0 (length src) 0 hf (omega arith) (omega arith)
      refl refl (omega arith) (omega arith) h3 (omega arith)
