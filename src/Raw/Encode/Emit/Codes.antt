-- ===== src/Raw/Encode/Emit/Codes.antt =====
-- The opcode bytes that the writers put together by shifts and `|`, as sums.
use lzvn.Base.{ℕ, ◌+◌, ◌*◌, ◌/◌, ◌%◌, ◌≤◌, ◌<◌, ◌≡◌, ◌∙◌, bit_or, some, arith}
use lzvn.Base.Bits.{bit_or-shifted}
use lzvn.Raw.Opcode.{
  classify, small_distance, medium_distance, large_distance, previous_distance, small_literal,
  small_match,
}
use lzvn.Raw.Opcode.Fields.{field_kind, classify-field_kind}
use lzvn.Raw.Encode.Emit.{shl_u8}

-- `top << 6 | middle << 3 | last`
pub opcode_sum :
    (top middle last : ℕ)
    → top ≤ 3
    → middle ≤ 7
    → last ≤ 7
    → bit_or (bit_or (shl_u8 top 6) (shl_u8 middle 3)) last ≡ top * 64 + middle * 8 + last
opcode_sum top middle last ht hm hl =
    let top_bits : shl_u8 top 6 ≡ top * 64 = omega arith in
    let middle_bits : shl_u8 middle 3 ≡ middle * 8 = omega arith in
    let both : bit_or (top * 64) (middle * 8) ≡ (top * 8 + middle) * 8 =
      bit_or-shifted 6 top (middle * 8) (omega arith) ∙ omega arith in
    rw (top_bits, middle_bits, both)
      (bit_or-shifted 3 (top * 8 + middle) last (omega arith) ∙ omega arith)

module _ (top middle last : ℕ) where
  classify_fields :
      top ≤ 3
      → middle ≤ 7
      → last ≤ 7
      → classify (top * 64 + middle * 8 + last) ≡ field_kind top middle last
  classify_fields ht hm hl =
      let a : (top * 64 + middle * 8 + last) / 64 ≡ top = omega arith in
      let b : (top * 64 + middle * 8 + last) / 8 % 8 ≡ middle = omega arith in
      let c : (top * 64 + middle * 8 + last) % 8 ≡ last = omega arith in
      classify-field_kind (top * 64 + middle * 8 + last) (omega arith) ∙ rw (a, b, c)

  pub classify_small_distance :
      top ≤ 3
      → middle + 2 * top ≤ 7
      → last ≤ 5
      → classify (top * 64 + middle * 8 + last) ≡ some small_distance
  unfolding field_kind
  classify_small_distance ht hm hl = classify_fields ht (omega arith) (omega arith) ∙ ground arith

  pub classify_large_distance :
      top ≤ 3
      → middle + 2 * top ≤ 7
      → last ≡ 7
      → classify (top * 64 + middle * 8 + last) ≡ some large_distance
  unfolding field_kind
  classify_large_distance ht hm hl = classify_fields ht (omega arith) (omega arith) ∙ ground arith

  pub classify_previous_distance :
      0 < top
      → top ≤ 3
      → middle + 2 * top ≤ 7
      → last ≡ 6
      → classify (top * 64 + middle * 8 + last) ≡ some previous_distance
  unfolding field_kind
  classify_previous_distance pos ht hm hl =
      classify_fields ht (omega arith) (omega arith) ∙ ground arith

-- `0xA0 | literal_len << 3 | high`
pub medium_opcode_sum :
    (literal_len high : ℕ)
    → literal_len ≤ 3
    → high ≤ 7
    → bit_or (bit_or 0xA0 (shl_u8 literal_len 3)) high ≡ 160 + literal_len * 8 + high
medium_opcode_sum literal_len high hl hh =
    let bits : shl_u8 literal_len 3 ≡ literal_len * 8 = omega arith in
    let both : bit_or 160 (literal_len * 8) ≡ (20 + literal_len) * 8 =
      bit_or-shifted 5 5 (literal_len * 8) (omega arith) ∙ omega arith in
    rw (bits, both) (bit_or-shifted 3 (20 + literal_len) high (omega arith) ∙ omega arith)

pub classify_medium_distance :
    (literal_len high : ℕ)
    → literal_len ≤ 3
    → high ≤ 7
    → classify (160 + literal_len * 8 + high) ≡ some medium_distance
unfolding field_kind
classify_medium_distance literal_len high hl hh =
    let regroup : 160 + literal_len * 8 + high ≡ 2 * 64 + (4 + literal_len) * 8 + high =
      omega arith in
    rw regroup (
      classify_fields 2 (4 + literal_len) high (omega arith) (omega arith) (omega arith)
      ∙ ground arith)

-- `first | len` for `first` 0xE0 or 0xF0.
pub chunk_sum : (n len : ℕ) → len ≤ 15 → bit_or (n * 16) len ≡ n * 16 + len
chunk_sum n len h = bit_or-shifted 4 n len (omega arith)

pub classify_small_literal :
    (len : ℕ) → 0 < len → len ≤ 15 → classify (224 + len) ≡ some small_literal
unfolding field_kind
classify_small_literal len pos h =
    let regroup : 224 + len ≡ 3 * 64 + (4 + len / 8) * 8 + len % 8 = omega arith in
    rw regroup (
      classify_fields 3 (4 + len / 8) (len % 8) (omega arith) (omega arith) (omega arith)
      ∙ ground arith)

pub classify_small_match : (len : ℕ) → 0 < len → len ≤ 15 → classify (240 + len) ≡ some small_match
unfolding field_kind
classify_small_match len pos h =
    let regroup : 240 + len ≡ 3 * 64 + (6 + len / 8) * 8 + len % 8 = omega arith in
    rw regroup (
      classify_fields 3 (6 + len / 8) (len % 8) (omega arith) (omega arith) (omega arith)
      ∙ ground arith)
