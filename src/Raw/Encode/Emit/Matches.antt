-- ===== src/Raw/Encode/Emit/Matches.antt =====
-- The four writers of a match with literals: what they write, read back by the decoder.
use lzvn.Base.{
  ℕ, ◌+◌, ◌-◌, ◌*◌, ◌/◌, ◌%◌, ◌^◌, ◌≤◌, ◌<◌, bit_or, ◌≡◌, refl, true, ◌∷◌, ◌++◌, append_assoc,
  arith, Bytes, length, take, drop, length-append, length-take, length-drop, take-append-drop, leb,
  ltb, ◌==◌, not, ◌&&◌,
}
use lzvn.Base.Bits.{bit_and_three, bit_or-shifted}
use lzvn.Error.{Result, ok, checked_sub}
use lzvn.Raw.Format.{copy_match, length-copy_match}
use lzvn.Raw.Decode.View.{at}
use lzvn.Raw.Decode.{step, next}
use lzvn.Raw.Decode.Steps.{
  step-small_distance, step-medium_distance, step-large_distance, step-previous_distance,
}
use lzvn.Raw.Decode.Segment.{Segment, Segment-one}
use lzvn.Raw.Encode.{Encoder, min_match_len, max_short_distance}
use lzvn.Raw.Encode.Emit.{
  append, max_short_match, assert_short_match, max_medium_distance, max_medium_match,
  emit_small_distance, emit_medium_distance, emit_large_distance, emit_previous_distance,
}
use lzvn.Raw.Encode.Emit.Codes.{
  opcode_sum, medium_opcode_sum, classify_small_distance, classify_large_distance,
  classify_previous_distance, classify_medium_distance,
}

-- The writer `r` returns and appends `code`, which the decoder reads back as `literals` and a match.
pub record WritesMatch (r : Result Encoder) (e : Encoder) (literals : Bytes)
    (match_len distance : ℕ) (out : Bytes) : Type 0 where
  pub code : Bytes
  pub written : r ≡ ok (append e code)
  pub segment :
      Segment code out e.previous_distance
        (copy_match match_len distance (out ++ literals))
        distance

-- An instruction whose literals and match fill two parts of the free room.
Segment-match :
    (code literals out : Bytes) (previous match_len distance : ℕ)
    → 0 < length code
    → ((pre todo hole hole' room : Bytes)
        → length hole ≡ length literals
        → length hole' ≡ match_len
        → step (at pre (code ++ todo) out (hole ++ (hole' ++ room)) previous)
          ≡ ok (
              next (
                at
                  (pre ++ code)
                  todo
                  (copy_match match_len distance (out ++ literals))
                  room
                  distance)))
    → Segment code out previous (copy_match match_len distance (out ++ literals)) distance
Segment-match code literals out previous match_len distance h steps =
    let grown = length-copy_match match_len distance (out ++ literals) in
    let joined = length-append out literals in
    Segment-one code out previous (copy_match match_len distance (out ++ literals)) distance h
      (omega (arith, grown, joined))
      (λ pre todo hole room e.
        let n = length literals in
        let split : hole ++ room ≡ take n hole ++ (drop n hole ++ room) =
          rw (← append_assoc (take n hole) (drop n hole) room, take-append-drop n hole) in
        rw split (
          steps pre todo (take n hole) (drop n hole) room
            (omega (arith, length-take {0} n hole, grown, joined))
            (omega (arith, length-drop {0} n hole, grown, joined))))

assert_short_match_ok :
    (literal_len match_len : ℕ)
    → 3 ≤ match_len
    → match_len + 2 * literal_len ≤ 10
    → assert_short_match literal_len match_len ≡ ok tt
unfolding assert_short_match max_short_match
assert_short_match_ok literal_len match_len lo hi = ground arith

module _ (e : Encoder) (literals : Bytes) (match_len distance : ℕ) (out : Bytes)
    (inline : length literals ≤ 3) (lo : 3 ≤ match_len) (pos : 0 < distance)
    (fits : distance ≤ length out + length literals) where
  extra_ok : checked_sub match_len min_match_len ≡ ok (match_len - 3)
  extra_ok = ground arith

  pub emit_small_distance-WritesMatch :
      match_len + 2 * length literals ≤ 10
      → distance < max_short_distance
      → WritesMatch
          (emit_small_distance e literals match_len distance)
          e
          literals
          match_len
          distance
          out
  unfolding emit_small_distance
  emit_small_distance-WritesMatch hi short =
      let top = length literals in
      let middle = match_len - 3 in
      let opcode = top * 64 + middle * 8 + distance / 256 in
      let near : ltb distance 0x600 ≡ true = ground arith in
      let high : distance / 2 ^ 8 % 256 ≡ distance / 256 = omega arith in
      let sum = opcode_sum top middle (distance / 256) inline (omega arith) (omega arith) in
      record {
        code = opcode ∷ distance % 256 ∷ literals;
        written = rw (near, assert_short_match_ok top match_len lo hi, extra_ok, high, sum);
        segment =
            Segment-match (opcode ∷ distance % 256 ∷ literals) literals out e.previous_distance
              match_len distance (omega arith)
              (λ pre todo hole hole' room hh hh'.
                step-small_distance pre literals todo out hole hole' room e.previous_distance
                  match_len distance hh hh' pos fits opcode (distance % 256)
                  (classify_small_distance top middle (distance / 256) inline (omega arith)
                    (omega arith))
                  (omega arith) (omega arith) (omega arith) (omega arith));
      }

  pub emit_large_distance-WritesMatch :
      match_len + 2 * length literals ≤ 10
      → distance < 2 ^ 16
      → WritesMatch
          (emit_large_distance e literals match_len distance)
          e
          literals
          match_len
          distance
          out
  unfolding emit_large_distance
  emit_large_distance-WritesMatch hi wide =
      let top = length literals in
      let middle = match_len - 3 in
      let opcode = top * 64 + middle * 8 + 7 in
      let sum = opcode_sum top middle 7 inline (omega arith) (omega arith) in
      let code : Bytes = opcode ∷ distance % 2 ^ 16 % 256 ∷ distance % 2 ^ 16 / 256 ∷ literals in
      record {
        code = code;
        written = rw (assert_short_match_ok top match_len lo hi, extra_ok, sum);
        segment =
            Segment-match code literals out e.previous_distance match_len distance (omega arith)
              (λ pre todo hole hole' room hh hh'.
                step-large_distance pre literals todo out hole hole' room e.previous_distance
                  match_len distance hh hh' pos fits opcode (distance % 2 ^ 16 % 256)
                  (distance % 2 ^ 16 / 256)
                  (classify_large_distance top middle 7 inline (omega arith) refl) (omega arith)
                  (omega arith) (omega arith));
      }

  pub emit_previous_distance-WritesMatch :
      match_len + 2 * length literals ≤ 10
      → 0 < length literals
      → e.previous_distance ≡ distance
      → WritesMatch (emit_previous_distance e literals match_len) e literals match_len distance out
  unfolding emit_previous_distance
  emit_previous_distance-WritesMatch hi some_literal same =
      let top = length literals in
      let middle = match_len - 3 in
      let opcode = top * 64 + middle * 8 + 6 in
      let sum = opcode_sum top middle 6 inline (omega arith) (omega arith) in
      let set_before : not (e.previous_distance == 0) ≡ true = ground arith in
      record {
        code = opcode ∷ literals;
        written = rw (set_before, assert_short_match_ok top match_len lo hi, extra_ok, sum);
        segment =
            Segment-match (opcode ∷ literals) literals out e.previous_distance match_len distance
              (omega arith)
              (λ pre todo hole hole' room hh hh'. rw same (
                step-previous_distance pre literals todo out hole hole' room distance match_len
                  distance hh hh' pos fits opcode
                  (classify_previous_distance top middle 6 some_literal inline (omega arith) refl)
                  (omega arith) (omega arith)));
      }

  pub emit_medium_distance-WritesMatch :
      match_len ≤ max_medium_match
      → distance ≤ max_medium_distance
      → WritesMatch
          (emit_medium_distance e literals match_len distance)
          e
          literals
          match_len
          distance
          out
  unfolding emit_medium_distance
  emit_medium_distance-WritesMatch hi near =
      let extra = match_len - 3 in
      let opcode = 160 + length literals * 8 + extra / 4 in
      let packed = distance * 4 + extra % 4 in
      let code : Bytes = opcode ∷ packed % 256 ∷ packed / 256 ∷ literals in
      let in_reach : leb distance 0x3FFF ≡ true = ground arith in
      let in_range : (leb 3 match_len && leb match_len 34) ≡ true = ground arith in
      let small : extra % 256 ≡ extra = omega arith in
      let sum = medium_opcode_sum (length literals) (extra / 4) inline (omega arith) in
      let shifted : distance % 2 ^ 16 * 2 ^ 2 % 2 ^ 16 ≡ distance * 4 = omega arith in
      let packing : bit_or (distance * 4) (extra % 4) ≡ packed =
        bit_or-shifted 2 distance (extra % 4) (omega arith) in
      record {
        code = code;
        written = rw (in_reach, in_range, extra_ok, small, sum, shifted, bit_and_three, packing);
        segment =
            Segment-match code literals out e.previous_distance match_len distance (omega arith)
              (λ pre todo hole hole' room hh hh'.
                step-medium_distance pre literals todo out hole hole' room e.previous_distance
                  match_len distance hh hh' pos fits opcode (packed % 256) (packed / 256)
                  (classify_medium_distance (length literals) (extra / 4) inline (omega arith))
                  (omega arith) (omega arith) (omega arith) (omega arith));
      }
