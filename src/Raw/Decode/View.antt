-- ===== src/Raw/Decode/View.antt =====
-- The decoder's two slices as lists cut at the cursors, and its copying operations in that view.
use lzvn.Base.{
  ℕ, ◌+◌, ◌-◌, ◌≤◌, ◌<◌, ◌≡◌, refl, sym, ap, ◌∙◌, [], ◌∷◌, ◌++◌, append_assoc, arith, Bytes, length,
  length-append, get_or, get_or-append_left, ltb, le→ltb, ◌==◌, ◌||◌, false, set, set-append,
}
use lzvn.Error.{
  ok, index, index-eq-get_or, reject_if, slice, slice-append, truncated_input, output_too_small,
  copy_from_slice-append, store, checked_sub,
}
use lzvn.Raw.Format.{copy_match, length-copy_match}
use lzvn.Raw.Decode.{
  Decoder, require_input, require_output, validate_distance, match_loop, perform_match,
  copy_literal_only, copy_match_only, copy_literal_and_match,
}

-- `pre` is read, `todo` is not; `out` is written, `room` is free.
abbrev pub at : Bytes → Bytes → Bytes → Bytes → ℕ → Decoder
at pre todo out room previous = record {
  src = pre ++ todo;
  dst = out ++ room;
  input = length pre;
  output = length out;
  previous_distance = previous;
}

-- A match whose distance fits the output is copied into the free bytes behind it as `copy_match` says,
-- and the bytes behind those are kept.
pub match_loop-append :
    (hole : Bytes) (start i distance : ℕ) (out room : Bytes)
    → start + i ≡ length out
    → 0 < distance
    → distance ≤ length out
    → match_loop (length hole) start i distance (out ++ (hole ++ room))
      ≡ ok (copy_match (length hole) distance out ++ room)
unfolding match_loop copy_match
match_loop-append [] start i distance out room h pos fits = refl
match_loop-append (free ∷ hole) start i distance out room h pos fits =
    let byte = get_or out (length out - distance) 0 in
    let at_end : length out - distance ≡ start + i - distance = omega arith in
    let fetched : index (out ++ ((free ∷ hole) ++ room)) (start + i - distance) ≡ ok byte =
      index-eq-get_or _ (start + i - distance)
        (omega (arith, length-append {0} out ((free ∷ hole) ++ room)))
      ∙ ap ok (rw (← at_end) (get_or-append_left out _ (length out - distance) 0 (omega arith))) in
    let sub : checked_sub (start + i) distance ≡ ok (start + i - distance) = ground arith in
    let inside : start + i < length (out ++ ((free ∷ hole) ++ room)) =
      omega (arith, length-append {0} out ((free ∷ hole) ++ room)) in
    let written : set (out ++ ((free ∷ hole) ++ room)) (start + i) byte
        ≡ (out ++ (byte ∷ [])) ++ (hole ++ room) =
      set-append out (hole ++ room) free byte (start + i) h
      ∙ sym (append_assoc out (byte ∷ []) (hole ++ room)) in
    let stored : store (out ++ ((free ∷ hole) ++ room)) (start + i) byte
        ≡ ok ((out ++ (byte ∷ [])) ++ (hole ++ room)) =
      ground (arith, written) in
    rw (sub, fetched, stored)
      (match_loop-append hole start (i + 1) distance (out ++ (byte ∷ [])) room
        (omega (arith, length-append {0} out (byte ∷ []))) pos
        (omega (arith, length-append {0} out (byte ∷ []))))

pub perform_match-at :
    (pre todo out hole room : Bytes) (previous match_len distance : ℕ)
    → length hole ≡ match_len
    → 0 < distance
    → distance ≤ length out
    → perform_match (at pre todo out (hole ++ room) previous) match_len distance
      ≡ ok (at pre todo (copy_match match_len distance out) room distance)
unfolding perform_match
perform_match-at pre todo out hole room previous match_len distance h pos fits =
    let looped : match_loop match_len (length out) 0 distance (out ++ (hole ++ room))
        ≡ ok (copy_match match_len distance out ++ room) =
      rw (← h) (match_loop-append hole (length out) 0 distance out room (omega arith) pos fits) in
    rw looped (ground (arith, length-copy_match match_len distance out))

pub require_input-at :
    (pre todo out room : Bytes) (previous needed : ℕ)
    → require_input (at pre todo out room previous) needed
      ≡ reject_if (ltb (length todo) needed) (truncated_input (length pre))
unfolding require_input
require_input-at pre todo out room previous needed =
    let left : length (pre ++ todo) - length pre ≡ length todo =
      omega (arith, length-append {0} pre todo) in
    rw left

pub require_output-at :
    (pre todo out room : Bytes) (previous needed : ℕ)
    → require_output (at pre todo out room previous) needed
      ≡ reject_if
          (ltb (length room) needed)
          (output_too_small (length out) (length out + length room))
unfolding require_output
require_output-at pre todo out room previous needed =
    let left : length (out ++ room) - length out ≡ length room =
      omega (arith, length-append {0} out room) in
    rw (left, length-append out room)

pub require_input_ok :
    (pre todo out room : Bytes) (previous needed : ℕ)
    → needed ≤ length todo
    → require_input (at pre todo out room previous) needed ≡ ok tt
require_input_ok pre todo out room previous needed h =
    let enough : ltb (length todo) needed ≡ false = le→ltb _ _ h in rw (require_input-at, enough)

-- The literal of an instruction, cut out of the source.
literal_slice :
    (pre code literal todo : Bytes) (start end : ℕ)
    → start ≡ length pre + length code
    → end ≡ start + length literal
    → slice (pre ++ (code ++ (literal ++ todo))) start end ≡ ok literal
literal_slice pre code literal todo start end hs he =
    rw (← append_assoc pre code (literal ++ todo)) (
      slice-append (pre ++ code) literal todo start end (omega (arith, length-append {0} pre code))
        he)

pub copy_literal_only-at :
    (pre code literal todo out hole room : Bytes) (previous opcode_len literal_len : ℕ)
    → length code ≡ opcode_len
    → length literal ≡ literal_len
    → length hole ≡ literal_len
    → copy_literal_only
        (at pre (code ++ (literal ++ todo)) out (hole ++ room) previous)
        opcode_len
        literal_len
      ≡ ok (at (pre ++ (code ++ literal)) todo (out ++ literal) room previous)
unfolding copy_literal_only
copy_literal_only-at pre code literal todo out hole room previous opcode_len literal_len hc hl hh =
    let enough_input : ltb (length (code ++ (literal ++ todo))) (opcode_len + literal_len) ≡ false =
      le→ltb _ _
        (omega (arith, length-append {0} code (literal ++ todo), length-append {0} literal todo)) in
    let enough_output : ltb (length (hole ++ room)) literal_len ≡ false =
      le→ltb _ _ (omega (arith, length-append {0} hole room)) in
    let cut =
      literal_slice pre code literal todo (length pre + opcode_len)
        (length pre + opcode_len + literal_len) (omega arith) (omega arith) in
    let copied = copy_from_slice-append out hole room literal (length out) refl (omega arith) in
    rw (require_input-at, enough_input, require_output-at, enough_output, cut, copied)
      (ground (
        arith,
        append_assoc out literal room,
        append_assoc pre (code ++ literal) todo,
        append_assoc code literal todo,
        length-append {0} pre (code ++ literal),
        length-append {0} code literal,
        length-append {0} out literal,
      ))

pub copy_match_only-at :
    (pre code todo out hole room : Bytes) (previous opcode_len match_len distance : ℕ)
    → length code ≡ opcode_len
    → length hole ≡ match_len
    → 0 < distance
    → distance ≤ length out
    → copy_match_only
        (at pre (code ++ todo) out (hole ++ room) previous)
        opcode_len
        match_len
        distance
      ≡ ok (at (pre ++ code) todo (copy_match match_len distance out) room distance)
unfolding copy_match_only validate_distance
copy_match_only-at pre code todo out hole room previous opcode_len match_len distance hc hh pos
      fits =
    let enough_input : ltb (length (code ++ todo)) opcode_len ≡ false =
      le→ltb _ _ (omega (arith, length-append {0} code todo)) in
    let enough_output : ltb (length (hole ++ room)) match_len ≡ false =
      le→ltb _ _ (omega (arith, length-append {0} hole room)) in
    let valid : (distance == 0 || ltb (length out) distance) ≡ false = ground arith in
    let moved : record {
      src = pre ++ (code ++ todo);
      dst = out ++ (hole ++ room);
      input = length pre + opcode_len;
      output = length out;
      previous_distance = previous;
    }
        ≡ at (pre ++ code) todo out (hole ++ room) previous =
      ground (arith, append_assoc pre code todo, length-append {0} pre code) in
    rw (require_input-at, enough_input, require_output-at, enough_output, valid, moved)
      (perform_match-at (pre ++ code) todo out hole room previous match_len distance hh pos fits)

pub copy_literal_and_match-at :
    (pre code literal todo out hole hole' room : Bytes)
    (previous opcode_len literal_len match_len distance : ℕ)
    → length code ≡ opcode_len
    → length literal ≡ literal_len
    → length hole ≡ literal_len
    → length hole' ≡ match_len
    → 0 < distance
    → distance ≤ length out + literal_len
    → copy_literal_and_match
        (at pre (code ++ (literal ++ todo)) out (hole ++ (hole' ++ room)) previous)
        opcode_len
        literal_len
        match_len
        distance
      ≡ ok (
          at
            (pre ++ (code ++ literal))
            todo
            (copy_match match_len distance (out ++ literal))
            room
            distance)
unfolding copy_literal_and_match validate_distance
copy_literal_and_match-at pre code literal todo out hole hole' room previous opcode_len literal_len
      match_len distance hc hl hh hh' pos fits =
    let enough_input : ltb (length (code ++ (literal ++ todo))) (opcode_len + literal_len) ≡ false =
      le→ltb _ _
        (omega (arith, length-append {0} code (literal ++ todo), length-append {0} literal todo)) in
    let enough_output : ltb (length (hole ++ (hole' ++ room))) (literal_len + match_len) ≡ false =
      le→ltb _ _
        (omega (arith, length-append {0} hole (hole' ++ room), length-append {0} hole' room)) in
    let valid : (distance == 0 || ltb (length out + literal_len) distance) ≡ false = ground arith in
    let cut =
      literal_slice pre code literal todo (length pre + opcode_len)
        (length pre + opcode_len + literal_len) (omega arith) (omega arith) in
    let copied =
      copy_from_slice-append out hole (hole' ++ room) literal (length out) refl (omega arith) in
    let moved : record {
      src = pre ++ (code ++ (literal ++ todo));
      dst = out ++ (literal ++ (hole' ++ room));
      input = length pre + opcode_len + literal_len;
      output = length out + literal_len;
      previous_distance = previous;
    }
        ≡ at (pre ++ (code ++ literal)) todo (out ++ literal) (hole' ++ room) previous =
      ground (
        arith,
        append_assoc out literal (hole' ++ room),
        append_assoc pre (code ++ literal) todo,
        append_assoc code literal todo,
        length-append {0} pre (code ++ literal),
        length-append {0} code literal,
        length-append {0} out literal,
      ) in
    rw (require_input-at, enough_input, require_output-at, enough_output, valid, cut, copied, moved)
      (perform_match-at (pre ++ (code ++ literal)) todo (out ++ literal) hole' room previous
        match_len distance hh' pos (omega (arith, length-append {0} out literal)))
