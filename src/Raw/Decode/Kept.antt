-- ===== src/Raw/Decode/Kept.antt =====
-- What the operations of the decoder keep, on any input whatever: no index is out of range, an
-- error is one that the instruction deserves, and nothing behind the output is written.
use lzvn.Base.{
  ℕ, zero, suc, ◌+◌, ◌-◌, ◌≤◌, ◌<◌, ◌≡◌, refl, ap, ◌∙◌, ◌⊎◌, inl, inr, ◌++◌, arith, Bytes, length,
  get_or, take, drop, set, length-append, length-take, length-drop, length-set, get_or-append_right,
  get_or-set_ne, get_or-drop, ltb, ◌==◌, ◌||◌, Bool-cases,
}
use lzvn.Error.{
  Error, ok, err, index-eq-get_or, slice, store, checked_sub, copy_from_slice, truncated_input,
  invalid_match_distance, output_too_small,
}
use lzvn.Raw.Refusal.{Refused}
use lzvn.Raw.Decode.{
  Decoder, step, next, start, require_input, require_output, validate_distance, match_loop,
  perform_match,
}

-- The bytes before the match fit the buffer.
abbrev pub IsWithin : ℕ → Error → Type 0
IsWithin capacity (invalid_match_distance distance available) = available ≤ capacity
IsWithin capacity _ = Unit {0}

abbrev pub Inside : Decoder → Type 0
Inside d = (d.input ≤ length d.src) × (d.output ≤ length d.dst)

-- What every operation keeps of the decoder.
pub record Kept (d d' : Decoder) : Type 0 where
  pub src_is : d'.src ≡ d.src
  pub room_is : length d'.dst ≡ length d.dst
  pub reads : d.input ≤ d'.input
  pub within : d'.input ≤ length d.src
  pub writes : d.output ≤ d'.output
  pub fits : d'.output ≤ length d.dst
  pub frame : (j : ℕ) → d'.output ≤ j → get_or d'.dst j 0 ≡ get_or d.dst j 0

-- Rounds of the loop lead from one state to another.
pub data Leads : Decoder → Decoder → Type 0 where
  here : (d : Decoder) → Leads d d
  there : (d d' d'' : Decoder) → step d ≡ ok (next d') → Leads d' d'' → Leads d d''

-- The loop gets from `d` to an instruction that is refused with the error.
abbrev pub FailsAfter : Decoder → Error → Type 0
FailsAfter d e =
    (d' : Decoder) × Leads d d'
    × Kept d d'
    × Refused d'.input (drop d'.input d'.src) d'.previous_distance d'.output (length d'.dst) e
    × IsWithin (length d'.dst) e

abbrev pub IsTrueError : Bytes → Bytes → Error → Type 0
IsTrueError src dst = FailsAfter (start src dst)

pub Kept-trans : (d d' d'' : Decoder) → Kept d d' → Kept d' d'' → Kept d d''
Kept-trans d d' d'' k l = record {
  src_is = l.src_is ∙ k.src_is;
  room_is = l.room_is ∙ k.room_is;
  reads = omega (arith, k.reads, l.reads);
  within = omega (arith, l.within, ap length k.src_is);
  writes = omega (arith, k.writes, l.writes);
  fits = omega (arith, l.fits, k.room_is);
  frame = λ j h. l.frame j h ∙ k.frame j (omega (arith, l.writes));
}

pub match_loop_lem :
    (rounds first i distance : ℕ) (dst : Bytes)
    → 0 < distance
    → distance ≤ first + i
    → first + i + rounds ≤ length dst
    → (dst' : Bytes) × (match_loop rounds first i distance dst ≡ ok dst')
      × (length dst' ≡ length dst)
      × ((j : ℕ) → first + i + rounds ≤ j → get_or dst' j 0 ≡ get_or dst j 0)
unfolding match_loop
match_loop_lem zero first i distance dst pos back h = (dst, refl, refl, λ j hj. refl)
match_loop_lem (suc rounds) first i distance dst pos back h =
    let byte = get_or dst (first + i - distance) 0 in
    let dst' : Bytes = set dst (first + i) byte in
    let size = length-set dst (first + i) byte in
    let sub : checked_sub (first + i) distance ≡ ok (first + i - distance) = ground arith in
    let fetched = index-eq-get_or dst (first + i - distance) (omega arith) in
    let stored : store dst (first + i) byte ≡ ok dst' = ground arith in
    let (dst'', looped, room_is, frame) =
      match_loop_lem rounds first (i + 1) distance dst' pos (omega arith) (omega arith) in
    (
      dst'',
      rw (sub, fetched, stored) looped,
      room_is ∙ size,
      λ j hj. frame j (omega arith) ∙ get_or-set_ne dst (first + i) j byte 0 (omega arith),
    )

pub perform_match_lem :
    (d : Decoder) (match_len distance : ℕ)
    → Inside d
    → 0 < distance
    → distance ≤ d.output
    → d.output + match_len ≤ length d.dst
    → (d' : Decoder) × (perform_match d match_len distance ≡ ok d')
      × Kept d d'
      × (d.input ≡ d'.input)
unfolding perform_match
perform_match_lem d match_len distance inside pos back h =
    let (dst', looped, room_is, frame) =
      match_loop_lem match_len d.output 0 distance d.dst pos (omega arith) (omega arith) in
    (
      record d { dst = dst'; output = d.output + match_len; previous_distance = distance },
      rw looped,
      record {
        src_is = refl;
        room_is = room_is;
        reads = omega arith;
        within = inside.0;
        writes = omega arith;
        fits = h;
        frame = λ j hj. frame j (omega arith);
      },
      refl,
    )

-- The literal part of an instruction.
pub literal_copied :
    (src dst : Bytes) (first output literal_len : ℕ)
    → first + literal_len ≤ length src
    → output + literal_len ≤ length dst
    → (literal dst' : Bytes) × (slice src first (first + literal_len) ≡ ok literal)
      × (copy_from_slice dst output literal ≡ ok dst')
      × (length dst' ≡ length dst)
      × ((j : ℕ) → output + literal_len ≤ j → get_or dst' j 0 ≡ get_or dst j 0)
literal_copied src dst first output literal_len h k =
    let literal : Bytes = take (first + literal_len - first) (drop first src) in
    let size : length literal ≡ literal_len = omega (
      arith,
      length-take {0} (first + literal_len - first) (drop first src),
      length-drop {0} first src,
    ) in
    let front : Bytes = take output dst in
    let back : Bytes = drop (output + length literal) dst in
    let front_size : length front ≡ output = omega (arith, length-take {0} output dst) in
    let total : length (front ++ (literal ++ back)) ≡ length dst = omega (
      arith,
      length-append {0} front (literal ++ back),
      length-append {0} literal back,
      front_size,
      size,
      length-drop {0} (output + length literal) dst,
    ) in
    (
      literal,
      front ++ (literal ++ back),
      ground arith,
      ground (arith, size),
      total,
      λ j hj.
          let i = j - (output + length literal) in
          let there : output + length literal + i ≡ j = omega arith in
          get_or-append_right front (literal ++ back) j (length literal + i) 0 (omega arith)
          ∙ get_or-append_right literal back (length literal + i) i 0 refl
          ∙ get_or-drop dst (output + length literal) i 0
          ∙ ap (λ n. get_or dst n 0) there,
    )

-- The check functions, by their outcomes.
pub require_input_cases :
    (d : Decoder) (needed : ℕ)
    → Inside d
    → ((require_input d needed ≡ ok tt) × (d.input + needed ≤ length d.src))
      ⊎ ((require_input d needed ≡ err (truncated_input d.input))
          × (length d.src < d.input + needed))
unfolding require_input
require_input_cases d needed inside = elim (Bool-cases (ltb (length d.src - d.input) needed)) [
  | inl short ↦ inr (rw short, ground arith)
  | inr enough ↦ inl (rw enough, ground arith)
]

pub require_output_cases :
    (d : Decoder) (needed : ℕ)
    → Inside d
    → ((require_output d needed ≡ ok tt) × (d.output + needed ≤ length d.dst))
      ⊎ ((require_output d needed ≡ err (output_too_small d.output (length d.dst)))
          × (length d.dst < d.output + needed))
unfolding require_output
require_output_cases d needed inside = elim (Bool-cases (ltb (length d.dst - d.output) needed)) [
  | inl short ↦ inr (rw short, ground arith)
  | inr enough ↦ inl (rw enough, ground arith)
]

pub validate_distance_cases :
    (distance available : ℕ)
    → ((validate_distance distance available ≡ ok tt) × (0 < distance) × (distance ≤ available))
      ⊎ ((validate_distance distance available ≡ err (invalid_match_distance distance available))
          × ((distance ≡ 0) ⊎ (available < distance)))
unfolding validate_distance
validate_distance_cases distance available =
    elim (Bool-cases (distance == 0 || ltb available distance)) [
      | inl bad ↦ inr (rw bad, ground arith)
      | inr good ↦ inl (rw good, ground arith, ground arith)
    ]
