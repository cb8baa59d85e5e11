-- ===== src/Raw/Decode/Works.antt =====
-- Each arm of the decoder's match on any input whatever: it reads a byte at least, or returns an
-- error that the instruction deserves.
use lzvn.Base.{
  ℕ, suc, true, ◌+◌, ◌-◌, ◌≤◌, ◌<◌, ◌≡◌, refl, ap, ◌∙◌, ◌⊎◌, inl, inr, arith, Bytes, length, get_or,
  take, drop, length-drop, get_or-drop, ltb, Bool-cases, drop-drop, take-length, sym, false,
}
use lzvn.Error.{
  Error, Result, ok, Returns, index-eq-get_or, slice, truncated_input, invalid_match_distance,
  output_too_small, trailing_data, index,
}
use lzvn.Raw.Code.{Code, code_of, is_eos}
use lzvn.Raw.Refusal.{Excess}
use lzvn.Raw.Decode.{
  Decoder, copy_literal_only, copy_match_only, copy_literal_and_match, any_nonzero, finish, execute,
  max_eos_padding,
}
use lzvn.Raw.Opcode.{
  OpcodeKind, small_distance, medium_distance, large_distance, previous_distance, small_literal,
  large_literal, small_match, large_match, nop, eos,
}
use lzvn.Raw.Decode.Kept.{
  Inside, Kept, Kept-trans, perform_match_lem, literal_copied, require_input_cases,
  require_output_cases, validate_distance_cases,
}

-- Why an instruction of this code cannot be executed.
abbrev pub Blocks : Decoder → Code → Error → Type 0
Blocks d c (truncated_input position) =
    (position ≡ d.input) × (length d.src < d.input + (c.size + c.literal))
Blocks d c (invalid_match_distance distance available) =
    (d.input + (c.size + c.literal) ≤ length d.src)
    × (c.checked ≡ true)
    × (distance ≡ c.distance)
    × (available ≡ d.output + c.literal)
    × ((distance ≡ 0) ⊎ (available < distance))
    × (available ≤ length d.dst)
Blocks d c (output_too_small written total) =
    (d.input + (c.size + c.literal) ≤ length d.src)
    × (written ≡ d.output)
    × (total ≡ length d.dst)
    × (length d.dst < d.output + (c.literal + c.match))
Blocks d c _ = ⊥

-- An operation that reads at least a byte of its instruction.
abbrev pub Works : Decoder → (Error → Type 0) → Result Decoder → Type 0
Works d = Returns (λ d'. Kept d d' × (d.input < d'.input))

copy_literal_only-Works :
    (d : Decoder) (c : Code)
    → Inside d
    → 0 < c.size
    → c.match ≡ 0
    → Works d (Blocks d c) (copy_literal_only d c.size c.literal)
unfolding copy_literal_only
copy_literal_only-Works d c inside pos no_match =
    elim (require_input_cases d (c.size + c.literal) inside) [
      | inr (short, why) ↦ rw short (refl, omega arith)
      | inl (input_ok, input_h) ↦ elim (require_output_cases d c.literal inside) [
        | inr (small, why) ↦ rw (input_ok, small) (omega arith, refl, refl, omega arith)
        | inl (output_ok, output_h) ↦
            let (literal, dst', cut, copied, size, frame) =
              literal_copied d.src d.dst (d.input + c.size) d.output c.literal (omega arith)
                output_h in
            rw (input_ok, output_ok, cut, copied)
              (
                record {
                  src_is = refl;
                  room_is = size;
                  reads = omega arith;
                  within = omega arith;
                  writes = omega arith;
                  fits = output_h;
                  frame = frame;
                },
                omega arith,
              )
      ]
    ]

copy_match_only-Works :
    (d : Decoder) (c : Code)
    → Inside d
    → 0 < c.size
    → c.literal ≡ 0
    → c.checked ≡ true
    → Works d (Blocks d c) (copy_match_only d c.size c.match c.distance)
unfolding copy_match_only
copy_match_only-Works d c inside pos no_literal checked =
    elim (require_input_cases d c.size inside) [
      | inr (short, why) ↦ rw short (refl, omega arith)
      | inl (input_ok, input_h) ↦ elim (require_output_cases d c.match inside) [
        | inr (small, why) ↦ rw (input_ok, small) (omega arith, refl, refl, omega arith)
        | inl (output_ok, output_h) ↦ elim (validate_distance_cases c.distance d.output) [
          | inr (bad, why) ↦
              rw (input_ok, output_ok, bad)
                (omega arith, checked, refl, omega arith, why, omega arith)
          | inl (distance_ok, positive, back) ↦
              let moved = record d { input = d.input + c.size } in
              let (d', performed, kept, same) =
                perform_match_lem moved c.match c.distance (input_h, inside.1) positive back
                  output_h in
              rw (input_ok, output_ok, distance_ok, performed)
                (
                  record {
                    src_is = kept.src_is;
                    room_is = kept.room_is;
                    reads = omega (arith, kept.reads);
                    within = kept.within;
                    writes = kept.writes;
                    fits = kept.fits;
                    frame = kept.frame;
                  },
                  omega (arith, kept.reads),
                )
        ]
      ]
    ]

copy_literal_and_match-Works :
    (d : Decoder) (c : Code)
    → Inside d
    → 0 < c.size
    → c.checked ≡ true
    → Works d (Blocks d c) (copy_literal_and_match d c.size c.literal c.match c.distance)
unfolding copy_literal_and_match
copy_literal_and_match-Works d c inside pos checked =
    elim (require_input_cases d (c.size + c.literal) inside) [
      | inr (short, why) ↦ rw short (refl, omega arith)
      | inl (input_ok, input_h) ↦ elim (require_output_cases d (c.literal + c.match) inside) [
        | inr (small, why) ↦ rw (input_ok, small) (omega arith, refl, refl, omega arith)
        | inl (output_ok, output_h) ↦
            elim (validate_distance_cases c.distance (d.output + c.literal)) [
              | inr (bad, why) ↦
                  rw (input_ok, output_ok, bad) (omega arith, checked, refl, refl, why, omega arith)
              | inl (distance_ok, positive, back) ↦
                  let (literal, dst', cut, copied, size, frame) =
                    literal_copied d.src d.dst (d.input + c.size) d.output c.literal (omega arith)
                      (omega arith) in
                  let moved = record d {
                    dst = dst';
                    input = d.input + c.size + c.literal;
                    output = d.output + c.literal;
                  } in
                  let first : Kept d moved = record {
                    src_is = refl;
                    room_is = size;
                    reads = omega arith;
                    within = omega arith;
                    writes = omega arith;
                    fits = omega arith;
                    frame = frame;
                  } in
                  let (d', performed, kept, same) =
                    perform_match_lem moved c.match c.distance (omega arith, omega arith) positive
                      back (omega arith) in
                  rw (input_ok, output_ok, distance_ok, cut, copied, performed)
                    (Kept-trans d moved d' first kept, omega (arith, kept.reads))
            ]
      ]
    ]

-- A change of the input cursor alone.
pub moved-Kept :
    (d : Decoder) (input : ℕ)
    → Inside d
    → d.input ≤ input
    → input ≤ length d.src
    → Kept d (record d { input = input })
moved-Kept d input inside h k = record {
  src_is = refl;
  room_is = refl;
  reads = h;
  within = k;
  writes = omega arith;
  fits = inside.1;
  frame = λ j hj. refl;
}

-- The bytes of the source that are not read.
abbrev pub unread : Decoder → Bytes
unread d = drop d.input d.src

-- How the end marker is refused.
abbrev pub Ends : Decoder → Error → Type 0
Ends d (trailing_data remaining) = Excess (drop 1 (unread d)) remaining
Ends d _ = ⊥

pub finish-Works : (d : Decoder) → Inside d → d.input < length d.src → Works d (Ends d) (finish d)
unfolding finish
finish-Works d inside some_left = elim (require_input_cases d 1 inside) [
  | inr (short, why) ↦ absurd (omega arith)
  | inl (input_ok, input_h) ↦
      let padding : Bytes = drop 1 (unread d) in
      let rest : Bytes = drop (d.input + 1) d.src in
      let same : padding ≡ rest = drop-drop d.src d.input 1 in
      let whole : take (length d.src - (d.input + 1)) rest ≡ padding =
        take-length (length d.src - (d.input + 1)) rest
          (omega (arith, length-drop {0} (d.input + 1) d.src))
        ∙ sym same in
      let cut : slice d.src (d.input + 1) (length d.src) ≡ ok padding = ground (arith, whole) in
      elim (Bool-cases (any_nonzero padding)) [
        | inl other ↦ rw (input_ok, cut, other) (inl (other, refl))
        | inr clear ↦ elim (Bool-cases (ltb max_eos_padding (length padding))) [
          | inl long ↦ rw (input_ok, cut, clear, long) (inr (clear, ground arith, refl))
          | inr fits ↦
              rw (input_ok, cut, clear, fits)
                (moved-Kept d (length d.src) inside inside.0 (omega arith), omega arith)
        ]
      ]
]

nth_byte :
    (d : Decoder) (n : ℕ)
    → d.input + suc n ≤ length d.src
    → index d.src (d.input + n) ≡ ok (get_or (unread d) n 0)
nth_byte d n h =
    index-eq-get_or d.src (d.input + n) (omega arith) ∙ ap ok (sym (get_or-drop d.src d.input n 0))

abbrev pub code_here : OpcodeKind → ℕ → Decoder → Code
code_here kind opcode d = code_of kind opcode (unread d) d.previous_distance

pub execute-Works :
    (kind : OpcodeKind) (opcode : ℕ) (d : Decoder)
    → Inside d
    → is_eos kind ≡ false
    → Works d (Blocks d (code_here kind opcode d)) (execute kind opcode d)
unfolding execute code_of
execute-Works small_distance opcode d inside other = elim (require_input_cases d 2 inside) [
  | inr (short, why) ↦ rw short (refl, omega arith)
  | inl (input_ok, h) ↦
      rw (input_ok, nth_byte d 1 h)
        (copy_literal_and_match-Works d (code_here small_distance opcode d) inside (omega arith)
          refl)
]
execute-Works medium_distance opcode d inside other = elim (require_input_cases d 3 inside) [
  | inr (short, why) ↦ rw short (refl, omega arith)
  | inl (input_ok, h) ↦
      rw (input_ok, nth_byte d 1 (omega arith), nth_byte d 2 h)
        (copy_literal_and_match-Works d (code_here medium_distance opcode d) inside (omega arith)
          refl)
]
execute-Works large_distance opcode d inside other = elim (require_input_cases d 3 inside) [
  | inr (short, why) ↦ rw short (refl, omega arith)
  | inl (input_ok, h) ↦
      rw (input_ok, nth_byte d 1 (omega arith), nth_byte d 2 h)
        (copy_literal_and_match-Works d (code_here large_distance opcode d) inside (omega arith)
          refl)
]
execute-Works previous_distance opcode d inside other =
    copy_literal_and_match-Works d (code_here previous_distance opcode d) inside (omega arith) refl
execute-Works small_literal opcode d inside other =
    copy_literal_only-Works d (code_here small_literal opcode d) inside (omega arith) refl
execute-Works large_literal opcode d inside other = elim (require_input_cases d 2 inside) [
  | inr (short, why) ↦ rw short (refl, omega arith)
  | inl (input_ok, h) ↦
      rw (input_ok, nth_byte d 1 h)
        (copy_literal_only-Works d (code_here large_literal opcode d) inside (omega arith) refl)
]
execute-Works small_match opcode d inside other =
    copy_match_only-Works d (code_here small_match opcode d) inside (omega arith) refl refl
execute-Works large_match opcode d inside other = elim (require_input_cases d 2 inside) [
  | inr (short, why) ↦ rw short (refl, omega arith)
  | inl (input_ok, h) ↦
      rw (input_ok, nth_byte d 1 h)
        (copy_match_only-Works d (code_here large_match opcode d) inside (omega arith) refl refl)
]
execute-Works nop opcode d inside other = elim (require_input_cases d 1 inside) [
  | inr (short, why) ↦ rw short (refl, omega arith)
  | inl (input_ok, h) ↦ rw input_ok (moved-Kept d (d.input + 1) inside (omega arith) h, omega arith)
]
execute-Works eos opcode d inside other = absurd cc
