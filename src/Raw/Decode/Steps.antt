-- ===== src/Raw/Decode/Steps.antt =====
-- What one round of the decoder's loop does with each kind of instruction, in plain arithmetic.
use lzvn.Base.{
  ℕ, suc, ◌+◌, ◌*◌, ◌/◌, ◌%◌, ◌≤◌, ◌<◌, ◌≡◌, refl, sym, ◌∙◌, [], ◌∷◌, ◌++◌, some, bit_and, bit_or,
  arith, Bytes, length, IsByte, get_elem?,
}
use lzvn.Base.Bits.{
  bit_and_three, bit_and_seven, bit_and_fifteen, bit_or-shifted, bit_or-shifted_right,
}
use lzvn.Error.{ok, index}
use lzvn.Raw.Format.{copy_match}
use lzvn.Raw.Opcode.{
  OpcodeKind, classify, small_distance, medium_distance, large_distance, previous_distance,
  small_literal, large_literal, small_match, large_match,
}
use lzvn.Raw.Decode.{Decoder, byte_at, dispatch, execute, step, control, next}
use lzvn.Raw.Decode.View.{
  at, require_input_ok, copy_literal_only-at, copy_match_only-at, copy_literal_and_match-at,
}

get_elem?-append :
    (pre : Bytes) (byte : ℕ) (todo : Bytes)
    → get_elem? (pre ++ (byte ∷ todo)) (length pre) ≡ some byte
get_elem?-append [] byte todo = refl
get_elem?-append (x ∷ pre) byte todo = get_elem?-append pre byte todo

index_second :
    (pre : Bytes) (first second : ℕ) (todo : Bytes)
    → index (pre ++ (first ∷ second ∷ todo)) (length pre + 1) ≡ ok second
index_second [] first second todo = refl
index_second (x ∷ pre) first second todo =
    let shift : suc (length pre) + 1 ≡ suc (length pre + 1) = omega arith in
    rw shift (index_second pre first second todo)

index_third :
    (pre : Bytes) (first second third : ℕ) (todo : Bytes)
    → index (pre ++ (first ∷ second ∷ third ∷ todo)) (length pre + 2) ≡ ok third
index_third [] first second third todo = refl
index_third (x ∷ pre) first second third todo =
    let shift : suc (length pre) + 2 ≡ suc (length pre + 2) = omega arith in
    rw shift (index_third pre first second third todo)

pub step-at :
    (pre : Bytes) (opcode : ℕ) (todo out room : Bytes) (previous : ℕ) (kind : OpcodeKind)
    {d : Decoder}
    → classify opcode ≡ some kind
    → execute kind opcode (at pre (opcode ∷ todo) out room previous) ≡ ok d
    → step (at pre (opcode ∷ todo) out room previous) ≡ ok (control kind d)
unfolding step byte_at dispatch
step-at pre opcode todo out room previous kind hk he =
    ground (arith, get_elem?-append pre opcode todo)

-- The fields of an opcode.
match_bits : (opcode : ℕ) → bit_and (opcode / 8) 7 + 3 ≡ opcode / 8 % 8 + 3
match_bits opcode = rw bit_and_seven

small_distance_bits :
    (opcode second : ℕ)
    → IsByte second
    → bit_or (bit_and opcode 7 * 256) second ≡ opcode % 8 * 256 + second
small_distance_bits opcode second h = rw bit_and_seven (bit_or-shifted 8 (opcode % 8) second h)

medium_distance_bits :
    (second third : ℕ) → IsByte second → bit_or (second / 4) (third * 64) ≡ third * 64 + second / 4
medium_distance_bits second third h = bit_or-shifted_right 6 third (second / 4) (omega arith)

medium_match_bits :
    (opcode second : ℕ)
    → bit_or (bit_and opcode 7 * 4) (bit_and second 3) + 3 ≡ opcode % 8 * 4 + second % 4 + 3
medium_match_bits opcode second =
    rw (bit_and_seven, bit_and_three)
      (omega (arith, bit_or-shifted 2 (opcode % 8) (second % 4) (omega arith)))

module _ (pre literal todo out hole hole' room : Bytes) (previous match_len distance : ℕ)
    (hh : length hole ≡ length literal) (hh' : length hole' ≡ match_len) (pos : 0 < distance)
    (fits : distance ≤ length out + length literal) where
  pub step-small_distance :
      (opcode second : ℕ)
      → classify opcode ≡ some small_distance
      → IsByte second
      → opcode / 64 ≡ length literal
      → opcode / 8 % 8 + 3 ≡ match_len
      → opcode % 8 * 256 + second ≡ distance
      → step (at pre (opcode ∷ second ∷ (literal ++ todo)) out (hole ++ (hole' ++ room)) previous)
        ≡ ok (
            next (
              at
                (pre ++ (opcode ∷ second ∷ literal))
                todo
                (copy_match match_len distance (out ++ literal))
                room
                distance))
  step-small_distance opcode second hk hb hl hm hd =
      step-at pre opcode (second ∷ (literal ++ todo)) out _ previous small_distance hk (
        unfold execute in
        rw
          (
            require_input_ok pre (opcode ∷ second ∷ (literal ++ todo)) out (hole ++ (hole' ++ room))
                previous 2 (omega arith),
            index_second,
            match_bits,
            small_distance_bits opcode second hb,
            hm,
            hd,
          )
          (copy_literal_and_match-at pre (opcode ∷ second ∷ []) literal todo out hole hole' room
            previous 2 (opcode / 64) match_len distance refl (sym hl) (hh ∙ sym hl) hh' pos
            (omega arith)))

  pub step-medium_distance :
      (opcode second third : ℕ)
      → classify opcode ≡ some medium_distance
      → IsByte second
      → opcode / 8 % 4 ≡ length literal
      → opcode % 8 * 4 + second % 4 + 3 ≡ match_len
      → third * 64 + second / 4 ≡ distance
      → step (
          at pre
            (opcode ∷ second ∷ third ∷ (literal ++ todo))
            out
            (hole ++ (hole' ++ room))
            previous)
        ≡ ok (
            next (
              at
                (pre ++ (opcode ∷ second ∷ third ∷ literal))
                todo
                (copy_match match_len distance (out ++ literal))
                room
                distance))
  step-medium_distance opcode second third hk hb hl hm hd =
      step-at pre opcode (second ∷ third ∷ (literal ++ todo)) out _ previous medium_distance hk (
        unfold execute in
        rw
          (
            require_input_ok pre (opcode ∷ second ∷ third ∷ (literal ++ todo)) out
                (hole ++ (hole' ++ room)) previous 3 (omega arith),
            index_second,
            index_third,
            medium_match_bits,
            bit_and_three,
            medium_distance_bits second third hb,
            hm,
            hd,
          )
          (copy_literal_and_match-at pre (opcode ∷ second ∷ third ∷ []) literal todo out hole hole'
            room previous 3 (opcode / 8 % 4) match_len distance refl (sym hl) (hh ∙ sym hl) hh' pos
            (omega arith)))

  pub step-large_distance :
      (opcode second third : ℕ)
      → classify opcode ≡ some large_distance
      → opcode / 64 ≡ length literal
      → opcode / 8 % 8 + 3 ≡ match_len
      → second + 256 * third ≡ distance
      → step (
          at pre
            (opcode ∷ second ∷ third ∷ (literal ++ todo))
            out
            (hole ++ (hole' ++ room))
            previous)
        ≡ ok (
            next (
              at
                (pre ++ (opcode ∷ second ∷ third ∷ literal))
                todo
                (copy_match match_len distance (out ++ literal))
                room
                distance))
  step-large_distance opcode second third hk hl hm hd =
      step-at pre opcode (second ∷ third ∷ (literal ++ todo)) out _ previous large_distance hk (
        unfold execute in
        rw
          (
            require_input_ok pre (opcode ∷ second ∷ third ∷ (literal ++ todo)) out
                (hole ++ (hole' ++ room)) previous 3 (omega arith),
            index_second,
            index_third,
            match_bits,
            hm,
            hd,
          )
          (copy_literal_and_match-at pre (opcode ∷ second ∷ third ∷ []) literal todo out hole hole'
            room previous 3 (opcode / 64) match_len distance refl (sym hl) (hh ∙ sym hl) hh' pos
            (omega arith)))

  pub step-previous_distance :
      (opcode : ℕ)
      → classify opcode ≡ some previous_distance
      → opcode / 64 ≡ length literal
      → opcode / 8 % 8 + 3 ≡ match_len
      → step (at pre (opcode ∷ (literal ++ todo)) out (hole ++ (hole' ++ room)) distance)
        ≡ ok (
            next (
              at
                (pre ++ (opcode ∷ literal))
                todo
                (copy_match match_len distance (out ++ literal))
                room
                distance))
  step-previous_distance opcode hk hl hm =
      step-at pre opcode (literal ++ todo) out _ distance previous_distance hk (
        unfold execute in
        rw (match_bits, hm)
          (copy_literal_and_match-at pre (opcode ∷ []) literal todo out hole hole' room distance 1
            (opcode / 64) match_len distance refl (sym hl) (hh ∙ sym hl) hh' pos (omega arith)))

module _ (pre literal todo out hole room : Bytes) (previous : ℕ)
    (hh : length hole ≡ length literal) where
  pub step-small_literal :
      (opcode : ℕ)
      → classify opcode ≡ some small_literal
      → opcode % 16 ≡ length literal
      → step (at pre (opcode ∷ (literal ++ todo)) out (hole ++ room) previous)
        ≡ ok (next (at (pre ++ (opcode ∷ literal)) todo (out ++ literal) room previous))
  step-small_literal opcode hk hl =
      step-at pre opcode (literal ++ todo) out _ previous small_literal hk (
        unfold execute in
        rw bit_and_fifteen (
          copy_literal_only-at pre (opcode ∷ []) literal todo out hole room previous 1 (opcode % 16)
            refl (sym hl) (hh ∙ sym hl)))

  pub step-large_literal :
      (opcode second : ℕ)
      → classify opcode ≡ some large_literal
      → second + 16 ≡ length literal
      → step (at pre (opcode ∷ second ∷ (literal ++ todo)) out (hole ++ room) previous)
        ≡ ok (next (at (pre ++ (opcode ∷ second ∷ literal)) todo (out ++ literal) room previous))
  step-large_literal opcode second hk hl =
      step-at pre opcode (second ∷ (literal ++ todo)) out _ previous large_literal hk (
        unfold execute in
        rw
          (
            require_input_ok pre (opcode ∷ second ∷ (literal ++ todo)) out (hole ++ room) previous 2
                (omega arith),
            index_second,
          )
          (copy_literal_only-at pre (opcode ∷ second ∷ []) literal todo out hole room previous 2
            (second + 16) refl (sym hl) (hh ∙ sym hl)))

module _ (pre todo out hole room : Bytes) (distance match_len : ℕ) (hh : length hole ≡ match_len)
    (pos : 0 < distance) (fits : distance ≤ length out) where
  pub step-small_match :
      (opcode : ℕ)
      → classify opcode ≡ some small_match
      → opcode % 16 ≡ match_len
      → step (at pre (opcode ∷ todo) out (hole ++ room) distance)
        ≡ ok (
            next (at (pre ++ (opcode ∷ [])) todo (copy_match match_len distance out) room distance))
  step-small_match opcode hk hm = step-at pre opcode todo out _ distance small_match hk (
      unfold execute in
      rw (bit_and_fifteen, hm)
        (copy_match_only-at pre (opcode ∷ []) todo out hole room distance 1 match_len distance refl
          hh pos fits))

  pub step-large_match :
      (opcode second : ℕ)
      → classify opcode ≡ some large_match
      → second + 16 ≡ match_len
      → step (at pre (opcode ∷ second ∷ todo) out (hole ++ room) distance)
        ≡ ok (
            next (
              at
                (pre ++ (opcode ∷ second ∷ []))
                todo
                (copy_match match_len distance out)
                room
                distance))
  step-large_match opcode second hk hm =
      step-at pre opcode (second ∷ todo) out _ distance large_match hk (
        unfold execute in
        rw
          (
            require_input_ok pre (opcode ∷ second ∷ todo) out (hole ++ room) distance 2
                (omega arith),
            index_second,
            hm,
          )
          (copy_match_only-at pre (opcode ∷ second ∷ []) todo out hole room distance 2 match_len
            distance refl hh pos fits))
