-- ===== src/Raw/Code.antt =====
-- What an instruction says, as both decoders read it: how long it is, how many literal bytes follow it,
-- and which match. It models no code of its own.
use lzvn.Base.{
  ℕ, ◌+◌, ◌*◌, ◌/◌, ◌≤◌, ◌<◌, ◌≡◌, refl, bit_and, bit_or, Bool, true, false, ◌++◌, arith, Bytes,
  length, get_or, get_or-append_left,
}
use lzvn.Raw.Opcode.{
  OpcodeKind, small_distance, medium_distance, large_distance, previous_distance, small_literal,
  large_literal, small_match, large_match, nop, eos,
}

pub record Code : Type 0 where
  pub size : ℕ
  pub literal : ℕ
  pub match : ℕ
  pub distance : ℕ
  -- The last distance behind it, and whether the distance is checked.
  pub last : ℕ
  pub checked : Bool

-- `bytes` begin with the opcode.
unfoldable pub code_of : OpcodeKind → ℕ → Bytes → ℕ → Code
code_of small_distance opcode bytes previous =
    let distance = bit_or (bit_and opcode 7 * 256) (get_or bytes 1 0) in
    record {
      size = 2;
      literal = opcode / 64;
      match = bit_and (opcode / 8) 7 + 3;
      distance = distance;
      last = distance;
      checked = true;
    }
code_of medium_distance opcode bytes previous =
    let distance = bit_or (get_or bytes 1 0 / 4) (get_or bytes 2 0 * 64) in
    record {
      size = 3;
      literal = bit_and (opcode / 8) 3;
      match = bit_or (bit_and opcode 7 * 4) (bit_and (get_or bytes 1 0) 3) + 3;
      distance = distance;
      last = distance;
      checked = true;
    }
code_of large_distance opcode bytes previous =
    let distance = get_or bytes 1 0 + 256 * get_or bytes 2 0 in
    record {
      size = 3;
      literal = opcode / 64;
      match = bit_and (opcode / 8) 7 + 3;
      distance = distance;
      last = distance;
      checked = true;
    }
code_of previous_distance opcode bytes previous = record {
  size = 1;
  literal = opcode / 64;
  match = bit_and (opcode / 8) 7 + 3;
  distance = previous;
  last = previous;
  checked = true;
}
code_of small_literal opcode bytes previous = record {
  size = 1;
  literal = bit_and opcode 15;
  match = 0;
  distance = 0;
  last = previous;
  checked = false;
}
code_of large_literal opcode bytes previous = record {
  size = 2;
  literal = get_or bytes 1 0 + 16;
  match = 0;
  distance = 0;
  last = previous;
  checked = false;
}
code_of small_match opcode bytes previous = record {
  size = 1;
  literal = 0;
  match = bit_and opcode 15;
  distance = previous;
  last = previous;
  checked = true;
}
code_of large_match opcode bytes previous = record {
  size = 2;
  literal = 0;
  match = get_or bytes 1 0 + 16;
  distance = previous;
  last = previous;
  checked = true;
}
code_of nop opcode bytes previous = record {
  size = 1;
  literal = 0;
  match = 0;
  distance = 0;
  last = previous;
  checked = false;
}
code_of eos opcode bytes previous = record {
  size = 1;
  literal = 0;
  match = 0;
  distance = 0;
  last = previous;
  checked = false;
}

-- The distance reaches no farther back than what is there.
abbrev pub Reaches : Code → ℕ → Type 0
Reaches c available = c.checked ≡ true → (0 < c.distance) × (c.distance ≤ available)

abbrev pub is_eos : OpcodeKind → Bool
is_eos eos = true
is_eos _ = false

pub size_pos :
    (kind : OpcodeKind) (opcode : ℕ) (bytes : Bytes) (previous : ℕ)
    → 0 < (code_of kind opcode bytes previous).size
unfolding code_of
size_pos small_distance opcode bytes previous = omega arith
size_pos medium_distance opcode bytes previous = omega arith
size_pos large_distance opcode bytes previous = omega arith
size_pos previous_distance opcode bytes previous = omega arith
size_pos small_literal opcode bytes previous = omega arith
size_pos large_literal opcode bytes previous = omega arith
size_pos small_match opcode bytes previous = omega arith
size_pos large_match opcode bytes previous = omega arith
size_pos nop opcode bytes previous = omega arith
size_pos eos opcode bytes previous = omega arith

-- An instruction with a match has its distance checked.
pub checked_of_match :
    (kind : OpcodeKind) (opcode : ℕ) (bytes : Bytes) (previous : ℕ)
    → 0 < (code_of kind opcode bytes previous).match
    → (code_of kind opcode bytes previous).checked ≡ true
unfolding code_of
checked_of_match small_distance opcode bytes previous h = refl
checked_of_match medium_distance opcode bytes previous h = refl
checked_of_match large_distance opcode bytes previous h = refl
checked_of_match previous_distance opcode bytes previous h = refl
checked_of_match small_literal opcode bytes previous h = absurd (omega arith)
checked_of_match large_literal opcode bytes previous h = absurd (omega arith)
checked_of_match small_match opcode bytes previous h = refl
checked_of_match large_match opcode bytes previous h = refl
checked_of_match nop opcode bytes previous h = absurd (omega arith)
checked_of_match eos opcode bytes previous h = absurd (omega arith)

-- Only the bytes of the instruction itself are read.
pub code_of-append :
    (kind : OpcodeKind) (opcode : ℕ) (bytes rest : Bytes) (previous : ℕ)
    → (code_of kind opcode bytes previous).size ≤ length bytes
    → code_of kind opcode (bytes ++ rest) previous ≡ code_of kind opcode bytes previous
unfolding code_of
code_of-append small_distance opcode bytes rest previous h =
    rw (get_or-append_left bytes rest 1 0 (omega arith)) refl
code_of-append medium_distance opcode bytes rest previous h =
    rw
      (
        get_or-append_left bytes rest 1 0 (omega arith),
        get_or-append_left bytes rest 2 0 (omega arith),
      )
      refl
code_of-append large_distance opcode bytes rest previous h =
    rw
      (
        get_or-append_left bytes rest 1 0 (omega arith),
        get_or-append_left bytes rest 2 0 (omega arith),
      )
      refl
code_of-append previous_distance opcode bytes rest previous h = refl
code_of-append small_literal opcode bytes rest previous h = refl
code_of-append large_literal opcode bytes rest previous h =
    rw (get_or-append_left bytes rest 1 0 (omega arith)) refl
code_of-append small_match opcode bytes rest previous h = refl
code_of-append large_match opcode bytes rest previous h =
    rw (get_or-append_left bytes rest 1 0 (omega arith)) refl
code_of-append nop opcode bytes rest previous h = refl
code_of-append eos opcode bytes rest previous h = refl
