-- ===== src/Raw/Decode.antt =====
-- src/raw/decode.rs: the decoder of a whole stream into a buffer.
pub mod View
pub mod Steps
pub mod Segment
pub mod Kept
pub mod Works
pub mod Returns
pub mod Ends
pub mod Codes
pub mod Inversion
pub mod Tests
use lzvn.Base.{
  ℕ, zero, suc, ◌+◌, ◌-◌, ◌*◌, ◌/◌, bit_and, bit_or, Bool, true, false, not, ◌||◌, Option, none,
  some, List, [], ◌∷◌, Bytes, length, get_elem?, drop, replicate, ltb, leb, ◌==◌, if◌then◌else◌,
}
use lzvn.Error.{
  Error, Result, ok, err, panic, out_of_fuel, ◌>>=◌, ◌>>◌, reject_if, index, slice, store,
  copy_from_slice, checked_sub,
}
use lzvn.Error.{
  truncated_input, invalid_opcode, invalid_match_distance, output_too_small, size_mismatch,
  trailing_data,
}
use lzvn.Raw.Opcode.{
  OpcodeKind, classify, small_distance, medium_distance, large_distance, previous_distance,
  small_literal, large_literal, small_match, large_match, nop, eos,
}

abbrev pub max_eos_padding : ℕ
max_eos_padding = 7

pub record Decoder : Type 0 where
  pub src : Bytes
  pub dst : Bytes
  pub input : ℕ
  pub output : ℕ
  pub previous_distance : ℕ

pub byte_at : Decoder → ℕ → Result ℕ
byte_at d position = elim (get_elem? d.src position) [
  | none ↦ err (truncated_input position)
  | some byte ↦ ok byte
]

pub require_input : Decoder → ℕ → Result (Unit {0})
require_input d needed = reject_if (ltb (length d.src - d.input) needed) (truncated_input d.input)

pub require_output : Decoder → ℕ → Result (Unit {0})
require_output d needed =
    reject_if (ltb (length d.dst - d.output) needed) (output_too_small d.output (length d.dst))

pub validate_distance : ℕ → ℕ → Result (Unit {0})
validate_distance distance available =
    reject_if (distance == 0 || ltb available distance) (invalid_match_distance distance available)

-- `for index in 0..match_len` of `perform_match`; the first argument counts the rounds left.
pub match_loop : ℕ → ℕ → ℕ → ℕ → Bytes → Result Bytes
match_loop zero start i distance dst = ok dst
match_loop (suc rounds) start i distance dst = do
  from ← checked_sub (start + i) distance
  byte ← index dst from
  dst' ← store dst (start + i) byte
  match_loop rounds start (i + 1) distance dst'

pub perform_match : Decoder → ℕ → ℕ → Result Decoder
perform_match d match_len distance = do
  dst ← match_loop match_len d.output 0 distance d.dst
  ok (record d { dst = dst; output = d.output + match_len; previous_distance = distance })

pub copy_literal_only : Decoder → ℕ → ℕ → Result Decoder
copy_literal_only d opcode_len literal_len = do
  require_input d (opcode_len + literal_len)
  require_output d literal_len
  let literal_start = d.input + opcode_len
  let literal_end = literal_start + literal_len
  literal ← slice d.src literal_start literal_end
  dst ← copy_from_slice d.dst d.output literal
  ok (record d { dst = dst; input = literal_end; output = d.output + literal_len })

pub copy_match_only : Decoder → ℕ → ℕ → ℕ → Result Decoder
copy_match_only d opcode_len match_len distance = do
  require_input d opcode_len
  require_output d match_len
  validate_distance distance d.output
  perform_match (record d { input = d.input + opcode_len }) match_len distance

pub copy_literal_and_match : Decoder → ℕ → ℕ → ℕ → ℕ → Result Decoder
copy_literal_and_match d opcode_len literal_len match_len distance = do
  require_input d (opcode_len + literal_len)
  require_output d (literal_len + match_len)
  validate_distance distance (d.output + literal_len)
  let literal_start = d.input + opcode_len
  let literal_end = literal_start + literal_len
  literal ← slice d.src literal_start literal_end
  dst ← copy_from_slice d.dst d.output literal
  perform_match (record d { dst = dst; input = literal_end; output = d.output + literal_len })
      match_len distance

-- `padding.iter().any(|byte| *byte != 0)`
unfoldable pub any_nonzero : Bytes → Bool
any_nonzero [] = false
any_nonzero (byte ∷ bytes) = not (byte == 0) || any_nonzero bytes

pub finish : Decoder → Result Decoder
finish d = do
  require_input d 1
  padding ← slice d.src (d.input + 1) (length d.src)
  reject_if (any_nonzero padding) (trailing_data (length padding))
  reject_if (ltb max_eos_padding (length padding))
      (trailing_data (length padding - max_eos_padding))
  ok (record d { input = length d.src })

-- How one round of the loop ends: with the next round, or with `return`.
pub data Control : Type 0 where
  next : Decoder → Control
  return : Decoder → Control

-- The arms of `match kind`.
pub execute : OpcodeKind → ℕ → Decoder → Result Decoder
execute small_distance opcode d = do
  require_input d 2
  let literal_len = opcode / 64
  let match_len = bit_and (opcode / 8) 0x07 + 3
  second ← index d.src (d.input + 1)
  copy_literal_and_match d 2 literal_len match_len (bit_or (bit_and opcode 0x07 * 256) second)
execute medium_distance opcode d = do
  require_input d 3
  second ← index d.src (d.input + 1)
  third ← index d.src (d.input + 2)
  let literal_len = bit_and (opcode / 8) 0x03
  let match_len = bit_or (bit_and opcode 0x07 * 4) (bit_and second 0x03) + 3
  copy_literal_and_match d 3 literal_len match_len (bit_or (second / 4) (third * 64))
execute large_distance opcode d = do
  require_input d 3
  let literal_len = opcode / 64
  let match_len = bit_and (opcode / 8) 0x07 + 3
  second ← index d.src (d.input + 1)
  third ← index d.src (d.input + 2)
  copy_literal_and_match d 3 literal_len match_len (second + 256 * third)
execute previous_distance opcode d =
    copy_literal_and_match d 1 (opcode / 64) (bit_and (opcode / 8) 0x07 + 3) d.previous_distance
execute small_literal opcode d = copy_literal_only d 1 (bit_and opcode 0x0F)
execute large_literal opcode d = do
  require_input d 2
  second ← index d.src (d.input + 1)
  copy_literal_only d 2 (second + 16)
execute small_match opcode d = copy_match_only d 1 (bit_and opcode 0x0F) d.previous_distance
execute large_match opcode d = do
  require_input d 2
  second ← index d.src (d.input + 1)
  copy_match_only d 2 (second + 16) d.previous_distance
execute nop opcode d = do require_input d 1; ok (record d { input = d.input + 1 })
execute eos opcode d = finish d

-- Only the end marker leaves the loop.
abbrev pub control : OpcodeKind → Decoder → Control
control eos d = return d
control _ d = next d

-- `let Some(kind) = classify(opcode) else { return Err(…) }; match kind { … }`
pub dispatch : Option OpcodeKind → ℕ → Decoder → Result Control
dispatch none opcode d = err (invalid_opcode d.input opcode)
dispatch (some kind) opcode d = do d' ← execute kind opcode d; ok (control kind d')

-- One round of `loop`.
pub step : Decoder → Result Control
step d = do opcode ← byte_at d d.input; dispatch (classify opcode) opcode d

pub run : ℕ → Decoder → Result Decoder
run zero d = out_of_fuel
run (suc fuel) d = step d >>= λ c. elim c [ next d' ↦ run fuel d' | return d' ↦ ok d' ]

abbrev pub start : Bytes → Bytes → Decoder
start src dst = record { src = src; dst = dst; input = 0; output = 0; previous_distance = 0 }

-- Each round but the last takes an input byte. The caller's buffer is returned beside the count.
pub decode_into : Bytes → Bytes → Result (ℕ × Bytes)
decode_into src dst = do d ← run (suc (length src)) (start src dst); ok (d.output, d.dst)

pub decode : Bytes → ℕ → Result Bytes
decode src decoded_len = do
  (written, dst) ← decode_into src (replicate decoded_len 0)
  reject_if (not (written == decoded_len)) (size_mismatch decoded_len written)
  ok dst
