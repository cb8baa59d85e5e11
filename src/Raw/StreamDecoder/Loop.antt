-- ===== src/Raw/StreamDecoder/Loop.antt =====
-- src/raw/stream.rs: the loop of `RawDecoder::decode_into`.
pub mod Rule
pub mod Arms
pub mod Input
pub mod Sound
pub mod Safe
pub mod Track
pub mod Refine
pub mod Agree
pub mod Call
use lzvn.Base.{
  ℕ, zero, suc, ◌+◌, ◌-◌, ◌*◌, ◌/◌, bit_and, bit_or, Bool, true, false, not, Option, none, some,
  List, [], ◌∷◌, ◌++◌, Bytes, length, take, ◌==◌, if◌then◌else◌,
}
use lzvn.Error.{
  Result, ok, err, out_of_fuel, ◌>>=◌, ◌>>◌, reject_if, index, slice, truncated_input,
  invalid_opcode, trailing_data,
}
use lzvn.Stream.{StreamStatus, StreamProgress, need_input, need_output, finished}
use lzvn.Raw.Opcode.{
  OpcodeKind, classify, small_distance, medium_distance, large_distance, previous_distance,
  small_literal, large_literal, small_match, large_match, nop, eos,
}
use lzvn.Raw.StreamDecoder.{
  RawDecoder, available_input, absolute_offset, compact_input, compact_input_if_necessary,
  ensure_buffered, prepare_literal_only, prepare_match_only, prepare_literal_and_match,
  copy_pending_literal, copy_pending_match, consume_eos,
}

-- How an arm of `match kind` ends: behind it, with `NeedInput`, or with `Finished`.
pub data Arm : Type 0 where
  prepared : RawDecoder → Arm
  starved : Arm
  ended : RawDecoder → Arm

-- `if !self.ensure_buffered(needed)? { return Ok(…NeedInput) }`
abbrev pub buffered : RawDecoder → ℕ → Result Arm → Result Arm
buffered d needed rest = do enough ← ensure_buffered d needed; if enough then rest else ok starved

pub arm : OpcodeKind → ℕ → RawDecoder → Result Arm
arm small_distance opcode d = buffered d 2 (
    buffered d (2 + opcode / 64) (do
      let match_len = bit_and (opcode / 8) 0x07 + 3
      second ← index d.input (d.input_offset + 1)
      let distance = bit_or (bit_and opcode 0x07 * 256) second
      d' ← prepare_literal_and_match d 2 (opcode / 64) match_len distance
      ok (prepared d')))
arm medium_distance opcode d = buffered d 3 (
    buffered d (3 + bit_and (opcode / 8) 0x03) (do
      second ← index d.input (d.input_offset + 1)
      third ← index d.input (d.input_offset + 2)
      let match_len = bit_or (bit_and opcode 0x07 * 4) (bit_and second 0x03) + 3
      let distance = bit_or (second / 4) (third * 64)
      d' ← prepare_literal_and_match d 3 (bit_and (opcode / 8) 0x03) match_len distance
      ok (prepared d')))
arm large_distance opcode d = buffered d 3 (
    buffered d (3 + opcode / 64) (do
      let match_len = bit_and (opcode / 8) 0x07 + 3
      second ← index d.input (d.input_offset + 1)
      third ← index d.input (d.input_offset + 2)
      d' ← prepare_literal_and_match d 3 (opcode / 64) match_len (second + 256 * third)
      ok (prepared d')))
arm previous_distance opcode d = buffered d (1 + opcode / 64) (do
  let match_len = bit_and (opcode / 8) 0x07 + 3
  d' ← prepare_literal_and_match d 1 (opcode / 64) match_len d.previous_distance
  ok (prepared d'))
arm small_literal opcode d =
    buffered d (1 + bit_and opcode 0x0F)
      (ok (prepared (prepare_literal_only d 1 (bit_and opcode 0x0F))))
arm large_literal opcode d = buffered d 2 (do
  second ← index d.input (d.input_offset + 1)
  buffered d (2 + (second + 16)) (ok (prepared (prepare_literal_only d 2 (second + 16)))))
arm small_match opcode d = do
  d' ← prepare_match_only d 1 (bit_and opcode 0x0F) d.previous_distance
  ok (prepared d')
arm large_match opcode d = buffered d 2 (do
  second ← index d.input (d.input_offset + 1)
  d' ← prepare_match_only d 2 (second + 16) d.previous_distance
  ok (prepared d'))
arm nop opcode d = do
  d' ← compact_input_if_necessary (record d { input_offset = d.input_offset + 1 })
  ok (prepared d')
arm eos opcode d = do d' ← consume_eos d; ok (ended (record d' { finished = true }))

-- How a round of `loop` ends: with the next round, or with a `return`.
pub data Turn : Type 0 where
  again : RawDecoder → ℕ → Bytes → Turn
  give : StreamStatus → RawDecoder → ℕ → Bytes → Turn

abbrev pub after_arm : RawDecoder → ℕ → Bytes → Arm → Turn
after_arm d written dst (prepared d') = again d' written dst
after_arm d written dst starved = give need_input d written dst
after_arm d written dst (ended d') = give finished d' written dst

-- `let Some(kind) = classify(opcode) else { return Err(…) }; match kind { … }`
pub opcode_turn : Option OpcodeKind → ℕ → RawDecoder → ℕ → Bytes → Result Turn
opcode_turn none opcode d written dst = err (invalid_opcode (absolute_offset d) opcode)
opcode_turn (some kind) opcode d written dst = do
  a ← arm kind opcode d
  ok (after_arm d written dst a)

-- `if self.available_input() == 0 { … }` and what follows it.
pub input_turn : RawDecoder → ℕ → Bytes → Result Turn
input_turn d written dst =
    if available_input d == 0
    then (do
      d' ← compact_input d
      reject_if d'.finished_input (truncated_input (absolute_offset d'))
      ok (give need_input d' written dst))
    else (do
      opcode ← index d.input d.input_offset
      opcode_turn (classify opcode) opcode d written dst)

-- `if self.pending.literal != 0 { … }`, with `&mut dst[written..]` cut out and put back.
pub literal_turn : RawDecoder → ℕ → Bytes → Result Turn
literal_turn d written dst = do
  room ← slice dst written (length dst)
  (count, room', d') ← copy_pending_literal d room
  let dst' = take written dst ++ room'
  if not (d'.pending.literal == 0)
      then ok (give need_output d' (written + count) dst')
      else ok (again d' (written + count) dst')

-- `if self.pending.r#match != 0 { … }`
pub match_turn : RawDecoder → ℕ → Bytes → Result Turn
match_turn d written dst = do
  room ← slice dst written (length dst)
  (count, room', d') ← copy_pending_match d room
  let dst' = take written dst ++ room'
  if not (d'.pending.match == 0)
      then ok (give need_output d' (written + count) dst')
      else ok (
          again (record d' { pending = record d'.pending { distance = 0 } }) (written + count) dst')

-- One round of `loop`.
pub turn : RawDecoder → ℕ → Bytes → Result Turn
turn d written dst =
    if written == length dst
    then ok (give need_output d written dst)
    else if not (d.pending.literal == 0)
    then literal_turn d written dst
    else if not (d.pending.match == 0)
    then match_turn d written dst
    else input_turn d written dst

pub decode_loop : ℕ → RawDecoder → ℕ → Bytes → Result (StreamProgress × Bytes × RawDecoder)
decode_loop zero d written dst = out_of_fuel
decode_loop (suc fuel) d written dst = turn d written dst >>= λ t. elim t [
  | again d' written' dst' ↦ decode_loop fuel d' written' dst'
  | give status d' written' dst' ↦ ok (record { written = written'; status = status }, dst', d')
]

-- An instruction takes at least a byte, and at most two rounds more for its literal and its match.
abbrev pub enough_fuel : RawDecoder → ℕ
enough_fuel d = 3 * length d.input + 3

pub decode_into : RawDecoder → Bytes → Result (StreamProgress × Bytes × RawDecoder)
decode_into d dst =
    if not (d.trailing_after_finish == 0)
    then err (trailing_data d.trailing_after_finish)
    else if d.finished
    then ok (record { written = 0; status = finished }, dst, d)
    else decode_loop (enough_fuel d) d 0 dst
