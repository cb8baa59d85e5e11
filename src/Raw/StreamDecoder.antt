-- ===== src/Raw/StreamDecoder.antt =====
-- src/raw/stream.rs: `RawDecoder`, which is fed its input and drained of its output in pieces. Its
-- loop is in Loop.
pub mod Copies
pub mod Loop
pub mod Feed
pub mod Script
pub mod Delivery
use lzvn.Base.{
  ℕ, zero, suc, ◌+◌, ◌-◌, ◌*◌, ◌/◌, min, bit_and, bit_or, Bool, true, false, not, ◌&&◌, ◌||◌,
  Option, none, some, List, [], ◌∷◌, ◌++◌, Bytes, length, take, ltb, leb, ◌==◌, if◌then◌else◌,
}
use lzvn.Error.{
  Result, ok, err, out_of_fuel, ◌>>=◌, ◌>>◌, reject_if, index, slice, store, copy_from_slice,
  checked_sub, truncated_input, invalid_opcode, invalid_match_distance, trailing_data,
}
use lzvn.Words.{usize_max}
use lzvn.Stream.{StreamStatus, StreamProgress, need_input, need_output, finished}
use lzvn.Raw.Opcode.{
  OpcodeKind, classify, small_distance, medium_distance, large_distance, previous_distance,
  small_literal, large_literal, small_match, large_match, nop, eos,
}
use lzvn.Raw.Decode.{max_eos_padding, any_nonzero}

abbrev pub input_compact_threshold : ℕ
input_compact_threshold = 4_096

pub record Pending : Type 0 where
  pub literal : ℕ
  pub match : ℕ
  pub distance : ℕ

pub record RawDecoder : Type 0 where
  pub input : Bytes
  pub input_offset : ℕ
  pub input_base : ℕ
  pub history : Bytes
  pub previous_distance : ℕ
  pub pending : Pending
  pub finished_input : Bool
  pub finished : Bool
  pub eos_padding : ℕ
  pub trailing_after_finish : ℕ

-- `Self::default()`
abbrev pub new : RawDecoder
new = record {
  input = [];
  input_offset = 0;
  input_base = 0;
  history = [];
  previous_distance = 0;
  pending = record { literal = 0; match = 0; distance = 0 };
  finished_input = false;
  finished = false;
  eos_padding = 0;
  trailing_after_finish = 0;
}

abbrev pub is_empty : Pending → Bool
is_empty p = p.literal == 0 && p.match == 0

-- What `feed` does with the bytes behind the end marker.
pub feed_finished : RawDecoder → Bytes → RawDecoder
feed_finished d bytes =
    if not (any_nonzero bytes) && leb (min (d.eos_padding + length bytes) usize_max) max_eos_padding
    then record d { eos_padding = d.eos_padding + length bytes }
    else record d { trailing_after_finish = d.trailing_after_finish + length bytes }

pub feed : RawDecoder → Bytes → RawDecoder
feed d bytes =
    if length bytes == 0
    then d
    else if d.finished
    then feed_finished d bytes
    else record d { input = d.input ++ bytes }

pub finish_input : RawDecoder → RawDecoder
finish_input d = record d { finished_input = true }

abbrev pub total_output : RawDecoder → ℕ
total_output d = length d.history

abbrev pub is_finished : RawDecoder → Bool
is_finished d = d.finished

abbrev pub available_input : RawDecoder → ℕ
available_input d = length d.input - d.input_offset

abbrev pub absolute_offset : RawDecoder → ℕ
absolute_offset d = d.input_base + d.input_offset

pub compact_input : RawDecoder → Result RawDecoder
compact_input d = if d.input_offset == 0 then ok d else do
  rest ← slice d.input d.input_offset (length d.input)
  ok (record d { input = rest; input_base = d.input_base + d.input_offset; input_offset = 0 })

pub compact_input_if_necessary : RawDecoder → Result RawDecoder
compact_input_if_necessary d =
    if is_empty d.pending
      && (d.input_offset == length d.input
          || leb input_compact_threshold d.input_offset
          || leb (length d.input) (d.input_offset * 2))
    then compact_input d
    else ok d

pub ensure_buffered : RawDecoder → ℕ → Result Bool
ensure_buffered d needed =
    if leb needed (available_input d)
    then ok true
    else if d.finished_input
    then err (truncated_input (absolute_offset d))
    else ok false

pub validate_distance : ℕ → ℕ → Result (Unit {0})
validate_distance distance available =
    reject_if (distance == 0 || ltb available distance) (invalid_match_distance distance available)

pub prepare_literal_only : RawDecoder → ℕ → ℕ → RawDecoder
prepare_literal_only d opcode_len literal_len = record d {
  input_offset = d.input_offset + opcode_len;
  pending = record { literal = literal_len; match = 0; distance = 0 };
}

pub prepare_match_only : RawDecoder → ℕ → ℕ → ℕ → Result RawDecoder
prepare_match_only d opcode_len match_len distance = do
  validate_distance distance (length d.history)
  compact_input_if_necessary (record d {
    input_offset = d.input_offset + opcode_len;
    previous_distance = distance;
    pending = record { literal = 0; match = match_len; distance = distance };
  })

pub prepare_literal_and_match : RawDecoder → ℕ → ℕ → ℕ → ℕ → Result RawDecoder
prepare_literal_and_match d opcode_len literal_len match_len distance = do
  validate_distance distance (length d.history + literal_len)
  ok (record d {
    input_offset = d.input_offset + opcode_len;
    previous_distance = distance;
    pending = record { literal = literal_len; match = match_len; distance = distance };
  })

-- The count, the buffer and the decoder that a copy leaves.
pub copy_pending_literal : RawDecoder → Bytes → Result (ℕ × Bytes × RawDecoder)
copy_pending_literal d dst = do
  let count = min d.pending.literal (length dst)
  let end = d.input_offset + count
  bytes ← slice d.input d.input_offset end
  dst' ← copy_from_slice dst 0 bytes
  d' ← compact_input_if_necessary (record d {
    history = d.history ++ bytes;
    input_offset = end;
    pending = record d.pending { literal = d.pending.literal - count };
  })
  ok (count, dst', d')

-- `for slot in &mut dst[..count]`; the first argument counts the slots left, the second is the slot.
pub copy_slots : ℕ → ℕ → ℕ → Bytes → Bytes → Result (Bytes × Bytes)
copy_slots zero slot distance history dst = ok (history, dst)
copy_slots (suc count) slot distance history dst = do
  from ← checked_sub (length history) distance
  byte ← index history from
  dst' ← store dst slot byte
  copy_slots count (slot + 1) distance (history ++ (byte ∷ [])) dst'

pub copy_pending_match : RawDecoder → Bytes → Result (ℕ × Bytes × RawDecoder)
copy_pending_match d dst = do
  let count = min d.pending.match (length dst)
  (history, dst') ← copy_slots count 0 d.pending.distance d.history dst
  ok (
    count,
    dst',
    record d { history = history; pending = record d.pending { match = d.pending.match - count } },
  )

pub consume_eos : RawDecoder → Result RawDecoder
consume_eos d = do
  padding ← slice d.input (d.input_offset + 1) (length d.input)
  reject_if (any_nonzero padding) (trailing_data (length padding))
  reject_if (ltb max_eos_padding (length padding))
      (trailing_data (length padding - max_eos_padding))
  compact_input (record d { eos_padding = length padding; input_offset = length d.input })
