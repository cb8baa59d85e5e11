-- ===== src/Apple/Bvxn/StreamDecoder.antt =====
-- src/apple/bvxn.rs: `BvxnDecoder`, which reads a header and passes the payload on to a `RawDecoder`.
pub mod Sound
pub mod Safe
pub mod Serving
pub mod Loading
pub mod Delivery
use lzvn.Base.{
  ℕ, ◌+◌, ◌-◌, ◌*◌, min, Bool, true, false, not, ◌&&◌, ◌||◌, Option, none, some, List, [], ◌++◌,
  Bytes, length, ltb, leb, ◌==◌, if◌then◌else◌,
}
use lzvn.Error.{
  Result, ok, err, panic, ◌>>=◌, ◌>>◌, reject_if, slice, truncated_input, trailing_data,
  size_mismatch,
}
use lzvn.Stream.{StreamStatus, StreamProgress, need_input, need_output, finished}
use lzvn.Raw.StreamDecoder.{RawDecoder, total_output}
use lzvn.Raw.StreamDecoder.Loop
use lzvn.Apple.Bvxn.{BvxnHeader, header_len, parse_header}

pub record BvxnDecoder : Type 0 where
  pub input : Bytes
  pub input_offset : ℕ
  pub input_base : ℕ
  pub header : Option BvxnHeader
  pub payload_remaining : ℕ
  pub raw : RawDecoder
  pub finished_input : Bool
  pub finished : Bool
  pub trailing_after_finish : ℕ

-- `Self::default()`
abbrev pub new : BvxnDecoder
new = record {
  input = [];
  input_offset = 0;
  input_base = 0;
  header = none;
  payload_remaining = 0;
  raw = lzvn.Raw.StreamDecoder.new;
  finished_input = false;
  finished = false;
  trailing_after_finish = 0;
}

unfoldable pub feed : BvxnDecoder → Bytes → BvxnDecoder
feed d bytes =
    if length bytes == 0
    then d
    else if d.finished
    then record d { trailing_after_finish = d.trailing_after_finish + length bytes }
    else record d { input = d.input ++ bytes }

abbrev pub finish_input : BvxnDecoder → BvxnDecoder
finish_input d = record d { finished_input = true }

abbrev pub is_finished : BvxnDecoder → Bool
is_finished d = d.finished

abbrev pub available_input : BvxnDecoder → ℕ
available_input d = length d.input - d.input_offset

abbrev pub absolute_offset : BvxnDecoder → ℕ
absolute_offset d = d.input_base + d.input_offset

pub compact_input_if_necessary : BvxnDecoder → Result BvxnDecoder
compact_input_if_necessary d =
    if not (d.input_offset == 0)
      && (d.input_offset == length d.input || leb (length d.input) (d.input_offset * 2))
    then (do
      rest ← slice d.input d.input_offset (length d.input)
      ok (record d { input = rest; input_base = d.input_base + d.input_offset; input_offset = 0 }))
    else ok d

-- `if to_feed != 0 { … }` of `pump_payload`
pub pump : ℕ → BvxnDecoder → Result BvxnDecoder
pump to_feed d = if to_feed == 0 then ok d else do
  bytes ← slice d.input d.input_offset (d.input_offset + to_feed)
  compact_input_if_necessary (record d {
    raw = lzvn.Raw.StreamDecoder.feed d.raw bytes;
    input_offset = d.input_offset + to_feed;
    payload_remaining = d.payload_remaining - to_feed;
  })

pub pump_payload : BvxnDecoder → Result BvxnDecoder
pump_payload d = do
  d' ← pump (min (available_input d) d.payload_remaining) d
  if d'.payload_remaining == 0
      then (do
        let d'' : BvxnDecoder = record d' { raw = lzvn.Raw.StreamDecoder.finish_input d'.raw }
        reject_if (not (available_input d'' == 0)) (trailing_data (available_input d''))
        ok d'')
      else ok d'

-- The arms of `match progress.status`.
pub settle : StreamStatus → BvxnHeader → BvxnDecoder → Result BvxnDecoder
settle need_input header d = do
  reject_if (not (d.payload_remaining == 0) && d.finished_input && available_input d == 0)
      (truncated_input (absolute_offset d))
  ok d
settle need_output header d = ok d
settle finished header d = do
  reject_if (not (total_output d.raw == header.raw_bytes))
      (size_mismatch header.raw_bytes (total_output d.raw))
  let d' : BvxnDecoder = record d { finished = true }
  reject_if (not (available_input d' == 0)) (trailing_data (available_input d'))
  ok d'

-- `if self.header.is_none() { … }`, behind the test that a whole header is there
pub read_header : BvxnDecoder → Result BvxnDecoder
read_header d = do
  bytes ← slice d.input d.input_offset (d.input_offset + header_len)
  header ← parse_header bytes
  compact_input_if_necessary (record d {
    header = some header;
    payload_remaining = header.payload_bytes;
    input_offset = d.input_offset + header_len;
  })

-- `self.header.expect("header parsed before decode")`
pub expect : Option BvxnHeader → Result BvxnHeader
expect none = panic
expect (some header) = ok header

-- From `self.pump_payload()?` on.
pub decode_payload : BvxnDecoder → Bytes → Result (StreamProgress × Bytes × BvxnDecoder)
decode_payload d dst = do
  d' ← pump_payload d
  (progress, dst', raw) ← Loop.decode_into d'.raw dst
  header ← expect d'.header
  reject_if (ltb header.raw_bytes (total_output raw))
      (size_mismatch header.raw_bytes (total_output raw))
  d'' ← settle progress.status header (record d' { raw = raw })
  ok (progress, dst', d'')

pub begin : BvxnDecoder → Bytes → Result (StreamProgress × Bytes × BvxnDecoder)
begin d dst =
    if ltb (available_input d) header_len
    then (do
      reject_if d.finished_input (truncated_input (absolute_offset d))
      ok (record { written = 0; status = need_input }, dst, d))
    else (do d' ← read_header d; decode_payload d' dst)

pub decode_into : BvxnDecoder → Bytes → Result (StreamProgress × Bytes × BvxnDecoder)
decode_into d dst =
    if not (d.trailing_after_finish == 0)
    then err (trailing_data d.trailing_after_finish)
    else if d.finished
    then ok (record { written = 0; status = finished }, dst, d)
    else elim d.header [ none ↦ begin d dst | some header ↦ decode_payload d dst ]
