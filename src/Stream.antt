-- ===== src/Stream.antt =====
-- src/stream.rs, and the encoder that src/raw/stream.rs and src/apple/bvxn.rs both spell out: it buffers
-- the source and, when that is complete, encodes it at once and hands the result out in pieces.
pub mod Drain
use lzvn.Base.{
  ℕ, ◌+◌, min, Bool, true, false, not, ◌&&◌, List, [], ◌∷◌, ◌++◌, Bytes, length, take, ◌==◌,
  if◌then◌else◌,
}
use lzvn.Error.{Result, ok, ◌>>=◌, slice, copy_from_slice, checked_sub}

pub data StreamStatus : Type 0 where
  need_input need_output finished : StreamStatus

pub record StreamProgress : Type 0 where
  pub written : ℕ
  pub status : StreamStatus

pub record StreamEncoder : Type 0 where
  pub input : Bytes
  pub encoded : Bytes
  pub output_offset : ℕ
  pub finished_input : Bool
  pub prepared : Bool

-- `Self::default()`
abbrev pub new : StreamEncoder
new = record {
  input = [];
  encoded = [];
  output_offset = 0;
  finished_input = false;
  prepared = false;
}

abbrev pub feed : StreamEncoder → Bytes → StreamEncoder
feed e input = if not (length input == 0) then record e { input = e.input ++ input } else e

abbrev pub finish_input : StreamEncoder → StreamEncoder
finish_input e = record e { finished_input = true }

pub is_finished : StreamEncoder → Bool
is_finished e = e.prepared && e.output_offset == length e.encoded

-- `encode_into` behind its first `if`. The caller's buffer is returned beside the progress.
pub hand_out : StreamEncoder → Bytes → Result (StreamProgress × Bytes × StreamEncoder)
hand_out e dst =
    if e.output_offset == length e.encoded
    then ok (record { written = 0; status = finished }, dst, e)
    else (do
      remaining ← checked_sub (length e.encoded) e.output_offset
      let written = min remaining (length dst)
      let output_offset = e.output_offset + written
      bytes ← slice e.encoded e.output_offset output_offset
      dst' ← copy_from_slice dst 0 bytes
      let status = if output_offset == length e.encoded then finished else need_output
      ok (
        record { written = written; status = status },
        dst',
        record e { output_offset = output_offset },
      ))

-- The two encoders differ in the function that they call.
module _ (encode : Bytes → Result Bytes) where
  pub encode_into : StreamEncoder → Bytes → Result (StreamProgress × Bytes × StreamEncoder)
  encode_into e dst =
      if not e.prepared
      then (if not e.finished_input
          then ok (record { written = 0; status = need_input }, dst, e)
          else (do
            encoded ← encode e.input
            hand_out (record e { encoded = encoded; prepared = true }) dst))
      else hand_out e dst

  -- A caller that passes one buffer after another and keeps what each call has written.
  pub drain : List Bytes → StreamEncoder → Result (Bytes × StreamEncoder)
  drain [] e = ok ([], e)
  drain (dst ∷ rest) e = do
    (progress, dst', e') ← encode_into e dst
    (bytes, e'') ← drain rest e'
    ok (take progress.written dst' ++ bytes, e'')
