-- ===== src/Raw/Decode/Tests.antt =====
-- The decoder run on a small stream.
use lzvn.Base.{◌≡◌, refl, [], ◌∷◌, Bytes, replicate}
use lzvn.Error.{ok}
use lzvn.Raw.Opcode.{classify}
use lzvn.Raw.Decode.{
  decode_into, run, step, byte_at, dispatch, execute, require_input, require_output,
  validate_distance, copy_literal_only, copy_literal_and_match, perform_match, match_loop, finish,
  any_nonzero,
}

-- Three literal bytes, four bytes from three back, the end marker and its padding.
abbrev pub xyzxyzx : Bytes
xyzxyzx = b'x' ∷ b'y' ∷ b'z' ∷ b'x' ∷ b'y' ∷ b'z' ∷ b'x' ∷ []

abbrev pub xyz_stream : Bytes
xyz_stream = 0xE3 ∷ b'x' ∷ b'y' ∷ b'z' ∷ 0x08 ∷ 3 ∷ 6 ∷ replicate 7 0

pub decode_into_xyz :
    decode_into xyz_stream (replicate 8 1)
    ≡ ok (7, b'x' ∷ b'y' ∷ b'z' ∷ b'x' ∷ b'y' ∷ b'z' ∷ b'x' ∷ 1 ∷ [])
unfolding decode_into run step byte_at dispatch execute require_input require_output
    validate_distance copy_literal_only copy_literal_and_match perform_match match_loop finish
    any_nonzero classify
decode_into_xyz = refl
