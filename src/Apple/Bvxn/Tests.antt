-- ===== src/Apple/Bvxn/Tests.antt =====
-- A small block decoded whole.
use lzvn.Base.{◌≡◌, refl, [], ◌∷◌, Bytes, replicate}
use lzvn.Error.{ok}
use lzvn.Words.{word_at, from_le_bytes}
use lzvn.Raw.Decode.Tests.{xyz_stream, decode_into_xyz}
use lzvn.Apple.Bvxn.{BvxnHeader, parse_header, split_block, decode_into}

abbrev pub xyz_block : Bytes
xyz_block = b'b' ∷ b'v' ∷ b'x' ∷ b'n' ∷ 7 ∷ 0 ∷ 0 ∷ 0 ∷ 14 ∷ 0 ∷ 0 ∷ 0 ∷ xyz_stream

abbrev xyz_header : BvxnHeader
xyz_header = record { raw_bytes = 7; payload_bytes = 14 }

split_block_xyz : split_block xyz_block ≡ ok (xyz_header, xyz_stream)
unfolding split_block parse_header word_at from_le_bytes
split_block_xyz = refl

pub decode_into-xyz_block :
    decode_into xyz_block (replicate 8 1)
    ≡ ok (7, b'x' ∷ b'y' ∷ b'z' ∷ b'x' ∷ b'y' ∷ b'z' ∷ b'x' ∷ 1 ∷ [])
unfolding decode_into
decode_into-xyz_block = rw (split_block_xyz, decode_into_xyz) refl
