-- ===== src/Fuzz/Witnesses.antt =====
-- The theorems on the fuzz targets at concrete inputs.
use lzvn.Base.{◌≤◌, [], sym, ap, ◌∙◌, arith, ℕ, ◌<◌, ◌≡◌, ◌⊎◌, ◌∷◌, Bytes, take, replicate}
use lzvn.Error.{ok, err, panic, size_mismatch}
use lzvn.Words.{from_le_bytes}
use lzvn.Raw.Decode.{decode, decode_into}
use lzvn.Raw.Decode.Tests.{xyz_stream}
use lzvn.Apple.Bvxn.Tests.{xyz_block}
use lzvn.Words.{isize_max}
use lzvn.Apple.Decmpfs.{DecmpfsHeader, parse_header}
use lzvn.Apple.Decmpfs.Tests.{hello_xattr, hello_header, parse_header-hello_xattr}
use lzvn.Fuzz.Wrapper.{decmpfs_decode_passes}
use lzvn.Fuzz.{raw_decode, bvxn_decode, decmpfs_decode}
use lzvn.Fuzz.Agree.{raw_decode_passes, bvxn_decode_passes}

abbrev xyz_input : Bytes
xyz_input = 7 ∷ 0 ∷ 0 ∷ 0 ∷ xyz_stream

raw_decode_passes_example :
    (raw_decode xyz_input ≡ ok tt)
    ⊎ ((written : ℕ) × (output : Bytes) × (decode_into xyz_stream
            (replicate (from_le_bytes (take 4 xyz_input)) 0)
          ≡ ok (written, output))
        × (written < from_le_bytes (take 4 xyz_input))
        × (decode xyz_stream (from_le_bytes (take 4 xyz_input))
            ≡ err (size_mismatch (from_le_bytes (take 4 xyz_input)) written))
        × (raw_decode xyz_input ≡ panic))
raw_decode_passes_example = raw_decode_passes xyz_input

bvxn_decode_passes_example : bvxn_decode xyz_block ≡ ok tt
bvxn_decode_passes_example = bvxn_decode_passes xyz_block

hello_small :
    (header : DecmpfsHeader)
    → parse_header hello_xattr ≡ ok header
    → header.uncompressed_size ≤ isize_max
hello_small header h =
    let same : ok hello_header ≡ ok header = sym parse_header-hello_xattr ∙ h in
    let equal : hello_header ≡ header = cc in
    let size : 5 ≡ header.uncompressed_size = ap (λ x. x.uncompressed_size) equal in omega arith

hello_input_small :
    (header : DecmpfsHeader)
    → parse_header (take (from_le_bytes (22 ∷ 0 ∷ 0 ∷ 0 ∷ [])) hello_xattr) ≡ ok header
    → header.uncompressed_size ≤ isize_max
unfolding from_le_bytes
hello_input_small header h = hello_small header h

decmpfs_decode_passes_example : decmpfs_decode (22 ∷ 0 ∷ 0 ∷ 0 ∷ hello_xattr) ≡ ok tt
decmpfs_decode_passes_example =
    decmpfs_decode_passes (22 ∷ 0 ∷ 0 ∷ 0 ∷ hello_xattr) hello_input_small
