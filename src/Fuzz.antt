-- ===== src/Fuzz.antt =====
-- fuzz/fuzz_targets: the targets `raw_decode`, `bvxn_decode` and `decmpfs_decode`, which compare `decode` with
-- `decode_into`; a failed assertion is a panic.
pub mod Agree
pub mod Wrapper
mod Witnesses
use lzvn.Base.{
  some, ◌+◌, ◌-◌, ℕ, ◌^◌, Bool, true, false, not, ◌&&◌, List, [], ◌∷◌, Bytes, length, replicate,
  ltb, leb, ◌==◌, if◌then◌else◌,
}
use lzvn.Error.{Result, ok, err, panic, out_of_fuel, ◌>>=◌, ◌>>◌, slice}
use lzvn.Words.{word_at}
use lzvn.Apple.Bvxn.{BvxnHeader, parse_header}
use lzvn.Apple.Decmpfs.{DecmpfsHeader}
use lzvn.Apple.Decmpfs
use lzvn.Facade.{
  decode_decmpfs, decode_decmpfs_into, decode_raw, decode_raw_into, decode_bvxn, decode_bvxn_into,
}

abbrev pub max_decoded_len : ℕ
max_decoded_len = 2 ^ 20

-- `==` of slices
unfoldable pub bytes_eq : Bytes → Bytes → Bool
bytes_eq [] [] = true
bytes_eq [] (y ∷ ys) = false
bytes_eq (x ∷ xs) [] = false
bytes_eq (x ∷ xs) (y ∷ ys) = x == y && bytes_eq xs ys

abbrev pub assert : Bool → Result (Unit {0})
assert true = ok tt
assert false = panic

-- `match (decoded, decoded_into)`
pub agree : Result Bytes → Result (ℕ × Bytes) → Result (Unit {0})
agree (ok decoded) (ok (written, output)) = do
  assert (written == length decoded)
  written_bytes ← slice output 0 written
  assert (bytes_eq written_bytes decoded)
agree (err left) (err right) = ok tt
agree panic right = panic
agree out_of_fuel right = out_of_fuel
agree left panic = panic
agree left out_of_fuel = out_of_fuel
agree left right = panic

-- A call whose result is dropped.
pub finished_call : Result Bytes → Result (Unit {0})
finished_call (ok decoded) = ok tt
finished_call (err e) = ok tt
finished_call panic = panic
finished_call out_of_fuel = out_of_fuel

pub raw_decode : Bytes → Result (Unit {0})
raw_decode bytes = if ltb (length bytes) 4 then ok tt else do
  expected_len ← word_at 4 bytes 0
  if ltb max_decoded_len expected_len then ok tt else do
    encoded ← slice bytes 4 (length bytes)
    agree (decode_raw encoded expected_len) (decode_raw_into encoded (replicate expected_len 0))

-- `match parsed`
pub bvxn_against : Result BvxnHeader → Bytes → Result (Unit {0})
bvxn_against (ok header) bytes =
    if leb header.raw_bytes max_decoded_len
    then agree (decode_bvxn bytes) (decode_bvxn_into bytes (replicate header.raw_bytes 0))
    else finished_call (decode_bvxn bytes)
bvxn_against (err e) bytes = finished_call (decode_bvxn bytes)
bvxn_against panic bytes = panic
bvxn_against out_of_fuel bytes = out_of_fuel

pub bvxn_decode : Bytes → Result (Unit {0})
bvxn_decode bytes = bvxn_against (parse_header bytes) bytes

pub decmpfs_against : Result DecmpfsHeader → Bytes → Bytes → Result (Unit {0})
decmpfs_against (ok header) xattr resource_fork =
    if leb header.uncompressed_size max_decoded_len
    then agree (decode_decmpfs xattr (some resource_fork))
        (decode_decmpfs_into xattr (some resource_fork) (replicate header.uncompressed_size 0))
    else finished_call (decode_decmpfs xattr (some resource_fork))
decmpfs_against (err e) xattr resource_fork =
    finished_call (decode_decmpfs xattr (some resource_fork))
decmpfs_against panic xattr resource_fork = panic
decmpfs_against out_of_fuel xattr resource_fork = out_of_fuel

pub decmpfs_decode : Bytes → Result (Unit {0})
decmpfs_decode bytes = if ltb (length bytes) 4 then ok tt else do
  xattr_len ← word_at 4 bytes 0
  if ltb (length bytes - 4) xattr_len then ok tt else do
    xattr ← slice bytes 4 (4 + xattr_len)
    resource_fork ← slice bytes (4 + xattr_len) (length bytes)
    decmpfs_against (Decmpfs.parse_header xattr) xattr resource_fork
