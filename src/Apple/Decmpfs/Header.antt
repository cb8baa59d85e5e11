-- ===== src/Apple/Decmpfs/Header.antt =====
-- The xattr header of `build_xattr` is read back by `split_xattr`.
use lzvn.Base.{
  ℕ, ◌+◌, ◌-◌, ◌^◌, ◌≤◌, ◌<◌, ◌⊎◌, ◌≡◌, refl, sym, ap, ◌∙◌, false, [], ◌++◌, append-nil,
  append_assoc, arith, Bytes, length, length-append, ltb, le→ltb,
}
use lzvn.Error.{ok, slice, slice-append}
use lzvn.Words.{u32_max, usize_max, to_le_bytes, length-to_le_bytes, word_at, word_at-append}
use lzvn.Apple.Decmpfs.{
  DecmpfsCompressionType, zlib_xattr, zlib_resource_fork, lzvn_xattr, lzvn_resource_fork, raw_xattr,
  raw_resource_fork, lzfse_xattr, lzfse_resource_fork, lz_bitmap_xattr, lz_bitmap_resource_fork,
  unknown, from_raw, raw_value, decmpfs_magic, parse_header, split_xattr, build_xattr,
}

-- The number of a compression type is kept, known or not.
pub raw_value-from_raw : (value : ℕ) → raw_value (from_raw value) ≡ value
unfolding raw_value from_raw
raw_value-from_raw value = ground arith

-- `unknown` is not used for a number that has a name.
abbrev pub IsProper : DecmpfsCompressionType → Type 0
IsProper (unknown value) = (value < 3) ⊎ ((value ≡ 5) ⊎ ((value ≡ 6) ⊎ (14 < value)))
IsProper _ = Unit {0}

from_raw-raw_value : (t : DecmpfsCompressionType) → IsProper t → from_raw (raw_value t) ≡ t
unfolding raw_value from_raw
from_raw-raw_value zlib_xattr p = refl
from_raw-raw_value zlib_resource_fork p = refl
from_raw-raw_value lzvn_xattr p = refl
from_raw-raw_value lzvn_resource_fork p = refl
from_raw-raw_value raw_xattr p = refl
from_raw-raw_value raw_resource_fork p = refl
from_raw-raw_value lzfse_xattr p = refl
from_raw-raw_value lzfse_resource_fork p = refl
from_raw-raw_value lz_bitmap_xattr p = refl
from_raw-raw_value lz_bitmap_resource_fork p = refl
from_raw-raw_value (unknown value) p = ground arith

-- The header of a type and of a 64-bit size is built before any payload, and the type, the size and the
-- payload are split from it again. The number of the type has 32 bits, and is not one of the named
-- types' where the type is `unknown`.
pub split_xattr-build_xattr :
    (compression_type : DecmpfsCompressionType) (size : ℕ) (payload : Bytes)
    → IsProper compression_type
    → raw_value compression_type ≤ u32_max
    → size ≤ usize_max
    → (xattr : Bytes) × (build_xattr compression_type size payload ≡ ok xattr)
      × (split_xattr xattr
          ≡ ok (record { compression_type = compression_type; uncompressed_size = size }, payload))
unfolding build_xattr split_xattr parse_header
split_xattr-build_xattr compression_type size payload proper hc hs =
    let m = to_le_bytes 4 decmpfs_magic in
    let c = to_le_bytes 4 (raw_value compression_type) in
    let s = to_le_bytes 8 size in
    let xattr = m ++ (c ++ (s ++ payload)) in
    let m_size = length-to_le_bytes 4 decmpfs_magic in
    let c_size = length-to_le_bytes 4 (raw_value compression_type) in
    let s_size = length-to_le_bytes 8 size in
    let total : length xattr ≡ 16 + length payload = omega (
      arith,
      length-append {0} m (c ++ (s ++ payload)),
      length-append {0} c (s ++ payload),
      length-append {0} s payload,
      m_size,
      c_size,
      s_size,
    ) in
    let no_overflow : ltb (2 ^ 64 - 1) size ≡ false = le→ltb _ _ (omega arith) in
    let no_overflow' : ltb usize_max size ≡ false = le→ltb _ _ hs in
    let long : ltb (length xattr) 16 ≡ false = le→ltb _ _ (omega arith) in
    let regroup : xattr ≡ (m ++ c) ++ (s ++ payload) = simp append_assoc in
    let regroup' : xattr ≡ (m ++ (c ++ s)) ++ (payload ++ []) = simp (append_assoc, append-nil) in
    let magic : word_at 4 xattr 0 ≡ ok decmpfs_magic =
      word_at-append 4 decmpfs_magic 0 [] (c ++ (s ++ payload)) (omega arith) refl in
    let kind : word_at 4 xattr 4 ≡ ok (raw_value compression_type) =
      word_at-append 4 (raw_value compression_type) 4 m (s ++ payload) (omega arith) (sym m_size) in
    let sized : word_at 8 xattr 8 ≡ ok size = rw regroup (
      word_at-append 8 size 8 (m ++ c) payload (omega arith)
        (omega (arith, length-append {0} m c, m_size, c_size))) in
    let rest : slice xattr 16 (length xattr) ≡ ok payload =
      ap (λ x. slice x 16 (length xattr)) regroup'
      ∙ slice-append (m ++ (c ++ s)) payload [] 16 (length xattr)
          (omega
            (arith, length-append {0} m (c ++ s), length-append {0} c s, m_size, c_size, s_size))
          total in
    (
      xattr,
      rw no_overflow refl,
      rw (long, magic, kind, sized, no_overflow', rest, from_raw-raw_value compression_type proper)
          refl,
    )
