-- ===== src/Words.antt =====
-- Little-endian words: `to_le_bytes` and `from_le_bytes` of the unsigned integers, by the width in
-- bytes, and a word inside a slice.
use lzvn.Base.{
  ℕ, zero, suc, ◌+◌, ◌-◌, ◌*◌, ◌/◌, ◌%◌, ◌^◌, ◌≤◌, ◌<◌, ◌≡◌, refl, ap, [], ◌∷◌, ◌++◌, arith, Bytes,
  length, take, drop, All, IsByte, replicate, leb, if◌then◌else◌,
}
use lzvn.Error.{Result, ok, panic, ◌>>=◌, slice, slice-append}
use native.Mathlib.Nat.{pow-suc}

abbrev pub u32_max : ℕ
u32_max = 2 ^ 32 - 1

-- `usize` of a 64-bit target.
abbrev pub usize_max : ℕ
usize_max = 2 ^ 64 - 1

abbrev pub isize_max : ℕ
isize_max = 2 ^ 63 - 1

-- `vec![0; n]`, which panics above `isize::MAX`
unfoldable pub zeroed : ℕ → Result Bytes
zeroed n = if leb n isize_max then ok (replicate n 0) else panic

unfoldable pub to_le_bytes : ℕ → ℕ → Bytes
to_le_bytes zero value = []
to_le_bytes (suc width) value = value % 256 ∷ to_le_bytes width (value / 256)

unfoldable pub from_le_bytes : Bytes → ℕ
from_le_bytes [] = 0
from_le_bytes (byte ∷ bytes) = byte + 256 * from_le_bytes bytes

-- `uN::from_le_bytes(src[start..start + width].try_into().expect(…))`
unfoldable pub word_at : ℕ → Bytes → ℕ → Result ℕ
word_at width src start = do bytes ← slice src start (start + width); ok (from_le_bytes bytes)

pub length-to_le_bytes : (width value : ℕ) → length (to_le_bytes width value) ≡ width
unfolding to_le_bytes
length-to_le_bytes zero value = refl
length-to_le_bytes (suc width) value = ap suc (length-to_le_bytes width (value / 256))

pub to_le_bytes-IsByte : (width value : ℕ) → All IsByte (to_le_bytes width value)
unfolding to_le_bytes
to_le_bytes-IsByte zero value = tt
to_le_bytes-IsByte (suc width) value = (omega arith, to_le_bytes-IsByte width (value / 256))

pub from_le_bytes-to_le_bytes :
    (width value : ℕ) → value < 256 ^ width → from_le_bytes (to_le_bytes width value) ≡ value
unfolding to_le_bytes from_le_bytes
from_le_bytes-to_le_bytes zero value h = omega arith
from_le_bytes-to_le_bytes (suc width) value h =
    omega (arith, from_le_bytes-to_le_bytes width (value / 256) (omega (arith, pow-suc 256 width)))

-- A word that was written at its place is read back.
pub word_at-append :
    (width value start : ℕ) (pre rest : Bytes)
    → value < 256 ^ width
    → start ≡ length pre
    → word_at width (pre ++ (to_le_bytes width value ++ rest)) start ≡ ok value
unfolding word_at
word_at-append width value start pre rest h hs = rw (
  slice-append pre (to_le_bytes width value) rest start (start + width) hs
      (omega (arith, length-to_le_bytes width value)),
  from_le_bytes-to_le_bytes width value h,
)

pub word_at_lem :
    (width start : ℕ) (src : Bytes)
    → start + width ≤ length src
    → word_at width src start ≡ ok (from_le_bytes (take width (drop start src)))
unfolding word_at
word_at_lem width start src h =
    let size : start + width - start ≡ width = omega arith in ground (arith, size)

pub from_le_bytes-lt :
    (bytes : Bytes) (width : ℕ)
    → All IsByte bytes
    → length bytes ≡ width
    → from_le_bytes bytes < 256 ^ width
unfolding from_le_bytes
from_le_bytes-lt [] zero a h = omega arith
from_le_bytes-lt [] (suc width) a h = absurd (omega arith)
from_le_bytes-lt (b ∷ bytes) zero a h = absurd (omega arith)
from_le_bytes-lt (b ∷ bytes) (suc width) a h =
    omega (arith, from_le_bytes-lt bytes width a.1 (omega arith), pow-suc 256 width, a.0)

pub to_le_bytes-from_le_bytes :
    (bytes : Bytes) (width : ℕ)
    → All IsByte bytes
    → length bytes ≡ width
    → to_le_bytes width (from_le_bytes bytes) ≡ bytes
unfolding to_le_bytes from_le_bytes
to_le_bytes-from_le_bytes [] zero a h = refl
to_le_bytes-from_le_bytes [] (suc width) a h = absurd (omega arith)
to_le_bytes-from_le_bytes (b ∷ bytes) zero a h = absurd (omega arith)
to_le_bytes-from_le_bytes (b ∷ bytes) (suc width) a h =
    let low : (b + 256 * from_le_bytes bytes) % 256 ≡ b = omega (arith, a.0) in
    let high : (b + 256 * from_le_bytes bytes) / 256 ≡ from_le_bytes bytes = omega (arith, a.0) in
    rw (low, high, to_le_bytes-from_le_bytes bytes width a.1 (omega arith))
