-- ===== src/Apple/Decmpfs/Codec/Agree.antt =====
-- `decode` and `decode_into` of a wrapper agree.
use lzvn.Base.{
  ℕ, ◌≡◌, refl, inl, inr, not, false, Option, arith, Bytes, length, length-replicate, replicate,
  leb, if◌then◌else◌, ltb, ◌==◌, Bool-cases,
}
use lzvn.Error.{Error, Result, ok, err, panic, out_of_fuel, ◌>>=◌, ◌>>◌, reject_if, size_mismatch}
use lzvn.Words.{zeroed, isize_max}
use lzvn.Apple.Decmpfs.{DecmpfsHeader, parse_header, split_xattr}
use lzvn.Apple.Decmpfs.Codec.{decode_body, decode, decode_into}
use lzvn.Apple.Decmpfs.Codec.Returns.{split_xattr-accepted, split_xattr-refused}

-- What both do behind the header.
checked :
    (size : ℕ) (r : Result (ℕ × Bytes))
    → (r >>= λ (written, dst).
        reject_if (not (written == size)) (size_mismatch size written) >> ok dst)
      ≡ ((r >>= λ (written, dst).
            reject_if (not (written == size)) (size_mismatch size written) >> ok (written, dst))
          >>= λ (written, dst). ok dst)
checked size (ok (written, dst)) = elim (Bool-cases (written == size)) [
  | inl same ↦ rw same refl
  | inr other ↦ rw other refl
]
checked size (err e) = refl
checked size panic = refl
checked size out_of_fuel = refl

-- Of an xattr whose header is read, and whatever stands behind it, `decode` gives what `decode_into`
-- writes to a buffer of zeros of the size that the header declares, or the same error, if this size is
-- at most `isize::MAX`; it panics otherwise.
pub decode-decode_into_wrapper :
    (xattr : Bytes) (resource_fork : Option Bytes) (header : DecmpfsHeader)
    → parse_header xattr ≡ ok header
    → decode xattr resource_fork ≡ (
        if leb header.uncompressed_size isize_max
        then (decode_into xattr resource_fork (replicate header.uncompressed_size 0)
            >>= λ (written, dst). ok dst)
        else panic)
unfolding decode decode_into
decode-decode_into_wrapper xattr resource_fork header parsed =
    let (payload, split) = split_xattr-accepted xattr header parsed in
    elim (Bool-cases (leb header.uncompressed_size isize_max)) [
      | inl small ↦
          let allocated : zeroed header.uncompressed_size
              ≡ ok (replicate header.uncompressed_size 0) =
            unfold zeroed in rw small refl in
          let size : length (replicate {A = ℕ} header.uncompressed_size 0)
              ≡ header.uncompressed_size =
            length-replicate {A = ℕ} header.uncompressed_size 0 in
          let roomy : ltb (length (replicate {A = ℕ} header.uncompressed_size 0))
                header.uncompressed_size
              ≡ false =
            ground arith in
          rw (small, split, allocated, roomy)
            (checked header.uncompressed_size (
              decode_body header.compression_type header.uncompressed_size payload resource_fork
                (replicate header.uncompressed_size 0)))
      | inr large ↦
          let refused : zeroed header.uncompressed_size ≡ panic = unfold zeroed in rw large refl in
          rw (large, split, refused) refl
    ]

pub decode-refused_wrapper :
    (xattr : Bytes) (resource_fork : Option Bytes) (e : Error)
    → parse_header xattr ≡ err e
    → decode xattr resource_fork ≡ err e
unfolding decode
decode-refused_wrapper xattr resource_fork e refused =
    let split : split_xattr xattr ≡ err e = split_xattr-refused xattr e refused in rw split refl
