-- ===== src/Fuzz/Wrapper.antt =====
-- What the target `decmpfs_decode` asserts holds.
use lzvn.Base.{
  ℕ, ◌+◌, ◌-◌, ◌≤◌, ◌≡◌, refl, ap, ◌∙◌, inl, inr, true, some, arith, Bytes, length,
  length-replicate, take, drop, replicate, ltb, leb, Bool-cases,
}
use lzvn.Error.{Result, ok, err, panic, out_of_fuel, slice, Returns, Returns-map, Any}
use lzvn.Words.{isize_max, word_at_lem, from_le_bytes}
use lzvn.Apple.Decmpfs.{DecmpfsHeader, decmpfs_header_len, parse_header}
use lzvn.Apple.Decmpfs.Codec
use lzvn.Apple.Decmpfs.Codec.Returns.{parse_header-Returns, decode_into-Fills}
use lzvn.Apple.Decmpfs.Codec.Agree.{decode-decode_into_wrapper, decode-refused_wrapper}
use lzvn.Fuzz.{max_decoded_len, finished_call, decmpfs_against, decmpfs_decode}
use lzvn.Fuzz.Agree.{block_agree}

-- The xattr in the target's input.
abbrev pub xattr_of : Bytes → Bytes
xattr_of bytes = take (from_le_bytes (take 4 bytes)) (drop 4 bytes)

against_passes :
    (xattr resource_fork : Bytes)
    → ((header : DecmpfsHeader)
        → parse_header xattr ≡ ok header
        → header.uncompressed_size ≤ isize_max)
    → decmpfs_against (parse_header xattr) xattr resource_fork ≡ ok tt
unfolding decmpfs_against finished_call
against_passes xattr resource_fork small = go (parse_header xattr) refl (parse_header-Returns xattr)
  where
    go :
        (r : Result DecmpfsHeader)
        → parse_header xattr ≡ r
        → Returns (λ header. decmpfs_header_len ≤ length xattr) Any r
        → decmpfs_against r xattr resource_fork ≡ ok tt
    go (ok header) parsed enough =
        let zeros : Bytes = replicate header.uncompressed_size 0 in
        let size_is : length zeros ≡ header.uncompressed_size =
          length-replicate {A = ℕ} header.uncompressed_size 0 in
        let bound = small header parsed in
        let (same, dropped) =
          block_agree header.uncompressed_size (Codec.decode_into xattr (some resource_fork) zeros)
            (Returns-map _ _ _ _ (Codec.decode_into xattr (some resource_fork) zeros)
              (λ (written, output) (kept, (found, found_is, written_is)).
                let equal : found ≡ header = cc in
                (written_is ∙ ap (λ x. x.uncompressed_size) equal, kept ∙ size_is))
              (λ e h. tt) (decode_into-Fills xattr (some resource_fork) zeros (omega arith))) in
        let allowed : leb header.uncompressed_size isize_max ≡ true = ground arith in
        elim (Bool-cases (leb header.uncompressed_size max_decoded_len)) [
          | inl few ↦
              rw (few, decode-decode_into_wrapper xattr (some resource_fork) header parsed, allowed)
                same
          | inr large ↦
              rw
                (
                  large,
                  decode-decode_into_wrapper xattr (some resource_fork) header parsed,
                  allowed,
                )
                dropped
        ]
    go (err e) refused h = rw (decode-refused_wrapper xattr (some resource_fork) e refused) refl
    go panic refused h = absurd h
    go out_of_fuel refused h = absurd h

-- On bytes whose xattr declares at most `isize::MAX` bytes, where it has a header, the target
-- `decmpfs_decode` passes: nothing panics, and `decode` and `decode_into` agree.
pub decmpfs_decode_passes :
    (bytes : Bytes)
    → ((header : DecmpfsHeader)
        → parse_header (xattr_of bytes) ≡ ok header
        → header.uncompressed_size ≤ isize_max)
    → decmpfs_decode bytes ≡ ok tt
unfolding decmpfs_decode
decmpfs_decode_passes bytes small = elim (Bool-cases (ltb (length bytes) 4)) [
  | inl short ↦ rw short refl
  | inr enough ↦
      let read = word_at_lem 4 0 bytes (ground arith) in
      let xattr_len = from_le_bytes (take 4 bytes) in
      elim (Bool-cases (ltb (length bytes - 4) xattr_len)) [
        | inl large ↦ rw (enough, read, large) refl
        | inr fits ↦
            let size : 4 + xattr_len - 4 ≡ xattr_len = omega arith in
            let cut : slice bytes 4 (4 + xattr_len) ≡ ok (xattr_of bytes) = ground (arith, size) in
            let rest : slice bytes (4 + xattr_len) (length bytes)
                ≡ ok (take (length bytes - (4 + xattr_len)) (drop (4 + xattr_len) bytes)) =
              ground arith in
            rw (enough, read, fits, cut, rest) (against_passes (xattr_of bytes) _ small)
      ]
]
