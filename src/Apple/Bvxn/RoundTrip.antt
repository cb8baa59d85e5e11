-- ===== src/Apple/Bvxn/RoundTrip.antt =====
-- What `split_block` accepts, and the round trip of a block.
use lzvn.Base.{
  ℕ, ◌+◌, ◌-◌, ◌≤◌, ◌<◌, ◌≡◌, ◌⊎◌, refl, sym, inl, inr, false, [], ◌++◌, append-nil, append_assoc,
  arith, Bytes, length, length-append, ltb, le→ltb, Bool-cases,
}
use lzvn.Error.{Error, ok, Returns, slice, slice-append, size_overflow}
use lzvn.Words.{u32_max, to_le_bytes, length-to_le_bytes, word_at, word_at-append}
use lzvn.Raw.Encode.Loop.RoundTrip.{decode-encode}
use lzvn.Apple.Bvxn.{
  header_len, bvxn_magic, parse_header, header_bytes, encode, split_block, decode,
}

pub length-header_bytes :
    (raw_bytes payload_bytes : ℕ) → length (header_bytes raw_bytes payload_bytes) ≡ 12
length-header_bytes raw_bytes payload_bytes = omega (
  arith,
  length-append {0} (to_le_bytes 4 bvxn_magic)
      (to_le_bytes 4 raw_bytes ++ to_le_bytes 4 payload_bytes),
  length-append {0} (to_le_bytes 4 raw_bytes) (to_le_bytes 4 payload_bytes),
  length-to_le_bytes 4 bvxn_magic,
  length-to_le_bytes 4 raw_bytes,
  length-to_le_bytes 4 payload_bytes,
)

-- A header of two 32-bit sizes is read back from any block that begins with it.
pub parse_header-header_bytes :
    (raw_bytes payload_bytes : ℕ) (rest : Bytes)
    → raw_bytes ≤ u32_max
    → payload_bytes ≤ u32_max
    → parse_header (header_bytes raw_bytes payload_bytes ++ rest)
      ≡ ok (record { raw_bytes = raw_bytes; payload_bytes = payload_bytes })
unfolding parse_header
parse_header-header_bytes raw_bytes payload_bytes rest hr hp =
    let m = to_le_bytes 4 bvxn_magic in
    let r = to_le_bytes 4 raw_bytes in
    let p = to_le_bytes 4 payload_bytes in
    let block = header_bytes raw_bytes payload_bytes ++ rest in
    let long : ltb (length block) 12 ≡ false = le→ltb _ _ (
      omega (
        arith,
        length-append {0} (header_bytes raw_bytes payload_bytes) rest,
        length-header_bytes raw_bytes payload_bytes,
      )) in
    let regroup : block ≡ m ++ (r ++ (p ++ rest)) = simp append_assoc in
    let regroup' : block ≡ (m ++ r) ++ (p ++ rest) = simp append_assoc in
    let magic : word_at 4 block 0 ≡ ok bvxn_magic =
      rw regroup (word_at-append 4 bvxn_magic 0 [] (r ++ (p ++ rest)) (omega arith) refl) in
    let raw : word_at 4 block 4 ≡ ok raw_bytes = rw regroup (
      word_at-append 4 raw_bytes 4 m (p ++ rest) (omega arith)
        (omega (arith, length-to_le_bytes 4 bvxn_magic))) in
    let payload : word_at 4 block 8 ≡ ok payload_bytes = rw regroup' (
      word_at-append 4 payload_bytes 8 (m ++ r) rest (omega arith) (
        omega (
          arith,
          length-append {0} m r,
          length-to_le_bytes 4 bvxn_magic,
          length-to_le_bytes 4 raw_bytes,
        ))) in
    rw (long, magic, raw, payload)

pub split_block-header_bytes :
    (raw_bytes : ℕ) (payload : Bytes)
    → raw_bytes ≤ u32_max
    → length payload ≤ u32_max
    → split_block (header_bytes raw_bytes (length payload) ++ payload)
      ≡ ok (record { raw_bytes = raw_bytes; payload_bytes = length payload }, payload)
unfolding split_block
split_block-header_bytes raw_bytes payload hr hp =
    let head = header_bytes raw_bytes (length payload) in
    let size = length-header_bytes raw_bytes (length payload) in
    let total = length-append head payload in
    let not_short : ltb (length (head ++ payload)) (12 + length payload) ≡ false =
      le→ltb _ _ (omega (arith, size, total)) in
    let not_long : ltb (12 + length payload) (length (head ++ payload)) ≡ false =
      le→ltb _ _ (omega (arith, size, total)) in
    let cut : slice (head ++ payload) 12 (12 + length payload) ≡ ok payload =
      rw (append-nil payload) at
        (slice-append head payload [] 12 (12 + length payload) (sym size) refl) in
    rw
      (parse_header-header_bytes raw_bytes (length payload) payload hr hp, not_short, not_long, cut)

-- The length of the source, or of its raw stream, does not fit 32 bits, and the error tells it.
abbrev pub IsOverflow : Bytes → Error → Type 0
IsOverflow src (size_overflow value max what) =
    (max ≡ u32_max)
    × (u32_max < value)
    × ((value ≡ length src)
        ⊎ ((payload : Bytes) × (lzvn.Raw.Encode.Loop.encode src ≡ ok payload)
            × (value ≡ length payload)))
IsOverflow src _ = ⊥

-- `encode` fails only where the source or its raw stream has 2 ^ 32 bytes or more, with this length in
-- the error. Otherwise `decode` gives the source back, and the header tells its length and that of the
-- raw stream behind it.
pub decode-encode_bvxn :
    (src : Bytes)
    → Returns
        (λ block.
          (decode block ≡ ok src)
          × (parse_header block
              ≡ ok (record { raw_bytes = length src; payload_bytes = length block - header_len })))
        (IsOverflow src)
        (encode src)
unfolding encode decode
decode-encode_bvxn src =
    let (payload, encoded, decoded) = decode-encode src in
    elim (Bool-cases (ltb u32_max (length src))) [
      | inl large ↦ rw large (refl, ground arith, inl refl)
      | inr fits ↦ elim (Bool-cases (ltb u32_max (length payload))) [
        | inl large ↦ rw (fits, encoded, large) (refl, ground arith, inr (payload, encoded, refl))
        | inr fits' ↦
            let head = header_bytes (length src) (length payload) in
            let rest_size : length (head ++ payload) - 12 ≡ length payload = omega (
              arith,
              length-append {0} head payload,
              length-header_bytes (length src) (length payload),
            ) in
            rw (fits, encoded, fits')
              (
                rw (split_block-header_bytes (length src) payload (ground arith) (ground arith))
                    decoded,
                rw rest_size (
                    parse_header-header_bytes (length src) (length payload) payload (ground arith)
                      (ground arith)),
              )
      ]
    ]
