-- ===== src/Apple/Decmpfs/Codec/Returns.antt =====
-- On any xattr and resource fork `decode_into` ends without a panic.
use lzvn.Base.{
  ℕ, ◌-◌, ◌≤◌, ◌<◌, ◌≡◌, refl, inl, inr, Option, none, some, arith, Bytes, length, take, drop, ltb,
  ◌==◌, Bool-cases,
}
use lzvn.Error.{
  Error, Any, Result, ok, err, panic, out_of_fuel, ◌>>=◌, Returns, Returns-bind, slice,
  missing_resource_fork,
}
use lzvn.Words.{usize_max, from_le_bytes, word_at_lem}
use lzvn.Apple.Decmpfs.{
  DecmpfsCompressionType, lzvn_xattr, lzvn_resource_fork, DecmpfsHeader, decmpfs_magic,
  decmpfs_header_len, parse_header, split_xattr,
}
use lzvn.Apple.Decmpfs.Fork.{decode_lzvn_resource_fork}
use lzvn.Apple.Decmpfs.Fork.Returns.{
  Keeps, decode_lzvn_block-Returns, decode_lzvn_resource_fork-Returns,
}
use lzvn.Apple.Decmpfs.Codec.{ok_or, decode_body, decode_into}

pub parse_header-Returns :
    (xattr : Bytes) → Returns (λ header. decmpfs_header_len ≤ length xattr) Any (parse_header xattr)
unfolding parse_header
parse_header-Returns xattr = elim (Bool-cases (ltb (length xattr) decmpfs_header_len)) [
  | inl short ↦ rw short tt
  | inr long ↦
      let enough : decmpfs_header_len ≤ length xattr = ground arith in
      let magic = from_le_bytes (take 4 (drop 0 xattr)) in
      let size = from_le_bytes (take 8 (drop 8 xattr)) in
      let read_magic = word_at_lem 4 0 xattr (omega arith) in
      let read_type = word_at_lem 4 4 xattr (omega arith) in
      let read_size = word_at_lem 8 8 xattr (omega arith) in
      elim (Bool-cases (magic == decmpfs_magic)) [
        | inr other ↦ rw (long, read_magic, other) tt
        | inl same ↦ elim (Bool-cases (ltb usize_max size)) [
          | inl large ↦ rw (long, read_magic, same, read_type, read_size, large) tt
          | inr fits ↦ rw (long, read_magic, same, read_type, read_size, fits) enough
        ]
      ]
]

pub split_xattr-Returns :
    (xattr : Bytes)
    → Returns (λ (header, payload). parse_header xattr ≡ ok header) Any (split_xattr xattr)
unfolding split_xattr
split_xattr-Returns xattr = go (parse_header xattr) refl (parse_header-Returns xattr)
  where
    go :
        (r : Result DecmpfsHeader)
        → parse_header xattr ≡ r
        → Returns (λ header. decmpfs_header_len ≤ length xattr) Any r
        → Returns
            (λ (header, payload). parse_header xattr ≡ ok header)
            Any
            (r >>= λ header.
              slice xattr decmpfs_header_len (length xattr) >>= λ payload. ok (header, payload))
    go (ok header) e long =
        let cut : slice xattr decmpfs_header_len (length xattr)
            ≡ ok (take (length xattr - decmpfs_header_len) (drop decmpfs_header_len xattr)) =
          ground arith in
        rw cut e
    go (err e) same long = tt
    go panic same long = long
    go out_of_fuel same long = long

pub split_xattr-accepted :
    (xattr : Bytes) (header : DecmpfsHeader)
    → parse_header xattr ≡ ok header
    → (payload : Bytes) × (split_xattr xattr ≡ ok (header, payload))
unfolding split_xattr
split_xattr-accepted xattr header parsed =
    let long : decmpfs_header_len ≤ length xattr = rw parsed at (parse_header-Returns xattr) in
    let payload = take (length xattr - decmpfs_header_len) (drop decmpfs_header_len xattr) in
    let cut : slice xattr decmpfs_header_len (length xattr) ≡ ok payload = ground arith in
    (payload, rw (parsed, cut) refl)

pub split_xattr-refused :
    (xattr : Bytes) (e : Error) → parse_header xattr ≡ err e → split_xattr xattr ≡ err e
unfolding split_xattr
split_xattr-refused xattr e refused = rw refused refl

decode_body-Returns :
    (kind : DecmpfsCompressionType) (size : ℕ) (payload : Bytes) (fork : Option Bytes) (dst : Bytes)
    → size ≤ length dst
    → length dst < usize_max
    → Returns (Keeps dst) Any (decode_body kind size payload fork dst)
unfolding decode_body ok_or
decode_body-Returns lzvn_xattr size payload fork dst h small =
    decode_lzvn_block-Returns payload size dst h (omega arith)
decode_body-Returns lzvn_resource_fork size payload fork dst h small =
    elim (Bool-cases (length payload == 0)) [
      | inr some_left ↦ rw some_left tt
      | inl empty ↦ rw empty (with_fork fork)
    ]
  where
    with_fork :
        (fork : Option Bytes)
        → Returns
            (Keeps dst)
            Any
            (ok_or fork missing_resource_fork >>= λ bytes. decode_lzvn_resource_fork bytes size dst)
    with_fork none = tt
    with_fork (some bytes) = decode_lzvn_resource_fork-Returns bytes size dst h (omega arith)
decode_body-Returns _ size payload fork dst h small = tt

-- The whole declared size was written, and the buffer has the length it had.
abbrev pub Fills : Bytes → Bytes → ℕ × Bytes → Type 0
Fills xattr dst (written, dst') =
    (length dst' ≡ length dst)
    × ((header : DecmpfsHeader) × (parse_header xattr ≡ ok header)
        × (written ≡ header.uncompressed_size))

-- On any xattr, resource fork and buffer of less than 2 ^ 64 - 1 bytes `decode_into` ends without a
-- panic, and if it succeeds it has written the size that the header declares, in a buffer of the same
-- length.
pub decode_into-Fills :
    (xattr : Bytes) (fork : Option Bytes) (dst : Bytes)
    → length dst < usize_max
    → Returns (Fills xattr dst) Any (decode_into xattr fork dst)
unfolding decode_into
decode_into-Fills xattr fork dst small =
    Returns-bind (λ (header, payload). parse_header xattr ≡ ok header) (Fills xattr dst) Any
      (split_xattr xattr) _ (split_xattr-Returns xattr)
      (λ (header, payload) parsed.
        let size = header.uncompressed_size in
        elim (Bool-cases (ltb (length dst) size)) [
          | inl tight ↦ rw tight tt
          | inr roomy ↦ rw roomy (
              Returns-bind (Keeps dst) (Fills xattr dst) Any
                (decode_body header.compression_type size payload fork dst) _
                (decode_body-Returns header.compression_type size payload fork dst (ground arith)
                  small)
                (λ (written, dst') kept. elim (Bool-cases (written == size)) [
                  | inr other ↦ rw other tt
                  | inl same ↦ rw same (kept, (header, parsed, ground arith))
                ]))
        ])
