-- ===== src/Apple/Decmpfs/Codec/RoundTrip.antt =====
-- `decode` gives back what `encode` wrapped, inline or in a resource fork.
use lzvn.Base.{
  ◌≤◌, ◌<◌, ◌≡◌, refl, inl, inr, true, Option, none, some, [], arith, Bytes, length, replicate, leb,
  ◌==◌, eq→==, Bool-cases,
}
use lzvn.Error.{Result, ok}
use lzvn.Words.{zeroed, isize_max}
use lzvn.Apple.Decmpfs.{
  lzvn_xattr, lzvn_resource_fork, from_raw, raw_value, DecmpfsHeader, EncodedDecmpfs,
  decmpfs_max_xattr_data_size, split_xattr,
}
use lzvn.Apple.Decmpfs.Block.{
  IsPayload, best_lzvn_wrapper_payload-IsPayload, decode_lzvn_block-IsPayload,
}
use lzvn.Apple.Decmpfs.Header.{split_xattr-build_xattr}
use lzvn.Apple.Decmpfs.Fork.RoundTrip.{max_source, decode-encode_resource_fork}
use lzvn.Apple.Decmpfs.Codec.{ok_or, decode_body, decode, encode_inline, encode_forked, encode}

-- The wrapper is made, and read back as the source.
abbrev pub Wraps : Result EncodedDecmpfs → Bytes → Type 0
Wraps r src = (e : EncodedDecmpfs) × (r ≡ ok e) × (decode e.xattr e.resource_fork ≡ ok src)

-- A body that fills a buffer of zeros with the source.
decode-body :
    (xattr payload src : Bytes) (fork : Option Bytes) (header : DecmpfsHeader)
    → split_xattr xattr ≡ ok (header, payload)
    → header.uncompressed_size ≡ length src
    → length src ≤ max_source
    → decode_body header.compression_type (length src) payload fork (replicate (length src) 0)
      ≡ ok (length src, src)
    → decode xattr fork ≡ ok src
unfolding decode
decode-body xattr payload src fork header split size small body =
    let same : (length src == length src) ≡ true = eq→== (length src) (length src) refl in
    let zeros : zeroed (length src) ≡ ok (replicate (length src) 0) =
      let fits : leb (length src) isize_max ≡ true = ground arith in
      unfold zeroed in rw fits refl in
    rw (split, size, zeros, body, same) refl

encode_inline-Wraps :
    (src payload : Bytes)
    → length src ≤ max_source
    → IsPayload payload src
    → Wraps (encode_inline src payload) src
unfolding encode_inline decode_body raw_value from_raw
encode_inline-Wraps src payload h is_payload =
    let (xattr, built, split) =
      split_xattr-build_xattr lzvn_xattr (length src) payload tt (omega arith) (omega arith) in
    (
      record { xattr = xattr; resource_fork = none },
      rw built refl,
      decode-body xattr payload src none _ split refl h
          (decode_lzvn_block-IsPayload payload src (omega arith) is_payload),
    )

encode_forked-Wraps :
    (src : Bytes) → 0 < length src → length src ≤ max_source → Wraps (encode_forked src) src
unfolding encode_forked decode_body raw_value from_raw ok_or
encode_forked-Wraps src some_left h =
    let (fork, forked, body) = decode-encode_resource_fork src some_left h in
    let (xattr, built, split) =
      split_xattr-build_xattr lzvn_resource_fork (length src) [] tt (omega arith) (omega arith) in
    (
      record { xattr = xattr; resource_fork = some fork },
      rw (forked, built) refl,
      decode-body xattr [] src (some fork) _ split refl h body,
    )

-- Of a source up to `max_source` bytes, `encode` makes a wrapper, and `decode` gives the source back.
pub decode-encode_wrapper : (src : Bytes) → length src ≤ max_source → Wraps (encode src) src
unfolding encode
decode-encode_wrapper src h =
    let (payload, made, size, is_payload) = best_lzvn_wrapper_payload-IsPayload src in
    elim (Bool-cases (leb (length payload) decmpfs_max_xattr_data_size)) [
      | inl inside ↦ rw (made, inside) (encode_inline-Wraps src payload h is_payload)
      | inr outside ↦ rw (made, outside) (encode_forked-Wraps src (ground arith) h)
    ]
