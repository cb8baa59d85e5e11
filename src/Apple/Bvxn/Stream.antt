-- ===== src/Apple/Bvxn/Stream.antt =====
-- src/apple/bvxn.rs: `BvxnEncoder`, the buffering encoder of `bvxn::encode`.
use lzvn.Base.{List, Bytes}
use lzvn.Error.{Result}
use lzvn.Stream.{StreamProgress, StreamEncoder}
use lzvn.Stream
use lzvn.Apple.Bvxn.{encode}

abbrev pub encode_into : StreamEncoder → Bytes → Result (StreamProgress × Bytes × StreamEncoder)
encode_into = Stream.encode_into encode

abbrev pub drain : List Bytes → StreamEncoder → Result (Bytes × StreamEncoder)
drain = Stream.drain encode
