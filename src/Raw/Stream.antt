-- ===== src/Raw/Stream.antt =====
-- src/raw/stream.rs: `RawEncoder`, the buffering encoder of `raw::encode`.
pub mod RoundTrip
use lzvn.Base.{List, Bytes}
use lzvn.Error.{Result}
use lzvn.Raw.Encode.Loop.{encode}
use lzvn.Stream.{StreamProgress, StreamEncoder}
use lzvn.Stream

abbrev pub encode_into : StreamEncoder → Bytes → Result (StreamProgress × Bytes × StreamEncoder)
encode_into = Stream.encode_into encode

abbrev pub drain : List Bytes → StreamEncoder → Result (Bytes × StreamEncoder)
drain = Stream.drain encode
