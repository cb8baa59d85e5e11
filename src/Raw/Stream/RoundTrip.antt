-- ===== src/Raw/Stream/RoundTrip.antt =====
-- What `RawEncoder` hands out is a raw stream of the source.
use lzvn.Base.{◌≡◌, List, ◌∷◌, Bytes, length, concat, ap, ◌∙◌}
use lzvn.Error.{ok, ◌>>=◌}
use lzvn.Raw.Decode.{decode}
use lzvn.Raw.Encode.Loop.{encode}
use lzvn.Raw.Encode.Loop.RoundTrip.{decode-encode}
use lzvn.Stream.{new, finish_input}
use lzvn.Stream.Drain.{total, feed_all, fetched, first_bytes, drain-encode}
use lzvn.Raw.Stream.{drain}

-- Whatever pieces the source is passed in and whatever buffers are fetched, at least one, there is a
-- stream that decodes to the source; the fetched bytes are its first ones, as many as the buffers have
-- room for, and the encoder has finished exactly where these are all.
pub decode-drain :
    (parts : List Bytes) (dst : Bytes) (rest : List Bytes)
    → (encoded : Bytes) × (fetched (drain (dst ∷ rest) (finish_input (feed_all parts new)))
        ≡ first_bytes (total (dst ∷ rest)) encoded)
      × (decode encoded (length (concat parts)) ≡ ok (concat parts))
decode-drain parts dst rest =
    let (encoded, made, decoded) = decode-encode (concat parts) in
    (
      encoded,
      drain-encode encode parts dst rest ∙ ap (λ r. r >>= first_bytes (total (dst ∷ rest))) made,
      decoded,
    )
