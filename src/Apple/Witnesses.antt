-- ===== src/Apple/Witnesses.antt =====
-- The theorems on the formats of Apple at concrete inputs.
use lzvn.Base.{
  ◌++◌, ◌⊎◌, List, true, false, take, drop, none, ◌≡◌, refl, ◌↔◌, ◌-◌, inl, [], ◌∷◌, arith, Bytes,
  length, replicate,
}
use lzvn.Error.{Any, ok, ◌>>=◌, Returns}
use lzvn.Apple.Bvxn
use lzvn.Apple.Bvxn.RoundTrip.{IsOverflow, decode-encode_bvxn}
use lzvn.Apple.Bvxn.Returns.{FillsBlock, decode_into-FillsBlock}
use lzvn.Apple.Bvxn.Accepts.{IsBlock, split_block_iff}
use lzvn.Apple.Decmpfs.{lzvn_resource_fork, raw_value, split_xattr, build_xattr, decode_lzvn_block}
use lzvn.Apple.Decmpfs.Block.{decode_lzvn_block-IsPayload}
use lzvn.Apple.Decmpfs.Header.{split_xattr-build_xattr}
use lzvn.Apple.Decmpfs.Fork.{encode_resource_fork, decode_lzvn_resource_fork}
use lzvn.Apple.Decmpfs.Fork.RoundTrip.{decode-encode_resource_fork}
use lzvn.Apple.Decmpfs.Codec.{encode}
use lzvn.Apple.Decmpfs.Codec.RoundTrip.{Wraps, decode-encode_wrapper}
use lzvn.Apple.Decmpfs.Codec.{decode_into}
use lzvn.Apple.Decmpfs.Codec.Returns.{Fills, decode_into-Fills}
use lzvn.Apple.Decmpfs.Tests.{hello_xattr, hello_header, parse_header-hello_xattr}
use lzvn.Apple.Decmpfs.Codec
use lzvn.Apple.Decmpfs.Codec.Agree.{decode-decode_into_wrapper}
use lzvn.Apple.Bvxn.Stream
use lzvn.Apple.Bvxn.Tests.{xyz_block, decode_into-xyz_block}
use lzvn.Apple.Bvxn.StreamDecoder
use lzvn.Apple.Bvxn.StreamDecoder.{BvxnDecoder}
use lzvn.Apple.Bvxn.StreamDecoder.Sound.{Decoded, new-IsWhole, feed-IsWhole}
use lzvn.Apple.Bvxn.StreamDecoder.Safe.{decode_into-Decoded}
use lzvn.Apple.Bvxn.StreamDecoder.Loading
use lzvn.Apple.Bvxn.StreamDecoder.Delivery.{fetch, fetch-decode_into, fetch-finishes}
use lzvn.Stream.{new, finish_input, StreamProgress, finished}
use lzvn.Stream.Drain.{feed_all, fetched, first_bytes, drain-encode}

abbrev hello : Bytes
hello = b'h' ∷ b'e' ∷ b'l' ∷ b'l' ∷ b'o' ∷ []

-- A block with a raw stream of one byte.
abbrev block : Bytes
block = b'b' ∷ b'v' ∷ b'x' ∷ b'n' ∷ 0 ∷ 0 ∷ 0 ∷ 0 ∷ 1 ∷ 0 ∷ 0 ∷ 0 ∷ 6 ∷ []

abbrev header : Bvxn.BvxnHeader
header = record { raw_bytes = 0; payload_bytes = 1 }

decode-encode_bvxn_example :
    Returns
      (λ encoded.
        (Bvxn.decode encoded ≡ ok hello)
        × (Bvxn.parse_header encoded
            ≡ ok (record { raw_bytes = 5; payload_bytes = length encoded - 12 })))
      (IsOverflow hello)
      (Bvxn.encode hello)
decode-encode_bvxn_example = decode-encode_bvxn hello

split_block_iff_example :
    (Bvxn.split_block block ≡ ok (header, 6 ∷ [])) ↔ IsBlock block header (6 ∷ [])
split_block_iff_example = split_block_iff block header (6 ∷ []) (
  omega arith,
  (
    omega arith,
    (
      omega arith,
      (
        omega arith,
        (
          omega arith,
          (
            omega arith,
            (
              omega arith,
              (
                omega arith,
                (omega arith, (omega arith, (omega arith, (omega arith, (omega arith, tt))))),
              ),
            ),
          ),
        ),
      ),
    ),
  ),
)

decode_lzvn_block-IsPayload_example :
    decode_lzvn_block (6 ∷ hello) 5 (replicate 5 0) ≡ ok (5, hello)
decode_lzvn_block-IsPayload_example =
    decode_lzvn_block-IsPayload (6 ∷ hello) hello (omega arith) (inl refl)

split_xattr-build_xattr_example :
    (xattr : Bytes) × (build_xattr lzvn_resource_fork 70_000 hello ≡ ok xattr)
    × (split_xattr xattr
        ≡ ok (record { compression_type = lzvn_resource_fork; uncompressed_size = 70_000 }, hello))
unfolding raw_value
split_xattr-build_xattr_example =
    split_xattr-build_xattr lzvn_resource_fork 70_000 hello tt (omega arith) (omega arith)

decode-encode_resource_fork_example :
    (fork : Bytes) × (encode_resource_fork hello ≡ ok fork)
    × (decode_lzvn_resource_fork fork 5 (replicate 5 0) ≡ ok (5, hello))
decode-encode_resource_fork_example = decode-encode_resource_fork hello (omega arith) (omega arith)

decode-encode_wrapper_example : Wraps (encode hello) hello
decode-encode_wrapper_example = decode-encode_wrapper hello (omega arith)

drain-encode_example :
    fetched (Stream.drain (hello ∷ []) (finish_input (feed_all (hello ∷ []) new)))
    ≡ Bvxn.encode hello >>= first_bytes 5
drain-encode_example = drain-encode Bvxn.encode (hello ∷ []) hello []

decode_into-Fills_example :
    Returns (Fills hello_xattr (9 ∷ hello)) Any (decode_into hello_xattr none (9 ∷ hello))
decode_into-Fills_example = decode_into-Fills hello_xattr none (9 ∷ hello) (omega arith)

decode_into-FillsBlock_example : Returns (FillsBlock block hello) Any (Bvxn.decode_into block hello)
decode_into-FillsBlock_example = decode_into-FillsBlock block hello

abbrev xyz_pieces : List Bytes
xyz_pieces = take 14 xyz_block ∷ drop 14 xyz_block ∷ []

fetch-decode_into_example :
    Returns
      (λ (r : Bytes × BvxnDecoder).
        (rest : Bytes) × (b'x' ∷ b'y' ∷ b'z' ∷ b'x' ∷ b'y' ∷ b'z' ∷ b'x' ∷ [] ≡ r.0 ++ rest)
        × ((rest ≡ []) ⊎ (StreamDecoder.is_finished r.1 ≡ false)))
      (λ e. ⊥)
      (fetch (replicate 2 0 ∷ replicate 6 0 ∷ []) (Loading.feed_all xyz_pieces StreamDecoder.new))
fetch-decode_into_example =
    fetch-decode_into xyz_block (replicate 8 1)
      (b'x' ∷ b'y' ∷ b'z' ∷ b'x' ∷ b'y' ∷ b'z' ∷ b'x' ∷ 1 ∷ []) 7 xyz_pieces
      (replicate 2 0 ∷ replicate 6 0 ∷ []) decode_into-xyz_block refl

fetch-nothing :
    fetch [] (Loading.feed_all xyz_pieces StreamDecoder.new)
    ≡ ok ([], Loading.feed_all xyz_pieces StreamDecoder.new)
unfolding fetch
fetch-nothing = refl

fetch-finishes_example :
    Returns
      (λ (s : StreamProgress × Bytes × BvxnDecoder).
        (s.0.status ≡ finished)
        × (StreamDecoder.is_finished s.2 ≡ true)
        × (b'x' ∷ b'y' ∷ b'z' ∷ b'x' ∷ b'y' ∷ b'z' ∷ b'x' ∷ [] ≡ take s.0.written s.1))
      (λ e. ⊥)
      (StreamDecoder.decode_into (Loading.feed_all xyz_pieces StreamDecoder.new) (replicate 8 0))
fetch-finishes_example =
    fetch-finishes xyz_block (replicate 8 1)
      (b'x' ∷ b'y' ∷ b'z' ∷ b'x' ∷ b'y' ∷ b'z' ∷ b'x' ∷ 1 ∷ []) (replicate 8 0) 7 xyz_pieces [] []
      (Loading.feed_all xyz_pieces StreamDecoder.new) decode_into-xyz_block refl fetch-nothing
      (omega arith)

abbrev xyz_block_fed : BvxnDecoder
xyz_block_fed = StreamDecoder.feed StreamDecoder.new xyz_block

decode_into-Decoded_example :
    Returns
      (Decoded xyz_block_fed (replicate 3 0))
      Any
      (StreamDecoder.decode_into xyz_block_fed (replicate 3 0))
decode_into-Decoded_example =
    decode_into-Decoded xyz_block_fed (replicate 3 0)
      (feed-IsWhole StreamDecoder.new xyz_block new-IsWhole)

decode-decode_into_wrapper_example :
    Codec.decode hello_xattr none
    ≡ Codec.decode_into hello_xattr none (replicate 5 0) >>= λ (written, dst). ok dst
decode-decode_into_wrapper_example =
    decode-decode_into_wrapper hello_xattr none hello_header parse_header-hello_xattr
