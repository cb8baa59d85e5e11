-- ===== src/Apple/Bvxn/StreamDecoder/Loading.antt =====
-- `BvxnDecoder` fed with a whole block: its first call reads the header and passes the payload on.
use lzvn.Base.{
  ℕ, ◌+◌, ◌-◌, ◌≤◌, ◌≡◌, refl, sym, ap, ◌∙◌, inl, inr, min, true, false, some, List, [], ◌∷◌, ◌++◌,
  append-nil, append_assoc, arith, Bytes, length, length-drop, length-take, take-length, take, drop,
  drop-append_left, take-append_left, take-append-drop, concat, nothing_of_length, ltb, ◌==◌,
  Bool-cases,
}
use lzvn.Error.{ok, slice, Returns, Returns-map}
use lzvn.Words.{word_at_lem, from_le_bytes}
use lzvn.Raw.Decode.{Decoder}
use lzvn.Raw.StreamDecoder.{RawDecoder, total_output}
use lzvn.Raw.StreamDecoder.Loop.Call.{IsOn}
use lzvn.Raw.StreamDecoder.Feed.{feed-history}
use lzvn.Raw.StreamDecoder.Feed.OnWay.{feed-IsOn}
use lzvn.Apple.Bvxn.{BvxnHeader, bvxn_magic, header_len, parse_header, split_block}
use lzvn.Apple.Bvxn.Accepts.{
  word, parse_header-eq-ok, accepted, split_block-parsed, decode_into-decoded,
}
use lzvn.Apple.Bvxn.StreamDecoder.{
  BvxnDecoder, new, feed, available_input, pump, read_header, decode_payload, begin, decode_into,
}
use lzvn.Apple.Bvxn.StreamDecoder.Sound.{compact-Same}
use lzvn.Apple.Bvxn.StreamDecoder.Serving.{
  IsServing, pump_payload-IsServing, Served, decode_payload-Served,
}
use lzvn.Apple.Bvxn.Returns.{FillsBlock, decode_into-FillsBlock}

-- A decoder that is fed and has done nothing else.
abbrev pub loaded : Bytes → BvxnDecoder
loaded src = record new { input = src }

abbrev pub feed_all : List Bytes → BvxnDecoder → BvxnDecoder
feed_all [] d = d
feed_all (piece ∷ pieces) d = feed_all pieces (feed d piece)

feed-loaded : (src bytes : Bytes) → feed (loaded src) bytes ≡ loaded (src ++ bytes)
unfolding feed
feed-loaded src [] = ap loaded (sym (append-nil src))
feed-loaded src (x ∷ bytes) =
    let some_bytes : (length (x ∷ bytes) == 0) ≡ false = ground arith in rw some_bytes refl

pub feed_all-loaded :
    (pieces : List Bytes) (src : Bytes)
    → feed_all pieces (loaded src) ≡ loaded (src ++ concat pieces)
feed_all-loaded [] src = ap loaded (sym (append-nil src))
feed_all-loaded (piece ∷ pieces) src =
    ap (feed_all pieces) (feed-loaded src piece)
    ∙ feed_all-loaded pieces (src ++ piece)
    ∙ ap loaded (append_assoc src piece (concat pieces))

-- The first bytes hold the header.
window :
    (src : Bytes) (k n : ℕ)
    → 12 ≤ length src
    → k + n ≤ 12
    → take n (drop k (take 12 src)) ≡ take n (drop k src)
window src k n h fits =
    let size = length-take {0} 12 src in
    sym (
      take-append_left (drop k (take 12 src)) (drop 12 src) n
        (omega (arith, length-drop {0} k (take 12 src))))
    ∙ ap (take n) (sym (drop-append_left (take 12 src) (drop 12 src) k (omega arith)))
    ∙ ap (λ x. take n (drop k x)) (take-append-drop 12 src)

parse_header-take :
    (src : Bytes) (header : BvxnHeader)
    → parse_header src ≡ ok header
    → parse_header (take 12 src) ≡ ok header
unfolding parse_header
parse_header-take src header h =
    let (enough, magic, raw, payload) = parse_header-eq-ok src header h in
    let size = length-take {0} 12 src in
    let a =
      word_at_lem 4 0 (take 12 src) (omega arith)
      ∙ ap (λ x. ok (from_le_bytes x)) (window src 0 4 enough (omega arith)) in
    let b =
      word_at_lem 4 4 (take 12 src) (omega arith)
      ∙ ap (λ x. ok (from_le_bytes x)) (window src 4 4 enough (omega arith)) in
    let c =
      word_at_lem 4 8 (take 12 src) (omega arith)
      ∙ ap (λ x. ok (from_le_bytes x)) (window src 8 4 enough (omega arith)) in
    let long : ltb (length (take 12 src)) 12 ≡ false = ground arith in
    let known : (word src 0 == bvxn_magic) ≡ true = ground (arith, magic) in
    rw (long, a, b, c, known, raw, payload) refl

-- The header is read and the payload is left to be passed on.
record Ready (header : BvxnHeader) (payload : Bytes) (d : BvxnDecoder) : Type 0 where
  pub inside : d.input_offset ≤ length d.input
  pub payload_is : drop d.input_offset d.input ≡ payload
  pub header_is : d.header ≡ some header
  pub remaining_is : d.payload_remaining ≡ length payload
  pub raw_is : d.raw ≡ lzvn.Raw.StreamDecoder.new
  pub going : d.finished ≡ false
  pub clean : d.trailing_after_finish ≡ 0

read_header-Ready :
    (src payload : Bytes) (header : BvxnHeader)
    → parse_header src ≡ ok header
    → drop 12 src ≡ payload
    → 12 ≤ length src
    → length payload ≡ header.payload_bytes
    → (d : BvxnDecoder) × (read_header (loaded src) ≡ ok d) × Ready header payload d
unfolding read_header
read_header-Ready src payload header parsed payload_is enough size =
    let cut : slice src 0 (0 + 12) ≡ ok (take 12 src) = ground arith in
    let (
      d,
      compacted,
      (inside, header_is, raw_is, finished_is, remaining_is, unread_is, input_is, trailing_is),
    ) =
      compact-Same
        (record (loaded src) {
          header = some header;
          payload_remaining = header.payload_bytes;
          input_offset = 0 + 12;
        })
        (omega arith) in
    (
      d,
      rw (cut, parse_header-take src header parsed, compacted) refl,
      record {
        inside = inside;
        payload_is = unread_is ∙ payload_is;
        header_is = header_is;
        remaining_is = remaining_is ∙ sym size;
        raw_is = raw_is;
        going = finished_is;
        clean = trailing_is;
      },
    )

moved_IsOn :
    (final : Decoder) (unfed unfed' : Bytes) (raw raw' : RawDecoder)
    → raw' ≡ raw
    → unfed' ≡ unfed
    → IsOn final unfed raw
    → IsOn final unfed' raw'
moved_IsOn final unfed unfed' raw raw' same rest on = rw (same, rest) on

-- The payload is passed on.
pump-Ready :
    (final : Decoder) (header : BvxnHeader) (payload : Bytes) (d : BvxnDecoder)
    → Ready header payload d
    → IsOn final payload lzvn.Raw.StreamDecoder.new
    → length (take final.output final.dst) ≡ header.raw_bytes
    → (d' : BvxnDecoder) × (pump (min (available_input d) d.payload_remaining) d ≡ ok d')
      × (IsServing final header d' × (d'.raw.history ≡ []) × (d'.finished ≡ false))
unfolding pump
pump-Ready final header payload d r on size =
    let left : length payload ≡ available_input d =
      ap length (sym r.payload_is) ∙ length-drop d.input_offset d.input in
    let all : min (available_input d) d.payload_remaining ≡ length payload =
      omega (arith, r.remaining_is) in
    rw all (elim (Bool-cases (length payload == 0)) [
      | inl nothing ↦
          let empty : [] ≡ payload = sym (nothing_of_length payload (ground arith)) in
          (
            d,
            rw nothing refl,
            (
              record {
                none_left = ground (arith, left);
                header_is = r.header_is;
                none_remaining = ground (arith, r.remaining_is);
                clean = r.clean;
                on = moved_IsOn final payload [] lzvn.Raw.StreamDecoder.new d.raw r.raw_is empty on;
                size = size;
                ended = λ over. absurd (let going = r.going in cc);
              },
              ap (λ q. q.history) r.raw_is,
              r.going,
            ),
          )
      | inr some_bytes ↦
          let whole : take (d.input_offset + length payload - d.input_offset)
                (drop d.input_offset d.input)
              ≡ payload =
            take-length _ (drop d.input_offset d.input) (omega (arith, ap length r.payload_is))
            ∙ r.payload_is in
          let inside = r.inside in
          let cut : slice d.input d.input_offset (d.input_offset + length payload) ≡ ok payload =
            ground (arith, whole) in
          let (
            d',
            compacted,
            (
              inside', header_is, raw_is, finished_is, remaining_is, unread_is, input_is,
              trailing_is,
            ),
          ) =
            compact-Same
              (record d {
                raw = lzvn.Raw.StreamDecoder.feed d.raw payload;
                input_offset = d.input_offset + length payload;
                payload_remaining = d.payload_remaining - length payload;
              })
              (omega arith) in
          let fed_raw : d'.raw ≡ lzvn.Raw.StreamDecoder.feed lzvn.Raw.StreamDecoder.new payload =
            raw_is ∙ ap (λ q. lzvn.Raw.StreamDecoder.feed q payload) r.raw_is in
          let fed_on = feed-IsOn final payload [] lzvn.Raw.StreamDecoder.new (
            moved_IsOn final payload (payload ++ []) lzvn.Raw.StreamDecoder.new
              lzvn.Raw.StreamDecoder.new refl (append-nil payload) on) in
          (
            d',
            rw (some_bytes, cut, compacted) refl,
            (
              record {
                none_left = omega (
                  arith,
                  ap length unread_is,
                  length-drop {0} d'.input_offset d'.input,
                  length-drop {0} (d.input_offset + length payload) d.input,
                );
                header_is = header_is ∙ r.header_is;
                none_remaining = omega (arith, remaining_is, r.remaining_is);
                clean = trailing_is ∙ r.clean;
                on = moved_IsOn final [] [] _ d'.raw fed_raw refl fed_on;
                size = size;
                ended = λ over. absurd (let going = finished_is ∙ r.going in cc);
              },
              ap (λ q. q.history) fed_raw ∙ feed-history lzvn.Raw.StreamDecoder.new payload,
              finished_is ∙ r.going,
            ),
          )
    ])

-- What `decode_into` on the whole block takes, and what it passes on.
pub record Takes (src dst dst' : Bytes) (written : ℕ) : Type 0 where
  pub header : BvxnHeader
  pub payload : Bytes
  pub parsed : parse_header src ≡ ok header
  pub payload_is : drop 12 src ≡ payload
  pub total : length src ≡ 12 + header.payload_bytes
  pub decoded : lzvn.Raw.Decode.decode_into payload dst ≡ ok (written, dst')
  pub written_is : written ≡ header.raw_bytes
  pub fits : written ≤ length dst'

pub decode_into-Takes :
    (src dst dst' : Bytes) (written : ℕ)
    → lzvn.Apple.Bvxn.decode_into src dst ≡ ok (written, dst')
    → Takes src dst dst' written
decode_into-Takes src dst dst' written h =
    let filled : FillsBlock src dst (written, dst') = rw h at (decode_into-FillsBlock src dst) in
    let ((fits, size, kept), (header, payload, split, written_is)) = filled in
    let (found, parsed) = split_block-parsed src header payload split in
    let (enough, magic, raw, bytes) = parse_header-eq-ok src found parsed in
    let (same, payload_is, total) = accepted src found header payload enough parsed split in
    record {
      header = header;
      payload = payload;
      parsed = parsed ∙ ap ok same;
      payload_is = payload_is;
      total = total ∙ ap (λ x. 12 + x.payload_bytes) same;
      decoded = decode_into-decoded src dst dst' written header payload split h;
      written_is = written_is;
      fits = omega arith;
    }

-- The first call that reads the header.
pub first-Served :
    (final : Decoder) (src dst dst' buffer : Bytes) (written : ℕ) (t : Takes src dst dst' written)
    → IsOn final t.payload lzvn.Raw.StreamDecoder.new
    → take final.output final.dst ≡ take written dst'
    → Returns (Served final t.header (loaded src) buffer) (λ e. ⊥) (decode_into (loaded src) buffer)
unfolding decode_into begin
first-Served final src dst dst' buffer written t on output_is =
    let enough : 12 ≤ length src = omega (arith, t.total) in
    let left : ltb (length src - 0) 12 ≡ false = ground arith in
    let payload_size : length t.payload ≡ t.header.payload_bytes =
      omega (arith, ap length t.payload_is, length-drop {0} 12 src, t.total) in
    let size : length (take final.output final.dst) ≡ t.header.raw_bytes =
      omega (arith, ap length output_is, length-take {0} written dst', t.fits, t.written_is) in
    let (d, read, ready) =
      read_header-Ready src t.payload t.header t.parsed t.payload_is enough payload_size in
    let (d', pumped, (serving, history_is, going)) =
      pump-Ready final t.header t.payload d ready on size in
    let (d'', ended, (serving', history_is', going')) =
      pump_payload-IsServing final t.header d d' pumped serving in
    let fresh : d.raw.history ≡ [] = ap (λ q. q.history) ready.raw_is in
    rw (left, read)
      (Returns-map (Served final t.header d buffer) (Served final t.header (loaded src) buffer) _ _
        (decode_payload d buffer)
        (λ r s. (s.0, s.1 ∙ ap (λ h. h ++ take r.0.written r.1) fresh, s.2, s.3)) (λ e h. h)
        (decode_payload-Served final t.header d d'' buffer ended serving'
          (history_is' ∙ history_is ∙ sym fresh) (going' ∙ going)))
