-- ===== src/Apple/Bvxn/StreamDecoder/Serving.antt =====
-- `BvxnDecoder` once the header is read and the whole payload is passed on: it serves the output.
use lzvn.Base.{
  ◌≡◌, refl, sym, ap, ◌∙◌, ◌⊎◌, inl, inr, min, Bool, true, false, Option, none, some, [], ◌++◌,
  append-nil, arith, Bytes, length, length-append, take, ltb, ◌==◌, if◌then◌else◌,
}
use lzvn.Error.{ok, ◌>>=◌, Returns, Returns-bind}
use lzvn.Stream.{StreamStatus, StreamProgress, need_input, need_output, finished}
use lzvn.Raw.Decode.{Decoder}
use lzvn.Raw.StreamDecoder.{RawDecoder, total_output}
use lzvn.Raw.StreamDecoder.Loop
use lzvn.Raw.StreamDecoder.Loop.Call.{IsOn, StatusOf, Continues, decode_into-Continues}
use lzvn.Raw.StreamDecoder.Feed.{finish_input-history}
use lzvn.Raw.StreamDecoder.Feed.OnWay.{finish_input-IsOn}
use lzvn.Raw.StreamDecoder.Script.{IsOn-front}
use lzvn.Apple.Bvxn.{BvxnHeader}
use lzvn.Apple.Bvxn.StreamDecoder.{
  BvxnDecoder, available_input, pump, pump_payload, settle, expect, decode_payload, begin,
  decode_into,
}

-- The header is read and the whole payload passed on.
pub record IsServing (final : Decoder) (header : BvxnHeader) (d : BvxnDecoder) : Type 0 where
  pub none_left : available_input d ≡ 0
  pub header_is : d.header ≡ some header
  pub none_remaining : d.payload_remaining ≡ 0
  pub clean : d.trailing_after_finish ≡ 0
  pub on : IsOn final [] d.raw
  pub size : length (take final.output final.dst) ≡ header.raw_bytes
  pub ended : d.finished ≡ true → take final.output final.dst ≡ d.raw.history

-- Behind the pump, `pump_payload` ends the raw decoder's input.
pub pump_payload-IsServing :
    (final : Decoder) (header : BvxnHeader) (d d' : BvxnDecoder)
    → pump (min (available_input d) d.payload_remaining) d ≡ ok d'
    → IsServing final header d'
    → (d'' : BvxnDecoder) × (pump_payload d ≡ ok d'')
      × (IsServing final header d''
          × (d''.raw.history ≡ d'.raw.history)
          × (d''.finished ≡ d'.finished))
unfolding pump_payload
pump_payload-IsServing final header d d' pumped s =
    let all : (d'.payload_remaining == 0) ≡ true = ground (arith, s.none_remaining) in
    let none_left : (available_input d' == 0) ≡ true = ground (arith, s.none_left) in
    (
      record d' { raw = lzvn.Raw.StreamDecoder.finish_input d'.raw },
      rw (pumped, all, none_left) refl,
      (
        record {
          none_left = s.none_left;
          header_is = s.header_is;
          none_remaining = s.none_remaining;
          clean = s.clean;
          on = finish_input-IsOn final d'.raw s.on;
          size = s.size;
          ended = λ over. s.ended over ∙ sym (finish_input-history d'.raw);
        },
        finish_input-history d'.raw,
        refl,
      ),
    )

pump_nothing :
    (final : Decoder) (header : BvxnHeader) (d : BvxnDecoder)
    → IsServing final header d
    → pump (min (available_input d) d.payload_remaining) d ≡ ok d
unfolding pump
pump_nothing final header d s =
    let nothing : (min (available_input d) d.payload_remaining == 0) ≡ true =
      ground (arith, s.none_remaining) in
    rw nothing refl

-- What a call leaves while it serves.
abbrev pub Served :
    Decoder → BvxnHeader → BvxnDecoder → Bytes → StreamProgress × Bytes × BvxnDecoder → Type 0
Served final header d dst (progress, dst', d') =
    IsServing final header d'
    × (d'.raw.history ≡ d.raw.history ++ take progress.written dst')
    × (length dst' ≡ length dst)
    × (((progress.status ≡ finished) × (d'.finished ≡ true))
        ⊎ ((progress.status ≡ need_output)
            × (d'.finished ≡ false)
            × (progress.written ≡ length dst)))

pub decode_payload-Served :
    (final : Decoder) (header : BvxnHeader) (d d' : BvxnDecoder) (dst : Bytes)
    → pump_payload d ≡ ok d'
    → IsServing final header d'
    → d'.raw.history ≡ d.raw.history
    → d'.finished ≡ false
    → Returns (Served final header d dst) (λ e. ⊥) (decode_payload d dst)
unfolding decode_payload
decode_payload-Served final header d d' dst pumped s history_is still = rw pumped (
    Returns-bind (Continues final [] d'.raw dst) (Served final header d dst) (λ e. ⊥)
      (Loop.decode_into d'.raw dst) _ (decode_into-Continues final [] d'.raw dst s.on)
      (λ (progress, dst', raw) (on, grown, size, status).
        let found : expect d'.header ≡ ok header = unfold expect in ap expect s.header_is in
        let (rest, rest_is, over) = IsOn-front final [] raw on in
        let fits : ltb header.raw_bytes (length raw.history) ≡ false =
          ground (arith, s.size, ap length rest_is, length-append {0} raw.history rest) in
        rw (found, fits)
          (settled progress dst' raw on
            (grown ∙ ap (λ h. h ++ take progress.written dst') history_is) size progress.status refl
            status)))
  where
    serving :
        (raw : RawDecoder) → IsOn final [] raw → IsServing final header (record d' { raw = raw })
    serving raw on = record {
      none_left = s.none_left;
      header_is = s.header_is;
      none_remaining = s.none_remaining;
      clean = s.clean;
      on = on;
      size = s.size;
      ended = λ over. absurd (cc);
    }

    settled :
        (progress : StreamProgress) (dst' : Bytes) (raw : RawDecoder)
        → IsOn final [] raw
        → raw.history ≡ d.raw.history ++ take progress.written dst'
        → length dst' ≡ length dst
        → (status : StreamStatus) → progress.status ≡ status
        → StatusOf [] raw progress.written (length dst) status
        → Returns
            (Served final header d dst)
            (λ e. ⊥)
            (settle status header (record d' { raw = raw }) >>= λ d''. ok (progress, dst', d''))
    settled progress dst' raw on grown size need_input is (open_still, hungry) =
        absurd (omega arith)
    settled progress dst' raw on grown size need_output is (open_still, full) =
        unfold settle in (serving raw on, grown, size, inr (is, still, full))
    settled progress dst' raw on grown size finished is over =
        let (rest, rest_is, none_left) = IsOn-front final [] raw on in
        let all : take final.output final.dst ≡ raw.history =
          rest_is ∙ ap (λ x. raw.history ++ x) (none_left over) ∙ append-nil raw.history in
        let same : (length raw.history == header.raw_bytes) ≡ true =
          ground (arith, s.size, ap length all) in
        let clean : (available_input d' == 0) ≡ true = ground (arith, s.none_left) in
        unfold settle in
        rw (same, clean)
          (
            record {
              none_left = s.none_left;
              header_is = s.header_is;
              none_remaining = s.none_remaining;
              clean = s.clean;
              on = on;
              size = s.size;
              ended = λ h. all;
            },
            grown,
            size,
            inl (is, refl),
          )

-- A call on a decoder that serves.
pub decode_into-Served :
    (final : Decoder) (header : BvxnHeader) (d : BvxnDecoder) (dst : Bytes)
    → IsServing final header d
    → Returns (Served final header d dst) (λ e. ⊥) (decode_into d dst)
unfolding decode_into
decode_into-Served final header d dst s =
    let clean : (d.trailing_after_finish == 0) ≡ true = ground (arith, s.clean) in
    rw clean (go d.finished refl)
  where
    known :
        d.finished ≡ false
        → (h : Option BvxnHeader) → d.header ≡ h
        → Returns
            (Served final header d dst)
            (λ e. ⊥)
            (elim h [ none ↦ begin d dst | some header' ↦ decode_payload d dst ])
    known still none is = let is' = s.header_is in cc
    known still (some header') is =
        let (d', pumped, (s', history_is, finished_is)) =
          pump_payload-IsServing final header d d (pump_nothing final header d s) s in
        decode_payload-Served final header d d' dst pumped s' history_is (finished_is ∙ still)

    go :
        (ended : Bool)
        → d.finished ≡ ended
        → Returns
            (Served final header d dst)
            (λ e. ⊥)
            (if ended
              then ok (record { written = 0; status = finished }, dst, d)
              else elim d.header [ none ↦ begin d dst | some header' ↦ decode_payload d dst ])
    go true ended = (s, sym (append-nil d.raw.history), refl, inl (refl, ended))
    go false still = known still d.header refl
