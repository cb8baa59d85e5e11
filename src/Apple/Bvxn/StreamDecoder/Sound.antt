-- ===== src/Apple/Bvxn/StreamDecoder/Sound.antt =====
-- The invariant of `BvxnDecoder`, and that its operations keep it and never panic.
use lzvn.Base.{
  ℕ, ◌+◌, ◌-◌, ◌*◌, ◌≤◌, ◌≡◌, ◌↔◌, refl, ap, ◌∙◌, inl, inr, min, Bool, true, false, not, ◌&&◌, ◌||◌,
  none, some, [], ◌++◌, arith, Bytes, length, length-append, length-drop, take-length, take, drop,
  leb, ◌==◌, Bool-cases, if◌then◌else◌,
}
use lzvn.Error.{ok, slice, Returns, Returns-bind, Any}
use lzvn.Stream.{StreamProgress, finished}
use lzvn.Raw.StreamDecoder.{RawDecoder, total_output}
use lzvn.Raw.StreamDecoder.Loop.Sound.{IsSound}
use lzvn.Raw.StreamDecoder.Feed.{
  new-IsSound, feed-IsSound, finish_input-IsSound, feed-history, finish_input-history,
}
use lzvn.Apple.Bvxn.{BvxnHeader, parse_header}
use lzvn.Apple.Bvxn.Returns.{parse_header-Returns}
use lzvn.Apple.Bvxn.StreamDecoder.{
  BvxnDecoder, new, feed, finish_input, available_input, compact_input_if_necessary, pump,
  pump_payload, read_header,
}

-- What the raw decoder has written fits the header, which is there as soon as there is output; when the
-- decoder is finished, it is what the header declares.
pub record IsWhole (d : BvxnDecoder) : Type 0 where
  pub inside : d.input_offset ≤ length d.input
  pub raw_sound : IsSound d.raw
  pub fresh : d.header ≡ none → d.raw.history ≡ []
  pub bounded :
      (header : BvxnHeader) → d.header ≡ some header → length d.raw.history ≤ header.raw_bytes
  pub ended :
      d.finished ≡ true
      → (header : BvxnHeader) × (d.header ≡ some header) × (length d.raw.history ≡ header.raw_bytes)

pub new-IsWhole : IsWhole new
new-IsWhole = record {
  inside = omega arith;
  raw_sound = new-IsSound;
  fresh = λ h. refl;
  bounded = λ header h. omega arith;
  ended = λ h. absurd (cc);
}

pub finish_input-IsWhole : (d : BvxnDecoder) → IsWhole d → IsWhole (finish_input d)
finish_input-IsWhole d w = record {
  inside = w.inside;
  raw_sound = w.raw_sound;
  fresh = w.fresh;
  bounded = w.bounded;
  ended = w.ended;
}

pub feed-IsWhole : (d : BvxnDecoder) (bytes : Bytes) → IsWhole d → IsWhole (feed d bytes)
unfolding feed
feed-IsWhole d bytes w = elim (Bool-cases (length bytes == 0)) [
  | inl empty ↦ rw empty w
  | inr some_bytes ↦ rw some_bytes (go d.finished refl)
]
  where
    go :
        (ended : Bool)
        → d.finished ≡ ended
        → IsWhole (
            if ended
            then record d { trailing_after_finish = d.trailing_after_finish + length bytes }
            else record d { input = d.input ++ bytes })
    go true ended = record {
      inside = w.inside;
      raw_sound = w.raw_sound;
      fresh = w.fresh;
      bounded = w.bounded;
      ended = w.ended;
    }
    go false still = record {
      inside = omega (arith, w.inside, length-append {0} d.input bytes);
      raw_sound = w.raw_sound;
      fresh = w.fresh;
      bounded = w.bounded;
      ended = w.ended;
    }

-- Compaction changes only the input and where it begins.
abbrev pub Same : BvxnDecoder → BvxnDecoder → Type 0
Same d d' =
    (d'.input_offset ≤ length d'.input)
    × (d'.header ≡ d.header)
    × (d'.raw ≡ d.raw)
    × (d'.finished ≡ d.finished)
    × (d'.payload_remaining ≡ d.payload_remaining)
    × (drop d'.input_offset d'.input ≡ drop d.input_offset d.input)
    × (d'.finished_input ≡ d.finished_input)
    × (d'.trailing_after_finish ≡ d.trailing_after_finish)

pub compact-Same :
    (d : BvxnDecoder)
    → d.input_offset ≤ length d.input
    → (d' : BvxnDecoder) × (compact_input_if_necessary d ≡ ok d') × Same d d'
unfolding compact_input_if_necessary
compact-Same d h =
    elim (Bool-cases (
      not (d.input_offset == 0)
      && (d.input_offset == length d.input || leb (length d.input) (d.input_offset * 2)))) [
        | inr not_needed ↦ (d, rw not_needed refl, (h, refl, refl, refl, refl, refl, refl, refl))
        | inl needed ↦
            let whole : take (length d.input - d.input_offset) (drop d.input_offset d.input)
                ≡ drop d.input_offset d.input =
              take-length _ (drop d.input_offset d.input)
                (omega (arith, length-drop {0} d.input_offset d.input)) in
            let cut : slice d.input d.input_offset (length d.input)
                ≡ ok (drop d.input_offset d.input) =
              ground (arith, whole) in
            (
              record d {
                input = drop d.input_offset d.input;
                input_base = d.input_base + d.input_offset;
                input_offset = 0;
              },
              rw (needed, cut) refl,
              (omega arith, refl, refl, refl, refl, refl, refl, refl),
            )
      ]

-- The header is read, and nothing else is changed.
pub read_header-Returns :
    (d : BvxnDecoder)
    → d.input_offset + 12 ≤ length d.input
    → Returns
        (λ d'.
          (header : BvxnHeader) × (d'.header ≡ some header)
          × (d'.input_offset ≤ length d'.input)
          × (d'.raw ≡ d.raw)
          × (d'.finished ≡ d.finished))
        Any
        (read_header d)
unfolding read_header
read_header-Returns d h =
    let cut : slice d.input d.input_offset (d.input_offset + 12)
        ≡ ok (take 12 (drop d.input_offset d.input)) =
      let size : d.input_offset + 12 - d.input_offset ≡ 12 = omega arith in ground (arith, size) in
    rw cut (
      Returns-bind _ _ Any (parse_header (take 12 (drop d.input_offset d.input))) _
        (parse_header-Returns (take 12 (drop d.input_offset d.input)))
        (λ header enough.
          let (
            d',
            compacted,
            (
              inside, header_is, raw_is, finished_is, remaining_is, unread_is, input_is,
              trailing_is,
            ),
          ) =
            compact-Same
              (record d {
                header = some header;
                payload_remaining = header.payload_bytes;
                input_offset = d.input_offset + 12;
              })
              h in
          rw compacted (header, header_is, inside, raw_is, finished_is)))

-- What `pump_payload` passes on goes into the raw decoder, and nothing is written.
abbrev Pumped : BvxnDecoder → BvxnDecoder → Type 0
Pumped d d' =
    (d'.input_offset ≤ length d'.input)
    × (d'.header ≡ d.header)
    × IsSound d'.raw
    × (d'.raw.history ≡ d.raw.history)
    × (d'.finished ≡ d.finished)

pump-Pumped :
    (d : BvxnDecoder) (to_feed : ℕ)
    → d.input_offset + to_feed ≤ length d.input
    → IsSound d.raw
    → (d' : BvxnDecoder) × (pump to_feed d ≡ ok d') × Pumped d d'
unfolding pump
pump-Pumped d to_feed h s = elim (Bool-cases (to_feed == 0)) [
  | inl nothing ↦ (d, rw nothing refl, (omega arith, refl, s, refl, refl))
  | inr some_bytes ↦
      let size : d.input_offset + to_feed - d.input_offset ≡ to_feed = omega arith in
      let bytes = take to_feed (drop d.input_offset d.input) in
      let cut : slice d.input d.input_offset (d.input_offset + to_feed) ≡ ok bytes =
        ground (arith, size) in
      let (
        d',
        compacted,
        (inside, header_is, raw_is, finished_is, remaining_is, unread_is, input_is, trailing_is),
      ) =
        compact-Same
          (record d {
            raw = lzvn.Raw.StreamDecoder.feed d.raw bytes;
            input_offset = d.input_offset + to_feed;
            payload_remaining = d.payload_remaining - to_feed;
          })
          h in
      (
        d',
        rw (some_bytes, cut, compacted) refl,
        (
          inside,
          header_is,
          rw raw_is (feed-IsSound d.raw bytes s),
          ap (λ r. r.history) raw_is ∙ feed-history d.raw bytes,
          finished_is,
        ),
      )
]

pub pump_payload-Returns :
    (d : BvxnDecoder)
    → d.input_offset ≤ length d.input
    → IsSound d.raw
    → Returns (Pumped d) Any (pump_payload d)
unfolding pump_payload
pump_payload-Returns d h s =
    let (d', pumped, (inside, header_is, raw_sound, history_is, finished_is)) =
      pump-Pumped d (min (available_input d) d.payload_remaining) (omega arith) s in
    elim (Bool-cases (d'.payload_remaining == 0)) [
      | inr more ↦ rw (pumped, more) (inside, header_is, raw_sound, history_is, finished_is)
      | inl all ↦ elim (Bool-cases (available_input d' == 0)) [
        | inr trailing ↦ rw (pumped, all, trailing) tt
        | inl clean ↦
            rw (pumped, all, clean)
              (
                inside,
                header_is,
                finish_input-IsSound d'.raw raw_sound,
                finish_input-history d'.raw ∙ history_is,
                finished_is,
              )
      ]
    ]

-- A call that returns keeps the invariant and the buffer's length, and writes what the history gains;
-- the status is `Finished` where the decoder is finished.
abbrev pub Decoded : BvxnDecoder → Bytes → StreamProgress × Bytes × BvxnDecoder → Type 0
Decoded d dst (progress, dst', d') =
    IsWhole d'
    × (length dst' ≡ length dst)
    × (progress.written ≤ length dst)
    × (d'.raw.history ≡ d.raw.history ++ take progress.written dst')
    × ((progress.status ≡ finished) ↔ (d'.finished ≡ true))
