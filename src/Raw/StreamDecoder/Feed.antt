-- ===== src/Raw/StreamDecoder/Feed.antt =====
-- `RawDecoder::new`, `feed` and `finish_input`: what `feed` does, and that they keep the invariant.
pub mod OnWay
use lzvn.Base.{
  ℕ, ◌+◌, ◌≤◌, ◌<◌, ◌≡◌, refl, ap, ◌∙◌, ◌⊎◌, inl, inr, min, Bool, true, false, [], ◌∷◌, ◌++◌,
  append_assoc, arith, Bytes, length, length-append, length-drop, drop-append_left, leb, ◌==◌,
  Bool-cases, if◌then◌else◌, nothing_of_length,
}
use lzvn.Error.{ok}
use lzvn.Words.{usize_max}
use lzvn.Raw.Format.{copy_match}
use lzvn.Raw.Decode.{Decoder, any_nonzero, max_eos_padding, run, start}
use lzvn.Raw.StreamDecoder.{RawDecoder, new, feed, feed_finished, finish_input}
use lzvn.Raw.StreamDecoder.Copies.{unread}
use lzvn.Raw.StreamDecoder.Loop.Sound.{IsSound}
use lzvn.Raw.StreamDecoder.Loop.Track.{Tracks}
use lzvn.Raw.StreamDecoder.Loop.Agree.{any_nonzero_append}
use lzvn.Raw.StreamDecoder.Loop.Call.{IsOn}

pub new-IsSound : IsSound new
new-IsSound = record {
  valid = record {
    inside = omega arith;
    literal_in = omega arith;
    match_in = λ h. absurd (omega arith);
  };
  open_padding = λ still. refl;
  ended_unread = λ ended. refl;
  ended_padding = λ ended. omega arith;
}

pub finish_input-IsSound : (d : RawDecoder) → IsSound d → IsSound (finish_input d)
unfolding finish_input
finish_input-IsSound d s = record {
  valid = record {
    inside = s.valid.inside;
    literal_in = s.valid.literal_in;
    match_in = s.valid.match_in;
  };
  open_padding = s.open_padding;
  ended_unread = s.ended_unread;
  ended_padding = s.ended_padding;
}

-- `feed` while the end marker is not read.
pub fed_more : RawDecoder → Bytes → RawDecoder
fed_more d bytes = record d { input = d.input ++ bytes }

pub unread-fed_more :
    (d : RawDecoder) (bytes : Bytes)
    → d.input_offset ≤ length d.input
    → unread (fed_more d bytes) ≡ unread d ++ bytes
unfolding fed_more
unread-fed_more d bytes inside = drop-append_left d.input bytes d.input_offset inside

pub fed_more-IsSound :
    (d : RawDecoder) (bytes : Bytes) → d.finished ≡ false → IsSound d → IsSound (fed_more d bytes)
unfolding fed_more
fed_more-IsSound d bytes still s =
    let size = length-append d.input bytes in
    record {
      valid = record {
        inside = omega (arith, s.valid.inside);
        literal_in = omega (
          arith,
          s.valid.literal_in,
          length-drop {0} d.input_offset (d.input ++ bytes),
          length-drop {0} d.input_offset d.input,
        );
        match_in = s.valid.match_in;
      };
      open_padding = s.open_padding;
      ended_unread = λ ended. absurd (cc);
      ended_padding = s.ended_padding;
    }

-- Behind the end marker, `feed` counts padding, or what is trailing.
pub padded : RawDecoder → Bytes → RawDecoder
padded d bytes = record d { eos_padding = d.eos_padding + length bytes }

pub trailed : RawDecoder → Bytes → RawDecoder
trailed d bytes = record d { trailing_after_finish = d.trailing_after_finish + length bytes }

pub data Fed (d : RawDecoder) (bytes : Bytes) : RawDecoder → Type 0 where
  nothing : length bytes ≡ 0 → Fed d bytes d
  more : d.finished ≡ false → Fed d bytes (fed_more d bytes)
  padding :
      d.finished ≡ true
      → any_nonzero bytes ≡ false
      → d.eos_padding + length bytes ≤ 7
      → Fed d bytes (padded d bytes)
  trailing :
      d.finished ≡ true
      → 0 < length bytes
      → ((any_nonzero bytes ≡ true) ⊎ (7 < d.eos_padding + length bytes))
      → Fed d bytes (trailed d bytes)

feed_finished-Fed :
    (d : RawDecoder) (bytes : Bytes)
    → d.finished ≡ true
    → 0 < length bytes
    → Fed d bytes (feed_finished d bytes)
unfolding feed_finished padded trailed
feed_finished-Fed d bytes ended some_bytes = elim (Bool-cases (any_nonzero bytes)) [
  | inl nonzero ↦ rw nonzero (trailing ended some_bytes (inl nonzero))
  | inr zeros ↦
      elim (Bool-cases (leb (min (d.eos_padding + length bytes) usize_max) max_eos_padding)) [
        | inl few ↦ rw (zeros, few) (padding ended zeros (ground arith))
        | inr many ↦ rw (zeros, many) (trailing ended some_bytes (inr (ground arith)))
      ]
]

pub feed-Fed : (d : RawDecoder) (bytes : Bytes) → Fed d bytes (feed d bytes)
unfolding feed fed_more
feed-Fed d bytes = elim (Bool-cases (length bytes == 0)) [
  | inl empty ↦ rw empty (nothing (ground arith))
  | inr some_bytes ↦ rw some_bytes (go d.finished (ground arith) refl)
]
  where
    go :
        (ended : Bool)
        → 0 < length bytes
        → d.finished ≡ ended
        → Fed d bytes (if ended then feed_finished d bytes else fed_more d bytes)
    go true pos ended = feed_finished-Fed d bytes ended pos
    go false pos still = more still

pub padded-IsSound :
    (d : RawDecoder) (bytes : Bytes)
    → d.eos_padding + length bytes ≤ 7
    → IsSound d
    → IsSound (padded d bytes)
unfolding padded
padded-IsSound d bytes few s = record {
  valid = record {
    inside = s.valid.inside;
    literal_in = s.valid.literal_in;
    match_in = s.valid.match_in;
  };
  open_padding = s.open_padding;
  ended_unread = s.ended_unread;
  ended_padding = λ h. few;
}

pub trailed-IsSound :
    (d : RawDecoder) (bytes : Bytes) → d.finished ≡ true → IsSound d → IsSound (trailed d bytes)
unfolding trailed
trailed-IsSound d bytes ended s = record {
  valid = record {
    inside = s.valid.inside;
    literal_in = s.valid.literal_in;
    match_in = s.valid.match_in;
  };
  open_padding = λ still. absurd (cc);
  ended_unread = s.ended_unread;
  ended_padding = s.ended_padding;
}

pub feed-IsSound : (d : RawDecoder) (bytes : Bytes) → IsSound d → IsSound (feed d bytes)
feed-IsSound d bytes s = go (feed d bytes) (feed-Fed d bytes)
  where
    go : (d' : RawDecoder) → Fed d bytes d' → IsSound d'
    go _ (nothing empty) = s
    go _ (more still) = fed_more-IsSound d bytes still s
    go _ (padding ended zeros few) = padded-IsSound d bytes few s
    go _ (trailing ended some_bytes reason) = trailed-IsSound d bytes ended s

pub finish_input-history :
    (d : RawDecoder) → (lzvn.Raw.StreamDecoder.finish_input d).history ≡ d.history
unfolding finish_input
finish_input-history d = refl

pub feed-history : (d : RawDecoder) (bytes : Bytes) → (feed d bytes).history ≡ d.history
unfolding padded trailed fed_more
feed-history d bytes = go (feed d bytes) (feed-Fed d bytes)
  where
    go : (d' : RawDecoder) → Fed d bytes d' → d'.history ≡ d.history
    go _ (nothing empty) = refl
    go _ (more still) = refl
    go _ (padding ended zeros few) = refl
    go _ (trailing ended some_bytes reason) = refl
