-- ===== src/Raw/StreamDecoder/Feed/OnWay.antt =====
-- `RawDecoder::new`, `feed` and `finish_input` on a stream that the whole-buffer decoder takes.
use lzvn.Base.{
  ℕ, ◌≡◌, refl, ap, ◌∙◌, inl, inr, true, false, [], ◌∷◌, ◌++◌, append_assoc, arith, Bytes, length,
  length-append, nothing_of_length,
}
use lzvn.Error.{ok}
use lzvn.Raw.Format.{copy_match}
use lzvn.Raw.Decode.{Decoder, run, start}
use lzvn.Raw.StreamDecoder.{RawDecoder, new, feed, finish_input}
use lzvn.Raw.StreamDecoder.Copies.{unread}
use lzvn.Raw.StreamDecoder.Loop.Track.{Tracks}
use lzvn.Raw.StreamDecoder.Loop.Agree.{any_nonzero_append}
use lzvn.Raw.StreamDecoder.Loop.Call.{IsOn}
use lzvn.Raw.StreamDecoder.Feed.{
  Fed, nothing, more, padding, trailing, fed_more, padded, trailed, feed-Fed, unread-fed_more,
  fed_more-IsSound, padded-IsSound, new-IsSound, finish_input-IsSound,
}

-- A decoder that has read nothing is on the way of any run.
pub new-IsOn :
    (src dst : Bytes) (fuel : ℕ) (final : Decoder)
    → run fuel (start src dst) ≡ ok final
    → IsOn final src new
unfolding copy_match
new-IsOn src dst fuel final runs = record {
  sound = new-IsSound;
  clean = refl;
  all_fed = λ over. absurd (cc);
  going = λ still. record {
    pre = [];
    todo = src;
    room = dst;
    literal = [];
    fuel = fuel;
    input_is = refl;
    literal_is = refl;
    runs = runs;
  };
  done = λ over. absurd (cc);
}

pub finish_input-IsOn :
    (final : Decoder) (d : RawDecoder) → IsOn final [] d → IsOn final [] (finish_input d)
unfolding finish_input
finish_input-IsOn final d s = record {
  sound = unfold finish_input in finish_input-IsSound d s.sound;
  clean = s.clean;
  all_fed = λ over. refl;
  going = λ still.
      let t = s.going still in
      record {
        pre = t.pre;
        todo = t.todo;
        room = t.room;
        literal = t.literal;
        fuel = t.fuel;
        input_is = t.input_is;
        literal_is = t.literal_is;
        runs = t.runs;
      };
  done = λ over.
      let c = s.done over in record { output_is = c.output_is; zeros = c.zeros; few = c.few };
}

nothing_left : (bytes unfed : Bytes) → bytes ++ unfed ≡ [] → unfed ≡ []
nothing_left [] unfed h = h
nothing_left (x ∷ bytes) unfed h = absurd (omega (arith, ap length h))

-- The next bytes of the stream are fed.
pub feed-IsOn :
    (final : Decoder) (bytes unfed : Bytes) (d : RawDecoder)
    → IsOn final (bytes ++ unfed) d
    → IsOn final unfed (feed d bytes)
unfolding padded trailed fed_more
feed-IsOn final bytes unfed d s = go (feed d bytes) (feed-Fed d bytes)
  where
    all_fed : d.finished_input ≡ true → unfed ≡ []
    all_fed over = nothing_left bytes unfed (s.all_fed over)

    tracked : d.finished ≡ false → Tracks final unfed (fed_more d bytes)
    tracked still =
        let t = s.going still in
        record {
          pre = t.pre;
          todo = t.todo;
          room = t.room;
          literal = t.literal;
          fuel = t.fuel;
          input_is =
              ap (λ x. x ++ unfed) (unread-fed_more d bytes s.sound.valid.inside)
              ∙ append_assoc (unread d) bytes unfed
              ∙ t.input_is;
          literal_is = t.literal_is;
          runs = t.runs;
        }

    go : (d' : RawDecoder) → Fed d bytes d' → IsOn final unfed d'
    go _ (nothing empty) =
        let same : bytes ++ unfed ≡ unfed = ap (λ x. x ++ unfed) (nothing_of_length bytes empty) in
        rw same at s
    go _ (more still) = record {
      sound = fed_more-IsSound d bytes still s.sound;
      clean = s.clean;
      all_fed = all_fed;
      going = tracked;
      done = λ over. absurd (cc);
    }
    go _ (padding ended zeros few) =
        let c = s.done ended in
        let (mine, rest) = any_nonzero_append bytes unfed c.zeros in
        record {
          sound = padded-IsSound d bytes few s.sound;
          clean = s.clean;
          all_fed = all_fed;
          going = λ still. absurd (cc);
          done = λ over. record {
            output_is = c.output_is;
            zeros = rest;
            few = omega (arith, c.few, length-append {0} bytes unfed);
          };
        }
    go _ (trailing ended some_bytes reason) =
        let c = s.done ended in
        let (mine, rest) = any_nonzero_append bytes unfed c.zeros in
        absurd (elim reason [
          | inl nonzero ↦ cc
          | inr many ↦ omega (arith, c.few, length-append {0} bytes unfed)
        ])
