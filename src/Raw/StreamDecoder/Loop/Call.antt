-- ===== src/Raw/StreamDecoder/Loop/Call.antt =====
-- A call of `RawDecoder::decode_into`, and its other operations, on a stream that the whole-buffer
-- decoder takes.
use lzvn.Base.{
  ℕ, ◌+◌, ◌<◌, ◌≡◌, refl, sym, ap, ◌∙◌, Bool, true, false, [], ◌++◌, append-nil, arith, Bytes,
  length, length-append, take, take-append, ◌==◌, if◌then◌else◌,
}
use lzvn.Error.{Error, ok, Returns, Returns-map}
use lzvn.Stream.{StreamStatus, StreamProgress, need_input, need_output, finished}
use lzvn.Raw.Code.{size_pos, checked_of_match}
use lzvn.Raw.Decode.{Decoder}
use lzvn.Raw.StreamDecoder.{RawDecoder}
use lzvn.Raw.StreamDecoder.Copies.{unread}
use lzvn.Raw.StreamDecoder.Loop.{
  Turn, again, give, input_turn, enough_fuel, decode_loop, decode_into,
}
use lzvn.Raw.StreamDecoder.Loop.Rule.{measure, Turned, Ends, Given, decode_loop-Given}
use lzvn.Raw.StreamDecoder.Loop.Input.{opcode_of, InputTurn, InputError, input_turn-Returns}
use lzvn.Raw.StreamDecoder.Loop.Sound.{
  IsSound, Keeps, Done, literal-Keeps, match-Keeps, Prepared-Keeps, Prepared-measure,
}
use lzvn.Raw.StreamDecoder.Loop.Safe.{Moved-Keeps, Ended-Done, Keeps-IsSound, fuel_enough}
use lzvn.Raw.StreamDecoder.Loop.Track.{Tracks, literal_Tracks, match_Tracks}
use lzvn.Raw.StreamDecoder.Loop.Refine.{Moved-Tracks}
use lzvn.Raw.StreamDecoder.Loop.Agree.{
  Head, Complete, Tracks-Head, again_Tracks, Starved-unfed, Ended-Complete, accepted,
}

-- The streaming decoder is on the way of the run that ends in `final`, `unfed` being still to be fed.
pub record IsOn (final : Decoder) (unfed : Bytes) (d : RawDecoder) : Type 0 where
  pub sound : IsSound d
  pub clean : d.trailing_after_finish ≡ 0
  pub all_fed : d.finished_input ≡ true → unfed ≡ []
  pub going : d.finished ≡ false → Tracks final unfed d
  pub done : d.finished ≡ true → Complete final unfed d

-- Which status a call may return.
abbrev pub StatusOf : Bytes → RawDecoder → ℕ → ℕ → StreamStatus → Type 0
StatusOf unfed d written size need_input = (d.finished ≡ false) × (0 < length unfed)
StatusOf unfed d written size need_output = (d.finished ≡ false) × (written ≡ size)
StatusOf unfed d written size finished = d.finished ≡ true

abbrev pub Continues :
    Decoder → Bytes → RawDecoder → Bytes → StreamProgress × Bytes × RawDecoder → Type 0
Continues final unfed d dst (progress, dst', d') =
    IsOn final unfed d'
    × (d'.history ≡ d.history ++ take progress.written dst')
    × (length dst' ≡ length dst)
    × StatusOf unfed d' progress.written (length dst) progress.status

abbrev Never : Error → Type 0
Never e = ⊥

module _ (final : Decoder) (unfed : Bytes) (d0 : RawDecoder)
    (all_fed : d0.finished_input ≡ true → unfed ≡ []) where
  abbrev On : RawDecoder → Bytes → Type 0
  On d out = Keeps d0 d out × Tracks final unfed d

  abbrev Hungry : RawDecoder → Type 0
  Hungry d = 0 < length unfed

  abbrev Over : RawDecoder → Bytes → Type 0
  Over d out = Done d0 d out × Complete final unfed d

  input_On :
      (d : RawDecoder) (out room : Bytes)
      → On d out
      → d.pending.literal ≡ 0
      → d.pending.match ≡ 0
      → Returns
          (Turned On Hungry Over (length (out ++ room)) (measure d))
          Never
          (input_turn d (length out) (out ++ room))
  input_On d out room (k, t) no_literal no_match =
      let (pos, head) = Tracks-Head final unfed d t no_literal no_match in
      Returns-map (InputTurn d (length out) (out ++ room))
        (Turned On Hungry Over (length (out ++ room)) (measure d)) (InputError d) Never
        (input_turn d (length out) (out ++ room)) (turned pos head)
        (λ e h. accepted final unfed d e pos head (λ over. all_fed (sym k.input_is ∙ over)) h)
        (input_turn-Returns d (length out) (out ++ room) k.valid.inside no_literal no_match)
    where
      turned :
          0 < length (unread d ++ unfed)
          → Head final unfed d
          → (r : Turn) → InputTurn d (length out) (out ++ room) r
          → Turned On Hungry Over (length (out ++ room)) (measure d) r
      turned pos head (again d' written dst) (hw, hd, (kind, defined, other, p)) =
          let bytes = unread d in
          (
            out,
            room,
            hw,
            hd,
            ap length hd,
            (
              (
                Prepared-Keeps d0 d d' _ out k
                    (checked_of_match kind (opcode_of d) bytes d.previous_distance) p,
                again_Tracks final unfed d d' kind head defined other p,
              ),
              Prepared-measure d d' _ p (size_pos kind (opcode_of d) bytes d.previous_distance)
                  no_literal no_match,
            ),
          )
      turned pos head (give need_input d' written dst)
            (hw, hd, moved, pending_is, previous_is, going, starved) =
          (
            out,
            room,
            hw,
            hd,
            ap length hd,
            (
              (
                Moved-Keeps d0 d d' out k moved pending_is,
                Moved-Tracks final unfed d d' t moved pending_is previous_is,
              ),
              Starved-unfed final unfed d pos head starved,
            ),
          )
      turned pos head (give need_output d' written dst) h = absurd h
      turned pos head (give finished d' written dst) (hw, hd, some_left, defined, e) = (
        out,
        room,
        hw,
        hd,
        ap length hd,
        (
          Ended-Done d0 d d' out k no_literal no_match e,
          Ended-Complete final unfed d d' head some_left defined e,
        ),
      )

  continued :
      (dst : Bytes)
      → (r : StreamProgress × Bytes × RawDecoder) → Given On Hungry Over (length dst) r
      → Continues final unfed d0 dst r
  continued dst (progress, dst', d') (out, room, hw, hd, size, ends) =
      let front : take progress.written dst' ≡ out =
        rw (hw, hd) (take-append out room (length out) refl) in
      let (on, history_is, status) =
        ended progress.status d' out room ends
          (omega (arith, ap length hd, length-append {0} out room)) in
      (on, rw front history_is, size, status)
    where
      on_way : (d' : RawDecoder) (out : Bytes) → On d' out → IsOn final unfed d'
      on_way d' out (k, t) = record {
        sound = Keeps-IsSound d0 d' out k;
        clean = k.trailing_is;
        all_fed = λ over. all_fed (sym k.input_is ∙ over);
        going = λ still. t;
        done = λ over. absurd (cc (k.finished_is));
      }

      ended :
          (status : StreamStatus) (d' : RawDecoder) (out room : Bytes)
          → Ends On Hungry Over status d' out room
          → progress.written + length room ≡ length dst
          → IsOn final unfed d'
            × (d'.history ≡ d0.history ++ out)
            × StatusOf unfed d' progress.written (length dst) status
      ended need_input d' out room ((k, t), hungry) size =
          (on_way d' out (k, t), k.history_is, (k.finished_is, hungry))
      ended need_output d' out room ((k, t), full) size =
          (on_way d' out (k, t), k.history_is, (k.finished_is, omega (arith, ap length full)))
      ended finished d' out room (k, c) size = (
        record {
          sound = k.sound;
          clean = k.trailing_is;
          all_fed = λ over. all_fed (sym k.input_is ∙ over);
          going = λ still. absurd (cc (k.finished_is));
          done = λ over. c;
        },
        k.history_is,
        k.finished_is,
      )

-- The call is not refused, and stays on the way.
pub decode_into-Continues :
    (final : Decoder) (unfed : Bytes) (d : RawDecoder) (dst : Bytes)
    → IsOn final unfed d
    → Returns (Continues final unfed d dst) (λ e. ⊥) (decode_into d dst)
unfolding decode_into
decode_into-Continues final unfed d dst s =
    let none_trailing : (d.trailing_after_finish == 0) ≡ true = ground (arith, s.clean) in
    rw none_trailing (go d.finished refl)
  where
    go :
        (ended : Bool)
        → d.finished ≡ ended
        → Returns
            (Continues final unfed d dst)
            (λ e. ⊥)
            (if ended
              then ok (record { written = 0; status = finished }, dst, d)
              else decode_loop (enough_fuel d) d 0 dst)
    go true ended = (s, sym (append-nil d.history), refl, ended)
    go false still =
        let begin : Keeps d d [] = record {
          valid = s.sound.valid;
          history_is = sym (append-nil d.history);
          finished_is = still;
          trailing_is = s.clean;
          input_is = refl;
          fed_is = refl;
          read = 0;
          read_in = omega arith;
          unread_is = refl;
        } in
        Returns-map
          (Given (On final unfed d s.all_fed) (Hungry final unfed d s.all_fed)
            (Over final unfed d s.all_fed) (length dst))
          (Continues final unfed d dst) (λ e. ⊥) (λ e. ⊥) (decode_loop (enough_fuel d) d 0 dst)
          (continued final unfed d s.all_fed dst) (λ e h. h)
          (decode_loop-Given (On final unfed d s.all_fed) (Hungry final unfed d s.all_fed)
            (Over final unfed d s.all_fed) (λ e. ⊥) (λ d' out k. k.0.valid)
            (λ d1 d2 out count k h moved pending_is previous_is. (
              literal-Keeps d d1 d2 out count k.0 h moved pending_is previous_is,
              literal_Tracks final unfed d1 d2 count k.1 h k.0.valid.literal_in moved pending_is
                  previous_is,
            ))
            (λ d1 out bytes count distance k no_literal h size copied which. (
              match-Keeps d d1 out bytes count distance k.0 no_literal h size which,
              match_Tracks final unfed d1 bytes count distance k.1 no_literal h copied which,
            ))
            (input_On final unfed d s.all_fed) (enough_fuel d) (length dst) d [] dst
            (begin, s.going still) refl (fuel_enough d))
