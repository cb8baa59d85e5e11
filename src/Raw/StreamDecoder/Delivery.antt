-- ===== src/Raw/StreamDecoder/Delivery.antt =====
-- `RawDecoder` against `decode_into` on the whole input: calls in any order deliver what that writes.
use lzvn.Base.{
  ℕ, suc, ◌+◌, ◌<◌, ◌≡◌, refl, sym, ap, ◌∙◌, ◌⊎◌, inl, inr, true, false, List, [], ◌++◌, append-nil,
  arith, Bytes, length, length-append, length-take, take, Bool-cases,
}
use lzvn.Error.{ok, Returns, Returns-map}
use lzvn.Stream.{StreamProgress, StreamStatus, need_input, need_output, finished}
use lzvn.Raw.Decode.{Decoder, run, start}
use lzvn.Raw.Decode.Inversion.{run_of_decode_into}
use lzvn.Raw.StreamDecoder.{RawDecoder, new, is_finished}
use lzvn.Raw.StreamDecoder.Loop.{decode_into}
use lzvn.Raw.StreamDecoder.Loop.Call.{StatusOf, Continues, decode_into-Continues}
use lzvn.Raw.StreamDecoder.Feed.OnWay.{new-IsOn}
use lzvn.Raw.StreamDecoder.Script.{Event, drive, Feeds, IsOn-front, drive-IsOn}

-- Let `decode_into` on the whole of `src` write `take written dst'`. Calls of `feed`, `decode_into` and
-- `finish_input` in any order, which feed `src` but for `unfed` and call `finish_input` only behind all
-- of it, are not refused. What they have written in all is a front part of `take written dst'`, and all
-- of it when the decoder is finished.
pub drive-decode_into :
    (src dst dst' unfed : Bytes) (written : ℕ) (events : List Event)
    → lzvn.Raw.Decode.decode_into src dst ≡ ok (written, dst')
    → Feeds src events unfed
    → Returns
        (λ (r : Bytes × RawDecoder).
          (rest : Bytes) × (take written dst' ≡ r.0 ++ rest)
          × ((rest ≡ []) ⊎ (is_finished r.1 ≡ false)))
        (λ e. ⊥)
        (drive events new)
drive-decode_into src dst dst' unfed written events h f =
    let (final, ran, output_is) = run_of_decode_into src dst dst' written h in
    let on = new-IsOn src dst (suc (length src)) final ran in
    Returns-map _ _ _ _ (drive events new)
      (λ r s.
        let (rest, rest_is, over) = IsOn-front final unfed r.1 s.0 in
        (
          rest,
          sym output_is ∙ rest_is ∙ ap (λ x. x ++ rest) s.1,
          elim (Bool-cases r.1.finished) [ inl ended ↦ inl (over ended) | inr going ↦ inr going ],
        ))
      (λ e h. h) (drive-IsOn final src unfed events new on f)

-- Let `decode_into` on the whole of `src` write `take written dst'`, and let calls in any order have fed
-- all of `src`. A further `decode_into` with a buffer longer than what they have not yet written
-- finishes, and with what they have written its bytes are `take written dst'`.
pub drive-finishes :
    (src dst dst' big : Bytes) (written : ℕ) (events : List Event) (out : Bytes) (d : RawDecoder)
    → lzvn.Raw.Decode.decode_into src dst ≡ ok (written, dst')
    → Feeds src events []
    → drive events new ≡ ok (out, d)
    → written < length out + length big
    → Returns
        (λ (s : StreamProgress × Bytes × RawDecoder).
          (s.0.status ≡ finished) × (take written dst' ≡ out ++ take s.0.written s.1))
        (λ e. ⊥)
        (decode_into d big)
drive-finishes src dst dst' big written events out d h f driven bigger =
    let (final, ran, output_is) = run_of_decode_into src dst dst' written h in
    let on = new-IsOn src dst (suc (length src)) final ran in
    let (on', history_is) = rw driven at (drive-IsOn final src [] events new on f) in
    Returns-map _ _ _ _ (decode_into d big)
      (λ t c. ended final (out, d) t output_is history_is bigger c) (λ e h. h)
      (decode_into-Continues final [] d big on')
  where
    ended :
        (final : Decoder) (r : Bytes × RawDecoder) (t : StreamProgress × Bytes × RawDecoder)
        → take final.output final.dst ≡ take written dst'
        → r.1.history ≡ r.0
        → written < length r.0 + length big
        → Continues final [] r.1 big t
        → (t.0.status ≡ finished) × (take written dst' ≡ r.0 ++ take t.0.written t.1)
    ended final r (progress, big', d') output_is history_is bigger (on, grown, size, status) =
        let (rest, rest_is, over) = IsOn-front final [] d' on in
        let whole : take written dst' ≡ (r.0 ++ take progress.written big') ++ rest =
          sym output_is
          ∙ rest_is
          ∙ ap (λ x. x ++ rest) (grown ∙ ap (λ x. x ++ take progress.written big') history_is) in
        go progress.status refl status over whole
      where
        go :
            {rest : Bytes}
            → (status : StreamStatus) → progress.status ≡ status
            → StatusOf [] d' progress.written (length big) status
            → (d'.finished ≡ true → rest ≡ [])
            → take written dst' ≡ (r.0 ++ take progress.written big') ++ rest
            → (progress.status ≡ finished) × (take written dst' ≡ r.0 ++ take progress.written big')
        go finished is over none_left whole = (
          is,
          whole
              ∙ ap (λ x. (r.0 ++ take progress.written big') ++ x) (none_left over)
              ∙ append-nil _,
        )
        go need_input is (still, hungry) none_left whole = absurd (omega arith)
        go {rest} need_output is (still, full) none_left whole = absurd (
            omega (
              arith,
              ap length whole,
              length-take {0} written dst',
              length-append {0} (r.0 ++ take progress.written big') rest,
              length-append {0} r.0 (take progress.written big'),
              length-take {0} progress.written big',
              size,
            ))
