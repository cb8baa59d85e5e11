-- ===== src/Raw/StreamDecoder/Loop/Safe.antt =====
-- On any input whatever `RawDecoder::decode_into` ends without a panic, keeps the invariant, and writes
-- what it adds to its history.
use lzvn.Base.{
  ℕ, ◌+◌, drop, length-drop, ◌≤◌, ◌<◌, ◌≡◌, refl, sym, ap, ◌∙◌, inl, inr, Bool, true, false, [],
  ◌++◌, append-nil, arith, Bytes, length, length-append, take, take-append, ◌==◌, Bool-cases,
  if◌then◌else◌,
}
use lzvn.Error.{
  Error, ok, Returns, Returns-map, truncated_input, invalid_opcode, invalid_match_distance,
  trailing_data, output_too_small, size_mismatch, unsupported_block_magic, invalid_decmpfs_magic,
  unsupported_decmpfs_compression_type, missing_resource_fork, invalid_resource_fork, size_overflow,
}
use lzvn.Stream.{StreamStatus, StreamProgress, need_input, need_output, finished}
use lzvn.Raw.Code.{size_pos, checked_of_match}
use lzvn.Raw.StreamDecoder.{RawDecoder, absolute_offset}
use mathlib.Core.Path.{subst}
use lzvn.Raw.Refusal.{Refused}
use lzvn.Raw.StreamDecoder.Copies.{unread, Moved}
use lzvn.Raw.StreamDecoder.Loop.{
  Turn, again, give, input_turn, enough_fuel, decode_loop, decode_into,
}
use lzvn.Raw.StreamDecoder.Loop.Rule.{measure, flag, Turned, Ends, Given, decode_loop-Given}
use lzvn.Raw.StreamDecoder.Loop.Input.{
  Starved, opcode_of, Ended, InputTurn, InputError, input_turn-Returns,
}
use lzvn.Raw.StreamDecoder.Loop.Sound.{
  fed, IsSound, IsStreamError, RefusedBehind, Keeps, Done, fed-Moved, literal-Keeps, match-Keeps,
  Prepared-Keeps, Prepared-measure,
}

pub Moved-Keeps :
    (d0 d d' : RawDecoder) (out : Bytes)
    → Keeps d0 d out
    → Moved d d' 0 []
    → d'.pending ≡ d.pending
    → Keeps d0 d' out
Moved-Keeps d0 d d' out k m pending_is =
    let same : d'.history ≡ d.history = m.history_is ∙ append-nil d.history in
    let literal_is : d'.pending.literal ≡ d.pending.literal = ap (λ q. q.literal) pending_is in
    let match_is : d'.pending.match ≡ d.pending.match = ap (λ q. q.match) pending_is in
    let distance_is : d'.pending.distance ≡ d.pending.distance = ap (λ q. q.distance) pending_is in
    let left : length (unread d') ≡ length (unread d) = ap length m.unread_is in
    let size : length d'.history ≡ length d.history = ap length same in
    record {
      valid = record {
        inside = m.inside;
        literal_in = omega (arith, k.valid.literal_in);
        match_in = λ some_left.
            let (pos, fits) = k.valid.match_in (omega arith) in (omega arith, omega arith);
      };
      history_is = same ∙ k.history_is;
      finished_is = m.finished_is ∙ k.finished_is;
      trailing_is = m.trailing_is ∙ k.trailing_is;
      input_is = m.finished_input_is ∙ k.input_is;
      fed_is = fed-Moved d d' 0 [] m (omega arith) ∙ k.fed_is;
      read = k.read;
      read_in = k.read_in;
      unread_is = m.unread_is ∙ k.unread_is;
    }

pub Ended-Done :
    (d0 d d' : RawDecoder) (out : Bytes)
    → Keeps d0 d out
    → d.pending.literal ≡ 0
    → d.pending.match ≡ 0
    → Ended d d'
    → Done d0 d' out
Ended-Done d0 d d' out k no_literal no_match e =
    let literal_is : d'.pending.literal ≡ d.pending.literal = ap (λ q. q.literal) e.pending_is in
    let match_is : d'.pending.match ≡ d.pending.match = ap (λ q. q.match) e.pending_is in
    let left : length (unread d') ≡ 0 = ap length e.unread_is in
    record {
      sound = record {
        valid = record {
          inside = e.inside;
          literal_in = omega arith;
          match_in = λ some_left. absurd (omega arith);
        };
        open_padding = λ still. cc;
        ended_unread = λ ended. e.unread_is;
        ended_padding = λ ended. omega (arith, e.padding_is, e.few);
      };
      history_is = e.history_is ∙ k.history_is;
      finished_is = e.finished_is;
      trailing_is = e.trailing_is ∙ k.trailing_is;
      input_is = e.finished_input_is ∙ k.input_is;
      fed_is = omega (arith, e.offset_is, k.fed_is);
    }

-- The decoder waits for input that may still come.
abbrev pub Waits : RawDecoder → Type 0
Waits d = d.finished_input ≡ false

module _ (d0 : RawDecoder) where
  -- What a round refuses, in the bytes that the call began with.
  refused_behind :
      (d : RawDecoder) (out : Bytes) (e : Error)
      → Keeps d0 d out
      → Refused (absolute_offset d) (unread d) d.previous_distance (length d.history) 0 e
      → RefusedBehind d0 e
  refused_behind d out e k r =
      let place : absolute_offset d ≡ absolute_offset d0 + k.read =
        omega
          (arith, k.fed_is, k.read_in, ap length k.unread_is, length-drop {0} k.read (unread d0)) in
      (
        k.read,
        d.previous_distance,
        length d.history,
        k.read_in,
        omega (arith, ap length k.history_is, length-append {0} d0.history out),
        subst (λ n. Refused n (drop k.read (unread d0)) d.previous_distance (length d.history) 0 e)
            place
            (subst
              (λ bytes.
                Refused (absolute_offset d) bytes d.previous_distance (length d.history) 0 e)
              k.unread_is r),
      )

  Starved-Refused :
      (d : RawDecoder) (position : ℕ)
      → position ≡ absolute_offset d
      → Starved d
      → Refused
          (absolute_offset d)
          (unread d)
          d.previous_distance
          (length d.history)
          0
          (truncated_input position)
  Starved-Refused d position place (inl nothing) = (place, inl nothing)
  Starved-Refused d position place (inr (kind, defined, other, few)) =
      (place, inr (kind, _, (defined, other, refl), few))

  true_error :
      (d : RawDecoder) (out : Bytes) (e : Error)
      → Keeps d0 d out
      → InputError d e
      → IsStreamError d0 e
  true_error d out (truncated_input position) k (place, over, starved) = (
    sym k.input_is ∙ over,
    refused_behind d out (truncated_input position) k (Starved-Refused d position place starved),
  )
  true_error d out (invalid_opcode position opcode) k (place, here, some_left, undefined) =
      refused_behind d out (invalid_opcode position opcode) k (place, some_left, here, undefined)
  true_error d out (invalid_match_distance distance available) k
        (kind, defined, other, (checked, distance_is, available_is, reason, buffers)) =
      refused_behind d out (invalid_match_distance distance available) k
        (kind, _, (defined, other, refl), buffers, checked, distance_is, available_is, reason)
  true_error d out (trailing_data remaining) k (some_left, defined, excess) =
      inr (refused_behind d out (trailing_data remaining) k (some_left, defined, excess))
  true_error d out (output_too_small a b) k h = h
  true_error d out (size_mismatch a b) k h = h
  true_error d out (unsupported_block_magic a) k h = h
  true_error d out (invalid_decmpfs_magic a) k h = h
  true_error d out (unsupported_decmpfs_compression_type a) k h = h
  true_error d out missing_resource_fork k h = h
  true_error d out (invalid_resource_fork a) k h = h
  true_error d out (size_overflow a b c) k h = h

  input-Keeps :
      (d : RawDecoder) (out room : Bytes)
      → Keeps d0 d out
      → d.pending.literal ≡ 0
      → d.pending.match ≡ 0
      → Returns
          (Turned (Keeps d0) Waits (Done d0) (length (out ++ room)) (measure d))
          (IsStreamError d0)
          (input_turn d (length out) (out ++ room))
  input-Keeps d out room k no_literal no_match =
      Returns-map (InputTurn d (length out) (out ++ room))
        (Turned (Keeps d0) Waits (Done d0) (length (out ++ room)) (measure d)) (InputError d)
        (IsStreamError d0) (input_turn d (length out) (out ++ room)) turned
        (λ e h. true_error d out e k h)
        (input_turn-Returns d (length out) (out ++ room) k.valid.inside no_literal no_match)
    where
      turned :
          (t : Turn)
          → InputTurn d (length out) (out ++ room) t
          → Turned (Keeps d0) Waits (Done d0) (length (out ++ room)) (measure d) t
      turned (again d' written dst) (hw, hd, (kind, defined, other, p)) =
          let bytes = unread d in
          (
            out,
            room,
            hw,
            hd,
            ap length hd,
            (
              Prepared-Keeps d0 d d' _ out k
                  (checked_of_match kind (opcode_of d) bytes d.previous_distance) p,
              Prepared-measure d d' _ p (size_pos kind (opcode_of d) bytes d.previous_distance)
                  no_literal no_match,
            ),
          )
      turned (give need_input d' written dst)
            (hw, hd, moved, pending_is, previous_is, going, starved) =
          (
            out,
            room,
            hw,
            hd,
            ap length hd,
            (Moved-Keeps d0 d d' out k moved pending_is, moved.finished_input_is ∙ going),
          )
      turned (give need_output d' written dst) h = absurd h
      turned (give finished d' written dst) (hw, hd, some_left, defined, e) =
          (out, room, hw, hd, ap length hd, Ended-Done d0 d d' out k no_literal no_match e)

-- What a call that returns leaves: the invariant, and in the buffer what the history has gained.
abbrev pub Decodes : RawDecoder → Bytes → StreamProgress × Bytes × RawDecoder → Type 0
Decodes d dst (progress, dst', d') =
    IsSound d'
    × (length dst' ≡ length dst)
    × (progress.written ≤ length dst)
    × (d'.history ≡ d.history ++ take progress.written dst')
    × (fed d' ≡ fed d)

pub Keeps-IsSound : (d0 d : RawDecoder) (out : Bytes) → Keeps d0 d out → IsSound d
Keeps-IsSound d0 d out k = record {
  valid = k.valid;
  open_padding = λ still. k.trailing_is;
  ended_unread = λ ended. cc (k.finished_is);
  ended_padding = λ ended. absurd (cc (k.finished_is));
}

pub fuel_enough : (d : RawDecoder) → measure d < enough_fuel d
unfolding flag
fuel_enough d =
    let a : flag d.pending.literal ≤ 1 = ground arith in
    let b : flag d.pending.match ≤ 1 = ground arith in
    omega (arith, length-drop {0} d.input_offset d.input)

-- On a decoder that the invariant holds of and on any buffer `decode_into` ends without a panic. If it
-- succeeds, the invariant holds again, the count fits the buffer, which keeps its length, and the bytes
-- counted are what the history has gained. If it fails, the error counts the bytes that were fed behind
-- the padding of the end marker, or there is a place in the bytes fed and not read where the bytes, read
-- as an instruction behind some last distance and number of bytes written, are refused with this error:
-- they are not a whole instruction, though the input is finished; the opcode given stands there and
-- has no meaning; the instruction is whole, but its distance, the one given, is zero or more than
-- the bytes before its match; or they are the end marker with as many bytes too many behind it as given.
pub decode_into-Decodes :
    (d : RawDecoder) (dst : Bytes)
    → IsSound d
    → Returns (Decodes d dst) (IsStreamError d) (decode_into d dst)
unfolding decode_into
decode_into-Decodes d dst s = elim (Bool-cases (d.trailing_after_finish == 0)) [
  | inr trailing ↦ rw trailing (inl (ground arith, refl))
  | inl clean ↦ rw clean (go d.finished refl (ground arith))
]
  where
    result :
        (r : StreamProgress × Bytes × RawDecoder)
        → Given (Keeps d) Waits (Done d) (length dst) r
        → Decodes d dst r
    result (progress, dst', d') (out, room, hw, hd, size, ends) =
        let front : take progress.written dst' ≡ out =
          rw (hw, hd) (take-append out room (length out) refl) in
        let fits : progress.written ≤ length dst =
          omega (arith, ap length hd, length-append {0} out room) in
        let (sound, history_is, fed_is) = ended progress.status d' out room ends in
        (sound, size, fits, rw front history_is, fed_is)
      where
        ended :
            (status : StreamStatus) (d' : RawDecoder) (out room : Bytes)
            → Ends (Keeps d) Waits (Done d) status d' out room
            → IsSound d' × (d'.history ≡ d.history ++ out) × (fed d' ≡ fed d)
        ended need_input d' out room (k, waits) = (Keeps-IsSound d d' out k, k.history_is, k.fed_is)
        ended need_output d' out room (k, full) = (Keeps-IsSound d d' out k, k.history_is, k.fed_is)
        ended finished d' out room k = (k.sound, k.history_is, k.fed_is)

    go :
        (ended : Bool)
        → d.finished ≡ ended
        → d.trailing_after_finish ≡ 0
        → Returns (Decodes d dst) (IsStreamError d) (
            if ended
            then ok (record { written = 0; status = finished }, dst, d)
            else decode_loop (enough_fuel d) d 0 dst)
    go true ended none_trailing = (s, refl, omega arith, sym (append-nil d.history), refl)
    go false going none_trailing =
        let begin : Keeps d d [] = record {
          valid = s.valid;
          history_is = sym (append-nil d.history);
          finished_is = going;
          trailing_is = none_trailing;
          input_is = refl;
          fed_is = refl;
          read = 0;
          read_in = omega arith;
          unread_is = refl;
        } in
        let few : measure d < enough_fuel d = fuel_enough d in
        Returns-map (Given (Keeps d) Waits (Done d) (length dst)) (Decodes d dst) (IsStreamError d)
          (IsStreamError d) (decode_loop (enough_fuel d) d 0 dst) result (λ e h. h)
          (decode_loop-Given (Keeps d) Waits (Done d) (IsStreamError d) (λ d' out k. k.valid)
            (literal-Keeps d)
            (λ d' out bytes count distance k no_literal h size copied which.
              match-Keeps d d' out bytes count distance k no_literal h size which)
            (input-Keeps d) (enough_fuel d) (length dst) d [] dst begin refl few)
