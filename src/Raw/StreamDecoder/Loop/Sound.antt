-- ===== src/Raw/StreamDecoder/Loop/Sound.antt =====
-- The invariant of `RawDecoder`, and that the copies and the instructions keep it.
use lzvn.Base.{
  ℕ, ◌+◌, ◌-◌, ◌≤◌, ◌<◌, ◌≡◌, ap, ◌∙◌, ◌⊎◌, inl, inr, true, false, [], ◌++◌, append-nil,
  append_assoc, arith, Bytes, length, length-append, length-drop, length-take, take, drop,
  drop-drop,
}
use lzvn.Error.{Error, truncated_input, invalid_opcode, invalid_match_distance, trailing_data}
use lzvn.Raw.Code.{Code}
use lzvn.Raw.Refusal.{Refused}
use lzvn.Raw.StreamDecoder.{RawDecoder, absolute_offset}
use lzvn.Raw.StreamDecoder.Copies.{unread, Moved}
use lzvn.Raw.StreamDecoder.Loop.Rule.{IsValid, measure, flag}
use lzvn.Raw.StreamDecoder.Loop.Arms.{Prepared}

-- How many bytes were fed before the end marker was read.
abbrev pub fed : RawDecoder → ℕ
fed d = absolute_offset d + length (unread d)

-- While the end marker is not read, the copies stay inside the input and the history; then nothing is
-- pending or unread, and the padding is at most 7 bytes.
pub record IsSound (d : RawDecoder) : Type 0 where
  pub valid : IsValid d
  pub open_padding : d.finished ≡ false → d.trailing_after_finish ≡ 0
  pub ended_unread : d.finished ≡ true → unread d ≡ []
  pub ended_padding : d.finished ≡ true → d.eos_padding ≤ 7

-- Behind bytes that a call reads, it refuses an instruction. The history has grown by then or is the
-- same, and there is room for any output.
abbrev pub RefusedBehind : RawDecoder → Error → Type 0
RefusedBehind d e =
    (read previous written : ℕ) × (read ≤ length (unread d))
    × (length d.history ≤ written)
    × Refused (absolute_offset d + read) (drop read (unread d)) previous written 0 e

-- An error of a call, and what it says of the bytes that were fed.
abbrev pub IsStreamError : RawDecoder → Error → Type 0
IsStreamError d (truncated_input position) =
    (d.finished_input ≡ true) × RefusedBehind d (truncated_input position)
IsStreamError d (invalid_opcode position opcode) = RefusedBehind d (invalid_opcode position opcode)
IsStreamError d (invalid_match_distance distance available) =
    RefusedBehind d (invalid_match_distance distance available)
IsStreamError d (trailing_data remaining) =
    ((0 < remaining) × (remaining ≡ d.trailing_after_finish))
    ⊎ RefusedBehind d (trailing_data remaining)
IsStreamError d _ = ⊥

-- What the loop keeps of the decoder that the call began with.
pub record Keeps (d0 d : RawDecoder) (out : Bytes) : Type 0 where
  pub valid : IsValid d
  pub history_is : d.history ≡ d0.history ++ out
  pub finished_is : d.finished ≡ false
  pub trailing_is : d.trailing_after_finish ≡ 0
  pub input_is : d.finished_input ≡ d0.finished_input
  pub fed_is : fed d ≡ fed d0
  pub read : ℕ
  pub read_in : read ≤ length (unread d0)
  pub unread_is : unread d ≡ drop read (unread d0)

pub record Done (d0 d : RawDecoder) (out : Bytes) : Type 0 where
  pub sound : IsSound d
  pub history_is : d.history ≡ d0.history ++ out
  pub finished_is : d.finished ≡ true
  pub trailing_is : d.trailing_after_finish ≡ 0
  pub input_is : d.finished_input ≡ d0.finished_input
  pub fed_is : fed d ≡ fed d0

-- A move keeps what was fed.
pub fed-Moved :
    (d d' : RawDecoder) (n : ℕ) (emitted : Bytes)
    → Moved d d' n emitted
    → n ≤ length (unread d)
    → fed d' ≡ fed d
fed-Moved d d' n emitted m h =
    let left : length (unread d') ≡ length (unread d) - n =
      ap length m.unread_is ∙ length-drop n (unread d) in
    omega (arith, m.offset_is)

pub literal-Keeps :
    (d0 d d' : RawDecoder) (out : Bytes) (count : ℕ)
    → Keeps d0 d out
    → count ≤ d.pending.literal
    → Moved d d' count (take count (unread d))
    → d'.pending ≡ record d.pending { literal = d.pending.literal - count }
    → d'.previous_distance ≡ d.previous_distance
    → Keeps d0 d' (out ++ take count (unread d))
literal-Keeps d0 d d' out count k h moved pending_is previous_is =
    let literal_is : d'.pending.literal ≡ d.pending.literal - count =
      ap (λ q. q.literal) pending_is in
    let match_is : d'.pending.match ≡ d.pending.match = ap (λ q. q.match) pending_is in
    let distance_is : d'.pending.distance ≡ d.pending.distance = ap (λ q. q.distance) pending_is in
    let left : length (unread d') ≡ length (unread d) - count =
      ap length moved.unread_is ∙ length-drop count (unread d) in
    let v = k.valid in
    let grown : length d'.history ≡ length d.history + count =
      ap length moved.history_is
      ∙ length-append d.history (take count (unread d))
      ∙ omega (arith, length-take {0} count (unread d), v.literal_in) in
    record {
      valid = record {
        inside = moved.inside;
        literal_in = omega (arith, v.literal_in);
        match_in =
            λ some_left. let (pos, fits) = v.match_in (omega arith) in (omega arith, omega arith);
      };
      history_is =
          moved.history_is
          ∙ ap (λ t. t ++ take count (unread d)) k.history_is
          ∙ append_assoc d0.history out (take count (unread d));
      finished_is = moved.finished_is ∙ k.finished_is;
      trailing_is = moved.trailing_is ∙ k.trailing_is;
      input_is = moved.finished_input_is ∙ k.input_is;
      fed_is = fed-Moved d d' count _ moved (omega (arith, v.literal_in)) ∙ k.fed_is;
      read = k.read + count;
      read_in = omega (
        arith,
        k.read_in,
        v.literal_in,
        ap length k.unread_is,
        length-drop {0} k.read (unread d0),
      );
      unread_is =
          moved.unread_is ∙ ap (drop count) k.unread_is ∙ drop-drop (unread d0) k.read count;
    }

pub match-Keeps :
    (d0 d : RawDecoder) (out bytes : Bytes) (count distance : ℕ)
    → Keeps d0 d out
    → d.pending.literal ≡ 0
    → count ≤ d.pending.match
    → length bytes ≡ count
    → ((distance ≡ d.pending.distance) ⊎ (count ≡ d.pending.match))
    → Keeps d0
        (record d {
          history = d.history ++ bytes;
          pending = record {
            literal = d.pending.literal;
            match = d.pending.match - count;
            distance = distance;
          };
        })
        (out ++ bytes)
match-Keeps d0 d out bytes count distance k no_literal h size which =
    let grown = length-append d.history bytes in
    record {
      valid = record {
        inside = k.valid.inside;
        literal_in = k.valid.literal_in;
        match_in = λ some_left. elim which [
          | inl same ↦
              let (pos, fits) = k.valid.match_in (omega arith) in (omega arith, omega arith)
          | inr all ↦ absurd (omega arith)
        ];
      };
      history_is = ap (λ t. t ++ bytes) k.history_is ∙ append_assoc d0.history out bytes;
      finished_is = k.finished_is;
      trailing_is = k.trailing_is;
      input_is = k.input_is;
      fed_is = k.fed_is;
      read = k.read;
      read_in = k.read_in;
      unread_is = k.unread_is;
    }

-- A prepared instruction.
pub Prepared-Keeps :
    (d0 d d' : RawDecoder) (c : Code) (out : Bytes)
    → Keeps d0 d out
    → (0 < c.match → c.checked ≡ true)
    → Prepared c d d'
    → Keeps d0 d' out
Prepared-Keeps d0 d d' c out k checked p =
    let left : length (unread d') ≡ length (unread d) - c.size =
      ap length p.moved.unread_is ∙ length-drop c.size (unread d) in
    let same : d'.history ≡ d.history = p.moved.history_is ∙ append-nil d.history in
    let size : length d'.history ≡ length d.history = ap length same in
    record {
      valid = record {
        inside = p.moved.inside;
        literal_in = omega (arith, p.literal_is, p.buffers);
        match_in = λ some_left.
            let some_match : 0 < c.match = omega (arith, p.match_is) in
            let (pos, fits) = p.reaches (checked some_match) in
            let which = p.distance_is some_match in (omega arith, omega (arith, p.literal_is));
      };
      history_is = same ∙ k.history_is;
      finished_is = p.moved.finished_is ∙ k.finished_is;
      trailing_is = p.moved.trailing_is ∙ k.trailing_is;
      input_is = p.moved.finished_input_is ∙ k.input_is;
      fed_is = fed-Moved d d' c.size [] p.moved (omega (arith, p.buffers)) ∙ k.fed_is;
      read = k.read + c.size;
      read_in =
          omega (
            arith,
            k.read_in,
            p.buffers,
            ap length k.unread_is,
            length-drop {0} k.read (unread d0),
          );
      unread_is =
          p.moved.unread_is ∙ ap (drop c.size) k.unread_is ∙ drop-drop (unread d0) k.read c.size;
    }

pub Prepared-measure :
    (d d' : RawDecoder) (c : Code)
    → Prepared c d d'
    → 0 < c.size
    → d.pending.literal ≡ 0
    → d.pending.match ≡ 0
    → measure d' < measure d
unfolding flag
Prepared-measure d d' c p some_size no_literal no_match =
    let left : length (unread d') ≡ length (unread d) - c.size =
      ap length p.moved.unread_is ∙ length-drop c.size (unread d) in
    let a : flag d'.pending.literal ≤ 1 = ground arith in
    let b : flag d'.pending.match ≤ 1 = ground arith in omega (arith, p.buffers)
