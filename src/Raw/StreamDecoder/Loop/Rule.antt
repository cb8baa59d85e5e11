-- ===== src/Raw/StreamDecoder/Loop/Rule.antt =====
-- The rule for the loop of `RawDecoder::decode_into`: what its rounds keep holds when it returns, and
-- it returns, since each round reads input or ends a copy.
use lzvn.Base.{
  ℕ, zero, suc, ◌+◌, ◌-◌, ◌*◌, ◌≤◌, ◌<◌, ◌≡◌, refl, sym, ap, ◌∙◌, inl, inr, ◌⊎◌, min, true, [], ◌∷◌,
  ◌++◌, append-nil, append_assoc, arith, Bytes, length, length-append, length-take, length-drop,
  take, drop, take-append, ◌==◌, Bool-cases, if◌then◌else◌,
}
use lzvn.Error.{Error, ok, Returns, Returns-bind, slice, slice-append}
use lzvn.Stream.{StreamStatus, StreamProgress, need_input, need_output, finished}
use lzvn.Raw.Format.{copy_match}
use lzvn.Raw.StreamDecoder.{RawDecoder}
use lzvn.Raw.StreamDecoder.Copies.{unread, Moved, copy_pending_literal_lem, copy_pending_match_lem}
use lzvn.Raw.StreamDecoder.Loop.{
  Turn, again, give, input_turn, literal_turn, match_turn, turn, decode_loop,
}

-- What keeps the copies inside the input and the history.
pub record IsValid (d : RawDecoder) : Type 0 where
  pub inside : d.input_offset ≤ length d.input
  pub literal_in : d.pending.literal ≤ length (unread d)
  pub match_in :
      0 < d.pending.match
      → (0 < d.pending.distance) × (d.pending.distance ≤ length d.history + d.pending.literal)

unfoldable pub flag : ℕ → ℕ
flag n = if n == 0 then 0 else 1

-- The rounds that are left are fewer.
abbrev pub measure : RawDecoder → ℕ
measure d = 3 * length (unread d) + flag d.pending.literal + flag d.pending.match

-- A buffer of this size that begins with what is written.
abbrev Splits : ℕ → ℕ → Bytes → (Bytes → Bytes → Type 0) → Type 0
Splits size written dst P =
    (out room : Bytes) × (written ≡ length out)
    × (dst ≡ out ++ room)
    × (length dst ≡ size)
    × P out room

-- How the loop ends, with what it keeps.
abbrev pub Ends :
    (RawDecoder → Bytes → Type 0)
    → (RawDecoder → Type 0)
    → (RawDecoder → Bytes → Type 0)
    → StreamStatus
    → RawDecoder
    → Bytes
    → Bytes
    → Type 0
Ends P N F need_input d out room = P d out × N d
Ends P N F need_output d out room = P d out × (room ≡ [])
Ends P N F finished d out room = F d out

-- A round from a decoder with this measure.
abbrev pub Turned :
    (RawDecoder → Bytes → Type 0)
    → (RawDecoder → Type 0)
    → (RawDecoder → Bytes → Type 0)
    → ℕ
    → ℕ
    → Turn
    → Type 0
Turned P N F size m (again d written dst) =
    Splits size written dst (λ out room. P d out × (measure d < m))
Turned P N F size m (give status d written dst) = Splits size written dst (Ends P N F status d)

abbrev pub Given :
    (RawDecoder → Bytes → Type 0)
    → (RawDecoder → Type 0)
    → (RawDecoder → Bytes → Type 0)
    → ℕ
    → StreamProgress × Bytes × RawDecoder
    → Type 0
Given P N F size (progress, dst, d) =
    Splits size progress.written dst (Ends P N F progress.status d)

room_slice : (out room : Bytes) → slice (out ++ room) (length out) (length (out ++ room)) ≡ ok room
room_slice out room =
    rw append-nil at
      (slice-append out room [] (length out) (length (out ++ room)) refl (length-append out room))

written_front : (out room : Bytes) → take (length out) (out ++ room) ≡ out
written_front out room = take-append out room (length out) refl

drop-length : (n : ℕ) (xs : Bytes) → length xs ≤ n → drop n xs ≡ []
drop-length zero [] h = refl
drop-length zero (x ∷ xs) h = absurd (omega arith)
drop-length (suc n) [] h = refl
drop-length (suc n) (x ∷ xs) h = drop-length n xs (omega arith)

literal_measure :
    (d d' : RawDecoder) (count : ℕ)
    → Moved d d' count (take count (unread d))
    → d'.pending ≡ record d.pending { literal = d.pending.literal - count }
    → 0 < d.pending.literal
    → d.pending.literal ≤ length (unread d)
    → count ≡ d.pending.literal
    → measure d' < measure d
unfolding flag
literal_measure d d' count moved pending_is some_left inside all =
    let left : length (unread d') ≡ length (unread d) - count =
      ap length moved.unread_is ∙ length-drop count (unread d) in
    let flags : flag d'.pending.literal + flag d'.pending.match
        ≡ flag (d.pending.literal - count) + flag d.pending.match =
      ap (λ q. flag q.literal + flag q.match) pending_is in
    let no_literal : flag (d.pending.literal - count) ≡ 0 = ground arith in
    let was_literal : flag d.pending.literal ≡ 1 = ground arith in omega arith

match_measure :
    (match count rest literal : ℕ)
    → 0 < match
    → (match - count == 0) ≡ true
    → rest + flag literal + flag (match - count) < rest + flag literal + flag match
unfolding flag
match_measure match count rest literal some_left all =
    let none_left : flag (match - count) ≡ 0 = ground arith in
    let was_left : flag match ≡ 1 = ground arith in omega arith

empty_room : (room : Bytes) → length room ≡ 0 → room ≡ []
empty_room [] h = refl
empty_room (x ∷ room) h = absurd (omega arith)

refilled :
    (out bytes room : Bytes) (count : ℕ)
    → length bytes ≡ count
    → count ≤ length room
    → length (out ++ (bytes ++ drop count room)) ≡ length (out ++ room)
refilled out bytes room count h k = omega (
  arith,
  length-append {0} out (bytes ++ drop count room),
  length-append {0} bytes (drop count room),
  length-append {0} out room,
  length-drop {0} count room,
)

module _ (P : RawDecoder → Bytes → Type 0) (N : RawDecoder → Type 0)
    (F : RawDecoder → Bytes → Type 0) (E : Error → Type 0)
    (valid : (d : RawDecoder) (out : Bytes) → P d out → IsValid d)
    (literal_keeps : (d d' : RawDecoder) (out : Bytes) (count : ℕ)
      → P d out
      → count ≤ d.pending.literal
      → Moved d d' count (take count (unread d))
      → d'.pending ≡ record d.pending { literal = d.pending.literal - count }
      → d'.previous_distance ≡ d.previous_distance
      → P d' (out ++ take count (unread d)))
    (match_keeps : (d : RawDecoder) (out bytes : Bytes) (count distance : ℕ)
      → P d out
      → d.pending.literal ≡ 0
      → count ≤ d.pending.match
      → length bytes ≡ count
      → copy_match count d.pending.distance d.history ≡ d.history ++ bytes
      → ((distance ≡ d.pending.distance) ⊎ (count ≡ d.pending.match))
      → P
          (record d {
            history = d.history ++ bytes;
            pending = record {
              literal = d.pending.literal;
              match = d.pending.match - count;
              distance = distance;
            };
          })
          (out ++ bytes))
    (input_keeps : (d : RawDecoder) (out room : Bytes)
      → P d out
      → d.pending.literal ≡ 0
      → d.pending.match ≡ 0
      → Returns
          (Turned P N F (length (out ++ room)) (measure d))
          E
          (input_turn d (length out) (out ++ room))) where
  literal_turn-Turned :
      (d : RawDecoder) (out room : Bytes)
      → P d out
      → 0 < d.pending.literal
      → 0 < length room
      → Returns
          (Turned P N F (length (out ++ room)) (measure d))
          E
          (literal_turn d (length out) (out ++ room))
  unfolding literal_turn
  literal_turn-Turned d out room p some_left open_room =
      let v = valid d out p in
      let count = min d.pending.literal (length room) in
      let bytes = take count (unread d) in
      let rest = drop count room in
      let (d', copied, moved, pending_is, previous_is) =
        copy_pending_literal_lem d room v.inside v.literal_in in
      let bytes_size : length bytes ≡ count =
        omega (arith, length-take {0} count (unread d), v.literal_in) in
      let p' = literal_keeps d d' out count p (omega arith) moved pending_is previous_is in
      let literal_is : d'.pending.literal ≡ d.pending.literal - count =
        ap (λ q. q.literal) pending_is in
      elim (Bool-cases (d'.pending.literal == 0)) [
        | inl all ↦
            rw (room_slice out room, copied, written_front out room, all)
              (
                out ++ bytes,
                rest,
                omega (arith, length-append {0} out bytes),
                sym (append_assoc out bytes rest),
                refilled out bytes room count (omega arith) (omega arith),
                (
                  p',
                  literal_measure d d' count moved pending_is some_left v.literal_in (ground arith),
                ),
              )
        | inr some_more ↦
            rw (room_slice out room, copied, written_front out room, some_more)
              (
                out ++ bytes,
                rest,
                omega (arith, length-append {0} out bytes),
                sym (append_assoc out bytes rest),
                refilled out bytes room count (omega arith) (omega arith),
                (p', drop-length count room (ground arith)),
              )
      ]

  match_turn-Turned :
      (d : RawDecoder) (out room : Bytes)
      → P d out
      → d.pending.literal ≡ 0
      → 0 < d.pending.match
      → Returns
          (Turned P N F (length (out ++ room)) (measure d))
          E
          (match_turn d (length out) (out ++ room))
  unfolding match_turn
  match_turn-Turned d out room p no_literal some_left =
      let v = valid d out p in
      let count = min d.pending.match (length room) in
      let rest = drop count room in
      let (pos, fits) = v.match_in some_left in
      let (bytes, size, matched, copied) =
        copy_pending_match_lem d room v.inside pos (omega arith) in
      let keeps = λ (distance : ℕ).
        match_keeps d out bytes count distance p no_literal (omega arith) size matched in
      elim (Bool-cases (d.pending.match - count == 0)) [
        | inl all ↦
            rw (room_slice out room, copied, written_front out room, all)
              (
                out ++ bytes,
                rest,
                omega (arith, length-append {0} out bytes),
                sym (append_assoc out bytes rest),
                refilled out bytes room count (omega arith) (omega arith),
                (
                  keeps 0 (inr (ground arith)),
                  match_measure d.pending.match count _ _ some_left all,
                ),
              )
        | inr some_more ↦
            rw (room_slice out room, copied, written_front out room, some_more)
              (
                out ++ bytes,
                rest,
                omega (arith, length-append {0} out bytes),
                sym (append_assoc out bytes rest),
                refilled out bytes room count (omega arith) (omega arith),
                (keeps d.pending.distance (inl refl), drop-length count room (ground arith)),
              )
      ]

  turn-Turned :
      (d : RawDecoder) (out room : Bytes)
      → P d out
      → Returns
          (Turned P N F (length (out ++ room)) (measure d))
          E
          (turn d (length out) (out ++ room))
  unfolding turn
  turn-Turned d out room p = elim (Bool-cases (length out == length (out ++ room))) [
    | inl full ↦ rw full (
      out,
      room,
      refl,
      refl,
      refl,
      (p, empty_room room (ground (arith, length-append {0} out room))),
    )
    | inr roomy ↦
        let some_room : 0 < length room = ground (arith, length-append {0} out room) in
        elim (Bool-cases (d.pending.literal == 0)) [
          | inr literal ↦
              rw (roomy, literal) (literal_turn-Turned d out room p (ground arith) some_room)
          | inl no_literal ↦ elim (Bool-cases (d.pending.match == 0)) [
            | inr match ↦
                rw (roomy, no_literal, match)
                  (match_turn-Turned d out room p (ground arith) (ground arith))
            | inl no_match ↦
                rw (roomy, no_literal, no_match)
                  (input_keeps d out room p (ground arith) (ground arith))
          ]
        ]
  ]

  -- From a decoder that `P` holds of, with fuel for its measure, the loop returns.
  pub decode_loop-Given :
      (fuel size : ℕ) (d : RawDecoder) (out room : Bytes)
      → P d out
      → length (out ++ room) ≡ size
      → measure d < fuel
      → Returns (Given P N F size) E (decode_loop fuel d (length out) (out ++ room))
  unfolding decode_loop
  decode_loop-Given zero size d out room p e h = absurd (omega arith)
  decode_loop-Given (suc fuel) size d out room p e h =
      Returns-bind (Turned P N F size (measure d)) (Given P N F size) E
        (turn d (length out) (out ++ room)) _ (rw e at (turn-Turned d out room p))
        (go (decode_loop-Given fuel size))
    where
      go :
          ((d' : RawDecoder) (out' room' : Bytes)
            → P d' out'
            → length (out' ++ room') ≡ size
            → measure d' < fuel
            → Returns (Given P N F size) E (decode_loop fuel d' (length out') (out' ++ room')))
          → (t : Turn) → Turned P N F size (measure d) t
          → Returns (Given P N F size) E (elim t [
            | again d' written' dst' ↦ decode_loop fuel d' written' dst'
            | give status d' written' dst' ↦
                ok (record { written = written'; status = status }, dst', d')
          ])
      go loop (again d' written' dst') (out', room', hw, hd, hs, (p', fewer)) =
          rw (hw, hd) (loop d' out' room' p' (rw hd at hs) (omega arith))
      go loop (give status d' written' dst') given = given
