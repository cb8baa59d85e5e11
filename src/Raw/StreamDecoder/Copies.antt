-- ===== src/Raw/StreamDecoder/Copies.antt =====
-- What the copying operations of `RawDecoder` do to the bytes it has not read and to its history,
-- whatever the compaction of its input does.
use lzvn.Base.{
  ℕ, suc, ◌+◌, ◌-◌, ◌*◌, ◌≤◌, ◌<◌, ◌≡◌, refl, sym, ap, ◌∙◌, inl, inr, min, true, ◌&&◌, ◌||◌, [],
  ◌∷◌, ◌++◌, append-nil, append_assoc, arith, Bytes, length, length-append, length-take,
  length-drop, take, drop, take-append-drop, take-length, get_or, set, set-append, leb, ◌==◌,
  Bool-cases, drop-drop,
}
use lzvn.Error.{Result, ok, index, index-eq-get_or, slice, store, copy_from_slice, checked_sub}
use lzvn.Raw.Format.{copy_match}
use lzvn.Raw.StreamDecoder.{
  RawDecoder, is_empty, input_compact_threshold, absolute_offset, compact_input,
  compact_input_if_necessary, copy_pending_literal, copy_slots, copy_pending_match,
}

-- The bytes that are fed and not read.
abbrev pub unread : RawDecoder → Bytes
unread d = drop d.input_offset d.input

-- `n` bytes were read and `emitted` was produced; the rest is as it was.
pub record Moved (d d' : RawDecoder) (n : ℕ) (emitted : Bytes) : Type 0 where
  pub unread_is : unread d' ≡ drop n (unread d)
  pub inside : d'.input_offset ≤ length d'.input
  pub offset_is : absolute_offset d' ≡ absolute_offset d + n
  pub history_is : d'.history ≡ d.history ++ emitted
  pub finished_input_is : d'.finished_input ≡ d.finished_input
  pub finished_is : d'.finished ≡ d.finished
  pub trailing_is : d'.trailing_after_finish ≡ d.trailing_after_finish

-- What compaction leaves of a decoder.
abbrev pub Compacts : RawDecoder → Result RawDecoder → Type 0
Compacts d r =
    (d' : RawDecoder) × (r ≡ ok d')
    × Moved d d' 0 []
    × (d'.pending ≡ d.pending)
    × (d'.previous_distance ≡ d.previous_distance)
    × (d'.eos_padding ≡ d.eos_padding)

unmoved : (d : RawDecoder) → d.input_offset ≤ length d.input → Moved d d 0 []
unmoved d h = record {
  unread_is = refl;
  inside = h;
  offset_is = omega arith;
  history_is = sym (append-nil d.history);
  finished_input_is = refl;
  finished_is = refl;
  trailing_is = refl;
}

pub compact_input-Compacts :
    (d : RawDecoder) → d.input_offset ≤ length d.input → Compacts d (compact_input d)
unfolding compact_input
compact_input-Compacts d h = elim (Bool-cases (d.input_offset == 0)) [
  | inl none_read ↦ (d, rw none_read refl, unmoved d h, refl, refl, refl)
  | inr some_read ↦
      let whole : take (length d.input - d.input_offset) (unread d) ≡ unread d =
        take-length _ (unread d) (omega (arith, length-drop {0} d.input_offset d.input)) in
      let cut : slice d.input d.input_offset (length d.input) ≡ ok (unread d) =
        ground (arith, whole) in
      (
        record d { input = unread d; input_base = d.input_base + d.input_offset; input_offset = 0 },
        rw (some_read, cut) refl,
        record {
          unread_is = refl;
          inside = omega arith;
          offset_is = omega arith;
          history_is = sym (append-nil d.history);
          finished_input_is = refl;
          finished_is = refl;
          trailing_is = refl;
        },
        refl,
        refl,
        refl,
      )
]

pub compact_if-Compacts :
    (d : RawDecoder) → d.input_offset ≤ length d.input → Compacts d (compact_input_if_necessary d)
unfolding compact_input_if_necessary
compact_if-Compacts d h =
    elim (Bool-cases (
      is_empty d.pending
      && (d.input_offset == length d.input
          || leb input_compact_threshold d.input_offset
          || leb (length d.input) (d.input_offset * 2)))) [
            | inl needed ↦ rw needed (compact_input-Compacts d h)
            | inr not_needed ↦ (d, rw not_needed refl, unmoved d h, refl, refl, refl)
          ]

pub Moved-trans :
    (d d' d'' : RawDecoder) (m n p : ℕ) (xs ys zs : Bytes)
    → Moved d d' m xs
    → Moved d' d'' n ys
    → p ≡ m + n
    → zs ≡ xs ++ ys
    → Moved d d'' p zs
Moved-trans d d' d'' m n p xs ys zs a b hp hz = record {
  unread_is =
      b.unread_is
      ∙ ap (drop n) a.unread_is
      ∙ drop-drop (unread d) m n
      ∙ ap (λ k. drop k (unread d)) (sym hp);
  inside = b.inside;
  offset_is = omega (arith, a.offset_is, b.offset_is);
  history_is =
      b.history_is
      ∙ ap (λ h. h ++ ys) a.history_is
      ∙ append_assoc d.history xs ys
      ∙ ap (λ t. d.history ++ t) (sym hz);
  finished_input_is = b.finished_input_is ∙ a.finished_input_is;
  finished_is = b.finished_is ∙ a.finished_is;
  trailing_is = b.trailing_is ∙ a.trailing_is;
}

-- A compaction behind a move.
pub compact_if-Moved :
    (d d' : RawDecoder) (n : ℕ) (emitted : Bytes)
    → Moved d d' n emitted
    → (d'' : RawDecoder) × (compact_input_if_necessary d' ≡ ok d'')
      × Moved d d'' n emitted
      × (d''.pending ≡ d'.pending)
      × (d''.previous_distance ≡ d'.previous_distance)
compact_if-Moved d d' n emitted m =
    let (d'', compacted, moved, pending_is, previous_is, padding_is) =
      compact_if-Compacts d' m.inside in
    (
      d'',
      compacted,
      Moved-trans d d' d'' n 0 n emitted [] emitted m moved (omega arith)
          (sym (append-nil emitted)),
      pending_is,
      previous_is,
    )

pub copy_pending_literal_lem :
    (d : RawDecoder) (room : Bytes)
    → d.input_offset ≤ length d.input
    → d.pending.literal ≤ length (unread d)
    → let count = min d.pending.literal (length room) in
      (d' : RawDecoder) × (copy_pending_literal d room
        ≡ ok (count, take count (unread d) ++ drop count room, d'))
      × Moved d d' count (take count (unread d))
      × (d'.pending ≡ record d.pending { literal = d.pending.literal - count })
      × (d'.previous_distance ≡ d.previous_distance)
unfolding copy_pending_literal
copy_pending_literal_lem d room h buffered =
    let count = min d.pending.literal (length room) in
    let bytes = take count (unread d) in
    let left : length (unread d) ≡ length d.input - d.input_offset =
      length-drop d.input_offset d.input in
    let size : d.input_offset + count - d.input_offset ≡ count = omega arith in
    let cut : slice d.input d.input_offset (d.input_offset + count) ≡ ok bytes =
      ground (arith, size) in
    let bytes_size : length bytes ≡ count = omega (arith, length-take {0} count (unread d)) in
    let copied : copy_from_slice room 0 bytes ≡ ok (bytes ++ drop count room) =
      let all : 0 + length bytes ≡ count = omega arith in
      let fits : leb count (length room) ≡ true = ground arith in rw (all, fits) refl in
    let d1 = record d {
      history = d.history ++ bytes;
      input_offset = d.input_offset + count;
      pending = record d.pending { literal = d.pending.literal - count };
    } in
    let moved : Moved d d1 count bytes = record {
      unread_is = sym (drop-drop d.input d.input_offset count);
      inside = omega arith;
      offset_is = omega arith;
      history_is = refl;
      finished_input_is = refl;
      finished_is = refl;
      trailing_is = refl;
    } in
    let (d2, compacted, moved', pending_is, previous_is) =
      compact_if-Moved d d1 count bytes moved in
    (d2, rw (cut, copied, compacted) refl, moved', pending_is, previous_is)

-- The slots take the bytes that the match adds to the history.
copy_slots-append :
    (hole : Bytes) (slot distance : ℕ) (history front rest : Bytes)
    → slot ≡ length front
    → 0 < distance
    → distance ≤ length history
    → (bytes : Bytes) × (length bytes ≡ length hole)
      × (copy_match (length hole) distance history ≡ history ++ bytes)
      × (copy_slots (length hole) slot distance history (front ++ (hole ++ rest))
          ≡ ok (history ++ bytes, front ++ (bytes ++ rest)))
unfolding copy_slots copy_match
copy_slots-append [] slot distance history front rest hs pos fits =
    ([], refl, sym (append-nil history), rw append-nil refl)
copy_slots-append (free ∷ hole) slot distance history front rest hs pos fits =
    let byte = get_or history (length history - distance) 0 in
    let history' = history ++ (byte ∷ []) in
    let front' = front ++ (byte ∷ []) in
    let grown : length history' ≡ length history + 1 = length-append history (byte ∷ []) in
    let (bytes, size, copied, slots) =
      copy_slots-append hole (slot + 1) distance history' front' rest
        (omega (arith, length-append {0} front (byte ∷ []))) pos (omega arith) in
    let sub : checked_sub (length history) distance ≡ ok (length history - distance) =
      ground arith in
    let fetched : index history (length history - distance) ≡ ok byte =
      index-eq-get_or history (length history - distance) (omega arith) in
    let written : set (front ++ (free ∷ (hole ++ rest))) slot byte ≡ front' ++ (hole ++ rest) =
      set-append front (hole ++ rest) free byte slot hs
      ∙ sym (append_assoc front (byte ∷ []) (hole ++ rest)) in
    let stored : store (front ++ (free ∷ (hole ++ rest))) slot byte
        ≡ ok (front' ++ (hole ++ rest)) =
      ground (arith, written, length-append {0} front (free ∷ (hole ++ rest))) in
    let history_is : history' ++ bytes ≡ history ++ (byte ∷ bytes) =
      append_assoc history (byte ∷ []) bytes in
    let front_is : front' ++ (bytes ++ rest) ≡ front ++ (byte ∷ (bytes ++ rest)) =
      append_assoc front (byte ∷ []) (bytes ++ rest) in
    (
      byte ∷ bytes,
      ap suc size,
      copied ∙ history_is,
      rw (sub, fetched, stored) (slots ∙ rw (history_is, front_is) refl),
    )

pub copy_pending_match_lem :
    (d : RawDecoder) (room : Bytes)
    → d.input_offset ≤ length d.input
    → 0 < d.pending.distance
    → d.pending.distance ≤ length d.history
    → let count = min d.pending.match (length room) in
      (bytes : Bytes) × (length bytes ≡ count)
      × (copy_match count d.pending.distance d.history ≡ d.history ++ bytes)
      × (copy_pending_match d room
          ≡ ok (
            count,
            bytes ++ drop count room,
            record d {
              history = d.history ++ bytes;
              pending = record d.pending { match = d.pending.match - count };
            },
          ))
unfolding copy_pending_match
copy_pending_match_lem d room h pos fits =
    let count = min d.pending.match (length room) in
    let hole = take count room in
    let hole_size : length hole ≡ count = omega (arith, length-take {0} count room) in
    let (bytes, size, copied, slots) =
      copy_slots-append hole 0 d.pending.distance d.history [] (drop count room) refl pos fits in
    let slots' = rw (hole_size, take-append-drop count room) at slots in
    (bytes, size ∙ hole_size, rw hole_size at copied, rw slots' refl)
