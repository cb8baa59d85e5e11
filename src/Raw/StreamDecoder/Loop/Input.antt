-- ===== src/Raw/StreamDecoder/Loop/Input.antt =====
-- A round of `RawDecoder::decode_into` with no copy pending: how it ends, and how it is refused.
use lzvn.Base.{
  ℕ, ◌+◌, ◌-◌, ◌≤◌, ◌<◌, ◌≡◌, refl, sym, ◌∙◌, ◌⊎◌, inl, inr, true, false, none, some, [], ◌∷◌,
  append-nil, arith, Bytes, length, length-drop, take, drop, drop-drop, take-length, get_or, ltb,
  ◌==◌, Bool-cases, Option-cases,
}
use lzvn.Error.{
  Error, ok, err, Returns, Returns-map, Returns-bind, index, slice, truncated_input, invalid_opcode,
  invalid_match_distance, trailing_data, output_too_small, size_mismatch, unsupported_block_magic,
  invalid_decmpfs_magic, unsupported_decmpfs_compression_type, missing_resource_fork,
  invalid_resource_fork, size_overflow,
}
use lzvn.Stream.{need_input, need_output, finished}
use lzvn.Raw.Opcode.{
  OpcodeKind, classify, small_distance, medium_distance, large_distance, previous_distance,
  small_literal, large_literal, small_match, large_match, nop, eos,
}
use lzvn.Raw.Code.{code_of, is_eos}
use lzvn.Raw.Refusal.{Excess}
use lzvn.Raw.Decode.{max_eos_padding, any_nonzero}
use lzvn.Raw.StreamDecoder.{RawDecoder, absolute_offset, available_input, consume_eos}
use lzvn.Raw.StreamDecoder.Copies.{unread, Moved, compact_input-Compacts}
use lzvn.Raw.StreamDecoder.Loop.{
  Arm, prepared, starved, ended, arm, Turn, again, give, after_arm, opcode_turn, input_turn,
}
use lzvn.Raw.StreamDecoder.Loop.Arms.{Prepared, ArmOf, RefusalOf, index-unread, arm-Returns}

abbrev pub opcode_of : RawDecoder → ℕ
opcode_of d = get_or (unread d) 0 0

-- The end marker is read, with all that is buffered behind it.
pub record Ended (d d' : RawDecoder) : Type 0 where
  pub unread_is : unread d' ≡ []
  pub inside : d'.input_offset ≤ length d'.input
  pub offset_is : absolute_offset d' ≡ absolute_offset d + length (unread d)
  pub history_is : d'.history ≡ d.history
  pub pending_is : d'.pending ≡ d.pending
  pub finished_input_is : d'.finished_input ≡ d.finished_input
  pub finished_is : d'.finished ≡ true
  pub trailing_is : d'.trailing_after_finish ≡ d.trailing_after_finish
  pub padding_is : d'.eos_padding ≡ length (drop 1 (unread d))
  pub zeros : any_nonzero (drop 1 (unread d)) ≡ false
  pub few : length (drop 1 (unread d)) ≤ 7

-- There is no whole instruction yet.
abbrev pub Starved : RawDecoder → Type 0
Starved d =
    (length (unread d) ≡ 0)
    ⊎ ((kind : OpcodeKind) × (classify (opcode_of d) ≡ some kind)
        × (is_eos kind ≡ false)
        × (let c = code_of kind (opcode_of d) (unread d) d.previous_distance in
            length (unread d) < c.size + c.literal))

abbrev pub InputTurn : RawDecoder → ℕ → Bytes → Turn → Type 0
InputTurn d written dst (again d' written' dst') =
    (written' ≡ written)
    × (dst' ≡ dst)
    × ((kind : OpcodeKind) × (classify (opcode_of d) ≡ some kind)
        × (is_eos kind ≡ false)
        × Prepared (code_of kind (opcode_of d) (unread d) d.previous_distance) d d')
InputTurn d written dst (give need_input d' written' dst') =
    (written' ≡ written)
    × (dst' ≡ dst)
    × Moved d d' 0 []
    × (d'.pending ≡ d.pending)
    × (d'.previous_distance ≡ d.previous_distance)
    × (d.finished_input ≡ false)
    × Starved d
InputTurn d written dst (give need_output d' written' dst') = ⊥
InputTurn d written dst (give finished d' written' dst') =
    (written' ≡ written)
    × (dst' ≡ dst)
    × (0 < length (unread d))
    × (classify (opcode_of d) ≡ some eos)
    × Ended d d'

abbrev pub InputError : RawDecoder → Error → Type 0
InputError d (truncated_input position) =
    (position ≡ absolute_offset d) × (d.finished_input ≡ true) × Starved d
InputError d (invalid_opcode position opcode) =
    (position ≡ absolute_offset d)
    × (opcode ≡ opcode_of d)
    × (0 < length (unread d))
    × (classify opcode ≡ none)
InputError d (invalid_match_distance distance available) =
    (kind : OpcodeKind) × (classify (opcode_of d) ≡ some kind)
    × (is_eos kind ≡ false)
    × RefusalOf (code_of kind (opcode_of d) (unread d) d.previous_distance) d
        (invalid_match_distance distance available)
InputError d (trailing_data remaining) =
    (0 < length (unread d))
    × (classify (opcode_of d) ≡ some eos)
    × Excess (drop 1 (unread d)) remaining
InputError d _ = ⊥

-- The arm of the end marker.
eos-Returns :
    (d : RawDecoder) (written : ℕ) (dst : Bytes)
    → d.input_offset ≤ length d.input
    → 0 < length (unread d)
    → classify (opcode_of d) ≡ some eos
    → Returns
        (InputTurn d written dst)
        (InputError d)
        (opcode_turn (some eos) (opcode_of d) d written dst)
unfolding opcode_turn arm consume_eos
eos-Returns d written dst inside some_left defined =
    let left = length-drop d.input_offset d.input in
    let padding = drop 1 (unread d) in
    let padding_size : length padding ≡ length (unread d) - 1 = length-drop 1 (unread d) in
    let whole : take (length d.input - (d.input_offset + 1)) (drop (d.input_offset + 1) d.input)
        ≡ padding =
      take-length _ (drop (d.input_offset + 1) d.input)
        (omega (arith, length-drop {0} (d.input_offset + 1) d.input))
      ∙ sym (drop-drop d.input d.input_offset 1) in
    let cut : slice d.input (d.input_offset + 1) (length d.input) ≡ ok padding =
      ground (arith, whole) in
    elim (Bool-cases (any_nonzero padding)) [
      | inl other ↦ rw (cut, other) (some_left, defined, inl (other, refl))
      | inr clear ↦ elim (Bool-cases (ltb max_eos_padding (length padding))) [
        | inl long ↦ rw (cut, clear, long) (some_left, defined, inr (clear, ground arith, refl))
        | inr few ↦
            let d1 = record d { eos_padding = length padding; input_offset = length d.input } in
            let (d2, compacted, moved, pending_is, previous_is, padding_is) =
              compact_input-Compacts d1 (omega arith) in
            rw (cut, clear, few, compacted)
              (
                refl,
                refl,
                some_left,
                defined,
                record {
                  unread_is = moved.unread_is ∙ dropped d.input;
                  inside = moved.inside;
                  offset_is = omega (arith, moved.offset_is);
                  history_is = moved.history_is ∙ append-nil d.history;
                  pending_is = pending_is;
                  finished_input_is = moved.finished_input_is;
                  finished_is = refl;
                  trailing_is = moved.trailing_is;
                  padding_is = padding_is;
                  zeros = clear;
                  few = ground arith;
                },
              )
      ]
    ]
  where
    dropped : (xs : Bytes) → drop (length xs) xs ≡ []
    dropped [] = refl
    dropped (x ∷ xs) = dropped xs

-- The arm of any other instruction.
code-Returns :
    (kind : OpcodeKind) (d : RawDecoder) (written : ℕ) (dst : Bytes)
    → is_eos kind ≡ false
    → classify (opcode_of d) ≡ some kind
    → d.input_offset ≤ length d.input
    → 0 < length (unread d)
    → d.pending.literal ≡ 0
    → d.pending.match ≡ 0
    → Returns
        (InputTurn d written dst)
        (InputError d)
        (opcode_turn (some kind) (opcode_of d) d written dst)
unfolding opcode_turn
code-Returns kind d written dst other defined inside some_left no_literal no_match =
    let c = code_of kind (opcode_of d) (unread d) d.previous_distance in
    Returns-bind (ArmOf c d) (InputTurn d written dst) (InputError d) (arm kind (opcode_of d) d) _
      (Returns-map (ArmOf c d) (ArmOf c d) (RefusalOf c d) (InputError d) (arm kind (opcode_of d) d)
        (λ a h. h) refused
        (arm-Returns kind (opcode_of d) d other inside some_left no_literal no_match))
      behind
  where
    refused :
        (e : Error)
        → RefusalOf (code_of kind (opcode_of d) (unread d) d.previous_distance) d e
        → InputError d e
    refused (truncated_input position) (short, over, place) =
        (place, over, inr (kind, defined, other, short))
    refused (invalid_opcode p o) h = absurd h
    refused (invalid_match_distance distance available) h = (kind, defined, other, h)
    refused (output_too_small a b) h = h
    refused (size_mismatch a b) h = h
    refused (trailing_data a) h = absurd h
    refused (unsupported_block_magic a) h = h
    refused (invalid_decmpfs_magic a) h = h
    refused (unsupported_decmpfs_compression_type a) h = h
    refused missing_resource_fork h = h
    refused (invalid_resource_fork a) h = h
    refused (size_overflow a b c) h = h

    behind :
        (a : Arm)
        → ArmOf (code_of kind (opcode_of d) (unread d) d.previous_distance) d a
        → Returns (InputTurn d written dst) (InputError d) (ok (after_arm d written dst a))
    behind (prepared d') h = (refl, refl, (kind, defined, other, h))
    behind starved (short, going) = (
      refl,
      refl,
      record {
        unread_is = refl;
        inside = inside;
        offset_is = omega arith;
        history_is = sym (append-nil d.history);
        finished_input_is = refl;
        finished_is = refl;
        trailing_is = refl;
      },
      refl,
      refl,
      going,
      inr (kind, defined, other, short),
    )
    behind (ended d') h = absurd h

any_code-Returns :
    (kind : OpcodeKind) (d : RawDecoder) (written : ℕ) (dst : Bytes)
    → classify (opcode_of d) ≡ some kind
    → d.input_offset ≤ length d.input
    → 0 < length (unread d)
    → d.pending.literal ≡ 0
    → d.pending.match ≡ 0
    → Returns
        (InputTurn d written dst)
        (InputError d)
        (opcode_turn (some kind) (opcode_of d) d written dst)
any_code-Returns eos d written dst h i s l m = eos-Returns d written dst i s h
any_code-Returns small_distance d written dst h i s l m =
    code-Returns small_distance d written dst refl h i s l m
any_code-Returns medium_distance d written dst h i s l m =
    code-Returns medium_distance d written dst refl h i s l m
any_code-Returns large_distance d written dst h i s l m =
    code-Returns large_distance d written dst refl h i s l m
any_code-Returns previous_distance d written dst h i s l m =
    code-Returns previous_distance d written dst refl h i s l m
any_code-Returns small_literal d written dst h i s l m =
    code-Returns small_literal d written dst refl h i s l m
any_code-Returns large_literal d written dst h i s l m =
    code-Returns large_literal d written dst refl h i s l m
any_code-Returns small_match d written dst h i s l m =
    code-Returns small_match d written dst refl h i s l m
any_code-Returns large_match d written dst h i s l m =
    code-Returns large_match d written dst refl h i s l m
any_code-Returns nop d written dst h i s l m = code-Returns nop d written dst refl h i s l m

pub input_turn-Returns :
    (d : RawDecoder) (written : ℕ) (dst : Bytes)
    → d.input_offset ≤ length d.input
    → d.pending.literal ≡ 0
    → d.pending.match ≡ 0
    → Returns (InputTurn d written dst) (InputError d) (input_turn d written dst)
unfolding input_turn
input_turn-Returns d written dst inside no_literal no_match =
    let left = length-drop d.input_offset d.input in
    elim (Bool-cases (available_input d == 0)) [
      | inl empty ↦
          let nothing : length (unread d) ≡ 0 = ground arith in
          let (d', compacted, moved, pending_is, previous_is, padding_is) =
            compact_input-Compacts d inside in
          elim (Bool-cases d.finished_input) [
            | inl over ↦
                let over' : d'.finished_input ≡ true = moved.finished_input_is ∙ over in
                rw (empty, compacted, over') (omega (arith, moved.offset_is), over, inl nothing)
            | inr going ↦
                let going' : d'.finished_input ≡ false = moved.finished_input_is ∙ going in
                rw (empty, compacted, going')
                  (refl, refl, moved, pending_is, previous_is, going, inl nothing)
          ]
      | inr some_more ↦
          let some_left : 0 < length (unread d) = ground arith in
          let here : d.input_offset + 0 ≡ d.input_offset = omega arith in
          let fetched : index d.input d.input_offset ≡ ok (opcode_of d) =
            rw here at (index-unread d 0 some_left) in
          elim (Option-cases (classify (opcode_of d))) [
            | inl undefined ↦
                let refused : opcode_turn none (opcode_of d) d written dst
                    ≡ err (invalid_opcode (absolute_offset d) (opcode_of d)) =
                  unfold opcode_turn in refl in
                rw (some_more, fetched, undefined, refused) (refl, refl, some_left, undefined)
            | inr (kind, defined) ↦
                rw (some_more, fetched, defined)
                  (any_code-Returns kind d written dst defined inside some_left no_literal no_match)
          ]
    ]
