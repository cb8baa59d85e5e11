-- ===== src/Raw/StreamDecoder/Loop/Arms.antt =====
-- What each arm of the loop of `RawDecoder` does: with the instruction buffered, it prepares the
-- copies that `code_of` reads in it.
use lzvn.Base.{
  ℕ, ◌+◌, ◌/◌, ◌≤◌, ◌<◌, ◌≡◌, refl, sym, ap, ◌∙◌, ◌⊎◌, inl, inr, true, false, [], append-nil, arith,
  length, length-drop, drop-drop, get_or, get_or-drop, ltb, leb, ◌==◌, ◌||◌, Bool-cases, bit_and,
}
use lzvn.Error.{
  Error, Result, ok, ◌>>=◌, Returns, index, index-eq-get_or, truncated_input,
  invalid_match_distance,
}
use lzvn.Raw.Opcode.{
  OpcodeKind, small_distance, medium_distance, large_distance, previous_distance, small_literal,
  large_literal, small_match, large_match, nop, eos,
}
use lzvn.Raw.Code.{Code, code_of, Reaches, is_eos}
use lzvn.Raw.StreamDecoder.{
  Pending, RawDecoder, absolute_offset, available_input, ensure_buffered, validate_distance,
  prepare_literal_only, prepare_match_only, prepare_literal_and_match,
}
use lzvn.Raw.StreamDecoder.Copies.{unread, Moved, compact_if-Moved}
use lzvn.Raw.StreamDecoder.Loop.{Arm, prepared, starved, ended, buffered, arm}

-- The instruction is read and its copies are pending.
pub record Prepared (c : Code) (d d' : RawDecoder) : Type 0 where
  pub moved : Moved d d' c.size []
  pub literal_is : d'.pending.literal ≡ c.literal
  pub match_is : d'.pending.match ≡ c.match
  pub distance_is : 0 < c.match → d'.pending.distance ≡ c.distance
  pub previous_is : d'.previous_distance ≡ c.last
  pub buffers : c.size + c.literal ≤ length (unread d)
  pub reaches : Reaches c (length d.history + c.literal)

abbrev pub ArmOf : Code → RawDecoder → Arm → Type 0
ArmOf c d (prepared d') = Prepared c d d'
ArmOf c d starved = (length (unread d) < c.size + c.literal) × (d.finished_input ≡ false)
ArmOf c d (ended d') = ⊥

-- How an instruction is refused.
abbrev pub RefusalOf : Code → RawDecoder → Error → Type 0
RefusalOf c d (truncated_input position) =
    (length (unread d) < c.size + c.literal)
    × (d.finished_input ≡ true)
    × (position ≡ absolute_offset d)
RefusalOf c d (invalid_match_distance distance available) =
    (c.checked ≡ true)
    × (distance ≡ c.distance)
    × (available ≡ length d.history + c.literal)
    × ((distance ≡ 0) ⊎ (available < distance))
    × (c.size + c.literal ≤ length (unread d))
RefusalOf c d _ = ⊥

-- `ensure_buffered` before the rest of an arm.
buffered-Returns :
    (c : Code) (d : RawDecoder) (needed : ℕ) (rest : Result Arm)
    → needed ≤ c.size + c.literal
    → (needed ≤ length (unread d) → Returns (ArmOf c d) (RefusalOf c d) rest)
    → Returns (ArmOf c d) (RefusalOf c d) (buffered d needed rest)
unfolding ensure_buffered
buffered-Returns c d needed rest h k =
    let left = length-drop d.input_offset d.input in
    elim (Bool-cases (leb needed (available_input d))) [
      | inl enough ↦ rw enough (k (ground arith))
      | inr short ↦
          let lacking : length (unread d) < c.size + c.literal = ground arith in
          elim (Bool-cases d.finished_input) [
            | inl over ↦ rw (short, over) (lacking, refl, refl)
            | inr going ↦ rw (short, going) (lacking, refl)
          ]
    ]

-- A byte behind the opcode.
pub index-unread :
    (d : RawDecoder) (i : ℕ)
    → i < length (unread d)
    → index d.input (d.input_offset + i) ≡ ok (get_or (unread d) i 0)
index-unread d i h =
    index-eq-get_or d.input (d.input_offset + i)
      (omega (arith, length-drop {0} d.input_offset d.input))
    ∙ ap ok (sym (get_or-drop d.input d.input_offset i 0))

-- The cursor moves over an instruction.
stepped :
    (d : RawDecoder) (k previous : ℕ) (pending : Pending)
    → d.input_offset ≤ length d.input
    → k ≤ length (unread d)
    → Moved d
        (record d {
          input_offset = d.input_offset + k;
          previous_distance = previous;
          pending = pending;
        })
        k
        []
stepped d k previous pending h fits = record {
  unread_is = sym (drop-drop d.input d.input_offset k);
  inside = omega (arith, length-drop {0} d.input_offset d.input);
  offset_is = omega arith;
  history_is = sym (append-nil d.history);
  finished_input_is = refl;
  finished_is = refl;
  trailing_is = refl;
}

module _ (d : RawDecoder) (inside : d.input_offset ≤ length d.input) (k : ℕ) where
  prepare_literal_and_match-Returns :
      (l m distance : ℕ)
      → k + l ≤ length (unread d)
      → let c : Code = record {
        size = k;
        literal = l;
        match = m;
        distance = distance;
        last = distance;
        checked = true;
      } in
        Returns
          (ArmOf c d)
          (RefusalOf c d)
          (prepare_literal_and_match d k l m distance >>= λ d'. ok (prepared d'))
  unfolding prepare_literal_and_match validate_distance
  prepare_literal_and_match-Returns l m distance h =
      elim (Bool-cases (distance == 0 || ltb (length d.history + l) distance)) [
        | inl far ↦ rw far (refl, refl, refl, ground arith, h)
        | inr near ↦ rw near (record {
          moved = stepped d k distance _ inside (omega arith);
          literal_is = refl;
          match_is = refl;
          distance_is = λ h. refl;
          previous_is = refl;
          buffers = h;
          reaches = λ checked. ground arith;
        })
      ]

  prepare_literal_only-Prepared :
      (l : ℕ)
      → k + l ≤ length (unread d)
      → Prepared
          (record {
            size = k;
            literal = l;
            match = 0;
            distance = 0;
            last = d.previous_distance;
            checked = false;
          })
          d
          (prepare_literal_only d k l)
  unfolding prepare_literal_only
  prepare_literal_only-Prepared l h = record {
    moved = stepped d k d.previous_distance _ inside (omega arith);
    literal_is = refl;
    match_is = refl;
    distance_is = λ h. refl;
    previous_is = refl;
    buffers = h;
    reaches = λ checked. cc;
  }

  prepare_match_only-Returns :
      (m distance : ℕ)
      → k ≤ length (unread d)
      → let c : Code = record {
        size = k;
        literal = 0;
        match = m;
        distance = distance;
        last = distance;
        checked = true;
      } in
        Returns
          (ArmOf c d)
          (RefusalOf c d)
          (prepare_match_only d k m distance >>= λ d'. ok (prepared d'))
  unfolding prepare_match_only validate_distance
  prepare_match_only-Returns m distance h =
      elim (Bool-cases (distance == 0 || ltb (length d.history) distance)) [
        | inl far ↦ rw far (refl, refl, omega arith, ground arith, omega arith)
        | inr near ↦
            let (d', compacted, moved, pending_is, previous_is) = compact_if-Moved d _ k [] (
              stepped d k distance (record { literal = 0; match = m; distance = distance }) inside
                h) in
            rw (near, compacted)
              (record {
                moved = moved;
                literal_is = ap (λ q. q.literal) pending_is;
                match_is = ap (λ q. q.match) pending_is;
                distance_is = λ h. ap (λ q. q.distance) pending_is;
                previous_is = previous_is;
                buffers = omega arith;
                reaches = λ checked. ground arith;
              })
      ]

-- Every arm but that of the end marker.
pub arm-Returns :
    (kind : OpcodeKind) (opcode : ℕ) (d : RawDecoder)
    → is_eos kind ≡ false
    → d.input_offset ≤ length d.input
    → 0 < length (unread d)
    → d.pending.literal ≡ 0
    → d.pending.match ≡ 0
    → let c = code_of kind opcode (unread d) d.previous_distance in
      Returns (ArmOf c d) (RefusalOf c d) (arm kind opcode d)
unfolding arm code_of
arm-Returns small_distance opcode d k inside some_left no_literal no_match =
    buffered-Returns _ d 2 _ (omega arith) (λ two.
      buffered-Returns _ d (2 + opcode / 64) _ (omega arith) (λ all.
        rw (index-unread d 1 (omega arith))
          (prepare_literal_and_match-Returns d inside 2 _ _ _ all)))
arm-Returns medium_distance opcode d k inside some_left no_literal no_match =
    buffered-Returns _ d 3 _ (omega arith) (λ three.
      buffered-Returns _ d (3 + bit_and (opcode / 8) 3) _ (omega arith) (λ all.
        rw (index-unread d 1 (omega arith), index-unread d 2 (omega arith))
          (prepare_literal_and_match-Returns d inside 3 _ _ _ all)))
arm-Returns large_distance opcode d k inside some_left no_literal no_match =
    buffered-Returns _ d 3 _ (omega arith) (λ three.
      buffered-Returns _ d (3 + opcode / 64) _ (omega arith) (λ all.
        rw (index-unread d 1 (omega arith), index-unread d 2 (omega arith))
          (prepare_literal_and_match-Returns d inside 3 _ _ _ all)))
arm-Returns previous_distance opcode d k inside some_left no_literal no_match =
    buffered-Returns _ d (1 + opcode / 64) _ (omega arith)
      (λ all. prepare_literal_and_match-Returns d inside 1 _ _ _ all)
arm-Returns small_literal opcode d k inside some_left no_literal no_match =
    buffered-Returns _ d (1 + bit_and opcode 15) _ (omega arith)
      (λ all. prepare_literal_only-Prepared d inside 1 _ all)
arm-Returns large_literal opcode d k inside some_left no_literal no_match =
    buffered-Returns _ d 2 _ (omega arith) (λ two. rw (index-unread d 1 (omega arith)) (
      buffered-Returns _ d (2 + (get_or (unread d) 1 0 + 16)) _ (omega arith)
        (λ all. prepare_literal_only-Prepared d inside 2 _ all)))
arm-Returns small_match opcode d k inside some_left no_literal no_match =
    prepare_match_only-Returns d inside 1 _ _ some_left
arm-Returns large_match opcode d k inside some_left no_literal no_match =
    buffered-Returns _ d 2 _ (omega arith)
      (λ two. rw (index-unread d 1 (omega arith)) (prepare_match_only-Returns d inside 2 _ _ two))
arm-Returns nop opcode d k inside some_left no_literal no_match =
    let (d', compacted, moved, pending_is, previous_is) =
      compact_if-Moved d (record d { input_offset = d.input_offset + 1 }) 1 []
        (stepped d 1 d.previous_distance d.pending inside some_left) in
    rw compacted (record {
      moved = moved;
      literal_is = ap (λ q. q.literal) pending_is ∙ no_literal;
      match_is = ap (λ q. q.match) pending_is ∙ no_match;
      distance_is = λ h. absurd (omega arith);
      previous_is = previous_is;
      buffers = omega arith;
      reaches = λ checked. cc;
    })
arm-Returns eos opcode d k inside some_left no_literal no_match = cc
