-- ===== src/Raw/StreamDecoder/Loop/Agree.antt =====
-- What a round that reads input does where the whole-buffer decoder has a run that succeeds.
use lzvn.Base.{
  ℕ, ◌+◌, ◌≤◌, ◌<◌, ◌≡◌, refl, sym, ap, ◌∙◌, inl, inr, true, false, none, some, [], ◌∷◌, ◌++◌,
  append-nil, arith, Bytes, length, length-append, take, drop, take-append, drop-append_left,
  get_or, get_or-append_left, ◌==◌, Bool-cases,
}
use lzvn.Error.{
  Error, ok, truncated_input, invalid_opcode, invalid_match_distance, trailing_data,
  output_too_small, size_mismatch, unsupported_block_magic, invalid_decmpfs_magic,
  unsupported_decmpfs_compression_type, missing_resource_fork, invalid_resource_fork, size_overflow,
}
use lzvn.Raw.Opcode.{
  OpcodeKind, classify, small_distance, medium_distance, large_distance, previous_distance,
  small_literal, large_literal, small_match, large_match, nop, eos,
}
use lzvn.Raw.Code.{Code, code_of, code_of-append, is_eos, size_pos, Reaches}
use lzvn.Raw.Decode.{Decoder, any_nonzero, run}
use lzvn.Raw.Decode.Codes.{Follows}
use lzvn.Raw.Decode.Inversion.{Finishes, run-Begins}
use lzvn.Raw.StreamDecoder.{RawDecoder}
use lzvn.Raw.StreamDecoder.Copies.{unread}
use lzvn.Raw.StreamDecoder.Loop.Arms.{Prepared}
use lzvn.Raw.StreamDecoder.Loop.Input.{opcode_of, Starved, Ended, InputError}
use lzvn.Raw.StreamDecoder.Loop.Track.{Tracks}
-- The bytes that are not read, fed or not.
use lzvn.Raw.StreamDecoder.Loop.Refine.{ahead, Tracks-Opens, Prepared-Tracks}

-- At the end marker all of the output is written, and the bytes that are not fed pass as padding.
pub record Complete (final : Decoder) (unfed : Bytes) (d : RawDecoder) : Type 0 where
  pub output_is : take final.output final.dst ≡ d.history
  pub zeros : any_nonzero unfed ≡ false
  pub few : d.eos_padding + length unfed ≤ 7

-- The instruction at the head of the bytes ahead, as both decoders see it.
pub data Head (final : Decoder) (unfed : Bytes) (d : RawDecoder) : Type 0 where
  instruction :
      (kind : OpcodeKind) (pre : Bytes) (s : Decoder) (fuel : ℕ)
      → (0 < length (unread d) → classify (opcode_of d) ≡ some kind)
      → is_eos kind ≡ false
      → Follows
          (code_of kind (get_or (ahead unfed d) 0 0) (ahead unfed d) d.previous_distance)
          pre
          (ahead unfed d)
          d.history
          s
      → run fuel s ≡ ok final
      → Head final unfed d
  marker :
      (0 < length (unread d) → classify (opcode_of d) ≡ some eos)
      → Finishes (ahead unfed d) d.history final
      → Head final unfed d

eos_of_is_eos : (kind : OpcodeKind) → is_eos kind ≡ true → kind ≡ eos
eos_of_is_eos eos h = refl
eos_of_is_eos small_distance h = cc
eos_of_is_eos medium_distance h = cc
eos_of_is_eos large_distance h = cc
eos_of_is_eos previous_distance h = cc
eos_of_is_eos small_literal h = cc
eos_of_is_eos large_literal h = cc
eos_of_is_eos small_match h = cc
eos_of_is_eos large_match h = cc
eos_of_is_eos nop h = cc

pub Tracks-Head :
    (final : Decoder) (unfed : Bytes) (d : RawDecoder)
    → Tracks final unfed d
    → d.pending.literal ≡ 0
    → d.pending.match ≡ 0
    → (0 < length (ahead unfed d)) × Head final unfed d
Tracks-Head final unfed d t no_literal no_match =
    let o = Tracks-Opens final unfed d t no_literal no_match in
    let (pos, kind, defined, begins) =
      run-Begins o.fuel o.pre (ahead unfed d) d.history o.room d.previous_distance final o.runs in
    let here : 0 < length (unread d) → classify (opcode_of d) ≡ some kind = λ some_left.
      ap classify (sym (get_or-append_left (unread d) unfed 0 0 some_left)) ∙ defined in
    elim begins [
      | inl (ends, finishes) ↦
          (pos, marker (λ h. here h ∙ ap some (eos_of_is_eos kind ends)) finishes)
      | inr (other, s, fuel, follows, runs) ↦
          (pos, instruction kind o.pre s fuel here other follows runs)
    ]

-- Where the instruction is buffered, both read the same code.
code_is :
    (unfed : Bytes) (d : RawDecoder) (kind : OpcodeKind)
    → (code_of kind (opcode_of d) (unread d) d.previous_distance).size ≤ length (unread d)
    → code_of kind (get_or (ahead unfed d) 0 0) (ahead unfed d) d.previous_distance
      ≡ code_of kind (opcode_of d) (unread d) d.previous_distance
code_is unfed d kind h =
    let some_left : 0 < length (unread d) =
      omega (arith, size_pos kind (opcode_of d) (unread d) d.previous_distance) in
    ap (λ o. code_of kind o (ahead unfed d) d.previous_distance)
      (get_or-append_left (unread d) unfed 0 0 some_left)
    ∙ code_of-append kind (opcode_of d) (unread d) unfed d.previous_distance h

pub again_Tracks :
    (final : Decoder) (unfed : Bytes) (d d' : RawDecoder) (kind : OpcodeKind)
    → Head final unfed d
    → classify (opcode_of d) ≡ some kind
    → is_eos kind ≡ false
    → Prepared (code_of kind (opcode_of d) (unread d) d.previous_distance) d d'
    → Tracks final unfed d'
again_Tracks final unfed d d' kind (marker here finishes) defined other p =
    let some_left : 0 < length (unread d) =
      omega (arith, size_pos kind (opcode_of d) (unread d) d.previous_distance, p.buffers) in
    let clash = here some_left in cc
again_Tracks final unfed d d' kind (instruction kind' pre s fuel here other' f runs) defined other
      p =
    let some_left : 0 < length (unread d) =
      omega (arith, size_pos kind (opcode_of d) (unread d) d.previous_distance, p.buffers) in
    let found = here some_left in
    let same : kind' ≡ kind = cc in
    let code : code_of kind' (get_or (ahead unfed d) 0 0) (ahead unfed d) d.previous_distance
        ≡ code_of kind (opcode_of d) (unread d) d.previous_distance =
      ap (λ k. code_of k (get_or (ahead unfed d) 0 0) (ahead unfed d) d.previous_distance) same
      ∙ code_is unfed d kind (omega (arith, p.buffers)) in
    Prepared-Tracks final s unfed pre fuel d d' _ p (rw code at f) runs

-- Without a whole instruction, there are bytes that are not fed.
pub Starved-unfed :
    (final : Decoder) (unfed : Bytes) (d : RawDecoder)
    → 0 < length (ahead unfed d)
    → Head final unfed d
    → Starved d
    → 0 < length unfed
Starved-unfed final unfed d pos head (inl nothing) =
    omega (arith, length-append {0} (unread d) unfed)
Starved-unfed final unfed d pos head (inr (kind, defined, other, few)) = go unfed head pos
  where
    go : (unfed : Bytes) → Head final unfed d → 0 < length (ahead unfed d) → 0 < length unfed
    go (x ∷ unfed) head pos = omega arith
    go [] (marker here finishes) pos =
        let found = here (omega (arith, length-append {0} (unread d) [])) in cc
    go [] (instruction kind' pre s fuel here other' f runs) pos =
        let found = here (omega (arith, length-append {0} (unread d) [])) in
        let same : kind' ≡ kind = cc in
        let all : ahead [] d ≡ unread d = append-nil (unread d) in
        let needs : (code_of kind (opcode_of d) (unread d) d.previous_distance).size
              + (code_of kind (opcode_of d) (unread d) d.previous_distance).literal
            ≤ length (unread d) =
          rw (same, all) at f.needs in
        absurd (omega arith)

pub any_nonzero_append :
    (xs ys : Bytes)
    → any_nonzero (xs ++ ys) ≡ false
    → (any_nonzero xs ≡ false) × (any_nonzero ys ≡ false)
unfolding any_nonzero
any_nonzero_append [] ys h = (refl, h)
any_nonzero_append (x ∷ xs) ys h = elim (Bool-cases (x == 0)) [
  | inl zero_byte ↦ let (a, b) = any_nonzero_append xs ys (rw zero_byte at h) in (rw zero_byte a, b)
  | inr other ↦ let refused = rw other at h in cc
]

-- The padding that is buffered is zero and short.
padding_split :
    (final : Decoder) (unfed : Bytes) (d : RawDecoder)
    → 0 < length (unread d)
    → Finishes (ahead unfed d) d.history final
    → (any_nonzero (drop 1 (unread d)) ≡ false)
      × (any_nonzero unfed ≡ false)
      × (length (drop 1 (unread d)) + length unfed ≤ 7)
padding_split final unfed d some_left f =
    let split : drop 1 (ahead unfed d) ≡ drop 1 (unread d) ++ unfed =
      drop-append_left (unread d) unfed 1 some_left in
    let (a, b) =
      any_nonzero_append (drop 1 (unread d)) unfed (ap any_nonzero (sym split) ∙ f.zeros) in
    let size : length (drop 1 (ahead unfed d)) ≡ length (drop 1 (unread d)) + length unfed =
      ap length split ∙ length-append {0} (drop 1 (unread d)) unfed in
    (a, b, omega (arith, f.few))

pub Ended-Complete :
    (final : Decoder) (unfed : Bytes) (d d' : RawDecoder)
    → Head final unfed d
    → 0 < length (unread d)
    → classify (opcode_of d) ≡ some eos
    → Ended d d'
    → Complete final unfed d'
Ended-Complete final unfed d d' (instruction kind pre s fuel here other f runs) some_left defined
      e =
    let found = here some_left in
    let same : kind ≡ eos = cc in let marked : is_eos kind ≡ true = ap is_eos same in cc
Ended-Complete final unfed d d' (marker here f) some_left defined e =
    let (a, b, few) = padding_split final unfed d some_left f in
    record {
      output_is =
          ap (λ n. take n final.dst) f.output_is
          ∙ ap (take (length d.history)) f.dst_is
          ∙ take-append d.history f.room (length d.history) refl
          ∙ sym e.history_is;
      zeros = b;
      few = omega (arith, e.padding_is);
    }

-- The round is not refused, while the input is not declared finished before all is fed.
pub accepted :
    (final : Decoder) (unfed : Bytes) (d : RawDecoder) (e : Error)
    → 0 < length (ahead unfed d)
    → Head final unfed d
    → (d.finished_input ≡ true → unfed ≡ [])
    → InputError d e
    → ⊥
accepted final unfed d (truncated_input position) pos head ends (place, over, starved) =
    omega (arith, Starved-unfed final unfed d pos head starved, ap length (ends over))
accepted final unfed d (invalid_opcode position opcode) pos head ends
      (place, here, some_left, undefined) =
    no_kind head
  where
    no_kind : Head final unfed d → ⊥
    no_kind (marker found finishes) =
        let defined = found some_left in
        let refused : classify (opcode_of d) ≡ none = ap classify (sym here) ∙ undefined in cc
    no_kind (instruction kind pre s fuel found other f runs) =
        let defined = found some_left in
        let refused : classify (opcode_of d) ≡ none = ap classify (sym here) ∙ undefined in cc
accepted final unfed d (invalid_match_distance distance available) pos head ends
      (kind, defined, other, (checked, distance_is, available_is, reason, buffers)) =
    reached head
  where
    c : Code
    c = code_of kind (opcode_of d) (unread d) d.previous_distance

    some_left : 0 < length (unread d)
    some_left = omega (arith, size_pos kind (opcode_of d) (unread d) d.previous_distance, buffers)

    reached : Head final unfed d → ⊥
    reached (marker found finishes) =
        let marked = found some_left in
        let same : kind ≡ eos = cc in let ended : is_eos kind ≡ true = ap is_eos same in cc
    reached (instruction kind' pre s fuel found other' f runs) =
        let there = found some_left in
        let same : kind' ≡ kind = cc in
        let code : code_of kind' (get_or (ahead unfed d) 0 0) (ahead unfed d) d.previous_distance
            ≡ code_of kind (opcode_of d) (unread d) d.previous_distance =
          ap (λ k. code_of k (get_or (ahead unfed d) 0 0) (ahead unfed d) d.previous_distance) same
          ∙ code_is unfed d kind (omega (arith, buffers)) in
        let reaches : Reaches (code_of kind (opcode_of d) (unread d) d.previous_distance) (
            length d.history
            + (code_of kind (opcode_of d) (unread d) d.previous_distance).literal) =
          rw code at f.reaches in
        let (positive, near) = reaches checked in
        elim reason [ inl nothing ↦ omega arith | inr far ↦ omega arith ]
accepted final unfed d (trailing_data remaining) pos head ends (some_left, defined, reason) =
    padded head
  where
    padded : Head final unfed d → ⊥
    padded (instruction kind pre s fuel found other f runs) =
        let there = found some_left in
        let same : kind ≡ eos = cc in let marked : is_eos kind ≡ true = ap is_eos same in cc
    padded (marker found f) =
        let (clear, rest, few) = padding_split final unfed d some_left f in
        elim reason [ inl (nonzero, size) ↦ cc | inr (zeros, long, size) ↦ omega arith ]
accepted final unfed d (output_too_small a b) pos head ends h = h
accepted final unfed d (size_mismatch a b) pos head ends h = h
accepted final unfed d (unsupported_block_magic a) pos head ends h = h
accepted final unfed d (invalid_decmpfs_magic a) pos head ends h = h
accepted final unfed d (unsupported_decmpfs_compression_type a) pos head ends h = h
accepted final unfed d missing_resource_fork pos head ends h = h
accepted final unfed d (invalid_resource_fork a) pos head ends h = h
accepted final unfed d (size_overflow a b c) pos head ends h = h
