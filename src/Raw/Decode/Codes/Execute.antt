-- ===== src/Raw/Decode/Codes/Execute.antt =====
-- Each arm of the whole-buffer decoder's `match`, where it succeeds, follows its instruction.
use lzvn.Base.{
  ℕ, ◌+◌, ◌<◌, ◌≡◌, refl, sym, ap, ◌∙◌, inl, inr, false, ◌++◌, append-nil, append_assoc, arith,
  Bytes, length, length-append, take, drop, take-append-drop, get_or, get_or-append_right, ltb,
  Bool-cases,
}
use lzvn.Error.{ok, index, index-eq-get_or}
use lzvn.Raw.Format.{copy_match}
use lzvn.Raw.Opcode.{
  OpcodeKind, small_distance, medium_distance, large_distance, previous_distance, small_literal,
  large_literal, small_match, large_match, nop, eos,
}
use lzvn.Raw.Code.{code_of, is_eos}
use lzvn.Raw.Decode.{Decoder, execute}
use lzvn.Raw.Decode.View.{at, require_input-at}
use lzvn.Raw.Decode.Codes.{
  Follows, ok_injective, took, copy_literal_and_match-Follows, copy_literal_only-Follows,
  copy_match_only-Follows,
}

-- A byte behind the opcode.
index-at :
    (pre todo out room : Bytes) (previous i : ℕ)
    → i < length todo
    → index (pre ++ todo) (length pre + i) ≡ ok (get_or todo i 0)
index-at pre todo out room previous i h =
    index-eq-get_or (pre ++ todo) (length pre + i) (omega (arith, length-append {0} pre todo))
    ∙ ap ok (get_or-append_right pre todo (length pre + i) i 0 refl)

-- Where an instruction succeeds, the decoder does what `code_of` reads in it.
pub execute-Follows :
    (kind : OpcodeKind) (opcode : ℕ) (pre todo out room : Bytes) (previous : ℕ) (s : Decoder)
    → is_eos kind ≡ false
    → execute kind opcode (at pre todo out room previous) ≡ ok s
    → Follows (code_of kind opcode todo previous) pre todo out s
unfolding execute code_of copy_match
execute-Follows small_distance opcode pre todo out room previous s k h =
    elim (Bool-cases (ltb (length todo) 2)) [
      | inl short ↦ let refused = rw (require_input-at, short) at h in cc
      | inr long ↦
          copy_literal_and_match-Follows pre todo out room previous 2 s _ _ _
            (rw (require_input-at, long, index-at pre todo out room previous 1 (ground arith)) at h)
    ]
execute-Follows medium_distance opcode pre todo out room previous s k h =
    elim (Bool-cases (ltb (length todo) 3)) [
      | inl short ↦ let refused = rw (require_input-at, short) at h in cc
      | inr long ↦ copy_literal_and_match-Follows pre todo out room previous 3 s _ _ _ (
          rw
            (
              require_input-at,
              long,
              index-at pre todo out room previous 1 (ground arith),
              index-at pre todo out room previous 2 (ground arith),
            )
            at h)
    ]
execute-Follows large_distance opcode pre todo out room previous s k h =
    elim (Bool-cases (ltb (length todo) 3)) [
      | inl short ↦ let refused = rw (require_input-at, short) at h in cc
      | inr long ↦ copy_literal_and_match-Follows pre todo out room previous 3 s _ _ _ (
          rw
            (
              require_input-at,
              long,
              index-at pre todo out room previous 1 (ground arith),
              index-at pre todo out room previous 2 (ground arith),
            )
            at h)
    ]
execute-Follows previous_distance opcode pre todo out room previous s k h =
    copy_literal_and_match-Follows pre todo out room previous 1 s _ _ _ h
execute-Follows small_literal opcode pre todo out room previous s k h =
    copy_literal_only-Follows pre todo out room previous 1 s _ h
execute-Follows large_literal opcode pre todo out room previous s k h =
    elim (Bool-cases (ltb (length todo) 2)) [
      | inl short ↦ let refused = rw (require_input-at, short) at h in cc
      | inr long ↦
          copy_literal_only-Follows pre todo out room previous 2 s _
            (rw (require_input-at, long, index-at pre todo out room previous 1 (ground arith)) at h)
    ]
execute-Follows small_match opcode pre todo out room previous s k h =
    copy_match_only-Follows pre todo out room previous 1 s _ _ h
execute-Follows large_match opcode pre todo out room previous s k h =
    elim (Bool-cases (ltb (length todo) 2)) [
      | inl short ↦ let refused = rw (require_input-at, short) at h in cc
      | inr long ↦
          copy_match_only-Follows pre todo out room previous 2 s _ _
            (rw (require_input-at, long, index-at pre todo out room previous 1 (ground arith)) at h)
    ]
execute-Follows nop opcode pre todo out room previous s k h =
    elim (Bool-cases (ltb (length todo) 1)) [
      | inl short ↦ let refused = rw (require_input-at, short) at h in cc
      | inr long ↦
          let moved = ok_injective _ _ (sym (rw (require_input-at, long) at h)) in
          let split : (pre ++ take 1 todo) ++ drop 1 todo ≡ pre ++ todo =
            append_assoc pre (take 1 todo) (drop 1 todo)
            ∙ ap (λ t. pre ++ t) (take-append-drop 1 todo) in
          let read : length (pre ++ take 1 todo) ≡ length pre + 1 =
            omega (arith, length-append {0} pre (take 1 todo), took 1 todo (ground arith)) in
          record {
            needs = ground arith;
            reaches = λ checked. cc;
            room = room;
            state_is = rw (append-nil out, split, read) moved;
          }
    ]
execute-Follows eos opcode pre todo out room previous s k h = cc
