-- ===== src/Raw/Decode/Codes.antt =====
-- What the whole-buffer decoder does where it succeeds: it follows the instruction.
pub mod Execute
use lzvn.Base.{
  ℕ, ◌+◌, ◌≤◌, ◌<◌, ◌≡◌, refl, sym, ap, ◌∙◌, inl, inr, true, false, ◌++◌, append-nil, append_assoc,
  arith, Bytes, length, length-append, length-take, length-drop, take, drop, drop-drop,
  take-append-drop, take-append-take, get_or, get_or-append_right, ltb, ◌==◌, ◌||◌, Bool-cases,
}
use lzvn.Error.{ok, index, index-eq-get_or}
use lzvn.Raw.Format.{copy_match}
use lzvn.Raw.Opcode.{
  OpcodeKind, small_distance, medium_distance, large_distance, previous_distance, small_literal,
  large_literal, small_match, large_match, nop, eos,
}
use lzvn.Raw.Code.{Code, code_of, Reaches, is_eos}
use lzvn.Raw.Decode.{
  Decoder, validate_distance, copy_literal_only, copy_match_only, copy_literal_and_match, execute,
}
use lzvn.Raw.Decode.View.{
  at, require_input-at, require_output-at, copy_literal_only-at, copy_match_only-at,
  copy_literal_and_match-at,
}

-- The state behind an instruction.
pub record Follows (c : Code) (pre todo out : Bytes) (s : Decoder) : Type 0 where
  pub needs : c.size + c.literal ≤ length todo
  pub reaches : Reaches c (length out + c.literal)
  pub room : Bytes
  pub state_is :
      s
      ≡ at
          (pre ++ take (c.size + c.literal) todo)
          (drop (c.size + c.literal) todo)
          (copy_match c.match c.distance (out ++ take c.literal (drop c.size todo)))
          room
          c.last

pub ok_injective {ℓ} : {A : Type ℓ} (a b : A) → ok a ≡ ok b → a ≡ b
ok_injective a b h = cc

-- A slice cut in three.
cut_three :
    (k l : ℕ) (todo : Bytes) → todo ≡ take k todo ++ (take l (drop k todo) ++ drop (k + l) todo)
cut_three k l todo =
    rw (← drop-drop todo k l, take-append-drop l (drop k todo), take-append-drop k todo) refl

pub took : (n : ℕ) (xs : Bytes) → n ≤ length xs → length (take n xs) ≡ n
took n xs h = omega (arith, length-take {0} n xs)

module _ (pre todo out room : Bytes) (previous k : ℕ) (s : Decoder) where
  pub copy_literal_and_match-Follows :
      (l m distance : ℕ)
      → copy_literal_and_match (at pre todo out room previous) k l m distance ≡ ok s
      → Follows
          (record {
            size = k;
            literal = l;
            match = m;
            distance = distance;
            last = distance;
            checked = true;
          })
          pre
          todo
          out
          s
  unfolding copy_literal_and_match validate_distance
  copy_literal_and_match-Follows l m distance h = elim (Bool-cases (ltb (length todo) (k + l))) [
    | inl short ↦ let refused = rw (require_input-at, short) at h in cc
    | inr long ↦ elim (Bool-cases (ltb (length room) (l + m))) [
      | inl tight ↦ let refused = rw (require_input-at, long, require_output-at, tight) at h in cc
      | inr roomy ↦ elim (Bool-cases (distance == 0 || ltb (length out + l) distance)) [
        | inl far ↦
            let refused = rw (require_input-at, long, require_output-at, roomy, far) at h in cc
        | inr near ↦
            behind l m distance (ground arith) (ground arith) (ground arith) (ground arith) h
      ]
    ]
  ]
    where
      behind :
          (l m distance : ℕ)
          → k + l ≤ length todo
          → l + m ≤ length room
          → 0 < distance
          → distance ≤ length out + l
          → copy_literal_and_match (at pre todo out room previous) k l m distance ≡ ok s
          → Follows
              (record {
                size = k;
                literal = l;
                match = m;
                distance = distance;
                last = distance;
                checked = true;
              })
              pre
              todo
              out
              s
      behind l m distance needs fits pos near h =
          let literal = take l (drop k todo) in
          let result =
            copy_literal_and_match-at pre (take k todo) literal (drop (k + l) todo) out
              (take l room) (take m (drop l room)) (drop (l + m) room) previous k l m distance
              (took k todo (omega arith))
              (took l (drop k todo) (omega (arith, length-drop {0} k todo)))
              (took l room (omega arith))
              (took m (drop l room) (omega (arith, length-drop {0} l room))) pos near in
          let whole =
            ap (λ t. copy_literal_and_match (at pre t out room previous) k l m distance)
              (cut_three k l todo) in
          let split =
            ap
              (λ t.
                copy_literal_and_match
                  (at pre (take k todo ++ (literal ++ drop (k + l) todo)) out t previous) k l m
                  distance)
              (cut_three l m room) in
          let reached = ok_injective _ _ (sym h ∙ whole ∙ split ∙ result) in
          record {
            needs = needs;
            reaches = λ checked. (pos, near);
            room = drop (l + m) room;
            state_is = rw (take-append-take todo k l) at reached;
          }

  pub copy_literal_only-Follows :
      (l : ℕ)
      → copy_literal_only (at pre todo out room previous) k l ≡ ok s
      → Follows
          (record {
            size = k;
            literal = l;
            match = 0;
            distance = 0;
            last = previous;
            checked = false;
          })
          pre
          todo
          out
          s
  unfolding copy_literal_only copy_match
  copy_literal_only-Follows l h = elim (Bool-cases (ltb (length todo) (k + l))) [
    | inl short ↦ let refused = rw (require_input-at, short) at h in cc
    | inr long ↦ elim (Bool-cases (ltb (length room) l)) [
      | inl tight ↦ let refused = rw (require_input-at, long, require_output-at, tight) at h in cc
      | inr roomy ↦ behind l (ground arith) (ground arith) h
    ]
  ]
    where
      behind :
          (l : ℕ)
          → k + l ≤ length todo
          → l ≤ length room
          → copy_literal_only (at pre todo out room previous) k l ≡ ok s
          → Follows
              (record {
                size = k;
                literal = l;
                match = 0;
                distance = 0;
                last = previous;
                checked = false;
              })
              pre
              todo
              out
              s
      behind l needs fits h =
          let literal = take l (drop k todo) in
          let result =
            copy_literal_only-at pre (take k todo) literal (drop (k + l) todo) out (take l room)
              (drop l room) previous k l (took k todo (omega arith))
              (took l (drop k todo) (omega (arith, length-drop {0} k todo))) (took l room fits) in
          let whole =
            ap (λ t. copy_literal_only (at pre t out room previous) k l) (cut_three k l todo) in
          let split =
            ap
              (λ t.
                copy_literal_only
                  (at pre (take k todo ++ (literal ++ drop (k + l) todo)) out t previous) k l)
              (sym (take-append-drop l room)) in
          let reached = ok_injective _ _ (sym h ∙ whole ∙ split ∙ result) in
          record {
            needs = needs;
            reaches = λ checked. cc;
            room = drop l room;
            state_is = rw (take-append-take todo k l) at reached;
          }

  pub copy_match_only-Follows :
      (m distance : ℕ)
      → copy_match_only (at pre todo out room previous) k m distance ≡ ok s
      → Follows
          (record {
            size = k;
            literal = 0;
            match = m;
            distance = distance;
            last = distance;
            checked = true;
          })
          pre
          todo
          out
          s
  unfolding copy_match_only validate_distance
  copy_match_only-Follows m distance h = elim (Bool-cases (ltb (length todo) k)) [
    | inl short ↦ let refused = rw (require_input-at, short) at h in cc
    | inr long ↦ elim (Bool-cases (ltb (length room) m)) [
      | inl tight ↦ let refused = rw (require_input-at, long, require_output-at, tight) at h in cc
      | inr roomy ↦ elim (Bool-cases (distance == 0 || ltb (length out) distance)) [
        | inl far ↦
            let refused = rw (require_input-at, long, require_output-at, roomy, far) at h in cc
        | inr near ↦ behind m distance (ground arith) (ground arith) (ground arith) (ground arith) h
      ]
    ]
  ]
    where
      behind :
          (m distance : ℕ)
          → k ≤ length todo
          → m ≤ length room
          → 0 < distance
          → distance ≤ length out
          → copy_match_only (at pre todo out room previous) k m distance ≡ ok s
          → Follows
              (record {
                size = k;
                literal = 0;
                match = m;
                distance = distance;
                last = distance;
                checked = true;
              })
              pre
              todo
              out
              s
      behind m distance needs fits pos near h =
          let result =
            copy_match_only-at pre (take k todo) (drop k todo) out (take m room) (drop m room)
              previous k m distance (took k todo needs) (took m room fits) pos near in
          let whole =
            ap (λ t. copy_match_only (at pre t out room previous) k m distance)
              (sym (take-append-drop k todo)) in
          let split =
            ap
              (λ t.
                copy_match_only (at pre (take k todo ++ drop k todo) out t previous) k m distance)
              (sym (take-append-drop m room)) in
          let reached = ok_injective _ _ (sym h ∙ whole ∙ split ∙ result) in
          let no_literal : k + 0 ≡ k = omega arith in
          record {
            needs = omega arith;
            reaches = λ checked. (pos, omega arith);
            room = drop m room;
            state_is = rw (no_literal, append-nil out) reached;
          }
