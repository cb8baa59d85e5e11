-- ===== src/Raw/Decode/Segment.antt =====
-- Pieces of a stream: what the decoder's loop does over the code of several instructions.
use lzvn.Base.{
  ℕ, suc, ◌+◌, ◌-◌, ◌≤◌, ◌<◌, ◌≡◌, refl, ◌∙◌, [], ◌∷◌, ◌++◌, append-nil, append_assoc, arith, Bytes,
  length, length-append, take, drop, take-append-drop, length-take, length-drop, replicate,
  length-replicate, false, true, ◌==◌, eq→==, ltb, le→ltb,
}
use lzvn.Error.{ok, slice, slice-append}
use lzvn.Raw.Decode.{
  Decoder, step, run, next, return, finish, decode, decode_into, any_nonzero, execute,
}
use lzvn.Raw.Decode.Steps.{step-at}
use lzvn.Raw.Opcode.{classify, eos}
use lzvn.Raw.Decode.View.{at, require_input_ok}

-- From the output `out`, with the last distance `previous`, the loop reads all of `code`, at most a
-- round for each byte of it, and comes to `out'` and `previous'`, whatever stands before and behind.
pub record Segment (code out : Bytes) (previous : ℕ) (out' : Bytes) (previous' : ℕ) : Type 0 where
  pub rounds : ℕ
  pub rounds-le : rounds ≤ length code
  pub grows : length out ≤ length out'
  pub runs :
      (pre todo hole room : Bytes) (fuel : ℕ)
      → length out + length hole ≡ length out'
      → run (rounds + fuel) (at pre (code ++ todo) out (hole ++ room) previous)
        ≡ run fuel (at (pre ++ code) todo out' room previous')

pub run-next : (d d' : Decoder) (fuel : ℕ) → step d ≡ ok (next d') → run (1 + fuel) d ≡ run fuel d'
unfolding run
run-next d d' fuel h = let one : 1 + fuel ≡ suc fuel = omega arith in rw (one, run, h)

pub run-return : (d d' : Decoder) (fuel : ℕ) → step d ≡ ok (return d') → run (suc fuel) d ≡ ok d'
unfolding run
run-return d d' fuel h = rw (run, h)

-- One instruction.
pub Segment-one :
    (code out : Bytes) (previous : ℕ) (out' : Bytes) (previous' : ℕ)
    → 0 < length code
    → length out ≤ length out'
    → ((pre todo hole room : Bytes)
        → length out + length hole ≡ length out'
        → step (at pre (code ++ todo) out (hole ++ room) previous)
          ≡ ok (next (at (pre ++ code) todo out' room previous')))
    → Segment code out previous out' previous'
Segment-one code out previous out' previous' h g steps = record {
  rounds = 1;
  rounds-le = h;
  grows = g;
  runs = λ pre todo hole room fuel e. run-next _ _ fuel (steps pre todo hole room e);
}

pub Segment-nil : (out : Bytes) (previous : ℕ) → Segment [] out previous out previous
Segment-nil out previous = record {
  rounds = 0;
  rounds-le = omega arith;
  grows = omega arith;
  runs = λ pre todo hole room fuel e. unchanged pre todo hole room fuel e;
}
  where
    unchanged :
        (pre todo hole room : Bytes) (fuel : ℕ)
        → length out + length hole ≡ length out
        → run (0 + fuel) (at pre todo out (hole ++ room) previous)
          ≡ run fuel (at (pre ++ []) todo out room previous)
    unchanged pre todo [] room fuel e =
        let none_more : 0 + fuel ≡ fuel = omega arith in rw (none_more, append-nil)
    unchanged pre todo (x ∷ hole) room fuel e = absurd (omega arith)

pub Segment-append :
    (code code' out : Bytes) (previous : ℕ) (out' : Bytes) (previous' : ℕ) (out'' : Bytes)
    (previous'' : ℕ)
    → Segment code out previous out' previous'
    → Segment code' out' previous' out'' previous''
    → Segment (code ++ code') out previous out'' previous''
Segment-append code code' out previous out' previous' out'' previous'' s t = record {
  rounds = s.rounds + t.rounds;
  rounds-le = omega (arith, length-append {0} code code', s.rounds-le, t.rounds-le);
  grows = omega (arith, s.grows, t.grows);
  runs = λ pre todo hole room fuel e.
      let n = length out' - length out in
      let split : hole ++ room ≡ take n hole ++ (drop n hole ++ room) =
        rw (← append_assoc (take n hole) (drop n hole) room, take-append-drop n hole) in
      let turns : s.rounds + t.rounds + fuel ≡ s.rounds + (t.rounds + fuel) = omega arith in
      rw (turns, append_assoc code code' todo, split)
        (s.runs pre (code' ++ todo) (take n hole) (drop n hole ++ room) (t.rounds + fuel)
            (omega (arith, length-take {0} n hole, s.grows, t.grows))
          ∙ t.runs (pre ++ code) todo (drop n hole) room fuel
              (omega (arith, length-drop {0} n hole, s.grows, t.grows))
          ∙ rw (append_assoc pre code code'));
}

-- The end marker with its padding ends the loop, and changes neither the output nor its length.
pub step-eos :
    (pre padding out room : Bytes) (previous : ℕ)
    → any_nonzero padding ≡ false
    → length padding ≤ 7
    → step (at pre (6 ∷ padding) out room previous)
      ≡ ok (
          return (record (at pre (6 ∷ padding) out room previous) {
            input = length (pre ++ (6 ∷ padding));
          }))
unfolding classify
step-eos pre padding out room previous zero_bytes h =
    step-at pre 6 padding out room previous eos refl finished
  where
    padding_cut :
        slice (pre ++ (6 ∷ padding)) (length pre + 1) (length (pre ++ (6 ∷ padding))) ≡ ok padding
    padding_cut =
        let fits =
          slice-append (pre ++ (6 ∷ [])) padding [] (length pre + 1) (length (pre ++ (6 ∷ padding)))
            (omega (arith, length-append {0} pre (6 ∷ [])))
            (omega (arith, length-append {0} pre (6 ∷ padding))) in
        rw (append-nil, append_assoc) at fits

    finished :
        execute eos 6 (at pre (6 ∷ padding) out room previous)
        ≡ ok (record (at pre (6 ∷ padding) out room previous) {
          input = length (pre ++ (6 ∷ padding));
        })
    finished =
        unfold execute finish in
        let short : ltb 7 (length padding) ≡ false = le→ltb _ _ h in
        rw (
          require_input_ok pre (6 ∷ padding) out room previous 1 (omega arith),
          padding_cut,
          zero_bytes,
          short,
        )

-- A stream of whole pieces and an end marker decodes to what the pieces stand for.
pub decode-Segment :
    (code padding out : Bytes) (previous : ℕ)
    → Segment code [] 0 out previous
    → any_nonzero padding ≡ false
    → length padding ≤ 7
    → decode (code ++ (6 ∷ padding)) (length out) ≡ ok out
unfolding decode decode_into
decode-Segment code padding out previous s zero_bytes h =
    let free : Bytes = replicate (length out) 0 in
    let spare = length code - s.rounds + length padding + 1 in
    let turns : suc (length (code ++ (6 ∷ padding))) ≡ s.rounds + suc spare =
      omega (arith, length-append {0} code (6 ∷ padding), s.rounds-le) in
    let reach =
      s.runs [] (6 ∷ padding) free [] (suc spare)
        (omega (arith, length-replicate {0} {A = ℕ} (length out) 0)) in
    let stop = run-return _ _ spare (step-eos code padding out [] previous zero_bytes h) in
    let same : (length out == length out) ≡ true = eq→== _ _ refl in
    let full : free ++ [] ≡ free = append-nil free in
    let reached = rw full at reach in rw (turns, reached, stop, same, append-nil out)
