-- ===== src/Raw/Decode/Inversion.antt =====
-- What a run of the whole-buffer decoder that succeeds has read first.
use lzvn.Base.{
  replicate, not, ◌==◌, ℕ, zero, suc, ◌+◌, ◌≤◌, ◌<◌, ◌≡◌, refl, sym, ap, ◌∙◌, ◌⊎◌, inl, inr, true,
  false, none, some, [], ◌∷◌, ◌++◌, append-nil, append_assoc, arith, Bytes, length, length-append,
  length-drop, take, drop, take-append, get_or, get_elem?, get_elem?-eq-none, ltb, Bool-cases,
  Option-cases,
}
use lzvn.Error.{
  ◌>>◌, reject_if, size_mismatch, bind_ok, Result, ok, err, panic, out_of_fuel, ◌>>=◌, slice,
  slice-append, truncated_input, invalid_opcode,
}
use lzvn.Raw.Opcode.{
  OpcodeKind, classify, small_distance, medium_distance, large_distance, previous_distance,
  small_literal, large_literal, small_match, large_match, nop, eos,
}
use lzvn.Raw.Code.{code_of, is_eos, size_pos}
use lzvn.Raw.Format.{copy_match, copy_match-extends}
use lzvn.Raw.Decode.{
  Decoder, Control, next, return, control, byte_at, any_nonzero, max_eos_padding, finish, execute,
  dispatch, step, run, start, decode_into, decode,
}
use lzvn.Raw.Decode.View.{at, require_input-at}
use lzvn.Raw.Decode.Codes.{Follows}
use lzvn.Raw.Decode.Codes.Execute.{execute-Follows}

-- The end marker, and what stands behind it.
pub record Finishes (todo out : Bytes) (s : Decoder) : Type 0 where
  pub zeros : any_nonzero (drop 1 todo) ≡ false
  pub few : length (drop 1 todo) ≤ 7
  pub output_is : s.output ≡ length out
  pub room : Bytes
  pub dst_is : s.dst ≡ out ++ room

-- The first instruction of a run that comes to `final`.
abbrev pub Begins : Bytes → Bytes → Bytes → ℕ → Decoder → OpcodeKind → Type 0
Begins pre todo out previous final kind =
    ((is_eos kind ≡ true) × Finishes todo out final)
    ⊎ ((is_eos kind ≡ false)
        × (s : Decoder) × (fuel : ℕ) × Follows (code_of kind (get_or todo 0 0) todo previous) pre
            todo out s
        × (run fuel s ≡ ok final))

finish-Finishes :
    (pre todo out room : Bytes) (previous : ℕ) (s : Decoder)
    → finish (at pre todo out room previous) ≡ ok s
    → Finishes todo out s
unfolding finish
finish-Finishes pre [] out room previous s h = let refused = rw require_input-at at h in cc
finish-Finishes pre (b ∷ padding) out room previous s h =
    let enough : ltb (suc (length padding)) 1 ≡ false = ground arith in
    let cut : slice (pre ++ (b ∷ padding)) (length pre + 1) (length (pre ++ (b ∷ padding)))
        ≡ ok padding =
      rw (append-nil, append_assoc) at
        (slice-append (pre ++ (b ∷ [])) padding [] (length pre + 1) (length (pre ++ (b ∷ padding)))
          (omega (arith, length-append {0} pre (b ∷ [])))
          (omega (arith, length-append {0} pre (b ∷ padding)))) in
    elim (Bool-cases (any_nonzero padding)) [
      | inl other ↦ let refused = rw (require_input-at, enough, cut, other) at h in cc
      | inr clear ↦ elim (Bool-cases (ltb max_eos_padding (length padding))) [
        | inl long ↦ let refused = rw (require_input-at, enough, cut, clear, long) at h in cc
        | inr few ↦
            let result = rw (require_input-at, enough, cut, clear, few) at h in
            let same : record (at pre (b ∷ padding) out room previous) {
              input = length (pre ++ (b ∷ padding));
            }
                ≡ s =
              cc in
            record {
              zeros = clear;
              few = ground arith;
              output_is = ap (λ d. d.output) (sym same);
              room = room;
              dst_is = ap (λ d. d.dst) (sym same);
            }
      ]
    ]

get_elem?-at :
    (pre : Bytes) (byte : ℕ) (todo : Bytes)
    → get_elem? (pre ++ (byte ∷ todo)) (length pre) ≡ some byte
get_elem?-at [] byte todo = refl
get_elem?-at (x ∷ pre) byte todo = get_elem?-at pre byte todo

-- The rounds behind the first.
abbrev rest_of : ℕ → Result Control → Result Decoder
rest_of fuel r = r >>= λ c. elim c [ next d' ↦ run fuel d' | return d' ↦ ok d' ]

kind-Begins :
    (kind : OpcodeKind) (fuel : ℕ) (pre todo out room : Bytes) (previous : ℕ) (final : Decoder)
    → rest_of fuel (dispatch (some kind) (get_or todo 0 0) (at pre todo out room previous))
      ≡ ok final
    → Begins pre todo out previous final kind
unfolding dispatch
kind-Begins kind fuel pre todo out room previous final h =
    go kind (execute kind (get_or todo 0 0) (at pre todo out room previous)) refl h
  where
    go :
        (kind : OpcodeKind) (r : Result Decoder)
        → execute kind (get_or todo 0 0) (at pre todo out room previous) ≡ r
        → rest_of fuel (r >>= λ d'. ok (control kind d')) ≡ ok final
        → Begins pre todo out previous final kind
    go kind (err e) executed rest = cc
    go kind panic executed rest = cc
    go kind out_of_fuel executed rest = cc
    go eos (ok s) executed rest =
        inl (
          refl,
          finish-Finishes pre todo out room previous final (unfold execute in executed ∙ rest),
        )
    go small_distance (ok s) executed rest = inr (
      refl,
      s,
      fuel,
      execute-Follows small_distance _ pre todo out room previous s refl executed,
      rest,
    )
    go medium_distance (ok s) executed rest = inr (
      refl,
      s,
      fuel,
      execute-Follows medium_distance _ pre todo out room previous s refl executed,
      rest,
    )
    go large_distance (ok s) executed rest = inr (
      refl,
      s,
      fuel,
      execute-Follows large_distance _ pre todo out room previous s refl executed,
      rest,
    )
    go previous_distance (ok s) executed rest = inr (
      refl,
      s,
      fuel,
      execute-Follows previous_distance _ pre todo out room previous s refl executed,
      rest,
    )
    go small_literal (ok s) executed rest = inr (
      refl,
      s,
      fuel,
      execute-Follows small_literal _ pre todo out room previous s refl executed,
      rest,
    )
    go large_literal (ok s) executed rest = inr (
      refl,
      s,
      fuel,
      execute-Follows large_literal _ pre todo out room previous s refl executed,
      rest,
    )
    go small_match (ok s) executed rest = inr (
      refl,
      s,
      fuel,
      execute-Follows small_match _ pre todo out room previous s refl executed,
      rest,
    )
    go large_match (ok s) executed rest = inr (
      refl,
      s,
      fuel,
      execute-Follows large_match _ pre todo out room previous s refl executed,
      rest,
    )
    go nop (ok s) executed rest =
        inr (refl, s, fuel, execute-Follows nop _ pre todo out room previous s refl executed, rest)

-- A run that succeeds begins with an instruction that is defined, and follows it.
pub run-Begins :
    (fuel : ℕ) (pre todo out room : Bytes) (previous : ℕ) (final : Decoder)
    → run fuel (at pre todo out room previous) ≡ ok final
    → (0 < length todo)
      × (kind : OpcodeKind) × (classify (get_or todo 0 0) ≡ some kind)
      × Begins pre todo out previous final kind
unfolding run step
run-Begins zero pre todo out room previous final h = cc
run-Begins (suc fuel) pre [] out room previous final h =
    let over : get_elem? (pre ++ []) (length pre) ≡ none =
      get_elem?-eq-none (pre ++ []) (length pre) (omega (arith, length-append {0} pre [])) in
    let missing : byte_at (at pre [] out room previous) (length pre)
        ≡ err (truncated_input (length pre)) =
      unfold byte_at in ground (arith, over) in
    let refused = rw missing at h in cc
run-Begins (suc fuel) pre (b ∷ todo) out room previous final h =
    let found = get_elem?-at pre b todo in
    let fetched : byte_at (at pre (b ∷ todo) out room previous) (length pre) ≡ ok b =
      unfold byte_at in ground (arith, found) in
    elim (Option-cases (classify b)) [
      | inl undefined ↦
          let refusal : dispatch none b (at pre (b ∷ todo) out room previous)
              ≡ err (invalid_opcode (length pre) b) =
            unfold dispatch in refl in
          let refused = rw (fetched, undefined, refusal) at h in cc
      | inr (kind, defined) ↦ (
        omega arith,
        kind,
        defined,
        kind-Begins kind fuel pre (b ∷ todo) out room previous final (rw (fetched, defined) at h),
      )
    ]

-- What a run has written stays at the front of what it will have written.
pub run_extends :
    (size fuel : ℕ) (pre todo out room : Bytes) (previous : ℕ) (final : Decoder)
    → length todo ≤ size
    → run fuel (at pre todo out room previous) ≡ ok final
    → (rest : Bytes) × (take final.output final.dst ≡ out ++ rest)
run_extends zero fuel pre todo out room previous final h runs =
    let (pos, kind, defined, begins) = run-Begins fuel pre todo out room previous final runs in
    absurd (omega arith)
run_extends (suc size) fuel pre todo out room previous final h runs =
    let (pos, kind, defined, begins) = run-Begins fuel pre todo out room previous final runs in
    elim begins [
      | inl (ends, f) ↦ (
        [],
        ap (λ n. take n final.dst) f.output_is
            ∙ ap (take (length out)) f.dst_is
            ∙ take-append out f.room (length out) refl
            ∙ sym (append-nil out),
      )
      | inr (other, s, fuel', f, runs') ↦
          let c = code_of kind (get_or todo 0 0) todo previous in
          let literal = take c.literal (drop c.size todo) in
          let (copied, copied_is) = copy_match-extends c.match c.distance (out ++ literal) in
          let (rest, rest_is) =
            run_extends size fuel' (pre ++ take (c.size + c.literal) todo)
              (drop (c.size + c.literal) todo) (copy_match c.match c.distance (out ++ literal))
              f.room c.last final
              (omega (
                arith,
                length-drop {0} (c.size + c.literal) todo,
                size_pos kind (get_or todo 0 0) todo previous,
              ))
              (ap (run fuel') (sym f.state_is) ∙ runs') in
          (
            literal ++ (copied ++ rest),
            rest_is
                ∙ ap (λ x. x ++ rest) copied_is
                ∙ append_assoc (out ++ literal) copied rest
                ∙ append_assoc out literal (copied ++ rest),
          )
    ]

-- The run behind `decode_into`.
pub run_of_decode_into :
    (src dst dst' : Bytes) (written : ℕ)
    → decode_into src dst ≡ ok (written, dst')
    → (final : Decoder) × (run (suc (length src)) (start src dst) ≡ ok final)
      × (take final.output final.dst ≡ take written dst')
unfolding decode_into
run_of_decode_into src dst dst' written h =
    let (final, ran, given) = bind_ok (run (suc (length src)) (start src dst)) _ h in
    (final, ran, cc)

-- `decode` is `decode_into` on a buffer of the given length, and the test that it is filled.
pub decode-decode_into :
    (src : Bytes) (decoded_len : ℕ)
    → decode src decoded_len
      ≡ decode_into src (replicate decoded_len 0) >>= λ (written, dst).
          reject_if (not (written == decoded_len)) (size_mismatch decoded_len written) >> ok dst
unfolding decode
decode-decode_into src decoded_len = refl
