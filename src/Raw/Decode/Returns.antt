-- ===== src/Raw/Decode/Returns.antt =====
-- The decoder's loop on any input whatever: it ends, never panics, and an
-- error is one that an instruction of the source deserves.
use lzvn.Base.{
  ℕ, zero, suc, ◌+◌, ◌≤◌, ◌<◌, ◌≡◌, refl, ap, inl, inr, arith, Bytes, length, get_or,
  get_elem?-eq-none, get_elem?-eq-get_or, some, ◌∙◌, get_or-drop, sym, false, length-drop, ltb,
  Bool-cases, Option-cases,
}
use lzvn.Error.{
  Result, panic, out_of_fuel, Error, truncated_input, invalid_opcode, invalid_match_distance,
  output_too_small, trailing_data, ok, err, Returns, Returns-map, Returns-bind,
}
use lzvn.Raw.Opcode.{OpcodeKind, classify, eos}
use lzvn.Raw.Code.{is_eos}
use lzvn.Raw.Refusal.{Begin, Refused}
use lzvn.Raw.Decode.{
  Decoder, byte_at, finish, Control, next, return, dispatch, execute, control, step, run, start,
  decode_into,
}
use lzvn.Raw.Decode.Kept.{FailsAfter, here, there, IsTrueError, IsWithin, Inside, Kept, Kept-trans}
use lzvn.Raw.Decode.Works.{
  moved-Kept, code_here, Blocks, Ends, Works, unread, finish-Works, execute-Works,
}

-- The instruction at the input cursor is refused.
Refused-FailsAfter :
    (d : Decoder) (e : Error)
    → Inside d
    → Refused d.input (unread d) d.previous_distance d.output (length d.dst) e
    → IsWithin (length d.dst) e
    → FailsAfter d e
Refused-FailsAfter d e inside refused within =
    (d, here d, moved-Kept d d.input inside (omega arith) inside.0, refused, within)

-- The opcode at the input cursor is of this kind.
abbrev IsAt : OpcodeKind → ℕ → Decoder → Type 0
IsAt kind opcode d = (opcode ≡ get_or (unread d) 0 0) × (classify opcode ≡ some kind)

Begin-here :
    (kind : OpcodeKind) (opcode : ℕ) (d : Decoder)
    → IsAt kind opcode d
    → is_eos kind ≡ false
    → Begin (unread d) d.previous_distance kind (code_here kind opcode d)
Begin-here kind opcode d (opcode_is, defined) other =
    (ap classify (sym opcode_is) ∙ defined, other, ap (λ o. code_here kind o d) opcode_is)

Blocks-FailsAfter :
    (kind : OpcodeKind) (opcode : ℕ) (d : Decoder) (e : Error)
    → Inside d
    → IsAt kind opcode d
    → is_eos kind ≡ false
    → Blocks d (code_here kind opcode d) e
    → FailsAfter d e
Blocks-FailsAfter kind opcode d (truncated_input position) inside at other (place, short) =
    Refused-FailsAfter d (truncated_input position) inside
      (
        place,
        inr (
          kind,
          code_here kind opcode d,
          Begin-here kind opcode d at other,
          omega (arith, length-drop {0} d.input d.src, inside.0),
        ),
      )
      tt
Blocks-FailsAfter kind opcode d (invalid_match_distance distance available) inside at other
      (whole, checked, distance_is, available_is, reason, within) =
    Refused-FailsAfter d (invalid_match_distance distance available) inside
      (
        kind,
        code_here kind opcode d,
        Begin-here kind opcode d at other,
        omega (arith, length-drop {0} d.input d.src),
        checked,
        distance_is,
        available_is,
        reason,
      )
      within
Blocks-FailsAfter kind opcode d (output_too_small written total) inside at other
      (whole, written_is, total_is, small) =
    Refused-FailsAfter d (output_too_small written total) inside
      (
        kind,
        code_here kind opcode d,
        Begin-here kind opcode d at other,
        omega (arith, length-drop {0} d.input d.src),
        written_is,
        total_is,
        small,
      )
      tt
Blocks-FailsAfter kind opcode d _ inside at other h = absurd h

Ends-FailsAfter :
    (opcode : ℕ) (d : Decoder) (e : Error)
    → Inside d
    → d.input < length d.src
    → IsAt eos opcode d
    → Ends d e
    → FailsAfter d e
Ends-FailsAfter opcode d (trailing_data remaining) inside some_left (opcode_is, defined) excess =
    Refused-FailsAfter d (trailing_data remaining) inside
      (omega (arith, length-drop {0} d.input d.src), ap classify (sym opcode_is) ∙ defined, excess)
      tt
Ends-FailsAfter opcode d _ inside some_left at h = absurd h

-- Any instruction, the end marker included.
execute-Returns :
    (kind : OpcodeKind) (opcode : ℕ) (d : Decoder)
    → Inside d
    → d.input < length d.src
    → IsAt kind opcode d
    → Works d (FailsAfter d) (execute kind opcode d)
unfolding execute
execute-Returns eos opcode d inside some_left at =
    Returns-map _ _ (Ends d) (FailsAfter d) (finish d) (λ d' h. h)
      (λ e h. Ends-FailsAfter opcode d e inside some_left at h) (finish-Works d inside some_left)
execute-Returns kind opcode d inside some_left at =
    Returns-map _ _ (Blocks d (code_here kind opcode d)) (FailsAfter d) (execute kind opcode d)
      (λ d' h. h) (λ e h. Blocks-FailsAfter kind opcode d e inside at refl h)
      (execute-Works kind opcode d inside refl)

abbrev Turns : Decoder → Control → Type 0
Turns d (next d') = Kept d d' × (d.input < d'.input)
Turns d (return d') = Kept d d'

control-Turns :
    (kind : OpcodeKind) (d d' : Decoder)
    → Kept d d' × (d.input < d'.input)
    → Turns d (control kind d')
control-Turns eos d d' h = h.0
control-Turns _ d d' h = h

step-Turns : (d : Decoder) → Inside d → Returns (Turns d) (FailsAfter d) (step d)
unfolding step dispatch
step-Turns d inside = elim (Bool-cases (ltb d.input (length d.src))) [
  | inr over ↦
      let outside : length d.src ≤ d.input = ground arith in
      let nothing = get_elem?-eq-none d.src d.input outside in
      let missing : byte_at d d.input ≡ err (truncated_input d.input) =
        unfold byte_at in ground (arith, nothing) in
      rw missing (
        Refused-FailsAfter d (truncated_input d.input) inside
          (refl, inl (omega (arith, length-drop {0} d.input d.src, outside))) tt)
  | inl left ↦
      let some_left : d.input < length d.src = ground arith in
      let opcode = get_or d.src d.input 0 in
      let found = get_elem?-eq-get_or d.src d.input 0 some_left in
      let fetched : byte_at d d.input ≡ ok opcode = unfold byte_at in ground (arith, found) in
      let opcode_is : opcode ≡ get_or (unread d) 0 0 =
        ap (λ n. get_or d.src n 0) (omega arith) ∙ sym (get_or-drop d.src d.input 0 0) in
      elim (Option-cases (classify opcode)) [
        | inl undefined ↦
            rw (fetched, undefined, dispatch)
              (Refused-FailsAfter d (invalid_opcode d.input opcode) inside
                (refl, omega (arith, length-drop {0} d.input d.src), opcode_is, undefined) tt)
        | inr (kind, defined) ↦
            rw (fetched, defined, dispatch)
              (Returns-bind (λ d'. Kept d d' × (d.input < d'.input)) (Turns d) (FailsAfter d)
                (execute kind opcode d) (λ d'. ok (control kind d'))
                (execute-Returns kind opcode d inside some_left (opcode_is, defined))
                (control-Turns kind d))
      ]
]

-- What a call returned is the value that satisfies `P`.
Returns-self :
    {A : Type 0} (P : A → Type 0) (Q : Error → Type 0) (r : Result A)
    → Returns P Q r
    → Returns (λ a. P a × (r ≡ ok a)) Q r
Returns-self P Q (ok a) h = (h, refl)
Returns-self P Q (err e) h = h
Returns-self P Q panic h = h
Returns-self P Q out_of_fuel h = h

run-Kept :
    (fuel : ℕ) (d : Decoder)
    → Inside d
    → length d.src < d.input + fuel
    → Returns (Kept d) (FailsAfter d) (run fuel d)
unfolding run
run-Kept zero d inside h = absurd (omega (arith, inside.0))
run-Kept (suc fuel) d inside h =
    Returns-bind (λ c. Turns d c × (step d ≡ ok c)) (Kept d) (FailsAfter d) (step d) _
      (Returns-self (Turns d) (FailsAfter d) (step d) (step-Turns d inside)) (go (run-Kept fuel))
  where
    go :
        ((d' : Decoder)
          → Inside d'
          → length d'.src < d'.input + fuel
          → Returns (Kept d') (FailsAfter d') (run fuel d'))
        → (c : Control) → Turns d c × (step d ≡ ok c)
        → Returns (Kept d) (FailsAfter d) (elim c [ next d' ↦ run fuel d' | return d' ↦ ok d' ])
    go rest (next d') ((kept, further), stepped) =
        let size = ap length kept.src_is in
        Returns-map (Kept d') (Kept d) (FailsAfter d') (FailsAfter d) (run fuel d')
          (λ d'' kept'. Kept-trans d d' d'' kept kept')
          (λ e (d'', reached, kept', refused, within).
            (d'', there d d' d'' stepped reached, Kept-trans d d' d'' kept kept', refused, within))
          (rest d' (omega (arith, size, kept.within), omega (arith, kept.fits, kept.room_is))
            (omega (arith, size)))
    go rest (return d') (kept, stepped) = kept

-- The bytes behind the first `written` ones are those of `dst`.
abbrev pub WritesOnly : Bytes → ℕ × Bytes → Type 0
WritesOnly dst (written, dst') =
    (written ≤ length dst)
    × (length dst' ≡ length dst)
    × ((j : ℕ) → written ≤ j → get_or dst' j 0 ≡ get_or dst j 0)

-- On any input and buffer `decode_into` ends without a panic. If it succeeds, the count fits the
-- buffer and only the bytes counted have changed. If it fails, rounds of the loop that keep the source
-- lead to a state whose next bytes are refused with this error: they are not a whole instruction, and
-- the position given is theirs; the opcode given stands there and has no meaning; the instruction is
-- whole, but what it writes exceeds the buffer, or its distance, the one given, is zero or more than
-- the bytes before its match; or they are the end marker with as many bytes too many behind it as given.
pub decode_into-WritesOnly :
    (src dst : Bytes) → Returns (WritesOnly dst) (IsTrueError src dst) (decode_into src dst)
unfolding decode_into
decode_into-WritesOnly src dst =
    let d = start src dst in
    Returns-bind (Kept d) (WritesOnly dst) (FailsAfter d) (run (suc (length src)) d)
      (λ d'. ok (d'.output, d'.dst))
      (run-Kept (suc (length src)) d (omega arith, omega arith) (omega arith))
      (λ d' kept. (kept.fits, kept.room_is, kept.frame))
