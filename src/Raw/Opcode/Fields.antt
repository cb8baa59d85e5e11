-- ===== src/Raw/Opcode/Fields.antt =====
-- The opcode table by the bit fields of an opcode: its top two bits, the next three, and the last
-- three.
use lzvn.Base.{
  ℕ, ◌+◌, ◌*◌, ◌/◌, ◌%◌, ◌≡◌, refl, sym, ap, ◌∙◌, ==→eq, get_or, true, ◌&&◌, Option, none, some,
  List, [], ◌∷◌, leb, ltb, ◌==◌, if◌then◌else◌, IsByte,
}
use lzvn.Base.Bits.{all_below, all_below-elim}
use lzvn.Raw.Opcode.{
  OpcodeKind, classify, small_distance, medium_distance, large_distance, previous_distance,
  small_literal, large_literal, small_match, large_match, nop, eos,
}

-- Opcodes are grouped by their top bits: `101` is a medium distance, `1110` a literal, `1111` a
-- match. Elsewhere the last three bits tell the distance: 6 is the last one, 7 is in two bytes, and
-- the others are its high bits. A literal of `top` bytes leaves a match of at most `10 - 2 * top`,
-- and with no literal the last distance gives way to the end marker and to opcodes without effect.
unfoldable pub field_kind : ℕ → ℕ → ℕ → Option OpcodeKind
field_kind top middle last =
    if top == 2 && leb 4 middle
    then some medium_distance
    else if top == 3 && leb 4 middle && ltb middle 6
    then some (if middle == 4 && last == 0 then large_literal else small_literal)
    else if top == 3 && leb 6 middle
    then some (if middle == 6 && last == 0 then large_match else small_match)
    else if ltb 7 (middle + 2 * top)
    then none
    else if last == 7
    then some large_distance
    else if ltb last 6
    then some small_distance
    else if ltb 0 top
    then some previous_distance
    else if middle == 0
    then some eos
    else if leb middle 2
    then some nop
    else none

abbrev code_of : Option OpcodeKind → ℕ
code_of none = 0
code_of (some small_distance) = 1
code_of (some medium_distance) = 2
code_of (some large_distance) = 3
code_of (some previous_distance) = 4
code_of (some small_literal) = 5
code_of (some large_literal) = 6
code_of (some small_match) = 7
code_of (some large_match) = 8
code_of (some nop) = 9
code_of (some eos) = 10

kinds : List (Option OpcodeKind)
kinds =
    none
    ∷ some small_distance
    ∷ some medium_distance
    ∷ some large_distance
    ∷ some previous_distance
    ∷ some small_literal
    ∷ some large_literal
    ∷ some small_match
    ∷ some large_match
    ∷ some nop
    ∷ some eos
    ∷ []

of_code : ℕ → Option OpcodeKind
unfolding kinds
of_code n = get_or kinds n none

of_code-code_of : (k : Option OpcodeKind) → of_code (code_of k) ≡ k
unfolding of_code
of_code-code_of none = refl
of_code-code_of (some small_distance) = refl
of_code-code_of (some medium_distance) = refl
of_code-code_of (some large_distance) = refl
of_code-code_of (some previous_distance) = refl
of_code-code_of (some small_literal) = refl
of_code-code_of (some large_literal) = refl
of_code-code_of (some small_match) = refl
of_code-code_of (some large_match) = refl
of_code-code_of (some nop) = refl
of_code-code_of (some eos) = refl

code_of_injective : (k l : Option OpcodeKind) → (code_of k == code_of l) ≡ true → k ≡ l
code_of_injective k l h = sym (of_code-code_of k) ∙ ap of_code (==→eq _ _ h) ∙ of_code-code_of l

fields_table :
    all_below 256 (λ x. code_of (classify x) == code_of (field_kind (x / 64) (x / 8 % 8) (x % 8)))
    ≡ true
unfolding all_below classify field_kind
fields_table = refl

-- Of every byte, `classify` gives the kind that its three bit fields describe.
pub classify-field_kind :
    (opcode : ℕ)
    → IsByte opcode
    → classify opcode ≡ field_kind (opcode / 64) (opcode / 8 % 8) (opcode % 8)
classify-field_kind opcode h = code_of_injective _ _ (all_below-elim 256 opcode _ h fields_table)
