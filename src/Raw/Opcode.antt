-- ===== src/Raw/Opcode.antt =====
-- src/raw/opcode.rs: the kinds of instruction.
pub mod Fields
use lzvn.Base.{
  ℕ, ◌≡◌, refl, Bool, true, false, ◌&&◌, ◌||◌, Option, none, some, List, [], ◌∷◌, leb, ◌==◌,
  if◌then◌else◌,
}

pub data OpcodeKind : Type 0 where
  small_distance medium_distance large_distance previous_distance : OpcodeKind
  small_literal large_literal small_match large_match : OpcodeKind
  nop eos : OpcodeKind

-- A range pattern `lo..=hi`, and an alternative of literals.
abbrev between : ℕ → ℕ → ℕ → Bool
between lo hi opcode = leb lo opcode && leb opcode hi

abbrev one_of : List ℕ → ℕ → Bool
one_of [] opcode = false
one_of (x ∷ xs) opcode = opcode == x || one_of xs opcode

abbrev previous_distance_opcodes : List ℕ
previous_distance_opcodes =
    0x46 ∷ 0x4E ∷ 0x56 ∷ 0x5E ∷ 0x66 ∷ 0x6E ∷ 0x86 ∷ 0x8E ∷ 0x96 ∷ 0x9E ∷ 0xC6 ∷ 0xCE ∷ []

abbrev large_distance_opcodes : List ℕ
large_distance_opcodes =
    0x07 ∷ 0x0F ∷ 0x17 ∷ 0x1F ∷ 0x27 ∷ 0x2F ∷ 0x37 ∷ 0x3F ∷ 0x47 ∷ 0x4F ∷ 0x57 ∷ 0x5F ∷ 0x67 ∷ 0x6F
    ∷ 0x87 ∷ 0x8F ∷ 0x97 ∷ 0x9F ∷ 0xC7 ∷ 0xCF ∷ []

abbrev undefined_opcodes : List ℕ
undefined_opcodes = 0x1E ∷ 0x26 ∷ 0x2E ∷ 0x36 ∷ 0x3E ∷ []

-- The arms of the `match` in their order.
unfoldable pub classify : ℕ → Option OpcodeKind
classify opcode =
    if opcode == 0x06
    then some eos
    else if opcode == 0x0E || opcode == 0x16
    then some nop
    else if between 0xA0 0xBF opcode
    then some medium_distance
    else if opcode == 0xE0
    then some large_literal
    else if between 0xE1 0xEF opcode
    then some small_literal
    else if opcode == 0xF0
    then some large_match
    else if between 0xF1 0xFF opcode
    then some small_match
    else if one_of previous_distance_opcodes opcode
    then some previous_distance
    else if one_of large_distance_opcodes opcode
    then some large_distance
    else if one_of undefined_opcodes opcode || between 0x70 0x7F opcode || between 0xD0 0xDF opcode
    then none
    else some small_distance
