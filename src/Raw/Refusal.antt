-- ===== src/Raw/Refusal.antt =====
-- Why an instruction is refused, as both decoders may say it. It models no code of its own.
use lzvn.Base.{
  ℕ, ◌+◌, ◌-◌, ◌≤◌, ◌<◌, ◌≡◌, ◌⊎◌, true, false, none, some, Bytes, length, drop, get_or,
}
use lzvn.Error.{
  Error, truncated_input, invalid_opcode, invalid_match_distance, output_too_small, trailing_data,
}
use lzvn.Raw.Opcode.{OpcodeKind, classify, eos}
use lzvn.Raw.Code.{Code, code_of, is_eos}
use lzvn.Raw.Decode.{any_nonzero}

-- `bytes` begin with an instruction of this kind, other than the end marker, and this code.
abbrev pub Begin : Bytes → ℕ → OpcodeKind → Code → Type 0
Begin bytes previous kind c =
    (classify (get_or bytes 0 0) ≡ some kind)
    × (is_eos kind ≡ false)
    × (c ≡ code_of kind (get_or bytes 0 0) bytes previous)

-- The padding behind the end marker that is too much.
abbrev pub Excess : Bytes → ℕ → Type 0
Excess padding remaining =
    ((any_nonzero padding ≡ true) × (remaining ≡ length padding))
    ⊎ ((any_nonzero padding ≡ false) × (7 < length padding) × (remaining ≡ length padding - 7))

-- The instruction at `place` is refused. `bytes` are those from there on, `previous` is the last
-- distance, `written` counts the bytes before its own, and `capacity` is the room for all.
abbrev pub Refused : ℕ → Bytes → ℕ → ℕ → ℕ → Error → Type 0
Refused place bytes previous written capacity (truncated_input position) =
    (position ≡ place)
    × ((length bytes ≡ 0)
        ⊎ ((kind : OpcodeKind) × (c : Code) × Begin bytes previous kind c
            × (length bytes < c.size + c.literal)))
Refused place bytes previous written capacity (invalid_opcode position opcode) =
    (position ≡ place) × (0 < length bytes) × (opcode ≡ get_or bytes 0 0) × (classify opcode ≡ none)
Refused place bytes previous written capacity (invalid_match_distance distance available) =
    (kind : OpcodeKind) × (c : Code) × Begin bytes previous kind c
    × (c.size + c.literal ≤ length bytes)
    × (c.checked ≡ true)
    × (distance ≡ c.distance)
    × (available ≡ written + c.literal)
    × ((distance ≡ 0) ⊎ (available < distance))
Refused place bytes previous written capacity (output_too_small before total) =
    (kind : OpcodeKind) × (c : Code) × Begin bytes previous kind c
    × (c.size + c.literal ≤ length bytes)
    × (before ≡ written)
    × (total ≡ capacity)
    × (capacity < written + (c.literal + c.match))
Refused place bytes previous written capacity (trailing_data remaining) =
    (0 < length bytes) × (classify (get_or bytes 0 0) ≡ some eos) × Excess (drop 1 bytes) remaining
Refused place bytes previous written capacity _ = ⊥
