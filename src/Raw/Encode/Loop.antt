-- ===== src/Raw/Encode/Loop.antt =====
-- src/raw/encode.rs: the main loop of the encoder, and `encode`.
pub mod RoundTrip
use lzvn.Base.{
  ℕ, zero, suc, ◌+◌, Bool, true, false, Option, none, some, List, [], ◌∷◌, ◌++◌, Bytes, length, ltb,
  if◌then◌else◌,
}
use lzvn.Error.{Result, ok, panic, out_of_fuel, ◌>>=◌, slice}
use lzvn.Raw.Encode.{Match, Encoder, new, insert_position, insert_range, find_match}
use lzvn.Raw.Encode.Emit.{emit_literals, emit_match_with_literals}

abbrev pub eos_marker : Bytes
eos_marker = 0x06 ∷ 0 ∷ 0 ∷ 0 ∷ 0 ∷ 0 ∷ 0 ∷ 0 ∷ []

pub emit_match : Encoder → Match → Result Encoder
emit_match e next_match = do
  literals ← slice e.src e.literal_start e.position
  emit_match_with_literals e literals next_match.length next_match.distance

pub emit_literals_from_source : Encoder → ℕ → ℕ → Result Encoder
emit_literals_from_source e start end = do
  literals ← slice e.src start end
  emit_literals e literals

-- The body of `while self.position < self.src.len()`.
pub advance : Encoder → Option Match → Result Encoder
advance e none = do e' ← insert_position e e.position; ok (record e' { position = e'.position + 1 })
advance e (some next_match) = do
  e' ← emit_match e next_match
  let match_end = e'.position + next_match.length
  e'' ← insert_range next_match.length e'.position e'
  ok (record e'' { position = match_end; literal_start = match_end })

pub encode_loop : ℕ → Encoder → Result Encoder
encode_loop zero e = if ltb e.position (length e.src) then out_of_fuel else ok e
encode_loop (suc fuel) e = elim (ltb e.position (length e.src)) [
  | false ↦ ok e
  | true ↦ do next_match ← find_match e e.position; e' ← advance e next_match; encode_loop fuel e'
]

-- Each round moves the position forward, so a round for each source byte is enough.
pub finish : Encoder → Result Bytes
finish e = do
  e' ← encode_loop (length e.src) e
  e'' ← emit_literals_from_source e' e'.literal_start (length e'.src)
  ok (e''.output ++ eos_marker)

pub encode : Bytes → Result Bytes
encode src = finish (new src)
