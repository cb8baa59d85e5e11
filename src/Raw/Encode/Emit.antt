-- ===== src/Raw/Encode/Emit.antt =====
-- src/raw/encode.rs: the writers of instructions. A `debug_assert!` that fails is a panic, as in a
-- debug build.
pub mod Codes
pub mod Literals
pub mod Matches
pub mod Inline
use lzvn.Base.{
  ℕ, zero, suc, ◌+◌, ◌-◌, ◌*◌, ◌/◌, ◌%◌, ◌^◌, min, bit_and, bit_or, Bool, true, false, not, ◌&&◌,
  ◌||◌, Option, none, some, List, [], ◌∷◌, ◌++◌, Bytes, length, take, drop, ltb, leb, ◌==◌,
  if◌then◌else◌,
}
use lzvn.Error.{Result, ok, panic, out_of_fuel, ◌>>=◌, ◌>>◌, slice, checked_sub}
use lzvn.Raw.Encode.{
  Match, Encoder, new, insert_position, insert_range, find_match, max_short_distance, min_match_len,
}

abbrev pub max_inline_literal : ℕ
max_inline_literal = 3

abbrev pub max_literal_len : ℕ
max_literal_len = 271

abbrev pub max_match_len : ℕ
max_match_len = 271

abbrev pub max_medium_distance : ℕ
max_medium_distance = 0x3FFF

abbrev pub max_medium_match : ℕ
max_medium_match = 34

-- `debug_assert!`
abbrev pub debug_assert : Bool → Result (Unit {0})
debug_assert holds = if holds then ok tt else panic

-- `self.output.push` and `extend_from_slice`
abbrev pub append : Encoder → Bytes → Encoder
append e bytes = record e { output = e.output ++ bytes }

pub max_short_match : ℕ → Result ℕ
max_short_match inline_literals = checked_sub 10 (inline_literals * 2)

-- `(MIN_MATCH_LEN..=max_short_match(literals.len())).contains(&match_len)`
pub assert_short_match : ℕ → ℕ → Result (Unit {0})
assert_short_match literal_len match_len = do
  limit ← max_short_match literal_len
  debug_assert (leb min_match_len match_len && leb match_len limit)

-- `(x as u8) << bits`
abbrev pub shl_u8 : ℕ → ℕ → ℕ
shl_u8 x bits = x % 256 * 2 ^ bits % 256

-- `if len <= 15 { len } else { len.min(271) }`, of literals and of matches.
pub chunk_len : ℕ → ℕ → ℕ
chunk_len len limit = if leb len 15 then len else min len limit

-- The bytes before a chunk: `first | len as u8`, or `first` and `(len - 16) as u8`.
pub chunk_code : ℕ → ℕ → Result Bytes
chunk_code first len =
    if leb len 15
    then ok (bit_or first (len % 256) ∷ [])
    else do extra ← checked_sub len 16; ok (first ∷ extra % 256 ∷ [])

-- `while !literals.is_empty()`
pub emit_literals_loop : ℕ → Encoder → Bytes → Result Encoder
emit_literals_loop fuel e [] = ok e
emit_literals_loop zero e (x ∷ xs) = out_of_fuel
emit_literals_loop (suc fuel) e (x ∷ xs) = do
  let len = chunk_len (length (x ∷ xs)) max_literal_len
  code ← chunk_code 0xE0 len
  emit_literals_loop fuel (append e (code ++ take len (x ∷ xs))) (drop len (x ∷ xs))

pub emit_literals : Encoder → Bytes → Result Encoder
emit_literals e literals = emit_literals_loop (length literals) e literals

pub emit_small_distance : Encoder → Bytes → ℕ → ℕ → Result Encoder
emit_small_distance e literals match_len distance = do
  debug_assert (ltb distance max_short_distance)
  assert_short_match (length literals) match_len
  extra ← checked_sub match_len min_match_len
  let opcode =
      bit_or (bit_or (shl_u8 (length literals) 6) (shl_u8 extra 3)) (distance / 2 ^ 8 % 256)
  ok (append e (opcode ∷ distance % 256 ∷ literals))

pub emit_medium_distance : Encoder → Bytes → ℕ → ℕ → Result Encoder
emit_medium_distance e literals match_len distance = do
  debug_assert (leb distance max_medium_distance)
  debug_assert (leb min_match_len match_len && leb match_len max_medium_match)
  extra ← checked_sub match_len min_match_len
  let match_code = extra % 256
  let opcode = bit_or (bit_or 0xA0 (shl_u8 (length literals) 3)) (match_code / 2 ^ 2)
  let packed = bit_or (distance % 2 ^ 16 * 2 ^ 2 % 2 ^ 16) (bit_and match_code 0x03)
  ok (append e (opcode ∷ packed % 256 ∷ packed / 256 ∷ literals))

pub emit_large_distance : Encoder → Bytes → ℕ → ℕ → Result Encoder
emit_large_distance e literals match_len distance = do
  assert_short_match (length literals) match_len
  extra ← checked_sub match_len min_match_len
  let opcode = bit_or (bit_or (shl_u8 (length literals) 6) (shl_u8 extra 3)) 7
  ok (append e (opcode ∷ distance % 2 ^ 16 % 256 ∷ distance % 2 ^ 16 / 256 ∷ literals))

pub emit_previous_distance : Encoder → Bytes → ℕ → Result Encoder
emit_previous_distance e literals match_len = do
  debug_assert (not (e.previous_distance == 0))
  assert_short_match (length literals) match_len
  extra ← checked_sub match_len min_match_len
  let opcode = bit_or (bit_or (shl_u8 (length literals) 6) (shl_u8 extra 3)) 6
  ok (append e (opcode ∷ literals))

-- `while match_len > 0`
pub emit_match_chunks_loop : ℕ → Encoder → ℕ → Result Encoder
emit_match_chunks_loop fuel e zero = ok e
emit_match_chunks_loop zero e (suc n) = out_of_fuel
emit_match_chunks_loop (suc fuel) e (suc n) = do
  let len = chunk_len (suc n) max_match_len
  code ← chunk_code 0xF0 len
  left ← checked_sub (suc n) len
  emit_match_chunks_loop fuel (append e code) left

pub emit_match_chunks : Encoder → ℕ → Result Encoder
emit_match_chunks e match_len = emit_match_chunks_loop match_len e match_len

-- A writer's encoder, beside the part of the match that it has written.
abbrev pub with_initial : ℕ → Result Encoder → Result (Encoder × ℕ)
with_initial initial_match written = do e ← written; ok (e, initial_match)

-- The branches that begin a match with literals or with a new distance.
pub emit_initial : Encoder → Bytes → ℕ → ℕ → ℕ → Result (Encoder × ℕ)
emit_initial e inline_literals short_match_limit match_len distance =
    let short = min match_len short_match_limit in
    let medium = min match_len max_medium_match in
    if distance == e.previous_distance
    then with_initial short (emit_previous_distance e inline_literals short)
    else if leb distance max_medium_distance && ltb short_match_limit match_len
    then with_initial medium (emit_medium_distance e inline_literals medium distance)
    else if ltb distance max_short_distance
    then with_initial short (emit_small_distance e inline_literals short distance)
    else with_initial short (emit_large_distance e inline_literals short distance)

-- `match_len -= initial_match; self.previous_distance = distance; self.emit_match_chunks(match_len)`
pub emit_remaining : ℕ → ℕ → Encoder × ℕ → Result Encoder
emit_remaining match_len distance (e, initial_match) = do
  left ← checked_sub match_len initial_match
  emit_match_chunks (record e { previous_distance = distance }) left

-- What follows once the literals that are not inline are written.
pub emit_match_inline : Encoder → Bytes → ℕ → ℕ → Result Encoder
emit_match_inline e inline_literals match_len distance = do
  short_match_limit ← max_short_match (length inline_literals)
  if distance == e.previous_distance && length inline_literals == 0
      then emit_match_chunks e match_len
      else (emit_initial e inline_literals short_match_limit match_len distance
          >>= emit_remaining match_len distance)

pub emit_match_with_literals : Encoder → Bytes → ℕ → ℕ → Result Encoder
emit_match_with_literals e literals match_len distance = do
  let inline_start = length literals - max_inline_literal
  front ← slice literals 0 inline_start
  e' ← emit_literals e front
  inline_literals ← slice literals inline_start (length literals)
  emit_match_inline e' inline_literals match_len distance
