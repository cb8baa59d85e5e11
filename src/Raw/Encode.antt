-- ===== src/Raw/Encode.antt =====
-- src/raw/encode.rs: the state of the encoder, and the match finder over its hash table.

pub mod Find
pub mod Emit
pub mod Loop
use lzvn.Base.{
  ℕ, zero, suc, ◌+◌, ◌-◌, ◌*◌, ◌/◌, ◌%◌, ◌^◌, bit_and, bit_or, Bool, true, false, not, ◌&&◌, ◌||◌,
  Option, none, some, List, [], ◌∷◌, ◌++◌, Bytes, length, ltb, leb, ◌==◌, if◌then◌else◌,
}
use lzvn.Error.{Result, ok, panic, out_of_fuel, ◌>>=◌, ◌>>◌, index, checked_sub}

abbrev pub hash_size : ℕ
hash_size = 2 ^ 14

-- `usize::MAX` of a 64-bit target.
abbrev pub invalid_position : ℕ
invalid_position = 2 ^ 64 - 1

abbrev pub max_distance : ℕ
max_distance = 0xFFFF

abbrev pub max_short_distance : ℕ
max_short_distance = 0x600

abbrev pub min_match_len : ℕ
min_match_len = 3

pub record Match : Type 0 where
  pub distance : ℕ
  pub length : ℕ

-- `[usize; CANDIDATES_PER_BUCKET]` for each hash.
abbrev pub Table : Type 0
Table = ℕ → List ℕ

pub record Encoder : Type 0 where
  pub src : Bytes
  pub output : Bytes
  pub table : Table
  pub literal_start : ℕ
  pub position : ℕ
  pub previous_distance : ℕ

pub new : Bytes → Encoder
new src = record {
  src = src;
  output = [];
  table = λ _. invalid_position ∷ invalid_position ∷ invalid_position ∷ invalid_position ∷ [];
  literal_start = 0;
  position = 0;
  previous_distance = 0;
}

-- The hash of three bytes: `u32` arithmetic, then the low bits.
pub hash_of : ℕ → ℕ → ℕ → ℕ
hash_of first second third =
    let value = bit_or (bit_or first (second * 2 ^ 8)) (third * 2 ^ 16) in
    let hash = value * (1 + 2 ^ 6 + 2 ^ 12) % 2 ^ 32 / 2 ^ 12 in bit_and hash (hash_size - 1)

pub hash_at : Bytes → ℕ → Result ℕ
hash_at src position = do
  first ← index src position
  second ← index src (position + 1)
  third ← index src (position + 2)
  ok (hash_of first second third)

-- `self.table[bucket]`
pub bucket_at : Table → ℕ → Result (List ℕ)
bucket_at table bucket = if ltb bucket hash_size then ok (table bucket) else panic

abbrev pub init : List ℕ → List ℕ
init [] = []
init (x ∷ []) = []
init (x ∷ y ∷ xs) = x ∷ init (y ∷ xs)

-- `slot.rotate_right(1); slot[0] = position;` for a slot of at least one element.
pub push_front : List ℕ → ℕ → List ℕ
push_front slot position = position ∷ init slot

pub insert_position : Encoder → ℕ → Result Encoder
insert_position e position = if ltb (length e.src - position) min_match_len then ok e else do
  bucket ← hash_at e.src position
  slot ← bucket_at e.table bucket
  ok (record e { table = λ b. if b == bucket then push_front slot position else e.table b })

-- `for index in self.position..match_end`, by the number of positions left.
pub insert_range : ℕ → ℕ → Encoder → Result Encoder
insert_range zero i e = ok e
insert_range (suc rounds) i e = do e' ← insert_position e i; insert_range rounds (i + 1) e'

-- `self.src[a] != self.src[b]`
pub differ : Bytes → ℕ → ℕ → Result Bool
differ src a b = do x ← index src a; y ← index src b; ok (not (x == y))

-- `while length < max_length && …`, by the difference of the two.
pub match_length_loop : ℕ → Bytes → ℕ → ℕ → ℕ → Result ℕ
match_length_loop zero src candidate position length = ok length
match_length_loop (suc rounds) src candidate position length = do
  stop ← differ src (candidate + length) (position + length)
  elim stop [
    | true ↦ ok length
    | false ↦ match_length_loop rounds src candidate position (length + 1)
  ]

pub match_length : Bytes → ℕ → ℕ → Result ℕ
match_length src candidate position = do
  max_length ← checked_sub (length src) position
  match_length_loop max_length src candidate position 0

pub is_better_match : Match → Option Match → ℕ → Bool
is_better_match candidate none previous_distance = true
is_better_match candidate (some current) previous_distance =
    let candidate_prev = candidate.distance == previous_distance in
    let current_prev = current.distance == previous_distance in
    if not (candidate.length == current.length)
    then ltb current.length candidate.length
    else if candidate_prev && not current_prev || current_prev && not candidate_prev
    then candidate_prev
    else ltb candidate.distance current.distance

-- The three-way `||` on the first bytes, which stops at the first difference.
pub first_three_differ : Bytes → ℕ → ℕ → Result Bool
first_three_differ src candidate position = do
  d ← differ src candidate position
  if d then ok true else do
    d' ← differ src (candidate + 1) (position + 1)
    if d' then ok true else differ src (candidate + 2) (position + 2)

-- The last two tests of `consider_candidate`.
pub better_of : Match → Option Match → ℕ → Option Match
better_of found best previous_distance =
    if ltb found.length min_match_len
    then best
    else if is_better_match found best previous_distance
    then some found
    else best

pub consider_candidate : Encoder → ℕ → ℕ → Option Match → Result (Option Match)
consider_candidate e position candidate best = do
  distance ← checked_sub position candidate
  if distance == 0 || ltb max_distance distance then ok best else do
    different ← first_three_differ e.src candidate position
    if different then ok best else do
      len ← match_length e.src candidate position
      ok (better_of (record { distance = distance; length = len }) best e.previous_distance)

-- `for candidate in self.table[bucket]`
pub consider_bucket : Encoder → ℕ → List ℕ → Option Match → Result (Option Match)
consider_bucket e position [] best = ok best
consider_bucket e position (candidate ∷ candidates) best = do
  best' ←
      if candidate == invalid_position || leb position candidate
      then ok best
      else consider_candidate e position candidate best
  consider_bucket e position candidates best'

pub match_is_worthwhile : Encoder → Match → Bool
match_is_worthwhile e next_match =
    if next_match.distance == e.previous_distance || ltb next_match.distance max_short_distance
    then leb min_match_len next_match.length
    else ltb min_match_len next_match.length

-- `let found = best?; if worthwhile { Some(found) } else { None }`
pub keep_worthwhile : Encoder → Option Match → Option Match
keep_worthwhile e none = none
keep_worthwhile e (some found) = if match_is_worthwhile e found then some found else none

pub find_match : Encoder → ℕ → Result (Option Match)
find_match e position = if ltb (length e.src - position) min_match_len then ok none else do
  best ←
      if not (e.previous_distance == 0) && leb e.previous_distance position
      then consider_candidate e position (position - e.previous_distance) none
      else ok none
  bucket ← hash_at e.src position
  candidates ← bucket_at e.table bucket
  best' ← consider_bucket e position candidates best
  ok (keep_worthwhile e best')
