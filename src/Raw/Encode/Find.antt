-- ===== src/Raw/Encode/Find.antt =====
-- The match finder: it returns on every table, and what it finds is a match in the source.
use lzvn.Base.{
  ℕ, zero, suc, ◌+◌, ◌-◌, ◌≤◌, ◌<◌, ◌≡◌, ◌≢◌, refl, inl, inr, Bool, true, Option, none, some, List,
  [], ◌∷◌, arith, Bytes, length, get_or, leb, ltb, ◌==◌, not, ◌&&◌, ◌||◌, Bool-cases, lt→ltb,
  if◌then◌else◌,
}
use lzvn.Base.Bits.{bit_and-le}
use lzvn.Error.{ok, checked_sub, index-eq-get_or}
use lzvn.Raw.Encode.{
  Match, Table, Encoder, hash_of, hash_at, push_front, hash_size, bucket_at, insert_position,
  insert_range, differ, match_length_loop, match_length, is_better_match, better_of,
  first_three_differ, consider_candidate, consider_bucket, match_is_worthwhile, keep_worthwhile,
  find_match, max_distance, invalid_position,
}

-- The bytes from `a` on and from `b` on agree for `len` bytes.
abbrev pub Agree : Bytes → ℕ → ℕ → ℕ → Type 0
Agree src a b len = (i : ℕ) → i < len → get_or src (a + i) 0 ≡ get_or src (b + i) 0

-- At `position` the source repeats what stands `distance` before.
pub record IsMatch (src : Bytes) (position : ℕ) (m : Match) : Type 0 where
  pub long : 3 ≤ m.length
  pub pos : 0 < m.distance
  pub wide : m.distance ≤ 0xFFFF
  pub back : m.distance ≤ position
  pub inside : position + m.length ≤ length src
  pub agree : Agree src (position - m.distance) position m.length

abbrev pub IsBest : Bytes → ℕ → Option Match → Type 0
IsBest src position none = Unit
IsBest src position (some m) = IsMatch src position m

differ_lem :
    (src : Bytes) (a b : ℕ)
    → a < length src
    → b < length src
    → differ src a b ≡ ok (not (get_or src a 0 == get_or src b 0))
unfolding differ
differ_lem src a b ha hb = rw (index-eq-get_or src a ha, index-eq-get_or src b hb)

Agree-suc :
    (src : Bytes) (a b len : ℕ)
    → Agree src a b len
    → get_or src (a + len) 0 ≡ get_or src (b + len) 0
    → Agree src a b (len + 1)
Agree-suc src a b len agree e i h = elim (Bool-cases (i == len)) [
  | inl last ↦ let same : i ≡ len = ground arith in rw same e
  | inr before ↦ agree i (ground arith)
]

-- The loop stops at the first difference, or at the end of the source.
match_length_loop_lem :
    (rounds : ℕ) (src : Bytes) (a b n : ℕ)
    → a ≤ b
    → b + n + rounds ≤ length src
    → Agree src a b n
    → (len : ℕ) × (match_length_loop rounds src a b n ≡ ok len)
      × (len ≤ n + rounds)
      × Agree src a b len
      × (len < n + rounds → get_or src (a + len) 0 ≢ get_or src (b + len) 0)
unfolding match_length_loop
match_length_loop_lem zero src a b n le h agree =
    (n, refl, omega arith, agree, λ lt. absurd (omega arith))
match_length_loop_lem (suc rounds) src a b n le h agree =
    let x = get_or src (a + n) 0 in
    let y = get_or src (b + n) 0 in
    let test = differ_lem src (a + n) (b + n) (omega arith) (omega arith) in
    elim (Bool-cases (x == y)) [
      | inl same ↦
          let (len, run, bound, agrees, stop) =
            match_length_loop_lem rounds src a b (n + 1) le (omega arith)
              (Agree-suc src a b n agree (ground arith)) in
          (len, rw (test, same) run, omega arith, agrees, λ lt. stop (omega arith))
      | inr other ↦ (n, rw (test, other), omega arith, agree, λ lt. ground arith)
    ]

-- Of two positions in order inside the source `match_length` returns a length: the source has room for
-- it, the bytes agree as far, and if the source goes on, the next two bytes differ.
pub match_length_lem :
    (src : Bytes) (candidate position : ℕ)
    → candidate ≤ position
    → position ≤ length src
    → (len : ℕ) × (match_length src candidate position ≡ ok len)
      × (position + len ≤ length src)
      × Agree src candidate position len
      × (position + len < length src
          → get_or src (candidate + len) 0 ≢ get_or src (position + len) 0)
unfolding match_length
match_length_lem src candidate position le h =
    let rounds = length src - position in
    let room : checked_sub (length src) position ≡ ok rounds = ground arith in
    let (len, run, bound, agree, stop) =
      match_length_loop_lem rounds src candidate position 0 le (omega arith)
        (λ i lt. absurd (omega arith)) in
    (len, rw room run, omega arith, agree, λ lt. stop (omega arith))

hash_at_lem :
    (src : Bytes) (position : ℕ)
    → position + 3 ≤ length src
    → (h : ℕ) × (hash_at src position ≡ ok h) × (h < hash_size)
unfolding hash_at hash_of
hash_at_lem src position h = (
  hash_of (get_or src position 0) (get_or src (position + 1) 0) (get_or src (position + 2) 0),
  rw (
    index-eq-get_or src position (omega arith),
    index-eq-get_or src (position + 1) (omega arith),
    index-eq-get_or src (position + 2) (omega arith),
  ),
  omega (arith, bit_and-le _ (hash_size - 1)),
)

bucket_at_lem :
    (table : Table) (bucket : ℕ) → bucket < hash_size → bucket_at table bucket ≡ ok (table bucket)
unfolding bucket_at
bucket_at_lem table bucket h = rw (lt→ltb _ _ h)

first_three_differ_lem :
    (src : Bytes) (a b : ℕ)
    → a ≤ b
    → b + 3 ≤ length src
    → (d : Bool) × (first_three_differ src a b ≡ ok d)
unfolding first_three_differ
first_three_differ_lem src a b le h = elim (Bool-cases (get_or src a 0 == get_or src b 0)) [
  | inr other ↦ (true, rw (zeroth, other))
  | inl same ↦ elim (Bool-cases (get_or src (a + 1) 0 == get_or src (b + 1) 0)) [
    | inr other ↦ (true, rw (zeroth, same, first, other))
    | inl same' ↦
        (not (get_or src (a + 2) 0 == get_or src (b + 2) 0), rw (zeroth, same, first, same') second)
  ]
]
  where
    zeroth : differ src a b ≡ ok (not (get_or src a 0 == get_or src b 0))
    zeroth = differ_lem src a b (omega arith) (omega arith)

    first : differ src (a + 1) (b + 1) ≡ ok (not (get_or src (a + 1) 0 == get_or src (b + 1) 0))
    first = differ_lem src (a + 1) (b + 1) (omega arith) (omega arith)

    second : differ src (a + 2) (b + 2) ≡ ok (not (get_or src (a + 2) 0 == get_or src (b + 2) 0))
    second = differ_lem src (a + 2) (b + 2) (omega arith) (omega arith)

better_of-IsBest :
    (src : Bytes) (position : ℕ) (found : Match) (best : Option Match) (previous : ℕ)
    → IsBest src position best
    → (3 ≤ found.length → IsMatch src position found)
    → IsBest src position (better_of found best previous)
unfolding better_of
better_of-IsBest src position found best previous old new = elim (Bool-cases (ltb found.length 3)) [
  | inl short ↦ rw short old
  | inr long ↦ elim (Bool-cases (is_better_match found best previous)) [
    | inl better ↦ rw (long, better) (new (ground arith))
    | inr worse ↦ rw (long, worse) old
  ]
]

-- A candidate before the position, whatever the table holds, gives a match or leaves the old one.
consider_candidate_lem :
    (e : Encoder) (position candidate : ℕ) (best : Option Match)
    → candidate < position
    → position + 3 ≤ length e.src
    → IsBest e.src position best
    → (best' : Option Match) × (consider_candidate e position candidate best ≡ ok best')
      × IsBest e.src position best'
unfolding consider_candidate
consider_candidate_lem e position candidate best lt h old =
    let distance = position - candidate in
    let sub : checked_sub position candidate ≡ ok distance = ground arith in
    let (d, checked) = first_three_differ_lem e.src candidate position (omega arith) h in
    let (len, measured, inside, agree, stop) =
      match_length_lem e.src candidate position (omega arith) (omega arith) in
    let found : Match = record { distance = distance; length = len } in
    let best' = better_of found best e.previous_distance in
    let start : position - distance ≡ candidate = omega arith in
    elim (Bool-cases (distance == 0 || ltb max_distance distance)) [
      | inl far ↦ (best, rw (sub, far), old)
      | inr near ↦ elim (Bool-cases d) [
        | inl different ↦ (best, rw (sub, near, checked, different), old)
        | inr equal ↦ (
          best',
          rw (sub, near, checked, equal, measured),
          better_of-IsBest e.src position found best e.previous_distance old (λ long. record {
            long = long;
            pos = omega arith;
            wide = ground arith;
            back = omega arith;
            inside = inside;
            agree = rw start agree;
          }),
        )
      ]
    ]

consider_bucket_lem :
    (candidates : List ℕ) (e : Encoder) (position : ℕ) (best : Option Match)
    → position + 3 ≤ length e.src
    → IsBest e.src position best
    → (best' : Option Match) × (consider_bucket e position candidates best ≡ ok best')
      × IsBest e.src position best'
unfolding consider_bucket
consider_bucket_lem [] e position best h old = (best, refl, old)
consider_bucket_lem (c ∷ cs) e position best h old =
    elim (Bool-cases (c == invalid_position || leb position c)) [
      | inl skip ↦
          let (best'', rest, new) = consider_bucket_lem cs e position best h old in
          (best'', rw (skip, rest), new)
      | inr use_it ↦
          let (best', considered, kept) =
            consider_candidate_lem e position c best (ground arith) h old in
          let (best'', rest, new) = consider_bucket_lem cs e position best' h kept in
          (best'', rw (use_it, considered, rest), new)
    ]

keep_worthwhile-IsBest :
    (e : Encoder) (position : ℕ) (best : Option Match)
    → IsBest e.src position best
    → IsBest e.src position (keep_worthwhile e best)
unfolding keep_worthwhile
keep_worthwhile-IsBest e position none h = h
keep_worthwhile-IsBest e position (some found) h = elim (Bool-cases (match_is_worthwhile e found)) [
  | inl good ↦ rw good h
  | inr bad ↦ rw bad tt
]

-- Whatever the hash table and the last distance, `find_match` returns, and a match that it returns
-- repeats earlier bytes of the source, is at least 3 long, at most 65535 back and inside the source.
pub find_match-IsBest :
    (e : Encoder) (position : ℕ)
    → position < length e.src
    → (m : Option Match) × (find_match e position ≡ ok m) × IsBest e.src position m
unfolding find_match
find_match-IsBest e position lt = elim (Bool-cases (ltb (length e.src - position) 3)) [
  | inl short ↦ (none, rw short, tt)
  | inr enough ↦
      let h : position + 3 ≤ length e.src = ground arith in
      let (best, tried, ok_best) = previous_candidate h in
      let (hash, hashed, small) = hash_at_lem e.src position h in
      let found = bucket_at_lem e.table hash small in
      let (best', considered, ok_best') =
        consider_bucket_lem (e.table hash) e position best h ok_best in
      (
        keep_worthwhile e best',
        rw (enough, tried, hashed, found, considered),
        keep_worthwhile-IsBest e position best' ok_best',
      )
]
  where
    previous_candidate :
        position + 3 ≤ length e.src
        → (best : Option Match) × ((if not (e.previous_distance == 0)
                && leb e.previous_distance position
              then consider_candidate e position (position - e.previous_distance) none
              else ok none)
            ≡ ok best)
          × IsBest e.src position best
    previous_candidate h =
        elim (Bool-cases (not (e.previous_distance == 0) && leb e.previous_distance position)) [
          | inl usable ↦
              let (best, considered, kept) =
                consider_candidate_lem e position (position - e.previous_distance) none
                  (ground arith) h tt in
              (best, rw (usable, considered), kept)
          | inr unusable ↦ (none, rw unusable, tt)
        ]

-- Entering positions into the table changes the table alone.
pub insert_position_lem :
    (e : Encoder) (position : ℕ)
    → (table : Table) × (insert_position e position ≡ ok (record e { table = table }))
unfolding insert_position
insert_position_lem e position = elim (Bool-cases (ltb (length e.src - position) 3)) [
  | inl short ↦ (e.table, rw short)
  | inr enough ↦
      let (hash, hashed, small) = hash_at_lem e.src position (ground arith) in
      (
        (λ b. if b == hash then push_front (e.table hash) position else e.table b),
        rw (enough, hashed, bucket_at_lem e.table hash small),
      )
]

pub insert_range_lem :
    (rounds i : ℕ) (e : Encoder)
    → (table : Table) × (insert_range rounds i e ≡ ok (record e { table = table }))
unfolding insert_range
insert_range_lem zero i e = (e.table, refl)
insert_range_lem (suc rounds) i e =
    let (table, inserted) = insert_position_lem e i in
    let (table', rest) = insert_range_lem rounds (i + 1) (record e { table = table }) in
    (table', rw (inserted, rest))
