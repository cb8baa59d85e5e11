-- ===== src/Raw/Format.antt =====
-- The meaning of an LZVN match on lists, which the decoder's buffers and the encoder's source are
-- both compared with. It models no code of its own.
use lzvn.Base.{
  ℕ, zero, suc, ◌+◌, ◌-◌, ◌≤◌, ◌<◌, ◌≡◌, sym, ap, ◌∙◌, [], ◌∷◌, ◌++◌, append-nil, append_assoc,
  arith, Bytes, length, length-append, get_or, take, take-suc, get_or-take, length-take,
}

-- `match_len` times, append the byte that stands `distance` before the end.
unfoldable pub copy_match : ℕ → ℕ → Bytes → Bytes
copy_match zero distance out = out
copy_match (suc match_len) distance out =
    copy_match match_len distance (out ++ (get_or out (length out - distance) 0 ∷ []))

pub length-copy_match :
    (match_len distance : ℕ) (out : Bytes)
    → length (copy_match match_len distance out) ≡ length out + match_len
unfolding copy_match
length-copy_match zero distance out = omega arith
length-copy_match (suc match_len) distance out =
    let byte = get_or out (length out - distance) 0 in
    omega (
      arith,
      length-append {0} out (byte ∷ []),
      length-copy_match match_len distance (out ++ (byte ∷ [])),
    )

-- A match may be written in two parts.
pub copy_match-add :
    (a b distance : ℕ) (out : Bytes)
    → copy_match (a + b) distance out ≡ copy_match b distance (copy_match a distance out)
unfolding copy_match
copy_match-add zero b distance out =
    let zero_add : zero + b ≡ b = omega arith in ap (λ n. copy_match n distance out) zero_add
copy_match-add (suc a) b distance out =
    let suc_add : suc a + b ≡ suc (a + b) = omega arith in
    ap (λ n. copy_match n distance out) suc_add
    ∙ copy_match-add a b distance (out ++ (get_or out (length out - distance) 0 ∷ []))

-- Where `src` repeats itself `distance` back, copying a prefix of it makes a longer prefix.
pub copy_match-take :
    (n distance position : ℕ) (src : Bytes)
    → 0 < distance
    → distance ≤ position
    → position + n ≤ length src
    → ((i : ℕ) → i < n → get_or src (position - distance + i) 0 ≡ get_or src (position + i) 0)
    → copy_match n distance (take position src) ≡ take (position + n) src
unfolding copy_match
copy_match-take zero distance position src pos back inside agree =
    let same : position + zero ≡ position = omega arith in rw same
copy_match-take (suc n) distance position src pos back inside agree =
    let out = take position src in
    let from : length out - distance ≡ position - distance =
      omega (arith, length-take {0} position src) in
    let byte : get_or out (position - distance) 0 ≡ get_or src position 0 =
      get_or-take src position (position - distance) 0 (omega arith)
      ∙ ground (arith, agree 0 (omega arith)) in
    let next : position + suc n ≡ suc position + n = omega arith in
    rw (from, byte, ← take-suc src position 0 (omega arith), next)
      (copy_match-take n distance (suc position) src pos (omega arith) (omega arith)
        (λ i h. shifted i (agree (suc i) (omega arith))))
  where
    shifted :
        (i : ℕ)
        → get_or src (position - distance + suc i) 0 ≡ get_or src (position + suc i) 0
        → get_or src (suc position - distance + i) 0 ≡ get_or src (suc position + i) 0
    shifted i e =
        let a : suc position - distance + i ≡ position - distance + suc i = omega arith in
        let b : suc position + i ≡ position + suc i = omega arith in rw (a, b) e

-- A match only adds to what is there.
pub copy_match-extends :
    (n distance : ℕ) (out : Bytes) → (copied : Bytes) × (copy_match n distance out ≡ out ++ copied)
unfolding copy_match
copy_match-extends zero distance out = ([], sym (append-nil out))
copy_match-extends (suc n) distance out =
    let byte = get_or out (length out - distance) 0 ∷ [] in
    let (copied, copied_is) = copy_match-extends n distance (out ++ byte) in
    (byte ++ copied, copied_is ∙ append_assoc out byte copied)
