-- ===== src/Raw/Encode/Emit/Inline.antt =====
-- `emit_match_with_literals`: literals and a match of any length and distance, read back by the
-- decoder.
use lzvn.Base.{
  ℕ, ◌+◌, ◌-◌, ◌*◌, ◌^◌, ◌≤◌, ◌<◌, min, ◌≡◌, refl, ap, ◌∙◌, inl, inr, false, [], ◌∷◌, ◌++◌,
  append_assoc, append-nil, arith, Bytes, length, take, drop, length-append, length-take,
  length-drop, take-append-drop, leb, ltb, ◌==◌, ◌&&◌, Bool-cases,
}
use lzvn.Error.{Result, ok, ◌>>=◌, checked_sub, slice, slice-append}
use lzvn.Raw.Format.{copy_match, copy_match-add, length-copy_match}
use lzvn.Raw.Decode.Segment.{Segment-append}
use lzvn.Raw.Encode.{Encoder, max_short_distance}
use lzvn.Raw.Encode.Emit.{
  append, max_short_match, max_medium_distance, max_medium_match, with_initial, emit_initial,
  emit_remaining, emit_match_inline, emit_match_with_literals, emit_literals,
}
use lzvn.Raw.Encode.Emit.Literals.{
  Emits, Emits-append, emit_literals-Emits, emit_match_chunks-Emits,
}
use lzvn.Raw.Encode.Emit.Matches.{
  WritesMatch, emit_small_distance-WritesMatch, emit_medium_distance-WritesMatch,
  emit_large_distance-WritesMatch, emit_previous_distance-WritesMatch,
}

eq_nil : (xs : Bytes) → length xs ≡ 0 → xs ≡ []
eq_nil [] h = refl
eq_nil (x ∷ xs) h = absurd (omega arith)

module _ (e : Encoder) (inline out : Bytes) (match_len distance : ℕ) (short : length inline ≤ 3)
    (lo : 3 ≤ match_len) (pos : 0 < distance) (wide : distance < 2 ^ 16)
    (fits : distance ≤ length out + length inline) where
  -- The first part of a match, and the chunks for the rest of it.
  emit_remaining-Emits :
      (r : Result Encoder) (initial : ℕ)
      → initial ≤ match_len
      → WritesMatch r e inline initial distance out
      → Emits
          (with_initial initial r >>= emit_remaining match_len distance)
          e
          out
          (copy_match match_len distance (out ++ inline))
          distance
  unfolding emit_remaining
  emit_remaining-Emits r initial h w =
      let e' = record (append e w.code) { previous_distance = distance } in
      let copied = copy_match initial distance (out ++ inline) in
      let later = emit_match_chunks-Emits e' (match_len - initial) copied pos (
        omega (
          arith,
          length-copy_match initial distance (out ++ inline),
          length-append {0} out inline,
        )) in
      let left : checked_sub match_len initial ≡ ok (match_len - initial) = ground arith in
      let parts : match_len ≡ initial + (match_len - initial) = omega arith in
      let whole : copy_match match_len distance (out ++ inline)
          ≡ copy_match (match_len - initial) distance copied =
        ap (λ m. copy_match m distance (out ++ inline)) parts
        ∙ copy_match-add initial (match_len - initial) distance (out ++ inline) in
      record {
        code = w.code ++ later.code;
        emitted = rw (w.written, left, later.emitted, append_assoc);
        segment = rw whole (
            Segment-append w.code later.code out e.previous_distance copied distance
              (copy_match (match_len - initial) distance copied) distance w.segment later.segment);
      }

  emit_initial-Emits :
      (distance == e.previous_distance && length inline == 0) ≡ false
      → Emits
          (emit_initial e inline (10 - length inline * 2) match_len distance
            >>= emit_remaining match_len distance)
          e
          out
          (copy_match match_len distance (out ++ inline))
          distance
  unfolding emit_initial
  emit_initial-Emits not_bare =
      let limit = 10 - length inline * 2 in
      let short_len = min match_len limit in
      elim (Bool-cases (distance == e.previous_distance)) [
        | inl same ↦ rw same (
            emit_remaining-Emits _ short_len (omega arith) (
              emit_previous_distance-WritesMatch e inline short_len distance out short (omega arith)
                pos fits (omega arith) (ground arith) (ground arith)))
        | inr other ↦ elim (Bool-cases (leb distance max_medium_distance && ltb limit match_len)) [
          | inl medium ↦
              rw (other, medium)
                (emit_remaining-Emits _ (min match_len max_medium_match) (omega arith) (
                  emit_medium_distance-WritesMatch e inline (min match_len max_medium_match)
                    distance out short (omega arith) pos fits (omega arith) (ground arith)))
          | inr not_medium ↦ elim (Bool-cases (ltb distance max_short_distance)) [
            | inl near ↦
                rw (other, not_medium, near)
                  (emit_remaining-Emits _ short_len (omega arith) (
                    emit_small_distance-WritesMatch e inline short_len distance out short
                      (omega arith) pos fits (omega arith) (ground arith)))
            | inr far ↦
                rw (other, not_medium, far)
                  (emit_remaining-Emits _ short_len (omega arith) (
                    emit_large_distance-WritesMatch e inline short_len distance out short
                      (omega arith) pos fits (omega arith) wide))
          ]
        ]
      ]

  pub emit_match_inline-Emits :
      Emits
        (emit_match_inline e inline match_len distance)
        e
        out
        (copy_match match_len distance (out ++ inline))
        distance
  unfolding emit_match_inline max_short_match
  emit_match_inline-Emits =
      let limit_ok : checked_sub 10 (length inline * 2) ≡ ok (10 - length inline * 2) =
        ground arith in
      elim (Bool-cases (distance == e.previous_distance && length inline == 0)) [
        | inl bare ↦
            let same : e.previous_distance ≡ distance = ground arith in
            let none_inline : inline ≡ [] = eq_nil inline (ground arith) in
            rw (limit_ok, bare, none_inline, append-nil, ← same)
              (emit_match_chunks-Emits e match_len out (omega arith)
                (omega (arith, ap length none_inline)))
        | inr not_bare ↦ rw (limit_ok, not_bare) (emit_initial-Emits not_bare)
      ]

slice_front : (xs : Bytes) (n : ℕ) → n ≤ length xs → slice xs 0 n ≡ ok (take n xs)
slice_front xs n h =
    rw (take-append-drop n xs) at
      (slice-append [] (take n xs) (drop n xs) 0 n refl (omega (arith, length-take {0} n xs)))

slice_back : (xs : Bytes) (n : ℕ) → n ≤ length xs → slice xs n (length xs) ≡ ok (drop n xs)
slice_back xs n h =
    rw (append-nil (drop n xs), take-append-drop n xs) at
      (slice-append (take n xs) (drop n xs) [] n (length xs) (omega (arith, length-take {0} n xs))
        (omega (arith, length-drop {0} n xs)))

-- Whatever the literals, `emit_match_with_literals` returns, and the decoder reads back the literals
-- and the match from what it has written.
pub emit_match_with_literals-Emits :
    (e : Encoder) (literals out : Bytes) (match_len distance : ℕ)
    → 3 ≤ match_len
    → 0 < distance
    → distance < 2 ^ 16
    → distance ≤ length out + length literals
    → Emits
        (emit_match_with_literals e literals match_len distance)
        e
        out
        (copy_match match_len distance (out ++ literals))
        distance
unfolding emit_match_with_literals
emit_match_with_literals-Emits e literals out match_len distance lo pos wide fits =
    let n = length literals - 3 in
    let front : Bytes = take n literals in
    let inline : Bytes = drop n literals in
    let joined : (out ++ front) ++ inline ≡ out ++ literals =
      rw (append_assoc out front inline, take-append-drop n literals) in
    rw (slice_front literals n (omega arith), slice_back literals n (omega arith), ← joined)
      (Emits-append (emit_literals e front) e (λ e'. emit_match_inline e' inline match_len distance)
        out (out ++ front) (copy_match match_len distance ((out ++ front) ++ inline))
        e.previous_distance distance (emit_literals-Emits e front out)
        (λ e' same.
          emit_match_inline-Emits e' inline (out ++ front) match_len distance
            (omega (arith, length-drop {0} n literals)) lo pos wide
            (omega (
              arith,
              length-append {0} out front,
              length-take {0} n literals,
              length-drop {0} n literals,
            ))))
