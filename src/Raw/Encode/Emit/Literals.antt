-- ===== src/Raw/Encode/Emit/Literals.antt =====
-- `emit_literals` and `emit_match_chunks`: what they write, read back by the decoder.
use lzvn.Base.{
  ℕ, zero, suc, ◌+◌, ◌-◌, ◌%◌, ◌≤◌, ◌<◌, ◌≡◌, refl, sym, ap, ◌∙◌, inl, inr, [], ◌∷◌, ◌++◌,
  append-nil, append_assoc, arith, Bytes, length, take, drop, length-append, length-take,
  length-drop, take-append-drop, leb, Bool-cases, some, bit_or,
}
use lzvn.Error.{Result, ok, ◌>>=◌, checked_sub}
use lzvn.Raw.Format.{copy_match, copy_match-add, length-copy_match}
use lzvn.Raw.Opcode.{classify, large_literal, large_match}
use lzvn.Raw.Decode.Steps.{
  step-small_literal, step-large_literal, step-small_match, step-large_match,
}
use lzvn.Raw.Decode.Segment.{Segment, Segment-one, Segment-nil, Segment-append}
use lzvn.Raw.Encode.{Encoder}
use lzvn.Raw.Encode.Emit.{
  append, chunk_len, chunk_code, emit_literals_loop, emit_literals, emit_match_chunks_loop,
  emit_match_chunks, max_literal_len, max_match_len,
}
use lzvn.Raw.Encode.Emit.Codes.{chunk_sum, classify_small_literal, classify_small_match}

-- The writer `r` returns, appends `code` to the output of `e`, and leaves the last distance
-- `previous`; a decoder with the output `out` and the same last distance as `e` reads `code` and
-- comes to `out'` and to `previous`.
pub record Emits (r : Result Encoder) (e : Encoder) (out out' : Bytes) (previous : ℕ) : Type 0 where
  pub code : Bytes
  pub emitted : r ≡ ok (record e { output = e.output ++ code; previous_distance = previous })
  pub segment : Segment code out e.previous_distance out' previous

pub chunk_len_bounds :
    (len limit : ℕ)
    → 16 ≤ limit
    → 0 < len
    → (0 < chunk_len len limit) × (chunk_len len limit ≤ len) × (chunk_len len limit ≤ limit)
unfolding chunk_len
chunk_len_bounds len limit h pos = ground arith

classify_large_literal : classify 0xE0 ≡ some large_literal
unfolding classify
classify_large_literal = refl

classify_large_match : classify 0xF0 ≡ some large_match
unfolding classify
classify_large_match = refl

chunk_literal :
    (literal : Bytes)
    → 0 < length literal
    → length literal ≤ 271
    → (code : Bytes) × (chunk_code 0xE0 (length literal) ≡ ok code)
      × ((out : Bytes) (previous : ℕ)
          → Segment (code ++ literal) out previous (out ++ literal) previous)
unfolding chunk_code
chunk_literal literal pos h = elim (Bool-cases (leb (length literal) 15)) [
  | inl short ↦
      let bound : length literal ≤ 15 = ground arith in
      let code : ℕ = 224 + length literal in
      let written : bit_or 0xE0 (length literal % 256) ≡ code =
        let small : length literal % 256 ≡ length literal = omega arith in
        rw small (chunk_sum 14 (length literal) bound) in
      (
        code ∷ [],
        rw (short, written),
        λ out previous.
            Segment-one (code ∷ literal) out previous (out ++ literal) previous (omega arith)
              (omega (arith, length-append {0} out literal))
              (λ pre todo hole room e.
                step-small_literal pre literal todo out hole room previous
                  (omega (arith, length-append {0} out literal)) code
                  (classify_small_literal _ pos bound) (omega arith)),
      )
  | inr long ↦
      let bound : 16 ≤ length literal = ground arith in
      let extra : ℕ = length literal - 16 in
      let small : extra % 256 ≡ extra = omega arith in
      (
        224 ∷ extra ∷ [],
        rw long (ground (arith, small)),
        λ out previous.
            Segment-one (224 ∷ extra ∷ literal) out previous (out ++ literal) previous (omega arith)
              (omega (arith, length-append {0} out literal))
              (λ pre todo hole room e.
                step-large_literal pre literal todo out hole room previous
                  (omega (arith, length-append {0} out literal)) 224 extra classify_large_literal
                  (omega arith)),
      )
]

chunk_match :
    (n : ℕ)
    → 0 < n
    → n ≤ 271
    → (code : Bytes) × (chunk_code 0xF0 n ≡ ok code)
      × ((out : Bytes) (distance : ℕ)
          → 0 < distance
          → distance ≤ length out
          → Segment code out distance (copy_match n distance out) distance)
unfolding chunk_code
chunk_match n pos h = elim (Bool-cases (leb n 15)) [
  | inl short ↦
      let bound : n ≤ 15 = ground arith in
      let code : ℕ = 240 + n in
      let written : bit_or 0xF0 (n % 256) ≡ code =
        let small : n % 256 ≡ n = omega arith in rw small (chunk_sum 15 n bound) in
      (
        code ∷ [],
        rw (short, written),
        λ out distance p fits.
            Segment-one (code ∷ []) out distance (copy_match n distance out) distance (omega arith)
              (omega (arith, length-copy_match n distance out))
              (λ pre todo hole room e.
                step-small_match pre todo out hole room distance n
                  (omega (arith, length-copy_match n distance out)) p fits code
                  (classify_small_match _ pos bound) (omega arith)),
      )
  | inr long ↦
      let bound : 16 ≤ n = ground arith in
      let extra : ℕ = n - 16 in
      let small : extra % 256 ≡ extra = omega arith in
      (
        240 ∷ extra ∷ [],
        rw long (ground (arith, small)),
        λ out distance p fits.
            Segment-one (240 ∷ extra ∷ []) out distance (copy_match n distance out) distance
              (omega arith) (omega (arith, length-copy_match n distance out))
              (λ pre todo hole room e.
                step-large_match pre todo out hole room distance n
                  (omega (arith, length-copy_match n distance out)) p fits 240 extra
                  classify_large_match (omega arith)),
      )
]

Emits-nil : (e : Encoder) (out : Bytes) → Emits (ok e) e out out e.previous_distance
Emits-nil e out = record {
  code = [];
  emitted = rw append-nil;
  segment = Segment-nil out e.previous_distance;
}

-- One writer after another.
pub Emits-append :
    (r : Result Encoder) (e : Encoder) (f : Encoder → Result Encoder) (out out' out'' : Bytes)
    (previous previous' : ℕ)
    → Emits r e out out' previous
    → ((e' : Encoder) → e'.previous_distance ≡ previous → Emits (f e') e' out' out'' previous')
    → Emits (r >>= f) e out out'' previous'
Emits-append r e f out out' out'' previous previous' first later =
    let e' = record e { output = e.output ++ first.code; previous_distance = previous } in
    let second = later e' refl in
    record {
      code = first.code ++ second.code;
      emitted = rw (first.emitted, second.emitted, append_assoc);
      segment =
          Segment-append first.code second.code out e.previous_distance out' previous out''
            previous' first.segment second.segment;
    }

-- A writer after bytes that keep the last distance.
Emits-append_code :
    (code : Bytes) (r : Result Encoder) (e : Encoder) (out out' out'' : Bytes) (previous : ℕ)
    → Segment code out e.previous_distance out' e.previous_distance
    → Emits r (append e code) out' out'' previous
    → Emits r e out out'' previous
Emits-append_code code r e out out' out'' previous s later = record {
  code = code ++ later.code;
  emitted = rw (later.emitted, append_assoc);
  segment =
      Segment-append code later.code out e.previous_distance out' e.previous_distance out'' previous
        s later.segment;
}

emit_literals_loop_lem :
    (fuel : ℕ) (e : Encoder) (literals out : Bytes)
    → length literals ≤ fuel
    → Emits (emit_literals_loop fuel e literals) e out (out ++ literals) e.previous_distance
unfolding emit_literals_loop
emit_literals_loop_lem zero e [] out h = rw append-nil (Emits-nil e out)
emit_literals_loop_lem (suc fuel) e [] out h = rw append-nil (Emits-nil e out)
emit_literals_loop_lem zero e (x ∷ xs) out h = absurd (omega arith)
emit_literals_loop_lem (suc fuel) e (x ∷ xs) out h =
    let len = chunk_len (length (x ∷ xs)) max_literal_len in
    let (pos, within, bound) = chunk_len_bounds (length (x ∷ xs)) 271 (omega arith) (omega arith) in
    let literal : Bytes = take len (x ∷ xs) in
    let rest : Bytes = drop len (x ∷ xs) in
    let size : length literal ≡ len = omega (arith, length-take {0} len (x ∷ xs)) in
    let (code, coded, segment) = chunk_literal literal (omega arith) (omega arith) in
    let joined : (out ++ literal) ++ rest ≡ out ++ (x ∷ xs) =
      rw (append_assoc out literal rest, take-append-drop len (x ∷ xs)) in
    rw (← joined, ap (chunk_code 0xE0) (sym size) ∙ coded)
      (Emits-append_code (code ++ literal) _ e out (out ++ literal) ((out ++ literal) ++ rest)
        e.previous_distance (segment out e.previous_distance)
        (emit_literals_loop_lem fuel (append e (code ++ literal)) rest (out ++ literal)
          (omega (arith, length-drop {0} len (x ∷ xs)))))

-- `emit_literals` writes code that the decoder reads back as the literals.
pub emit_literals-Emits :
    (e : Encoder) (literals out : Bytes)
    → Emits (emit_literals e literals) e out (out ++ literals) e.previous_distance
unfolding emit_literals
emit_literals-Emits e literals out =
    emit_literals_loop_lem (length literals) e literals out (omega arith)

emit_match_chunks_loop_lem :
    (fuel : ℕ) (e : Encoder) (match_len : ℕ) (out : Bytes)
    → match_len ≤ fuel
    → 0 < e.previous_distance
    → e.previous_distance ≤ length out
    → Emits
        (emit_match_chunks_loop fuel e match_len)
        e
        out
        (copy_match match_len e.previous_distance out)
        e.previous_distance
unfolding emit_match_chunks_loop
emit_match_chunks_loop_lem zero e zero out h pos fits = unfold copy_match in Emits-nil e out
emit_match_chunks_loop_lem (suc fuel) e zero out h pos fits = unfold copy_match in Emits-nil e out
emit_match_chunks_loop_lem zero e (suc n) out h pos fits = absurd (omega arith)
emit_match_chunks_loop_lem (suc fuel) e (suc n) out h pos fits =
    let len = chunk_len (suc n) max_match_len in
    let (len_pos, within, bound) = chunk_len_bounds (suc n) 271 (omega arith) (omega arith) in
    let (code, coded, segment) = chunk_match len len_pos bound in
    let copied = copy_match len e.previous_distance out in
    let parts : suc n ≡ len + (suc n - len) = omega arith in
    let joined : copy_match (suc n) e.previous_distance out
        ≡ copy_match (suc n - len) e.previous_distance copied =
      ap (λ m. copy_match m e.previous_distance out) parts
      ∙ copy_match-add len (suc n - len) e.previous_distance out in
    let left : checked_sub (suc n) len ≡ ok (suc n - len) = ground arith in
    rw (joined, coded, left)
      (Emits-append_code code _ e out copied _ e.previous_distance
        (segment out e.previous_distance pos fits)
        (emit_match_chunks_loop_lem fuel (append e code) (suc n - len) copied (omega arith) pos
          (omega (arith, length-copy_match len e.previous_distance out))))

-- `emit_match_chunks` writes code that the decoder reads back as a match at the last distance.
pub emit_match_chunks-Emits :
    (e : Encoder) (match_len : ℕ) (out : Bytes)
    → 0 < e.previous_distance
    → e.previous_distance ≤ length out
    → Emits
        (emit_match_chunks e match_len)
        e
        out
        (copy_match match_len e.previous_distance out)
        e.previous_distance
unfolding emit_match_chunks
emit_match_chunks-Emits e match_len out pos fits =
    emit_match_chunks_loop_lem match_len e match_len out (omega arith) pos fits
