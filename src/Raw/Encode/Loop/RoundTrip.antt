-- ===== src/Raw/Encode/Loop/RoundTrip.antt =====
-- The encoder's main loop keeps an output that decodes to a prefix of the source, and so `encode`
-- is undone by `decode`.
use mathlib.Core.Path.{subst}
use lzvn.Base.{
  ℕ, zero, suc, ◌+◌, ◌-◌, ◌≤◌, ◌<◌, ◌≡◌, refl, ap, ◌∙◌, inl, inr, false, Option, none, some, [],
  ◌∷◌, ◌++◌, arith, Bytes, length, take, drop, length-append, length-take, take-append-take,
  take-length, ltb, Bool-cases,
}
use lzvn.Error.{Result, ok, ◌>>=◌, slice}
use lzvn.Raw.Format.{copy_match, copy_match-take}
use lzvn.Raw.Decode.{decode, any_nonzero}
use lzvn.Raw.Decode.Segment.{Segment, Segment-nil, Segment-append, decode-Segment}
use lzvn.Raw.Encode.{Match, Encoder, new}
use lzvn.Raw.Encode.Find.{IsMatch, IsBest, find_match-IsBest, insert_position_lem, insert_range_lem}
use lzvn.Raw.Encode.Emit.Literals.{emit_literals-Emits}
use lzvn.Raw.Encode.Emit.Inline.{emit_match_with_literals-Emits}
use lzvn.Raw.Encode.Loop.{
  eos_marker, emit_match, emit_literals_from_source, advance, encode_loop, finish, encode,
}

-- All before `literal_start` is written: the output decodes to it.
pub record IsValid (src : Bytes) (e : Encoder) : Type 0 where
  pub src_is : e.src ≡ src
  pub start_le : e.literal_start ≤ e.position
  pub position_le : e.position ≤ length src
  pub segment : Segment e.output [] 0 (take e.literal_start src) e.previous_distance

pub new-IsValid : (src : Bytes) → IsValid src (new src)
unfolding new
new-IsValid src = record {
  src_is = refl;
  start_le = omega arith;
  position_le = omega arith;
  segment = Segment-nil [] 0;
}

pub slice-range :
    (src : Bytes) (start end : ℕ)
    → start ≤ end
    → end ≤ length src
    → slice src start end ≡ ok (take (end - start) (drop start src))
slice-range src start end h k = ground arith

take-slice :
    (src : Bytes) (start end : ℕ)
    → start ≤ end
    → take start src ++ take (end - start) (drop start src) ≡ take end src
take-slice src start end h =
    let whole : start + (end - start) ≡ end = omega arith in
    take-append-take src start (end - start) ∙ ap (λ n. take n src) whole

-- The branch of the loop that writes a match.
advance-some :
    (e : Encoder) (m : Match)
    → IsValid e.src e
    → IsMatch e.src e.position m
    → (e' : Encoder) × (advance e (some m) ≡ ok e') × IsValid e.src e' × (e.position < e'.position)
unfolding advance emit_match
advance-some e m v found =
    let literals : Bytes = take (e.position - e.literal_start) (drop e.literal_start e.src) in
    let out : Bytes = take e.literal_start e.src in
    let cut = slice-range e.src e.literal_start e.position v.start_le v.position_le in
    let joined : out ++ literals ≡ take e.position e.src =
      take-slice e.src e.literal_start e.position v.start_le in
    let w =
      emit_match_with_literals-Emits e literals out m.length m.distance found.long found.pos
        (omega (arith, found.wide))
        (omega (
          arith,
          length-append {0} out literals,
          ap length joined,
          length-take {0} e.position e.src,
          found.back,
          v.position_le,
        )) in
    let e' = record e { output = e.output ++ w.code; previous_distance = m.distance } in
    let (table, inserted) = insert_range_lem m.length e.position e' in
    let copied : copy_match m.length m.distance (out ++ literals)
        ≡ take (e.position + m.length) e.src =
      ap (copy_match m.length m.distance) joined
      ∙ copy_match-take m.length m.distance e.position e.src found.pos found.back found.inside
          found.agree in
    let match_end = e.position + m.length in
    (
      record e' { table = table; position = match_end; literal_start = match_end },
      rw (cut, w.emitted, inserted),
      record {
        src_is = refl;
        start_le = omega arith;
        position_le = found.inside;
        segment = rw (← copied) (
            Segment-append e.output w.code [] 0 out e.previous_distance
              (copy_match m.length m.distance (out ++ literals)) m.distance v.segment w.segment);
      },
      omega (arith, found.long),
    )

-- The branch that leaves a byte for a later literal.
advance-none :
    (e : Encoder)
    → IsValid e.src e
    → e.position < length e.src
    → (e' : Encoder) × (advance e none ≡ ok e') × IsValid e.src e' × (e.position < e'.position)
unfolding advance
advance-none e v h =
    let (table, inserted) = insert_position_lem e e.position in
    (
      record e { table = table; position = e.position + 1 },
      rw inserted,
      record {
        src_is = refl;
        start_le = omega (arith, v.start_le);
        position_le = omega arith;
        segment = v.segment;
      },
      omega arith,
    )

-- What one round of the loop leaves, for the source `src`.
abbrev Advances : Encoder → Option Match → Bytes → Type 0
Advances e best src =
    (e' : Encoder) × (advance e best ≡ ok e') × IsValid src e' × (e.position < e'.position)

advance_lem :
    (src : Bytes) (e : Encoder) (best : Option Match)
    → IsValid src e
    → e.position < length src
    → IsBest src e.position best
    → Advances e best src
advance_lem src e none v h b =
    subst (λ s. IsValid s e → e.position < length s → Advances e none s) v.src_is (advance-none e) v
      h
advance_lem src e (some m) v h b =
    subst (λ s. IsValid s e → IsMatch s e.position m → Advances e (some m) s) v.src_is
      (advance-some e m) v b

encode_loop_lem :
    (fuel : ℕ) (src : Bytes) (e : Encoder)
    → IsValid src e
    → length src ≤ e.position + fuel
    → (e' : Encoder) × (encode_loop fuel e ≡ ok e') × IsValid src e'
unfolding encode_loop
encode_loop_lem zero src e v h =
    let over : ltb e.position (length e.src) ≡ false = rw v.src_is (ground arith) in (e, rw over, v)
encode_loop_lem (suc fuel) src e v h = elim (Bool-cases (ltb e.position (length e.src))) [
  | inr over ↦ (e, ground arith, v)
  | inl inside ↦
      let before : e.position < length e.src = ground arith in
      let (best, found, is_best) = find_match-IsBest e e.position before in
      let (e', advanced, v', further) =
        advance_lem src e best v (rw v.src_is at before)
          (subst (λ s. IsBest s e.position best) v.src_is is_best) in
      let (e'', rest, v'') = encode_loop_lem fuel src e' v' (omega arith) in
      (e'', ground (arith, inside, found, advanced, rest), v'')
]

-- The literals that are left and the end marker.
abbrev close : Encoder → Result Bytes
close e = do
  e' ← emit_literals_from_source e e.literal_start (length e.src)
  ok (e'.output ++ eos_marker)

abbrev Decodes : Result Bytes → Bytes → Type 0
Decodes r src = (bytes : Bytes) × (r ≡ ok bytes) × (decode bytes (length src) ≡ ok src)

close-Decodes : (e : Encoder) → IsValid e.src e → Decodes (close e) e.src
unfolding emit_literals_from_source any_nonzero
close-Decodes e v =
    let end = length e.src in
    let out : Bytes = take e.literal_start e.src in
    let literals : Bytes = take (end - e.literal_start) (drop e.literal_start e.src) in
    let start_le : e.literal_start ≤ end = omega (arith, v.start_le, v.position_le) in
    let cut = slice-range e.src e.literal_start end start_le (omega arith) in
    let joined : out ++ literals ≡ e.src =
      take-slice e.src e.literal_start end start_le ∙ take-length end e.src (omega arith) in
    let w = emit_literals-Emits e literals out in
    let whole =
      Segment-append e.output w.code [] 0 out e.previous_distance (out ++ literals)
        e.previous_distance v.segment w.segment in
    (
      (e.output ++ w.code) ++ eos_marker,
      rw (cut, w.emitted),
      decode-Segment (e.output ++ w.code) (0 ∷ 0 ∷ 0 ∷ 0 ∷ 0 ∷ 0 ∷ 0 ∷ []) e.src e.previous_distance
          (rw joined at whole) refl (omega arith),
    )

-- On every source `encode` returns, and `decode` with the length of the source gives the source back.
pub decode-encode : (src : Bytes) → Decodes (encode src) src
unfolding encode finish new
decode-encode src =
    let (e, looped, v) =
      encode_loop_lem (length src) src (new src) (new-IsValid src) (omega arith) in
    let (bytes, closed, decoded) =
      subst (λ s. IsValid s e → Decodes (close e) s) v.src_is (close-Decodes e) v in
    (bytes, rw (looped, closed), decoded)
