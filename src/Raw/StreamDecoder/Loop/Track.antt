-- ===== src/Raw/StreamDecoder/Loop/Track.antt =====
-- `RawDecoder` against the whole-buffer decoder: while that has a run that succeeds, the streaming one
-- is never refused and stays on the same way, one instruction behind at most.
use lzvn.Base.{
  ℕ, zero, suc, ◌+◌, ◌-◌, ◌≤◌, ◌≡◌, refl, sym, ap, ◌∙◌, ◌⊎◌, inl, inr, [], ◌++◌, append-nil,
  append_assoc, arith, Bytes, length, length-drop, take, drop, take-append-drop, drop-append_left,
  take-append_left, nothing_of_length,
}
use lzvn.Error.{ok}
use lzvn.Raw.Format.{copy_match, copy_match-add}
use lzvn.Raw.Decode.{Decoder, run}
use lzvn.Raw.Decode.View.{at}
use lzvn.Raw.StreamDecoder.{RawDecoder, Pending}
use lzvn.Raw.StreamDecoder.Copies.{unread, Moved}

-- The whole-buffer decoder has a state behind the pending copies from which it comes to `final`; the
-- literal that is still to be copied is `literal`, and `unfed` are the bytes that are not fed.
pub record Tracks (final : Decoder) (unfed : Bytes) (d : RawDecoder) : Type 0 where
  pub pre : Bytes
  pub todo : Bytes
  pub room : Bytes
  pub literal : Bytes
  pub fuel : ℕ
  pub input_is : unread d ++ unfed ≡ literal ++ todo
  pub literal_is : length literal ≡ d.pending.literal
  pub runs :
      run fuel (
        at pre todo
          (copy_match d.pending.match d.pending.distance (d.history ++ literal))
          room
          d.previous_distance)
      ≡ ok final

pub literal_Tracks :
    (final : Decoder) (unfed : Bytes) (d d' : RawDecoder) (count : ℕ)
    → Tracks final unfed d
    → count ≤ d.pending.literal
    → d.pending.literal ≤ length (unread d)
    → Moved d d' count (take count (unread d))
    → d'.pending ≡ record d.pending { literal = d.pending.literal - count }
    → d'.previous_distance ≡ d.previous_distance
    → Tracks final unfed d'
literal_Tracks final unfed d d' count t h inside moved pending_is previous_is =
    let same : take count (unread d) ≡ take count t.literal =
      sym (take-append_left (unread d) unfed count (omega arith))
      ∙ ap (take count) t.input_is
      ∙ take-append_left t.literal t.todo count (omega (arith, t.literal_is)) in
    let history_is : d'.history ++ drop count t.literal ≡ d.history ++ t.literal =
      ap (λ x. x ++ drop count t.literal) (moved.history_is ∙ ap (λ x. d.history ++ x) same)
      ∙ append_assoc d.history (take count t.literal) (drop count t.literal)
      ∙ ap (λ x. d.history ++ x) (take-append-drop count t.literal) in
    record {
      pre = t.pre;
      todo = t.todo;
      room = t.room;
      literal = drop count t.literal;
      fuel = t.fuel;
      input_is =
          ap (λ x. x ++ unfed) moved.unread_is
          ∙ sym (drop-append_left (unread d) unfed count (omega arith))
          ∙ ap (drop count) t.input_is
          ∙ drop-append_left t.literal t.todo count (omega (arith, t.literal_is));
      literal_is = omega (
        arith,
        length-drop {0} count t.literal,
        t.literal_is,
        ap (λ (q : Pending). q.literal) pending_is,
      );
      runs =
          rw
            (
              history_is,
              previous_is,
              ap (λ (q : Pending). q.match) pending_is,
              ap (λ (q : Pending). q.distance) pending_is,
            )
            t.runs;
    }

-- An empty match has any distance.
pub copy_match-distance :
    (n distance distance' : ℕ) (out : Bytes)
    → ((distance ≡ distance') ⊎ (n ≡ 0))
    → copy_match n distance' out ≡ copy_match n distance out
unfolding copy_match
copy_match-distance n distance distance' out (inl same) = ap (λ x. copy_match n x out) (sym same)
copy_match-distance zero distance distance' out (inr nothing) = refl
copy_match-distance (suc n) distance distance' out (inr nothing) = absurd (omega arith)

pub match_Tracks :
    (final : Decoder) (unfed : Bytes) (d : RawDecoder) (bytes : Bytes) (count distance : ℕ)
    → Tracks final unfed d
    → d.pending.literal ≡ 0
    → count ≤ d.pending.match
    → copy_match count d.pending.distance d.history ≡ d.history ++ bytes
    → ((distance ≡ d.pending.distance) ⊎ (count ≡ d.pending.match))
    → Tracks final unfed (record d {
      history = d.history ++ bytes;
      pending = record {
        literal = d.pending.literal;
        match = d.pending.match - count;
        distance = distance;
      };
    })
match_Tracks final unfed d bytes count distance t no_literal h copied which =
    let empty : t.literal ≡ [] = nothing_of_length t.literal (t.literal_is ∙ no_literal) in
    let split : d.pending.match ≡ count + (d.pending.match - count) = omega arith in
    let whole : copy_match d.pending.match d.pending.distance (d.history ++ t.literal)
        ≡ copy_match (d.pending.match - count) d.pending.distance
            ((d.history ++ bytes) ++ t.literal) =
      ap (λ l. copy_match d.pending.match d.pending.distance (d.history ++ l)) empty
      ∙ ap (copy_match d.pending.match d.pending.distance) (append-nil d.history)
      ∙ ap (λ n. copy_match n d.pending.distance d.history) split
      ∙ copy_match-add count (d.pending.match - count) d.pending.distance d.history
      ∙ ap (copy_match (d.pending.match - count) d.pending.distance) copied
      ∙ ap (copy_match (d.pending.match - count) d.pending.distance)
          (sym (ap (λ l. (d.history ++ bytes) ++ l) empty ∙ append-nil (d.history ++ bytes))) in
    record {
      pre = t.pre;
      todo = t.todo;
      room = t.room;
      literal = t.literal;
      fuel = t.fuel;
      input_is = t.input_is;
      literal_is = t.literal_is;
      runs =
          ap (λ o. run t.fuel (at t.pre t.todo o t.room d.previous_distance))
            (sym (copy_match-distance _ _ _ _ which') ∙ sym whole)
          ∙ t.runs;
    }
  where
    which' : (distance ≡ d.pending.distance) ⊎ (d.pending.match - count ≡ 0)
    which' = elim which [ inl same ↦ inl same | inr all ↦ inr (omega arith) ]
