-- ===== src/Raw/StreamDecoder/Loop/Refine.antt =====
-- One instruction of `RawDecoder` against the instruction that the whole-buffer decoder reads there.
use lzvn.Base.{
  ℕ, ◌+◌, ◌≡◌, sym, ap, ◌∙◌, ◌⊎◌, inl, inr, [], ◌++◌, append-nil, arith, Bytes, length-drop,
  length-take, take, drop, drop-drop, take-append-drop, drop-append_left, nothing_of_length, ◌==◌,
  Bool-cases,
}
use lzvn.Error.{ok}
use lzvn.Raw.Format.{copy_match}
use lzvn.Raw.Code.{Code}
use lzvn.Raw.Decode.{Decoder, run}
use lzvn.Raw.Decode.View.{at}
use lzvn.Raw.Decode.Codes.{Follows}
use lzvn.Raw.StreamDecoder.{RawDecoder, Pending}
use lzvn.Raw.StreamDecoder.Copies.{unread, Moved}
use lzvn.Raw.StreamDecoder.Loop.Arms.{Prepared}
use lzvn.Raw.StreamDecoder.Loop.Track.{Tracks, copy_match-distance}

-- The bytes that are not read, fed or not.
abbrev pub ahead : Bytes → RawDecoder → Bytes
ahead unfed d = unread d ++ unfed

-- The whole-buffer decoder's next instruction, where nothing is pending.
pub record Opens (final : Decoder) (unfed : Bytes) (d : RawDecoder) : Type 0 where
  pub pre : Bytes
  pub room : Bytes
  pub fuel : ℕ
  pub runs : run fuel (at pre (ahead unfed d) d.history room d.previous_distance) ≡ ok final

pub Tracks-Opens :
    (final : Decoder) (unfed : Bytes) (d : RawDecoder)
    → Tracks final unfed d
    → d.pending.literal ≡ 0
    → d.pending.match ≡ 0
    → Opens final unfed d
unfolding copy_match
Tracks-Opens final unfed d t no_literal no_match =
    let empty : t.literal ≡ [] = nothing_of_length t.literal (t.literal_is ∙ no_literal) in
    let todo_is : ahead unfed d ≡ t.todo = t.input_is ∙ ap (λ l. l ++ t.todo) empty in
    let out_is : copy_match d.pending.match d.pending.distance (d.history ++ t.literal)
        ≡ d.history =
      ap (λ n. copy_match n d.pending.distance (d.history ++ t.literal)) no_match
      ∙ ap (λ l. d.history ++ l) empty
      ∙ append-nil d.history in
    record {
      pre = t.pre;
      room = t.room;
      fuel = t.fuel;
      runs =
          ap (λ todo. run t.fuel (at t.pre todo d.history t.room d.previous_distance)) todo_is
          ∙ ap (λ out. run t.fuel (at t.pre t.todo out t.room d.previous_distance)) (sym out_is)
          ∙ t.runs;
    }

pub Moved-Tracks :
    (final : Decoder) (unfed : Bytes) (d d' : RawDecoder)
    → Tracks final unfed d
    → Moved d d' 0 []
    → d'.pending ≡ d.pending
    → d'.previous_distance ≡ d.previous_distance
    → Tracks final unfed d'
Moved-Tracks final unfed d d' t m pending_is previous_is =
    let same : d'.history ≡ d.history = m.history_is ∙ append-nil d.history in
    record {
      pre = t.pre;
      todo = t.todo;
      room = t.room;
      literal = t.literal;
      fuel = t.fuel;
      input_is = ap (λ x. x ++ unfed) m.unread_is ∙ t.input_is;
      literal_is = t.literal_is ∙ sym (ap (λ (q : Pending). q.literal) pending_is);
      runs = rw (same, pending_is, previous_is) t.runs;
    }

pub Prepared-Tracks :
    (final s : Decoder) (unfed pre : Bytes) (fuel : ℕ) (d d' : RawDecoder) (c : Code)
    → Prepared c d d'
    → Follows c pre (ahead unfed d) d.history s
    → run fuel s ≡ ok final
    → Tracks final unfed d'
Prepared-Tracks final s unfed pre fuel d d' c p f runs =
    let todo = ahead unfed d in
    let literal = take c.literal (drop c.size todo) in
    let same : d'.history ≡ d.history = p.moved.history_is ∙ append-nil d.history in
    let copied : copy_match d'.pending.match d'.pending.distance (d'.history ++ literal)
        ≡ copy_match c.match c.distance (d.history ++ literal) =
      ap (λ h. copy_match d'.pending.match d'.pending.distance (h ++ literal)) same
      ∙ ap (λ n. copy_match n d'.pending.distance (d.history ++ literal)) p.match_is
      ∙ copy_match-distance c.match c.distance d'.pending.distance (d.history ++ literal) which in
    record {
      pre = pre ++ take (c.size + c.literal) todo;
      todo = drop (c.size + c.literal) todo;
      room = f.room;
      literal = literal;
      fuel = fuel;
      input_is =
          ap (λ x. x ++ unfed) p.moved.unread_is
          ∙ sym (drop-append_left (unread d) unfed c.size (omega (arith, p.buffers)))
          ∙ sym (take-append-drop c.literal (drop c.size todo))
          ∙ ap (λ x. literal ++ x) (drop-drop todo c.size c.literal);
      literal_is = omega (
        arith,
        length-take {0} c.literal (drop c.size todo),
        length-drop {0} c.size todo,
        f.needs,
        p.literal_is,
      );
      runs = rw (copied, p.previous_is) (ap (run fuel) (sym f.state_is) ∙ runs);
    }
  where
    which : (c.distance ≡ d'.pending.distance) ⊎ (c.match ≡ 0)
    which = elim (Bool-cases (c.match == 0)) [
      | inl nothing ↦ inr (ground arith)
      | inr some_match ↦ inl (sym (p.distance_is (ground arith)))
    ]
