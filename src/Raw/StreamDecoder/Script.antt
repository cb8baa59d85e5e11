-- ===== src/Raw/StreamDecoder/Script.antt =====
-- A client's calls of `RawDecoder`, in any order, and what they come to. It models no code of its own.
use lzvn.Base.{
  ◌≡◌, refl, sym, ap, ◌∙◌, Bool, true, false, List, [], ◌∷◌, ◌++◌, append-nil, append_assoc, arith,
  Bytes, length, take,
}
use lzvn.Error.{Error, Result, ok, ◌>>=◌, Returns, Returns-map, Returns-bind, Any}
use lzvn.Stream.{StreamProgress}
use lzvn.Raw.Format.{copy_match-extends}
use lzvn.Raw.Decode.{Decoder}
use lzvn.Raw.Decode.Inversion.{run_extends}
use lzvn.Raw.StreamDecoder.{RawDecoder, feed, finish_input}
use lzvn.Raw.StreamDecoder.Loop.{decode_into}
use lzvn.Raw.StreamDecoder.Loop.Sound.{IsSound}
use lzvn.Raw.StreamDecoder.Loop.Safe.{decode_into-Decodes}
use lzvn.Raw.StreamDecoder.Loop.Call.{IsOn, decode_into-Continues}
use lzvn.Raw.StreamDecoder.Feed.{feed-history, finish_input-IsSound, feed-IsSound}
use lzvn.Raw.StreamDecoder.Feed.OnWay.{finish_input-IsOn, feed-IsOn}

pub data Event : Type 0 where
  feeds : Bytes → Event
  ends : Event
  -- A call of `decode_into` with this buffer.
  drains : Bytes → Event

-- What the calls have written in all, and the decoder they leave.
unfoldable pub drive : List Event → RawDecoder → Result (Bytes × RawDecoder)
drive [] d = ok ([], d)
drive (feeds bytes ∷ events) d = drive events (feed d bytes)
drive (ends ∷ events) d = drive events (finish_input d)
drive (drains dst ∷ events) d = do
  (progress, dst', d') ← decode_into d dst
  (out, d'') ← drive events d'
  ok (take progress.written dst' ++ out, d'')

-- The calls feed `src` in order but for `unfed`, and `finish_input` comes behind all of it.
unfoldable pub Feeds : Bytes → List Event → Bytes → Type 0
Feeds src [] unfed = src ≡ unfed
Feeds src (feeds bytes ∷ events) unfed =
    (rest : Bytes) × (src ≡ bytes ++ rest) × Feeds rest events unfed
Feeds src (ends ∷ events) unfed = (src ≡ []) × Feeds src events unfed
Feeds src (drains dst ∷ events) unfed = Feeds src events unfed

-- What holds of the calls, from what holds of each; `Q` may speak of what is not fed.
module _ (Q : Bytes → RawDecoder → Type 0) (E : Error → Type 0)
    (Fits : Bytes → List Event → Bytes → Type 0)
    (stop : (src unfed : Bytes) → Fits src [] unfed → src ≡ unfed)
    (feeds_Q : (src bytes unfed : Bytes) (events : List Event) (d : RawDecoder)
      → Q src d
      → Fits src (feeds bytes ∷ events) unfed
      → (rest : Bytes) × Q rest (feed d bytes) × Fits rest events unfed)
    (ends_Q : (src unfed : Bytes) (events : List Event) (d : RawDecoder)
      → Q src d
      → Fits src (ends ∷ events) unfed
      → Q src (finish_input d) × Fits src events unfed)
    (drains_Q : (src unfed dst : Bytes) (events : List Event) (d : RawDecoder)
      → Q src d
      → Fits src (drains dst ∷ events) unfed
      → Fits src events unfed
        × Returns
            (λ (r : StreamProgress × Bytes × RawDecoder).
              Q src r.2 × (r.2.history ≡ d.history ++ take r.0.written r.1))
            E
            (decode_into d dst)) where
  driven :
      (src unfed : Bytes) (events : List Event) (d : RawDecoder)
      → Q src d
      → Fits src events unfed
      → Returns
          (λ (r : Bytes × RawDecoder). Q unfed r.1 × (r.1.history ≡ d.history ++ r.0))
          E
          (drive events d)
  unfolding drive finish_input
  driven src unfed [] d q f =
      let same = stop src unfed f in (rw same at q, sym (append-nil d.history))
  driven src unfed (feeds bytes ∷ events) d q f =
      let (rest, q', f') = feeds_Q src bytes unfed events d q f in
      Returns-map _ _ E E (drive events (feed d bytes))
        (λ r t. (t.0, t.1 ∙ ap (λ h. h ++ r.0) (feed-history d bytes))) (λ e h. h)
        (driven rest unfed events (feed d bytes) q' f')
  driven src unfed (ends ∷ events) d q f =
      let (q', f') = ends_Q src unfed events d q f in driven src unfed events (finish_input d) q' f'
  driven src unfed (drains dst ∷ events) d q f =
      let (f', called) = drains_Q src unfed dst events d q f in
      Returns-bind _ _ E (decode_into d dst) _ called (λ r q'.
        Returns-bind _ _ E (drive events r.2) _ (driven src unfed events r.2 q'.0 f') (λ s t.
          (t.0, t.1 ∙ ap (λ h. h ++ s.0) q'.1 ∙ append_assoc d.history (take r.0.written r.1) s.0)))

-- From a decoder that the invariant holds of, calls of `feed`, `finish_input` and `decode_into` in any
-- order end without a panic. If all of them succeed, the invariant holds again, and what they have
-- written in all is what the history has gained.
pub drive-IsSound :
    (events : List Event) (d : RawDecoder)
    → IsSound d
    → Returns
        (λ (r : Bytes × RawDecoder). IsSound r.1 × (r.1.history ≡ d.history ++ r.0))
        Any
        (drive events d)
drive-IsSound events d s =
    driven (λ src d. IsSound d) Any (λ src events unfed. src ≡ unfed) (λ src unfed f. f)
      (λ src bytes unfed events d q f. (src, feed-IsSound d bytes q, f))
      (λ src unfed events d q f. (finish_input-IsSound d q, f))
      (λ src unfed dst events d q f. (
        f,
        Returns-map _ _ _ _ (decode_into d dst) (λ r c. (c.0, c.3)) (λ e h. tt)
            (decode_into-Decodes d dst q),
      ))
      [] [] events d s refl

ends_IsOn :
    (final : Decoder) (src : Bytes) (d : RawDecoder)
    → src ≡ []
    → IsOn final src d
    → IsOn final src (finish_input d)
ends_IsOn final src d e s =
    let s' : IsOn final [] d = rw e at s in rw e (finish_input-IsOn final d s')

-- On a stream that a run takes, the calls stay on its way and are never refused.
pub drive-IsOn :
    (final : Decoder) (src unfed : Bytes) (events : List Event) (d : RawDecoder)
    → IsOn final src d
    → Feeds src events unfed
    → Returns
        (λ (r : Bytes × RawDecoder). IsOn final unfed r.1 × (r.1.history ≡ d.history ++ r.0))
        (λ e. ⊥)
        (drive events d)
unfolding Feeds
drive-IsOn final src unfed events d s f =
    driven (IsOn final) (λ e. ⊥) Feeds (λ src unfed f. f)
      (λ src bytes unfed events d q f.
        let (rest, src_is, f') = f in (rest, feed-IsOn final bytes rest d (rw src_is at q), f'))
      (λ src unfed events d q f. (ends_IsOn final src d f.0 q, f.1))
      (λ src unfed dst events d q f. (
        f,
        Returns-map _ _ _ _ (decode_into d dst) (λ r c. (c.0, c.1)) (λ e h. h)
            (decode_into-Continues final src d dst q),
      ))
      src unfed events d s f

-- What is written so far is the front of all.
pub IsOn-front :
    (final : Decoder) (unfed : Bytes) (d : RawDecoder)
    → IsOn final unfed d
    → (rest : Bytes) × (take final.output final.dst ≡ d.history ++ rest)
      × (d.finished ≡ true → rest ≡ [])
IsOn-front final unfed d s = go d.finished refl
  where
    go :
        (ended : Bool)
        → d.finished ≡ ended
        → (rest : Bytes) × (take final.output final.dst ≡ d.history ++ rest)
          × (d.finished ≡ true → rest ≡ [])
    go true ended = ([], (s.done ended).output_is ∙ sym (append-nil d.history), λ over. refl)
    go false still =
        let t = s.going still in
        let (copied, copied_is) =
          copy_match-extends d.pending.match d.pending.distance (d.history ++ t.literal) in
        let (rest, rest_is) =
          run_extends (length t.todo) t.fuel t.pre t.todo _ t.room d.previous_distance final
            (omega arith) t.runs in
        (
          t.literal ++ (copied ++ rest),
          rest_is
              ∙ ap (λ x. x ++ rest) copied_is
              ∙ append_assoc (d.history ++ t.literal) copied rest
              ∙ append_assoc d.history t.literal (copied ++ rest),
          λ over. absurd (cc),
        )
