-- ===== src/Apple/Bvxn/StreamDecoder/Delivery.antt =====
-- `BvxnDecoder` against `decode_into` on the whole block, where the block is fed before it is fetched.
use lzvn.Base.{
  ℕ, suc, ◌+◌, ◌<◌, ◌≡◌, refl, sym, ap, ◌∙◌, ◌⊎◌, inl, inr, true, false, List, [], ◌∷◌, ◌++◌,
  append-nil, append_assoc, arith, Bytes, length, length-append, length-take, take, concat,
  Bool-cases,
}
use lzvn.Error.{Result, ok, ◌>>=◌, Returns, Returns-map, Returns-bind}
use lzvn.Stream.{StreamProgress, need_output, finished}
use lzvn.Raw.Decode.{Decoder}
use lzvn.Raw.Decode.Inversion.{run_of_decode_into}
use lzvn.Raw.StreamDecoder.{RawDecoder, total_output}
use lzvn.Raw.StreamDecoder.Loop.Call.{IsOn}
use lzvn.Raw.StreamDecoder.Feed.OnWay.{new-IsOn}
use lzvn.Raw.StreamDecoder.Script.{IsOn-front}
use lzvn.Apple.Bvxn.{BvxnHeader, bvxn_magic, header_len, parse_header, split_block}
use lzvn.Apple.Bvxn.StreamDecoder.{BvxnDecoder, new, is_finished, decode_into}
use lzvn.Apple.Bvxn.StreamDecoder.Serving.{IsServing, decode_into-Served}
use lzvn.Apple.Bvxn.StreamDecoder.Loading.{
  loaded, feed_all, feed_all-loaded, Takes, decode_into-Takes, first-Served,
}

-- What the calls with these buffers write, and the decoder they leave.
unfoldable pub fetch : List Bytes → BvxnDecoder → Result (Bytes × BvxnDecoder)
fetch [] d = ok ([], d)
fetch (dst ∷ buffers) d = do
  (progress, dst', d') ← decode_into d dst
  (out, d'') ← fetch buffers d'
  ok (take progress.written dst' ++ out, d'')

-- The decoder before its first call, or while it serves; `out` is what was written.
abbrev Phase : Decoder → (src : Bytes) → BvxnHeader → BvxnDecoder → Bytes → Type 0
Phase final src header d out =
    ((d ≡ loaded src) × (out ≡ [])) ⊎ (IsServing final header d × (d.raw.history ≡ out))

module _ (src dst dst' : Bytes) (written : ℕ) (t : Takes src dst dst' written) (final : Decoder)
    (on : IsOn final t.payload lzvn.Raw.StreamDecoder.new)
    (output_is : take final.output final.dst ≡ take written dst') where
  -- A call from either phase.
  call-Served :
      (buffer : Bytes) (d : BvxnDecoder) (out : Bytes)
      → Phase final src t.header d out
      → Returns
          (λ (r : StreamProgress × Bytes × BvxnDecoder).
            IsServing final t.header r.2
            × (r.2.raw.history ≡ out ++ take r.0.written r.1)
            × (length r.1 ≡ length buffer)
            × (((r.0.status ≡ finished) × (r.2.finished ≡ true))
                ⊎ ((r.0.status ≡ need_output)
                    × (r.2.finished ≡ false)
                    × (r.0.written ≡ length buffer))))
          (λ e. ⊥)
          (decode_into d buffer)
  call-Served buffer d out (inl (is, nothing)) = rw is (
      Returns-map _ _ _ _ (decode_into (loaded src) buffer)
        (λ r s. (s.0, s.1 ∙ ap (λ h. h ++ take r.0.written r.1) (sym nothing), s.2, s.3)) (λ e h. h)
        (first-Served final src dst dst' buffer written t on output_is))
  call-Served buffer d out (inr (serving, is)) =
      Returns-map _ _ _ _ (decode_into d buffer)
        (λ r s. (s.0, s.1 ∙ ap (λ h. h ++ take r.0.written r.1) is, s.2, s.3)) (λ e h. h)
        (decode_into-Served final t.header d buffer serving)

  fetch-Phase :
      (buffers : List Bytes) (d : BvxnDecoder) (out : Bytes)
      → Phase final src t.header d out
      → Returns
          (λ (r : Bytes × BvxnDecoder). Phase final src t.header r.1 (out ++ r.0))
          (λ e. ⊥)
          (fetch buffers d)
  unfolding fetch
  fetch-Phase [] d out p = rw (append-nil out) p
  fetch-Phase (buffer ∷ buffers) d out p =
      Returns-bind _ _ (λ e. ⊥) (decode_into d buffer) _ (call-Served buffer d out p)
        (λ r s.
          Returns-bind _ _ (λ e. ⊥) (fetch buffers r.2) _
            (fetch-Phase buffers r.2 (out ++ take r.0.written r.1) (inr (s.0, s.1)))
            (λ q next. rw (append_assoc out (take r.0.written r.1) q.0) at next))

  -- What is written so far is the front of all, and all of it where the decoder is finished.
  Phase-front :
      (d : BvxnDecoder) (out : Bytes)
      → Phase final src t.header d out
      → (rest : Bytes) × (take written dst' ≡ out ++ rest) × ((rest ≡ []) ⊎ (is_finished d ≡ false))
  Phase-front d out (inl (is, nothing)) = (
    take written dst',
    ap (λ x. x ++ take written dst') (sym nothing),
    inr (ap (λ x. x.finished) is),
  )
  Phase-front d out (inr (serving, is)) = elim (Bool-cases d.finished) [
    | inl over ↦ ([], sym output_is ∙ serving.ended over ∙ is ∙ sym (append-nil out), inl refl)
    | inr going ↦
        let (rest, rest_is, none_left) = IsOn-front final [] d.raw serving.on in
        (rest, sym output_is ∙ rest_is ∙ ap (λ x. x ++ rest) is, inr going)
  ]

fed-Phase :
    (final : Decoder) (header : BvxnHeader) (src : Bytes) (pieces : List Bytes)
    → concat pieces ≡ src
    → Phase final src header (feed_all pieces new) []
fed-Phase final header src pieces whole = inl (feed_all-loaded pieces [] ∙ ap loaded whole, refl)

-- Let `decode_into` on a whole block write `take written dst'`. Feed the block in any pieces to a new
-- `BvxnDecoder`, and then call its `decode_into` with any buffers: no call is refused, and what they
-- have written in all is a front part of `take written dst'`, and all of it when the decoder is finished.
pub fetch-decode_into :
    (src dst dst' : Bytes) (written : ℕ) (pieces buffers : List Bytes)
    → lzvn.Apple.Bvxn.decode_into src dst ≡ ok (written, dst')
    → concat pieces ≡ src
    → Returns
        (λ (r : Bytes × BvxnDecoder).
          (rest : Bytes) × (take written dst' ≡ r.0 ++ rest)
          × ((rest ≡ []) ⊎ (is_finished r.1 ≡ false)))
        (λ e. ⊥)
        (fetch buffers (feed_all pieces new))
fetch-decode_into src dst dst' written pieces buffers h whole =
    let t = decode_into-Takes src dst dst' written h in
    let (final, ran, output_is) = run_of_decode_into t.payload dst dst' written t.decoded in
    let on = new-IsOn t.payload dst (suc (length t.payload)) final ran in
    Returns-map _ _ _ _ (fetch buffers (feed_all pieces new))
      (λ r p. Phase-front src dst dst' written t final on output_is r.1 r.0 p) (λ e h. h)
      (fetch-Phase src dst dst' written t final on output_is buffers (feed_all pieces new) []
        (fed-Phase final t.header src pieces whole))

-- Let `decode_into` on a whole block write `take written dst'`, and let the block be fed in any pieces and
-- then be fetched with any buffers. A further `decode_into` with a buffer longer than what they have
-- not yet written finishes, and with what they have written its bytes are `take written dst'`.
pub fetch-finishes :
    (src dst dst' big : Bytes) (written : ℕ) (pieces buffers : List Bytes) (out : Bytes)
    (d : BvxnDecoder)
    → lzvn.Apple.Bvxn.decode_into src dst ≡ ok (written, dst')
    → concat pieces ≡ src
    → fetch buffers (feed_all pieces new) ≡ ok (out, d)
    → written < length out + length big
    → Returns
        (λ (s : StreamProgress × Bytes × BvxnDecoder).
          (s.0.status ≡ finished)
          × (is_finished s.2 ≡ true)
          × (take written dst' ≡ out ++ take s.0.written s.1))
        (λ e. ⊥)
        (decode_into d big)
fetch-finishes src dst dst' big written pieces buffers out d h whole fetched bigger =
    let t = decode_into-Takes src dst dst' written h in
    let (final, ran, output_is) = run_of_decode_into t.payload dst dst' written t.decoded in
    let on = new-IsOn t.payload dst (suc (length t.payload)) final ran in
    let p : Phase final src t.header d out = rw fetched at (
      fetch-Phase src dst dst' written t final on output_is buffers (feed_all pieces new) []
        (fed-Phase final t.header src pieces whole)) in
    Returns-map _ _ _ _ (decode_into d big)
      (λ r s.
        let (rest, rest_is, over) =
          Phase-front src dst dst' written t final on output_is r.2 _ (inr (s.0, s.1)) in
        elim s.3 [
          | inl (is, ended) ↦ (is, ended, sym output_is ∙ s.0.ended ended ∙ s.1)
          | inr (is, going, full) ↦ absurd (
              omega (
                arith,
                ap length rest_is,
                length-take {0} written dst',
                length-append {0} (out ++ take r.0.written r.1) rest,
                length-append {0} out (take r.0.written r.1),
                length-take {0} r.0.written r.1,
                s.2,
              ))
        ])
      (λ e h. h) (call-Served src dst dst' written t final on output_is big d out p)
