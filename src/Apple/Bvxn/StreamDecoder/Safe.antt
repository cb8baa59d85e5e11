-- ===== src/Apple/Bvxn/StreamDecoder/Safe.antt =====
-- `BvxnDecoder::decode_into` on any input: it keeps the invariant and never panics.
use lzvn.Base.{
  ◌≤◌, ◌≡◌, ◌↔◌, refl, sym, ap, ◌∙◌, inl, inr, Bool, true, false, not, ◌&&◌, Option, none, some,
  ◌++◌, append-nil, arith, Bytes, length, take, ltb, ◌==◌, Bool-cases, if◌then◌else◌,
}
use lzvn.Error.{ok, ◌>>◌, reject_if, Returns, Returns-map, Returns-bind, Any, truncated_input}
use lzvn.Stream.{StreamStatus, need_input, need_output, finished}
use lzvn.Raw.StreamDecoder.{total_output}
use lzvn.Raw.StreamDecoder.Loop
use lzvn.Raw.StreamDecoder.Loop.Sound.{IsSound, IsStreamError}
use lzvn.Raw.StreamDecoder.Loop.Safe.{Decodes, decode_into-Decodes}
use lzvn.Apple.Bvxn.{BvxnHeader, header_len}
use lzvn.Apple.Bvxn.StreamDecoder.{
  BvxnDecoder, available_input, absolute_offset, pump_payload, settle, read_header, expect,
  decode_payload, begin, decode_into,
}
use lzvn.Apple.Bvxn.StreamDecoder.Sound.{
  IsWhole, Decoded, read_header-Returns, pump_payload-Returns,
}

some_injective : (a b : BvxnHeader) → some a ≡ some b → a ≡ b
some_injective a b h = cc

-- A decoder whose block is not yet decoded.
going_IsWhole :
    (header : BvxnHeader) (d : BvxnDecoder)
    → d.input_offset ≤ length d.input
    → IsSound d.raw
    → d.header ≡ some header
    → length d.raw.history ≤ header.raw_bytes
    → d.finished ≡ false
    → IsWhole d
going_IsWhole header d inside raw_sound header_is fits going = record {
  inside = inside;
  raw_sound = raw_sound;
  fresh = λ h. absurd (cc);
  bounded = λ other h.
      let same : header ≡ other = some_injective header other (sym header_is ∙ h) in
      omega (arith, ap (λ x. x.raw_bytes) same);
  ended = λ h. absurd (cc);
}

-- What `match progress.status` leaves.
abbrev Settled : StreamStatus → BvxnDecoder → BvxnDecoder → Type 0
Settled status d d' = IsWhole d' × (d'.raw ≡ d.raw) × ((status ≡ finished) ↔ (d'.finished ≡ true))

settle-Returns :
    (status : StreamStatus) (header : BvxnHeader) (d : BvxnDecoder)
    → IsWhole d
    → d.header ≡ some header
    → d.finished ≡ false
    → Returns (Settled status d) Any (settle status header d)
unfolding settle
settle-Returns need_input header d w header_is going =
    elim (Bool-cases
      (not (d.payload_remaining == 0) && d.finished_input && available_input d == 0)) [
        | inl truncated ↦ rw truncated tt
        | inr waiting ↦ rw waiting (w, refl, (λ h. cc, λ h. cc))
      ]
settle-Returns need_output header d w header_is going = (w, refl, (λ h. cc, λ h. cc))
settle-Returns finished header d w header_is going =
    elim (Bool-cases (total_output d.raw == header.raw_bytes)) [
      | inr other ↦ rw other tt
      | inl all ↦ elim (Bool-cases (available_input d == 0)) [
        | inr trailing ↦ rw (all, trailing) tt
        | inl clean ↦
            rw (all, clean)
              (
                record {
                  inside = w.inside;
                  raw_sound = w.raw_sound;
                  fresh = w.fresh;
                  bounded = w.bounded;
                  ended = λ h. (header, header_is, ground arith);
                },
                refl,
                (λ h. refl, λ h. refl),
              )
      ]
    ]

-- The raw decoder's call, and what is checked behind it.
decode_payload-Decoded :
    (header : BvxnHeader) (d : BvxnDecoder) (dst : Bytes)
    → d.input_offset ≤ length d.input
    → IsSound d.raw
    → d.header ≡ some header
    → d.finished ≡ false
    → Returns (Decoded d dst) Any (decode_payload d dst)
unfolding decode_payload
decode_payload-Decoded header d dst inside raw_sound header_is going =
    Returns-bind _ (Decoded d dst) Any (pump_payload d) _ (pump_payload-Returns d inside raw_sound)
      (λ d' (inside', header_is', raw_sound', history_is, finished_is).
        Returns-bind (Decodes d'.raw dst) (Decoded d dst) Any (Loop.decode_into d'.raw dst) _
          (Returns-map (Decodes d'.raw dst) (Decodes d'.raw dst) (IsStreamError d'.raw) Any
            (Loop.decode_into d'.raw dst) (λ r w. w) (λ e w. tt)
            (decode_into-Decodes d'.raw dst raw_sound'))
          (λ (progress, dst', raw) (raw_sound'', size, fits, grown, fed_is).
            let known : d'.header ≡ some header = header_is' ∙ header_is in
            let found : expect d'.header ≡ ok header = unfold expect in ap expect known in
            elim (Bool-cases (ltb header.raw_bytes (total_output raw))) [
              | inl long ↦ rw (found, long) tt
              | inr bounded ↦
                  let d'' : BvxnDecoder = record d' { raw = raw } in
                  let whole : IsWhole d'' =
                    going_IsWhole header d'' inside' raw_sound'' known (ground arith)
                      (finished_is ∙ going) in
                  rw (found, bounded)
                    (Returns-bind (Settled progress.status d'') (Decoded d dst) Any
                      (settle progress.status header d'') _
                      (settle-Returns progress.status header d'' whole known (finished_is ∙ going))
                      (λ d3 (whole', raw_is, status). (
                        whole',
                        size,
                        fits,
                        ap (λ r. r.history) raw_is
                            ∙ grown
                            ∙ ap (λ h. h ++ take progress.written dst') history_is,
                        status,
                      )))
            ]))

begin-Decoded :
    (d : BvxnDecoder) (dst : Bytes)
    → IsWhole d
    → d.header ≡ none
    → d.finished ≡ false
    → Returns (Decoded d dst) Any (begin d dst)
unfolding begin
begin-Decoded d dst w no_header going = elim (Bool-cases (ltb (available_input d) header_len)) [
  | inl short ↦ rw short (waits d.finished_input)
  | inr enough ↦ rw enough (
      Returns-bind _ (Decoded d dst) Any (read_header d) _
        (read_header-Returns d (ground (arith, w.inside)))
        (λ d' (header, header_is, inside, raw_is, finished_is).
          let sound : IsSound d'.raw = rw raw_is w.raw_sound in
          Returns-map (Decoded d' dst) (Decoded d dst) Any Any (decode_payload d' dst)
            (λ r c. (c.0, c.1, c.2, c.3 ∙ ap (λ q. q.history ++ take r.0.written r.1) raw_is, c.4))
            (λ e h. h)
            (decode_payload-Decoded header d' dst inside sound header_is (finished_is ∙ going))))
]
  where
    waits :
        (over : Bool)
        → Returns (Decoded d dst) Any (
            reject_if over (truncated_input (absolute_offset d))
            >> ok (record { written = 0; status = need_input }, dst, d))
    waits true = tt
    waits false = (w, refl, omega arith, sym (append-nil d.raw.history), (λ h. cc, λ h. cc))

-- On a decoder that the invariant holds of and on any buffer `decode_into` ends without a panic. If it
-- succeeds, the invariant holds again, the count fits the buffer, which keeps its length, the bytes
-- counted are what the raw decoder's history has gained. The status is `Finished` exactly where the
-- decoder is then marked finished, and then the history has the size that the header declares.
pub decode_into-Decoded :
    (d : BvxnDecoder) (dst : Bytes) → IsWhole d → Returns (Decoded d dst) Any (decode_into d dst)
unfolding decode_into
decode_into-Decoded d dst w = elim (Bool-cases (d.trailing_after_finish == 0)) [
  | inr trailing ↦ rw trailing tt
  | inl clean ↦ rw clean (go d.finished refl)
]
  where
    going :
        d.finished ≡ false
        → (h : Option BvxnHeader) → d.header ≡ h
        → Returns
            (Decoded d dst)
            Any
            (elim h [ none ↦ begin d dst | some header ↦ decode_payload d dst ])
    going still none is = begin-Decoded d dst w is still
    going still (some header) is = decode_payload-Decoded header d dst w.inside w.raw_sound is still

    go :
        (ended : Bool)
        → d.finished ≡ ended
        → Returns (Decoded d dst) Any (
            if ended
            then ok (record { written = 0; status = finished }, dst, d)
            else elim d.header [ none ↦ begin d dst | some header ↦ decode_payload d dst ])
    go true ended = (w, refl, omega arith, sym (append-nil d.raw.history), (λ h. ended, λ h. refl))
    go false still = going still d.header refl
