-- ===== src/Apple/Decmpfs/Block.antt =====
-- A wrapper payload, stored or compressed, is read back by `decode_lzvn_block`.
use lzvn.Base.{
  ℕ, suc, ◌+◌, ◌≤◌, ◌<◌, ◌≡◌, refl, sym, ap, inl, inr, true, [], ◌∷◌, ◌++◌, append-nil,
  append_assoc, arith, min, Bytes, length, length-append, length-replicate, take-append,
  drop-append, replicate, take, drop, ltb, ◌==◌, eq→==, Bool-cases, ◌&&◌, ◌⊎◌,
}
use lzvn.Error.{Result, ok, ◌>>=◌, slice, slice-append}
use lzvn.Words.{usize_max}
use lzvn.Raw.Decode
use lzvn.Raw.Decode.Ends.{decode_into-eos, decode_ok}
use lzvn.Raw.Encode.Loop.RoundTrip.{decode-encode}
use lzvn.Apple.Decmpfs.{
  lzvn_uncompressed_sentinel, lzvn_uncompressed_payload, best_lzvn_wrapper_payload, into_range,
  starts_with_sentinel, overwrite, decode_stored, decode_lzvn_block,
}

-- A call on a range that stands between two parts leaves them as they are.
pub into_range-append :
    (out hole room filled : Bytes) (start end written : ℕ) (call : Bytes → Result (ℕ × Bytes))
    → start ≡ length out
    → end ≡ start + length hole
    → call hole ≡ ok (written, filled)
    → into_range (out ++ (hole ++ room)) start end call ≡ ok (written, out ++ (filled ++ room))
into_range-append out hole room filled start end written call hs he called =
    let front : take start (out ++ (hole ++ room)) ≡ out =
      take-append out (hole ++ room) start hs in
    let back : drop end (out ++ (hole ++ room)) ≡ room =
      rw (← append_assoc out hole room)
        (drop-append (out ++ hole) room end (omega (arith, length-append {0} out hole))) in
    rw (slice-append out hole room start end hs he, called, front, back) refl

-- A call on a whole buffer.
into_range-whole :
    (dst filled : Bytes) (n written : ℕ) (call : Bytes → Result (ℕ × Bytes))
    → n ≡ length dst
    → call dst ≡ ok (written, filled)
    → into_range dst 0 n call ≡ ok (written, filled)
into_range-whole dst filled n written call h called =
    rw (append-nil dst, append-nil filled) at
      (into_range-append [] dst [] filled 0 n written call refl (omega arith) called)

-- What `encode` may make of a source: the bytes behind the sentinel, or their raw stream.
abbrev pub IsPayload : Bytes → Bytes → Type 0
IsPayload payload src =
    (payload ≡ lzvn_uncompressed_sentinel ∷ src) ⊎ (Decode.decode payload (length src) ≡ ok src)

pub best_lzvn_wrapper_payload-IsPayload :
    (src : Bytes)
    → (payload : Bytes) × (best_lzvn_wrapper_payload src ≡ ok payload)
      × (length payload ≤ suc (length src))
      × IsPayload payload src
unfolding best_lzvn_wrapper_payload lzvn_uncompressed_payload
best_lzvn_wrapper_payload-IsPayload src =
    let (compressed, encoded, decoded) = decode-encode src in
    elim (Bool-cases (ltb (suc (length src)) (length compressed))) [
      | inl longer ↦
          (lzvn_uncompressed_sentinel ∷ src, rw (encoded, longer) refl, omega arith, inl refl)
      | inr fits ↦ (compressed, rw (encoded, fits) refl, ground arith, inr decoded)
    ]

decode_lzvn_block-stored :
    (src : Bytes)
    → length src < usize_max
    → decode_lzvn_block (lzvn_uncompressed_sentinel ∷ src) (length src) (replicate (length src) 0)
      ≡ ok (length src, src)
unfolding decode_lzvn_block decode_stored starts_with_sentinel
decode_lzvn_block-stored src h =
    let n = length src in
    let room : length (replicate {A = ℕ} n 0) ≡ n = length-replicate {A = ℕ} n 0 in
    let long : (suc n == min (n + 1) usize_max) ≡ true = eq→== _ _ (omega arith) in
    let cut : slice (lzvn_uncompressed_sentinel ∷ src) 1 (suc n) ≡ ok src =
      rw (append-nil src) at
        (slice-append (lzvn_uncompressed_sentinel ∷ []) src [] 1 (suc n) refl (omega arith)) in
    let fits : (length (replicate {A = ℕ} n 0) == n) ≡ true = eq→== _ _ room in
    rw (long, cut)
      (into_range-whole (replicate n 0) src n n
        (λ front. overwrite src front >>= λ front'. ok (n, front')) (sym room) (rw fits refl))

-- A raw stream that looks like a stored payload: only the stream of no bytes can.
looks_stored :
    (payload src : Bytes)
    → Decode.decode payload (length src) ≡ ok src
    → length payload ≡ suc (length src)
    → starts_with_sentinel payload ≡ true
    → payload ≡ lzvn_uncompressed_sentinel ∷ src
unfolding starts_with_sentinel
looks_stored [] src decoded size first = cc
looks_stored (b ∷ tail) src decoded size first =
    let sentinel : b ≡ lzvn_uncompressed_sentinel = ground arith in
    let stream : Decode.decode (lzvn_uncompressed_sentinel ∷ tail) (length src) ≡ ok src =
      rw sentinel at decoded in
    let none_left : length src ≡ 0 =
      decode_into-eos tail _ src _ (decode_ok _ src (length src) stream) in
    rw sentinel
      (ap (λ t. lzvn_uncompressed_sentinel ∷ t) (both_empty tail src none_left (omega arith)))
  where
    both_empty : (xs ys : Bytes) → length ys ≡ 0 → length xs ≡ 0 → xs ≡ ys
    both_empty [] [] h k = refl
    both_empty [] (y ∷ ys) h k = absurd (omega arith)
    both_empty (x ∷ xs) ys h k = absurd (omega arith)

-- A wrapper payload, stored or compressed, is read back into a buffer of zeros: of the sources below
-- 2 ^ 64 - 1 bytes, also where a raw stream could be taken for a stored payload.
pub decode_lzvn_block-IsPayload :
    (payload src : Bytes)
    → length src < usize_max
    → IsPayload payload src
    → decode_lzvn_block payload (length src) (replicate (length src) 0) ≡ ok (length src, src)
unfolding decode_lzvn_block
decode_lzvn_block-IsPayload payload src h (inl stored) = rw stored (decode_lzvn_block-stored src h)
decode_lzvn_block-IsPayload payload src h (inr decoded) =
    let n = length src in
    elim (Bool-cases (length payload == min (n + 1) usize_max && starts_with_sentinel payload)) [
      | inl looks ↦
          let size : length payload ≡ suc n = ground arith in
          let first : starts_with_sentinel payload ≡ true = ground arith in
          rw (looks_stored payload src decoded size first) (decode_lzvn_block-stored src h)
      | inr differs ↦ rw differs (
          into_range-whole (replicate n 0) src n n (Decode.decode_into payload)
            (sym (length-replicate {0} n 0)) (decode_ok payload src n decoded))
    ]
