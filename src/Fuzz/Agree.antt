-- ===== src/Fuzz/Agree.antt =====
-- What the targets assert holds: always of blocks, and of raw streams that fill the buffer.
use lzvn.Base.{
  ℕ, ◌-◌, ◌≤◌, ◌<◌, ◌≡◌, refl, sym, ap, ◌∙◌, ◌⊎◌, inl, inr, true, not, [], ◌∷◌, arith, Bytes,
  length, length-drop, length-replicate, take, take-length, drop, replicate, ltb, leb, ◌==◌,
  Bool-cases,
}
use lzvn.Error.{
  Result, ok, err, panic, out_of_fuel, ◌>>=◌, ◌>>◌, slice, reject_if, Returns, Returns-map, Any,
  size_mismatch,
}
use lzvn.Words.{word_at_lem, from_le_bytes}
use lzvn.Raw.Decode
use lzvn.Raw.Decode.Returns.{decode_into-WritesOnly}
use lzvn.Raw.Decode.Inversion.{decode-decode_into}
use lzvn.Apple.Bvxn
use lzvn.Apple.Bvxn.{BvxnHeader, header_len, parse_header}
use lzvn.Apple.Bvxn.Returns.{parse_header-Returns, decode_into-FillsBlock}
use lzvn.Apple.Bvxn.Accepts.{parse_header-eq-ok, accepted, decode-decode_into_block, decode-refused}
use lzvn.Fuzz.{
  max_decoded_len, bytes_eq, agree, finished_call, raw_decode, bvxn_against, bvxn_decode,
}

bytes_eq_refl : (xs : Bytes) → bytes_eq xs xs ≡ true
unfolding bytes_eq
bytes_eq_refl [] = refl
bytes_eq_refl (x ∷ xs) =
    let same : (x == x) ≡ true = ground arith in rw (same, bytes_eq_refl xs) refl

-- Where the whole buffer is written, `decode` and `decode_into` agree.
pub agree_ok :
    (written : ℕ) (output : Bytes)
    → written ≡ length output
    → agree (ok output) (ok (written, output)) ≡ ok tt
unfolding agree
agree_ok written output all =
    let same : (written == length output) ≡ true = ground arith in
    let whole : take (written - 0) output ≡ output =
      take-length (written - 0) output (omega arith) in
    let cut : slice output 0 written ≡ ok output = ground (arith, whole) in
    rw (same, cut, bytes_eq_refl output) refl

-- The raw decoder under both names, by what `decode_into` returns.
raw_agree :
    (expected_len : ℕ) (r : Result (ℕ × Bytes))
    → Returns (λ (written, output). (written ≤ expected_len) × (length output ≡ expected_len)) Any r
    → (agree
          (r >>= λ (written, dst).
            reject_if (not (written == expected_len)) (size_mismatch expected_len written)
            >> ok dst)
          r
        ≡ ok tt)
      ⊎ ((written : ℕ) × (output : Bytes) × (r ≡ ok (written, output))
          × (written < expected_len)
          × ((r >>= λ (written, dst).
                reject_if (not (written == expected_len)) (size_mismatch expected_len written)
                >> ok dst)
              ≡ err (size_mismatch expected_len written))
          × (agree
                (r >>= λ (written, dst).
                  reject_if (not (written == expected_len)) (size_mismatch expected_len written)
                  >> ok dst)
                r
              ≡ panic))
unfolding agree
raw_agree expected_len (ok (written, output)) (fits, size) =
    elim (Bool-cases (written == expected_len)) [
      | inl all ↦ inl (rw all (agree_ok written output (ground (arith, size))))
      | inr short ↦ inr (written, output, refl, ground arith, rw short refl, rw short refl)
    ]
raw_agree expected_len (err e) h = inl refl
raw_agree expected_len panic h = absurd h
raw_agree expected_len out_of_fuel h = absurd h

-- On any bytes the target `raw_decode` passes, or the stream decodes to less than the first four bytes
-- say; then `decode_into` takes it, `decode` refuses it with the sizes, and the target panics.
pub raw_decode_passes :
    (bytes : Bytes)
    → (raw_decode bytes ≡ ok tt)
      ⊎ ((written : ℕ) × (output : Bytes) × (Decode.decode_into
              (drop 4 bytes)
              (replicate (from_le_bytes (take 4 bytes)) 0)
            ≡ ok (written, output))
          × (written < from_le_bytes (take 4 bytes))
          × (Decode.decode (drop 4 bytes) (from_le_bytes (take 4 bytes))
              ≡ err (size_mismatch (from_le_bytes (take 4 bytes)) written))
          × (raw_decode bytes ≡ panic))
unfolding raw_decode
raw_decode_passes bytes = elim (Bool-cases (ltb (length bytes) 4)) [
  | inl short ↦ inl (rw short refl)
  | inr enough ↦
      let read = word_at_lem 4 0 bytes (ground arith) in
      let expected_len = from_le_bytes (take 4 bytes) in
      elim (Bool-cases (ltb max_decoded_len expected_len)) [
        | inl large ↦ inl (rw (enough, read, large) refl)
        | inr small ↦
            let zeros_size : length (replicate {A = ℕ} expected_len 0) ≡ expected_len =
              length-replicate {A = ℕ} expected_len 0 in
            let whole : take (length bytes - 4) (drop 4 bytes) ≡ drop 4 bytes =
              take-length _ (drop 4 bytes) (omega (arith, length-drop {0} 4 bytes)) in
            let cut : slice bytes 4 (length bytes) ≡ ok (drop 4 bytes) = ground (arith, whole) in
            rw (enough, read, small, cut, decode-decode_into (drop 4 bytes) expected_len)
              (raw_agree expected_len (Decode.decode_into (drop 4 bytes) (replicate expected_len 0))
                (Returns-map _ _ _ _ (Decode.decode_into (drop 4 bytes) (replicate expected_len 0))
                  (λ r w. (omega (arith, w.0, zeros_size), w.1 ∙ zeros_size)) (λ e h. tt)
                  (decode_into-WritesOnly (drop 4 bytes) (replicate expected_len 0))))
      ]
]

-- A block under both names, by what `decode_into` returns.
pub block_agree :
    (raw_bytes : ℕ) (r : Result (ℕ × Bytes))
    → Returns (λ (written, output). (written ≡ raw_bytes) × (length output ≡ raw_bytes)) Any r
    → (agree (r >>= λ (written, dst). ok dst) r ≡ ok tt)
      × (finished_call (r >>= λ (written, dst). ok dst) ≡ ok tt)
unfolding agree finished_call
block_agree raw_bytes (ok (written, output)) (all, size) =
    (agree_ok written output (all ∙ sym size), refl)
block_agree raw_bytes (err e) h = (refl, refl)
block_agree raw_bytes panic h = absurd h
block_agree raw_bytes out_of_fuel h = absurd h

-- On any bytes the target `bvxn_decode` passes: nothing panics, and `decode` and `decode_into` agree.
pub bvxn_decode_passes : (bytes : Bytes) → bvxn_decode bytes ≡ ok tt
unfolding bvxn_decode bvxn_against finished_call
bvxn_decode_passes bytes = go (parse_header bytes) refl (parse_header-Returns bytes)
  where
    go :
        (r : Result BvxnHeader)
        → parse_header bytes ≡ r
        → Returns (λ header. header_len ≤ length bytes) Any r
        → bvxn_against r bytes ≡ ok tt
    go (ok header) parsed enough =
        let (same, dropped) =
          block_agree header.raw_bytes (Bvxn.decode_into bytes (replicate header.raw_bytes 0)) (
            Returns-map _ _ _ _ (Bvxn.decode_into bytes (replicate header.raw_bytes 0))
              (λ (written, output) ((fits, size, kept), (found, payload, split, written_is)).
                let (least, magic, raw, size_is) = parse_header-eq-ok bytes header parsed in
                let (equal, payload_is, total) =
                  accepted bytes header found payload least parsed split in
                (
                  written_is ∙ ap (λ x. x.raw_bytes) (sym equal),
                  size ∙ length-replicate {A = ℕ} header.raw_bytes 0,
                ))
              (λ e h. tt) (decode_into-FillsBlock bytes (replicate header.raw_bytes 0))) in
        elim (Bool-cases (leb header.raw_bytes max_decoded_len)) [
          | inl small ↦ rw (small, decode-decode_into_block bytes header parsed) same
          | inr large ↦ rw (large, decode-decode_into_block bytes header parsed) dropped
        ]
    go (err e) refused h = rw (decode-refused bytes e refused) refl
    go panic refused h = absurd h
    go out_of_fuel refused h = absurd h
