-- ===== src/Raw/Decode/Ends.antt =====
-- A stream that begins with the end marker decodes to nothing; and `decode` by its `decode_into`.
use lzvn.Base.{
  ℕ, suc, ◌+◌, ◌≡◌, refl, sym, ap, ◌∙◌, ◌∷◌, arith, Bytes, length, replicate, ltb, ◌==◌, not, inl,
  inr, Bool-cases,
}
use lzvn.Error.{
  Result, ok, err, panic, out_of_fuel, ◌>>=◌, ◌>>◌, bind_ok, reject_if, slice, size_mismatch,
  trailing_data,
}
use lzvn.Raw.Opcode.{classify, eos}
use lzvn.Raw.Decode.{
  Decoder, next, return, control, byte_at, require_input, finish, execute, dispatch, step, run,
  start, max_eos_padding, any_nonzero, decode, decode_into,
}

finish_output : (d d' : Decoder) → finish d ≡ ok d' → d'.output ≡ d.output
unfolding finish
finish_output d d' h =
    let (a, ha, h1) = bind_ok (require_input d 1) _ h in
    let (padding, hb, h2) = bind_ok (slice d.src (d.input + 1) (length d.src)) _ h1 in
    let (b, hc, h3) =
      bind_ok (reject_if (any_nonzero padding) (trailing_data (length padding))) _ h2 in
    let (c, hd, h4) = bind_ok (reject_if (ltb max_eos_padding (length padding)) _) _ h3 in
    let same : record d { input = length d.src } ≡ d' = cc in ap (λ x. x.output) (sym same)

-- The one round that the end marker takes.
run-eos :
    (fuel : ℕ) (tail dst : Bytes)
    → run (suc fuel) (start (0x06 ∷ tail) dst) ≡ finish (start (0x06 ∷ tail) dst)
unfolding run step byte_at dispatch execute classify
run-eos fuel tail dst = returned (finish (start (0x06 ∷ tail) dst))
  where
    returned :
        (r : Result Decoder)
        → (r >>= λ d. ok (control eos d))
            >>= (λ c. elim c [ next d ↦ run fuel d | return d ↦ ok d ])
          ≡ r
    returned (ok d) = refl
    returned (err e) = refl
    returned panic = refl
    returned out_of_fuel = refl

pub decode_into-eos :
    (tail dst dst' : Bytes) (written : ℕ)
    → decode_into (0x06 ∷ tail) dst ≡ ok (written, dst')
    → written ≡ 0
unfolding decode_into
decode_into-eos tail dst dst' written h =
    let (d, ran, result) = bind_ok (run (suc (suc (length tail))) (start (0x06 ∷ tail) dst)) _ h in
    let finished = finish_output _ d (sym (run-eos (suc (length tail)) tail dst) ∙ ran) in
    let same : d.output ≡ written = cc in sym same ∙ finished

-- The check of the count behind a call.
abbrev checked : ℕ → Result (ℕ × Bytes) → Result Bytes
checked n r =
    r >>= λ (written, dst). reject_if (not (written == n)) (size_mismatch n written) >> ok dst

checked_ok : (n : ℕ) (r : Result (ℕ × Bytes)) (dst : Bytes) → checked n r ≡ ok dst → r ≡ ok (n, dst)
checked_ok n (ok (written, bytes)) dst h = elim (Bool-cases (written == n)) [
  | inl same ↦
      let kept : Path (Result Bytes) (ok bytes) (ok dst) = rw same at h in
      let count : written ≡ n = ground arith in
      let content : bytes ≡ dst = cc in rw (count, content) refl
  | inr other ↦
      let refused : Path (Result Bytes) (err (size_mismatch n written)) (ok dst) = rw other at h in
      cc
]
checked_ok n (err e) dst h = cc
checked_ok n panic dst h = cc
checked_ok n out_of_fuel dst h = cc

-- `decode` succeeds only where `decode_into` fills a buffer of zeros.
pub decode_ok :
    (src dst : Bytes) (n : ℕ)
    → decode src n ≡ ok dst
    → decode_into src (replicate n 0) ≡ ok (n, dst)
unfolding decode
decode_ok src dst n h = checked_ok n (decode_into src (replicate n 0)) dst h
