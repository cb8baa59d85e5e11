-- ===== src/Apple/Bvxn/Accepts.antt =====
-- Exactly which inputs `split_block` takes for a block.
use mathlib.Core.Path.{subst₂}
use lzvn.Base.{
  replicate, refl, not, ℕ, ◌+◌, ◌-◌, ◌≤◌, ◌≡◌, ◌↔◌, ◌∙◌, sym, inl, inr, ◌++◌, append_assoc, arith,
  Bytes, All, IsByte, IsByte-take, IsByte-drop, length, take, drop, length-take, length-drop,
  take-append-drop, take-append-take, take-length, ltb, ◌==◌, Bool-cases,
}
use lzvn.Error.{
  Error, Result, ok, err, panic, out_of_fuel, ◌>>=◌, ◌>>◌, reject_if, size_mismatch, bind_ok, slice,
}
use lzvn.Raw.Decode.Inversion.{decode-decode_into}
use lzvn.Raw.Decode
use lzvn.Words.{
  u32_max, to_le_bytes, from_le_bytes, word_at_lem, from_le_bytes-lt, to_le_bytes-from_le_bytes,
}
use lzvn.Apple.Bvxn.{
  BvxnHeader, bvxn_magic, parse_header, header_bytes, split_block, decode, decode_into,
}
use lzvn.Apple.Bvxn.RoundTrip.{split_block-header_bytes}

-- A 32-bit word of the header, and the bytes that it was read from.
abbrev pub word : Bytes → ℕ → ℕ
word src start = from_le_bytes (take 4 (drop start src))

word_bytes :
    (src : Bytes) (start : ℕ)
    → All IsByte src
    → start + 4 ≤ length src
    → (to_le_bytes 4 (word src start) ≡ take 4 (drop start src)) × (word src start ≤ u32_max)
word_bytes src start a h =
    let bytes = take 4 (drop start src) in
    let are_bytes = IsByte-take 4 (drop start src) (IsByte-drop start src a) in
    let size : length bytes ≡ 4 =
      omega (arith, length-take {0} 4 (drop start src), length-drop {0} start src) in
    (
      to_le_bytes-from_le_bytes bytes 4 are_bytes size,
      omega (arith, from_le_bytes-lt bytes 4 are_bytes size),
    )

pub parse_header-eq-ok :
    (src : Bytes) (header : BvxnHeader)
    → parse_header src ≡ ok header
    → (12 ≤ length src)
      × (word src 0 ≡ bvxn_magic)
      × (word src 4 ≡ header.raw_bytes)
      × (word src 8 ≡ header.payload_bytes)
unfolding parse_header
parse_header-eq-ok src header e = elim (Bool-cases (ltb (length src) 12)) [
  | inl short ↦ let e' = rw short at e in cc
  | inr long ↦
      let h : 12 ≤ length src = ground arith in
      let a = word_at_lem 4 0 src (omega arith) in
      let b = word_at_lem 4 4 src (omega arith) in
      let c = word_at_lem 4 8 src (omega arith) in
      let e' = rw (long, a, b, c) at e in
      elim (Bool-cases (word src 0 == bvxn_magic)) [
        | inl good ↦ let e'' = rw good at e' in (h, ground arith, ground arith, ground arith)
        | inr bad ↦ let e'' = rw bad at e' in cc
      ]
]

header_split :
    (src : Bytes) (raw_bytes payload_bytes : ℕ)
    → All IsByte src
    → 12 ≤ length src
    → word src 0 ≡ bvxn_magic
    → word src 4 ≡ raw_bytes
    → word src 8 ≡ payload_bytes
    → (src ≡ header_bytes raw_bytes payload_bytes ++ drop 12 src)
      × (raw_bytes ≤ u32_max)
      × (payload_bytes ≤ u32_max)
header_split src raw_bytes payload_bytes a h magic raw payload =
    let (m, mb) = word_bytes src 0 a (omega arith) in
    let (r, rb) = word_bytes src 4 a (omega arith) in
    let (p, pb) = word_bytes src 8 a (omega arith) in
    let joined : take 4 (drop 0 src) ++ (take 4 (drop 4 src) ++ take 4 (drop 8 src)) ≡ take 12 src =
      rw (← append_assoc (take 4 src) (take 4 (drop 4 src)) (take 4 (drop 8 src)))
        (rw (take-append-take src 4 4) (take-append-take src 8 4)) in
    (
      rw (← magic, ← raw, ← payload, m, r, p, joined) (sym (take-append-drop 12 src)),
      omega arith,
      omega arith,
    )

pub accepted :
    (src : Bytes) (found header : BvxnHeader) (payload : Bytes)
    → 12 ≤ length src
    → parse_header src ≡ ok found
    → split_block src ≡ ok (header, payload)
    → (found ≡ header) × (drop 12 src ≡ payload) × (length src ≡ 12 + found.payload_bytes)
unfolding split_block
accepted src found header payload h parsed e =
    let size = found.payload_bytes in
    elim (Bool-cases (ltb (length src) (12 + size))) [
      | inl short ↦ let e' = rw (parsed, short) at e in cc
      | inr not_short ↦ elim (Bool-cases (ltb (12 + size) (length src))) [
        | inl long ↦ let e' = rw (parsed, not_short, long) at e in cc
        | inr not_long ↦
            let total : length src ≡ 12 + size = ground arith in
            let all_of_it : take (12 + size - 12) (drop 12 src) ≡ drop 12 src =
              take-length (12 + size - 12) (drop 12 src) (omega (arith, length-drop {0} 12 src)) in
            let cut : slice src 12 (12 + size) ≡ ok (drop 12 src) = ground (arith, all_of_it) in
            let e' = rw (parsed, not_short, not_long, cut) at e in
            (ground arith, ground arith, total)
      ]
    ]

-- A block with this header and this payload, and with sizes that 32 bits hold.
abbrev pub IsBlock : Bytes → BvxnHeader → Bytes → Type 0
IsBlock src header payload =
    (src ≡ header_bytes header.raw_bytes header.payload_bytes ++ payload)
    × (length payload ≡ header.payload_bytes)
    × (header.raw_bytes ≤ u32_max)
    × (header.payload_bytes ≤ u32_max)

-- On bytes, `split_block` succeeds exactly on a header of two 32-bit sizes that is followed by a
-- payload of the second size and nothing else, and it returns that header and that payload.
pub split_block_iff :
    (src : Bytes) (header : BvxnHeader) (payload : Bytes)
    → All IsByte src
    → (split_block src ≡ ok (header, payload)) ↔ IsBlock src header payload
unfolding split_block
split_block_iff src header payload a = (forward, backward)
  where
    forward : split_block src ≡ ok (header, payload) → IsBlock src header payload
    forward e =
        let (found, parsed, rest) = bind_ok (parse_header src) _ e in
        let (h, magic, raw, size) = parse_header-eq-ok src found parsed in
        let (split, raw_fits, size_fits) =
          header_split src found.raw_bytes found.payload_bytes a h magic raw size in
        let (same, back, total) = accepted src found header payload h parsed e in
        subst₂ (IsBlock src) same back
          (split, omega (arith, length-drop {0} 12 src), raw_fits, size_fits)

    backward : IsBlock src header payload → split_block src ≡ ok (header, payload)
    backward (whole, size, raw_fits, size_fits) =
        rw whole
          (rw size at (split_block-header_bytes header.raw_bytes payload raw_fits (omega arith)))

pub split_block-parsed :
    (src : Bytes) (header : BvxnHeader) (payload : Bytes)
    → split_block src ≡ ok (header, payload)
    → (found : BvxnHeader) × (parse_header src ≡ ok found)
unfolding split_block
split_block-parsed src header payload h =
    let (found, parsed, rest) = bind_ok (parse_header src) _ h in (found, parsed)

-- What `decode_into` has the raw decoder do.
pub decode_into-decoded :
    (src dst dst' : Bytes) (written : ℕ) (header : BvxnHeader) (payload : Bytes)
    → split_block src ≡ ok (header, payload)
    → decode_into src dst ≡ ok (written, dst')
    → lzvn.Raw.Decode.decode_into payload dst ≡ ok (written, dst')
unfolding decode_into
decode_into-decoded src dst dst' written header payload split h =
    let h' = rw split at h in
    let ((n, out), decoded, given) = bind_ok (lzvn.Raw.Decode.decode_into payload dst) _ h' in
    elim (Bool-cases (n == header.raw_bytes)) [
      | inl same ↦ let given' = rw same at given in decoded ∙ given'
      | inr other ↦ let refused = rw other at given in cc
    ]

-- A block of any header: `decode` gives what `decode_into` writes to a buffer of the declared size.
pub decode-decode_into_block :
    (src : Bytes) (header : BvxnHeader)
    → parse_header src ≡ ok header
    → decode src ≡ decode_into src (replicate header.raw_bytes 0) >>= λ (written, dst). ok dst
unfolding decode decode_into
decode-decode_into_block src header parsed = go (split_block src) refl
  where
    filled :
        (payload : Bytes) (r : Result (ℕ × Bytes))
        → (r >>= λ (written, dst).
            reject_if (not (written == header.raw_bytes)) (size_mismatch header.raw_bytes written)
            >> ok dst)
          ≡ ((r >>= λ (written, dst').
                reject_if
                  (not (written == header.raw_bytes))
                  (size_mismatch header.raw_bytes written)
                >> ok (written, dst'))
              >>= λ (written, dst). ok dst)
    filled payload (ok (written, dst)) = elim (Bool-cases (written == header.raw_bytes)) [
      | inl same ↦ rw same refl
      | inr other ↦ rw other refl
    ]
    filled payload (err e) = refl
    filled payload panic = refl
    filled payload out_of_fuel = refl

    go :
        (r : Result (BvxnHeader × Bytes))
        → split_block src ≡ r
        → (r >>= λ (found, payload). lzvn.Raw.Decode.decode payload found.raw_bytes) ≡ (
            (r >>= λ (found, payload).
            lzvn.Raw.Decode.decode_into payload (replicate header.raw_bytes 0)
            >>= λ (written, dst').
                reject_if (not (written == found.raw_bytes)) (size_mismatch found.raw_bytes written)
                >> ok (written, dst'))
            >>= λ (written, dst). ok dst)
    go (ok (found, payload)) split =
        let (enough, magic, raw, bytes) = parse_header-eq-ok src header parsed in
        let (same, payload_is, total) = accepted src header found payload enough parsed split in
        rw (← same, decode-decode_into payload header.raw_bytes)
          (filled payload (lzvn.Raw.Decode.decode_into payload (replicate header.raw_bytes 0)))
    go (err e) split = refl
    go panic split = refl
    go out_of_fuel split = refl

pub decode-refused : (src : Bytes) (e : Error) → parse_header src ≡ err e → decode src ≡ err e
unfolding decode split_block
decode-refused src e refused = rw refused refl
