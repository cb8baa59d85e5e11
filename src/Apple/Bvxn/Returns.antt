-- ===== src/Apple/Bvxn/Returns.antt =====
-- On any block `decode` and `decode_into` end without a panic.
use lzvn.Base.{
  ℕ, ◌+◌, ◌-◌, ◌≤◌, ◌≡◌, refl, inl, inr, not, arith, Bytes, length, take, drop, ltb, ◌==◌,
  Bool-cases,
}
use lzvn.Error.{
  Result, ok, err, panic, out_of_fuel, ◌>>=◌, ◌>>◌, Any, Returns, Returns-map, Returns-bind, slice,
  reject_if, size_mismatch,
}
use lzvn.Words.{from_le_bytes, word_at_lem}
use lzvn.Raw.Decode
use lzvn.Raw.Decode.Kept.{IsTrueError}
use lzvn.Raw.Decode.Returns.{WritesOnly, decode_into-WritesOnly}
use lzvn.Apple.Bvxn.{BvxnHeader, header_len, bvxn_magic, parse_header, split_block, decode_into}

pub parse_header-Returns :
    (src : Bytes) → Returns (λ header. header_len ≤ length src) Any (parse_header src)
unfolding parse_header
parse_header-Returns src = elim (Bool-cases (ltb (length src) header_len)) [
  | inl short ↦ rw short tt
  | inr long ↦
      let enough : header_len ≤ length src = ground arith in
      let magic = from_le_bytes (take 4 (drop 0 src)) in
      let read_magic = word_at_lem 4 0 src (omega arith) in
      let read_raw = word_at_lem 4 4 src (omega arith) in
      let read_payload = word_at_lem 4 8 src (omega arith) in
      elim (Bool-cases (magic == bvxn_magic)) [
        | inr other ↦ rw (long, read_magic, other) tt
        | inl same ↦ rw (long, read_magic, same, read_raw, read_payload) enough
      ]
]

split_block-Returns : (src : Bytes) → Returns (λ (header, payload). Unit {0}) Any (split_block src)
unfolding split_block
split_block-Returns src =
    Returns-bind (λ header. header_len ≤ length src) (λ (header, payload). Unit {0}) Any
      (parse_header src) _ (parse_header-Returns src)
      (λ header enough.
        let end = header_len + header.payload_bytes in
        elim (Bool-cases (ltb (length src) end)) [
          | inl short ↦ rw short tt
          | inr long ↦ elim (Bool-cases (ltb end (length src))) [
            | inl more ↦ rw (long, more) tt
            | inr all ↦
                let cut : slice src header_len end
                    ≡ ok (take (end - header_len) (drop header_len src)) =
                  ground arith in
                rw (long, all, cut) tt
          ]
        ])

-- The declared size was written, and nothing behind it was changed.
abbrev pub FillsBlock : Bytes → Bytes → ℕ × Bytes → Type 0
FillsBlock src dst (written, dst') =
    WritesOnly dst (written, dst')
    × ((header : BvxnHeader) × (payload : Bytes) × (split_block src ≡ ok (header, payload))
        × (written ≡ header.raw_bytes))

-- On any block and buffer `decode_into` ends without a panic, and if it succeeds it has written the
-- size that the header declares, which the buffer holds, and has kept the bytes behind.
pub decode_into-FillsBlock :
    (src dst : Bytes) → Returns (FillsBlock src dst) Any (decode_into src dst)
unfolding decode_into
decode_into-FillsBlock src dst = go (split_block src) refl (split_block-Returns src)
  where
    go :
        (r : Result (BvxnHeader × Bytes))
        → split_block src ≡ r
        → Returns (λ (header, payload). Unit {0}) Any r
        → Returns (FillsBlock src dst) Any (
            r >>= λ (header, payload). Decode.decode_into payload dst >>= λ (written, dst').
            reject_if (not (written == header.raw_bytes)) (size_mismatch header.raw_bytes written)
            >> ok (written, dst'))
    go (ok (header, payload)) split any =
        Returns-bind (WritesOnly dst) (FillsBlock src dst) Any (Decode.decode_into payload dst) _
          (Returns-map (WritesOnly dst) (WritesOnly dst) (IsTrueError payload dst) Any
            (Decode.decode_into payload dst) (λ r w. w) (λ e w. tt)
            (decode_into-WritesOnly payload dst))
          (λ (written, dst') kept. elim (Bool-cases (written == header.raw_bytes)) [
            | inr other ↦ rw other tt
            | inl same ↦ rw same (kept, (header, payload, split, ground arith))
          ])
    go (err e) split any = tt
    go panic split any = any
    go out_of_fuel split any = any
