-- ===== src/Stream/Drain.antt =====
-- What the buffering encoder hands out, piece by piece, is the encoding of all that it was fed.
use lzvn.Base.{
  drop-drop, ℕ, suc, ◌+◌, ◌-◌, ◌≤◌, ◌≡◌, refl, sym, ap, ◌∙◌, inl, inr, min, Bool, true, false, List,
  [], ◌∷◌, ◌++◌, append-nil, append_assoc, arith, Bytes, length, take, drop, concat, length-take,
  length-drop, take-append, take-append-take, take-length, leb, ◌==◌, Bool-cases, if◌then◌else◌,
}
use lzvn.Error.{Result, ok, err, panic, out_of_fuel, ◌>>=◌, slice, copy_from_slice, checked_sub}
use lzvn.Stream.{
  need_output, finished, StreamEncoder, new, feed, finish_input, is_finished, hand_out, encode_into,
  drain,
}

-- An encoder that has handed out the first `offset` bytes.
abbrev pub ready : Bytes → Bytes → ℕ → StreamEncoder
ready input encoded offset = record {
  input = input;
  encoded = encoded;
  output_offset = offset;
  finished_input = true;
  prepared = true;
}

-- The next bytes of the encoding, as many as are left and the buffer takes; the status tells whether
-- that was all.
pub hand_out-ready :
    (input encoded dst : Bytes) (offset : ℕ)
    → offset ≤ length encoded
    → let n = min (length encoded - offset) (length dst) in
      hand_out (ready input encoded offset) dst
      ≡ ok (
        record {
          written = n;
          status = if offset + n == length encoded then finished else need_output;
        },
        take n (drop offset encoded) ++ drop n dst,
        ready input encoded (offset + n),
      )
unfolding hand_out
hand_out-ready input encoded dst offset h =
    let n = min (length encoded - offset) (length dst) in
    elim (Bool-cases (offset == length encoded)) [
      | inl drained ↦
          let nothing : n ≡ 0 = ground arith in
          let still : offset + n ≡ offset = omega arith in rw (still, nothing, drained) refl
      | inr left ↦
          let room : checked_sub (length encoded) offset ≡ ok (length encoded - offset) =
            ground arith in
          let cut : slice encoded offset (offset + n) ≡ ok (take n (drop offset encoded)) =
            let size : offset + n - offset ≡ n = omega arith in ground (arith, size) in
          let copied : copy_from_slice dst 0 (take n (drop offset encoded))
              ≡ ok (take n (drop offset encoded) ++ drop n dst) =
            let size : 0 + length (take n (drop offset encoded)) ≡ n =
              omega
                (arith, length-take {0} n (drop offset encoded), length-drop {0} offset encoded) in
            let fits : leb n (length dst) ≡ true = ground arith in rw (size, fits) refl in
          rw (left, room, cut, copied) refl
    ]

-- What all the buffers together have room for.
abbrev pub total : List Bytes → ℕ
total [] = 0
total (dst ∷ rest) = length dst + total rest

-- A piece and what follows it.
pieces :
    (xs : Bytes) (k t : ℕ)
    → take (min (length xs) k) xs ++ take t (drop (min (length xs) k) xs) ≡ take (k + t) xs
pieces xs k t =
    let n = min (length xs) k in
    take-append-take xs n t ∙ elim (Bool-cases (leb k (length xs))) [
      | inl inside ↦ let same : n ≡ k = ground arith in rw same refl
      | inr over ↦
          take-length (n + t) xs (ground arith) ∙ sym (take-length (k + t) xs (ground arith))
    ]

module _ (encode : Bytes → Result Bytes) where
  pub drain-ready :
      (input encoded : Bytes) (buffers : List Bytes) (offset : ℕ)
      → offset ≤ length encoded
      → drain encode buffers (ready input encoded offset)
        ≡ ok (
          take (total buffers) (drop offset encoded),
          ready input encoded (min (offset + total buffers) (length encoded)),
        )
  unfolding drain encode_into
  drain-ready input encoded [] offset h =
      let same : min (offset + 0) (length encoded) ≡ offset = omega arith in rw same refl
  drain-ready input encoded (dst ∷ rest) offset h =
      let n = min (length encoded - offset) (length dst) in
      let left : Bytes = drop offset encoded in
      let left_size : length left ≡ length encoded - offset = length-drop offset encoded in
      let piece_size : n ≡ length (take n left) = omega (arith, length-take {0} n left) in
      let kept : take n (take n left ++ drop n dst) ≡ take n left =
        take-append (take n left) (drop n dst) n piece_size in
      let further : min (offset + n + total rest) (length encoded)
          ≡ min (offset + (length dst + total rest)) (length encoded) =
        omega arith in
      let joined : take n left ++ take (total rest) (drop (offset + n) encoded)
          ≡ take (length dst + total rest) left =
        rw (← drop-drop encoded offset n)
          (rw left_size at (pieces left (length dst) (total rest))) in
      rw
        (
          hand_out-ready input encoded dst offset h,
          drain-ready input encoded rest (offset + n) (omega arith),
          kept,
          joined,
          further,
        )
        refl

-- A caller that passes the source in pieces.
abbrev pub feed_all : List Bytes → StreamEncoder → StreamEncoder
feed_all [] e = e
feed_all (piece ∷ rest) e = feed_all rest (feed e piece)

-- An encoder that was fed some bytes.
abbrev fed : Bytes → StreamEncoder
fed input = record new { input = input }

feed-fed : (input piece : Bytes) → feed (fed input) piece ≡ fed (input ++ piece)
feed-fed input [] = ap fed (sym (append-nil input))
feed-fed input (b ∷ bs) =
    let some_left : (suc (length bs) == 0) ≡ false = ground arith in rw some_left refl

feed_all-fed :
    (parts : List Bytes) (input : Bytes) → feed_all parts (fed input) ≡ fed (input ++ concat parts)
feed_all-fed [] input = ap fed (sym (append-nil input))
feed_all-fed (piece ∷ rest) input =
    ap (feed_all rest) (feed-fed input piece)
    ∙ feed_all-fed rest (input ++ piece)
    ∙ ap fed (append_assoc input piece (concat rest))

-- The bytes that were fetched, and whether the encoder says that these are all.
abbrev pub fetched : Result (Bytes × StreamEncoder) → Result (Bytes × Bool)
fetched r = r >>= λ (bytes, e). ok (bytes, is_finished e)

-- As much of an encoding as there is room for, and whether that is all of it.
abbrev pub first_bytes : ℕ → Bytes → Result (Bytes × Bool)
first_bytes room encoded = ok (take room encoded, leb (length encoded) room)

module _ (encode : Bytes → Result Bytes) where
  drain_complete :
      (input dst : Bytes) (rest : List Bytes)
      → drain encode (dst ∷ rest) (finish_input (fed input))
        ≡ (encode input >>= λ encoded. drain encode (dst ∷ rest) (ready input encoded 0))
  unfolding drain encode_into
  drain_complete input dst rest = go (encode input)
    where
      go :
          (r : Result Bytes)
          → ((r >>= λ encoded. hand_out (ready input encoded 0) dst) >>= λ (progress, dst', e').
              drain encode rest e' >>= λ (bytes, e'').
              ok (take progress.written dst' ++ bytes, e''))
            ≡ (r >>= λ encoded. drain encode (dst ∷ rest) (ready input encoded 0))
      go (ok encoded) = refl
      go (err e) = refl
      go panic = refl
      go out_of_fuel = refl

  -- Whatever pieces the source is passed in and whatever buffers the encoding is fetched with, at least
  -- one, the fetched bytes are the encoding of the whole source, as many as the buffers have room for;
  -- the encoder has finished where that is all of it; and an error of the encoding is passed on.
  pub drain-encode :
      (parts : List Bytes) (dst : Bytes) (rest : List Bytes)
      → fetched (drain encode (dst ∷ rest) (finish_input (feed_all parts new)))
        ≡ encode (concat parts) >>= first_bytes (total (dst ∷ rest))
  unfolding is_finished
  drain-encode parts dst rest =
      rw (feed_all-fed parts [], drain_complete (concat parts) dst rest)
        (go (encode (concat parts)))
    where
      go :
          (r : Result Bytes)
          → fetched (r >>= λ encoded. drain encode (dst ∷ rest) (ready (concat parts) encoded 0))
            ≡ r >>= first_bytes (total (dst ∷ rest))
      go (ok encoded) =
          let all : (min (0 + total (dst ∷ rest)) (length encoded) == length encoded)
              ≡ leb (length encoded) (total (dst ∷ rest)) =
            ground arith in
          rw (drain-ready encode (concat parts) encoded (dst ∷ rest) 0 (omega arith), all) refl
      go (err e) = refl
      go panic = refl
      go out_of_fuel = refl
