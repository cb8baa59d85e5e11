-- ===== src/Raw/Witnesses.antt =====
-- The theorems on the raw codec at concrete inputs.
use lzvn.Base.{
  ℕ, ◌≡◌, ◌≢◌, refl, ◌+◌, ◌≤◌, ◌<◌, ◌⊎◌, false, get_or, Option, List, [], ◌∷◌, ◌++◌, arith, Bytes,
  take, drop, replicate,
}
use lzvn.Error.{ok, Returns, Any}
use lzvn.Raw.Format.{copy_match}
use lzvn.Raw.Opcode.{classify}
use lzvn.Raw.Opcode.Fields.{field_kind, classify-field_kind}
use lzvn.Raw.Decode.{decode, decode_into, match_loop}
use lzvn.Raw.Decode.Kept.{IsTrueError}
use lzvn.Raw.Decode.Returns.{WritesOnly, decode_into-WritesOnly}
use lzvn.Raw.Decode.View.{match_loop-append}
use lzvn.Raw.Encode.{Encoder, Match, match_length, find_match}
use lzvn.Raw.Encode.Find.{IsBest, Agree, match_length_lem, find_match-IsBest}
use lzvn.Raw.Encode.Emit.{emit_match_with_literals}
use lzvn.Raw.Encode.Emit.Literals.{Emits}
use lzvn.Raw.Encode.Emit.Inline.{emit_match_with_literals-Emits}
use lzvn.Raw.Encode.Loop.{encode}
use lzvn.Raw.Encode.Loop.RoundTrip.{decode-encode}
use lzvn.Raw.Decode.Tests.{xyz_stream, decode_into_xyz}
use lzvn.Raw.StreamDecoder.{RawDecoder, is_finished}
use lzvn.Raw.StreamDecoder.Loop.Sound.{IsSound, IsStreamError}
use lzvn.Raw.StreamDecoder.Loop.Safe.{Decodes, decode_into-Decodes}
use lzvn.Raw.StreamDecoder.Feed.{new-IsSound, feed-IsSound}
use lzvn.Raw.StreamDecoder.Script.{Event, feeds, ends, drains, drive, Feeds, drive-IsSound}
use lzvn.Raw.StreamDecoder.Delivery.{drive-decode_into, drive-finishes}
use lzvn.Stream.{new, finish_input, StreamProgress, finished}
use lzvn.Stream.Drain.{total, feed_all, fetched, first_bytes}
use lzvn.Raw.Stream.{drain}
use lzvn.Raw.Stream.RoundTrip.{decode-drain}

abbrev abcabc : Bytes
abcabc = b'a' ∷ b'b' ∷ b'c' ∷ b'a' ∷ b'b' ∷ b'c' ∷ b'a' ∷ b'b' ∷ b'c' ∷ []

-- An encoder in the middle of `abcabcabc`, with the last distance 3 and an unlucky table.
abbrev midway : Encoder
midway = record {
  src = abcabc;
  output = [];
  table = λ _. 0 ∷ 1 ∷ 7 ∷ 2 ∷ [];
  literal_start = 0;
  position = 3;
  previous_distance = 3;
}

decode-encode_example : (bytes : Bytes) × (encode abcabc ≡ ok bytes) × (decode bytes 9 ≡ ok abcabc)
decode-encode_example = decode-encode abcabc

find_match-IsBest_example : (m : Option Match) × (find_match midway 3 ≡ ok m) × IsBest abcabc 3 m
find_match-IsBest_example = find_match-IsBest midway 3 (omega arith)

emit_match_with_literals-Emits_example :
    Emits
      (emit_match_with_literals midway (b'x' ∷ []) 40 3)
      midway
      abcabc
      (copy_match 40 3 (abcabc ++ (b'x' ∷ [])))
      3
emit_match_with_literals-Emits_example =
    emit_match_with_literals-Emits midway (b'x' ∷ []) abcabc 40 3 (omega arith) (omega arith)
      (omega arith) (omega arith)

classify-field_kind_example : classify 0x86 ≡ field_kind 2 0 6
classify-field_kind_example = classify-field_kind 0x86 (omega arith)

decode_into-WritesOnly_example :
    Returns
      (WritesOnly abcabc)
      (IsTrueError (0xE3 ∷ b'x' ∷ b'y' ∷ b'z' ∷ 0xF2 ∷ 6 ∷ []) abcabc)
      (decode_into (0xE3 ∷ b'x' ∷ b'y' ∷ b'z' ∷ 0xF2 ∷ 6 ∷ []) abcabc)
decode_into-WritesOnly_example =
    decode_into-WritesOnly (0xE3 ∷ b'x' ∷ b'y' ∷ b'z' ∷ 0xF2 ∷ 6 ∷ []) abcabc

match_loop-append_example :
    match_loop 4 2 0 2 (b'h' ∷ b'a' ∷ 0 ∷ 0 ∷ 0 ∷ 0 ∷ 9 ∷ [])
    ≡ ok (copy_match 4 2 (b'h' ∷ b'a' ∷ []) ++ (9 ∷ []))
match_loop-append_example =
    match_loop-append (0 ∷ 0 ∷ 0 ∷ 0 ∷ []) 2 0 2 (b'h' ∷ b'a' ∷ []) (9 ∷ []) refl (omega arith)
      (omega arith)

match_length_lem_example :
    (len : ℕ) × (match_length abcabc 0 3 ≡ ok len)
    × (3 + len ≤ 9)
    × Agree abcabc 0 3 len
    × (3 + len < 9 → get_or abcabc (0 + len) 0 ≢ get_or abcabc (3 + len) 0)
match_length_lem_example = match_length_lem abcabc 0 3 (omega arith) (omega arith)

decode-drain_example :
    (encoded : Bytes) × (fetched
        (drain (abcabc ∷ abcabc ∷ []) (finish_input (feed_all ((1 ∷ []) ∷ abcabc ∷ []) new)))
      ≡ first_bytes (total (abcabc ∷ abcabc ∷ [])) encoded)
    × (decode encoded 10 ≡ ok (1 ∷ abcabc))
decode-drain_example = decode-drain ((1 ∷ []) ∷ abcabc ∷ []) abcabc (abcabc ∷ [])

-- The stream fed in two parts, with a buffer of two bytes before the second.
abbrev xyz_calls : List Event
xyz_calls = feeds (take 5 xyz_stream) ∷ drains (0 ∷ 0 ∷ []) ∷ feeds (drop 5 xyz_stream) ∷ ends ∷ []

xyz_calls-Feeds : Feeds xyz_stream xyz_calls []
unfolding Feeds
xyz_calls-Feeds = (drop 5 xyz_stream, refl, ([], refl, (refl, refl)))

drive-decode_into_example :
    Returns
      (λ (r : Bytes × RawDecoder).
        (rest : Bytes) × (b'x' ∷ b'y' ∷ b'z' ∷ b'x' ∷ b'y' ∷ b'z' ∷ b'x' ∷ [] ≡ r.0 ++ rest)
        × ((rest ≡ []) ⊎ (is_finished r.1 ≡ false)))
      (λ e. ⊥)
      (drive xyz_calls lzvn.Raw.StreamDecoder.new)
drive-decode_into_example =
    drive-decode_into xyz_stream (replicate 8 1)
      (b'x' ∷ b'y' ∷ b'z' ∷ b'x' ∷ b'y' ∷ b'z' ∷ b'x' ∷ 1 ∷ []) [] 7 xyz_calls decode_into_xyz
      xyz_calls-Feeds

abbrev xyz_fed : RawDecoder
xyz_fed = lzvn.Raw.StreamDecoder.feed lzvn.Raw.StreamDecoder.new xyz_stream

abbrev xyz_feed : List Event
xyz_feed = feeds xyz_stream ∷ []

xyz_feed-Feeds : Feeds xyz_stream xyz_feed []
unfolding Feeds
xyz_feed-Feeds = ([], refl, refl)

drive-xyz_feed : drive xyz_feed lzvn.Raw.StreamDecoder.new ≡ ok ([], xyz_fed)
unfolding drive
drive-xyz_feed = refl

drive-finishes_example :
    Returns
      (λ (s : StreamProgress × Bytes × RawDecoder).
        (s.0.status ≡ finished)
        × (b'x' ∷ b'y' ∷ b'z' ∷ b'x' ∷ b'y' ∷ b'z' ∷ b'x' ∷ [] ≡ take s.0.written s.1))
      (λ e. ⊥)
      (lzvn.Raw.StreamDecoder.Loop.decode_into xyz_fed (replicate 8 0))
drive-finishes_example =
    drive-finishes xyz_stream (replicate 8 1)
      (b'x' ∷ b'y' ∷ b'z' ∷ b'x' ∷ b'y' ∷ b'z' ∷ b'x' ∷ 1 ∷ []) (replicate 8 0) 7 xyz_feed []
      xyz_fed decode_into_xyz xyz_feed-Feeds drive-xyz_feed (omega arith)

xyz_fed-IsSound : IsSound xyz_fed
xyz_fed-IsSound = feed-IsSound lzvn.Raw.StreamDecoder.new xyz_stream new-IsSound

decode_into-Decodes_example :
    Returns
      (Decodes xyz_fed (replicate 4 0))
      (IsStreamError xyz_fed)
      (lzvn.Raw.StreamDecoder.Loop.decode_into xyz_fed (replicate 4 0))
decode_into-Decodes_example = decode_into-Decodes xyz_fed (replicate 4 0) xyz_fed-IsSound

drive-IsSound_example :
    Returns
      (λ (r : Bytes × RawDecoder). IsSound r.1 × (r.1.history ≡ xyz_fed.history ++ r.0))
      Any
      (drive xyz_calls xyz_fed)
drive-IsSound_example = drive-IsSound xyz_calls xyz_fed xyz_fed-IsSound
