-- ===== src/Facade.antt =====
-- src/lib.rs: the functions of the crate, under the names that it exports.
use lzvn.Base.{ℕ, Bytes, Option}
use lzvn.Error.{Result}
use lzvn.Raw.Decode
use lzvn.Raw.Encode.Loop
use lzvn.Apple.Bvxn
use lzvn.Apple.Decmpfs.{EncodedDecmpfs}
use lzvn.Apple.Decmpfs.Codec

abbrev pub encode_raw : Bytes → Result Bytes
encode_raw src = Loop.encode src

abbrev pub decode_raw : Bytes → ℕ → Result Bytes
decode_raw src decoded_len = Decode.decode src decoded_len

abbrev pub decode_raw_into : Bytes → Bytes → Result (ℕ × Bytes)
decode_raw_into src dst = Decode.decode_into src dst

abbrev pub encode_decmpfs : Bytes → Result EncodedDecmpfs
encode_decmpfs src = Codec.encode src

abbrev pub decode_decmpfs : Bytes → Option Bytes → Result Bytes
decode_decmpfs xattr resource_fork = Codec.decode xattr resource_fork

abbrev pub decode_decmpfs_into : Bytes → Option Bytes → Bytes → Result (ℕ × Bytes)
decode_decmpfs_into xattr resource_fork dst = Codec.decode_into xattr resource_fork dst

abbrev pub encode_bvxn : Bytes → Result Bytes
encode_bvxn src = Bvxn.encode src

abbrev pub decode_bvxn : Bytes → Result Bytes
decode_bvxn src = Bvxn.decode src

abbrev pub decode_bvxn_into : Bytes → Bytes → Result (ℕ × Bytes)
decode_bvxn_into src dst = Bvxn.decode_into src dst
