-- ===== src/Apple/Decmpfs/Tests.antt =====
-- The header of a small wrapper.
use lzvn.Base.{◌≡◌, refl, [], ◌∷◌, Bytes}
use lzvn.Error.{ok}
use lzvn.Words.{word_at, from_le_bytes}
use lzvn.Apple.Decmpfs.{lzvn_xattr, DecmpfsHeader, parse_header, from_raw}

-- An xattr with `hello` inline.
abbrev pub hello_xattr : Bytes
hello_xattr =
    b'f' ∷ b'p' ∷ b'm' ∷ b'c' ∷ 7 ∷ 0 ∷ 0 ∷ 0 ∷ 5 ∷ 0 ∷ 0 ∷ 0 ∷ 0 ∷ 0 ∷ 0 ∷ 0 ∷ 6 ∷ b'h' ∷ b'e'
    ∷ b'l' ∷ b'l' ∷ b'o' ∷ []

abbrev pub hello_header : DecmpfsHeader
hello_header = record { compression_type = lzvn_xattr; uncompressed_size = 5 }

pub parse_header-hello_xattr : parse_header hello_xattr ≡ ok hello_header
unfolding parse_header from_raw word_at from_le_bytes
parse_header-hello_xattr = refl
