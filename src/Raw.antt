-- ===== src/Raw.antt =====
-- src/raw: the raw LZVN stream.
pub mod Opcode
pub mod Format
pub mod Decode
pub mod Encode
pub mod Stream
pub mod StreamDecoder
pub mod Code
pub mod Refusal
mod Witnesses
