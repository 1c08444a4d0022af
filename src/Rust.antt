-- ===== src/Rust.antt =====
-- What the program uses of Rust's standard library: machine integers in big-endian order, and
-- UTF-8 text. A `u8`, `u16`, `u32` or `u64` is a native number, a signed integer a `ℤ`; a
-- `String` is the list of its UTF-8 bytes.
mod Int
mod Utf8
mod Decimal
unfoldable pub use Decimal.*
pub use Int.*
unfoldable pub use Utf8.*
