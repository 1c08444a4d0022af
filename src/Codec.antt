-- ===== src/Codec.antt =====
-- crates/core/src/codec: encoders and decoders of column values.
pub mod Interface
pub mod Primitive
pub mod Integers
pub mod Scalars
pub mod Lawful
pub mod Nullable
pub mod Tuple
pub mod BitString
mod Tests
