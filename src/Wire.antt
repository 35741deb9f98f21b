-- ===== src/Wire.antt =====
-- include/common/Serialize.hpp and include/common/BinaryPack.hpp: the binary wire profile.
pub mod Endian
pub mod Reader
pub mod Scalars
pub mod Strings
pub mod Items
pub mod Types
pub mod RoundTrip
pub mod Extension
pub mod Pack
mod Tests
