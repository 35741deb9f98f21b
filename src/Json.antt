-- ===== src/Json.antt =====
-- src/io/Json.cpp: JSON text, its encoder and its parser.
pub mod Utf8
pub mod Strings
pub mod Escapes
pub mod Numbers
pub mod NumberText
pub mod NumberValues
pub mod Encoder
pub mod Parser
pub mod Tokens
pub mod RoundTrip
pub mod Reread
pub mod Loops
pub mod Starts
pub mod Rounds
pub mod ValueRoundTrip
pub mod Parsed
pub mod ParsedNumbers
pub mod ParsedDocument
pub mod Encodable
pub mod Document
pub mod DocumentText
pub mod Shrinks
pub mod StringFuel
pub mod Fuel
pub mod LoopFuel
pub mod Termination
mod Tests
mod ValueTests
