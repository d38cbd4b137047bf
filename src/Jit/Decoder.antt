-- ===== src/Jit/Decoder.antt =====
-- crates/quantum-jit/src/decoder.rs: the x86 instruction decoder.
pub mod State
pub mod Prefixes
pub mod ModRm
pub mod Groups
pub mod OneByte
pub mod Primary
pub mod TwoByte
pub mod Secondary
pub mod Next
pub mod Total
pub mod Examples
pub mod RoundTrip
pub mod Quirks
pub mod Sound
