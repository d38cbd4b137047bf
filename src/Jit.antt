-- ===== src/Jit.antt =====
-- crates/quantum-jit: the translator from x86 to AArch64.
pub mod Iform
pub mod Decoder
pub mod Block
pub mod Emitter
