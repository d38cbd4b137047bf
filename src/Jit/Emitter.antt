-- ===== src/Jit/Emitter.antt =====
-- crates/quantum-jit/src/emitter.rs: the AArch64 emitter.
pub mod State
pub mod Word
pub mod Forms
pub mod Integer
pub mod Memory
pub mod Float
pub mod Vector
pub mod Lanes
pub mod Patch
pub mod Items
pub mod Marks
pub mod Finish
pub mod Kept
pub mod Labels
pub mod Decode
pub mod Arithmetic
pub mod ByFields
pub mod RoundTrip
pub mod Constants
pub mod Machine
pub mod Moves
pub mod Loads
pub mod Immediates
pub mod Again
