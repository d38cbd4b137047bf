-- ===== src/Loader.antt =====
-- crates/quantum-loader: an image in guest memory and its base relocations.
pub mod Run
pub mod Image
pub mod Reloc
pub mod Rebased
pub mod Applied
pub mod Pe
pub mod Load
pub mod Parsed
pub mod Loaded
pub mod Fits
pub mod Headers
pub mod Contents
pub mod Exception
pub mod Handlers
