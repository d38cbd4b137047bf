-- ===== src/Runtime.antt =====
-- crates/quantum-runtime: the code cache and the dispatcher.
pub mod CodeCache
pub mod Dispatcher
pub mod Installed
pub mod Chained
