-- ===== src/Kernel32.antt =====
-- crates/quantum-kernel32: the Win32 layer.
pub mod Handles
pub mod CriticalSection
pub mod Heap
