-- ===== src/Tests.antt =====
-- Tests of the models on concrete input, and instances of the theorems.
mod Jit
mod Kernel32
mod CriticalSection
mod Heap
mod Emitter
mod Loader
mod Runtime
mod Pe
mod Exception
