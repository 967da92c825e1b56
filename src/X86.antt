-- ===== src/X86.antt =====
-- Sources/CPU: the x86-64 state, the decoder and the interpreter.
pub mod State
pub mod Decode
pub mod Interp
