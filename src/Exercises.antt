-- ===== src/Exercises.antt =====
-- The exercises of Pointer, Bits and Calculator.
pub mod Substring
pub mod Bits
pub mod MemoryBytes
mod Tests
