-- ===== src/Common/Bits.antt =====
-- The laws of `&`, `|` and `^` at variables, for every width, from the digit recursion by which
-- the native operations are defined.
pub mod Step
pub mod Split
pub mod Xor
pub mod Fields
