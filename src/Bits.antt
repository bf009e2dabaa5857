-- ===== src/Bits.antt =====
-- Laws of `^`, `|`, `&` and of the count of ones on words of every width.
pub mod Binary
pub mod Xor
pub mod And
pub mod Count
pub mod Shift
pub mod Digit
pub mod Lead
pub mod Fields
pub mod Powers
