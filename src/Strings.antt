-- ===== src/Strings.antt =====
-- The string functions of lib/System.cpp and the string operators of lib/core/core.h.
pub mod Slice
pub mod Operators
pub mod Pad
pub mod Trim
pub mod Case
pub mod Count
pub mod Search
pub mod Replace
pub mod Split
