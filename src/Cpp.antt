-- ===== src/Cpp.antt =====
-- What the program uses of the C++ language and its standard library.
pub mod Checked
pub mod Int
pub mod Word
pub mod Text
pub mod Floats
pub mod Digits
