-- ===== src/Strings.antt =====
-- What the program uses of `strtok_r`, `std::string` and the number readers of the C and C++
-- libraries, over texts. The theorems about them stand in the children.
pub mod Tokens
pub mod Numbers
