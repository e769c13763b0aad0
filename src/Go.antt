-- ===== src/Go.antt =====
-- What the program uses of Go's standard library.
pub mod Strings
pub mod Net
pub mod FilePath
pub mod Utf8
pub mod Strconv
pub mod Spaces
pub mod Folding
pub mod Replace
