-- ===== src/Go.antt =====
-- What the program uses of Go's standard library, over strings as lists of bytes.
pub mod Strconv
pub mod Strings
pub mod Dict
pub mod Http
pub mod Duration
pub mod Url
pub mod Trimming
