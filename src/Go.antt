-- ===== src/Go.antt =====
-- What the sources use of Go's standard library.
pub mod Strings
pub mod Suffix
pub mod Format
pub mod Sha256
pub mod Json
