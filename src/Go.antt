-- ===== src/Go.antt =====
-- What the source uses of Go's standard library on texts and numbers.
pub mod Text
pub mod Bufio
pub mod Hex
pub mod Net
pub mod Os
pub mod Binary
pub mod Fields
pub mod Strconv
pub mod Path
pub mod Utf8
