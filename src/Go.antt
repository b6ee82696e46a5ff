-- ===== src/Go.antt =====
-- What the gateway uses of Go's standard library: strings, strconv, time.
pub mod Text
pub mod Strconv
pub mod Duration
