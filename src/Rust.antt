-- ===== src/Rust.antt =====
-- What the source uses of Rust's standard library: `str` methods, `String::from_utf8_lossy`,
-- `std::net::IpAddr` as text and `std::path` on Unix, each written after the library's own code.
pub mod Str
pub mod Decimal
pub mod Utf8
pub mod FilePath
pub mod Ip
pub mod IpParse
pub mod IpDisplay
