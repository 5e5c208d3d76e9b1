-- ===== src/Bits/Scan.antt =====
-- The three phases of the scan together are one scan byte by byte.
mod Words
mod First
pub use First.{IsFirst, scan-IsFirst}
