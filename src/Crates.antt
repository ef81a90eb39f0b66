-- ===== src/Crates.antt =====
-- The third-party code that the packet code calls, as parameters with the laws that its documentation states.
pub mod Buffer
pub mod Checksum
pub mod Ipnet
