-- ===== src/Hash.antt =====
-- The hash functions of source/lone/hash.
pub mod Fnv1a
pub mod SipHash
mod Tests
