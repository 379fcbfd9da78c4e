-- ===== src/Car.antt =====
-- deploy/carv2_zstd.py: the CARv1 walk, the CARv2 index and header, and the archive round trip.
pub mod Stream
pub mod Varint
pub mod Copy
pub mod Index
pub mod Archive
pub mod Zstd
