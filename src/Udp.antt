-- ===== src/Udp.antt =====
-- src/o3ds/udp_fragment.cpp and .h: packets that are larger than a datagram are sent in pieces.
pub mod Wire
pub mod Fragmenter
pub mod Combiner
pub mod Mapper
pub mod Chunks
pub mod RoundTrip
mod Tests
