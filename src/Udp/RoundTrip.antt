-- ===== src/Udp/RoundTrip.antt =====
-- A packet sent by `UdpFragmenter` and put together by `UdpCombiner`, both of
-- src/o3ds/udp_fragment.cpp.
pub mod Sender
pub mod Receiver
pub mod Transfer
