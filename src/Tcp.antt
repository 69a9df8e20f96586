-- ===== src/Tcp.antt =====
-- Packets over TCP: the frames of plugins/mobu/device.cpp, the socket of src/o3ds/tcp.cpp,
-- and the receiver of plugins/unreal/Open3DStream/Source/Open3DStream/Private/UOpen3DServer.cpp.
pub mod Frame
pub mod Sender
pub mod Server
pub mod Transfer
pub mod Receive
pub mod Whole
mod Tests
