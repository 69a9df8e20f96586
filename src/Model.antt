-- ===== src/Model.antt =====
-- src/o3ds/model.h and model.cpp: transforms, subjects, and the packets that carry them.
pub mod Types
pub mod Transform
pub mod Hierarchy
pub mod Wire
pub mod Subject
pub mod Update
pub mod Tracking
pub mod Assertions
pub mod RoundTrip
pub mod Envelope
pub mod Packet
pub mod Codes
pub mod Camera
pub mod Bodies
pub mod Items
pub mod SubjectList
mod Tests
