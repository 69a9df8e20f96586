-- ===== src/Context.antt =====
-- src/o3ds/context.h and context.cpp: coordinate systems and the conversion between two of them.
pub mod Axes
pub mod Conversion
pub mod Helpers
pub mod Totality
pub mod Inverse
pub mod Rotation
pub mod Same
mod Tests
