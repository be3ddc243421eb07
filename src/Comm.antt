-- ===== src/Comm.antt =====
-- Frames on a byte stream (src/libs/communication.h, src/libs/communication.cpp): each frame is a
-- header of four hexadecimal digits and as many bytes as they say.
pub mod Header
pub mod Stream
pub mod Buffers
