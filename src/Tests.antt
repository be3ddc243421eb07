-- ===== src/Tests.antt =====
-- A small system that meets the laws, and the theorems at concrete inputs.
mod System
mod Frames
mod Sockets
mod Tracking
mod Parts
mod Chatting
mod Rooms
mod Lobbies
mod Clients
mod Programs
mod Terminals
mod Conversing
