-- ===== src/Hermes.antt =====
-- tools/hermes_demo.py: the frames of its WebSocket client, and the demo around a session.
pub mod Frame
pub mod Demo
pub mod Session
pub mod Upgrade
pub mod Profile
pub mod Waiting
pub mod Tests
pub mod SessionTests
pub mod ProfileTests
pub mod WaitingTests
