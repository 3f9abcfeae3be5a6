-- ===== src/Cmd.antt =====
-- cmd/photinus: the command line.
pub mod Config
pub mod Watch
pub mod Start
pub mod Status
pub mod Panel
mod Tests
pub mod Run
pub mod Main
mod DoorTests
