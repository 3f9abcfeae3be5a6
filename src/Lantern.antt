-- ===== src/Lantern.antt =====
-- internal/lantern: one agent's memory, and what it does with checks, flashes and the clock.
mod Tests
mod FlashTests
mod WordsTests
pub mod State
pub mod Merge
pub mod Forget
pub mod Skew
pub mod Liveness
pub mod Pulse
pub mod Push
pub mod Receive
pub mod Blackout
pub mod Gossip
pub mod Status
pub mod Flash
pub mod Words
