-- ===== src/Notify.antt =====
-- internal/notify/notify.go: one notification for each alarm, from one elected lantern.
mod PushTests
pub mod Jwt
pub mod Post
pub mod Elect
pub mod Event
pub mod Tracker
pub mod Apns
pub mod RelaySender
