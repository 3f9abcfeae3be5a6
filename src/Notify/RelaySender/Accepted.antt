-- ===== src/Notify/RelaySender/Accepted.antt =====
-- The pages of internal/notify/relay.go at the relay of cmd/relay/server.go.
use photinus.Notify.Event.{Event}
