-- ===== src/Notify.antt =====
-- internal/notification: service.go and ssrf.go. What a JSON configuration decodes to and what a
-- channel's server answers are arguments.
pub mod Message
pub mod Webhook
pub mod Send
pub mod Headers
pub mod Expiry
