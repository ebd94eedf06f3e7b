-- ===== src/Notifiers.antt =====
-- internal/alert/notifiers: what the alert destinations send.
pub mod Telegram
pub mod Payloads
