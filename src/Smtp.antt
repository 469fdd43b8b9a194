-- ===== src/Smtp.antt =====
-- src/smtp: the SMTP server's line reader, message bodies and sessions.
pub mod Command
pub mod Lines
pub mod Body
pub mod Session
