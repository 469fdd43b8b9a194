-- ===== src/Message.antt =====
-- src/message: the messages' headers and mailboxes.
pub mod Headers
pub mod Mailboxes
