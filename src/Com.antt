-- ===== src/Com.antt =====
-- src/orwell/com: the text of the messages on the sockets, and the urls.
pub mod RawMessage
pub mod Socket
pub mod Url
