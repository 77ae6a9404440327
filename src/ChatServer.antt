-- ===== src/ChatServer.antt =====
-- The chat server: src/chat_server.
pub mod MsgNode
pub mod Session
pub mod SendQueue
pub mod LogicQueue
pub mod Dao
pub mod Users
pub mod Handlers
