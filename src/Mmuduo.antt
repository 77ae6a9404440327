-- ===== src/Mmuduo.antt =====
-- The network library: inc/mmuduo and src/mmuduo.
pub mod Buffer
pub mod Channel
pub mod Poller
pub mod Connection
pub mod EventLoop
pub mod Connector
pub mod Server
pub mod Client
