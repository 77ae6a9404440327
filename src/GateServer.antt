-- ===== src/GateServer.antt =====
-- The gate server: inc/gateserver and src/gateserver.
pub mod Url
pub mod Query
pub mod Dao
pub mod Accounts
