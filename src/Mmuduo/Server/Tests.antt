-- ===== src/Mmuduo/Server/Tests.antt =====
-- The theorems on the server at one with three loops.
