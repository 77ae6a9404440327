-- ===== src/Containers.antt =====
-- The containers of inc/public.
pub mod HashTable
pub mod LinkedQueue
pub mod WaitQueue
pub mod CountedStack
