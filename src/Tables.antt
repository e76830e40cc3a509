-- ===== src/Tables.antt =====
-- The in-memory tables of a server node (src/headers/tables.hpp and src/tablesImpl).
pub mod Request
pub mod Identifier
pub mod Int
pub mod PendingQueue
pub mod SentList
pub mod ReplayLog
