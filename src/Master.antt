-- ===== src/Master.antt =====
-- The master (src/master_main.cpp, src/interfaceImpl/masterService): the list of the nodes in the
-- order of the chain, and the repair of the chain when a node fails.
pub mod Nodes
pub mod Failure
pub mod Chain
pub mod Heartbeat
pub mod Registration
