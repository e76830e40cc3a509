-- ===== src/Tests.antt =====
-- Runs at fixed inputs, and the theorems at inputs that meet their hypotheses.
mod Tables
mod Master
mod Node
mod Volume
mod AtomicStorage
mod Client
mod FlatStorage
