-- ===== src/AtomicStorage.antt =====
-- The copy-on-write storage (src/storage.cpp): a volume of blocks in a file, behind a tree of blocks
-- of block numbers. Block has the bytes and numbers of a block, Index the places in the tree, State
-- the globals and the reads, Write and Commit what changes the volume, Open what starts and ends it, Strings
-- the calls that take strings.
pub mod Block
pub mod Index
pub mod State
pub mod Write
pub mod Commit
pub mod Open
pub mod Strings
pub mod Alloc
pub mod Tree
pub mod Versions
