-- ===== src/Tests.antt =====
-- Runs of the model on small inputs, and each theorem at one of them.
mod Utils
mod Superblock
mod Metadata
mod Inode
mod Load
mod Directory
mod Data
mod Fragment
mod Read
mod Cache
mod Vfs
mod Shared
