-- ===== src/Tests.antt =====
-- The theorems of the development at concrete inputs, and the functions run on such.
mod Memory
mod Containers
mod Maps
mod Processes
mod Scheduling
mod Locks
mod Signalling
mod Files
mod Inodes
mod Pipes
mod Lines
mod Descriptors
mod CachedInodes
mod Turns
