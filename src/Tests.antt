-- ===== src/Tests.antt =====
-- The theorems at concrete inputs.
mod Stores
mod Posix
mod Sysv
mod Chat
mod Memory
mod Proxy
mod Sort
