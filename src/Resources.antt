-- ===== src/Resources.antt =====
-- Classes that own something: a file descriptor, a coroutine frame.
pub mod Handles
pub mod FileGuard
pub mod Generator
pub mod LazyConfig
