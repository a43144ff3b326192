-- ===== src/Coroutines.antt =====
-- The coroutines of Chapter 10. That a `Generator` owns its frame is in Resources/Generator.
pub mod SocketStreams
pub mod Counting
pub mod Task
