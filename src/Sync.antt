-- ===== src/Sync.antt =====
-- Threads that share memory.
pub mod TicketLock
pub mod BinarySemaphore
pub mod AtomicFlag
pub mod PosixSemaphore
pub mod Accounts
pub mod MutexCounter
pub mod SharedMessage
pub mod Latch
pub mod AnonymousPipe
pub mod Cancellation
pub mod BrokenPipe
pub mod DetachedThread
pub mod SeparateCounters
pub mod FifoExchange
pub mod Alarm
pub mod Promise
pub mod SharedRegion
pub mod StopTokens
pub mod Event
pub mod ReadWriteLock
pub mod Barrier
pub mod NamedPipe
pub mod AtomicCounter
pub mod Notification
