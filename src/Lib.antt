-- ===== src/Lib.antt =====
-- The programs of the book "C++ Programming for Linux Systems", one folder for each chapter.
--
-- The programs are small and independent. Those modelled here are the ones with logic of their own:
-- threads and processes that share memory (Sync), processes that wait for each other (Processes),
-- processes that talk over sockets and queues (Ipc), generators and coroutines (Coroutines), classes
-- that own something (Resources), walks through a directory (Filesystem), means of numbers
-- (Averages), error codes and exceptions (Errors).
--
-- Sync. A program is a record of its shared variables and of the place where each thread stands, and
-- a function `step` that gives the state after one turn of one thread, or none where the thread is
-- blocked or has ended. One turn is one access to shared memory; memory is sequentially consistent,
-- and what only prints or sleeps is left out where no result is about what is printed. A schedule
-- is any list of threads (Prelude/Interleaving); a result about every schedule is about every
-- interleaving.
--   Chapter 9/ticket_lock.cpp: Sync/TicketLock (TicketLock, producer, consumer); its abstract view
--     (Sync/TicketLock/Refinement) is a program without a lock, with whole critical sections as steps
--   Chapter 7/cpp_sem_example.cpp: Sync/BinarySemaphore (producer, consumer)
--   Chapter 7/cpp_atomic_flags.cpp: Sync/AtomicFlag (increment, decrement)
--   Chapter 7/posix_semaphore_example.c: Sync/PosixSemaphore (producer, consumer)
--   Chapter 7/cpp_mutex.cpp: Sync/MutexCounter (increment)
--   Chapter 6/data-race.cpp: Sync/Accounts (Account, TransferMoney)
--   Chapter 7/cpp_increment_atomic.cpp: Sync/AtomicCounter (increment), which is also the
--     abstract view of the counter with the mutex
--   Chapter 6/barrier-temperature.cpp: Sync/Barrier (GetTemperatures, ProcessMeasurement, main)
--   Chapter 6/latch.cpp: Sync/Latch (main)
--   Chapter 6/stop-source.cpp, Chapter 6/stop-token.cpp: Sync/StopTokens (worker, main)
--   Chapter 9/coop_cancellation.cpp: Sync/Cancellation (worker, stopper_func, main)
--   Chapter 3/anonymous_pipe_example.cpp: Sync/AnonymousPipe (main)
--   Chapter 3/anonymous_pipe_sigpipe_example.c: Sync/BrokenPipe (main)
--   Chapter 9/condition_var.cpp: Sync/Notification (waiting, done)
--   Chapter 3/cpp_and_named_pipe.cpp: Sync/NamedPipe (read, write, main)
--   Chapter 9/shared_mem_sp.cpp: Sync/SharedMessage (producer, consumer)
--   Chapter 9/read_write_lock.cpp: Sync/ReadWriteLock (the readers, the writer, main)
--   Chapter 7/shm_example.cpp: Sync/SharedRegion (process_creator)
--   Chapter 10/shmem_coroutines.cpp: Sync/Event (Event, Event::Awaiter, receiver)
--   Chapter 2/thread_creation_example.cpp: Sync/DetachedThread (thread_creator)
--   Chapter 9/hardware_interference_example.cpp: Sync/SeparateCounters (increment, main)
--   Chapter 3/named_pipe_example.c: Sync/FifoExchange (main)
--   Chapter 8/posix-alarm.cpp: Sync/Alarm (main and the handler of the signal)
--   Chapter 6/future-promise.cpp: Sync/Promise (main)
--
-- Processes. Steps as in Sync, of a parent and the children that it forks and waits for.
--   Chapter 2/waitpid_example.cpp: Processes/WaitPid (process_creator)
--
-- Ipc. The operating system is a parameter: it answers a call from the history of the calls before it
-- (Ipc/Os). A program is a do block over these calls, and ends normally, with an exception, with an
-- exit status, or in undefined behaviour: a write behind the end of an array, a read of an object that
-- has been destroyed, an overflow. What the programs rely on is named where it is used: that a call
-- which fills a buffer puts as many bytes there as it returns, and no more than the size given
-- (`FillsBuffers`). Endless loops run for a number of rounds that is an argument; results hold for
-- every number, so no bound is chosen.
--   Chapter 7/tcp_server.cpp: Ipc/TcpServer (main, exitHandler)
--   Chapter 7/tcp_client.cpp: Ipc/TcpClient (main)
--   Chapter 7/udp_example.cpp: Ipc/Udp (die_roll, process_creator)
--   Chapter 7/mq_example.cpp: Ipc/MessageQueue (readFromQueue, writeToQueue)
--
-- Coroutines. A frame is a record of the coroutine's variables and of its promise; resuming it runs to
-- the next co_yield.
--   Chapter 10/coroutine_socket.cpp: Coroutines/SocketStreams (send_to, recv_from, the threads of main)
--   Chapter 10/generator_example.cpp: Coroutines/Counting (exCoroutine, Generator::next, main); the loop
--     of main takes fuel, and more than as many rounds as numbers are enough
--   Chapter 10/coroutines.cpp: Coroutines/Task (Task, its promise, main)
--
-- Filesystem. A directory is the list of its entries, directories with their own; the iterators of
-- the library are functions of it, and a path is looked up by the names on it.
--   Chapter 3/dir_iterator.cpp, Chapter 3/dir_symlink.cpp: Filesystem/Listing (main)
--
-- Averages and Errors. Values without shared state; floating-point numbers are a type with the
-- operations that the programs use.
--   Chapter 4/mean_value.cpp, Chapter 4/lambdas.cpp: Averages (Mean, mean_lambda)
--   Chapter 5/custom-error-category.cpp: Errors/Category (MyFileLibraryCategory)
--   Chapter 5/error-code.cpp, Chapter 5/error-condition.cpp: Errors/Directory (CreateDirectory, main)
--   Chapter 5/system-error.cpp: Errors/SystemError; Chapter 5/rethrow.cpp: Errors/Rethrow; both over
--     the throwing and catching of Errors/Exceptions
--
-- Resources. A program is a sequence of operations on variables that hold a handle or none
-- (Resources/Handles): constructions, moves, move-assignments and destructions, in any order.
--   Chapter 10/coroutine_socket.cpp: Resources/Generator (Generator)
--   Chapter 5/raii.cpp: Resources/FileGuard (file_guard)
--   Chapter 9/lazy_init.cpp: Resources/LazyConfig (Settings, Config), one object whose settings are
--     there or not
--
-- Not modelled: the programs whose body is a sequence of library calls with printing (most of
-- Chapters 2, 3, 4 and 8), and the threads of Chapter 6 that print one line each. Nothing of the
-- C++ library or of Linux is proved; their documented behaviour is assumed.
mod Prelude
pub mod Sync
pub mod Ipc
pub mod Coroutines
pub mod Resources
pub mod Averages
pub mod Errors
pub mod Processes
pub mod Filesystem
