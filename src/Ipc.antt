-- ===== src/Ipc.antt =====
-- Programs that talk through sockets, message queues and shared memory.
pub mod Os
pub mod Buffer
pub mod Decimal
pub mod TcpServer
pub mod TcpClient
pub mod Peers
pub mod Udp
pub mod MessageQueue
