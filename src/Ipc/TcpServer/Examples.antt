-- ===== src/Ipc/TcpServer/Examples.antt =====
-- Chapter 7/tcp_server.cpp: servers of clients that repeat one message.
use c_programming_for_linux.Prelude.{◌≡◌, refl, []}
use c_programming_for_linux.Ipc.Os.{exited}
use c_programming_for_linux.Ipc.Peers.{repeating}
use c_programming_for_linux.Ipc.TcpServer.{exit_handler}

-- The status after SIGINT, which is signal 2.
exit_handler_status : (exit_handler {A = Unit {0}} 2 (repeating []) []).0 ≡ exited 130
unfolding exit_handler
exit_handler_status = refl
