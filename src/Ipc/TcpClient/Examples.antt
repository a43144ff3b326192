-- ===== src/Ipc/TcpClient/Examples.antt =====
-- Chapter 7/tcp_client.cpp: clients of servers that repeat one answer.
use c_programming_for_linux.Prelude.{◌≡◌, refl, [], replicate}
use c_programming_for_linux.Ipc.Os.{pos, fault}
use c_programming_for_linux.Ipc.Peers.{repeating, repeating-FillsBuffers}
use c_programming_for_linux.Ipc.TcpClient.{receive}
use c_programming_for_linux.Ipc.TcpClient.Answer.{answer_overruns_iff_full}

long_answer_overruns : (receive (repeating (replicate 20 65)) (pos 3) []).0 ≡ fault
unfolding repeating
long_answer_overruns =
    (answer_overruns_iff_full (repeating (replicate 20 65))
        (repeating-FillsBuffers (replicate 20 65)) (pos 3) []).1
      refl
