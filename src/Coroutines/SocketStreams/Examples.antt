-- ===== src/Coroutines/SocketStreams/Examples.antt =====
-- Chapter 10/coroutine_socket.cpp: runs of the two threads.
use c_programming_for_linux.Prelude.{◌-◌, ◌^◌, ◌≤◌, ◌≡◌, refl, List, [], ◌∷◌, true, false, run}
use c_programming_for_linux.Ipc.Os.{pos, negsuc, Os}
use c_programming_for_linux.Ipc.Buffer.{codes, array, fill, c_str}
use c_programming_for_linux.Ipc.Peers.{repeating}
use c_programming_for_linux.Coroutines.SocketStreams.{
  Thread, client, ServerPc, ClientPc, State, threads_started, step, buf_size, rounds, to_size,
}
use c_programming_for_linux.Coroutines.SocketStreams.Rounds.{
  sends, strays, receives, ended, ten_datagrams,
}

failed_send : to_size (negsuc 0) ≡ 2 ^ 64 - 1
unfolding to_size
failed_send = refl

-- Every datagram is "abc".
abbrev peer : Os
peer = repeating (codes "abc")

abbrev first_receive : List Thread
first_receive = client ∷ client ∷ []

ten_datagrams_example :
    let s = run (step peer (pos 3)) first_receive threads_started in
    (sends s.history ≤ rounds)
    × (strays s.history ≡ 0)
    × (receives s.history ≤ rounds)
    × (s.server_pc ≡ ServerPc.finished → s.exited ≡ false → sends s.history ≡ rounds)
    × (s.client_pc ≡ ClientPc.finished → s.faulted ≡ false → receives s.history ≡ rounds)
    × ((us : List Thread) × (ended peer (pos 3) (run (step peer (pos 3)) us s) ≡ true))
ten_datagrams_example = ten_datagrams peer (pos 3) first_receive

-- "abc" over a buffer that still holds "message": the tail of the old text stays.
abbrev overlaid : State
overlaid = record threads_started {
  client_pc = ClientPc.resuming;
  tmp_buf = fill (array buf_size) (codes "message");
}

mixed_text : (run (step peer (pos 3)) (client ∷ client ∷ []) overlaid).recv_data ≡ codes "abcsage"
unfolding run step c_str fill array codes repeating
mixed_text = refl
