-- ===== src/Ipc/Udp/Examples.antt =====
-- Chapter 7/udp_example.cpp: a child that is asked for a throw, and a parent that is told to throw twice.
use c_programming_for_linux.Prelude.{◌≡◌, refl, [], ◌∷◌}
use c_programming_for_linux.Ipc.Os.{pos, Call, Os, History, fault}
use c_programming_for_linux.Ipc.Buffer.{array, codes, fill, terminate}
use c_programming_for_linux.Ipc.Peers.{repeating}
use c_programming_for_linux.Ipc.Udp.{stop, child_round, parent}

-- The message that the parent ends with does not fit into the child's buffer.
stop_overruns : (child_round (repeating stop) (pos 3) (array 16) []).0 ≡ fault
unfolding child_round repeating stop codes array fill terminate
stop_overruns = refl

-- The peer answers "5".
abbrev player : Os
player h Call.cin = record { ret = pos 2; bytes = [] }
player h c = repeating (53 ∷ []) h c

abbrev two_throws : History
two_throws = (parent player []).1
