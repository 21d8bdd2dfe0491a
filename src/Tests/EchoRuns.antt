-- ===== src/Tests/EchoRuns.antt =====
-- Runs of the server of socket_test/tcp_select_server_v2.c, and of one of its clients.
use linux_system_programing.Prelude.{ℕ, ◌≡◌, refl, List, [], ◌∷◌, ◌++◌, arith}
use linux_system_programing.Lines.{newline, complete, partial}
use linux_system_programing.Kernel.{bytes, recv_error, took, eagain}
use linux_system_programing.Echo.Client.{
  Client, init_client, handle_recv, handle_send, ok, scan, move_line, echo_lines, fill,
  append_received, take_in,
}
use linux_system_programing.Bytes.{blit}
use linux_system_programing.Echo.Views.{pending, queued, IsValid, init_client-IsValid}
use linux_system_programing.Echo.Recv.{handle_recv-IsValid}
use linux_system_programing.Echo.Send.{accepted, Takes}
use linux_system_programing.Echo.Stream.{Stream, start, received, sent, echo_stream}

-- "hi\nyo"
abbrev hi_yo : List ℕ
hi_yo = b'h' ∷ b'i' ∷ newline ∷ b'y' ∷ b'o' ∷ []

abbrev fed : Client
fed = (handle_recv (bytes hi_yo) init_client).0

fed_ok : handle_recv (bytes hi_yo) init_client ≡ (fed, ok)
unfolding handle_recv init_client take_in echo_lines fill append_received blit scan move_line
fed_ok = refl

queued-fed : queued fed ≡ b'h' ∷ b'i' ∷ newline ∷ []
unfolding handle_recv init_client take_in echo_lines fill append_received blit scan move_line
queued-fed = refl

fed-IsValid : IsValid fed
fed-IsValid = handle_recv-IsValid (bytes hi_yo) init_client-IsValid (omega arith)

-- send() takes two of the three bytes that are queued.
two_taken : Takes (took 2) fed
unfolding handle_recv init_client take_in echo_lines fill append_received blit scan move_line
two_taken = omega arith

abbrev drained : Client
drained = (handle_send (took 2) fed).0

drained_ok : handle_send (took 2) fed ≡ (drained, ok)
unfolding handle_recv handle_send init_client take_in echo_lines fill append_received blit scan
    move_line
drained_ok = refl

-- A line and a half come in, two bytes go out, and recv() would block.
run : Stream init_client (([] ++ hi_yo) ++ []) ([] ++ accepted (took 2) fed) drained
unfolding handle_recv
run =
    received (recv_error eagain)
      (sent (took 2) (received (bytes hi_yo) start (omega arith) fed_ok) two_taken drained_ok)
      (omega arith) idle
  where
    idle : handle_recv (recv_error eagain) drained ≡ (drained, ok)
    idle = ground arith

echo_stream_example :
    (([] ++ accepted (took 2) fed) ++ queued drained ≡ complete (([] ++ hi_yo) ++ []))
    × (pending drained ≡ partial (([] ++ hi_yo) ++ []))
    × IsValid drained
echo_stream_example = echo_stream run
