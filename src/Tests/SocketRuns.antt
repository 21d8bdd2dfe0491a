-- ===== src/Tests/SocketRuns.antt =====
-- A run of socket_test/tcp_server.c that receives "hi" with a zero byte behind it.
use linux_system_programing.Prelude.{
  ◌≡◌, ◌≢◌, ◌↔◌, refl, [], ◌∷◌, some, none, false, replicate, arith,
}
use linux_system_programing.Kernel.{bytes}
use linux_system_programing.Sockets.Programs.{ServerCalls, tcp_server}
use linux_system_programing.Sockets.Closing.{IsTidy, text_of, answer, tcp_server-IsTidy}

abbrev calls : ServerCalls
calls = record {
  socket = some 3;
  bind_fails = false;
  listen_fails = false;
  accept = some 4;
  recv = bytes (104 ∷ 105 ∷ 0 ∷ 33 ∷ []);
}

tcp_server-IsTidy_example :
    let r = tcp_server (replicate 1024 0) calls in
    IsTidy r
    × (r.status ≡ 0 → (r.printed ≡ text_of calls.recv) × (r.sent ≡ answer (text_of calls.recv)))
    × (r.status ≢ 0 → (r.printed ≡ none) × (r.sent ≡ []))
    × ((r.status ≡ 0)
        ↔ ((calls.socket ≢ none) × (false ≡ false) × (false ≡ false) × (calls.accept ≢ none)))
tcp_server-IsTidy_example = tcp_server-IsTidy (replicate 1024 0) calls refl (omega arith)
