-- ===== src/Tests/ProgramRuns.antt =====
-- The whole of socket_test/stress_test_client.c with one client and one request.
use linux_system_programing.Prelude.{
  ℕ, ◌<◌, ◌≡◌, refl, List, [], ◌∷◌, some, true, false, replicate, take, inl, arith, length-take,
}
use linux_system_programing.Bytes
use linux_system_programing.Stress.Client
use linux_system_programing.Stress.Handlers
use linux_system_programing.Stress.Loop
use linux_system_programing.Stress.Main
use linux_system_programing.Stress.Program
use linux_system_programing.Stress.Request
use linux_system_programing.Echo
use linux_system_programing.Kernel.{bytes, took}
use linux_system_programing.Stress.Client.{socket}
use linux_system_programing.Stress.Request.{request_text}
use linux_system_programing.Stress.Handlers.{so_error}
use linux_system_programing.Stress.Loop.{Answers, Events, no_events}
use linux_system_programing.Stress.Main.{Load, polled}
use linux_system_programing.Stress.Rounds.{IsKernel}
use linux_system_programing.Stress.Program.{
  ℤ, pos, Args, World, Round, parse, ended, main, main_with,
}
use linux_system_programing.Stress.Success.{IsArgs, AllHonest, main-success}

-- A stand-in for atoi() and strtoull() on arguments that are numbers already.
abbrev argv : List ℕ
argv = 0 ∷ 0 ∷ 9191 ∷ 1 ∷ 1 ∷ []

abbrev one : Args
one = record { port = 9191; client_count = 1; requests_per_client = 1 }

-- The socket is writable, and then readable; the server echoes.
abbrev honest_turn : Events → Answers
honest_turn ev = record {
  revents = ev;
  so = so_error 0;
  send = λ i n. took n;
  stale = 0;
  recv = λ i n. bytes (take n (request_text 0 0));
  fuel = 300;
  clock = 9;
  later_clock = 9;
}

abbrev round_of : Events → Round
round_of ev = record { stop = false; clock = λ _. 9; answer = polled (λ _. honest_turn ev) }

abbrev writable : Events
writable = record no_events { pollout = true }

abbrev readable : Events
readable = record no_events { pollin = true }

abbrev world : World
world = record {
  out_of_memory = false;
  malloc = λ n. replicate n 0;
  now = 7;
  connect = λ _. socket 5;
  rounds = round_of writable ∷ round_of writable ∷ round_of readable ∷ round_of no_events ∷ [];
  stop = false;
}

parsed : parse pos (λ n. n) argv ≡ some one
unfolding parse Program.accept Program.accept_counts
parsed = refl

ends_well : main_with one world ≡ some true
unfolding Program.main_with Program.loop Main.goes_on Main.connect_all Main.connect_at
    Main.store_connected Client.reconnect_client Main.fresh Client.stats_init Main.round_all
    Main.after_all Loop.after_poll Loop.poll_turn Main.before_all Loop.before_poll Bytes.blit
    Client.close_client Client.record_latency Client.reset_client Handlers.check_answer
    Handlers.finish_request Handlers.handle_connect Handlers.handle_recv Handlers.handle_send
    Handlers.same_bytes Handlers.store_answer Handlers.verify_connection Loop.begin_early
    Loop.begin_request Loop.connected Loop.end_turn Loop.event_turn Loop.fail_slot Loop.next_request
    Loop.read_turn Loop.settle Loop.start_turn Loop.write_turn Main.blank Request.digits
    Request.prepare_request Request.request_text Echo.Client.scan
ends_well = refl

succeeds : main pos (λ n. n) argv world ≡ some true
unfolding Program.main Program.parse Program.accept Program.accept_counts
succeeds = ends_well

honest_turn-IsKernel : (ev : Events) → IsKernel 1 0 (λ _. honest_turn ev)
honest_turn-IsKernel ev = record {
  honest = λ j h. record {
    send_honest = λ i n. omega arith;
    recv_bounded = λ i n. omega (arith, length-take n (request_text 0 0));
  };
  fuelled = λ j h. record {
    send_settles = λ i n k q. ground arith;
    recv_quiet = λ i n k q. ground arith;
    enough = omega arith;
  };
}

honest : AllHonest 1 false world.rounds
honest = (
  (0, λ _. honest_turn writable, honest_turn-IsKernel writable, inl refl),
  λ q. cc,
  (
    (0, λ _. honest_turn writable, honest_turn-IsKernel writable, inl refl),
    λ q. cc,
    (
      (0, λ _. honest_turn readable, honest_turn-IsKernel readable, inl refl),
      λ q. cc,
      ((0, λ _. honest_turn no_events, honest_turn-IsKernel no_events, inl refl), λ q. cc, tt),
    ),
  ),
)

main-success_example :
    IsArgs one
    × ((t : Load) × (ended one world ≡ some t)
        × ((i : ℕ) → i < 1 → (t.client i).request_completed ≡ 1))
main-success_example = main-success pos (λ n. n) argv world one parsed (omega arith) honest succeeds
