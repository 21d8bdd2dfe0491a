-- ===== src/Tests/LoadRuns.antt =====
-- Two clients of socket_test/stress_test_client.c with two requests each, of which the second cannot
-- connect.
use linux_system_programing.SelectServer.State.{fd_zero}
use linux_system_programing.Stress.Connect.{Calls, connect_nonblock, is_fd, connect_nonblock-is_fd}
use linux_system_programing.Prelude.{
  ℕ, zero, suc, ◌+◌, ◌*◌, ◌≤◌, ◌≡◌, refl, arith, none, true, replicate, inr, ◌↔◌, ◌⊎◌, ◌||◌, false,
  some,
}
use linux_system_programing.Kernel.{recv_error, send_error, eagain, eintr}
use linux_system_programing.Stress.Client.{
  Connected, socket, connect_error, Stats, stats_init, reconnect_client, reset_client,
}
use linux_system_programing.Stress.Handlers.{so_error}
use linux_system_programing.Stress.Loop.{Answers, no_events}
use linux_system_programing.Stress.Main.{
  Load, connect_all, connect_at, store_connected, fresh, poll_error, round_all, before_all, goes_on,
}
use linux_system_programing.Stress.Sums.{IsLoad}
use linux_system_programing.Stress.Rounds.{IsKernel, Reach, first, next, Stepped, Reach-Stepped}
use linux_system_programing.Stress.Start.{AllZero, connect_all-starts}
use linux_system_programing.Stress.Stuck.{lost-goes_on}

-- The second connect() is refused.
abbrev answers : ℕ → Connected
answers zero = socket 5
answers (suc i) = connect_error 111

abbrev four : Stats
four = stats_init (λ n. replicate n 0) 7 4

abbrev begun : Load
begun = connect_all answers 2 0 (fresh four)

begun_sound : IsLoad 2 2 begun × AllZero begun
unfolding stats_init
begun_sound = connect_all-starts answers 2 2 four (omega arith) refl refl

-- poll() is interrupted.
abbrev after : Load
after = before_all 2 (λ _. 9) 2 0 begun

abbrev quiet : ℕ → Answers
quiet _ = record {
  revents = no_events;
  so = so_error 0;
  send = λ i n. send_error eagain;
  stale = 0;
  recv = λ i n. recv_error eagain;
  fuel = 300;
  clock = 9;
  later_clock = 9;
}

quiet-IsKernel : IsKernel 2 0 quiet
quiet-IsKernel = record {
  honest = λ j h. record { send_honest = λ i n. omega arith; recv_bounded = λ i n. omega arith };
  fuelled = λ j h. record {
    send_settles = λ i n k q. ground arith;
    recv_quiet = λ i n k q. ground arith;
    enough = omega arith;
  };
}

run : Reach 2 2 begun after
unfolding round_all
run = next 0 (λ _. 9) quiet (poll_error eintr) first quiet-IsKernel (inr refl) refl

Reach-Stepped_example : Stepped 2 2 begun after
Reach-Stepped_example = Reach-Stepped (omega arith) (omega arith) begun_sound.0 run

second_closed : (begun.client 1).fd ≡ none
unfolding connect_all connect_at store_connected reconnect_client reset_client
second_closed = refl

second_left : (begun.client 1).request_completed + 2 ≤ 2
unfolding connect_all connect_at store_connected reconnect_client reset_client
second_left = omega arith

lost-goes_on_example : goes_on (2 * 2) after.stats ≡ true
lost-goes_on_example =
    lost-goes_on 1 (omega arith) (omega arith) begun_sound.0 (omega arith) second_closed second_left
      run

-- connect() is refused: the descriptor 5 is closed again.
abbrev refused : Calls
refused = record {
  socket = some 5;
  getfl_fails = false;
  setfl_fails = false;
  inet_pton_fails = false;
  connect = some 111;
}

connect_nonblock-is_fd_example :
    let r = connect_nonblock refused fd_zero in
    ((r.0 ≡ some 5) ↔ (
      (false ≡ false)
      × (false ≡ false)
      × (false ≡ false)
      × ((refused.connect ≡ none) ⊎ (refused.connect ≡ some 115))))
    × ((r.0 ≡ none) ⊎ (r.0 ≡ some 5))
    × ((d : ℕ) → r.1 d ≡ fd_zero d || is_fd r.0 d)
connect_nonblock-is_fd_example = connect_nonblock-is_fd refused fd_zero 5 refl refl
