-- ===== src/Tests/SelectRuns.antt =====
-- Rounds of the server of socket_test/tcp_select_server_v2.c from its start.
use linux_system_programing.Prelude.{◌≡◌, refl, arith, some, true, false}
use linux_system_programing.Kernel.{recv_error, send_error, eagain}
use linux_system_programing.SelectServer.State.{
  Server, boot, Round, IsKernel, FdSet, fd_zero, put_bit, ready, accepted,
}
use linux_system_programing.SelectServer.Steps.{round, serve}
use linux_system_programing.SelectServer.Valid.{IsSound}
use linux_system_programing.SelectServer.Rounds.{booted, next, Reach-IsSound}

abbrev pub calling : FdSet
calling = put_bit fd_zero 3 true

-- The listening socket 3 is readable, and accept() returns 4.
abbrev pub first_call : Round
first_call = record {
  selected = ready calling fd_zero;
  incoming = accepted 4;
  set_nonblock_fails = false;
  recv = λ _. recv_error eagain;
  send = λ _ _. send_error eagain;
}

first_call-IsKernel : IsKernel (boot 3) first_call
unfolding boot
first_call-IsKernel = record {
  fresh = λ fd h. let e : fd ≡ 4 = cc in rw e refl;
  recv_fits = λ _. omega arith;
  send_takes = λ _ _. omega arith;
}

abbrev met : Server
met = serve first_call calling fd_zero (boot 3)

met-round : round first_call (boot 3) ≡ some met
unfolding round
met-round = refl

Reach-IsSound_example : IsSound met
Reach-IsSound_example = Reach-IsSound (next first_call booted first_call-IsKernel met-round)
