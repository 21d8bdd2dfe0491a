-- ===== src/Tests/FirstRuns.antt =====
-- A round of the server of socket_test/tcp_select_server_v1.c from its start.
use linux_system_programing.Prelude.{◌≡◌, refl, arith, some, subst}
use linux_system_programing.SelectServer.State.{boot, FdSet, fd_zero, ready}
use linux_system_programing.FirstSelect.Steps.{State, start, visit, write_half, round}
use linux_system_programing.FirstSelect.Rounds.{
  IsSafe, start-IsSafe, IsKernel, round-goes, booted, next, Reach-IsSafe,
}
use linux_system_programing.Tests.SelectRuns.{calling, first_call}

first_call-IsKernel : IsKernel (start 3) first_call calling fd_zero
unfolding boot visit write_half
first_call-IsKernel = record {
  fair = record { recv_fits = λ _. omega arith; send_takes = λ _ _. omega arith };
  read_bits = λ j q. q;
  write_bits = λ j q. cc;
  fresh = λ fd h. let e : fd ≡ 4 = cc in rw e refl;
}

round-goes_example : (t : State) × (round first_call (start 3) ≡ some t) × IsSafe t
round-goes_example = round-goes first_call calling fd_zero (start-IsSafe 3) first_call-IsKernel refl

first-IsKernel : (r w : FdSet) → first_call.selected ≡ ready r w → IsKernel (start 3) first_call r w
first-IsKernel r w e =
    let p : calling ≡ r = cc in
    let q : fd_zero ≡ w = cc in
    subst (λ x. IsKernel (start 3) first_call r x) q
      (subst (λ x. IsKernel (start 3) first_call x fd_zero) p first_call-IsKernel)

met : (t : State) × (round first_call (start 3) ≡ some t) × IsSafe t
met = round-goes first_call calling fd_zero (start-IsSafe 3) first_call-IsKernel refl

Reach-IsSafe_example : IsSafe met.0
Reach-IsSafe_example = Reach-IsSafe (next first_call booted first-IsKernel met.1)
