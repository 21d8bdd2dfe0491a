-- ===== src/PollServer/Runs.antt =====
-- Every run of socket_test/tcp_poll_server_v1.c as long as it has accepted no more connections than its
-- arrays hold.
use linux_system_programing.Prelude.{
  ℕ, ◌+◌, ◌≤◌, ◌<◌, refl, arith, Bool, true, false, Option, some, none,
}
use linux_system_programing.SelectServer.State.{max_connections}
use linux_system_programing.PollServer.Entry.{Events}
use linux_system_programing.PollServer.Loop.{Server, boot, Results, visit, polled}
use linux_system_programing.PollServer.Valid.{IsKernel, IsQuiet, IsServer, boot-IsServer}
use linux_system_programing.PollServer.Rounds.{arrivals, visit-IsServer}

-- `Run memory fd k s at`: the server reaches `s` with `k` connections accepted, and is about to call
-- poll() (`none`) or at an index of the inner loop.
pub data Run (memory : ℕ → Events) (fd : ℕ) : ℕ → Server → Option ℕ → Type 0 where
  booted : Run memory fd 0 (boot memory fd) none
  polling :
      {k : ℕ} {s : Server} (ev : ℕ → Events)
      → Run memory fd k s none
      → Run memory fd k (polled ev s) (some 0)
  visiting :
      {k i : ℕ} {s : Server} (r : Results)
      → Run memory fd k s (some i)
      → i < s.active_conns
      → Run memory fd (k + arrivals r i s) (visit r i s).0 (some (visit r i s).1)
  ending :
      {k i : ℕ} {s : Server}
      → Run memory fd k s (some i)
      → s.active_conns ≤ i
      → Run memory fd k s none

polled-IsServer :
    {k : ℕ} {b : Bool} {s : Server} (ev : ℕ → Events)
    → IsServer k b s
    → IsQuiet (ev 0)
    → IsServer k true (polled ev s)
unfolding polled
polled-IsServer ev v quiet = record {
  some_active = v.some_active;
  few = v.few;
  listens = ground (arith, v.listens);
  quiet = λ q. ground (arith, quiet, v.some_active);
  paired = λ j. ground (arith, v.paired j);
  others = v.others;
  valid = v.valid;
  inside = v.inside;
}

finished-IsServer : {k : ℕ} {s : Server} → IsServer k true s → IsServer k false s
finished-IsServer v = record {
  some_active = v.some_active;
  few = v.few;
  listens = v.listens;
  quiet = λ q. v.quiet refl;
  paired = v.paired;
  others = v.others;
  valid = v.valid;
  inside = v.inside;
}

abbrev pub in_loop : Option ℕ → Bool
in_loop none = false
in_loop (some i) = true

-- What the kernel does in a run: poll() reports neither POLLOUT nor POLLHUP nor POLLERR for `fds[0]`, accept()
-- does not return the listening descriptor, recv() fits its buffer, and send() takes no more than it is offered.
abbrev pub IsHonest :
    {memory : ℕ → Events} {fd k : ℕ} {s : Server} {at : Option ℕ} → Run memory fd k s at → Type 0
IsHonest booted = Unit {0}
IsHonest (polling ev run) = IsQuiet (ev 0) × IsHonest run
IsHonest (visiting {s = s} r run here) = IsKernel s r × IsHonest run
IsHonest (ending run over) = IsHonest run

-- In every run that has accepted fewer than 256 connections, and in which poll() reports neither POLLOUT nor
-- POLLHUP nor POLLERR for the listening socket, accept() does not return its descriptor, recv() fits its buffer and
-- send() takes no more than it is offered: every index lies inside the two arrays; `fds[j + 1]`
-- and `client[j]` have the same descriptor for every j, which is not the listening one; the counters of
-- every client fit its buffers; and there is an active entry, and no more than one for each connection and
-- one for the listening socket.
pub Run-IsInside :
    {memory : ℕ → Events} {fd k : ℕ} {s : Server} {at : Option ℕ} (run : Run memory fd k s at)
    → IsHonest run
    → k < max_connections
    → IsServer k (in_loop at) s
Run-IsInside {memory} {fd} booted honest h = boot-IsServer memory fd
Run-IsInside (polling ev run) honest h = polled-IsServer ev (Run-IsInside run honest.1 h) honest.0
Run-IsInside (ending run q) honest h = finished-IsServer (Run-IsInside run honest h)
Run-IsInside (visiting {k} {i} {s} r run here) honest h =
    let v = Run-IsInside run honest.1 (omega arith) in
    visit-IsServer r i v honest.0 here (omega (arith, v.few))
