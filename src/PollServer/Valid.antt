-- ===== src/PollServer/Valid.antt =====
-- The invariant of the arrays of socket_test/tcp_poll_server_v1.c, and what the writes to them keep.
use linux_system_programing.Prelude.{
  ℕ, ◌+◌, ◌-◌, ◌≤◌, ◌<◌, ◌≡◌, ◌≢◌, refl, List, length, arith, Bool, true, false, ◌==◌, ◌||◌, some,
  none,
}
use linux_system_programing.Kernel.{Fd}
use linux_system_programing.Echo.Client.{Client, init_client}
use linux_system_programing.Echo.Views.{IsValid, init_client-IsValid}
use linux_system_programing.Echo.Recv.{Fits, payload}
use linux_system_programing.Echo.Send.{count}
use linux_system_programing.SelectServer.State.{max_connections}
use linux_system_programing.PollServer.Entry.{Events, Pair}
use linux_system_programing.PollServer.Entries.{Kept}
use linux_system_programing.PollServer.Loop.{
  Server, boot, pair_at, put_pair, move_last, clear_past, accept_conn, Results,
}

-- What the loop relies on: accept() never returns the listening descriptor, recv() stays inside its
-- buffer and send() takes no more than it is offered.
pub record IsKernel (s : Server) (r : Results) : Type 0 where
  pub not_server : (fd : ℕ) → r.accept ≡ some fd → fd ≢ s.server_fd
  pub recv_fits : Fits (payload r.recv)
  pub send_takes : (xs : List ℕ) → count (r.send xs) ≤ length xs

-- what poll() says of the listening socket, apart from POLLIN
abbrev pub IsQuiet : Events → Type 0
IsQuiet e = (e.pollout ≡ false) × (e.hup_err ≡ false)

-- The two arrays agree: `fds[j + 1]` and `client[j]` are of one connection.
pub record IsServer (k : ℕ) (looping : Bool) (s : Server) : Type 0 where
  pub some_active : 0 < s.active_conns
  pub few : s.active_conns ≤ k + 1
  pub listens : (s.fds 0).fd ≡ some s.server_fd
  pub quiet : looping ≡ true → IsQuiet (s.fds 0).revents
  pub paired : (j : ℕ) → (s.fds (j + 1)).fd ≡ (s.client j).client_fd
  pub others : (j fd : ℕ) → (s.client j).client_fd ≡ some fd → fd ≢ s.server_fd
  pub valid : (j : ℕ) → IsValid (s.client j)
  pub inside : s.strayed ≡ false

pub boot-IsServer : (memory : ℕ → Events) (fd : ℕ) → IsServer 0 false (boot memory fd)
unfolding boot init_client
boot-IsServer memory fd = record {
  some_active = omega arith;
  few = omega arith;
  listens = refl;
  quiet = λ q. cc;
  paired = λ j. ground arith;
  others = λ j d q. cc;
  valid = λ j. init_client-IsValid;
  inside = refl;
}

with_fd-IsValid : {c : Client} (fd : Fd) → IsValid c → IsValid (record c { client_fd = fd })
with_fd-IsValid fd v = record {
  recv_room = v.recv_room;
  message_room = v.message_room;
  used_in = v.used_in;
  send_room = v.send_room;
  len_in = v.len_in;
  offset_in = v.offset_in;
  restarted = v.restarted;
}

cleared-IsValid :
    {c : Client}
    → IsValid c
    → IsValid (record c { client_fd = none; used = 0; send_offset = 0; send_len = 0 })
cleared-IsValid v = record {
  recv_room = v.recv_room;
  message_room = v.message_room;
  used_in = omega arith;
  send_room = v.send_room;
  len_in = omega arith;
  offset_in = omega arith;
  restarted = λ _. refl;
}

module _ {k : ℕ} {s : Server} (v : IsServer k true s) where
  pub accept_conn-IsServer :
      (fd : ℕ)
      → fd ≢ s.server_fd
      → s.active_conns ≤ max_connections
      → IsServer (k + 1) true (accept_conn fd s)
  unfolding accept_conn
  accept_conn-IsServer fd new room = record {
    some_active = omega arith;
    few = omega (arith, v.few);
    listens = ground (arith, v.listens, v.some_active);
    quiet = λ q. ground (arith, v.quiet refl, v.some_active);
    paired = λ j. ground (arith, v.paired j, v.some_active);
    others = λ j d q. ground (arith, v.others j d);
    valid = λ j. ground (arith, v.valid j, with_fd-IsValid (some fd) (v.valid j));
    inside = ground (arith, v.inside, v.some_active);
  }

  module _ (i : ℕ) (pos : 0 < i) where
    pub put_pair-IsServer :
        (p : Pair)
        → Kept (pair_at s i) p
        → IsServer k true (record (put_pair s i p) { strayed = s.strayed || (i == 0) })
    put_pair-IsServer p h = record {
      some_active = v.some_active;
      few = v.few;
      listens = ground (arith, v.listens);
      quiet = λ q. ground (arith, v.quiet refl);
      paired = λ j. ground (arith, v.paired j, h.same_fd, h.same_client);
      others = λ j d q. ground (arith, v.others j d, h.same_client);
      valid = λ j. ground (arith, v.valid j, h.valid);
      inside = ground (arith, v.inside);
    }

    pub move_last-IsServer : i < s.active_conns → IsServer k true (move_last i s)
    unfolding move_last
    move_last-IsServer here = record {
      some_active = ground (arith, v.some_active);
      few = ground (arith, v.few);
      listens = ground (arith, v.listens);
      quiet = λ q. ground (arith, v.quiet refl);
      paired = λ j. ground (arith, v.paired j, v.paired (s.active_conns - 2));
      others = λ j d q. ground (arith, v.others j d, v.others (s.active_conns - 2) d);
      valid = λ j. ground (arith, v.valid j, v.valid (s.active_conns - 2));
      inside = ground (arith, v.inside);
    }

  pub clear_past-IsServer : s.active_conns ≤ max_connections → IsServer k true (clear_past s)
  unfolding clear_past
  clear_past-IsServer room = record {
    some_active = v.some_active;
    few = v.few;
    listens = ground (arith, v.listens, v.some_active);
    quiet = λ q. ground (arith, v.quiet refl, v.some_active);
    paired = λ j. ground (arith, v.paired j, v.some_active);
    others = λ j d q. ground (arith, v.others j d);
    valid = λ j. ground (arith, v.valid j, cleared-IsValid (v.valid j));
    inside = ground (arith, v.inside, v.some_active);
  }
