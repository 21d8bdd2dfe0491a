-- ===== src/PollServer/Rounds.antt =====
-- One round of the inner loop of socket_test/tcp_poll_server_v1.c keeps the invariant.
use linux_system_programing.Prelude.{
  ℕ, zero, suc, ==_iff, ◌+◌, ◌-◌, ◌≤◌, ◌<◌, ◌≡◌, refl, List, ◌∷◌, arith, true, false, ltb, ◌&&◌,
  if◌then◌else◌, Bool-cases, Option-cases, inl, inr, Option, some, none, if_holds,
}
use linux_system_programing.Kernel.{Fd}
use linux_system_programing.Echo.Client.{Ret, ok, failed, done, offered}
use linux_system_programing.SelectServer.State.{max_connections}
use linux_system_programing.PollServer.Entry.{handle_recv, handle_send}
use linux_system_programing.PollServer.Entries.{handle_recv-Kept, handle_send-Kept}
use linux_system_programing.PollServer.Loop.{
  Server, pair_at, move_last, clear_past, remove_conn, counted, Results, is_server, send_at, hup_at,
  after_recv, recv_at, accept_at, visit,
}
use linux_system_programing.PollServer.Valid.{
  IsKernel, IsServer, accept_conn-IsServer, put_pair-IsServer, move_last-IsServer,
  clear_past-IsServer,
}

abbrev pub came : Fd → ℕ
came none = 0
came (some fd) = 1

-- how many connections a round accepts
abbrev pub arrivals : Results → ℕ → Server → ℕ
arrivals r i s = if is_server s (s.fds i).fd && (s.fds i).revents.pollin then came r.accept else 0

module _ {k : ℕ} {s : Server} (v : IsServer k true s) where
  -- An entry of `close` is no part of the invariant.
  closing-IsServer : (l : List Fd) → IsServer k true (record s { closed = l })
  closing-IsServer l = record {
    some_active = v.some_active;
    few = v.few;
    listens = v.listens;
    quiet = v.quiet;
    paired = v.paired;
    others = v.others;
    valid = v.valid;
    inside = v.inside;
  }

  fewer-IsServer :
      (n : ℕ) → 0 < n → n ≤ s.active_conns → IsServer k true (record s { active_conns = n })
  fewer-IsServer n pos h = record {
    some_active = pos;
    few = omega (arith, v.few);
    listens = v.listens;
    quiet = v.quiet;
    paired = v.paired;
    others = v.others;
    valid = v.valid;
    inside = v.inside;
  }

counted-IsServer :
    {k n : ℕ} (p : Server × Option ℕ)
    → IsServer k true p.0
    → p.1 ≡ some n
    → 0 < n
    → n ≤ p.0.active_conns
    → IsServer k true (counted p)
unfolding counted
counted-IsServer (s, none) v e pos h = absurd (cc e)
counted-IsServer {n = n} (s, some m) v e pos h =
    let same : m ≡ n = cc e in rw same (fewer-IsServer v n pos h)

active_conns-move_last : (i : ℕ) (s : Server) → (move_last i s).active_conns ≡ s.active_conns
unfolding move_last
active_conns-move_last i s = ground arith

module _ {k : ℕ} {s : Server} (v : IsServer k true s) (i : ℕ) (pos : 0 < i)
    (here : i < s.active_conns) (room : s.active_conns ≤ max_connections) where
  -- The entries after a removal, and the count that is returned.
  remove_conn-IsServer :
      IsServer k true (remove_conn i s).0
      × ((remove_conn i s).1 ≡ some (s.active_conns - 1))
      × ((remove_conn i s).0.active_conns ≡ s.active_conns)
  unfolding remove_conn clear_past
  remove_conn-IsServer =
      let inside_loop : ltb s.active_conns i ≡ false = ground arith in
      let s1 : Server = record s { closed = (s.fds i).fd ∷ s.closed } in
      let e = active_conns-move_last i s1 in
      rw inside_loop (
        clear_past-IsServer
            (move_last-IsServer (closing-IsServer v ((s.fds i).fd ∷ s.closed)) i pos here)
            (omega arith),
        refl,
        e,
      )

  hup_at-IsServer : IsServer k true (hup_at i s).0
  unfolding hup_at
  hup_at-IsServer =
      let (w, e, same) = remove_conn-IsServer in
      if_holds (λ (t : Server × ℕ). IsServer k true t.0) (s.fds i).revents.hup_err
        (counted-IsServer (remove_conn i s) w e (omega arith) (omega arith)) v

-- What `send_at` leaves as it is.
active_conns-send_at :
    (r : Results) (i : ℕ) (s : Server) → (send_at r i s).active_conns ≡ s.active_conns
unfolding send_at
active_conns-send_at r i s = ground arith

module _ {k : ℕ} {s : Server} (v : IsServer k true s) (r : Results) (kernel : IsKernel s r) where
  accept_at-IsServer :
      s.active_conns ≤ max_connections → IsServer (k + came r.accept) true (accept_at r s)
  unfolding accept_at
  accept_at-IsServer room = elim (Option-cases r.accept) [
    | inl no_fd ↦ let e : k + 0 ≡ k = omega arith in rw (no_fd, e) v
    | inr (fd, e) ↦ rw e (accept_conn-IsServer v fd (kernel.not_server fd e) room)
  ]

  send_at-IsServer : (i : ℕ) → 0 < i → IsServer k true (send_at r i s)
  unfolding send_at
  send_at-IsServer i pos =
      let c = s.client (i - 1) in
      if_holds (IsServer k true) (s.fds i).revents.pollout
        (put_pair-IsServer v i pos (handle_send (r.send (offered c)) (pair_at s i)).0
          (handle_send-Kept (r.send (offered c)) (v.valid (i - 1)) (kernel.send_takes (offered c))))
        v

-- The second half of a round: POLLOUT, POLLHUP and POLLERR.
sent_hup-IsServer :
    {k : ℕ} {s : Server} (r : Results) (i : ℕ)
    → IsServer k true s
    → IsKernel s r
    → 0 < i
    → i < s.active_conns
    → s.active_conns ≤ max_connections
    → IsServer k true (hup_at i (send_at r i s)).0
sent_hup-IsServer {s = s} r i v kernel pos here room =
    let e = active_conns-send_at r i s in
    hup_at-IsServer (send_at-IsServer v r kernel i pos) i pos (omega arith) (omega arith)

after_recv-IsServer :
    {k : ℕ} {s : Server} (r : Results) (i : ℕ) (ret : Ret)
    → IsServer k true s
    → IsKernel s r
    → 0 < i
    → i < s.active_conns
    → s.active_conns ≤ max_connections
    → IsServer k true (after_recv r i s ret).0
unfolding after_recv
after_recv-IsServer r i ok v kernel pos here room = (remove_conn-IsServer v i pos here room).0
after_recv-IsServer r i failed v kernel pos here room = sent_hup-IsServer r i v kernel pos here room
after_recv-IsServer r i done v kernel pos here room = sent_hup-IsServer r i v kernel pos here room

same_server-IsKernel :
    {s t : Server} (r : Results) → t.server_fd ≡ s.server_fd → IsKernel s r → IsKernel t r
same_server-IsKernel r e w = record {
  not_server = λ fd q. rw e (w.not_server fd q);
  recv_fits = w.recv_fits;
  send_takes = w.send_takes;
}

recv_at-IsServer :
    {k : ℕ} {s : Server} (r : Results) (i : ℕ)
    → IsServer k true s
    → IsKernel s r
    → 0 < i
    → i < s.active_conns
    → s.active_conns ≤ max_connections
    → IsServer k true (recv_at r i s).0
unfolding recv_at
recv_at-IsServer {s = s} r i v kernel pos here room =
    let p = handle_recv r.recv (pair_at s i) in
    after_recv-IsServer r i p.1
      (put_pair-IsServer v i pos p.0 (handle_recv-Kept r.recv (v.valid (i - 1)) kernel.recv_fits))
      (same_server-IsKernel r refl kernel) pos here room

-- The listening entry, with no POLLIN, has nothing.
idle : {k : ℕ} {s : Server} (r : Results) → IsServer k true s → (hup_at 0 (send_at r 0 s)).0 ≡ s
unfolding hup_at send_at
idle r v = let q = v.quiet refl in rw (q.0, q.1)

is_server-listening : {k : ℕ} {s : Server} → IsServer k true s → is_server s (s.fds 0).fd ≡ true
is_server-listening {s = s} v = rw (v.listens) ((==_iff s.server_fd s.server_fd).1 refl)

-- A round that is not for the listening socket.
serve-IsServer :
    {k : ℕ} {s : Server} (r : Results) (i : ℕ)
    → IsServer k true s
    → IsKernel s r
    → i < s.active_conns
    → s.active_conns ≤ max_connections
    → (is_server s (s.fds i).fd && (s.fds i).revents.pollin) ≡ false
    → IsServer k true
        (if (s.fds i).revents.pollin then recv_at r i s else hup_at i (send_at r i s)).0
serve-IsServer {k} {s} r zero v kernel here room serving =
    let quiet : (s.fds 0).revents.pollin ≡ false = rw (is_server-listening v) at serving in
    rw (quiet, idle r v) v
serve-IsServer {k} {s} r (suc j) v kernel here room serving =
    if_holds (λ (t : Server × ℕ). IsServer k true t.0) (s.fds (suc j)).revents.pollin
      (recv_at-IsServer r (suc j) v kernel (omega arith) here room)
      (sent_hup-IsServer r (suc j) v kernel (omega arith) here room)

pub visit-IsServer :
    {k : ℕ} {s : Server} (r : Results) (i : ℕ)
    → IsServer k true s
    → IsKernel s r
    → i < s.active_conns
    → s.active_conns ≤ max_connections
    → IsServer (k + arrivals r i s) true (visit r i s).0
unfolding visit
visit-IsServer {k} {s} r i v kernel here room =
    elim (Bool-cases (is_server s (s.fds i).fd && (s.fds i).revents.pollin)) [
      | inl accepting ↦ rw accepting (accept_at-IsServer v r kernel room)
      | inr serving ↦
          let e : k + 0 ≡ k = omega arith in
          rw (serving, e) (serve-IsServer r i v kernel here room serving)
    ]
