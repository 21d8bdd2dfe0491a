-- ===== src/FirstSelect/Tables.antt =====
-- The invariant of socket_test/tcp_select_server_v1.c inside a round, and what a turn of one connection does to it.
use linux_system_programing.Prelude.{
  ℕ, ◌+◌, ◌<◌, ◌≤◌, ◌≡◌, ◌≢◌, ◌⊎◌, inl, inr, sym, some, true, false, ltb, leb, arith, ◌==◌, ◌||◌,
  Bool-cases, ap, ◌∙◌, ==_iff,
}
use linux_system_programing.Kernel.{Sent, took, send_error}
use linux_system_programing.Echo.Client.{
  Client, handle_recv, advance, offered, Ret, ok, failed, done,
}
use linux_system_programing.Echo.Client
use linux_system_programing.SelectServer.State.{Server}
use linux_system_programing.SelectServer.Steps
use linux_system_programing.SelectServer.Valid.{IsSound}
use linux_system_programing.FirstSelect.Steps.{
  table_size, State, handle_send, watch_write, received, sent,
}

-- The bits that select() has left at `i` belong to the listening socket or to a connection.
pub record IsAsked (i : ℕ) (s : Server) : Type 0 where
  pub reads : s.readfds i ≡ true → (i ≡ s.server_fd) ⊎ ((s.client i).client_fd ≡ some i)
  pub writes : s.writefds i ≡ true → (s.client i).client_fd ≡ some i

-- A connection stands at the index of its descriptor, and nothing outside the table is used. What
-- select() has left is sound from index `i` on.
pub record IsFirst (i : ℕ) (s : State) : Type 0 where
  pub sound : IsSound s.srv
  pub own : (j fd : ℕ) → (s.srv.client j).client_fd ≡ some fd → (j ≡ fd) × (fd < table_size)
  pub below : s.srv.max_fd < s.srv.server_fd + table_size
  pub no_write : s.srv.master_write s.srv.server_fd ≡ false
  pub asked : (j : ℕ) → i ≤ j → IsAsked j s.srv
  pub inside : s.strayed ≡ false

-- `handle_send` ends as in the second version, or returns 0 for a send() of no bytes.
pub client-handle_send : (x : Sent) (c : Client) → (handle_send x c).0 ≡ (Client.handle_send x c).0
unfolding handle_send Client.handle_send
client-handle_send (took n) c = ground arith
client-handle_send (send_error e) c = ground arith

module _ {s : State} (i : ℕ) (v : IsFirst i s) (here : (s.srv.client i).client_fd ≡ some i) where
  in_table : i < table_size
  in_table = (v.own i i here).1

  in_array : (s.strayed || leb table_size i) ≡ s.strayed
  in_array = ground (arith, in_table)

  pub received-eq :
      (c : Client) (flag : Ret)
      → c.client_fd ≡ some i
      → received i (c, flag) s ≡ (
        record { srv = (Steps.after_recv i i (c, flag) s.srv).0; strayed = s.strayed },
        (Steps.after_recv i i (c, flag) s.srv).1,
      )
  unfolding received watch_write Steps.after_recv
  received-eq c failed same = elim (Bool-cases (ltb c.send_offset c.send_len)) [
    | inl more ↦ rw (more, same, in_array)
    | inr no_more ↦ rw (no_more, in_array)
  ]
  received-eq c ok same = elim (Bool-cases (ltb c.send_offset c.send_len)) [
    | inl more ↦ rw (more, same, in_array)
    | inr no_more ↦ rw (no_more, in_array)
  ]
  received-eq c done same = elim (Bool-cases (ltb c.send_offset c.send_len)) [
    | inl more ↦ rw (more, same, in_array)
    | inr no_more ↦ rw (no_more, in_array)
  ]

  pub sent-eq :
      (c : Client) (tag : Ret)
      → sent i (c, tag) s
        ≡ record { srv = Steps.after_send i i (c, tag) s.srv; strayed = s.strayed }
  unfolding sent Steps.after_send
  sent-eq c failed = rw in_array
  sent-eq c ok = elim (Bool-cases (c.send_len == c.send_offset)) [
    | inl all ↦ rw (all, in_array)
    | inr left ↦ rw (left, in_array)
  ]
  sent-eq c done = elim (Bool-cases (c.send_len == c.send_offset)) [
    | inl all ↦ rw (all, in_array)
    | inr left ↦ rw (left, in_array)
  ]

-- A turn of connection `i` leaves all else as it is.
pub record IsBeside (i : ℕ) (a b : Server) : Type 0 where
  same_max : b.max_fd ≡ a.max_fd
  same_server : b.server_fd ≡ a.server_fd
  same_reads : b.readfds ≡ a.readfds
  same_writes : b.writefds ≡ a.writefds
  others : (j : ℕ) → j ≢ i → b.client j ≡ a.client j
  mine : (fd : ℕ) → (b.client i).client_fd ≡ some fd → fd ≡ i
  bits : (j : ℕ) → j ≢ i → b.master_write j ≡ a.master_write j

pub after_recv-IsBeside :
    (i : ℕ) (s : Server) (c : Client) (flag : Ret)
    → c.client_fd ≡ some i
    → IsBeside i s (Steps.after_recv i i (c, flag) s).0
unfolding Steps.after_recv Steps.drop_slot
after_recv-IsBeside i s c failed same = record {
  same_max = ground arith;
  same_server = ground arith;
  same_reads = ground arith;
  same_writes = ground arith;
  others = λ j h. ground arith;
  mine = λ fd q. ground arith;
  bits = λ j h. ground arith;
}
after_recv-IsBeside i s c flag same = record {
  same_max = ground arith;
  same_server = ground arith;
  same_reads = ground arith;
  same_writes = ground arith;
  others = λ j h. ground arith;
  mine = λ fd q. ground arith;
  bits = λ j h. ground arith;
}

pub after_send-IsBeside :
    (i : ℕ) (s : Server) (c : Client) (tag : Ret)
    → c.client_fd ≡ some i
    → IsBeside i s (Steps.after_send i i (c, tag) s)
unfolding Steps.after_send Steps.drop_slot
after_send-IsBeside i s c failed same = record {
  same_max = ground arith;
  same_server = ground arith;
  same_reads = ground arith;
  same_writes = ground arith;
  others = λ j h. ground arith;
  mine = λ fd q. ground arith;
  bits = λ j h. ground arith;
}
after_send-IsBeside i s c tag same = record {
  same_max = ground arith;
  same_server = ground arith;
  same_reads = ground arith;
  same_writes = ground arith;
  others = λ j h. ground arith;
  mine = λ fd q. ground arith;
  bits = λ j h. ground arith;
}

-- The tables are sound again, from `i` or from the next index on.
pub beside-IsFirst :
    {s : State} {b : Server} (i m : ℕ)
    → IsFirst i s
    → (s.srv.client i).client_fd ≡ some i
    → IsSound b
    → IsBeside i s.srv b
    → i ≤ m
    → (m ≡ i → (b.client i).client_fd ≡ some i)
    → IsFirst m (record { srv = b; strayed = s.strayed })
beside-IsFirst {s} {b} i m v here good side h on =
    let mine = v.own i i here in
    let not_server = (v.sound.owner i i here).not_server in
    record {
      sound = good;
      own = λ j fd q. elim (Bool-cases (j == i)) [
        | inl e ↦
            let w : fd ≡ i = side.mine fd (rw ((==_iff j i).0 e) at q) in
            (ground arith, omega (arith, mine.1))
        | inr e ↦
            v.own j fd (ap (λ (c : Client). c.client_fd) (sym (side.others j (ground arith))) ∙ q)
      ];
      below = rw (side.same_max, side.same_server) v.below;
      no_write =
          rw side.same_server (side.bits s.srv.server_fd (λ e. not_server (sym e)) ∙ v.no_write);
      asked = λ j p. elim (Bool-cases (j == i)) [
        | inl e ↦
            let same = (==_iff j i).0 e in
            rw same (record { reads = λ q. inr (on (omega arith)); writes = λ q. on (omega arith) })
        | inr e ↦
            let w = v.asked j (omega arith) in
            let out = side.others j (ground arith) in
            record {
              reads = λ q. rw (side.same_server, out) (w.reads (rw side.same_reads at q));
              writes = λ q. rw out (w.writes (rw side.same_writes at q));
            }
      ];
      inside = v.inside;
    }
