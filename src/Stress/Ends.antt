-- ===== src/Stress/Ends.antt =====
-- The loops of socket_test/stress_test_client.c end, and with them the turn of a client.
use linux_system_programing.Prelude.{
  ℕ, zero, suc, ◌+◌, ◌-◌, ◌^◌, ◌≤◌, ◌<◌, ◌≡◌, ◌≢◌, inl, inr, refl, ◌∙◌, ap, List, ◌∷◌, length,
  Option, none, some, ltb, leb, ◌==◌, arith, Bool-cases, Option-cases, add_u64, sub_u64, ltb→lt,
  ltb→le, ==_iff, if_holds, if◌then◌else◌,
}
use linux_system_programing.Kernel.{Fd, Received, bytes, recv_error, eintr, would_block}
use linux_system_programing.Echo.Client.{Ret, ok, failed, done, scan}
use linux_system_programing.Echo.Recv.{payload}
use linux_system_programing.Stress.Client.{Client, ClientState, Stats, buf_size}
use linux_system_programing.Stress.Handlers.{
  Outcome, handle_recv, store_answer, check_answer, finish_request, handle_connect,
}
use linux_system_programing.Stress.Sending.{
  Settles, IfEnds, Progress, handle_send-Progress, handle_send-ne-none,
}
use linux_system_programing.Stress.Receiving.{HasRoom, store_answer-HasRoom}
use linux_system_programing.Stress.Ending.{Bounded, Received-cases}
use linux_system_programing.Stress.Loop.{
  Slot, Answers, fail_slot, on_done, settle, read_turn, on_readable, write_turn, event_turn,
  poll_turn, after_poll, any_event, connect_event, fatal_event, hang_up, connected,
}
use linux_system_programing.Stress.Counts.{SlotSound, Turned}
use linux_system_programing.Stress.Settled.{Settled, after_poll-Settled}
use linux_system_programing.Stress.Turns.{IsHonest, after_poll-Turned}

-- From its `m`-th call on, recv() is not interrupted.
abbrev pub Quiet : ℕ → (ℕ → ℕ → Received) → Type 0
Quiet m k = (i n : ℕ) → m ≤ i → k i n ≢ recv_error eintr

check_answer-ne-none : (now m : ℕ) (c : Client) (s : Stats) → check_answer now m c s ≢ none
unfolding check_answer finish_request
check_answer-ne-none now m c s = ground arith

-- The receiving loop ends where recv() stays in the room it is given and is not interrupted from its
-- `m`-th call on: fuel above the calls up to `m` and the room left in the buffer is enough.
pub handle_recv-ne-none :
    (k : ℕ → ℕ → Received) (now m fuel i : ℕ) {c : Client} (s : Stats)
    → Bounded k
    → Quiet m k
    → HasRoom c
    → (m - i) + (buf_size - c.recv_len) < fuel
    → handle_recv k now fuel i c s ≢ none
unfolding handle_recv store_answer
handle_recv-ne-none k now m zero i s bounded quiet v enough = absurd (omega arith)
handle_recv-ne-none k now m (suc fuel) i {c} s bounded quiet v enough =
    elim (Bool-cases (leb buf_size c.recv_len)) [
      | inl over ↦ rw (over, handle_recv) (λ q. cc)
      | inr room ↦ elim (Received-cases (k i (sub_u64 buf_size c.recv_len))) [
        | inl e ↦ rw (room, e, handle_recv) (λ q. cc)
        | inr (inl (x, xs, e)) ↦
            let d = store_answer (x ∷ xs) c in
            let t : Stats = record s {
              bytes_received = add_u64 s.bytes_received (length (x ∷ xs));
            } in
            elim (Option-cases (scan d.recv_buf d.recv_len 0)) [
              | inl q ↦
                  rw (room, e, q, handle_recv)
                    (handle_recv-ne-none k now m fuel (i + 1) t bounded quiet
                      (store_answer-HasRoom (x ∷ xs) v (fits (x ∷ xs) e))
                      (stored (x ∷ xs) e (omega arith)))
              | inr (n, q) ↦ rw (room, e, q, handle_recv) (check_answer-ne-none now n d t)
            ]
        | inr (inr (x, e)) ↦ elim (Bool-cases (x == eintr)) [
          | inl again ↦
              rw (room, e, again, handle_recv)
                (handle_recv-ne-none k now m fuel (i + 1) s bounded quiet v (
                  omega (
                    arith,
                    not_quiet (sub_u64 buf_size c.recv_len)
                        (e ∙ ap recv_error ((==_iff x eintr).0 again)),
                  )))
          | inr no_more ↦ elim (Bool-cases (would_block x)) [
            | inl wait ↦ rw (room, e, no_more, wait, handle_recv) (λ q. cc)
            | inr broken ↦ rw (room, e, no_more, broken, handle_recv) (λ q. cc)
          ]
        ]
      ]
    ]
  where
    fits :
        (xs : List ℕ)
        → k i (sub_u64 buf_size c.recv_len) ≡ bytes xs
        → c.recv_len + length xs ≤ buf_size
    fits xs e =
        let h : length xs ≤ sub_u64 buf_size c.recv_len =
          rw (ap (λ r. length (payload r)) e) at (bounded i (sub_u64 buf_size c.recv_len)) in
        omega (arith, v.recv_in)

    stored :
        (xs : List ℕ)
        → k i (sub_u64 buf_size c.recv_len) ≡ bytes xs
        → 0 < length xs
        → (m - (i + 1)) + (buf_size - (store_answer xs c).recv_len) < fuel
    stored xs e pos = omega (arith, fits xs e, v.recv_in, enough)

    not_quiet : (n : ℕ) → k i n ≡ recv_error eintr → i < m
    not_quiet n q = elim (Bool-cases (ltb i m)) [
      | inl below ↦ ltb→lt i m below
      | inr above ↦ absurd (quiet i n (ltb→le i m above) q)
    ]

-- From the `m`-th call of a turn on, nothing is interrupted, and the fuel outlasts both loops.
pub record IsFuelled (m : ℕ) (a : Answers) : Type 0 where
  pub send_settles : Settles m a.send
  pub recv_quiet : Quiet m a.recv
  pub enough : m + buf_size < a.fuel

settle-ne-none :
    (P : Outcome → Type 0) (rest : Slot → Option Slot) (seq : ℕ) (res : Option Outcome)
    → res ≢ none
    → IfEnds P res
    → ((o : Outcome)
        → P o
        → rest (record { client = o.client; next_sequence = seq; stats = o.stats }) ≢ none)
    → settle rest seq res ≢ none
unfolding settle
settle-ne-none P rest seq none ends h go = absurd (ends refl)
settle-ne-none P rest seq (some o) ends h go = by_ret o.ret
  where
    t : Slot
    t = record { client = o.client; next_sequence = seq; stats = o.stats }

    by_ret : (q : Ret) → elim q [ failed ↦ some (fail_slot t) | _ ↦ rest t ] ≢ none
    by_ret failed = λ q. cc
    by_ret ok = go o h
    by_ret done = go o h

Anything : Outcome → Type 0
Anything _ = Unit {0}

always : (res : Option Outcome) → IfEnds Anything res
unfolding Anything
always none = tt
always (some _) = tt

module _ (r m : ℕ) {a : Answers} (honest : IsHonest a) (fuelled : IsFuelled m a) where
  read_turn-ne-none : (st : ClientState) (s : Slot) → HasRoom s.client → read_turn r a st s ≢ none
  unfolding read_turn
  read_turn-ne-none ClientState.reading s v =
      if_holds (λ o. o ≢ none) a.revents.pollin
        (settle-ne-none Anything (λ t. some (on_done r a t)) s.next_sequence _
          (handle_recv-ne-none a.recv a.clock m a.fuel 0 s.stats honest.recv_bounded
            fuelled.recv_quiet v (omega (arith, fuelled.enough)))
          (always _) (λ o _ q. cc))
        (λ q. cc)
  read_turn-ne-none ClientState.done s v = λ q. cc
  read_turn-ne-none _ s v = λ q. cc

  write_turn-ne-none : (st : ClientState) (s : Slot) → SlotSound r s → write_turn r a st s ≢ none
  unfolding write_turn
  write_turn-ne-none ClientState.writing s v =
      if_holds (λ o. o ≢ none) a.revents.pollout
        (settle-ne-none (Progress s.client s.stats) (on_readable r a) s.next_sequence _
          (handle_send-ne-none a.send a.stale m a.fuel 0 s.stats honest.send_honest
            fuelled.send_settles v.window (omega (arith, fuelled.enough, v.window.len_in)))
          (handle_send-Progress a.send a.stale a.fuel 0 s.stats honest.send_honest v.window)
          (λ o p. read_turn-ne-none o.client.state _ (kept o p)))
        (λ q. cc)
    where
      kept : (o : Outcome) → Progress s.client s.stats o → HasRoom o.client
      kept o p = record {
        recv_room = rw p.same_recv.0 v.room.recv_room;
        recv_in = omega (arith, p.same_recv, v.room.recv_in);
        send_room = rw p.same_buf v.room.send_room;
        len_in = p.window.len_in;
      }
  write_turn-ne-none ClientState.done s v = read_turn-ne-none s.client.state s v.room
  write_turn-ne-none _ s v = read_turn-ne-none s.client.state s v.room

  -- the turn of a client that is not connecting
  open_turn-ne-none :
      (st : ClientState) (s : Slot)
      → SlotSound r s
      → (if fatal_event a.revents then some (hang_up s) else write_turn r a st s) ≢ none
  open_turn-ne-none st s v =
      if_holds (λ o. o ≢ none) (fatal_event a.revents) {x = some (hang_up s)} (λ q. cc)
        (write_turn-ne-none st s v)

  event_turn-ne-none : (st : ClientState) (s : Slot) → SlotSound r s → event_turn r a st s ≢ none
  unfolding event_turn
  event_turn-ne-none ClientState.connecting s v =
      if_holds (λ o. o ≢ none) (connect_event a.revents)
        {x = some (connected a (handle_connect a.so s.client) s)} {y = some s} (λ q. cc) (λ q. cc)
  event_turn-ne-none ClientState.done s v = open_turn-ne-none ClientState.done s v
  event_turn-ne-none st s v = open_turn-ne-none st s v

  after_poll-ne-none : (s : Slot) → SlotSound r s → after_poll r a s ≢ none
  unfolding after_poll poll_turn
  after_poll-ne-none s v = by_fd s.client.fd
    where
      by_fd : (f : Fd) → poll_turn r a f s ≢ none
      by_fd none = λ q. cc
      by_fd (some fd) =
          if_holds (λ o. o ≢ none) (any_event a.revents) {y = some s}
            (event_turn-ne-none s.client.state s v) (λ q. cc)

-- From a sound slot with no finished request open, a turn after poll() ends with a slot, where send()
-- and recv() keep to the sizes they are given and are not interrupted from their `m`-th call on, and
-- the fuel is above `m` and the size of a buffer. The client's counters, window and buffers are sound
-- again, no open client is left with a finished request, and the shared counters have moved, modulo
-- 2 ^ 64, by what this client has completed and by whether it has been given up. (At least one request
-- per client, and fewer than 2 ^ 64.)
pub after_poll-ends :
    (r m : ℕ) (a : Answers) (s : Slot)
    → r < 2 ^ 64
    → 0 < r
    → IsHonest a
    → IsFuelled m a
    → SlotSound r s
    → Settled s
    → (t : Slot) × (after_poll r a s ≡ some t) × Turned r s t × Settled t
after_poll-ends r m a s small pos honest fuelled v settled =
    elim (Option-cases (after_poll r a s)) [
      | inl q ↦ absurd (after_poll-ne-none r m honest fuelled s v q)
      | inr (t, q) ↦ (
        t,
        q,
        rw q at (after_poll-Turned r a s small pos honest v settled),
        rw q at (after_poll-Settled r a s settled),
      )
    ]
