-- ===== src/Stress/Turns.antt =====
-- Whole turns of one client in the loop of socket_test/stress_test_client.c keep it sound.
use linux_system_programing.Prelude.{
  ℕ, suc, ◌^◌, ◌≤◌, ◌<◌, ◌≡◌, ◌≢◌, inl, inr, refl, ◌∙◌, subst₂, Option, none, some, arith, if_holds,
  if◌then◌else◌,
}
use linux_system_programing.Kernel.{Fd}
use linux_system_programing.Echo.Client.{Ret, ok, failed, done}
use linux_system_programing.Stress.Client.{ClientState}
use linux_system_programing.Stress.Handlers.{
  Outcome, handle_connect, handle_send, handle_recv, econnreset,
}
use linux_system_programing.Stress.Sending.{Honest, IfEnds, Progress, handle_send-Progress}
use linux_system_programing.Stress.Ending.{Bounded, RecvEnd, handle_recv-RecvEnd}
use linux_system_programing.Stress.Loop.{
  Slot, Answers, fail_slot, connected, on_done, settle, read_turn, on_readable, write_turn,
  event_turn, poll_turn, after_poll, any_event, connect_event, fatal_event, hang_up,
}
use linux_system_programing.Stress.Counts.{
  Counts, SlotSound, Turned, Turned-refl, Turned-trans, fail_slot-Turned, errno-SlotSound,
  seen_from,
}
use linux_system_programing.Stress.Turn.{connected-Turned, end_turn-Turned, read_end, write_end}
use linux_system_programing.Stress.Settled.{IfTurned, Settled}

-- send() and recv() keep to what they are asked for.
pub record IsHonest (a : Answers) : Type 0 where
  pub send_honest : Honest a.send
  pub recv_bounded : Bounded a.recv

-- the slot after a handler
abbrev slot_of : Slot → Outcome → Slot
slot_of s o = record { client = o.client; next_sequence = s.next_sequence; stats = o.stats }

IfTurned-trans :
    {r : ℕ} {s t : Slot} (u : Option Slot)
    → Turned r s t
    → IfTurned (Turned r t) u
    → IfTurned (Turned r s) u
IfTurned-trans none p q = tt
IfTurned-trans (some u) p q = Turned-trans p q

settle-Turned :
    {r : ℕ} {s : Slot} {fd : ℕ} (P : Outcome → Type 0) (rest : Slot → Option Slot)
    (res : Option Outcome)
    → s.client.fd ≡ some fd
    → IfEnds P res
    → ((o : Outcome) → P o → Turned r s (slot_of s o))
    → ((o : Outcome) → P o → o.client.fd ≡ s.client.fd)
    → ((o : Outcome) → P o → o.ret ≡ failed → o.client.request_completed < r)
    → s.next_sequence ≤ r
    → ((o : Outcome) → P o → IfTurned (Turned r s) (rest (slot_of s o)))
    → IfTurned (Turned r s) (settle rest s.next_sequence res)
unfolding settle
settle-Turned P rest none here h turned same left begun go = tt
settle-Turned {r} {s} P rest (some o) here h turned same left begun go = by_ret o.ret refl
  where
    by_ret :
        (q : Ret)
        → o.ret ≡ q
        → IfTurned
            (Turned r s)
            (elim q [ failed ↦ some (fail_slot (slot_of s o)) | _ ↦ rest (slot_of s o) ])
    by_ret failed e =
        Turned-trans (turned o h)
          (fail_slot-Turned (same o h ∙ here) (turned o h).sound (left o h e) begun)
    by_ret ok e = go o h
    by_ret done e = go o h

module _ {r : ℕ} (small : r < 2 ^ 64) (some_requests : 0 < r) {a : Answers}
    (honest : IsHonest a) where
  module _ {s : Slot} {fd : ℕ} (here : s.client.fd ≡ some fd) (v : SlotSound r s) where
    after_read :
        s.client.state ≡ ClientState.reading
        → IfTurned (Turned r s) (
            settle
              (λ t. some (on_done r a t))
              s.next_sequence
              (handle_recv a.recv a.clock a.fuel 0 s.client s.stats))
    after_read st =
        settle-Turned (RecvEnd s.client s.stats) _ _ here
          (handle_recv-RecvEnd a.recv a.clock a.fuel 0 s.stats honest.recv_bounded v.room) ended
          (λ o e. e.same_fd) left begun.1
          (λ o e. Turned-trans (ended o e) (
            end_turn-Turned r small some_requests a (e.same_fd ∙ here) (ended o e).sound
              o.client.state refl))
      where
        begun : (s.next_sequence ≡ suc s.client.request_completed) × (s.next_sequence ≤ r)
        begun =
            subst₂ (λ f st. Counts r f st s.next_sequence s.client.request_completed) here st
              v.counts

        ended : (o : Outcome) → RecvEnd s.client s.stats o → Turned r s (slot_of s o)
        ended o e = read_end r small some_requests a here v o st e

        left :
            (o : Outcome)
            → RecvEnd s.client s.stats o
            → o.ret ≡ failed
            → o.client.request_completed < r
        left o e q = elim e.tally [
          | inl (_, same, _) ↦ omega (arith, begun, same)
          | inr (good, _, _, _) ↦ cc
        ]

    done_turn : IfTurned (Turned r s) (some (on_done r a s))
    done_turn = end_turn-Turned r small some_requests a here v s.client.state refl

    pub read_turn-Turned :
        (st : ClientState) → s.client.state ≡ st → IfTurned (Turned r s) (read_turn r a st s)
    unfolding read_turn
    read_turn-Turned ClientState.reading e =
        if_holds (IfTurned (Turned r s)) a.revents.pollin (after_read e) (Turned-refl v)
    read_turn-Turned ClientState.done e = done_turn
    read_turn-Turned _ e = done_turn

  module _ {s : Slot} {fd : ℕ} (here : s.client.fd ≡ some fd) (v : SlotSound r s) where
    after_write :
        s.client.state ≡ ClientState.writing
        → IfTurned (Turned r s) (
            settle
              (on_readable r a)
              s.next_sequence
              (handle_send a.send a.stale a.fuel 0 s.client s.stats))
    after_write st =
        settle-Turned (Progress s.client s.stats) _ _ here
          (handle_send-Progress a.send a.stale a.fuel 0 s.stats honest.send_honest v.window) ended
          (λ o p. p.same_fd) (λ o p q. omega (arith, begun, p.same_tally)) begun.1
          (λ o p.
            IfTurned-trans _ (ended o p)
              (read_turn-Turned (p.same_fd ∙ here) (ended o p).sound o.client.state refl))
      where
        begun : (s.next_sequence ≡ suc s.client.request_completed) × (s.next_sequence ≤ r)
        begun =
            subst₂ (λ f st. Counts r f st s.next_sequence s.client.request_completed) here st
              v.counts

        ended : (o : Outcome) → Progress s.client s.stats o → Turned r s (slot_of s o)
        ended o p = write_end r small some_requests a here v o st p

    write_turn-Turned :
        (st : ClientState) → s.client.state ≡ st → IfTurned (Turned r s) (write_turn r a st s)
    unfolding write_turn
    write_turn-Turned ClientState.writing e =
        if_holds (IfTurned (Turned r s)) a.revents.pollout (after_write e) (Turned-refl v)
    write_turn-Turned ClientState.done e = read_turn-Turned here v s.client.state refl
    write_turn-Turned _ e = read_turn-Turned here v s.client.state refl

module _ {r : ℕ} (small : r < 2 ^ 64) (some_requests : 0 < r) {a : Answers}
    (honest : IsHonest a) where
  module _ {s : Slot} {fd : ℕ} (here : s.client.fd ≡ some fd) (v : SlotSound r s) where
    -- A client that is busy is given up with fewer requests complete than begun.
    fatal-Turned :
        (st : ClientState)
        → s.client.state ≡ st
        → (s.next_sequence ≡ suc s.client.request_completed) × (s.next_sequence ≤ r)
        → IfTurned
            (Turned r s)
            (if fatal_event a.revents then some (hang_up s) else write_turn r a st s)
    fatal-Turned st e begun =
        if_holds (IfTurned (Turned r s)) (fatal_event a.revents) {x = some (hang_up s)}
          (seen_from (record s.client { last_errno = econnreset }) refl refl
            (fail_slot-Turned here (errno-SlotSound econnreset v) (omega arith) begun.1))
          (write_turn-Turned small some_requests honest here v st e)

    at_state :
        (st : ClientState)
        → s.client.state ≡ st
        → Counts r (some fd) st s.next_sequence s.client.request_completed
    at_state st e =
        subst₂ (λ f st. Counts r f st s.next_sequence s.client.request_completed) here e v.counts

    event_turn-Turned :
        (st : ClientState)
        → s.client.state ≡ st
        → st ≢ ClientState.done
        → IfTurned (Turned r s) (event_turn r a st s)
    unfolding event_turn
    event_turn-Turned ClientState.connecting e nd =
        if_holds (IfTurned (Turned r s)) (connect_event a.revents)
          {x = some (connected a (handle_connect a.so s.client) s)} {y = some s}
          (connected-Turned r small some_requests a here v e) (Turned-refl v)
    event_turn-Turned ClientState.writing e nd = fatal-Turned _ e (at_state _ e)
    event_turn-Turned ClientState.reading e nd = fatal-Turned _ e (at_state _ e)
    event_turn-Turned ClientState.done e nd = absurd (nd refl)
    event_turn-Turned ClientState.broken e nd = absurd (at_state _ e)

-- A turn after poll(), whatever the system calls return: the client's counters, windows and buffers
-- stay sound, and the shared counters move by exactly what this client completes and loses.
pub after_poll-Turned :
    (r : ℕ) (a : Answers) (s : Slot)
    → r < 2 ^ 64
    → 0 < r
    → IsHonest a
    → SlotSound r s
    → Settled s
    → IfTurned (Turned r s) (after_poll r a s)
unfolding after_poll poll_turn
after_poll-Turned r a s small pos honest v settled = by_fd s.client.fd refl
  where
    by_fd : (f : Fd) → s.client.fd ≡ f → IfTurned (Turned r s) (poll_turn r a f s)
    by_fd none e = Turned-refl v
    by_fd (some fd) e =
        if_holds (IfTurned (Turned r s)) (any_event a.revents) {y = some s}
          (event_turn-Turned small pos honest e v s.client.state refl (settled fd e))
          (Turned-refl v)
