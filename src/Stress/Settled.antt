-- ===== src/Stress/Settled.antt =====
-- Between the turns of socket_test/stress_test_client.c no finished request is left open.
use linux_system_programing.Prelude.{
  ℕ, ◌≡◌, ◌≢◌, refl, subst, sym, Option, none, some, ltb, if_holds, if◌then◌else◌,
}
use linux_system_programing.Kernel.{Fd}
use linux_system_programing.Echo.Client.{Ret, ok, failed, done}
use linux_system_programing.Stress.Client.{Client, ClientState, close_client}
use linux_system_programing.Stress.Handlers.{Outcome, handle_connect}
use linux_system_programing.Stress.Loop.{
  Slot, Answers, fail_slot, begin_request, next_request, connected, end_turn, settle, read_turn,
  write_turn, event_turn, poll_turn, after_poll, any_event, connect_event, fatal_event, hang_up,
}
use linux_system_programing.Stress.Counts.{prepare_request-ok}

-- `P` holds of the slot, if the handlers have returned.
abbrev pub IfTurned : (Slot → Type 0) → Option Slot → Type 0
IfTurned P none = Unit {0}
IfTurned P (some t) = P t

-- No open client is left with a finished request between its turns.
abbrev pub Settled : Slot → Type 0
Settled s = (fd : ℕ) → s.client.fd ≡ some fd → s.client.state ≢ ClientState.done

fail_slot-Settled : (s : Slot) → Settled (fail_slot s)
unfolding fail_slot
fail_slot-Settled s fd q = λ _. cc

begin_request-Settled : (now : ℕ) (s : Slot) → Settled (next_request now s)
unfolding next_request begin_request
begin_request-Settled now s =
    subst (λ p. Settled (begin_request p s)) (sym (prepare_request-ok now s.next_sequence s.client))
      (λ fd q e. cc)

end_turn-Settled :
    (r : ℕ) (a : Answers) (st : ClientState) (s : Slot)
    → s.client.state ≡ st
    → Settled (end_turn r a st s)
unfolding end_turn close_client
end_turn-Settled r a ClientState.done s e =
    if_holds Settled (ltb s.next_sequence r) (begin_request-Settled a.later_clock s) (λ fd q d. cc)
end_turn-Settled r a ClientState.connecting s e = λ fd q d. cc
end_turn-Settled r a ClientState.writing s e = λ fd q d. cc
end_turn-Settled r a ClientState.reading s e = λ fd q d. cc
end_turn-Settled r a ClientState.broken s e = λ fd q d. cc

settle-Settled :
    (rest : Slot → Option Slot) (seq : ℕ) (res : Option Outcome)
    → ((s : Slot) → IfTurned Settled (rest s))
    → IfTurned Settled (settle rest seq res)
unfolding settle
settle-Settled rest seq none h = tt
settle-Settled rest seq (some o) h = by_ret o.ret
  where
    t : Slot
    t = record { client = o.client; next_sequence = seq; stats = o.stats }

    by_ret : (q : Ret) → IfTurned Settled (elim q [ failed ↦ some (fail_slot t) | _ ↦ rest t ])
    by_ret failed = fail_slot-Settled t
    by_ret ok = h t
    by_ret done = h t

module _ (r : ℕ) (a : Answers) where
  read_turn-Settled :
      (st : ClientState) (s : Slot) → s.client.state ≡ st → IfTurned Settled (read_turn r a st s)
  unfolding read_turn
  read_turn-Settled ClientState.reading s e =
      if_holds (IfTurned Settled) a.revents.pollin
        (settle-Settled _ s.next_sequence _ (λ t. end_turn-Settled r a t.client.state t refl))
        (λ fd q d. cc)
  read_turn-Settled ClientState.done s e = end_turn-Settled r a s.client.state s refl
  read_turn-Settled _ s e = end_turn-Settled r a s.client.state s refl

  write_turn-Settled :
      (st : ClientState) (s : Slot) → s.client.state ≡ st → IfTurned Settled (write_turn r a st s)
  unfolding write_turn
  write_turn-Settled ClientState.writing s e =
      if_holds (IfTurned Settled) a.revents.pollout
        (settle-Settled _ s.next_sequence _ (λ t. read_turn-Settled t.client.state t refl))
        (λ fd q d. cc)
  write_turn-Settled ClientState.done s e = read_turn-Settled s.client.state s refl
  write_turn-Settled _ s e = read_turn-Settled s.client.state s refl

  connected-Settled : (p : Client × Ret) (s : Slot) → Settled (connected a p s)
  unfolding connected
  connected-Settled (c, failed) s = fail_slot-Settled _
  connected-Settled (c, ok) s = begin_request-Settled a.clock _
  connected-Settled (c, done) s = begin_request-Settled a.clock _

  not_fatal :
      (st : ClientState) (s : Slot)
      → s.client.state ≡ st
      → IfTurned Settled (if fatal_event a.revents then some (hang_up s) else write_turn r a st s)
  not_fatal st s e =
      if_holds (IfTurned Settled) (fatal_event a.revents) {x = some (hang_up s)}
        (fail_slot-Settled _) (write_turn-Settled st s e)

  event_turn-Settled :
      (st : ClientState) (s : Slot) → s.client.state ≡ st → IfTurned Settled (event_turn r a st s)
  unfolding event_turn
  event_turn-Settled ClientState.connecting s e =
      if_holds (IfTurned Settled) (connect_event a.revents)
        {x = some (connected a (handle_connect a.so s.client) s)} {y = some s}
        (connected-Settled (handle_connect a.so s.client) s) (λ fd q d. cc)
  event_turn-Settled ClientState.done s e = not_fatal ClientState.done s e
  event_turn-Settled st s e = not_fatal st s e

  pub after_poll-Settled : (s : Slot) → Settled s → IfTurned Settled (after_poll r a s)
  unfolding after_poll poll_turn
  after_poll-Settled s h = by_fd s.client.fd
    where
      by_fd : (fd : Fd) → IfTurned Settled (poll_turn r a fd s)
      by_fd none = h
      by_fd (some fd) =
          if_holds (IfTurned Settled) (any_event a.revents) {y = some s}
            (event_turn-Settled s.client.state s refl) h
