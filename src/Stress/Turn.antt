-- ===== src/Stress/Turn.antt =====
-- The turns of one client in the loop of socket_test/stress_test_client.c: what they keep, and how
-- they move the counters that the clients share.
use linux_system_programing.Prelude.{
  ℕ, suc, ◌^◌, ◌≤◌, ◌<◌, ◌≡◌, ◌⊎◌, inl, inr, refl, sym, ◌∙◌, subst, subst₂, none, some, ltb, arith,
  Bool-cases, Option-cases, add_u64, ltb→lt,
}
use linux_system_programing.Echo.Client.{ok, failed}
use linux_system_programing.Stress.Client.{Client, ClientState, close_client}
use linux_system_programing.Stress.Handlers.{SockError, Outcome, handle_connect, verify_connection}
use linux_system_programing.Stress.Sending.{Progress}
use linux_system_programing.Stress.Receiving.{HasRoom}
use linux_system_programing.Stress.Ending.{RecvEnd}
use linux_system_programing.Stress.Loop.{Slot, Answers, connected, end_turn}
use linux_system_programing.Stress.Counts.{
  Counts, SlotSound, Turned, Turned-refl, fail_slot-Turned, next_request-Turned, seen_from,
  errno-SlotSound,
}

handle_connect-ok :
    (answer : SockError) (c : Client)
    → verify_connection answer ≡ none
    → handle_connect answer c ≡ (record c { state = ClientState.writing }, ok)
unfolding handle_connect
handle_connect-ok answer c q = rw (q, handle_connect)

handle_connect-failed :
    (answer : SockError) (c : Client) (e : ℕ)
    → verify_connection answer ≡ some e
    → handle_connect answer c ≡ (record c { last_errno = e }, failed)
unfolding handle_connect
handle_connect-failed answer c e q = rw (q, handle_connect)

copy_room : {c : Client} (e : ℕ) → HasRoom c → HasRoom (record c { last_errno = e })
copy_room e v = record {
  recv_room = v.recv_room;
  recv_in = v.recv_in;
  send_room = v.send_room;
  len_in = v.len_in;
}

module _ (r : ℕ) (small : r < 2 ^ 64) (some_requests : 0 < r) (a : Answers) where
  module _ {s : Slot} {fd : ℕ} (here : s.client.fd ≡ some fd) (v : SlotSound r s) where
    pub connected-Turned :
        s.client.state ≡ ClientState.connecting
        → Turned r s (connected a (handle_connect a.so s.client) s)
    unfolding connected handle_connect
    connected-Turned st = elim (Option-cases (verify_connection a.so)) [
      | inr (e, q) ↦
          subst (λ p. Turned r s (connected a p s)) (sym (handle_connect-failed a.so s.client e q))
            (seen_from (record s.client { last_errno = e }) refl refl
              (fail_slot-Turned here (errno-SlotSound e v) (omega (arith, begun))
                (omega (arith, begun))))
      | inl q ↦
          subst (λ p. Turned r s (connected a p s)) (sym (handle_connect-ok a.so s.client q))
            (seen_from (record s.client { state = ClientState.writing }) refl refl
              (next_request-Turned a.clock here
                (record {
                  recv_room = v.room.recv_room;
                  recv_in = v.room.recv_in;
                  send_room = v.room.send_room;
                  len_in = v.room.len_in;
                })
                small (omega (arith, begun)) (omega (arith, begun))))
    ]
      where
        begun : (s.next_sequence ≡ 0) × (s.client.request_completed ≡ 0)
        begun =
            subst₂ (λ f st. Counts r f st s.next_sequence s.client.request_completed) here st
              v.counts

    -- A client that has finished a request.
    finished-Turned :
        s.client.state ≡ ClientState.done → Turned r s (end_turn r a ClientState.done s)
    unfolding end_turn close_client
    finished-Turned st = elim (Bool-cases (ltb s.next_sequence r)) [
      | inl more ↦
          rw more (next_request-Turned a.later_clock here v.room small even.0 (ltb→lt _ _ more))
      | inr all ↦ rw all (record {
        sound = record {
          room = record {
            recv_room = v.room.recv_room;
            recv_in = v.room.recv_in;
            send_room = v.room.send_room;
            len_in = v.room.len_in;
          };
          window = record { offset_in = v.window.offset_in; len_in = v.window.len_in };
          counts = omega (arith, even);
        };
        completions = refl;
        failures = ground (arith, even);
      })
    ]
      where
        even : (s.next_sequence ≡ s.client.request_completed) × (s.next_sequence ≤ r)
        even =
            subst₂ (λ f st. Counts r f st s.next_sequence s.client.request_completed) here st
              v.counts

    pub end_turn-Turned : (st : ClientState) → s.client.state ≡ st → Turned r s (end_turn r a st s)
    unfolding end_turn
    end_turn-Turned ClientState.done e = finished-Turned e
    end_turn-Turned ClientState.connecting e = Turned-refl v
    end_turn-Turned _ e = Turned-refl v

    -- After handle_recv().
    pub read_end :
        (o : Outcome)
        → s.client.state ≡ ClientState.reading
        → RecvEnd s.client s.stats o
        → Turned r s
            (record { client = o.client; next_sequence = s.next_sequence; stats = o.stats })
    read_end o st e = record {
      sound = record {
        room = e.room;
        window = record {
          offset_in = omega (arith, e.same_len, e.same_offset, v.window.offset_in);
          len_in = omega (arith, e.same_len, v.window.len_in);
        };
        counts = counted e.tally;
      };
      completions = omega (arith, e.tally, begun);
      failures = rw (e.same_failed, e.same_fd, here);
    }
      where
        begun : (s.next_sequence ≡ suc s.client.request_completed) × (s.next_sequence ≤ r)
        begun =
            subst₂ (λ f st. Counts r f st s.next_sequence s.client.request_completed) here st
              v.counts

        counted :
            ((o.client.state ≡ s.client.state)
                × (o.client.request_completed ≡ s.client.request_completed)
                × (o.stats.completed ≡ s.stats.completed))
              ⊎ ((o.ret ≡ ok)
                  × (o.client.state ≡ ClientState.done)
                  × (o.client.request_completed ≡ add_u64 s.client.request_completed 1)
                  × (o.stats.completed ≡ add_u64 s.stats.completed 1))
            → Counts r o.client.fd o.client.state s.next_sequence o.client.request_completed
        counted (inl (same, tally, _)) = rw (e.same_fd ∙ here, same ∙ st, tally) begun
        counted (inr (_, done, tally, _)) =
            rw (e.same_fd ∙ here, done, tally) (omega (arith, begun, small))

    -- After handle_send().
    pub write_end :
        (o : Outcome)
        → s.client.state ≡ ClientState.writing
        → Progress s.client s.stats o
        → Turned r s
            (record { client = o.client; next_sequence = s.next_sequence; stats = o.stats })
    write_end o st p = record {
      sound = record {
        room = record {
          recv_room = rw p.same_recv.0 v.room.recv_room;
          recv_in = omega (arith, p.same_recv, v.room.recv_in);
          send_room = rw p.same_buf v.room.send_room;
          len_in = p.window.len_in;
        };
        window = p.window;
        counts = counted p.state_in;
      };
      completions = rw (p.same_tally, p.rest) refl;
      failures = rw (p.rest, p.same_fd, here) refl;
    }
      where
        begun : (s.next_sequence ≡ suc s.client.request_completed) × (s.next_sequence ≤ r)
        begun =
            subst₂ (λ f st. Counts r f st s.next_sequence s.client.request_completed) here st
              v.counts

        counted :
            (o.client.state ≡ ClientState.reading) ⊎ (o.client.state ≡ s.client.state)
            → Counts r o.client.fd o.client.state s.next_sequence o.client.request_completed
        counted (inl q) = rw (p.same_fd ∙ here, q, p.same_tally) begun
        counted (inr q) = rw (p.same_fd ∙ here, q ∙ st, p.same_tally) begun
