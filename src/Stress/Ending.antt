-- ===== src/Stress/Ending.antt =====
-- What `handle_recv` of socket_test/stress_test_client.c leaves behind on every path.
use linux_system_programing.Prelude.{
  ℕ, zero, suc, ◌+◌, ◌≤◌, ◌≡◌, ◌⊎◌, inl, inr, refl, sym, ◌∙◌, ap, List, [], ◌∷◌, length, some, ltb,
  leb, ◌==◌, ◌||◌, not, arith, Bool-cases, Option-cases, add_u64, sub_u64,
}
use linux_system_programing.Bytes.{length-blit}
use linux_system_programing.Lines.{first_line_bounds}
use linux_system_programing.Kernel.{Received, bytes, recv_error, eintr, would_block}
use linux_system_programing.Echo.Client.{Ret, ok, failed, scan}
use linux_system_programing.Echo.Copy.{scan-eq-first_line}
use linux_system_programing.Echo.Recv.{payload}
use linux_system_programing.Stress.Client.{Client, ClientState, Stats, buf_size, record_latency}
use linux_system_programing.Stress.Handlers.{
  Outcome, handle_recv, store_answer, check_answer, finish_request, same_bytes,
}
use linux_system_programing.Stress.Sending.{IfEnds, IfEnds-map}
use linux_system_programing.Stress.Receiving.{
  HasRoom, store_answer-HasRoom, completed-record_latency, length-heard, heard,
}

-- recv() writes no more than it has room for.
abbrev pub Bounded : (ℕ → ℕ → Received) → Type 0
Bounded k = (i n : ℕ) → length (payload (k i n)) ≤ n

pub record RecvEnd (c : Client) (s : Stats) (o : Outcome) : Type 0 where
  pub room : HasRoom o.client
  pub same_len : o.client.send_len ≡ c.send_len
  pub same_offset : o.client.send_offset ≡ c.send_offset
  pub same_fd : o.client.fd ≡ c.fd
  pub same_failed : o.stats.failed ≡ s.failed
  pub tally :
      ((o.client.state ≡ c.state)
        × (o.client.request_completed ≡ c.request_completed)
        × (o.stats.completed ≡ s.completed))
      ⊎ ((o.ret ≡ ok)
          × (o.client.state ≡ ClientState.done)
          × (o.client.request_completed ≡ add_u64 c.request_completed 1)
          × (o.stats.completed ≡ add_u64 s.completed 1))

failed-record_latency : (x : ℕ) (s : Stats) → (record_latency x s).failed ≡ s.failed
unfolding record_latency
failed-record_latency x s = ground arith

-- The handler returns with the counters as they were.
idle-RecvEnd :
    (e : ℕ) (r : Ret) {c : Client} (s : Stats)
    → HasRoom c
    → RecvEnd c s (record { client = record c { last_errno = e }; stats = s; ret = r })
idle-RecvEnd e r s v = record {
  room = record {
    recv_room = v.recv_room;
    recv_in = v.recv_in;
    send_room = v.send_room;
    len_in = v.len_in;
  };
  same_len = refl;
  same_offset = refl;
  same_fd = refl;
  same_failed = refl;
  tally = inl (refl, refl, refl);
}

finish_request-RecvEnd :
    (now m : ℕ) {c : Client} (s : Stats)
    → HasRoom c
    → m ≤ c.recv_len
    → IfEnds (RecvEnd c s) (finish_request now m c s)
unfolding finish_request
finish_request-RecvEnd now m {c} s v h = elim (Bool-cases (ltb m c.recv_len)) [
  | inl more ↦ rw more (record {
    room = record {
      recv_room = length-blit _ _ _ ∙ v.recv_room;
      recv_in = omega (arith, v.recv_in);
      send_room = v.send_room;
      len_in = v.len_in;
    };
    same_len = refl;
    same_offset = refl;
    same_fd = refl;
    same_failed = failed-record_latency _ s;
    tally = inr (refl, refl, refl, ap (λ n. add_u64 n 1) (completed-record_latency _ s));
  })
  | inr all ↦ rw all (record {
    room = record {
      recv_room = v.recv_room;
      recv_in = omega arith;
      send_room = v.send_room;
      len_in = v.len_in;
    };
    same_len = refl;
    same_offset = refl;
    same_fd = refl;
    same_failed = failed-record_latency _ s;
    tally = inr (refl, refl, refl, ap (λ n. add_u64 n 1) (completed-record_latency _ s));
  })
]

check_answer-RecvEnd :
    (now m : ℕ) {c : Client} (s : Stats)
    → HasRoom c
    → m ≤ c.recv_len
    → IfEnds (RecvEnd c s) (check_answer now m c s)
unfolding check_answer
check_answer-RecvEnd now m {c} s v h =
    elim (Bool-cases (not (m == c.send_len) || not (same_bytes c.send_len c.recv_buf c.send_buf))) [
      | inl wrong ↦ rw wrong (idle-RecvEnd _ failed s v)
      | inr right ↦ rw right (finish_request-RecvEnd now m s v h)
    ]

pub Received-cases :
    (a : Received)
    → (a ≡ bytes [])
      ⊎ (((x : ℕ) × (xs : List ℕ) × (a ≡ bytes (x ∷ xs))) ⊎ ((e : ℕ) × (a ≡ recv_error e)))
Received-cases (bytes []) = inl refl
Received-cases (bytes (x ∷ xs)) = inr (inl (x, xs, refl))
Received-cases (recv_error e) = inr (inr (e, refl))

onward-RecvEnd :
    (xs : List ℕ) (n : ℕ) (c : Client) (s : Stats) (o : Outcome)
    → RecvEnd (store_answer xs c) (record s { bytes_received = n }) o
    → RecvEnd c s o
unfolding store_answer
onward-RecvEnd xs n c s o e = record {
  room = e.room;
  same_len = e.same_len;
  same_offset = e.same_offset;
  same_fd = e.same_fd;
  same_failed = e.same_failed;
  tally = e.tally;
}

-- When the loop ends, and recv() stayed in the room it was given: the buffers and their lengths are
-- sound, the request and the descriptor are as they were, no failure is counted, and either nothing is
-- completed and the state is the same, or the handler returns 0 with the request completed once, in
-- the client's counter and in the shared one.
pub handle_recv-RecvEnd :
    (k : ℕ → ℕ → Received) (now fuel i : ℕ) {c : Client} (s : Stats)
    → Bounded k
    → HasRoom c
    → IfEnds (RecvEnd c s) (handle_recv k now fuel i c s)
unfolding handle_recv
handle_recv-RecvEnd k now zero i s bounded v = tt
handle_recv-RecvEnd k now (suc fuel) i {c} s bounded v =
    elim (Bool-cases (leb buf_size c.recv_len)) [
      | inl over ↦ rw (over, handle_recv) (idle-RecvEnd _ failed s v)
      | inr room ↦ elim (Received-cases (k i (sub_u64 buf_size c.recv_len))) [
        | inl e ↦ rw (room, e, handle_recv) (idle-RecvEnd _ failed s v)
        | inr (inl (x, xs, e)) ↦
            let d = store_answer (x ∷ xs) c in
            let t : Stats = record s {
              bytes_received = add_u64 s.bytes_received (length (x ∷ xs));
            } in
            let vd : HasRoom d = store_answer-HasRoom (x ∷ xs) v (fits (x ∷ xs) e) in
            elim (Option-cases (scan d.recv_buf d.recv_len 0)) [
              | inl q ↦
                  rw (room, e, q, handle_recv)
                    (IfEnds-map _ (RecvEnd c s) _ (onward-RecvEnd (x ∷ xs) _ c s)
                      (handle_recv-RecvEnd k now fuel (i + 1) t bounded vd))
              | inr (m, q) ↦
                  rw (room, e, q, handle_recv)
                    (IfEnds-map _ (RecvEnd c s) _ (onward-RecvEnd (x ∷ xs) _ c s)
                      (check_answer-RecvEnd now m t vd (line_in vd q)))
            ]
        | inr (inr (x, e)) ↦ elim (Bool-cases (x == eintr)) [
          | inl again ↦
              rw (room, e, again, handle_recv) (handle_recv-RecvEnd k now fuel (i + 1) s bounded v)
          | inr no_more ↦ elim (Bool-cases (would_block x)) [
            | inl wait ↦ rw (room, e, no_more, wait, handle_recv) (idle-RecvEnd c.last_errno ok s v)
            | inr broken ↦ rw (room, e, no_more, broken, handle_recv) (idle-RecvEnd x failed s v)
          ]
        ]
      ]
    ]
  where
    fits :
        (xs : List ℕ)
        → k i (sub_u64 buf_size c.recv_len) ≡ bytes xs
        → c.recv_len + length xs ≤ buf_size
    fits xs e =
        let h : length xs ≤ sub_u64 buf_size c.recv_len =
          rw (ap (λ r. length (payload r)) e) at (bounded i (sub_u64 buf_size c.recv_len)) in
        omega (arith, v.recv_in)

    line_in :
        {d : Client} {m : ℕ} → HasRoom d → scan d.recv_buf d.recv_len 0 ≡ some m → m ≤ d.recv_len
    line_in {d} {m} vd q = omega (
      arith,
      first_line_bounds (heard d) m (
          sym (scan-eq-first_line d.recv_buf d.recv_len (omega (arith, vd.recv_room, vd.recv_in)))
          ∙ q),
      length-heard vd,
    )
