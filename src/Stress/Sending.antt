-- ===== src/Stress/Sending.antt =====
-- The sending loop of socket_test/stress_test_client.c.
use linux_system_programing.Prelude.{
  ℕ, zero, suc, ◌+◌, ◌-◌, ◌<◌, ◌≤◌, ◌≡◌, ◌≢◌, ◌⊎◌, inl, inr, refl, ◌∙◌, ap, ◌%◌, ◌^◌, Option, none,
  some, ltb, ◌==◌, arith, Bool-cases, add_u64, ltb→lt, ltb→le, ==_iff,
}
use linux_system_programing.Kernel.{Sent, took, send_error, eintr, would_block}
use linux_system_programing.Echo.Client.{Ret, ok, failed}
use linux_system_programing.Echo.Send.{count}
use linux_system_programing.Stress.Client.{Client, ClientState, Stats, buf_size}
use linux_system_programing.Stress.Handlers.{Outcome, handle_send, to_send}

-- the send window lies in its buffer
pub record Window (c : Client) : Type 0 where
  pub offset_in : c.send_offset ≤ c.send_len
  pub len_in : c.send_len ≤ buf_size

-- send() takes no more than it is asked to.
abbrev pub Honest : (ℕ → ℕ → Sent) → Type 0
Honest k = (i n : ℕ) → count (k i n) ≤ n

-- How the loop ends.
pub record Progress (c : Client) (s : Stats) (o : Outcome) : Type 0 where
  pub window : Window o.client
  pub onward : c.send_offset ≤ o.client.send_offset
  pub same_len : o.client.send_len ≡ c.send_len
  pub same_buf : o.client.send_buf ≡ c.send_buf
  pub same_fd : o.client.fd ≡ c.fd
  pub same_recv : (o.client.recv_buf ≡ c.recv_buf) × (o.client.recv_len ≡ c.recv_len)
  pub same_tally : o.client.request_completed ≡ c.request_completed
  pub counted :
      o.stats.bytes_sent % 2 ^ 64 ≡ (s.bytes_sent + (o.client.send_offset - c.send_offset)) % 2 ^ 64
  pub rest : o.stats ≡ record s { bytes_sent = o.stats.bytes_sent }
  pub state_in : (o.client.state ≡ ClientState.reading) ⊎ (o.client.state ≡ c.state)
  pub switched :
      o.ret ≡ ok
      → ((o.client.state ≡ ClientState.reading) × (o.client.send_offset ≡ c.send_len))
        ⊎ ((o.client.state ≡ c.state) × (o.client.send_offset < c.send_len))

Sent-cases :
    (a : Sent) → (a ≡ took 0) ⊎ (((n : ℕ) × (a ≡ took (suc n))) ⊎ ((e : ℕ) × (a ≡ send_error e)))
Sent-cases (took zero) = inl refl
Sent-cases (took (suc n)) = inr (inl (n, refl))
Sent-cases (send_error e) = inr (inr (e, refl))

-- `P` holds of the result, if there is one.
abbrev pub IfEnds : (Outcome → Type 0) → Option Outcome → Type 0
IfEnds P none = Unit {0}
IfEnds P (some o) = P o

-- `n` bytes are sent.
abbrev sent_client : ℕ → Client → Client
sent_client n c = record c { send_offset = add_u64 c.send_offset n }

abbrev sent_stats : ℕ → Stats → Stats
sent_stats n s = record s { bytes_sent = add_u64 s.bytes_sent n }

sent-Window : (n : ℕ) {c : Client} → Window c → n ≤ to_send c → Window (sent_client n c)
sent-Window n {c} w fits = record {
  offset_in = omega (arith, w.offset_in, w.len_in);
  len_in = w.len_in;
}

pub IfEnds-map :
    (P Q : Outcome → Type 0) (r : Option Outcome)
    → ((o : Outcome) → P o → Q o)
    → IfEnds P r
    → IfEnds Q r
IfEnds-map P Q none f h = tt
IfEnds-map P Q (some o) f h = f o h

module _ {c : Client} (s : Stats) (w : Window c) where
  -- Nothing is sent, and the handler returns.
  stop-Progress :
      (e : ℕ) (r : Ret)
      → (r ≡ ok → c.send_offset < c.send_len)
      → Progress c s (record { client = record c { last_errno = e }; stats = s; ret = r })
  stop-Progress e r more = record {
    window = record { offset_in = w.offset_in; len_in = w.len_in };
    onward = omega arith;
    same_len = refl;
    same_buf = refl;
    same_fd = refl;
    same_recv = (refl, refl);
    same_tally = refl;
    counted = omega arith;
    rest = refl;
    state_in = inr refl;
    switched = λ q. inr (refl, more q);
  }

  whole-Progress :
      c.send_len ≤ c.send_offset
      → Progress c s
          (record { client = record c { state = ClientState.reading }; stats = s; ret = ok })
  whole-Progress all = record {
    window = record { offset_in = w.offset_in; len_in = w.len_in };
    onward = omega arith;
    same_len = refl;
    same_buf = refl;
    same_fd = refl;
    same_recv = (refl, refl);
    same_tally = refl;
    counted = omega arith;
    rest = refl;
    state_in = inl refl;
    switched = λ q. inl (refl, omega (arith, w.offset_in));
  }

  module _ (n : ℕ) (fits : n ≤ to_send c) where
    offset_word : add_u64 c.send_offset n ≡ c.send_offset + n
    offset_word = omega (arith, w.offset_in, w.len_in)

    more-Progress : {o : Outcome} → Progress (sent_client n c) (sent_stats n s) o → Progress c s o
    more-Progress {o} p = record {
      window = p.window;
      onward = omega (arith, p.onward, offset_word);
      same_len = p.same_len;
      same_buf = p.same_buf;
      same_fd = p.same_fd;
      same_recv = p.same_recv;
      same_tally = p.same_tally;
      counted = omega (arith, p.counted, p.onward, offset_word);
      rest = p.rest;
      state_in = p.state_in;
      switched = p.switched;
    }

-- When the loop ends, and send() took no more than it was asked to: the window stays in the buffer
-- and only moves onward, `bytes_sent` grows by what it moved modulo 2 ^ 64, the request, the answer
-- and the other counters stay as they were, and on success the client is reading with all of the
-- request sent, or is in its old state with some left.
pub handle_send-Progress :
    (k : ℕ → ℕ → Sent) (stale fuel i : ℕ) {c : Client} (s : Stats)
    → Honest k
    → Window c
    → IfEnds (Progress c s) (handle_send k stale fuel i c s)
unfolding handle_send
handle_send-Progress k stale zero i s honest w = tt
handle_send-Progress k stale (suc fuel) i {c} s honest w =
    elim (Bool-cases (ltb c.send_offset c.send_len)) [
      | inr all ↦ rw (all, handle_send) (whole-Progress s w (ltb→le _ _ all))
      | inl more ↦ elim (Sent-cases (k i (to_send c))) [
        | inl e ↦ rw (more, e, handle_send) (stop-Progress s w stale failed (λ q. cc))
        | inr (inl (n, e)) ↦
            rw (more, e, handle_send)
              (let fits : suc n ≤ to_send c = rw (ap count e) at (honest i (to_send c)) in
                IfEnds-map _ (Progress c s) _ (λ o. more-Progress s w (suc n) fits {o = o})
                  (handle_send-Progress k stale fuel (i + 1) (sent_stats (suc n) s) honest
                    (sent-Window (suc n) w fits)))
        | inr (inr (x, e)) ↦ elim (Bool-cases (x == eintr)) [
          | inl again ↦
              rw (more, e, again, handle_send)
                (handle_send-Progress k stale fuel (i + 1) s honest w)
          | inr no_more ↦ elim (Bool-cases (would_block x)) [
            | inl wait ↦
                rw (more, e, no_more, wait, handle_send)
                  (stop-Progress s w c.last_errno ok (λ q. ltb→lt _ _ more))
            | inr broken ↦
                rw (more, e, no_more, broken, handle_send) (stop-Progress s w x failed (λ q. cc))
          ]
        ]
      ]
    ]

-- From its `m`-th call on, send() is not interrupted.
abbrev pub Settles : ℕ → (ℕ → ℕ → Sent) → Type 0
Settles m k = (i n : ℕ) → m ≤ i → k i n ≢ send_error eintr

-- The loop ends where send() takes no more than it is asked to and is not interrupted from its `m`-th
-- call on: fuel above the calls up to `m` and the bytes left is enough.
pub handle_send-ne-none :
    (k : ℕ → ℕ → Sent) (stale m fuel i : ℕ) {c : Client} (s : Stats)
    → Honest k
    → Settles m k
    → Window c
    → (m - i) + (c.send_len - c.send_offset) < fuel
    → handle_send k stale fuel i c s ≢ none
unfolding handle_send
handle_send-ne-none k stale m zero i s honest settles w enough = absurd (omega arith)
handle_send-ne-none k stale m (suc fuel) i {c} s honest settles w enough =
    elim (Bool-cases (ltb c.send_offset c.send_len)) [
      | inr all ↦ rw (all, handle_send) (λ q. cc)
      | inl more ↦ elim (Sent-cases (k i (to_send c))) [
        | inl e ↦ rw (more, e, handle_send) (λ q. cc)
        | inr (inl (n, e)) ↦
            let fits : suc n ≤ to_send c = rw (ap count e) at (honest i (to_send c)) in
            rw (more, e, handle_send)
              (handle_send-ne-none k stale m fuel (i + 1) (sent_stats (suc n) s) honest settles
                (sent-Window (suc n) w fits) (omega (arith, w.len_in, w.offset_in)))
        | inr (inr (x, e)) ↦ elim (Bool-cases (x == eintr)) [
          | inl again ↦
              rw (more, e, again, handle_send)
                (handle_send-ne-none k stale m fuel (i + 1) s honest settles w (
                  omega (
                    arith,
                    not_settled (to_send c) (e ∙ ap send_error ((==_iff x eintr).0 again)),
                  )))
          | inr no_more ↦ elim (Bool-cases (would_block x)) [
            | inl wait ↦ rw (more, e, no_more, wait, handle_send) (λ q. cc)
            | inr broken ↦ rw (more, e, no_more, broken, handle_send) (λ q. cc)
          ]
        ]
      ]
    ]
  where
    not_settled : (n : ℕ) → k i n ≡ send_error eintr → i < m
    not_settled n q = elim (Bool-cases (ltb i m)) [
      | inl below ↦ ltb→lt i m below
      | inr above ↦ absurd (settles i n (ltb→le i m above) q)
    ]
