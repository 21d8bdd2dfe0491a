-- ===== src/SelectServer/Rounds.antt =====
-- The serving half of a round of socket_test/tcp_select_server_v2.c, whole rounds, and every state
-- that the server can reach.
use linux_system_programing.Prelude.{
  ℕ, zero, suc, ◌+◌, ◌<◌, ◌≤◌, ◌≡◌, ◌≢◌, ◌⊎◌, inl, inr, refl, some, Bool, true, false, ltb, arith,
  ◌==◌, Option-cases, Bool-cases, ap, ◌∙◌, length, List,
}
use linux_system_programing.Kernel.{Sent, eintr}
use linux_system_programing.Echo.Client.{Client, handle_send, offered, Ret, ok, failed, done}
use linux_system_programing.Echo.Views.{IsValid}
use linux_system_programing.Echo.Recv.{
  Fits, payload, handle_recv-IsValid, client_fd-handle_recv, handle_recv-ne-done, queue_grows,
}
use linux_system_programing.Echo.Send.{
  count, handle_send-Gave, Gave, Gave-shrinks, offered-eq-queued,
}
use linux_system_programing.SelectServer.State.{
  Server, boot, Round, IsKernel, Selected, ready, select_error, put_bit, put_client, FdSet,
  max_connections,
}
use linux_system_programing.SelectServer.Steps.{
  after_recv, recv_slot, after_send, send_slot, serve_slot, serve_slots, serve, round,
}
use linux_system_programing.SelectServer.Valid.{
  IsSound, refresh-IsSound, drop_slot-IsSound, boot-IsSound,
}
use linux_system_programing.SelectServer.Accept.{accept_step-IsSound, resets-IsSound}

-- A turn of slot `i` is over, or goes on with the connection still in it.
pub record IsTurn (i fd : ℕ) (r : Server × Bool) : Type 0 where
  pub sound : IsSound r.0
  pub goes_on : r.1 ≡ false → (r.0.client i).client_fd ≡ some fd

put_self : (i : ℕ) (table : ℕ → Client) (c : Client) → put_client table i c i ≡ c
put_self i table c = ground arith

module _ {s : Server} (v : IsSound s) (i fd : ℕ) (here : (s.client i).client_fd ≡ some fd) where
  pub after_recv-IsTurn :
      (c : Client) (flag : Ret)
      → IsValid c
      → c.client_fd ≡ some fd
      → flag ≢ done
      → (flag ≡ ok → c.send_len ≤ c.send_offset → (s.client i).send_len ≤ (s.client i).send_offset)
      → IsTurn i fd (after_recv i fd (c, flag) s)
  unfolding after_recv
  after_recv-IsTurn c failed good same nd grows = elim (Bool-cases (ltb c.send_offset c.send_len)) [
    | inl more ↦ rw more (record {
      sound =
          drop_slot-IsSound v i fd here c (put_bit s.master_write fd true) good
            (λ d h. ground arith);
      goes_on = λ q. cc;
    })
    | inr no_more ↦ rw no_more (record {
      sound = drop_slot-IsSound v i fd here c s.master_write good (λ d h. refl);
      goes_on = λ q. cc;
    })
  ]
  after_recv-IsTurn c ok good same nd grows = elim (Bool-cases (ltb c.send_offset c.send_len)) [
    | inl more ↦ rw more (record {
      sound =
          refresh-IsSound v i fd here c (put_bit s.master_write fd true) good same (ground arith)
            (λ d h. ground arith);
      goes_on = λ q. ap (λ (c : Client). c.client_fd) (put_self i s.client c) ∙ same;
    })
    | inr no_more ↦ rw no_more (record {
      sound =
          refresh-IsSound v i fd here c s.master_write good same
            (ground (arith, v.owner i fd here, grows)) (λ d h. refl);
      goes_on = λ q. ap (λ (c : Client). c.client_fd) (put_self i s.client c) ∙ same;
    })
  ]
  after_recv-IsTurn c done good same nd grows = absurd (nd refl)

  recv_slot-IsTurn : (k : Round) → Fits (payload (k.recv i)) → IsTurn i fd (recv_slot k i fd s)
  unfolding recv_slot
  recv_slot-IsTurn k few = elim (Bool-cases (s.readfds fd)) [
    | inl readable ↦
        let good : IsValid (s.client i) = v.valid i in
        rw readable (
          after_recv-IsTurn _ _ (handle_recv-IsValid (k.recv i) good few)
            (client_fd-handle_recv (k.recv i) (s.client i) ∙ here)
            (handle_recv-ne-done (k.recv i) good few) (queue_grows (k.recv i) good few))
    | inr quiet ↦ rw quiet (record { sound = v; goes_on = λ _. here })
  ]

  pub after_send-IsSound :
      (c : Client) (tag : Ret)
      → IsValid c
      → c.client_fd ≡ some fd
      → (c.send_len ≢ c.send_offset → (s.client i).send_offset < (s.client i).send_len)
      → IsSound (after_send i fd (c, tag) s)
  unfolding after_send
  after_send-IsSound c failed good same shrinks =
      drop_slot-IsSound v i fd here c s.master_write good (λ d h. refl)
  after_send-IsSound c tag good same shrinks = elim (Bool-cases (c.send_len == c.send_offset)) [
    | inl all ↦ rw all (
        refresh-IsSound v i fd here c (put_bit s.master_write fd false) good same (ground arith)
          (λ d h. ground arith))
    | inr left ↦ rw left (
        refresh-IsSound v i fd here c s.master_write good same
          (ground (arith, v.owner i fd here, shrinks, good.offset_in)) (λ d h. refl))
  ]

  send_slot-IsSound :
      (k : Round) → ((xs : List ℕ) → count (k.send i xs) ≤ length xs) → IsSound (send_slot k i fd s)
  unfolding send_slot
  send_slot-IsSound k takes = elim (Bool-cases (s.writefds fd)) [
    | inl writable ↦ rw writable (after_send-IsSound _ _ gave.valid (gave.same_fd ∙ here) shrinks)
    | inr quiet ↦ rw quiet v
  ]
    where
      c : Client
      c = s.client i

      sent : Sent
      sent = k.send i (offered c)

      gave : Gave (count sent) c (handle_send sent c).0
      gave =
          handle_send-Gave sent (v.valid i)
            (rw (ap length (offered-eq-queued (v.valid i))) at (takes (offered c)))

      shrinks :
          (handle_send sent c).0.send_len ≢ (handle_send sent c).0.send_offset
          → c.send_offset < c.send_len
      shrinks = Gave-shrinks (v.valid i) gave

-- What the handlers rely on in the turns of the slots.
record IsFair (k : Round) : Type 0 where
  recv_fits : (i : ℕ) → Fits (payload (k.recv i))
  send_takes : (i : ℕ) (xs : List ℕ) → count (k.send i xs) ≤ length xs

serve_slot-IsSound :
    (k : Round) (i : ℕ) {s : Server} → IsFair k → IsSound s → IsSound (serve_slot k i s)
unfolding serve_slot
serve_slot-IsSound k i {s} fair v = elim (Option-cases (s.client i).client_fd) [
  | inl free ↦ rw (free, serve_slot) v
  | inr (fd, here) ↦
      let t : IsTurn i fd (recv_slot k i fd s) =
        recv_slot-IsTurn v i fd here k (fair.recv_fits i) in
      elim (Bool-cases (recv_slot k i fd s).1) [
        | inl over ↦ rw (here, over, serve_slot) t.sound
        | inr on ↦
            rw (here, on, serve_slot)
              (send_slot-IsSound t.sound i fd (t.goes_on on) k (fair.send_takes i))
      ]
]

serve_slots-IsSound :
    (k : Round) (n i : ℕ) {s : Server} → IsFair k → IsSound s → IsSound (serve_slots k n i s)
unfolding serve_slots
serve_slots-IsSound k zero i fair v = v
serve_slots-IsSound k (suc n) i fair v =
    serve_slots-IsSound k n (i + 1) fair (serve_slot-IsSound k i fair v)

Selected-cases :
    (a : Selected)
    → ((r : FdSet) × (w : FdSet) × (a ≡ ready r w)) ⊎ ((e : ℕ) × (a ≡ select_error e))
Selected-cases (ready r w) = inl (r, w, refl)
Selected-cases (select_error e) = inr (e, refl)

serve-IsSound :
    (k : Round) (r w : FdSet) {s : Server} → IsKernel s k → IsSound s → IsSound (serve k r w s)
unfolding serve
serve-IsSound k r w kernel v = resets-IsSound _ _ (
    serve_slots-IsSound k max_connections 0
      (record { recv_fits = kernel.recv_fits; send_takes = kernel.send_takes })
      (accept_step-IsSound k kernel.fresh (resets-IsSound r w v)))

-- A round from a sound state that does not leave the loop ends in a sound state, whatever the kernel
-- answers: accept() returns a descriptor that is not open, recv() fits its buffer and send() takes no
-- more than it is offered.
pub round-IsSound :
    (k : Round) {s t : Server} → IsKernel s k → IsSound s → round k s ≡ some t → IsSound t
unfolding round
round-IsSound k {s} {t} kernel v q = elim (Selected-cases k.selected) [
  | inl (r, w, e) ↦
      let same : serve k r w s ≡ t = cc (rw (e, round) at q) in
      rw same at (serve-IsSound k r w kernel v)
  | inr (x, e) ↦ elim (Bool-cases (x == eintr)) [
    | inl again ↦ let same : s ≡ t = cc (rw (e, again, round) at q) in rw same at v
    | inr stop ↦ absurd (cc (rw (e, stop, round) at q))
  ]
]

-- the states of `main` at the head of its loop
pub data Reach (fd : ℕ) : Server → Type 0 where
  booted : Reach fd (boot fd)
  next : {s t : Server} (k : Round) → Reach fd s → IsKernel s k → round k s ≡ some t → Reach fd t

-- Where in every round accept() returns a descriptor that is not open, recv() fits its buffer and
-- send() takes no more than it is offered, each state that the loop reaches from its start is sound: each open descriptor is the listening
-- socket or belongs to exactly one slot, every descriptor in a slot is open and watched for reading,
-- it is watched for writing exactly when bytes wait to be sent, closed descriptors are not watched,
-- and all counters fit their buffers.
pub Reach-IsSound : {fd : ℕ} {s : Server} → Reach fd s → IsSound s
Reach-IsSound {fd} booted = boot-IsSound fd
Reach-IsSound (next k r kernel q) = round-IsSound k kernel (Reach-IsSound r) q
