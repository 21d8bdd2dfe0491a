-- ===== src/FirstSelect/Turns.antt =====
-- A turn of the loop of socket_test/tcp_select_server_v1.c keeps the tables of the server sound.
use linux_system_programing.Prelude.{
  ℕ, ◌+◌, ◌≤◌, ◌≡◌, ◌⊎◌, inl, inr, refl, some, none, false, leb, arith, ◌==◌, Option-cases,
  Bool-cases, ap, ◌∙◌, length, List, ==_iff,
}
use linux_system_programing.Kernel.{Sent, took, send_error}
use linux_system_programing.Echo.Client.{
  Client, handle_recv, advance, offered, Ret, ok, failed, done,
}
use linux_system_programing.Echo.Client
use linux_system_programing.Echo.Views.{IsValid}
use linux_system_programing.Echo.Recv.{
  Fits, payload, handle_recv-IsValid, client_fd-handle_recv, handle_recv-ne-done, queue_grows,
}
use linux_system_programing.Echo.Send.{
  count, handle_send-Gave, Gave, Gave-shrinks, offered-eq-queued,
}
use linux_system_programing.SelectServer.State.{Round, Accepted, accepted, accept_error}
use linux_system_programing.SelectServer.Steps
use linux_system_programing.SelectServer.Accept.{admit-IsSound, refuse-IsSound}
use linux_system_programing.SelectServer.Rounds.{IsTurn, after_recv-IsTurn, after_send-IsSound}
use linux_system_programing.FirstSelect.Steps.{
  table_size, State, handle_send, admit, accept_at, sent, write_half, read_half, visit,
}
use linux_system_programing.FirstSelect.Tables.{
  IsFirst, client-handle_send, received-eq, sent-eq, after_recv-IsBeside, after_send-IsBeside,
  beside-IsFirst,
}

-- `handle_send` returns what the second version does, except 0 for a send() of no bytes.
tag-handle_send :
    (x : Sent) (c : Client)
    → ((handle_send x c).1 ≡ (Client.handle_send x c).1) ⊎ ((handle_send x c).1 ≡ ok)
unfolding handle_send Client.handle_send
tag-handle_send (took n) c = ground arith
tag-handle_send (send_error e) c = inl (ground arith)

-- What the turns rely on.
pub record IsFair (k : Round) : Type 0 where
  pub recv_fits : (i : ℕ) → Fits (payload (k.recv i))
  pub send_takes : (i : ℕ) (xs : List ℕ) → count (k.send i xs) ≤ length xs

later-IsFirst : {i : ℕ} {s : State} → IsFirst i s → IsFirst (i + 1) s
later-IsFirst v = record {
  sound = v.sound;
  own = v.own;
  below = v.below;
  no_write = v.no_write;
  asked = λ j p. v.asked j (omega arith);
  inside = v.inside;
}

module _ (k : Round) (fair : IsFair k) {s : State} (i : ℕ) (v : IsFirst i s) where
  module _ (here : (s.srv.client i).client_fd ≡ some i) where
    sent-IsFirst :
        IsFirst
          (i + 1)
          (sent i (handle_send (k.send i (offered (s.srv.client i))) (s.srv.client i)) s)
    sent-IsFirst =
        let c = s.srv.client i in
        let x = k.send i (offered c) in
        let gave : Gave (count x) c (Client.handle_send x c).0 =
          handle_send-Gave x (v.sound.valid i) (
            rw (ap length (offered-eq-queued (v.sound.valid i))) at
              (fair.send_takes i (offered c))) in
        let same_client = client-handle_send x c in
        let fd = ap (λ (d : Client). d.client_fd) same_client ∙ gave.same_fd ∙ here in
        rw (sent-eq i v here (handle_send x c).0 (handle_send x c).1) (
          beside-IsFirst i (i + 1) v here
            (after_send-IsSound v.sound i i here (handle_send x c).0 (handle_send x c).1
              (rw same_client gave.valid) fd (rw same_client (Gave-shrinks (v.sound.valid i) gave)))
            (after_send-IsBeside i s.srv (handle_send x c).0 (handle_send x c).1 fd) (omega arith)
            (λ e. absurd (omega arith)))

  write_half-IsFirst : IsFirst (i + 1) (write_half k i s)
  unfolding write_half
  write_half-IsFirst = elim (Bool-cases (s.srv.writefds i)) [
    | inl writable ↦ rw writable (sent-IsFirst ((v.asked i (omega arith)).writes writable))
    | inr quiet ↦ rw quiet (later-IsFirst v)
  ]

read_half-IsFirst :
    (k : Round)
    → IsFair k
    → {s : State} (i : ℕ) → IsFirst i s
    → (s.srv.client i).client_fd ≡ some i
    → IsFirst (i + 1) (read_half k i s)
unfolding read_half
read_half-IsFirst k fair {s} i v here =
    let c = s.srv.client i in
    let good : IsValid c = v.sound.valid i in
    let few = fair.recv_fits i in
    let p = Client.handle_recv (k.recv i) c in
    let fd = client_fd-handle_recv (k.recv i) c ∙ here in
    let turn : IsTurn i i (Steps.after_recv i i (p.0, p.1) s.srv) =
      after_recv-IsTurn v.sound i i here p.0 p.1 (handle_recv-IsValid (k.recv i) good few) fd
        (handle_recv-ne-done (k.recv i) good few) (queue_grows (k.recv i) good few) in
    let side = after_recv-IsBeside i s.srv p.0 p.1 fd in
    let e = received-eq i v here p.0 p.1 fd in
    elim (Bool-cases (Steps.after_recv i i (p.0, p.1) s.srv).1) [
      | inl over ↦
          rw (e, over, read_half)
            (beside-IsFirst i (i + 1) v here turn.sound side (omega arith)
              (λ e. absurd (omega arith)))
      | inr on ↦
          rw (e, on, read_half)
            (write_half-IsFirst k fair i
              (beside-IsFirst i i v here turn.sound side (omega arith) (λ e. turn.goes_on on)))
    ]

free_slot :
    {i : ℕ} {s : State} (fd : ℕ)
    → IsFirst i s
    → s.srv.is_open fd ≡ false
    → (s.srv.client fd).client_fd ≡ none
free_slot {s = s} fd v fresh = elim (Option-cases (s.srv.client fd).client_fd) [
  | inl free ↦ free
  | inr (d, busy) ↦
      let e = (v.own fd d busy).0 in
      let opened = (v.sound.owner fd d busy).opened in
      absurd (cc (fresh, ap s.srv.is_open e ∙ opened))
]

-- A new connection at the listening socket; its bits are not among those that select() has left.
admit-IsFirst :
    {s : State} (fd : ℕ)
    → IsFirst s.srv.server_fd s
    → s.srv.is_open fd ≡ false
    → IsFirst (s.srv.server_fd + 1) (record s { srv = admit fd s.srv })
unfolding admit
admit-IsFirst {s} fd v fresh = elim (Bool-cases (leb table_size fd)) [
  | inl over ↦ rw over (record {
    sound = refuse-IsSound v.sound 0 fd fresh;
    own = v.own;
    below = v.below;
    no_write = v.no_write;
    asked = λ j p. let w = v.asked j (omega arith) in record { reads = w.reads; writes = w.writes };
    inside = v.inside;
  })
  | inr room ↦
      let free = free_slot fd v fresh in
      let c = s.srv.client fd in
      let clean : record c { client_fd = some fd } ≡ record c { client_fd = some fd; used = 0 } =
        ap (λ (u : ℕ). record c { client_fd = some fd; used = u })
          (v.sound.empty fd free).no_pending in
      rw room (record {
        sound = rw (← clean) (admit-IsSound v.sound fd fd free (ground arith) fresh);
        own = λ j d q. ground (arith, v.own j d);
        below = ground (arith, v.below);
        no_write = v.no_write;
        asked = λ j p.
            let w = v.asked j (omega arith) in
            record {
              reads = λ q. ground (arith, w.reads q);
              writes = λ q. ground (arith, w.writes q);
            };
        inside = v.inside;
      })
]

accept_at-IsFirst :
    (k : Round) {s : State}
    → ((fd : ℕ) → k.incoming ≡ accepted fd → s.srv.is_open fd ≡ false)
    → IsFirst s.srv.server_fd s
    → IsFirst (s.srv.server_fd + 1) (accept_at k s)
unfolding accept_at
accept_at-IsFirst k {s} fresh v = by_result k.incoming refl
  where
    by_result :
        (a : Accepted)
        → k.incoming ≡ a
        → IsFirst
            (s.srv.server_fd + 1)
            (elim a [ accepted fd ↦ record s { srv = admit fd s.srv } | accept_error e ↦ s ])
    by_result (accepted fd) e = admit-IsFirst fd v (fresh fd e)
    by_result (accept_error e) q = later-IsFirst v

pub visit-IsFirst :
    (k : Round) (i : ℕ) {s : State}
    → IsFair k
    → (i ≡ s.srv.server_fd → (fd : ℕ) → k.incoming ≡ accepted fd → s.srv.is_open fd ≡ false)
    → IsFirst i s
    → IsFirst (i + 1) (visit k i s)
unfolding visit
visit-IsFirst k i {s} fair fresh v = elim (Bool-cases (s.srv.readfds i)) [
  | inr quiet ↦ rw quiet (write_half-IsFirst k fair i v)
  | inl readable ↦ elim (Bool-cases (i == s.srv.server_fd)) [
    | inl listening ↦
        let e = (==_iff i s.srv.server_fd).0 listening in
        rw (readable, listening, e) (accept_at-IsFirst k (fresh e) (rw e at v))
    | inr other ↦ elim ((v.asked i (omega arith)).reads readable) [
      | inl e ↦ absurd (ground arith)
      | inr here ↦ rw (readable, other) (read_half-IsFirst k fair i v here)
    ]
  ]
]
