-- ===== src/FirstSelect/Rounds.antt =====
-- Whole rounds of socket_test/tcp_select_server_v1.c, and every state that the server reaches.
use linux_system_programing.Prelude.{
  ℕ, zero, suc, ◌+◌, ◌<◌, ◌≤◌, ◌≡◌, ◌⊎◌, inl, inr, refl, Option, some, none, true, false, leb,
  leb→le, arith, ◌==◌, if◌then◌else◌, Bool-cases, if_holds, ap, ◌∙◌,
}
use linux_system_programing.Kernel.{eintr}
use linux_system_programing.Echo.Client.{Client, handle_recv, Ret, ok, failed, done, init_client}
use linux_system_programing.SelectServer.State.{
  boot, Round, Selected, ready, select_error, accepted, FdSet,
}
use linux_system_programing.SelectServer.Steps.{drop_slot}
use linux_system_programing.SelectServer.Valid.{IsSound, boot-IsSound}
use linux_system_programing.SelectServer.Accept.{resets-IsSound}
use linux_system_programing.FirstSelect.Steps.{
  table_size, State, start, admit, accept_at, watch_write, received, sent, write_half, read_half,
  visit, visit_all, reset, serve, round,
}
use linux_system_programing.FirstSelect.Tables.{IsFirst}
use linux_system_programing.FirstSelect.Turns.{IsFair, visit-IsFirst}

-- At the head of the loop: the tables are sound, a connection stands at the index of its descriptor, nothing
-- outside the table has been used, and select() is asked for what the master sets hold.
pub record IsSafe (s : State) : Type 0 where
  pub sound : IsSound s.srv
  pub own : (j fd : ℕ) → (s.srv.client j).client_fd ≡ some fd → (j ≡ fd) × (fd < table_size)
  pub below : s.srv.max_fd < s.srv.server_fd + table_size
  pub no_write : s.srv.master_write s.srv.server_fd ≡ false
  pub reads : (j : ℕ) → s.srv.readfds j ≡ true → s.srv.master_read j ≡ true
  pub writes : (j : ℕ) → s.srv.writefds j ≡ true → s.srv.master_write j ≡ true
  pub inside : s.strayed ≡ false

pub start-IsSafe : (fd : ℕ) → IsSafe (start fd)
unfolding boot init_client
start-IsSafe fd = record {
  sound = boot-IsSound fd;
  own = λ j d q. cc;
  below = omega arith;
  no_write = refl;
  reads = λ j q. q;
  writes = λ j q. q;
  inside = refl;
}

-- the state with the sets that select() has left
abbrev pub ask : FdSet → FdSet → State → State
ask r w s = record s { srv = record s.srv { readfds = r; writefds = w } }

-- the state after the turns of `n` indices from `i` on
abbrev pub run_to : Round → ℕ → ℕ → State → State
run_to k i zero s = s
run_to k i (suc n) s = run_to k (i + 1) n (visit k i s)

-- What a round relies on: recv() fits its buffer, send() takes no more than it is offered, select() leaves
-- bits of the sets that it is given only, and accept() returns a descriptor that is not open when it is called.
pub record IsKernel (s : State) (k : Round) (r w : FdSet) : Type 0 where
  pub fair : IsFair k
  pub read_bits : (j : ℕ) → r j ≡ true → s.srv.readfds j ≡ true
  pub write_bits : (j : ℕ) → w j ≡ true → s.srv.writefds j ≡ true
  pub fresh :
      (fd : ℕ)
      → k.incoming ≡ accepted fd
      → (run_to k 0 s.srv.server_fd (ask r w s)).srv.is_open fd ≡ false

open_owner :
    {s : State} (j : ℕ)
    → IsSafe s
    → s.srv.is_open j ≡ true
    → (j ≡ s.srv.server_fd) ⊎ ((s.srv.client j).client_fd ≡ some j)
open_owner {s} j v opened = elim (v.sound.no_leak j opened) [
  | inl e ↦ inl e
  | inr (i, q) ↦ let e = (v.own i j q).0 in inr (rw e at q)
]

ask-IsFirst :
    {s : State} {k : Round} {r w : FdSet} → IsSafe s → IsKernel s k r w → IsFirst 0 (ask r w s)
ask-IsFirst {s} {k} {r} {w} v kernel = record {
  sound = resets-IsSound r w v.sound;
  own = v.own;
  below = v.below;
  no_write = v.no_write;
  asked = λ j p. record {
    reads = λ q.
        let bit = v.reads j (kernel.read_bits j q) in
        elim (Bool-cases (s.srv.is_open j)) [
          | inl opened ↦ open_owner j v opened
          | inr closed ↦ absurd (cc (bit, (v.sound.unwatched j closed).0))
        ];
    writes = λ q.
        let bit = v.writes j (kernel.write_bits j q) in
        elim (Bool-cases (s.srv.is_open j)) [
          | inl opened ↦ elim (open_owner j v opened) [
            | inl e ↦ absurd (cc (ap s.srv.master_write e, bit, v.no_write))
            | inr here ↦ here
          ]
          | inr closed ↦ absurd (cc (bit, (v.sound.unwatched j closed).1))
        ];
  };
  inside = v.inside;
}

reset-IsSafe : {i : ℕ} {s : State} → IsFirst i s → IsSafe (reset s)
reset-IsSafe {s = s} v = record {
  sound = resets-IsSound s.srv.master_read s.srv.master_write v.sound;
  own = v.own;
  below = v.below;
  no_write = v.no_write;
  reads = λ j q. q;
  writes = λ j q. q;
  inside = v.inside;
}

server_fd-received :
    (i : ℕ) (p : Client × Ret) (s : State) → (received i p s).0.srv.server_fd ≡ s.srv.server_fd
unfolding received watch_write drop_slot
server_fd-received i (c, failed) s = ground arith
server_fd-received i (c, ok) s = ground arith
server_fd-received i (c, done) s = ground arith

server_fd-write_half :
    (k : Round) (i : ℕ) (s : State) → (write_half k i s).srv.server_fd ≡ s.srv.server_fd
unfolding write_half sent drop_slot
server_fd-write_half k i s = ground arith

server_fd-read_half :
    (k : Round) (i : ℕ) (s : State) → (read_half k i s).srv.server_fd ≡ s.srv.server_fd
unfolding read_half
server_fd-read_half k i s =
    let p = handle_recv (k.recv i) (s.srv.client i) in
    let e = server_fd-received i p s in
    if_holds (λ (t : State). t.srv.server_fd ≡ s.srv.server_fd) (received i p s).1 e
      (server_fd-write_half k i (received i p s).0 ∙ e)

server_fd-visit : (k : Round) (i : ℕ) (s : State) → (visit k i s).srv.server_fd ≡ s.srv.server_fd
unfolding visit accept_at admit
server_fd-visit k i s = ground (arith, server_fd-read_half k i s, server_fd-write_half k i s)

-- With fuel for the indices up to `server_fd + 9`, the loop ends, and the tables are sound.
visit_all-goes :
    (k : Round) (fuel i : ℕ) {s : State}
    → IsFair k
    → ((n : ℕ)
        → n + i ≡ s.srv.server_fd
        → (fd : ℕ) → k.incoming ≡ accepted fd
        → (run_to k i n s).srv.is_open fd ≡ false)
    → IsFirst i s
    → i ≤ s.srv.server_fd + table_size
    → s.srv.server_fd + table_size < fuel + i
    → (t : State) × (j : ℕ) × (visit_all k fuel i s ≡ some t) × IsFirst j t
unfolding visit_all
visit_all-goes k zero i fair fresh v b h = absurd (omega arith)
visit_all-goes k (suc fuel) i {s} fair fresh v b h = elim (Bool-cases (leb i s.srv.max_fd)) [
  | inr over ↦ (s, i, rw over, v)
  | inl in_range ↦
      let same = server_fd-visit k i s in
      let (t, j, e, w) =
        visit_all-goes k fuel (i + 1) fair (λ n p. fresh (suc n) (omega arith))
          (visit-IsFirst k i fair (λ e. fresh 0 (omega arith)) v)
          (omega (arith, leb→le i s.srv.max_fd in_range, v.below)) (omega arith) in
      (t, j, rw in_range e, w)
]

serve-goes :
    (k : Round) (r w : FdSet) {s : State}
    → IsSafe s
    → IsKernel s k r w
    → (t : State) × (serve k r w s ≡ some t) × IsSafe t
unfolding serve
serve-goes k r w {s} v kernel =
    let (t, j, e, good) =
      visit_all-goes k (s.srv.server_fd + table_size + 1) 0 {s = ask r w s} kernel.fair
        (λ n p fd q. let h : n ≡ s.srv.server_fd = omega arith in rw h (kernel.fresh fd q))
        (ask-IsFirst v kernel) (omega arith) (omega arith) in
    (reset t, rw (e, serve), reset-IsSafe good)

-- Once select() has returned, the round ends and leaves the server sound, whatever its other calls return, as
-- long as recv() fits its buffer, send() takes no more than it is offered, select() leaves only bits that it
-- was asked for and accept() returns a descriptor that is not open when it is called.
pub round-goes :
    (k : Round) (r w : FdSet) {s : State}
    → IsSafe s
    → IsKernel s k r w
    → k.selected ≡ ready r w
    → (t : State) × (round k s ≡ some t) × IsSafe t
unfolding round
round-goes k r w {s} v kernel e =
    let (t, q, good) = serve-goes k r w v kernel in
    let by_result : Selected → Option State = λ a. elim a [
      | select_error e ↦ if e == eintr then some s else none
      | ready r w ↦ serve k r w s
    ] in
    (t, ap by_result e ∙ q, good)

-- the states of `main` at the head of its loop
pub data Reach (fd : ℕ) : State → Type 0 where
  booted : Reach fd (start fd)
  next :
      {s t : State} (k : Round)
      → Reach fd s
      → ((r w : FdSet) → k.selected ≡ ready r w → IsKernel s k r w)
      → round k s ≡ some t
      → Reach fd t

round-IsSafe :
    (k : Round) {s t : State}
    → IsSafe s
    → ((r w : FdSet) → k.selected ≡ ready r w → IsKernel s k r w)
    → round k s ≡ some t
    → IsSafe t
unfolding round
round-IsSafe k {s} {t} v kernel q = by_result k.selected refl q
  where
    by_result :
        (a : Selected)
        → k.selected ≡ a
        → elim a [
          | select_error e ↦ if e == eintr then some s else none
          | ready r w ↦ serve k r w s
        ]
          ≡ some t
        → IsSafe t
    by_result (ready r w) e q =
        let (u, p, good) = serve-goes k r w v (kernel r w e) in
        let same : u ≡ t = cc in rw same at good
    by_result (select_error x) e q = elim (Bool-cases (x == eintr)) [
      | inl again ↦ let same : s ≡ t = cc (rw again at q) in rw same at v
      | inr stop ↦ absurd (cc (rw stop at q))
    ]

-- In every state that the loop reaches, where recv() fits its buffer, send() takes no more
-- than it is offered, select() leaves only bits that it was asked for and accept() returns a descriptor that is
-- not open: no index outside
-- `client` has been used; a connection stands at the index of its descriptor, below 10; each open descriptor
-- is the listening socket or a connection's, every connection is open and watched for reading, for writing
-- exactly when bytes wait to be sent, and its counters fit its buffers.
pub Reach-IsSafe : {fd : ℕ} {s : State} → Reach fd s → IsSafe s
Reach-IsSafe {fd} booted = start-IsSafe fd
Reach-IsSafe (next k run kernel q) = round-IsSafe k (Reach-IsSafe run) kernel q
