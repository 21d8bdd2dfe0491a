-- ===== src/PoolServer/Wakeups.antt =====
-- No connection and no wake-up is lost between the threads of socket_test/server_pthread_pool.c.
use linux_system_programing.Prelude.{
  ℕ, ◌+◌, ◌<◌, ◌≡◌, ◌≢◌, inl, inr, refl, sym, ◌∙◌, ap, List, [], ◌∷◌, ◌++◌, append-nil,
  append_assoc, length, arith, some, ltb, Bool-cases, Option-cases, ltb→lt, ltb→le,
}
use linux_system_programing.Rings.{max_task}
use linux_system_programing.PoolServer.Queue.{Task, Queue, queue_init, put, take_task}
use linux_system_programing.PoolServer.Fifo.{
  contents, queue_init-IsQueue, Put, put-Put, Taken, take_task-Taken,
}
use linux_system_programing.PoolServer.Threads.{
  Acceptor, accepting, putting, waiting_full, Pool, threadpool_init, wake_worker, woken,
  wake_acceptor, accept_fd, welcome_client, worker_turn, finish, taken, held, Run, created,
  accepted, welcomed, turned, finished, worker_woken, acceptor_woken, IsServing,
}

held-woken : (a : Acceptor) → held (woken a) ≡ held a
held-woken accepting = refl
held-woken (putting fd) = refl
held-woken (waiting_full fd) = refl

woken-ne-waiting_full : (a : Acceptor) (fd : ℕ) → woken a ≢ waiting_full fd
woken-ne-waiting_full accepting fd e = cc
woken-ne-waiting_full (putting fd) fd' e = cc
woken-ne-waiting_full (waiting_full fd) fd' e = cc

module _ {n : ℕ} {ins outs : List Task} {p : Pool} (v : IsServing n ins outs p) where
  accept_fd-IsServing :
      (fd : ℕ)
      → p.acceptor ≡ accepting
      → IsServing n (ins ++ record { client_fd = fd } ∷ []) outs (accept_fd fd p)
  accept_fd-IsServing fd e = record {
    sound = v.sound;
    in_order =
        ap (λ (l : List Task). l ++ record { client_fd = fd } ∷ [])
          (v.in_order
            ∙ ap (λ a. outs ++ (contents p.q ++ held a)) e
            ∙ ap (λ (l : List Task). outs ++ l) (append-nil (contents p.q)))
        ∙ append_assoc outs (contents p.q) (record { client_fd = fd } ∷ []);
    workers = v.workers;
    awake = v.awake;
    full = λ x q. cc;
  }

  wake_worker-IsServing : IsServing n ins outs (wake_worker p)
  wake_worker-IsServing = elim (Bool-cases (ltb 0 p.waiting)) [
    | inl some_wait ↦ rw some_wait (record {
      sound = v.sound;
      in_order = v.in_order;
      workers = omega (arith, v.workers, ltb→lt _ _ some_wait);
      awake = inr (omega (arith, v.awake, ltb→lt _ _ some_wait));
      full = v.full;
    })
    | inr no_wait ↦ rw no_wait v
  ]

  wake_acceptor-IsServing : IsServing n ins outs (wake_acceptor p)
  wake_acceptor-IsServing = record {
    sound = v.sound;
    in_order = v.in_order ∙ ap (λ l. outs ++ (contents p.q ++ l)) (sym (held-woken p.acceptor));
    workers = v.workers;
    awake = v.awake;
    full = λ fd e. absurd (woken-ne-waiting_full p.acceptor fd e);
  }

  finish-IsServing : 0 < p.serving → IsServing n ins outs (finish p)
  finish-IsServing pos = record {
    sound = v.sound;
    in_order = v.in_order;
    workers = omega (arith, v.workers);
    awake = elim v.awake [ inl no_wait ↦ inl no_wait | inr enough ↦ inr (omega arith) ];
    full = v.full;
  }

  -- The connection goes behind the others, and a worker is woken for it.
  Put-IsServing :
      (fd : ℕ) (q : Queue)
      → p.acceptor ≡ putting fd
      → Put fd p.q (some q)
      → IsServing n ins outs (wake_worker (record p { q = q; acceptor = accepting }))
  Put-IsServing fd q here (_, good, last, more) = elim (Bool-cases (ltb 0 p.waiting)) [
    | inl some_wait ↦ rw some_wait (record {
      sound = good;
      in_order = ordered;
      workers = omega (arith, v.workers, ltb→lt _ _ some_wait);
      awake = inr (omega (arith, v.awake, more, ltb→lt _ _ some_wait));
      full = λ x e. cc;
    })
    | inr no_wait ↦ rw no_wait (record {
      sound = good;
      in_order = ordered;
      workers = v.workers;
      awake = inl (omega (arith, ltb→le _ _ no_wait));
      full = λ x e. cc;
    })
  ]
    where
      ordered : ins ≡ outs ++ (contents q ++ [])
      ordered =
          v.in_order
          ∙ ap (λ a. outs ++ (contents p.q ++ held a)) here
          ∙ ap (λ (l : List Task). outs ++ l) (sym last ∙ sym (append-nil (contents q)))

  welcome_client-IsServing :
      (fd : ℕ) → p.acceptor ≡ putting fd → IsServing n ins outs (welcome_client fd p)
  unfolding welcome_client
  welcome_client-IsServing fd here = elim (Option-cases (put fd p.q)) [
    | inl none_put ↦
        let h : p.q.count ≡ max_task = rw none_put at (put-Put fd v.sound) in
        rw (none_put, welcome_client)
          (record {
            sound = v.sound;
            in_order = v.in_order ∙ ap (λ a. outs ++ (contents p.q ++ held a)) here;
            workers = v.workers;
            awake = v.awake;
            full = λ x e. h;
          })
    | inr (q, e) ↦ rw (e, welcome_client) (Put-IsServing fd q here (rw e at (put-Put fd v.sound)))
  ]

  worker_turn-IsServing :
      0 < p.ready → IsServing n ins (outs ++ taken (worker_turn p).0) (worker_turn p).1
  unfolding worker_turn
  worker_turn-IsServing pos = elim (Option-cases (take_task p.q)) [
    | inl none_left ↦
        let h : p.q.count ≡ 0 = rw none_left at (take_task-Taken v.sound) in
        rw (none_left, worker_turn)
          (record {
            sound = v.sound;
            in_order =
                v.in_order
                ∙ ap (λ l. l ++ (contents p.q ++ held p.acceptor)) (sym (append-nil outs));
            workers = omega (arith, v.workers);
            awake = inr (omega arith);
            full = v.full;
          })
    | inr ((task, q), e) ↦
        let h : Taken p.q (some (task, q)) = rw e at (take_task-Taken v.sound) in
        rw (e, worker_turn)
          (record {
            sound = h.0;
            in_order =
                v.in_order
                ∙ ap (λ (l : List Task). outs ++ (l ++ held p.acceptor)) h.1
                ∙ sym (append_assoc outs (task ∷ []) (contents q ++ held p.acceptor))
                ∙ ap (λ l. (outs ++ task ∷ []) ++ (contents q ++ l)) (sym (held-woken p.acceptor));
            workers = omega (arith, v.workers);
            awake = elim v.awake [
              | inl no_wait ↦ inl no_wait
              | inr enough ↦ inr (omega (arith, h.2))
            ];
            full = λ fd f. absurd (woken-ne-waiting_full p.acceptor fd f);
          })
  ]

-- However the threads are scheduled, from the creation of the pool on: the connections accepted are
-- those that workers have taken, in the same order, followed by those in the queue and by the one that
-- `main` holds; the queue is sound; no worker is lost; either no worker waits or a ready worker is there
-- for each connection in the queue; and `main` waits only while the queue holds 100 connections.
pub Run-IsServing :
    (memory : List Task) (threads : ℕ) {ins outs : List Task} {p : Pool}
    → length memory ≡ max_task
    → Run (threadpool_init threads memory) ins outs p
    → IsServing threads ins outs p
unfolding threadpool_init queue_init
Run-IsServing memory threads h created = record {
  sound = queue_init-IsQueue memory h;
  in_order = refl;
  workers = omega arith;
  awake = inl refl;
  full = λ fd e. cc;
}
Run-IsServing memory threads h (accepted fd run e) =
    accept_fd-IsServing (Run-IsServing memory threads h run) fd e
Run-IsServing memory threads h (welcomed fd run e) =
    welcome_client-IsServing (Run-IsServing memory threads h run) fd e
Run-IsServing memory threads h (turned run pos) =
    worker_turn-IsServing (Run-IsServing memory threads h run) pos
Run-IsServing memory threads h (finished run pos) =
    finish-IsServing (Run-IsServing memory threads h run) pos
Run-IsServing memory threads h (worker_woken run) =
    wake_worker-IsServing (Run-IsServing memory threads h run)
Run-IsServing memory threads h (acceptor_woken run) =
    wake_acceptor-IsServing (Run-IsServing memory threads h run)

-- With at least one worker, whenever `main` waits for room some worker is awake, and will make room.
pub waiting_full-awake :
    (memory : List Task) (threads fd : ℕ) {ins outs : List Task} {p : Pool}
    → length memory ≡ max_task
    → 0 < threads
    → Run (threadpool_init threads memory) ins outs p
    → p.acceptor ≡ waiting_full fd
    → 0 < p.ready + p.serving
waiting_full-awake memory threads fd h pos run e =
    let v = Run-IsServing memory threads h run in omega (arith, v.workers, v.awake, v.full fd e)
