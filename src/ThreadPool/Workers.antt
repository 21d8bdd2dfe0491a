-- ===== src/ThreadPool/Workers.antt =====
-- The threads of thread_test/thread_pool.c: `main` submits, three workers take and run. A step is what
-- one thread does while it holds the mutex; which thread is next is up to the scheduler.
use linux_system_programing.Prelude.{
  ℕ, ◌+◌, ◌-◌, ◌≤◌, ◌<◌, ◌≡◌, ◌⊎◌, inl, inr, refl, sym, ◌∙◌, ap, List, [], ◌∷◌, ◌++◌, append-nil,
  append_assoc, length, arith, Option, none, some, ltb, if◌then◌else◌, Bool-cases, Option-cases,
  ltb→lt, ltb→le,
}
use linux_system_programing.Rings.{max_task}
use linux_system_programing.ThreadPool.Queue.{Task, Queue, queue_init, push, pop}
use linux_system_programing.ThreadPool.Fifo.{
  contents, IsQueue, queue_init-IsQueue, Pushed, push-Pushed, Popped, pop-Popped,
}

-- The queue, and how many workers are at the mutex of `pop`, in pthread_cond_wait(), and in a task.
pub record Pool : Type 0 where
  pub q : Queue
  pub ready : ℕ
  pub waiting : ℕ
  pub running : ℕ

-- `threadpool_init`: three threads.
unfoldable pub threadpool_init : List Task → Pool
threadpool_init memory = record { q = queue_init memory; ready = 3; waiting = 0; running = 0 }

-- pthread_cond_signal(): one of the waiting threads is woken, if there is one.
abbrev pub wake : Pool → Pool
wake p = if ltb 0 p.waiting then record p { waiting = p.waiting - 1; ready = p.ready + 1 } else p

-- `main` calls `push`: `none` is the task that is refused.
unfoldable pub submit : Task → Pool → Option Pool
submit task p = elim (push task p.q) [ none ↦ none | some q ↦ some (wake (record p { q = q })) ]

-- A worker has the mutex in `pop`: it waits, or leaves with a task to run.
unfoldable pub worker_turn : Pool → Option Task × Pool
worker_turn p = elim (pop p.q) [
  | none ↦ (none, record p { ready = p.ready - 1; waiting = p.waiting + 1 })
  | some (task, q) ↦ (some task, record p { q = q; ready = p.ready - 1; running = p.running + 1 })
]

-- A worker has run its task, and calls `pop` again.
abbrev pub finish : Pool → Pool
finish p = record p { running = p.running - 1; ready = p.ready + 1 }

-- the tasks that a turn takes
abbrev pub taken : Option Task → List Task
taken none = []
taken (some task) = task ∷ []

-- `Run p0 ins outs p`: from `p0` to `p` the tasks `ins` were accepted and `outs` taken, in this order.
-- pthread_cond_wait() may also return with no signal.
pub data Run (p0 : Pool) : List Task → List Task → Pool → Type 0 where
  created : Run p0 [] [] p0
  submitted :
      {ins outs : List Task} {p p' : Pool} (task : Task)
      → Run p0 ins outs p
      → submit task p ≡ some p'
      → Run p0 (ins ++ task ∷ []) outs p'
  turned :
      {ins outs : List Task} {p : Pool}
      → Run p0 ins outs p
      → 0 < p.ready
      → Run p0 ins (outs ++ taken (worker_turn p).0) (worker_turn p).1
  finished :
      {ins outs : List Task} {p : Pool}
      → Run p0 ins outs p
      → 0 < p.running
      → Run p0 ins outs (finish p)
  woken : {ins outs : List Task} {p : Pool} → Run p0 ins outs p → Run p0 ins outs (wake p)

-- No wake-up is lost: while a worker waits, there is a ready worker for each task in the queue.
pub record IsPool (ins outs : List Task) (p : Pool) : Type 0 where
  pub sound : IsQueue p.q
  pub in_order : ins ≡ outs ++ contents p.q
  pub three : p.ready + p.waiting + p.running ≡ 3
  pub awake : (p.waiting ≡ 0) ⊎ (p.q.size ≤ p.ready)

submit-IsPool :
    {ins outs : List Task} {p p' : Pool} (task : Task)
    → IsPool ins outs p
    → submit task p ≡ some p'
    → IsPool (ins ++ task ∷ []) outs p'
unfolding submit
submit-IsPool {ins} {outs} {p} {p'} task v e = elim (Option-cases (push task p.q)) [
  | inl full ↦ absurd (cc (rw (full, submit) at e))
  | inr (q, pushed) ↦
      let h : Pushed task p.q (some q) = rw pushed at (push-Pushed task v.sound) in
      let same : wake (record p { q = q }) ≡ p' = cc (rw (pushed, submit) at e) in
      rw same at (added q h)
]
  where
    ordered :
        (q : Queue) → contents q ≡ contents p.q ++ task ∷ [] → ins ++ task ∷ [] ≡ outs ++ contents q
    ordered q h =
        ap (λ (l : List Task). l ++ task ∷ []) v.in_order
        ∙ append_assoc outs (contents p.q) (task ∷ [])
        ∙ ap (λ (l : List Task). outs ++ l) (sym h)

    added :
        (q : Queue)
        → Pushed task p.q (some q)
        → IsPool (ins ++ task ∷ []) outs (wake (record p { q = q }))
    added q (_, good, last, more) = elim (Bool-cases (ltb 0 p.waiting)) [
      | inl some_wait ↦ rw some_wait (record {
        sound = good;
        in_order = ordered q last;
        three = omega (arith, v.three, ltb→lt _ _ some_wait);
        awake = inr (omega (arith, v.awake, more, ltb→lt _ _ some_wait));
      })
      | inr no_wait ↦ rw no_wait (record {
        sound = good;
        in_order = ordered q last;
        three = v.three;
        awake = inl (omega (arith, ltb→le _ _ no_wait));
      })
    ]

worker_turn-IsPool :
    {ins outs : List Task} {p : Pool}
    → IsPool ins outs p
    → 0 < p.ready
    → IsPool ins (outs ++ taken (worker_turn p).0) (worker_turn p).1
unfolding worker_turn
worker_turn-IsPool {ins} {outs} {p} v pos = elim (Option-cases (pop p.q)) [
  | inl empty ↦
      let none_in : p.q.size ≡ 0 = rw empty at (pop-Popped v.sound) in
      rw (empty, worker_turn)
        (record {
          sound = v.sound;
          in_order = v.in_order ∙ ap (λ l. l ++ contents p.q) (sym (append-nil outs));
          three = omega (arith, v.three);
          awake = inr (omega arith);
        })
  | inr ((task, q), popped) ↦
      let h : Popped p.q (some (task, q)) = rw popped at (pop-Popped v.sound) in
      rw (popped, worker_turn)
        (record {
          sound = h.0;
          in_order =
              v.in_order
              ∙ ap (λ (l : List Task). outs ++ l) h.1
              ∙ sym (append_assoc outs (task ∷ []) (contents q));
          three = omega (arith, v.three);
          awake = elim v.awake [
            | inl no_wait ↦ inl no_wait
            | inr enough ↦ inr (omega (arith, h.2))
          ];
        })
]

wake-IsPool : {ins outs : List Task} {p : Pool} → IsPool ins outs p → IsPool ins outs (wake p)
wake-IsPool {p = p} v = elim (Bool-cases (ltb 0 p.waiting)) [
  | inl some_wait ↦ rw some_wait (record {
    sound = v.sound;
    in_order = v.in_order;
    three = omega (arith, v.three, ltb→lt _ _ some_wait);
    awake = inr (omega (arith, v.awake, ltb→lt _ _ some_wait));
  })
  | inr no_wait ↦ rw no_wait v
]

finish-IsPool :
    {ins outs : List Task} {p : Pool}
    → IsPool ins outs p
    → 0 < p.running
    → IsPool ins outs (finish p)
finish-IsPool {p = p} v pos = record {
  sound = v.sound;
  in_order = v.in_order;
  three = omega (arith, v.three);
  awake = elim v.awake [ inl no_wait ↦ inl no_wait | inr enough ↦ inr (omega arith) ];
}

-- However the threads are scheduled, from the creation of the pool on: the tasks accepted are those
-- taken, in the same order, followed by those in the queue; the queue is sound; there are three
-- workers; and no wake-up is lost: either no worker waits, or a ready worker is there for each task
-- in the queue.
pub Run-IsPool :
    (memory : List Task) {ins outs : List Task} {p : Pool}
    → length memory ≡ max_task
    → Run (threadpool_init memory) ins outs p
    → IsPool ins outs p
unfolding threadpool_init queue_init
Run-IsPool memory h created = record {
  sound = queue_init-IsQueue memory h;
  in_order = refl;
  three = refl;
  awake = inl refl;
}
Run-IsPool memory h (submitted task run e) = submit-IsPool task (Run-IsPool memory h run) e
Run-IsPool memory h (turned run pos) = worker_turn-IsPool (Run-IsPool memory h run) pos
Run-IsPool memory h (finished run pos) = finish-IsPool (Run-IsPool memory h run) pos
Run-IsPool memory h (woken run) = wake-IsPool (Run-IsPool memory h run)

-- However the threads are scheduled, from the creation of the pool on: while a task is queued, some
-- worker is not in pthread_cond_wait().
queued-awake :
    (memory : List Task) {ins outs : List Task} {p : Pool}
    → length memory ≡ max_task
    → Run (threadpool_init memory) ins outs p
    → 0 < p.q.size
    → 0 < p.ready + p.running
queued-awake memory h run pos = let v = Run-IsPool memory h run in omega (arith, v.three, v.awake)
