-- ===== src/PoolServer/Threads.antt =====
-- The threads of socket_test/server_pthread_pool.c: `main` accepts and puts, the workers take and serve.
-- A step is what one thread does while it holds the mutex; which thread is next is up to the scheduler.
use linux_system_programing.Prelude.{
  ℕ, ◌+◌, ◌-◌, ◌≤◌, ◌<◌, ◌≡◌, ◌⊎◌, List, [], ◌∷◌, ◌++◌, Option, none, some, ltb, if◌then◌else◌,
}
use linux_system_programing.Rings.{max_task}
use linux_system_programing.PoolServer.Queue.{Task, Queue, queue_init, put, take_task}
use linux_system_programing.PoolServer.Fifo.{contents, IsQueue}

-- Where `main` is: in accept(), at the mutex of `welcome_client` with a connection, or in its wait.
pub data Acceptor : Type 0 where
  accepting : Acceptor
  putting waiting_full : ℕ → Acceptor

-- The queue, `main`, and how many workers are at the mutex, in the wait for `not_empty`, and serving.
pub record Pool : Type 0 where
  pub q : Queue
  pub acceptor : Acceptor
  pub ready : ℕ
  pub waiting : ℕ
  pub serving : ℕ

-- `threadpool_init`, where pthread_create() has made `threads` workers of the ten.
unfoldable pub threadpool_init : (threads : ℕ) → List Task → Pool
threadpool_init threads memory = record {
  q = queue_init memory;
  acceptor = accepting;
  ready = threads;
  waiting = 0;
  serving = 0;
}

-- pthread_cond_signal(&not_empty)
abbrev pub wake_worker : Pool → Pool
wake_worker p =
    if ltb 0 p.waiting then record p { waiting = p.waiting - 1; ready = p.ready + 1 } else p

-- pthread_cond_signal(&not_full)
abbrev pub woken : Acceptor → Acceptor
woken accepting = accepting
woken (putting fd) = putting fd
woken (waiting_full fd) = putting fd

abbrev pub wake_acceptor : Pool → Pool
wake_acceptor p = record p { acceptor = woken p.acceptor }

-- accept() has returned a connection.
abbrev pub accept_fd : ℕ → Pool → Pool
accept_fd fd p = record p { acceptor = putting fd }

-- `main` has the mutex in `welcome_client`.
unfoldable pub welcome_client : ℕ → Pool → Pool
welcome_client fd p = elim (put fd p.q) [
  | none ↦ record p { acceptor = waiting_full fd }
  | some q ↦ wake_worker (record p { q = q; acceptor = accepting })
]

-- A worker has the mutex: it waits, or leaves with a connection to serve.
unfoldable pub worker_turn : Pool → Option Task × Pool
worker_turn p = elim (take_task p.q) [
  | none ↦ (none, record p { ready = p.ready - 1; waiting = p.waiting + 1 })
  | some (task, q) ↦
      (some task, wake_acceptor (record p { q = q; ready = p.ready - 1; serving = p.serving + 1 }))
]

-- A worker has served its connection.
abbrev pub finish : Pool → Pool
finish p = record p { serving = p.serving - 1; ready = p.ready + 1 }

abbrev pub taken : Option Task → List Task
taken none = []
taken (some task) = task ∷ []

-- the connection that `main` has accepted and not yet put
abbrev pub held : Acceptor → List Task
held accepting = []
held (putting fd) = record { client_fd = fd } ∷ []
held (waiting_full fd) = record { client_fd = fd } ∷ []

-- `Run p0 ins outs p`: from `p0` to `p` the connections `ins` were accepted and `outs` taken. The two
-- waits may also end with no signal.
pub data Run (p0 : Pool) : List Task → List Task → Pool → Type 0 where
  created : Run p0 [] [] p0
  accepted :
      {ins outs : List Task} {p : Pool} (fd : ℕ)
      → Run p0 ins outs p
      → p.acceptor ≡ accepting
      → Run p0 (ins ++ record { client_fd = fd } ∷ []) outs (accept_fd fd p)
  welcomed :
      {ins outs : List Task} {p : Pool} (fd : ℕ)
      → Run p0 ins outs p
      → p.acceptor ≡ putting fd
      → Run p0 ins outs (welcome_client fd p)
  turned :
      {ins outs : List Task} {p : Pool}
      → Run p0 ins outs p
      → 0 < p.ready
      → Run p0 ins (outs ++ taken (worker_turn p).0) (worker_turn p).1
  finished :
      {ins outs : List Task} {p : Pool}
      → Run p0 ins outs p
      → 0 < p.serving
      → Run p0 ins outs (finish p)
  worker_woken :
      {ins outs : List Task} {p : Pool} → Run p0 ins outs p → Run p0 ins outs (wake_worker p)
  acceptor_woken :
      {ins outs : List Task} {p : Pool} → Run p0 ins outs p → Run p0 ins outs (wake_acceptor p)

-- No wake-up is lost on either side.
pub record IsServing (threads : ℕ) (ins outs : List Task) (p : Pool) : Type 0 where
  pub sound : IsQueue p.q
  pub in_order : ins ≡ outs ++ (contents p.q ++ held p.acceptor)
  pub workers : p.ready + p.waiting + p.serving ≡ threads
  pub awake : (p.waiting ≡ 0) ⊎ (p.q.count ≤ p.ready)
  pub full : (fd : ℕ) → p.acceptor ≡ waiting_full fd → p.q.count ≡ max_task
