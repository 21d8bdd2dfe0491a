-- ===== src/ThreadPool/Fifo.antt =====
-- The queue of thread_test/thread_pool.c is a bounded first-in first-out queue.
use linux_system_programing.Prelude.{
  suc, ◌+◌, ◌-◌, ◌%◌, ◌≤◌, ◌<◌, ◌≡◌, refl, ◌∙◌, List, [], ◌∷◌, ◌++◌, length, get_or, set, arith,
  length-set, Option, none, some, ◌==◌, false, Bool-cases, inl, inr, ==_iff,
}
use linux_system_programing.Rings.{max_task, window, window-pop, window-push}
use linux_system_programing.ThreadPool.Queue.{Task, no_task, Queue, queue_init, push, pop}

-- the tasks in the queue, the oldest first
abbrev pub contents : Queue → List Task
contents q = window no_task q.queue q.front q.size

pub record IsQueue (q : Queue) : Type 0 where
  pub whole : length q.queue ≡ max_task
  pub front_in : q.front < max_task
  pub rear_at : q.rear ≡ (q.front + q.size) % max_task
  pub size_in : q.size ≤ max_task

pub queue_init-IsQueue :
    (memory : List Task) → length memory ≡ max_task → IsQueue (queue_init memory)
unfolding queue_init
queue_init-IsQueue memory h = record {
  whole = h;
  front_in = omega arith;
  rear_at = omega arith;
  size_in = omega arith;
}

-- What a result of `push` says.
abbrev pub Pushed : Task → Queue → Option Queue → Type 0
Pushed task q none = q.size ≡ max_task
Pushed task q (some q') =
    (q.size < max_task)
    × IsQueue q'
    × (contents q' ≡ contents q ++ task ∷ [])
    × (q'.size ≡ q.size + 1)

-- On a sound queue `push` fails exactly when it holds 100 tasks; else the task is the last one of a
-- sound queue, behind those that it held.
pub push-Pushed : (task : Task) {q : Queue} → IsQueue q → Pushed task q (push task q)
unfolding push
push-Pushed task {q} v = elim (Bool-cases (q.size == max_task)) [
  | inl full ↦ rw full ((==_iff _ _).0 full)
  | inr room ↦ rw room (
    below room,
    record {
      whole = length-set q.queue q.rear task ∙ v.whole;
      front_in = v.front_in;
      rear_at = omega (arith, v.rear_at);
      size_in = omega (arith, below room);
    },
    last room,
    refl,
  )
]
  where
    below : (q.size == max_task) ≡ false → q.size < max_task
    below room = ground (arith, v.size_in)

    last :
        (q.size == max_task) ≡ false
        → window no_task (set q.queue q.rear task) q.front (q.size + 1) ≡ contents q ++ task ∷ []
    last room =
        let e : q.size + 1 ≡ suc q.size = omega arith in
        rw (v.rear_at, e) (window-push no_task q.queue q.front q.size task v.whole (below room))

-- What a result of `pop` says.
abbrev pub Popped : Queue → Option (Task × Queue) → Type 0
Popped q none = q.size ≡ 0
Popped q (some (task, q')) = IsQueue q' × (contents q ≡ task ∷ contents q') × (q.size ≡ q'.size + 1)

-- On a sound queue `pop` waits exactly when it is empty; else it takes the oldest task, and leaves the
-- others in order in a sound queue.
pub pop-Popped : {q : Queue} → IsQueue q → Popped q (pop q)
unfolding pop
pop-Popped {q} v = elim (Bool-cases (q.size == 0)) [
  | inl empty ↦ rw empty ((==_iff _ _).0 empty)
  | inr busy ↦ rw busy (
    record {
      whole = v.whole;
      front_in = omega (arith, v.front_in);
      rear_at = omega (arith, v.rear_at, above busy);
      size_in = omega (arith, v.size_in);
    },
    first busy,
    omega (arith, above busy),
  )
]
  where
    above : (q.size == 0) ≡ false → 0 < q.size
    above e = ground arith

    first :
        (q.size == 0) ≡ false
        → contents q
          ≡ get_or q.queue q.front no_task
            ∷ window no_task q.queue ((q.front + 1) % max_task) (q.size - 1)
    first e = window-pop no_task q.queue q.front q.size v.front_in (above e)

-- On a sound queue `push` fails exactly when it holds 100 tasks, and else puts the task behind those that it
-- holds; `pop` waits exactly when it is empty, and else takes the oldest task and leaves the others in order.
-- Both leave a sound queue.
pub bounded_fifo :
    (task : Task) {q : Queue} → IsQueue q → Pushed task q (push task q) × Popped q (pop q)
bounded_fifo task v = (push-Pushed task v, pop-Popped v)
