-- ===== src/Semaphores/System.antt =====
-- The threads of thread_test/sem_pro_con_prob.c. A step is one call of the source, or one access to the
-- buffer between pthread_mutex_lock() and pthread_mutex_unlock(); the scheduler picks the thread.
use linux_system_programing.Prelude.{
  ℕ, ◌+◌, ◌-◌, ◌%◌, ◌<◌, ◌≡◌, List, [], ◌∷◌, ◌++◌, get_or, set, replicate,
}

abbrev pub buf_size : ℕ
buf_size = 10

-- how many missions each thread handles
abbrev pub missions : ℕ
missions = 100

pub record Buffer : Type 0 where
  pub slots : List ℕ
  pub front : ℕ
  pub rear : ℕ

unfoldable pub buf_init : Buffer
buf_init = record { slots = replicate buf_size 0; front = 0; rear = 0 }

-- The assignment of `produce`.
unfoldable pub produce : ℕ → Buffer → Buffer
produce i b = record b { slots = set b.slots (i % buf_size) i }

-- What `consume` prints, and its assignment.
unfoldable pub mission_at : ℕ → Buffer → ℕ
mission_at i b = get_or b.slots (i % buf_size) 0

unfoldable pub consume : ℕ → Buffer → Buffer
consume i b = record b { slots = set b.slots (i % buf_size) 0 }

-- Where a thread is in its round: before sem_wait(), before pthread_mutex_lock(), with the mutex before
-- the access, with the mutex after it, or before sem_post().
pub data At : Type 0 where
  waiting locking inside leaving posting : At

-- `full` and `empty` are the values of the semaphores; `made` and `used` the loop counters.
pub record System : Type 0 where
  pub buf : Buffer
  pub full : ℕ
  pub empty : ℕ
  pub made : ℕ
  pub producer : At
  pub used : ℕ
  pub consumer : At
  pub printed : List ℕ

-- `main` after it has created the threads
abbrev pub start : System
start = record {
  buf = buf_init;
  full = 0;
  empty = buf_size;
  made = 0;
  producer = waiting;
  used = 0;
  consumer = waiting;
  printed = [];
}

-- A thread that has the mutex.
abbrev pub holds : At → ℕ
holds waiting = 0
holds locking = 0
holds inside = 1
holds leaving = 1
holds posting = 0

-- the producer's steps
pub data Produce (s : System) : System → Type 0 where
  sem_wait_empty :
      s.producer ≡ waiting
      → s.made < missions
      → 0 < s.empty
      → Produce s (record s { producer = locking; empty = s.empty - 1 })
  lock : s.producer ≡ locking → holds s.consumer ≡ 0 → Produce s (record s { producer = inside })
  write :
      s.producer ≡ inside → Produce s (record s { producer = leaving; buf = produce s.made s.buf })
  unlock : s.producer ≡ leaving → Produce s (record s { producer = posting })
  sem_post_full :
      s.producer ≡ posting
      → Produce s (record s { producer = waiting; full = s.full + 1; made = s.made + 1 })

-- the consumer's steps
pub data Consume (s : System) : System → Type 0 where
  sem_wait_full :
      s.consumer ≡ waiting
      → s.used < missions
      → 0 < s.full
      → Consume s (record s { consumer = locking; full = s.full - 1 })
  lock : s.consumer ≡ locking → holds s.producer ≡ 0 → Consume s (record s { consumer = inside })
  read :
      s.consumer ≡ inside
      → Consume s (record s {
        consumer = leaving;
        buf = consume s.used s.buf;
        printed = s.printed ++ mission_at s.used s.buf ∷ [];
      })
  unlock : s.consumer ≡ leaving → Consume s (record s { consumer = posting })
  sem_post_empty :
      s.consumer ≡ posting
      → Consume s (record s { consumer = waiting; empty = s.empty + 1; used = s.used + 1 })

pub data Step (s t : System) : Type 0 where
  by_producer : Produce s t → Step s t
  by_consumer : Consume s t → Step s t

pub data Reach : System → Type 0 where
  started : Reach start
  next : {s t : System} → Reach s → Step s t → Reach t
