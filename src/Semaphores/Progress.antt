-- ===== src/Semaphores/Progress.antt =====
-- The threads of thread_test/sem_pro_con_prob.c never block one another for good.
use linux_system_programing.Prelude.{
  ℕ, ◌+◌, ◌*◌, ◌<◌, ◌≤◌, ◌≡◌, ◌⊎◌, inl, inr, refl, ap, arith, Bool-cases, ltb, ltb→lt, ltb→le, ◌≢◌,
  ◌∙◌,
}
use linux_system_programing.Semaphores.System.{
  missions, At, waiting, locking, inside, leaving, posting, System, holds, Produce, sem_wait_empty,
  write, sem_post_full, Consume, sem_wait_full, read, sem_post_empty, Step, by_producer,
  by_consumer, Reach, started, next,
}
use linux_system_programing.Semaphores.Order.{
  permit, past, upto, IsSystem, Reach-IsSystem, read_count,
}

-- Both threads have done all their missions.
pub record IsDone (s : System) : Type 0 where
  pub producer_done : (s.made ≡ missions) × (s.producer ≡ waiting)
  pub consumer_done : (s.used ≡ missions) × (s.consumer ≡ waiting)

-- some thread can go on
abbrev pub CanStep : System → Type 0
CanStep s = (t : System) × Step s t

module _ {s : System} (v : IsSystem s) where
  consumer_step : (a : At) → s.consumer ≡ a → a ≢ waiting → holds s.producer ≡ 0 → CanStep s
  consumer_step waiting e ne free = absurd (ne refl)
  consumer_step locking e ne free = (_, by_consumer (Consume.lock e free))
  consumer_step inside e ne free = (_, by_consumer (read e))
  consumer_step leaving e ne free = (_, by_consumer (Consume.unlock e))
  consumer_step posting e ne free = (_, by_consumer (sem_post_empty e))

  -- The producer waits for the mutex.
  producer_locks : (a : At) → s.producer ≡ locking → s.consumer ≡ a → CanStep s
  producer_locks waiting e f = (_, by_producer (Produce.lock e (ap holds f)))
  producer_locks locking e f = (_, by_producer (Produce.lock e (ap holds f)))
  producer_locks inside e f = (_, by_consumer (read f))
  producer_locks leaving e f = (_, by_consumer (Consume.unlock f))
  producer_locks posting e f = (_, by_producer (Produce.lock e (ap holds f)))

  -- Both threads are at their semaphores.
  both_wait : s.producer ≡ waiting → s.consumer ≡ waiting → IsDone s ⊎ CanStep s
  both_wait e f = elim (Bool-cases (ltb s.made missions)) [
    | inl more ↦ elim (Bool-cases (ltb 0 s.empty)) [
      | inl some_empty ↦
          inr (_, by_producer (sem_wait_empty e (ltb→lt _ _ more) (ltb→lt _ _ some_empty)))
      | inr none_empty ↦
          let full : 0 < s.full =
            omega (arith, ltb→le _ _ none_empty, v.empties, v.fulls, ap permit e, ap permit f) in
          let left : s.used < missions = omega (arith, ltb→lt _ _ more, v.fulls) in
          inr (_, by_consumer (sem_wait_full f left full))
    ]
    | inr all ↦ elim (Bool-cases (ltb 0 s.full)) [
      | inl some_full ↦
          let left : s.used < missions = omega (arith, ltb→lt _ _ some_full, v.made_in, v.fulls) in
          inr (_, by_consumer (sem_wait_full f left (ltb→lt _ _ some_full)))
      | inr none_full ↦ inl (record {
        producer_done = (omega (arith, ltb→le _ _ all, v.made_in), e);
        consumer_done = (
          omega (arith, ltb→le _ _ all, ltb→le _ _ none_full, v.fulls, v.made_in, ap permit f),
          f,
        );
      })
    ]
  ]

  producer_waits : (a : At) → s.producer ≡ waiting → s.consumer ≡ a → IsDone s ⊎ CanStep s
  producer_waits waiting e f = both_wait e f
  producer_waits locking e f = inr (consumer_step locking f (λ q. cc) (ap holds e))
  producer_waits inside e f = inr (consumer_step inside f (λ q. cc) (ap holds e))
  producer_waits leaving e f = inr (consumer_step leaving f (λ q. cc) (ap holds e))
  producer_waits posting e f = inr (consumer_step posting f (λ q. cc) (ap holds e))

  some_step : (a : At) → s.producer ≡ a → IsDone s ⊎ CanStep s
  some_step waiting e = producer_waits s.consumer e refl
  some_step locking e = inr (producer_locks s.consumer e refl)
  some_step inside e = inr (_, by_producer (write e))
  some_step leaving e = inr (_, by_producer (Produce.unlock e))
  some_step posting e = inr (_, by_producer (sem_post_full e))

-- In every state that the threads reach, one of them can go on, unless both have done their 100
-- missions; then the missions 0 to 99 have been printed, in order. There is no deadlock.
pub Reach-progress : {s : System} → Reach s → ((IsDone s) × (s.printed ≡ upto missions)) ⊎ CanStep s
Reach-progress {s} r = elim (some_step v s.producer refl) [
  | inl d ↦
      let all : read_count s ≡ missions =
        omega (arith, d.consumer_done.0, ap past d.consumer_done.1) in
      inl (d, v.printed ∙ ap upto all)
  | inr c ↦ inr c
]
  where
    v : IsSystem s
    v = Reach-IsSystem r

-- how many steps of its round a thread has done
abbrev phase : At → ℕ
phase waiting = 0
phase locking = 1
phase inside = 2
phase leaving = 3
phase posting = 4

-- the steps of a run
abbrev pub steps : {s : System} → Reach s → ℕ
steps started = 0
steps (next r p) = steps r + 1

-- what the state shows of them
abbrev work : System → ℕ
work s = s.made * 5 + phase s.producer + (s.used * 5 + phase s.consumer)

Step-work : {s t : System} → Step s t → work t ≡ work s + 1
Step-work (by_producer (sem_wait_empty e more some)) = omega (arith, ap phase e)
Step-work (by_producer (Produce.lock e free)) = omega (arith, ap phase e)
Step-work (by_producer (write e)) = omega (arith, ap phase e)
Step-work (by_producer (Produce.unlock e)) = omega (arith, ap phase e)
Step-work (by_producer (sem_post_full e)) = omega (arith, ap phase e)
Step-work (by_consumer (sem_wait_full e more some)) = omega (arith, ap phase e)
Step-work (by_consumer (Consume.lock e free)) = omega (arith, ap phase e)
Step-work (by_consumer (read e)) = omega (arith, ap phase e)
Step-work (by_consumer (Consume.unlock e)) = omega (arith, ap phase e)
Step-work (by_consumer (sem_post_empty e)) = omega (arith, ap phase e)

steps-work : {s : System} (r : Reach s) → steps r ≡ work s
steps-work started = refl
steps-work (next r p) = omega (arith, steps-work r, Step-work p)

phase-le : (a : At) → phase a ≤ permit a * 4
phase-le waiting = omega arith
phase-le locking = omega arith
phase-le inside = omega arith
phase-le leaving = omega arith
phase-le posting = omega arith

-- No run is longer than 1000 steps: five for each mission of each thread.
pub steps-le : {s : System} (r : Reach s) → steps r ≤ 1_000
steps-le {s} r =
    let v : IsSystem s = Reach-IsSystem r in
    omega (arith, steps-work r, v.made_in, v.used_in, phase-le s.producer, phase-le s.consumer)
