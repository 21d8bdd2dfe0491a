-- ===== src/Tests/ServerRuns.antt =====
-- Runs of the server of socket_test/server_pthread_pool.c.
use linux_system_programing.Prelude.{
  ℕ, zero, suc, ◌<◌, ◌≤◌, ◌≡◌, ◌≢◌, refl, List, [], ◌∷◌, length, replicate, length-replicate, arith,
  some,
}
use linux_system_programing.Lines.{newline}
use linux_system_programing.Kernel.{Received, bytes, recv_error, Sent, took, eagain}
use linux_system_programing.Echo.Send.{count}
use linux_system_programing.Rings.{max_task}
use linux_system_programing.PoolServer.Queue.{Task, no_task}
use linux_system_programing.PoolServer.Threads.{
  Pool, threadpool_init, welcome_client, accept_fd, Run, created, accepted, welcomed, IsServing,
}
use linux_system_programing.PoolServer.Wakeups.{Run-IsServing}
use linux_system_programing.PoolServer.Client.{Conn, handle_client, begin_client}
use linux_system_programing.PoolServer.Rounds.{cut, handle_client-echoes}
use linux_system_programing.PoolServer.Echo.{Wrote}
use linux_system_programing.Lines.{complete, partial}

abbrev memory : List Task
memory = replicate max_task no_task

memory-length : length memory ≡ max_task
memory-length = length-replicate {A = Task} max_task no_task

abbrev task : ℕ → Task
task fd = record { client_fd = fd }

abbrev one_in : Pool
one_in = welcome_client 7 (accept_fd 7 (threadpool_init 10 memory))

one_in_run : Run (threadpool_init 10 memory) (task 7 ∷ []) [] one_in
unfolding threadpool_init
one_in_run = welcomed 7 (accepted 7 created refl) refl

Run-IsServing_example : IsServing 10 (task 7 ∷ []) [] one_in
Run-IsServing_example = Run-IsServing memory 10 memory-length one_in_run

-- one byte at a time
abbrev dribble : ℕ → ℕ → Sent
dribble i zero = took 0
dribble i (suc n) = took 1

dribble-count : (i n : ℕ) → count (dribble i n) ≤ n
dribble-count i zero = omega arith
dribble-count i (suc n) = omega arith

dribble_moves : (i n : ℕ) → 0 < n → dribble i n ≢ took 0
dribble_moves i zero h = absurd (omega arith)
dribble_moves i (suc n) h = λ q. ground arith

-- A line in two pieces, then the end of the stream.
abbrev heard : List Received
heard = bytes (b'h' ∷ []) ∷ recv_error eagain ∷ bytes (b'i' ∷ newline ∷ b'x' ∷ []) ∷ bytes [] ∷ []

handle_client-echoes_example :
    let (ins, closed) = cut [] heard in
    (d : Conn) × (handle_client dribble 5_000 heard
        (begin_client (replicate 1_024 0) (replicate 4_096 0))
      ≡ some (d, closed))
    × Wrote dribble
        (complete ins)
        (partial ins)
        (begin_client (replicate 1_024 0) (replicate 4_096 0))
        d
handle_client-echoes_example =
    handle_client-echoes dribble 5_000 heard (replicate 1_024 0) (replicate 4_096 0) dribble-count
      dribble_moves (omega arith) (length-replicate {A = ℕ} 1_024 0)
      (length-replicate {A = ℕ} 4_096 0) (omega arith)
