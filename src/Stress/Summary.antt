-- ===== src/Stress/Summary.antt =====
-- The report that `main` of socket_test/stress_test_client.c prints behind its loop.
use linux_system_programing.Prelude.{ℕ, Bool, if◌then◌else◌, ltb, List, Option, none, some}
use linux_system_programing.Stress.Client.{Stats}
use linux_system_programing.Stress.Report.{Doubles, Sorting, percentile_ms, print_progress}

-- The numbers that printf() is given, in its order.
pub record Summary (d : Doubles) : Type 0 where
  pub completed : ℕ
  pub failed : ℕ
  pub rps : d.Double
  pub throughput : d.Double
  pub avg_ms : d.Double
  pub p50 : d.Double
  pub p95 : d.Double
  pub p99 : d.Double
  pub bytes_sent : ℕ
  pub bytes_received : ℕ
  pub elapsed : d.Double

module _ (d : Doubles) where
  open d use {Double, of, div, lt}

  -- The last progress bar, unless a signal has ended the loop.
  unfoldable pub last_progress : Bool → Stats → Option (List ℕ × Double)
  last_progress stop s = if stop then none else some (print_progress d s.completed s.total_requests)

  -- 1e-9 in the place of an elapsed time that is not above 0
  unfoldable pub elapsed_of : Double → Double
  elapsed_of elapsed = if lt (of 0) elapsed then elapsed else div (of 1) (of 1_000_000_000)

  unfoldable pub avg_of : Stats → Double
  avg_of s =
      if ltb 0 s.completed
      then div (div (of s.latency_sum_ns) (of s.completed)) (of 1_000_000)
      else of 0

  -- `seconds` is what elapsed_seconds() returns; `malloc_fails` is the test of `tmp` in each percentile.
  unfoldable pub summary : Sorting → (ℕ → Bool) → Double → Stats → Summary d
  summary q malloc_fails seconds s =
      let elapsed = elapsed_of seconds in
      record {
        completed = s.completed;
        failed = s.failed;
        rps = div (of s.completed) elapsed;
        throughput = div (div (div (of s.bytes_received) elapsed) (of 1024)) (of 1024);
        avg_ms = avg_of s;
        p50 = percentile_ms d q (malloc_fails 50) s 50;
        p95 = percentile_ms d q (malloc_fails 95) s 95;
        p99 = percentile_ms d q (malloc_fails 99) s 99;
        bytes_sent = s.bytes_sent;
        bytes_received = s.bytes_received;
        elapsed = elapsed;
      }
