-- ===== src/Tests/MemoryRuns.antt =====
-- Runs of process_test/shared_memory.c: a name that is in use, with mmap() failing, and a message of two bytes.
use linux_system_programing.Prelude.{
  ◌≡◌, ◌<◌, refl, List, [], ◌∷◌, length, take, true, false, ◌||◌, arith, ℕ,
}
use linux_system_programing.SharedMemory.Setup.{Held, Failures, set_up, set_up-clean}
use linux_system_programing.SharedMemory.Processes.{Child, System, Reach}
use linux_system_programing.SharedMemory.Exchange.{Reach-prefix}

abbrev in_use_before : Held
in_use_before = record { named = true; open_fds = 3; mapped = false }

abbrev no_map : Failures
no_map = record {
  first_open = false;
  first_unlink = false;
  second_open = false;
  ftruncate = false;
  mmap = true;
  fork = false;
  close = false;
  munmap = false;
  last_unlink = false;
}

set_up-clean_example :
    let (t, goes_on) = set_up no_map in_use_before in
    (t.open_fds ≡ 3) × (t.named ≡ goes_on || false) × (t.mapped ≡ goes_on) × (goes_on ≡ false)
set_up-clean_example = set_up-clean no_map in_use_before refl refl refl refl

abbrev hi : List ℕ
hi = 104 ∷ 105 ∷ []

Reach-prefix_example :
    ((s : System)
      → Reach hi s
      → ((n : ℕ) × (s.printed ≡ take n hi) × (s.child ≡ Child.gone → 0 < n))
        × (s.named ≡ false → s.child ≡ Child.gone))
    × (1 < length hi → (s : System) × Reach hi s × (s.child ≡ Child.gone) × (s.printed ≡ take 1 hi))
Reach-prefix_example = Reach-prefix hi (λ q. omega arith, (λ q. omega arith, tt))
