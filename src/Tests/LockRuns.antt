-- ===== src/Tests/LockRuns.antt =====
-- Runs of the smaller programs of thread_test/.
use linux_system_programing.Prelude.{◌<◌, ◌≤◌, ◌≡◌, ◌≢◌, ◌⊎◌, refl, [], ◌∷◌, none, some, arith}
use linux_system_programing.Counters.Racing
use linux_system_programing.Counters.Locked
use linux_system_programing.OneSlot
use linux_system_programing.ReadWrite
use linux_system_programing.EchoThreads
use linux_system_programing.Strings.{c_string}

IsFinished-bounds_example :
    ((s : Racing.System)
      → Racing.Reach 2 s
      → Racing.IsFinished 2 s.th1
      → Racing.IsFinished 2 s.th2
      → (0 < s.count) × (s.count ≤ 4))
    × ((s : Racing.System) × Racing.Reach 2 s
        × Racing.IsFinished 2 s.th1
        × Racing.IsFinished 2 s.th2
        × (s.count ≡ 2))
IsFinished-bounds_example = Racing.IsFinished-bounds 2 (omega arith)

-- One round for each thread: the first is through, and the second has loaded.
abbrev half_way : Locked.System
half_way = record {
  count = 1;
  th1 = record { place = Locked.gone; i = 1; loaded = none };
  th2 = record { place = Locked.holding; i = 0; loaded = some 1 };
}

half_way_run : Locked.Reach 1 half_way
half_way_run =
    Locked.next
      (Locked.next
        (Locked.next
          (Locked.next
            (Locked.next (Locked.next Locked.started (Locked.by_th1 (Locked.lock refl (λ q. cc))))
              (Locked.by_th1 (Locked.load refl (omega arith) refl)))
            (Locked.by_th1 (Locked.store 0 refl)))
          (Locked.by_th1 (Locked.unlock refl refl)))
        (Locked.by_th2 (Locked.lock refl (λ q. cc))))
      (Locked.by_th2 (Locked.load refl (omega arith) refl))

Reach-total_example :
    (half_way.count ≡ 1)
    × (half_way.th1.place ≡ Locked.holding → half_way.th2.place ≢ Locked.holding)
    × (half_way.th1.place ≡ Locked.gone → half_way.th2.place ≡ Locked.gone → half_way.count ≡ 2)
Reach-total_example = Locked.Reach-total half_way_run

Reach-lines_example :
    (OneSlot.IsShown (OneSlot.overtaken.0.shown)
      × OneSlot.IsPrinted (OneSlot.overtaken.0.printed)
      × (OneSlot.overtaken.0.producer ≡ OneSlot.waiting
          → OneSlot.overtaken.0.consumer ≢ OneSlot.waiting))
    × ((t : OneSlot.System) × OneSlot.Reach t × (t.printed ≡ 1 ∷ []))
    × ((t : OneSlot.System) × OneSlot.Reach t × (t.printed ≡ 2 ∷ []))
Reach-lines_example = OneSlot.Reach-lines OneSlot.overtaken.1

-- A reader prints 100 before the writer begins.
abbrev one_read : ReadWrite.System
one_read = record ReadWrite.start { readers = 2; leaving = 1; printed = 100 ∷ [] }

one_read_run : ReadWrite.Reach one_read
one_read_run =
    ReadWrite.next
      (ReadWrite.next (ReadWrite.next ReadWrite.started (ReadWrite.rdlock (omega arith) refl))
        (ReadWrite.look (omega arith)))
      (ReadWrite.read [] 100 [] refl)

Reach-configs_example : (one_read.config ≡ 100) × (0 ≤ 5) × ReadWrite.IsRising 100 (100 ∷ [])
Reach-configs_example = ReadWrite.Reach-configs one_read_run

Reach-texts_example :
    let s = EchoThreads.stuck_state.0 in
    ((EchoThreads.strings s.heard ≡ s.shown)
      ⊎ (EchoThreads.strings s.heard ≡ c_string s.buf ∷ s.shown))
    × (s.echo ≡ EchoThreads.Echo.gone
        → (s.buf ≡ []) × (EchoThreads.strings s.heard ≡ c_string s.buf ∷ s.shown))
Reach-texts_example = EchoThreads.Reach-texts EchoThreads.stuck_state.1
