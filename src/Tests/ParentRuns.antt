-- ===== src/Tests/ParentRuns.antt =====
-- Runs of process_test/mq_p&s.c in which the fourth mq_send() fails.
use linux_system_programing.Prelude.{
  ℕ, ◌<◌, ◌≡◌, ◌≢◌, ◌⊎◌, refl, [], ◌∷◌, ◌++◌, Bool, true, false, not, ◌==◌, arith,
}
use mathlib.Core.List.{map}
use linux_system_programing.ParentChild.Steps.{
  mq_maxmsg, message, shown, Parent, sending, Child, receiving, System, start, mq_send, Step, sent,
  received, Reach, started, next,
}
use linux_system_programing.ParentChild.Runs.{accepted, Reach-accepted}
use linux_system_programing.ParentChild.Ends.{steps_left, IsDone, Reach-ends}

abbrev all_but_fourth : ℕ → Bool
all_but_fourth i = not (i == 3)

abbrev every : ℕ → Bool
every j = true

-- One message is sent and received.
abbrev one_sent : System
one_sent = record start { queue = message 1 ∷ []; parent = sending 1 }

abbrev one_received : System
one_received = record start {
  parent = sending 1;
  child = receiving 1;
  printed = shown (message 1) ∷ [];
}

one_sent_run : Reach all_but_fourth every one_sent
unfolding mq_send
one_sent_run = next started (sent 0 refl (omega arith) (omega arith))

one_received_run : Reach all_but_fourth every one_received
one_received_run = next one_sent_run (received 0 (message 1) [] refl (omega arith) refl refl)

Reach-accepted_example :
    (one_received.printed ++ map shown one_received.queue ≡ accepted all_but_fourth 1)
    × ((i : ℕ) → sending 1 ≡ sending i → i < mq_maxmsg → 0 < mq_maxmsg)
    × (sending 1 ≡ Parent.gone → (receiving 1 ≡ Child.gone) ⊎ (receiving 1 ≡ Child.failed))
Reach-accepted_example = Reach-accepted all_but_fourth every one_received_run

Reach-ends_example :
    ((t : System) → Step all_but_fourth every one_received t → steps_left t < 21)
    × (((i : ℕ) → i < mq_maxmsg → all_but_fourth i ≡ true)
        → IsDone one_received ⊎ ((t : System) × Step all_but_fourth every one_received t))
    × ((i : ℕ)
        → i < mq_maxmsg
        → all_but_fourth i ≡ false
        → (receiving 1 ≢ Child.gone) × (sending 1 ≢ Parent.gone))
Reach-ends_example = Reach-ends all_but_fourth every (λ j h. refl) one_received_run
