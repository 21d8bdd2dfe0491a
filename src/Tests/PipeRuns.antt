-- ===== src/Tests/PipeRuns.antt =====
-- Runs of the programs of process_test that talk through a pipe or a FIFO.
use linux_system_programing.Prelude.{
  ℕ, ◌≤◌, ◌<◌, ◌≡◌, ◌⊎◌, refl, List, [], ◌∷◌, ◌++◌, length, replicate, true, arith,
}
use mathlib.Core.List.{map}
use linux_system_programing.Kernel.{bytes, recv_error}
use linux_system_programing.Strings.{AreTexts, c_string, has_zero}
use linux_system_programing.Pipes.Unnamed.{
  System, start, writing, Step, write_byte, Reach, started, next,
}
use linux_system_programing.Pipes.Copied.{steps_left, IsDone, Reach-copies}
use linux_system_programing.Pipes.Fifo.{at_end, outside, write_loop, read_loop}
use linux_system_programing.Pipes.Pieces.{EachOf, write_loop-pieces, read_loop-AreTexts}

-- "hi", of which the first byte is in a pipe of one byte
abbrev hi : List ℕ
hi = 104 ∷ 105 ∷ []

abbrev full_pipe : System
full_pipe = record (start hi) { pipe = 104 ∷ []; parent = writing (105 ∷ []) }

full_pipe_run : Reach 1 hi full_pipe
full_pipe_run = next started (write_byte 104 (105 ∷ []) refl (omega arith))

Reach-copies_example :
    (IsDone hi full_pipe ⊎ ((t : System) × Step 1 full_pipe t))
    × ((t : System) → Step 1 full_pipe t → steps_left t < 8)
Reach-copies_example = Reach-copies 1 hi (omega arith) full_pipe full_pipe_run

-- The second chunk has a zero byte in it.
abbrev chunks : List (List ℕ)
chunks = hi ∷ (104 ∷ 0 ∷ 105 ∷ []) ∷ []

write_loop-pieces_example :
    (write_loop (replicate 50 7) (map bytes chunks ++ bytes [] ∷ [])
      ≡ (map c_string chunks, at_end))
    × ((e : ℕ)
        → write_loop (replicate 50 7) (map bytes chunks ++ recv_error e ∷ [])
          ≡ (map c_string chunks, outside))
write_loop-pieces_example =
    write_loop-pieces (replicate 50 7) chunks [] refl
      (omega arith, omega arith, (omega arith, omega arith, tt))

-- `buf` happens to hold "xyz", and "hi" comes.
abbrev found : List ℕ
found = 120 ∷ 121 ∷ 122 ∷ 0 ∷ []

has_end : has_zero found ≡ true
unfolding has_zero
has_end = refl

fits : 2 ≤ length (c_string found)
unfolding c_string
fits = omega arith

read_loop-AreTexts_example :
    let (pieces, ended) = read_loop found (map bytes (hi ∷ []) ++ bytes [] ∷ []) in
    AreTexts found (hi ∷ []) pieces
    × EachOf (length (c_string found)) pieces
    × (ended ≡ at_end)
    × (length (c_string found) ≡ 0 → pieces ≡ [])
read_loop-AreTexts_example =
    read_loop-AreTexts found (hi ∷ []) has_end (omega arith, fits, tt)
      ((λ q. omega arith, (λ q. omega arith, tt)), tt)
