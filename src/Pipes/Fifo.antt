-- ===== src/Pipes/Fifo.antt =====
-- The loops of process_test/fifo_write.c and process_test/fifo_read.c, by the results of read(). write()
-- takes all that it is given.
use linux_system_programing.Prelude.{ℕ, List, [], ◌∷◌, length, sub_u64, ltb, if◌then◌else◌}
use linux_system_programing.Kernel.{Received, bytes, recv_error}
use linux_system_programing.Bytes.{blit}
use linux_system_programing.Strings.{c_string, has_zero}

-- MAX_SIZE
abbrev pub max_size : ℕ
max_size = 50

-- How a loop ends: behind it, at an access outside `buf`, or not with the results that there are.
pub data Ended : Type 0 where
  at_end outside running : Ended

-- `read_char`, the result of read() as a size_t: -1 becomes 2 ^ 64 - 1.
unfoldable pub read_char : Received → ℕ
read_char (bytes xs) = length xs
read_char (recv_error e) = sub_u64 0 1

-- What read() writes to `buf`.
abbrev pub stored : Received → List ℕ
stored (bytes xs) = xs
stored (recv_error e) = []

-- `buf` with the zero byte at `read_char`.
abbrev pub terminated : List ℕ → Received → List ℕ
terminated buf r = blit (blit buf 0 (stored r)) (read_char r) (0 ∷ [])

-- What fifo_write.c writes. `buf[read_char]` is written before the string is looked at.
unfoldable pub write_loop : List ℕ → List Received → List (List ℕ) × Ended
write_loop buf [] = ([], running)
write_loop buf (r ∷ rs) =
    let rest = write_loop (terminated buf r) rs in
    if ltb 0 (read_char r)
    then if ltb (read_char r) max_size
      then (c_string (terminated buf r) ∷ rest.0, rest.1)
      else ([], outside)
    else ([], at_end)

-- What fifo_read.c writes. read() is asked for strlen(buf) bytes, and `read_char` is the comparison of its
-- result with 0.
unfoldable pub read_loop : List ℕ → List Received → List (List ℕ) × Ended
read_loop buf [] = if has_zero buf then ([], running) else ([], outside)
read_loop buf (recv_error e ∷ rs) = if has_zero buf then ([], at_end) else ([], outside)
read_loop buf (bytes [] ∷ rs) = if has_zero buf then ([], at_end) else ([], outside)
read_loop buf (bytes (x ∷ xs) ∷ rs) =
    let filled = blit buf 0 (x ∷ xs) in
    let rest = read_loop filled rs in
    if has_zero buf then (c_string filled ∷ rest.0, rest.1) else ([], outside)
