-- ===== src/SharedMemory/Processes.antt =====
-- The two processes of process_test/shared_memory.c. Each byte that strcpy() writes, and each that the child
-- reads, is a step of its own; strcpy() goes from left to right.
use linux_system_programing.Prelude.{
  ℕ, ◌+◌, ◌<◌, ◌≡◌, ◌≢◌, List, [], ◌∷◌, ◌++◌, length, get_or, Bool, true, false, ◌==◌,
  if◌then◌else◌,
}

-- The parent before the byte with an index, in its waitpid(), after munmap(), and after shm_unlink().
pub data Parent : Type 0 where
  copying : ℕ → Parent
  waiting unmapped gone : Parent

-- The child in its loop, before the byte with an index, before munmap(), and gone.
pub data Child : Type 0 where
  polling : Child
  printing : ℕ → Child
  leaving gone : Child

-- `shm` is the shared memory, and `printed` what the child has printed of the message.
pub record System : Type 0 where
  pub shm : ℕ → ℕ
  pub parent : Parent
  pub child : Child
  pub printed : List ℕ
  pub named : Bool

-- ftruncate() has filled the new object with zeros.
abbrev pub start : System
start = record { shm = λ _. 0; parent = copying 0; child = polling; printed = []; named = true }

abbrev pub write_byte : (ℕ → ℕ) → ℕ → ℕ → ℕ → ℕ
write_byte shm i b j = if j == i then b else shm j

pub data Step (message : List ℕ) (s : System) : System → Type 0 where
  copy :
      (i : ℕ)
      → s.parent ≡ copying i
      → i < length message
      → Step message s
          (record s { shm = write_byte s.shm i (get_or message i 0); parent = copying (i + 1) })
  copy_zero :
      (i : ℕ)
      → s.parent ≡ copying i
      → i ≡ length message
      → Step message s (record s { shm = write_byte s.shm i 0; parent = waiting })
  see : s.child ≡ polling → s.shm 0 ≢ 0 → Step message s (record s { child = printing 0 })
  print :
      (i : ℕ)
      → s.child ≡ printing i
      → s.shm i ≢ 0
      → Step message s (record s { child = printing (i + 1); printed = s.printed ++ s.shm i ∷ [] })
  print_end :
      (i : ℕ) → s.child ≡ printing i → s.shm i ≡ 0 → Step message s (record s { child = leaving })
  child_exit : s.child ≡ leaving → Step message s (record s { child = Child.gone })
  waitpid :
      s.parent ≡ waiting → s.child ≡ Child.gone → Step message s (record s { parent = unmapped })
  shm_unlink :
      s.parent ≡ unmapped → Step message s (record s { parent = Parent.gone; named = false })

pub data Reach (message : List ℕ) : System → Type 0 where
  started : Reach message start
  next : {s t : System} → Reach message s → Step message s t → Reach message t
