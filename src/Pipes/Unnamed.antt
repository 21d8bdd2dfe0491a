-- ===== src/Pipes/Unnamed.antt =====
-- The two processes of process_test/unamed_pipe_test.c after fork(): the parent writes its argument to a pipe,
-- and the child prints it byte by byte. read() does not fail here.
use linux_system_programing.Prelude.{ℕ, ◌+◌, ◌<◌, ◌≡◌, List, [], ◌∷◌, ◌++◌, length}

-- The parent in write() with the bytes to go, in waitpid() with its write end closed, and gone.
pub data Parent : Type 0 where
  writing : List ℕ → Parent
  waiting gone : Parent

-- The child before close(pipefd[1]), in its loop, behind it, and gone.
pub data Child : Type 0 where
  starting reading leaving gone : Child

-- `pipe` holds the bytes in the pipe, the oldest first.
pub record System : Type 0 where
  pub pipe : List ℕ
  pub parent : Parent
  pub child : Child
  pub printed : List ℕ

abbrev pub start : List ℕ → System
start text = record { pipe = []; parent = writing text; child = starting; printed = [] }

-- How many write ends each process has open.
abbrev pub parent_ends : Parent → ℕ
parent_ends (writing text) = 1
parent_ends waiting = 0
parent_ends Parent.gone = 0

abbrev pub child_ends : Child → ℕ
child_ends starting = 1
child_ends reading = 0
child_ends leaving = 0
child_ends Child.gone = 0

-- `capacity` is that of the pipe. read() on an empty pipe waits until every write end is closed.
pub data Step (capacity : ℕ) (s : System) : System → Type 0 where
  write_byte :
      (b : ℕ) (rest : List ℕ)
      → s.parent ≡ writing (b ∷ rest)
      → length s.pipe < capacity
      → Step capacity s (record s { pipe = s.pipe ++ b ∷ []; parent = writing rest })
  close_parent : s.parent ≡ writing [] → Step capacity s (record s { parent = waiting })
  close_child : s.child ≡ starting → Step capacity s (record s { child = reading })
  read_byte :
      (b : ℕ) (rest : List ℕ)
      → s.child ≡ reading
      → s.pipe ≡ b ∷ rest
      → Step capacity s (record s { pipe = rest; printed = s.printed ++ b ∷ [] })
  end_of_pipe :
      s.child ≡ reading
      → s.pipe ≡ []
      → parent_ends s.parent + child_ends s.child ≡ 0
      → Step capacity s (record s { child = leaving; printed = s.printed ++ b'\n' ∷ [] })
  child_exit : s.child ≡ leaving → Step capacity s (record s { child = Child.gone })
  waitpid :
      s.parent ≡ waiting
      → s.child ≡ Child.gone
      → Step capacity s (record s { parent = Parent.gone })

pub data Reach (capacity : ℕ) (text : List ℕ) : System → Type 0 where
  started : Reach capacity text (start text)
  next : {s t : System} → Reach capacity text s → Step capacity s t → Reach capacity text t
