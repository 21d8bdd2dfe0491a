-- ===== src/Pipes/Copied.antt =====
-- What the child of process_test/unamed_pipe_test.c prints, and that both processes end.
use linux_system_programing.Prelude.{
  ℕ, ◌+◌, ◌*◌, ◌≤◌, ◌<◌, ◌≡◌, ◌⊎◌, inl, inr, refl, sym, ◌∙◌, ap, List, [], ◌∷◌, ◌++◌, append-nil,
  append_assoc, length, length-append, ltb, ltb→lt, ltb→le, arith, Bool-cases,
}
use linux_system_programing.Pipes.Unnamed.{
  Parent, writing, waiting, Child, starting, reading, leaving, System, parent_ends, child_ends,
  Step, write_byte, close_parent, close_child, read_byte, end_of_pipe, child_exit, waitpid, Reach,
  started, next,
}

-- the bytes that the parent has not yet written
abbrev pub to_write : Parent → List ℕ
to_write (writing rest) = rest
to_write waiting = []
to_write Parent.gone = []

-- What is printed in each state of the child; `coming` is on its way.
abbrev Printed : List ℕ → Child → (printed coming : List ℕ) → Type 0
Printed text starting printed coming = printed ++ coming ≡ text
Printed text reading printed coming = printed ++ coming ≡ text
Printed text leaving printed coming = (printed ≡ text ++ b'\n' ∷ []) × (coming ≡ [])
Printed text Child.gone printed coming = (printed ≡ text ++ b'\n' ∷ []) × (coming ≡ [])

-- The child is behind its loop.
abbrev through : Child → ℕ
through starting = 0
through reading = 0
through leaving = 1
through Child.gone = 1

record IsCopy (text : List ℕ) (s : System) : Type 0 where
  copied : Printed text s.child s.printed (s.pipe ++ to_write s.parent)
  closed : through s.child + parent_ends s.parent ≤ 1
  waited : s.parent ≡ Parent.gone → s.child ≡ Child.gone

move :
    (text : List ℕ) (c : Child) (printed xs ys : List ℕ)
    → xs ≡ ys
    → Printed text c printed xs
    → Printed text c printed ys
move text c printed xs ys e h = rw e at h

closed-to_write : (p : Parent) → parent_ends p ≡ 0 → to_write p ≡ []
closed-to_write (writing rest) h = absurd (omega arith)
closed-to_write waiting h = refl
closed-to_write Parent.gone h = refl

-- At the end of the pipe the whole text is printed.
end_copied :
    {text : List ℕ} {s : System}
    → s.child ≡ reading
    → s.pipe ≡ []
    → parent_ends s.parent ≡ 0
    → IsCopy text s
    → (s.printed ++ b'\n' ∷ [] ≡ text ++ b'\n' ∷ []) × (s.pipe ++ to_write s.parent ≡ [])
end_copied {text} {s} at e none_open v =
    let nothing = closed-to_write s.parent none_open in
    let all : s.printed ++ [] ≡ text = rw (at, e, nothing) at v.copied in
    (
      ap (λ l. l ++ b'\n' ∷ []) (sym (append-nil s.printed) ∙ all),
      ap (λ l. l ++ to_write s.parent) e ∙ nothing,
    )

Step-IsCopy :
    {text : List ℕ} {capacity : ℕ} {s t : System}
    → Step capacity s t
    → IsCopy text s
    → IsCopy text t
Step-IsCopy {text} {s = s} (write_byte b rest at room) v = record {
  copied =
      move text s.child s.printed _ _ (rw at (sym (append_assoc s.pipe (b ∷ []) rest))) v.copied;
  closed = rw at at v.closed;
  waited = λ q. cc;
}
Step-IsCopy {text} {s = s} (close_parent at) v = record {
  copied = move text s.child s.printed _ _ (ap (λ p. s.pipe ++ to_write p) at) v.copied;
  closed = omega (arith, v.closed);
  waited = λ q. cc;
}
Step-IsCopy {text} {s = s} (close_child at) v = record {
  copied = rw at at v.copied;
  closed = rw at at v.closed;
  waited = λ q. absurd (cc (sym at ∙ v.waited q));
}
Step-IsCopy {text} {s = s} (read_byte b rest at e) v = record {
  copied =
      rw at (append_assoc s.printed (b ∷ []) (rest ++ to_write s.parent) ∙ rw (at, e) at v.copied);
  closed = v.closed;
  waited = v.waited;
}
Step-IsCopy {text} {s = s} (end_of_pipe at e all_closed) v = record {
  copied = end_copied at e (omega (arith, all_closed)) v;
  closed = omega (arith, all_closed);
  waited = λ q. absurd (cc (sym at ∙ v.waited q));
}
Step-IsCopy {text} {s = s} (child_exit at) v = record {
  copied = rw at at v.copied;
  closed = rw at at v.closed;
  waited = λ q. refl;
}
Step-IsCopy {text} {s = s} (waitpid at over) v = record {
  copied = move text s.child s.printed _ _ (ap (λ p. s.pipe ++ to_write p) at) v.copied;
  closed = omega (arith, v.closed);
  waited = λ q. over;
}

Reach-IsCopy : {text : List ℕ} {capacity : ℕ} {s : System} → Reach capacity text s → IsCopy text s
Reach-IsCopy started = record { copied = refl; closed = omega arith; waited = λ q. cc }
Reach-IsCopy (next run p) = Step-IsCopy p (Reach-IsCopy run)

-- how many steps are left
abbrev pub parent_left : Parent → ℕ
parent_left (writing rest) = 2 * length rest + 2
parent_left waiting = 1
parent_left Parent.gone = 0

abbrev pub child_left : Child → ℕ
child_left starting = 3
child_left reading = 2
child_left leaving = 1
child_left Child.gone = 0

abbrev pub steps_left : System → ℕ
steps_left s = parent_left s.parent + length s.pipe + child_left s.child

Step-fewer : {capacity : ℕ} {s t : System} → Step capacity s t → steps_left t < steps_left s
Step-fewer {s = s} (write_byte b rest at room) =
    omega (arith, ap parent_left at, length-append s.pipe (b ∷ []))
Step-fewer (close_parent at) = omega (arith, ap parent_left at)
Step-fewer (close_child at) = omega (arith, ap child_left at)
Step-fewer (read_byte b rest at e) = omega (arith, ap length e)
Step-fewer (end_of_pipe at e all_closed) = omega (arith, ap child_left at)
Step-fewer (child_exit at) = omega (arith, ap child_left at)
Step-fewer (waitpid at over) = omega (arith, ap parent_left at)

-- Both processes are gone, and the child has printed the text and a newline.
pub record IsDone (text : List ℕ) (s : System) : Type 0 where
  pub parent_gone : s.parent ≡ Parent.gone
  pub child_gone : s.child ≡ Child.gone
  pub all_printed : s.printed ≡ text ++ b'\n' ∷ []

module _ {text : List ℕ} {capacity : ℕ} {s : System} (v : IsCopy text s) where
  -- The child reads what stands in the pipe.
  read_next :
      (pipe : List ℕ)
      → s.pipe ≡ pipe
      → s.child ≡ reading
      → 0 < length pipe
      → (t : System) × Step capacity s t
  read_next [] e here some_left = absurd (omega arith)
  read_next (b ∷ rest) e here some_left = (_, read_byte b rest here e)

  -- The parent's end is closed.
  reader_goes :
      (pipe : List ℕ)
      → s.pipe ≡ pipe
      → parent_ends s.parent ≡ 0
      → s.child ≡ reading
      → (t : System) × Step capacity s t
  reader_goes [] e none_open here =
      (_, end_of_pipe here e (omega (arith, ap child_ends here, none_open)))
  reader_goes (b ∷ rest) e none_open here = (_, read_byte b rest here e)

  child_goes : (c : Child) → s.child ≡ c → s.parent ≡ waiting → (t : System) × Step capacity s t
  child_goes starting here at = (_, close_child here)
  child_goes reading here at = reader_goes s.pipe refl (ap parent_ends at) here
  child_goes leaving here at = (_, child_exit here)
  child_goes Child.gone here at = (_, waitpid at here)

  -- While the parent writes, the pipe has room or the child has a byte to read.
  writer_waits :
      (c : Child)
      → s.child ≡ c
      → parent_ends s.parent ≡ 1
      → 0 < length s.pipe
      → (t : System) × Step capacity s t
  writer_waits starting here at some_left = (_, close_child here)
  writer_waits reading here at some_left = read_next s.pipe refl here some_left
  writer_waits leaving here at some_left = absurd (omega (arith, v.closed, at, ap through here))
  writer_waits Child.gone here at some_left = absurd (omega (arith, v.closed, at, ap through here))

  goes :
      0 < capacity
      → (p : Parent) → s.parent ≡ p
      → IsDone text s ⊎ ((t : System) × Step capacity s t)
  goes large (writing []) at = inr (_, close_parent at)
  goes large (writing (b ∷ rest)) at = elim (Bool-cases (ltb (length s.pipe) capacity)) [
    | inl room ↦ inr (_, write_byte b rest at (ltb→lt _ _ room))
    | inr full ↦
        inr (writer_waits s.child refl (ap parent_ends at) (omega (arith, large, ltb→le _ _ full)))
  ]
  goes large waiting at = inr (child_goes s.child refl at)
  goes large Parent.gone at =
      let child_gone = v.waited at in
      let printed : (s.printed ≡ text ++ b'\n' ∷ []) × (s.pipe ++ to_write s.parent ≡ []) =
        rw child_gone at v.copied in
      inl (record { parent_gone = at; child_gone = child_gone; all_printed = printed.0 })

-- For a pipe of any capacity above 0 and any text: a state that the processes reach has a step to go on with
-- until both are gone and the child has printed the text and a newline; and each step leaves fewer to go, so
-- that they get there.
pub Reach-copies :
    (capacity : ℕ) (text : List ℕ)
    → 0 < capacity
    → (s : System) → Reach capacity text s
    → (IsDone text s ⊎ ((t : System) × Step capacity s t))
      × ((t : System) → Step capacity s t → steps_left t < steps_left s)
Reach-copies capacity text large s run =
    (goes (Reach-IsCopy run) large s.parent refl, λ t p. Step-fewer p)
