-- ===== src/SharedMemory/Exchange.antt =====
-- What the child of process_test/shared_memory.c prints.
use linux_system_programing.Prelude.{
  ℕ, zero, suc, ◌+◌, ◌≤◌, ◌<◌, ◌≡◌, ◌≢◌, ◌⊎◌, inl, inr, refl, sym, subst, ◌∙◌, ap, List, [], ◌∷◌,
  ◌++◌, length, get_or, take, false, ltb, ◌==◌, if◌then◌else◌, arith, Bool-cases,
}
use linux_system_programing.Strings.{IsText}
use linux_system_programing.SharedMemory.Processes.{
  Parent, copying, unmapped, Child, polling, printing, leaving, System, start, write_byte, Step,
  copy, copy_zero, see, print, print_end, child_exit, waitpid, shm_unlink, Reach, started, next,
}

-- how many bytes of the message stand in the memory
abbrev copied : List ℕ → Parent → ℕ
copied message (copying i) = i
copied message _ = length message

-- how many bytes the child has printed, where it still knows
abbrev AtIndex : Child → ℕ → Type 0
AtIndex polling n = n ≡ 0
AtIndex (printing i) n = n ≡ i
AtIndex leaving n = 0 < n
AtIndex Child.gone n = 0 < n

record IsSystem (message : List ℕ) (s : System) : Type 0 where
  copied_in : copied message s.parent ≤ length message
  memory : (j : ℕ) → s.shm j ≡ (if ltb j (copied message s.parent) then get_or message j 0 else 0)
  prefix :
      (n : ℕ) × (n ≤ copied message s.parent) × (s.printed ≡ take n message) × AtIndex s.child n
  begun : s.child ≡ printing 0 → 0 < copied message s.parent
  waited : (s.parent ≡ unmapped) ⊎ (s.parent ≡ Parent.gone) → s.child ≡ Child.gone
  named_until : s.named ≡ false → s.parent ≡ Parent.gone

text_byte : (xs : List ℕ) (i : ℕ) → IsText xs → i < length xs → get_or xs i 0 ≢ 0
text_byte [] i h k = absurd (omega arith)
text_byte (x ∷ xs) zero h k = h.0
text_byte (x ∷ xs) (suc i) h k = text_byte xs i h.1 (omega arith)

take_more :
    (xs : List ℕ) (i : ℕ) → i < length xs → take (suc i) xs ≡ take i xs ++ get_or xs i 0 ∷ []
take_more [] i h = absurd (omega arith)
take_more (x ∷ xs) zero h = refl
take_more (x ∷ xs) (suc i) h = ap (λ l. x ∷ l) (take_more xs i (omega arith))

start-IsSystem : (message : List ℕ) → IsSystem message start
start-IsSystem message = record {
  copied_in = omega arith;
  memory = λ j. ground arith;
  prefix = (0, omega arith, refl, refl);
  begun = λ q. cc;
  waited = λ q. ground arith;
  named_until = λ q. cc;
}

module _ {message : List ℕ} {s : System} (v : IsSystem message s) where
  -- The byte that the child prints is the next of the message.
  print-prefix :
      (i : ℕ)
      → s.child ≡ printing i
      → s.shm i ≢ 0
      → (n : ℕ) × (n ≤ copied message s.parent)
        × (s.printed ++ s.shm i ∷ [] ≡ take n message)
        × (n ≡ i + 1)
  print-prefix i at more =
      let (n, h, e, k) = v.prefix in
      let here : n ≡ i = rw at at k in
      let below : i < copied message s.parent = ground (arith, v.memory i) in
      let byte : s.shm i ≡ get_or message i 0 = ground (arith, v.memory i) in
      let printed : s.printed ≡ take i message = e ∙ ap (λ m. take m message) here in
      (
        suc i,
        below,
        rw (byte, printed) (sym (take_more message i (omega (arith, v.copied_in)))),
        omega arith,
      )

  -- The first byte is no zero when the child gets to it.
  print_end-prefix :
      IsText message
      → (i : ℕ) → s.child ≡ printing i
      → s.shm i ≡ 0
      → (n : ℕ) × (n ≤ copied message s.parent) × (s.printed ≡ take n message) × (0 < n)
  print_end-prefix text i at over =
      let (n, h, e, k) = v.prefix in
      let here : n ≡ i = rw at at k in
      elim (Bool-cases (n == 0)) [
        | inr some ↦ (n, h, e, ground arith)
        | inl none ↦
            let first : i ≡ 0 = ground arith in
            let begun : 0 < copied message s.parent = v.begun (rw first at at) in
            absurd (
              text_byte message 0 text (omega (arith, v.copied_in))
                (ground (arith, v.memory 0, begun, first, over)))
      ]

Step-IsSystem :
    {message : List ℕ} {s t : System}
    → IsText message
    → Step message s t
    → IsSystem message s
    → IsSystem message t
Step-IsSystem {message} {s} text (copy i at more) v = record {
  copied_in = omega arith;
  memory = λ j. ground (arith, v.memory j);
  prefix = let (n, h, e, k) = v.prefix in (n, ground arith, e, k);
  begun = λ q. omega arith;
  waited = λ q. ground arith;
  named_until = λ q. ground (arith, v.named_until);
}
Step-IsSystem {message} {s} text (copy_zero i at all) v = record {
  copied_in = omega arith;
  memory = λ j. ground (arith, v.memory j);
  prefix = let (n, h, e, k) = v.prefix in (n, ground arith, e, k);
  begun = λ q. ground (arith, v.begun q);
  waited = λ q. ground arith;
  named_until = λ q. ground (arith, v.named_until);
}
Step-IsSystem {message} {s} text (see at first) v = record {
  copied_in = v.copied_in;
  memory = v.memory;
  prefix = let (n, h, e, k) = v.prefix in (n, h, e, ground arith);
  begun = λ q. ground (arith, v.memory 0);
  waited = λ q. ground (arith, v.waited);
  named_until = v.named_until;
}
Step-IsSystem {message} {s} text (print i at more) v = record {
  copied_in = v.copied_in;
  memory = v.memory;
  prefix = print-prefix v i at more;
  begun = λ q. ground arith;
  waited = λ q. ground (arith, v.waited);
  named_until = v.named_until;
}
Step-IsSystem {message} {s} text (print_end i at over) v = record {
  copied_in = v.copied_in;
  memory = v.memory;
  prefix = print_end-prefix v text i at over;
  begun = λ q. cc;
  waited = λ q. ground (arith, v.waited);
  named_until = v.named_until;
}
Step-IsSystem {message} {s} text (child_exit at) v = record {
  copied_in = v.copied_in;
  memory = v.memory;
  prefix = let (n, h, e, k) = v.prefix in (n, h, e, ground arith);
  begun = λ q. cc;
  waited = λ q. refl;
  named_until = v.named_until;
}
Step-IsSystem {message} {s} text (waitpid at over) v = record {
  copied_in = omega arith;
  memory = λ j. ground (arith, v.memory j);
  prefix = let (n, h, e, k) = v.prefix in (n, ground arith, e, k);
  begun = λ q. ground (arith, v.begun q);
  waited = λ q. over;
  named_until = λ q. ground (arith, v.named_until);
}
Step-IsSystem {message} {s} text (shm_unlink at) v = record {
  copied_in = omega arith;
  memory = λ j. ground (arith, v.memory j);
  prefix = let (n, h, e, k) = v.prefix in (n, ground arith, e, k);
  begun = λ q. ground (arith, v.begun q);
  waited = λ q. v.waited (inl at);
  named_until = λ q. refl;
}

Reach-IsSystem :
    {message : List ℕ} {s : System} → IsText message → Reach message s → IsSystem message s
Reach-IsSystem {message} text started = start-IsSystem message
Reach-IsSystem text (next run p) = Step-IsSystem text p (Reach-IsSystem text run)

-- the run in which the child overtakes strcpy() after the first byte
abbrev early : ℕ → System
early x = record start {
  shm = write_byte (λ _. 0) 0 x;
  parent = copying 1;
  child = Child.gone;
  printed = x ∷ [];
}

early_run : (x y : ℕ) (xs : List ℕ) → x ≢ 0 → Reach (x ∷ y ∷ xs) (early x)
early_run x y xs ne =
    next
      (next (next (next (next started (copy 0 refl (omega arith))) (see refl ne)) (print 0 refl ne))
        (print_end 1 refl refl))
      (child_exit refl)

-- For a message with no zero byte, in every state that the processes reach, what the child has printed is a
-- beginning of the message, and not empty once it is through; the name is removed only after the child has
-- gone. A child that is through may have printed the first byte only of a message of two bytes or more, since
-- it starts as soon as that byte is written.
pub Reach-prefix :
    (message : List ℕ)
    → IsText message
    → ((s : System)
        → Reach message s
        → ((n : ℕ) × (s.printed ≡ take n message) × (s.child ≡ Child.gone → 0 < n))
          × (s.named ≡ false → s.child ≡ Child.gone))
      × (1 < length message
          → (s : System) × Reach message s × (s.child ≡ Child.gone) × (s.printed ≡ take 1 message))
Reach-prefix message text = (
  λ s run.
      let v = Reach-IsSystem text run in
      let (n, h, e, k) = v.prefix in
      ((n, e, λ q. subst (λ c. AtIndex c n) q k), λ q. v.waited (inr (v.named_until q))),
  partial message text,
)
  where
    partial :
        (m : List ℕ)
        → IsText m
        → 1 < length m
        → (s : System) × Reach m s × (s.child ≡ Child.gone) × (s.printed ≡ take 1 m)
    partial [] t h = absurd (omega arith)
    partial (x ∷ []) t h = absurd (omega arith)
    partial (x ∷ y ∷ xs) t h = (early x, early_run x y xs t.0, refl, refl)
