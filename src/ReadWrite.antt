-- ===== src/ReadWrite.antt =====
-- thread_test/wr_rd_lock.c: three readers print a number that a writer changes, under a read-write lock. A
-- load, a store, and what printf() writes are steps of their own.
use linux_system_programing.Prelude.{
  ℕ, ◌+◌, ◌*◌, ◌-◌, ◌<◌, ◌≤◌, ◌≡◌, refl, ap, List, [], ◌∷◌, ◌++◌, length, length-append, Option,
  none, some, arith,
}

-- how often the writer changes `config`
abbrev pub updates : ℕ
updates = 5

-- `config`; how many readers have not begun, and of those with the lock how many have loaded nothing yet, what the
-- others have loaded and not yet printed, and how many have printed; all that was printed, newest first;
-- and the writer: the updates it has made, how far it is, and what it has loaded and not yet stored.
pub record System : Type 0 where
  pub config : ℕ
  pub readers : ℕ
  pub entered : ℕ
  pub seen : List ℕ
  pub leaving : ℕ
  pub printed : List ℕ
  pub updated : ℕ
  pub writing : ℕ
  pub loaded : Option ℕ

abbrev pub start : System
start = record {
  config = 100;
  readers = 3;
  entered = 0;
  seen = [];
  leaving = 0;
  printed = [];
  updated = 0;
  writing = 0;
  loaded = none;
}

-- how many readers have the lock
abbrev pub reading : System → ℕ
reading s = s.entered + length s.seen + s.leaving

-- `writing` is 1 when the writer has the lock, 2 once it has stored, 3 once it has printed, and 0 without the
-- lock.
pub data Step (s : System) : System → Type 0 where
  rdlock :
      0 < s.readers
      → s.writing ≡ 0
      → Step s (record s { readers = s.readers - 1; entered = s.entered + 1 })
  look : 0 < s.entered → Step s (record s { entered = s.entered - 1; seen = s.config ∷ s.seen })
  read :
      (xs : List ℕ) (x : ℕ) (ys : List ℕ)
      → s.seen ≡ xs ++ x ∷ ys
      → Step s (record s { seen = xs ++ ys; leaving = s.leaving + 1; printed = x ∷ s.printed })
  rdunlock : 0 < s.leaving → Step s (record s { leaving = s.leaving - 1 })
  wrlock : s.updated < updates → s.writing ≡ 0 → reading s ≡ 0 → Step s (record s { writing = 1 })
  load : s.writing ≡ 1 → s.loaded ≡ none → Step s (record s { loaded = some s.config })
  store :
      (x : ℕ)
      → s.loaded ≡ some x
      → Step s (record s { config = x + 10; updated = s.updated + 1; loaded = none; writing = 2 })
  report : s.writing ≡ 2 → Step s (record s { writing = 3; printed = s.config ∷ s.printed })
  wrunlock : s.writing ≡ 3 → Step s (record s { writing = 0 })

pub data Reach : System → Type 0 where
  started : Reach start
  next : {s t : System} → Reach s → Step s t → Reach t

-- What is printed never falls, and is the number after some of the updates; `m` is the number now.
abbrev pub IsRising : ℕ → List ℕ → Type 0
IsRising m [] = Unit {0}
IsRising m (x ∷ xs) = (x ≤ m) × ((k : ℕ) × (x ≡ 100 + 10 * k)) × IsRising x xs

abbrev AllAre : ℕ → List ℕ → Type 0
AllAre c [] = Unit {0}
AllAre c (x ∷ xs) = (x ≡ c) × AllAre c xs

record IsSystem (s : System) : Type 0 where
  value : s.config ≡ 100 + 10 * s.updated
  in_use : (x : ℕ) → s.loaded ≡ some x → (s.writing ≡ 1) × (x ≡ s.config) × (s.updated < updates)
  updated_in : s.updated ≤ updates
  exclusive : 0 < s.writing → reading s ≡ 0
  more : s.writing ≡ 1 → s.updated < updates
  current : AllAre s.config s.seen
  rising : IsRising s.config s.printed

IsRising-more : (m n : ℕ) (xs : List ℕ) → m ≤ n → IsRising m xs → IsRising n xs
IsRising-more m n [] h w = tt
IsRising-more m n (x ∷ xs) h w = (omega (arith, w.0), w.1, w.2)

AllAre-take :
    (c : ℕ) (xs : List ℕ) (x : ℕ) (ys : List ℕ)
    → AllAre c (xs ++ x ∷ ys)
    → (x ≡ c) × AllAre c (xs ++ ys)
AllAre-take c [] x ys w = w
AllAre-take c (z ∷ xs) x ys w = let (e, rest) = AllAre-take c xs x ys w.1 in (e, (w.0, rest))

AllAre-none : (c : ℕ) (xs : List ℕ) → length xs ≡ 0 → AllAre c xs
AllAre-none c [] h = tt
AllAre-none c (x ∷ xs) h = absurd (omega arith)

Step-IsSystem : {s t : System} → Step s t → IsSystem s → IsSystem t
Step-IsSystem (rdlock some_left free) v = record {
  value = v.value;
  in_use = v.in_use;
  updated_in = v.updated_in;
  exclusive = λ p. absurd (omega arith);
  more = v.more;
  current = v.current;
  rising = v.rising;
}
Step-IsSystem {s} (look some_in) v = record {
  value = v.value;
  in_use = v.in_use;
  updated_in = v.updated_in;
  exclusive = λ p. let e = v.exclusive p in absurd (omega arith);
  more = v.more;
  current = (refl, v.current);
  rising = v.rising;
}
Step-IsSystem {s} (read xs x ys e) v =
    let (now, rest) = AllAre-take s.config xs x ys (rw e at v.current) in
    record {
      value = v.value;
      in_use = v.in_use;
      updated_in = v.updated_in;
      exclusive = λ p.
          let alone = v.exclusive p in
          absurd (omega (arith, alone, ap length e, length-append xs (x ∷ ys)));
      more = v.more;
      current = rest;
      rising = (
        omega arith,
        (s.updated, omega (arith, v.value)),
        IsRising-more s.config x s.printed (omega arith) v.rising,
      );
    }
Step-IsSystem {s} (rdunlock some_out) v = record {
  value = v.value;
  in_use = v.in_use;
  updated_in = v.updated_in;
  exclusive = λ p. let e = v.exclusive p in absurd (omega arith);
  more = v.more;
  current = v.current;
  rising = v.rising;
}
Step-IsSystem (wrlock left free alone) v = record {
  value = v.value;
  in_use = λ x q. let g = v.in_use x q in absurd (omega arith);
  updated_in = v.updated_in;
  exclusive = λ p. alone;
  more = λ p. left;
  current = v.current;
  rising = v.rising;
}
Step-IsSystem (load has none_yet) v = record {
  value = v.value;
  in_use = λ x q. (has, ground arith, v.more has);
  updated_in = v.updated_in;
  exclusive = v.exclusive;
  more = v.more;
  current = v.current;
  rising = v.rising;
}
Step-IsSystem {s} (store x e) v =
    let g = v.in_use x e in
    let alone = v.exclusive (omega arith) in
    record {
      value = omega (arith, v.value);
      in_use = λ y q. cc;
      updated_in = omega arith;
      exclusive = λ p. alone;
      more = λ p. absurd (omega arith);
      current = AllAre-none (x + 10) s.seen (omega (arith, alone));
      rising = IsRising-more s.config (x + 10) s.printed (omega arith) v.rising;
    }
Step-IsSystem {s} (report has) v = record {
  value = v.value;
  in_use = λ x q. let g = v.in_use x q in absurd (omega arith);
  updated_in = v.updated_in;
  exclusive = λ p. v.exclusive (omega arith);
  more = λ p. absurd (omega arith);
  current = v.current;
  rising = (omega arith, (s.updated, v.value), v.rising);
}
Step-IsSystem (wrunlock has) v = record {
  value = v.value;
  in_use = λ x q. let g = v.in_use x q in absurd (omega arith);
  updated_in = v.updated_in;
  exclusive = λ p. absurd (omega arith);
  more = λ p. absurd (omega arith);
  current = v.current;
  rising = v.rising;
}

Reach-IsSystem : {s : System} → Reach s → IsSystem s
Reach-IsSystem started = record {
  value = refl;
  in_use = λ x q. cc;
  updated_in = omega arith;
  exclusive = λ p. refl;
  more = λ p. absurd (omega arith);
  current = tt;
  rising = tt;
}
Reach-IsSystem (next r p) = Step-IsSystem p (Reach-IsSystem r)

-- In every state that the threads reach: `config` is 100 and ten for each update made, five at most; and what
-- the readers and the writer have printed never falls from one line to the next, though a reader loads the number
-- before it prints it, is not above the number now, and is 100 and a multiple of ten each time.
pub Reach-configs :
    {s : System}
    → Reach s
    → (s.config ≡ 100 + 10 * s.updated) × (s.updated ≤ updates) × IsRising s.config s.printed
Reach-configs run = let v = Reach-IsSystem run in (v.value, v.updated_in, v.rising)
