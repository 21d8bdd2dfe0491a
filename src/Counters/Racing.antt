-- ===== src/Counters/Racing.antt =====
-- thread_test/pthread_no_mutex.c: `count++` is a load and a store, and nothing keeps the other thread out
-- in between. `n` stands for the 100000 of the source.
use linux_system_programing.Prelude.{
  ℕ, zero, suc, ◌+◌, ◌*◌, ◌<◌, ◌≤◌, ◌≡◌, refl, Option, none, some, arith, subst,
}

-- `i`, and the value that the thread has loaded and not yet stored
pub record Thread : Type 0 where
  pub i : ℕ
  pub loaded : Option ℕ

pub record System : Type 0 where
  pub count : ℕ
  pub th1 : Thread
  pub th2 : Thread

abbrev pub fresh : Thread
fresh = record { i = 0; loaded = none }

-- `main` after it has created the threads
abbrev pub start : System
start = record { count = 0; th1 = fresh; th2 = fresh }

-- A step of one thread, with what it makes of `count`.
pub data Move (n count : ℕ) (t : Thread) : ℕ → Thread → Type 0 where
  load : t.i < n → t.loaded ≡ none → Move n count t count (record t { loaded = some count })
  store :
      (x : ℕ) → t.loaded ≡ some x → Move n count t (x + 1) (record { i = t.i + 1; loaded = none })

pub data Step (n : ℕ) (s : System) : System → Type 0 where
  by_th1 :
      {c : ℕ} {t : Thread}
      → Move n s.count s.th1 c t
      → Step n s (record { count = c; th1 = t; th2 = s.th2 })
  by_th2 :
      {c : ℕ} {t : Thread}
      → Move n s.count s.th2 c t
      → Step n s (record { count = c; th1 = s.th1; th2 = t })

pub data Reach (n : ℕ) : System → Type 0 where
  started : Reach n start
  next : {s t : System} → Reach n s → Step n s t → Reach n t

-- a thread that has left its loop
pub record IsFinished (n : ℕ) (t : Thread) : Type 0 where
  pub all : t.i ≡ n
  pub stored : t.loaded ≡ none

-- What one thread has loaded, and what it has done.
record IsThread (n total : ℕ) (t : Thread) : Type 0 where
  in_loop : t.i ≤ n
  going : (x : ℕ) → t.loaded ≡ some x → (t.i < n) × (x ≤ total)

record IsSystem (n : ℕ) (s : System) : Type 0 where
  bound : s.count ≤ s.th1.i + s.th2.i
  some_count : 0 < s.th1.i + s.th2.i → 0 < s.count
  first : IsThread n (s.th1.i + s.th2.i) s.th1
  second : IsThread n (s.th1.i + s.th2.i) s.th2

-- What one thread's step keeps, where the other has done `other` rounds.
record Moved (n other c : ℕ) (t : Thread) (i : ℕ) : Type 0 where
  count_in : c ≤ t.i + other
  onward : i ≤ t.i
  positive : 0 < t.i + other → 0 < c
  sound : IsThread n (t.i + other) t

Move-Moved :
    {n count c other : ℕ} {t u : Thread}
    → count ≤ t.i + other
    → (0 < t.i + other → 0 < count)
    → IsThread n (t.i + other) t
    → Move n count t c u
    → Moved n other c u t.i
Move-Moved h pos w (load below none_yet) = record {
  count_in = h;
  onward = omega arith;
  positive = pos;
  sound = record { in_loop = w.in_loop; going = λ x q. ground arith };
}
Move-Moved {t = t} h pos w (store x e) =
    let g = w.going x e in
    record {
      count_in = omega arith;
      onward = omega arith;
      positive = λ _. omega arith;
      sound = record { in_loop = omega arith; going = λ y q. cc };
    }

-- The other thread sees the total grow.
grown-IsThread : {n a b : ℕ} {t : Thread} → a ≤ b → IsThread n a t → IsThread n b t
grown-IsThread h w = record {
  in_loop = w.in_loop;
  going = λ x q. let g = w.going x q in omega arith;
}

Step-IsSystem : {n : ℕ} {s t : System} → Step n s t → IsSystem n s → IsSystem n t
Step-IsSystem {s = s} (by_th1 m) v =
    let w = Move-Moved {other = s.th2.i} v.bound v.some_count v.first m in
    record {
      bound = w.count_in;
      some_count = w.positive;
      first = w.sound;
      second = grown-IsThread (omega (arith, w.onward)) v.second;
    }
Step-IsSystem {s = s} (by_th2 m) v =
    let w =
      Move-Moved {other = s.th1.i} (omega (arith, v.bound)) (λ p. v.some_count (omega arith))
        (grown-IsThread (omega arith) v.second) m in
    record {
      bound = omega (arith, w.count_in);
      some_count = λ p. w.positive (omega arith);
      first = grown-IsThread (omega (arith, w.onward)) v.first;
      second = grown-IsThread (omega arith) w.sound;
    }

Reach-IsSystem : {n : ℕ} {s : System} → Reach n s → IsSystem n s
Reach-IsSystem started = record {
  bound = omega arith;
  some_count = λ p. absurd (omega arith);
  first = record { in_loop = omega arith; going = λ x q. cc };
  second = record { in_loop = omega arith; going = λ x q. cc };
}
Reach-IsSystem (next r st) = Step-IsSystem st (Reach-IsSystem r)

-- Both threads in step lose half of what they count.
in_step :
    (n k : ℕ)
    → k ≤ n
    → Reach n (record {
      count = k;
      th1 = record { i = k; loaded = none };
      th2 = record { i = k; loaded = none };
    })
in_step n zero h = started
in_step n (suc k) h =
    let r = in_step n k (omega arith) in
    let e : k + 1 ≡ suc k = omega arith in
    subst
      (λ m. Reach n (record {
        count = m;
        th1 = record { i = m; loaded = none };
        th2 = record { i = m; loaded = none };
      }))
      e
      (next
        (next (next (next r (by_th1 (load (omega arith) refl))) (by_th2 (load (omega arith) refl)))
          (by_th1 (store k refl)))
        (by_th2 (store k refl)))

-- When both threads have left their loops of `n` rounds (at least one), `count` is between 1 and 2n; and
-- for every `n` there is a run that ends with n, the increments of one thread lost.
pub IsFinished-bounds :
    (n : ℕ)
    → 0 < n
    → ((s : System)
        → Reach n s
        → IsFinished n s.th1
        → IsFinished n s.th2
        → (0 < s.count) × (s.count ≤ 2 * n))
      × ((s : System) × Reach n s × IsFinished n s.th1 × IsFinished n s.th2 × (s.count ≡ n))
IsFinished-bounds n pos = (
  λ s r f g.
      let v : IsSystem n s = Reach-IsSystem r in
      (v.some_count (omega (arith, f.all)), omega (arith, v.bound, f.all, g.all)),
  (
    record {
      count = n;
      th1 = record { i = n; loaded = none };
      th2 = record { i = n; loaded = none };
    },
    in_step n n (omega arith),
    record { all = refl; stored = refl },
    record { all = refl; stored = refl },
    refl,
  ),
)
