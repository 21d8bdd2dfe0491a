-- ===== src/Counters/Locked.antt =====
-- thread_test/pthread_have_mutex.c: each thread holds the mutex for its whole loop. `n` stands for the
-- 100000 of the source.
use linux_system_programing.Prelude.{
  ℕ, ◌+◌, ◌*◌, ◌<◌, ◌≤◌, ◌≡◌, ◌≢◌, refl, Option, none, some, arith,
}

-- Where a thread is: before pthread_mutex_lock(), with the mutex, or after pthread_mutex_unlock().
pub data Place : Type 0 where
  outside holding gone : Place

pub record Thread : Type 0 where
  pub place : Place
  pub i : ℕ
  pub loaded : Option ℕ

pub record System : Type 0 where
  pub count : ℕ
  pub th1 : Thread
  pub th2 : Thread

abbrev pub fresh : Thread
fresh = record { place = outside; i = 0; loaded = none }

abbrev pub start : System
start = record { count = 0; th1 = fresh; th2 = fresh }

-- A step of one thread beside another.
pub data Move (n count : ℕ) (other t : Thread) : ℕ → Thread → Type 0 where
  lock :
      t.place ≡ outside
      → other.place ≢ holding
      → Move n count other t count (record t { place = holding })
  load :
      t.place ≡ holding
      → t.i < n
      → t.loaded ≡ none
      → Move n count other t count (record t { loaded = some count })
  store :
      (x : ℕ)
      → t.loaded ≡ some x
      → Move n count other t (x + 1) (record t { i = t.i + 1; loaded = none })
  unlock : t.place ≡ holding → t.i ≡ n → Move n count other t count (record t { place = gone })

pub data Step (n : ℕ) (s : System) : System → Type 0 where
  by_th1 :
      {c : ℕ} {t : Thread}
      → Move n s.count s.th2 s.th1 c t
      → Step n s (record { count = c; th1 = t; th2 = s.th2 })
  by_th2 :
      {c : ℕ} {t : Thread}
      → Move n s.count s.th1 s.th2 c t
      → Step n s (record { count = c; th1 = s.th1; th2 = t })

pub data Reach (n : ℕ) : System → Type 0 where
  started : Reach n start
  next : {s t : System} → Reach n s → Step n s t → Reach n t

-- Only the thread with the mutex has loaded, and what it has loaded is the count.
record IsThread (n count : ℕ) (t : Thread) : Type 0 where
  in_loop : t.i ≤ n
  going : (x : ℕ) → t.loaded ≡ some x → (t.place ≡ holding) × (x ≡ count) × (t.i < n)
  over : t.place ≡ gone → t.i ≡ n

record IsPair (n count : ℕ) (a b : Thread) : Type 0 where
  total : count ≡ a.i + b.i
  exclusive : a.place ≡ holding → b.place ≢ holding
  first : IsThread n count a
  second : IsThread n count b

swap : {n count : ℕ} {a b : Thread} → IsPair n count a b → IsPair n count b a
swap v = record {
  total = omega (arith, v.total);
  exclusive = λ p q. v.exclusive q p;
  first = v.second;
  second = v.first;
}

Move-IsPair :
    {n count c : ℕ} {a b t : Thread} → IsPair n count a b → Move n count b a c t → IsPair n c t b
Move-IsPair v (lock out free) = record {
  total = v.total;
  exclusive = λ p. free;
  first = record {
    in_loop = v.first.in_loop;
    going = λ x q. let g = v.first.going x q in (refl, g.1, g.2);
    over = λ p. cc;
  };
  second = v.second;
}
Move-IsPair {b = b} v (load has below none_yet) = record {
  total = v.total;
  exclusive = λ p. v.exclusive p;
  first = record {
    in_loop = v.first.in_loop;
    going = λ x q. (has, ground arith, below);
    over = v.first.over;
  };
  second = v.second;
}
Move-IsPair {a = a} {b = b} v (store x e) =
    let g = v.first.going x e in
    record {
      total = omega (arith, v.total);
      exclusive = v.exclusive;
      first = record { in_loop = omega arith; going = λ y q. cc; over = λ p. absurd (cc (g.0, p)) };
      second = record {
        in_loop = v.second.in_loop;
        going = λ y q. let h = v.second.going y q in absurd (v.exclusive g.0 h.0);
        over = v.second.over;
      };
    }
Move-IsPair v (unlock has all) = record {
  total = v.total;
  exclusive = λ p. cc;
  first = record {
    in_loop = v.first.in_loop;
    going = λ x q. let g = v.first.going x q in absurd (omega arith);
    over = λ p. all;
  };
  second = v.second;
}

Reach-IsPair : {n : ℕ} {s : System} → Reach n s → IsPair n s.count s.th1 s.th2
Reach-IsPair started = record {
  total = refl;
  exclusive = λ p. cc;
  first = record { in_loop = omega arith; going = λ x q. cc; over = λ p. cc };
  second = record { in_loop = omega arith; going = λ x q. cc; over = λ p. cc };
}
Reach-IsPair (next r (by_th1 m)) = Move-IsPair (Reach-IsPair r) m
Reach-IsPair (next r (by_th2 m)) = swap (Move-IsPair (swap (Reach-IsPair r)) m)

-- In every state that the threads reach, `count` is the sum of the rounds that they have done, and one of
-- them at most has the mutex; when both are through, it is 2n.
pub Reach-total :
    {n : ℕ} {s : System}
    → Reach n s
    → (s.count ≡ s.th1.i + s.th2.i)
      × (s.th1.place ≡ holding → s.th2.place ≢ holding)
      × (s.th1.place ≡ gone → s.th2.place ≡ gone → s.count ≡ 2 * n)
Reach-total r =
    let v = Reach-IsPair r in
    (v.total, v.exclusive, λ p q. omega (arith, v.total, v.first.over p, v.second.over q))
