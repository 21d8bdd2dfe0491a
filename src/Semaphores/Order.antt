-- ===== src/Semaphores/Order.antt =====
-- What the consumer of thread_test/sem_pro_con_prob.c prints.
use linux_system_programing.Prelude.{
  ℕ, zero, suc, ◌+◌, ◌%◌, ◌<◌, ◌≤◌, ◌≡◌, refl, ◌∙◌, ap, ap₂, List, [], ◌∷◌, ◌++◌, get_or, set,
  length, length-set, length-replicate, get_or-set_self, get_or-set_ne, arith, Bool-cases, inl, inr,
  ◌==◌,
}
use linux_system_programing.Semaphores.System.{
  buf_size, missions, buf_init, produce, mission_at, consume, At, waiting, locking, inside, leaving,
  posting, System, start, holds, Produce, sem_wait_empty, write, sem_post_full, Consume,
  sem_wait_full, read, sem_post_empty, by_producer, by_consumer, Reach, started, next,
}

-- 1 for a thread that has taken from its semaphore and not yet given to the other
abbrev pub permit : At → ℕ
permit waiting = 0
permit locking = 1
permit inside = 1
permit leaving = 1
permit posting = 1

-- 1 for a thread that has done its access to the buffer
abbrev pub past : At → ℕ
past waiting = 0
past locking = 0
past inside = 0
past leaving = 1
past posting = 1

-- how many missions are in the buffer or have been, and how many the consumer has read
abbrev pub written : System → ℕ
written s = s.made + past s.producer

abbrev pub read_count : System → ℕ
read_count s = s.used + past s.consumer

-- 0, 1, … below n
abbrev pub upto : ℕ → List ℕ
upto zero = []
upto (suc n) = upto n ++ n ∷ []

pub record IsSystem (s : System) : Type 0 where
  pub whole : length s.buf.slots ≡ buf_size
  pub fulls : s.made ≡ s.full + s.used + permit s.consumer
  pub empties : s.empty + s.made + permit s.producer ≡ buf_size + s.used
  pub made_in : s.made + permit s.producer ≤ missions
  pub used_in : s.used + permit s.consumer ≤ missions
  pub exclusive : holds s.producer + holds s.consumer ≤ 1
  pub kept : (k : ℕ) → read_count s ≤ k → k < written s → get_or s.buf.slots (k % buf_size) 0 ≡ k
  pub printed : s.printed ≡ upto (read_count s)

start-IsSystem : IsSystem start
unfolding buf_init
start-IsSystem = record {
  whole = length-replicate {A = ℕ} buf_size 0;
  fulls = refl;
  empties = refl;
  made_in = omega arith;
  used_in = omega arith;
  exclusive = omega arith;
  kept = λ k h l. absurd (omega arith);
  printed = refl;
}

past-le-permit : (a : At) → past a ≤ permit a
past-le-permit waiting = omega arith
past-le-permit locking = omega arith
past-le-permit inside = omega arith
past-le-permit leaving = omega arith
past-le-permit posting = omega arith

-- what is known of a thread's place
record IsAt (a b : At) : Type 0 where
  permits : permit a ≡ permit b
  pasts : past a ≡ past b
  hold : holds a ≡ holds b

at_place : {a b : At} → a ≡ b → IsAt a b
at_place e = record { permits = ap permit e; pasts = ap past e; hold = ap holds e }

module _ {s : System} (v : IsSystem s) where
  -- the same missions are in the buffer
  kept_as :
      (r w : ℕ)
      → read_count s ≡ r
      → written s ≡ w
      → (k : ℕ) → r ≤ k
      → k < w
      → get_or s.buf.slots (k % buf_size) 0 ≡ k
  kept_as r w p q k h l = v.kept k (omega arith) (omega arith)

  printed_as : (r : ℕ) → read_count s ≡ r → s.printed ≡ upto r
  printed_as r p = v.printed ∙ ap upto p

  -- The mission that is written takes a place that none of the others has.
  written_at :
      (k : ℕ)
      → read_count s ≤ k
      → k < s.made + 1
      → s.producer ≡ inside
      → get_or (set s.buf.slots (s.made % buf_size) s.made) (k % buf_size) 0 ≡ k
  written_at k h l at = elim (Bool-cases (k == s.made)) [
    | inl e ↦
        let same : k ≡ s.made = ground arith in
        rw same (get_or-set_self s.buf.slots (s.made % buf_size) s.made 0 (omega (arith, v.whole)))
    | inr e ↦
        let w = at_place at in
        let below : k < s.made = ground arith in
        get_or-set_ne s.buf.slots (s.made % buf_size) (k % buf_size) s.made 0
          (λ q. omega (arith, v.empties, w, below, past-le-permit s.consumer))
        ∙ v.kept k h (omega (arith, w, below))
  ]

  Produce-IsSystem : {t : System} → Produce s t → IsSystem t
  unfolding produce
  Produce-IsSystem (sem_wait_empty at more some_empty) =
      let w = at_place at in
      record {
        whole = v.whole;
        fulls = v.fulls;
        empties = omega (arith, v.empties, w);
        made_in = omega arith;
        used_in = v.used_in;
        exclusive = omega (arith, v.exclusive, w);
        kept = kept_as _ _ refl (omega (arith, w));
        printed = v.printed;
      }
  Produce-IsSystem (Produce.lock at free) =
      let w = at_place at in
      record {
        whole = v.whole;
        fulls = v.fulls;
        empties = omega (arith, v.empties, w);
        made_in = omega (arith, v.made_in, w);
        used_in = v.used_in;
        exclusive = omega arith;
        kept = kept_as _ _ refl (omega (arith, w));
        printed = v.printed;
      }
  Produce-IsSystem (write at) =
      let w = at_place at in
      record {
        whole = length-set s.buf.slots (s.made % buf_size) s.made ∙ v.whole;
        fulls = v.fulls;
        empties = omega (arith, v.empties, w);
        made_in = omega (arith, v.made_in, w);
        used_in = v.used_in;
        exclusive = omega (arith, v.exclusive, w);
        kept = λ k h l. written_at k h (omega (arith, w)) at;
        printed = v.printed;
      }
  Produce-IsSystem (Produce.unlock at) =
      let w = at_place at in
      record {
        whole = v.whole;
        fulls = v.fulls;
        empties = omega (arith, v.empties, w);
        made_in = omega (arith, v.made_in, w);
        used_in = v.used_in;
        exclusive = omega (arith, v.exclusive, w);
        kept = kept_as _ _ refl (omega (arith, w));
        printed = v.printed;
      }
  Produce-IsSystem (sem_post_full at) =
      let w = at_place at in
      record {
        whole = v.whole;
        fulls = omega (arith, v.fulls);
        empties = omega (arith, v.empties, w);
        made_in = omega (arith, v.made_in, w);
        used_in = v.used_in;
        exclusive = omega (arith, v.exclusive, w);
        kept = kept_as _ _ refl (omega (arith, w));
        printed = v.printed;
      }

  -- The mission that is read is the next one.
  read_at : s.consumer ≡ inside → mission_at s.used s.buf ≡ s.used
  unfolding mission_at
  read_at at = let w = at_place at in v.kept s.used (omega (arith, w)) (omega (arith, v.fulls, w))

  Consume-IsSystem : {t : System} → Consume s t → IsSystem t
  unfolding consume
  Consume-IsSystem (sem_wait_full at more some_full) =
      let w = at_place at in
      record {
        whole = v.whole;
        fulls = omega (arith, v.fulls, w);
        empties = v.empties;
        made_in = v.made_in;
        used_in = omega arith;
        exclusive = omega (arith, v.exclusive, w);
        kept = kept_as _ _ (omega (arith, w)) refl;
        printed = printed_as (s.used + 0) (omega (arith, w));
      }
  Consume-IsSystem (Consume.lock at free) =
      let w = at_place at in
      record {
        whole = v.whole;
        fulls = omega (arith, v.fulls, w);
        empties = v.empties;
        made_in = v.made_in;
        used_in = omega (arith, v.used_in, w);
        exclusive = omega arith;
        kept = kept_as _ _ (omega (arith, w)) refl;
        printed = printed_as (s.used + 0) (omega (arith, w));
      }
  Consume-IsSystem (read at) =
      let w = at_place at in
      record {
        whole = length-set s.buf.slots (s.used % buf_size) 0 ∙ v.whole;
        fulls = omega (arith, v.fulls, w);
        empties = v.empties;
        made_in = v.made_in;
        used_in = omega (arith, v.used_in, w);
        exclusive = omega (arith, v.exclusive, w);
        kept = λ k h l.
            get_or-set_ne s.buf.slots (s.used % buf_size) (k % buf_size) 0 0
              (λ q. omega (arith, v.empties, w, past-le-permit s.producer))
            ∙ v.kept k (omega (arith, w)) l;
        printed =
            ap₂ (λ l x. l ++ x ∷ []) (printed_as s.used (omega (arith, w))) (read_at at)
            ∙ ap upto (let e : suc s.used ≡ s.used + 1 = omega arith in e);
      }
  Consume-IsSystem (Consume.unlock at) =
      let w = at_place at in
      record {
        whole = v.whole;
        fulls = omega (arith, v.fulls, w);
        empties = v.empties;
        made_in = v.made_in;
        used_in = omega (arith, v.used_in, w);
        exclusive = omega (arith, v.exclusive, w);
        kept = kept_as _ _ (omega (arith, w)) refl;
        printed = printed_as (s.used + 1) (omega (arith, w));
      }
  Consume-IsSystem (sem_post_empty at) =
      let w = at_place at in
      record {
        whole = v.whole;
        fulls = omega (arith, v.fulls, w);
        empties = omega (arith, v.empties);
        made_in = v.made_in;
        used_in = omega (arith, v.used_in, w);
        exclusive = omega (arith, v.exclusive, w);
        kept = kept_as _ _ (omega (arith, w)) refl;
        printed = printed_as (s.used + 1 + 0) (omega (arith, w));
      }

-- In every state that the threads reach, in any order of their steps: the consumer has printed the
-- missions 0, 1, 2, … that it has read, each once and in order; the missions written and not yet read
-- stand in the buffer, at most ten; the semaphores count them; and one thread at most has the mutex.
pub Reach-IsSystem : {s : System} → Reach s → IsSystem s
Reach-IsSystem started = start-IsSystem
Reach-IsSystem (next r (by_producer p)) = Produce-IsSystem (Reach-IsSystem r) p
Reach-IsSystem (next r (by_consumer c)) = Consume-IsSystem (Reach-IsSystem r) c
